-- ===== src/Interrupt/Entry/Restore.antt =====
-- What the pops at the end of the entry points of bootloader/delice_pxe/src/interrupt.s bring back.
use deliceos.Base.{
  ℕ, ◌+◌, ◌*◌, ◌^◌, ◌<◌, ◌≡◌, refl, ap, ◌∙◌, arith, List, [], ◌∷◌, ◌++◌, map, false, length, u16,
  u64, if◌then◌else◌, ◌==◌,
}
use deliceos.Memory.Cells.{read}
use deliceos.Interrupt.Entry.{
  Reg, rax, rsp, Segment, Instr, pop, mov_to, Core, same, put, step, exec, select, selector_number,
}
use deliceos.Interrupt.Entry.Stack.{Stacked, Saved, pop_segments}

-- The registers `f` with those of a list taken from `regs`.
abbrev pub restore : (Reg → ℕ) → List Reg → (Reg → ℕ) → Reg → ℕ
restore regs [] f = f
restore regs (r ∷ rs) f = restore regs rs (put f r (regs r))

abbrev pub restore_segments : (Segment → ℕ) → List Segment → (Segment → ℕ) → Segment → ℕ
restore_segments segments [] f = f
restore_segments segments (g ∷ gs) f = restore_segments segments gs (select f g (segments g))

put_cong : (f g : Reg → ℕ) (r q : Reg) (v : ℕ) → f q ≡ g q → put f r v q ≡ put g r v q
put_cong f g r q v e = ap (λ x. if same r q then v else x) e

restore_cong :
    (regs : Reg → ℕ) (rs : List Reg) (f g : Reg → ℕ) (q : Reg)
    → f q ≡ g q
    → restore regs rs f q ≡ restore regs rs g q
restore_cong regs [] f g q e = e
restore_cong regs (r ∷ rs) f g q e =
    restore_cong regs rs (put f r (regs r)) (put g r (regs r)) q (put_cong f g r q (regs r) e)

-- A run of pops from the stack at `a` of `from`.
pub record Popped (from to : Core) (b : ℕ) : Type 0 where
  pub at : to.regs rsp ≡ b
  pub machine : to.machine ≡ from.machine

module _ (regs : Reg → ℕ) where
  abbrev popped : Reg → Core → Core
  popped r c = record c { regs = put (put c.regs rsp (u64 (c.regs rsp + 8))) r (regs r) }

  pub pop_registers :
      (rs : List Reg) (c : Core) (a b : ℕ) (ws : List ℕ) (rest : List Instr)
      → b ≡ a + 8 * length rs
      → b < 2 ^ 64
      → Saved rs
      → c.regs rsp ≡ a
      → Stacked c.machine.mem a (map regs rs ++ ws)
      → (c' : Core) × (exec (map pop rs ++ rest) c ≡ exec rest c')
        × Popped c c' b
        × (c'.segments ≡ c.segments)
        × ((q : Reg) → same rsp q ≡ false → c'.regs q ≡ restore regs rs c.regs q)
  unfolding exec step
  pop_registers [] c a b ws rest e few safe at h =
      (c, refl, record { at = omega (arith, at); machine = refl }, refl, λ q other. refl)
  pop_registers (r ∷ rs) c a b ws rest e few safe at h =
      let one : step (pop r) c ≡ popped r c =
        ap (λ v. record c { regs = put (put c.regs rsp (u64 (c.regs rsp + 8))) r v })
          (ap (read 8 c.machine.mem) at ∙ h.0) in
      let back : same r rsp ≡ false = ground (arith, safe.0) in
      let there : (popped r c).regs rsp ≡ a + 8 = rw back (omega (arith, at)) in
      let (c', runs, to, selectors, kept) =
        pop_registers rs (popped r c) (a + 8) b ws rest (omega arith) few safe.1 there h.1 in
      (
        c',
        ap (exec (map pop rs ++ rest)) one ∙ runs,
        record { at = to.at; machine = to.machine },
        selectors,
        λ q other.
            kept q other
            ∙ restore_cong regs rs (popped r c).regs (put c.regs r (regs r)) q (
                put_cong (put c.regs rsp (u64 (c.regs rsp + 8))) c.regs r q (regs r)
                  (rw other refl)),
      )

segments_cong :
    (segments : Segment → ℕ) (gs : List Segment) (f g : Segment → ℕ) (h : Segment)
    → f h ≡ g h
    → restore_segments segments gs f h ≡ restore_segments segments gs g h
segments_cong segments [] f g h e = e
segments_cong segments (k ∷ gs) f g h e =
    segments_cong segments gs (select f k (segments k)) (select g k (segments k)) h
      (ap (λ x. if selector_number k == selector_number h then segments k else x) e)

module _ (segments : Segment → ℕ) (words : (g : Segment) → segments g < 2 ^ 16) where
  pub pop_segments_lem :
      (gs : List Segment) (c : Core) (a b : ℕ) (ws : List ℕ) (rest : List Instr)
      → b ≡ a + 8 * length gs
      → b < 2 ^ 64
      → c.regs rsp ≡ a
      → Stacked c.machine.mem a (map segments gs ++ ws)
      → (c' : Core) × (exec (pop_segments gs ++ rest) c ≡ exec rest c')
        × Popped c c' b
        × ((g : Segment) → c'.segments g ≡ restore_segments segments gs c.segments g)
  unfolding exec step
  pop_segments_lem [] c a b ws rest e few at h =
      (c, refl, record { at = omega (arith, at); machine = refl }, λ g. refl)
  pop_segments_lem (g ∷ gs) c a b ws rest e few at h =
      let c1 : Core = step (mov_to g rax) (step (pop rax) c) in
      let v_is : u16 (read 8 c.machine.mem (c.regs rsp)) ≡ segments g =
        ap (λ x. u16 (read 8 c.machine.mem x)) at ∙ ap u16 h.0 ∙ omega (arith, words g) in
      let (c', runs, to, restored) =
        pop_segments_lem gs c1 (a + 8) b ws rest (omega arith) few (omega (arith, at)) h.1 in
      (
        c',
        runs,
        record { at = to.at; machine = to.machine },
        λ k.
            restored k
            ∙ segments_cong segments gs c1.segments (select c.segments g (segments g)) k
                (ap (λ v. select c.segments g v k) v_is),
      )
