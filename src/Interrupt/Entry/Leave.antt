-- ===== src/Interrupt/Entry/Leave.antt =====
-- The entry points of bootloader/delice_pxe/src/interrupt.s behind the call of the handler: what was
-- saved is restored.
use deliceos.Base.{
  ℕ, ◌+◌, ◌^◌, ◌<◌, ◌≡◌, refl, sym, ap, ◌∙◌, subst, arith, [], ◌∷◌, ◌++◌, map, false, if◌then◌else◌,
  ◌==◌,
}
use deliceos.Machine.{Machine}
use deliceos.Interrupt.Entry.{
  Reg, rax, rcx, rdx, rbx, rsp, rbp, rsi, rdi, r8, r9, r10, r11, r12, r13, r14, r15, Segment, cs,
  ss, ds, es, fs, gs, pop, mov, add, Core, same, select, selector_number, step, exec, leave_vector,
}
use deliceos.Interrupt.Entry.Stack.{Stacked}
use deliceos.Interrupt.Entry.Restore.{
  restore, restore_segments, Popped, pop_registers, pop_segments_lem,
}
use deliceos.Interrupt.Entry.Interrupted.{saved, saved_registers, saved_segments}
use deliceos.Interrupt.Entry.Enter.{Stacked-drop}

all_restored :
    (regs f : Reg → ℕ) (r : Reg) → same rsp r ≡ false → restore regs saved_registers f r ≡ regs r
all_restored regs f rax other = refl
all_restored regs f rcx other = refl
all_restored regs f rdx other = refl
all_restored regs f rbx other = refl
all_restored regs f rsp other = absurd (ground (arith, other))
all_restored regs f rbp other = refl
all_restored regs f rsi other = refl
all_restored regs f rdi other = refl
all_restored regs f r8 other = refl
all_restored regs f r9 other = refl
all_restored regs f r10 other = refl
all_restored regs f r11 other = refl
all_restored regs f r12 other = refl
all_restored regs f r13 other = refl
all_restored regs f r14 other = refl
all_restored regs f r15 other = refl

segments_restored :
    (segments f : Segment → ℕ) (a b : ℕ) (g : Segment)
    → select (select (restore_segments segments saved_segments f) cs a) ss b g
      ≡ select (select segments cs a) ss b g
segments_restored segments f a b es = refl
segments_restored segments f a b cs = refl
segments_restored segments f a b ss = refl
segments_restored segments f a b ds = refl
segments_restored segments f a b fs = refl
segments_restored segments f a b gs = refl

-- What `leave_vector` makes of the saved words.
pub record Restored (regs : Reg → ℕ) (segments : Segment → ℕ) (c c' : Core) (frame : ℕ)
    : Type 0 where
  pub at : c'.regs rsp ≡ frame
  pub machine : c'.machine ≡ c.machine
  pub registers : (r : Reg) → same rsp r ≡ false → c'.regs r ≡ regs r
  pub selectors :
      (a b : ℕ) (g : Segment)
      → select (select c'.segments cs a) ss b g ≡ select (select segments cs a) ss b g

select_cong :
    (f k : Segment → ℕ) (a b : ℕ) (g : Segment)
    → f g ≡ k g
    → select (select f cs a) ss b g ≡ select (select k cs a) ss b g
select_cong f k a b g e =
    ap
      (λ x.
        if selector_number ss == selector_number g
        then b
        else if selector_number cs == selector_number g
        then a
        else x)
      e

-- The last instruction drops the number of the exception and the error code.
last :
    (from c c2 c3 : Core) (state : ℕ)
    → state + 208 < 2 ^ 64
    → Popped (step (mov rsp rax) c) c2 (state + 32)
    → Popped c2 c3 (state + 152)
    → ((g : Segment) → c2.segments g ≡ restore_segments from.segments saved_segments c.segments g)
    → c3.segments ≡ c2.segments
    → ((r : Reg) → same rsp r ≡ false → c3.regs r ≡ restore from.regs saved_registers c2.regs r)
    → Restored from.regs from.segments c (step (add rsp 16) c3) (state + 168)
unfolding step
last from c c2 c3 state few to2 to3 back2 kept back3 = record {
  at = omega (arith, to3.at);
  machine = to3.machine ∙ to2.machine;
  registers = λ r other. rw other (back3 r other ∙ all_restored from.regs c2.regs r other);
  selectors = λ a b g.
      select_cong c3.segments (restore_segments from.segments saved_segments c.segments) a b g
        (ap (λ (f : Segment → ℕ). f g) kept ∙ back2 g)
      ∙ segments_restored from.segments c.segments a b g;
}

pub leave :
    (from c : Core) (vector code state : ℕ)
    → state + 208 < 2 ^ 64
    → ((g : Segment) → from.segments g < 2 ^ 16)
    → c.regs rax ≡ state
    → Stacked c.machine.mem state (saved from vector code)
    → Restored from.regs from.segments c (exec leave_vector c) (state + 168)
unfolding exec step
leave from c vector code state few words at h =
    let c1 : Core = step (mov rsp rax) c in
    let (c2, runs2, to2, back2) =
      pop_segments_lem from.segments words saved_segments c1 state (state + 32)
        (map from.regs saved_registers ++ (vector ∷ code ∷ []))
        (map pop saved_registers ++ (add rsp 16 ∷ [])) (omega arith) (omega arith) at h in
    let below : Stacked c2.machine.mem (state + 32)
        (map from.regs saved_registers ++ (vector ∷ code ∷ [])) =
      subst
        (λ (t : Machine).
          Stacked t.mem (state + 32) (map from.regs saved_registers ++ (vector ∷ code ∷ [])))
        (sym to2.machine)
        (Stacked-drop c.machine.mem (map from.segments saved_segments)
          (map from.regs saved_registers ++ (vector ∷ code ∷ [])) state h) in
    let (c3, runs3, to3, kept, back3) =
      pop_registers from.regs saved_registers c2 (state + 32) (state + 152) (vector ∷ code ∷ [])
        (add rsp 16 ∷ []) (omega arith) (omega arith)
        ((
          refl,
          (
            refl,
            (
              refl,
              (
                refl,
                (
                  refl,
                  (
                    refl,
                    (refl, (refl, (refl, (refl, (refl, (refl, (refl, (refl, (refl, tt))))))))),
                  ),
                ),
              ),
            ),
          ),
        ))
        to2.at below in
    subst (λ d. Restored from.regs from.segments c d (state + 168)) (sym (runs2 ∙ runs3))
      (last from c c2 c3 state few to2 to3 back2 kept back3)
