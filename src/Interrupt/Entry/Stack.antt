-- ===== src/Interrupt/Entry/Stack.antt =====
-- The stack under the entry points of bootloader/delice_pxe/src/interrupt.s: what pushing and popping
-- lists of registers does to it.
use deliceos.Base.{
  ℕ, ◌+◌, ◌*◌, ◌-◌, ◌^◌, ◌≤◌, ◌<◌, ◌≡◌, refl, sym, ◌∙◌, subst, inr, arith, List, [], ◌∷◌, ◌++◌, map,
  false, length, u64,
}
use deliceos.Memory.{Mem}
use deliceos.Memory.Cells.{read, write, read-write, read-write_apart, write-Outside, write_byte}
use deliceos.Machine.{Machine}
use deliceos.Interrupt.Entry.{
  Reg, rax, rsp, Segment, Instr, push, pop, mov_from, mov_to, Core, same, put, push_word, step,
  exec,
}

-- The words from `a` on.
abbrev pub Stacked : Mem → ℕ → List ℕ → Type 0
Stacked m a [] = Unit {0}
Stacked m a (v ∷ vs) = (read 8 m a ≡ v) × Stacked m (a + 8) vs

pub Stacked-above :
    (m k : Mem) (vs : List ℕ) (a : ℕ)
    → ((b : ℕ) → a ≤ b → read 8 k b ≡ read 8 m b)
    → Stacked m a vs
    → Stacked k a vs
Stacked-above m k [] a same_words h = tt
Stacked-above m k (v ∷ vs) a same_words (here, rest) = (
  same_words a (omega arith) ∙ here,
  Stacked-above m k vs (a + 8) (λ b above. same_words b (omega arith)) rest,
)

-- The stack of `c` reaches from `a`, with the words `ws` on it, and everything from `top` on is as in
-- `s`, as are the instructions issued.
pub record Holds (top : ℕ) (s : Machine) (segments : Segment → ℕ) (c : Core) (a : ℕ) (ws : List ℕ)
    : Type 0 where
  pub at : c.regs rsp ≡ a
  pub stack : Stacked c.machine.mem a ws
  pub bytes : (x : ℕ) → c.machine.mem x < 256
  pub trace : c.machine.trace ≡ s.trace
  pub above : (x : ℕ) → top ≤ x → c.machine.mem x ≡ s.mem x
  pub selectors : (g : Segment) → c.segments g ≡ segments g

pub push_keeps :
    (c : Core) (v : ℕ) (r : Reg) → same rsp r ≡ false → (push_word v c).regs r ≡ c.regs r
unfolding push_word
push_keeps c v r other = rw other

module _ (top : ℕ) (s : Machine) (segments : Segment → ℕ) (few : top < 2 ^ 64) where
  pub push_word-Holds :
      (c : Core) (b a v : ℕ) (ws : List ℕ)
      → b ≡ a + 8
      → b ≤ top
      → v < 2 ^ 64
      → Holds top s segments c b ws
      → Holds top s segments (push_word v c) a (v ∷ ws)
  unfolding push_word
  push_word-Holds c b a v ws e below small h =
      let here : u64 (c.regs rsp + 2 ^ 64 - 8) ≡ a = omega (arith, h.at) in
      record {
        at = here;
        stack =
            subst (λ x. Stacked (write 8 c.machine.mem x v) a (v ∷ ws)) (sym here)
              (
                read-write 8 c.machine.mem a v ∙ omega arith,
                Stacked-above c.machine.mem _ ws (a + 8)
                    (λ x over. read-write_apart 8 8 c.machine.mem x a v (inr over))
                    (subst (λ x. Stacked c.machine.mem x ws) e h.stack),
              );
        bytes = write_byte 8 c.machine.mem _ v h.bytes;
        trace = h.trace;
        above = λ x over.
            write-Outside 8 c.machine.mem _ v x (inr (omega (arith, here))) ∙ h.above x over;
        selectors = h.selectors;
      }

-- The registers that are saved are not the stack pointer, which moves.
abbrev pub Saved : List Reg → Type 0
Saved [] = Unit {0}
Saved (r ∷ rs) = (same rsp r ≡ false) × Saved rs

-- The words of `vs` on the stack `ws`, the last on top.
abbrev pub onto : List ℕ → List ℕ → List ℕ
onto [] ws = ws
onto (v ∷ vs) ws = onto vs (v ∷ ws)

module _ (top : ℕ) (s : Machine) (segments : Segment → ℕ) (few : top < 2 ^ 64) (regs : Reg → ℕ)
    (words : (r : Reg) → regs r < 2 ^ 64) where
  -- The end of a run of instructions that leaves the stack at `a` with `ws` on it.
  pub record Leaves (from to : Core) (a : ℕ) (ws : List ℕ) : Type 0 where
    pub holds : Holds top s segments to a ws
    pub others : (r : Reg) → same rsp r ≡ false → to.regs r ≡ from.regs r

  pub save_registers :
      (rs : List Reg) (c : Core) (b a : ℕ) (ws : List ℕ) (rest : List Instr)
      → b ≡ a + 8 * length rs
      → b ≤ top
      → Saved rs
      → ((r : Reg) → same rsp r ≡ false → c.regs r ≡ regs r)
      → Holds top s segments c b ws
      → (c' : Core) × (exec (map push rs ++ rest) c ≡ exec rest c')
        × Leaves c c' a (onto (map regs rs) ws)
  unfolding exec step
  save_registers [] c b a ws rest e below safe kept h = (
    c,
    refl,
    record {
      holds = subst (λ x. Holds top s segments c x ws) (omega arith) h;
      others = λ r other. refl;
    },
  )
  save_registers (r ∷ rs) c b a ws rest e below safe kept h =
      let v_is : c.regs r ≡ regs r = kept r safe.0 in
      let one : Holds top s segments (push_word (c.regs r) c) (a + 8 * length rs) (regs r ∷ ws) =
        subst (λ v. Holds top s segments (push_word (c.regs r) c) (a + 8 * length rs) (v ∷ ws)) v_is
          (push_word-Holds top s segments few c b (a + 8 * length rs) (c.regs r) ws (omega arith)
            below (omega (arith, v_is, words r)) h) in
      let (c', runs, leaves) =
        save_registers rs (push_word (c.regs r) c) (a + 8 * length rs) a (regs r ∷ ws) rest refl
          (omega arith) safe.1 (λ q other. push_keeps c (c.regs r) q other ∙ kept q other) one in
      (
        c',
        runs,
        record {
          holds = leaves.holds;
          others = λ q other. leaves.others q other ∙ push_keeps c (c.regs r) q other;
        },
      )

-- `mov rax, g` and `push rax` for each selector.
abbrev pub push_segments : List Segment → List Instr
push_segments [] = []
push_segments (g ∷ gs) = mov_from rax g ∷ push rax ∷ push_segments gs

-- Pop rax and `mov g, rax` for each selector.
abbrev pub pop_segments : List Segment → List Instr
pop_segments [] = []
pop_segments (g ∷ gs) = pop rax ∷ mov_to g rax ∷ pop_segments gs

module _ (top : ℕ) (s : Machine) (segments : Segment → ℕ) (few : top < 2 ^ 64)
    (words : (g : Segment) → segments g < 2 ^ 16) where
  pub save_segments :
      (gs : List Segment) (c : Core) (b a : ℕ) (ws : List ℕ) (rest : List Instr)
      → b ≡ a + 8 * length gs
      → b ≤ top
      → Holds top s segments c b ws
      → (c' : Core) × (exec (push_segments gs ++ rest) c ≡ exec rest c')
        × Holds top s segments c' a (onto (map segments gs) ws)
  unfolding exec step
  save_segments [] c b a ws rest e below h =
      (c, refl, subst (λ x. Holds top s segments c x ws) (omega arith) h)
  save_segments (g ∷ gs) c b a ws rest e below h =
      let c1 : Core = record c { regs = put c.regs rax (c.segments g) } in
      let h1 : Holds top s segments c1 b ws = record {
        at = h.at;
        stack = h.stack;
        bytes = h.bytes;
        trace = h.trace;
        above = h.above;
        selectors = h.selectors;
      } in
      let one : Holds top s segments (push_word (c.segments g) c1) (a + 8 * length gs)
          (segments g ∷ ws) =
        subst (λ v. Holds top s segments (push_word (c.segments g) c1) (a + 8 * length gs) (v ∷ ws))
          (h.selectors g)
          (push_word-Holds top s segments few c1 b (a + 8 * length gs) (c.segments g) ws
            (omega arith) below (omega (arith, h.selectors g, words g)) h1) in
      save_segments gs (push_word (c.segments g) c1) (a + 8 * length gs) a (segments g ∷ ws) rest
        refl (omega arith) one
