-- ===== src/Interrupt/Entry/Interrupted.antt =====
-- The state in which the processor enters bootloader/delice_pxe/src/interrupt.s, and what the entry
-- points save of it.
use deliceos.Base.{
  ◌==◌, ◌&&◌, ◌||◌, leb, ℕ, ◌+◌, ◌^◌, ◌≤◌, ◌<◌, ◌≡◌, arith, List, [], ◌∷◌, ◌++◌, map, Bool, true,
  false,
}
use deliceos.Memory.Cells.{read}
use deliceos.Interrupt.Entry.{
  Reg, rax, rcx, rdx, rbx, rsp, rbp, rsi, rdi, r8, r9, r10, r11, r12, r13, r14, r15, Segment, ds,
  es, fs, gs, Core, has_error_code,
}

-- The order in which the registers stand on the stack, from the top.
abbrev pub saved_registers : List Reg
saved_registers =
    r8 ∷ r9 ∷ r10 ∷ r11 ∷ r12 ∷ r13 ∷ r14 ∷ r15 ∷ rbp ∷ rdi ∷ rsi ∷ rdx ∷ rcx ∷ rbx ∷ rax ∷ []

abbrev pub saved_segments : List Segment
saved_segments = ds ∷ es ∷ fs ∷ gs ∷ []

-- The words that the entry point leaves below the frame of the processor.
abbrev pub saved : Core → ℕ → ℕ → List ℕ
saved c vector code =
    map c.segments saved_segments ++ (map c.regs saved_registers ++ (vector ∷ code ∷ []))

-- The exceptions for which the processor pushes an error code (Intel SDM, volume 3, the table of the
-- exceptions): the double fault, those from 10 to 14, and the alignment check.
abbrev pub pushes_error_code : ℕ → Bool
pushes_error_code vector = vector == 8 || leb 10 vector && leb vector 14 || vector == 17

pub has_error_code_lem : (vector : ℕ) → has_error_code vector ≡ pushes_error_code vector
has_error_code_lem vector = ground arith

-- Where the stack pointer is when the first instruction runs, for a frame at `frame`: at the error
-- code, if the entry point expects one, or else at the frame; then the code counts as 0.
abbrev pub Pushed : Bool → ℕ → ℕ → Core → Type 0
Pushed true frame code c = (c.regs rsp + 8 ≡ frame) × (read 8 c.machine.mem (c.regs rsp) ≡ code)
Pushed false frame code c = (c.regs rsp ≡ frame) × (code ≡ 0)

-- The processor has just entered the exception `vector`; the registers will be saved at `state`.
pub record Interrupted (vector code state : ℕ) (c : Core) : Type 0 where
  pub exception : vector < 32
  pub room : 8 ≤ state
  pub few : state + 208 < 2 ^ 64
  pub pushed : Pushed (pushes_error_code vector) (state + 168) code c
  pub bytes : (x : ℕ) → c.machine.mem x < 256
  pub words : (r : Reg) → c.regs r < 2 ^ 64
  pub selectors : (g : Segment) → c.segments g < 2 ^ 16
