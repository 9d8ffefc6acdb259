-- ===== src/Interrupt/Entry/Layout.antt =====
-- What the structure `registers` of bootloader/delice_pxe/includes/misc/cpu.h makes of the words that
-- src/interrupt.s saves.
use deliceos.Base.{
  ℕ, zero, suc, ◌+◌, ◌*◌, ◌≡◌, refl, ap, ◌∙◌, arith, List, [], ◌∷◌, some, get_elem?,
}
use mathlib.Core.Option.{some-injective}
use deliceos.Memory.{Mem}
use deliceos.Memory.Cells.{read}
use deliceos.Cpu.Frame.{registers_at}
use deliceos.Interrupt.Entry.{
  rbp, rsi, rdi, r8, r9, r10, r11, r12, r13, r14, r15, ds, es, fs, gs, Core,
}
use deliceos.Interrupt.Entry.Stack.{Stacked}
use deliceos.Interrupt.Entry.Interrupted.{saved}

Stacked-get :
    (m : Mem) (vs : List ℕ) (a i b v : ℕ)
    → Stacked m a vs
    → get_elem? vs i ≡ some v
    → b ≡ a + 8 * i
    → read 8 m b ≡ v
Stacked-get m [] a i b v h e at = absurd (ground (arith, e))
Stacked-get m (w ∷ vs) a zero b v h e at = ap (read 8 m) here ∙ h.0 ∙ some-injective _ _ e
  where
    here : b ≡ a
    here = omega arith
Stacked-get m (w ∷ vs) a (suc i) b v h e at = Stacked-get m vs (a + 8) i b v h.1 e (omega arith)

-- The first four fields hold the selectors ds, es, fs and gs, and the others the registers from r8 on
-- in the order of the stack.
pub registers_at-saved :
    (m : Mem) (c : Core) (vector code state : ℕ)
    → Stacked m state (saved c vector code)
    → registers_at m state ≡ record {
      r8 = c.segments ds;
      r9 = c.segments es;
      r10 = c.segments fs;
      r11 = c.segments gs;
      r12 = c.regs r8;
      r13 = c.regs r9;
      r14 = c.regs r10;
      r15 = c.regs r11;
      rbp = c.regs r12;
      rsi = c.regs r13;
      rdi = c.regs r14;
      rdx = c.regs r15;
      rcx = c.regs rbp;
      rbx = c.regs rdi;
      rax = c.regs rsi;
    }
registers_at-saved m c vector code state h =
    rw
      (
        word 0 state (c.segments ds) refl (omega arith),
        word 1 (state + 8) (c.segments es) refl refl,
        word 2 (state + 16) (c.segments fs) refl refl,
        word 3 (state + 24) (c.segments gs) refl refl,
        word 4 (state + 32) (c.regs r8) refl refl,
        word 5 (state + 40) (c.regs r9) refl refl,
        word 6 (state + 48) (c.regs r10) refl refl,
        word 7 (state + 56) (c.regs r11) refl refl,
        word 8 (state + 64) (c.regs r12) refl refl,
        word 9 (state + 72) (c.regs r13) refl refl,
        word 10 (state + 80) (c.regs r14) refl refl,
        word 11 (state + 88) (c.regs r15) refl refl,
        word 12 (state + 96) (c.regs rbp) refl refl,
        word 13 (state + 104) (c.regs rdi) refl refl,
        word 14 (state + 112) (c.regs rsi) refl refl,
      )
      refl
  where
    word :
        (i b v : ℕ)
        → get_elem? (saved c vector code) i ≡ some v
        → b ≡ state + 8 * i
        → read 8 m b ≡ v
    word i b v = Stacked-get m (saved c vector code) state i b v h
