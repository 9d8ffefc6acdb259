-- ===== src/FirstStage/Modes/Gates.antt =====
-- The segment that the gates of bootloader/delice_pxe/src/interrupt.cc name, in the table that
-- bootloader/firststage/bootloader.s loads.
use deliceos.Base.{
  ℕ, ◌<◌, ◌≡◌, refl, ◌++◌, ◌∷◌, some, bit_at, arith, ltb, true, Bool-cases, inl, inr,
}
use deliceos.Machine.{Machine, ok, load_idtr}
use deliceos.Interrupt.{Slots, load_idt}
use deliceos.Interrupt.Gates.{filled, load_idt_runs}
use deliceos.FirstStage.Modes.{Modes, named, run_insns, enter_protected, setup_lm}
use deliceos.FirstStage.Modes.Long.{long, changes_run}

filled-selector :
    (ex_handlers : ℕ → ℕ) (default_trap_handler v : ℕ) (slots : Slots)
    → v < 256
    → (filled ex_handlers default_trap_handler slots v).selector ≡ 8
filled-selector ex_handlers default_trap_handler v slots below =
    let named_all : ltb v 256 ≡ true = ground arith in
    elim (Bool-cases (ltb v 32)) [ inl low ↦ rw low refl | inr high ↦ rw (high, named_all) refl ]

-- After the change of modes and `load_idt`, the selector of the gate of every vector below 256 names,
-- in the table of descriptors that the processor then has, the descriptor of the 64-bit code that it
-- runs.
pub load_idt-named :
    (modes : Modes) (ex_handlers : ℕ → ℕ) (default_trap_handler base : ℕ) (slots : Slots)
    (s : Machine)
    → bit_at 31 modes.cr0 ≡ 0
    → (modes' : Modes) × (slots' : Slots) × (run_insns (enter_protected ++ setup_lm) modes
        ≡ some modes')
      × (load_idt ex_handlers default_trap_handler base slots s
          ≡ ok slots' (record s { trace = load_idtr 4079 base ∷ s.trace }))
      × (bit_at 53 modes'.code ≡ 1)
      × ((v : ℕ) → v < 256 → named modes'.gdtr (slots' v).selector ≡ some modes'.code)
load_idt-named modes ex_handlers default_trap_handler base slots s off = (
  long modes,
  filled ex_handlers default_trap_handler slots,
  changes_run modes off,
  load_idt_runs ex_handlers default_trap_handler base slots s,
  refl,
  λ v below. rw (filled-selector ex_handlers default_trap_handler v slots below) refl,
)
