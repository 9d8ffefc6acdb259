-- ===== src/Interrupt/Tests.antt =====
-- The theorems about bootloader/delice_pxe/src/interrupt.cc on a sample machine.
use deliceos.Memory.{Mem}
use deliceos.Interrupt
use deliceos.Interrupt.Table
use deliceos.Interrupt.Table.Gate.{slots_at}
use deliceos.Interrupt.Table.Load.{load_idt-refines}
use deliceos.Base.{inr, ◌⊎◌, ◌+◌, ℕ, ◌≡◌, ◌≢◌, ◌↔◌, ◌∷◌, ◌≤◌, ◌<◌, arith}
use deliceos.Machine.{Machine, ok, load_idtr}
use deliceos.Samples.{start}
use deliceos.Interrupt.{Slots, cleared, gate, load_idt, interrupt_gate, trap_gate, table_entries}
use deliceos.Interrupt.Gates.{IsGate, Reachable, load_idt-IsGate, load_idt-Reachable}

abbrev empty_table : Slots
empty_table v = cleared

-- One entry point for all exceptions.
abbrev entries : ℕ → ℕ
entries v = 0x8200

load_idt-IsGate_example :
    (slots : Slots) × (load_idt entries 0x8100 0x9000 empty_table start
      ≡ ok slots (record start { trace = load_idtr 4079 0x9000 ∷ start.trace }))
    × ((v : ℕ) → v < 32 → IsGate interrupt_gate (entries v) (slots v))
    × ((v : ℕ) → 32 ≤ v → v < 256 → IsGate trap_gate 0x8100 (slots v))
    × ((v : ℕ) → 256 ≤ v → slots v ≡ empty_table v)
load_idt-IsGate_example =
    load_idt-IsGate entries 0x8100 0x9000 empty_table start (λ v. omega arith) (omega arith)

load_idt-Reachable_example :
    (limit : ℕ) × (slots : Slots) × (load_idt entries 0x8100 0x9000 empty_table start
      ≡ ok slots (record start { trace = load_idtr limit 0x9000 ∷ start.trace }))
    × (slots 255 ≡ gate trap_gate 0x8100)
    × ¬ (255 < table_entries)
    × ((v : ℕ) → v < 256 → Reachable limit v ↔ v ≢ 255)
load_idt-Reachable_example = load_idt-Reachable entries 0x8100 0x9000 empty_table start

abbrev blank : Mem
blank a = 0

abbrev blanked : Machine
blanked = record start { mem = blank }

-- The structure follows the array at the next multiple of 64.
load_idt-refines_example :
    (slots : Slots) × (m : Mem) × (Interrupt.load_idt entries 0x8100 0x9000
        (slots_at blank 0x9000)
        blanked
      ≡ ok slots (record blanked { trace = load_idtr 4079 0x9000 ∷ start.trace }))
    × (Table.load_idt entries 0x8100 0x9000 0xa000 blanked
        ≡ ok tt (record blanked { mem = m; trace = load_idtr 4079 0x9000 ∷ start.trace }))
    × ((v : ℕ) → v < 255 → slots_at m 0x9000 v ≡ slots v)
    × ((x : ℕ) → (x < 0xa000) ⊎ (0xa000 + 10 ≤ x) → (x < 0x9000) ⊎ (0x9000 + 4096 ≤ x) → m x ≡ 0)
load_idt-refines_example =
    load_idt-refines entries 0x8100 0x9000 0xa000 blanked (inr (omega arith)) (omega arith)
