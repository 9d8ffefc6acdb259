-- ===== src/Interrupt/Table/Load.antt =====
-- `load_idt` of bootloader/delice_pxe/src/interrupt.cc over the bytes of the table and of the
-- structure that `lidt` reads.
use deliceos.Base.{ℕ, ◌+◌, ◌*◌, ◌^◌, ◌<◌, ◌≤◌, ◌≡◌, ◌∙◌, ◌⊎◌, inl, refl, ◌∷◌, arith}
use deliceos.Memory.{Mem}
use deliceos.Memory.Cells.{read, write, read-write, read-write_apart, write-Outside}
use deliceos.Machine.{Machine, ok, load_idtr}
use deliceos.Interrupt
use deliceos.Interrupt.{Slots, table_entries, desc_size}
use deliceos.Interrupt.Gates.{}
use deliceos.Interrupt.Table.{fill, set_idt, load_idt}
use deliceos.Interrupt.Table.Fields.{desc_at_cong}
use deliceos.Interrupt.Table.Gate.{slots_at, fill-refines}

pub set_idt-Outside :
    (idt table : ℕ) (m : Mem) (x : ℕ) → (x < idt) ⊎ (idt + 10 ≤ x) → set_idt idt table m x ≡ m x
unfolding set_idt
set_idt-Outside idt table m x out =
    write-Outside 8 (write 2 m idt 4079) (idt + 2) table x (ground arith)
    ∙ write-Outside 2 m idt 4079 x (ground arith)

-- What `lidt` then reads.
limit-set_idt : (idt table : ℕ) (m : Mem) → read 2 (set_idt idt table m) idt ≡ 4079
unfolding set_idt
limit-set_idt idt table m =
    read-write_apart 2 8 (write 2 m idt 4079) idt (idt + 2) table (inl (omega arith))
    ∙ read-write 2 m idt 4079

base-set_idt :
    (idt table : ℕ) (m : Mem) → table < 2 ^ 64 → read 8 (set_idt idt table m) (idt + 2) ≡ table
unfolding set_idt
base-set_idt idt table m h = omega (arith, read-write 8 (write 2 m idt 4079) (idt + 2) table)

pub load_idt_runs :
    (ex_handlers : ℕ → ℕ) (default_trap_handler table idt : ℕ) (s : Machine)
    → table < 2 ^ 64
    → load_idt ex_handlers default_trap_handler table idt s
      ≡ ok tt (record {
        mem = set_idt idt table (fill ex_handlers default_trap_handler table s.mem);
        trace = load_idtr 4079 table ∷ s.trace;
      })
unfolding load_idt
load_idt_runs ex_handlers default_trap_handler table idt s small =
    let bytes = fill ex_handlers default_trap_handler table s.mem in
    rw (limit-set_idt idt table bytes, base-set_idt idt table bytes small) refl

-- `load_idt` over the bytes of memory, wherever the ten bytes of the structure for `lidt` lie
-- outside the array of 255 descriptors: it returns, `lidt` gets the limit 4079 and the address of
-- the table, the bytes of each vector below 255 are the descriptor that the function on descriptors
-- gives, and no byte changes outside the structure and the 4096 bytes from the table on.
pub load_idt-refines :
    (ex_handlers : ℕ → ℕ) (default_trap_handler table idt : ℕ) (s : Machine)
    → (idt + 10 ≤ table) ⊎ (table + 4080 ≤ idt)
    → table < 2 ^ 64
    → (slots : Slots) × (m : Mem) × (Interrupt.load_idt ex_handlers default_trap_handler table
          (slots_at s.mem table)
          s
        ≡ ok slots (record s { trace = load_idtr 4079 table ∷ s.trace }))
      × (load_idt ex_handlers default_trap_handler table idt s
          ≡ ok tt (record s { mem = m; trace = load_idtr 4079 table ∷ s.trace }))
      × ((v : ℕ) → v < 255 → slots_at m table v ≡ slots v)
      × ((x : ℕ) → (x < idt) ⊎ (idt + 10 ≤ x) → (x < table) ⊎ (table + 4096 ≤ x) → m x ≡ s.mem x)
unfolding load_idt
load_idt-refines ex_handlers default_trap_handler table idt s apart small = (
  slots_at bytes table,
  set_idt idt table bytes,
  (fill-refines ex_handlers default_trap_handler table s.mem s).0,
  load_idt_runs ex_handlers default_trap_handler table idt s small,
  λ v below.
      desc_at_cong (set_idt idt table bytes) bytes (table + 16 * v)
        λ i p. set_idt-Outside idt table bytes (table + 16 * v + i) (ground arith),
  λ x out beyond.
      set_idt-Outside idt table bytes x out
      ∙ (fill-refines ex_handlers default_trap_handler table s.mem s).1 x beyond,
)
  where
    bytes : Mem
    bytes = fill ex_handlers default_trap_handler table s.mem
