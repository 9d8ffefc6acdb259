-- ===== src/Interrupt/Table.antt =====
-- The interrupt table as the bytes that it is made of: the packed structure `IDT_Desc` of
-- bootloader/delice_pxe/src/interrupt.cc, and `set_interrupt_gate` and the loops of `load_idt` over
-- byte memory. `Interrupt/Table/Fields` reads the bytes back.
pub mod Fields
pub mod Gate
pub mod Load
use deliceos.Base.{ℕ, ◌∷◌, zero, suc, ◌+◌, ◌-◌, ◌*◌, ◌/◌, ◌%◌, ◌^◌, u8, ◌>>>◌}
use deliceos.Memory.{Mem, memset}
use deliceos.Memory.Cells.{read, write}
use deliceos.Interrupt.{desc_size, table_entries, interrupt_gate, trap_gate}
use deliceos.Machine.{Cmd, ok, load_idtr}

-- An assignment to the bit-field of `width` bits from bit `low` on, in a word of 16 bits: the other
-- bits are written as they were.
abbrev pub put_bits : ℕ → ℕ → ℕ → ℕ → ℕ
put_bits word low width v = word - word / 2 ^ low % 2 ^ width * 2 ^ low + v % 2 ^ width * 2 ^ low

unfoldable pub assign : Mem → ℕ → ℕ → ℕ → ℕ → Mem
assign m a low width v = write 2 m a (put_bits (read 2 m a) low width v)

-- The function of the same name, with the address of the table. Its own `memset` is that of
-- `Memory`.
unfoldable pub set_interrupt_gate : Mem → ℕ → ℕ → ℕ → ℕ → Mem
set_interrupt_gate m table vector type handler =
    let idesc = table + desc_size * u8 vector in
    let m1 = memset m idesc 0 desc_size in
    let m2 = write 2 m1 (idesc + 2) 0x08 in
    let m3 = assign m2 (idesc + 4) 0 3 0 in
    let m4 = assign m3 (idesc + 4) 8 4 type in
    let m5 = assign m4 (idesc + 4) 13 2 0 in
    let m6 = assign m5 (idesc + 4) 15 1 1 in
    let m7 = write 2 m6 idesc handler in
    let m8 = write 2 m7 (idesc + 6) (handler >>> 16) in write 4 m8 (idesc + 8) (handler >>> 32)

unfoldable pub set_gates : ℕ → ℕ → ℕ → (ℕ → ℕ) → ℕ → Mem → Mem
set_gates zero ii type handler table m = m
set_gates (suc left) ii type handler table m =
    set_gates left (ii + 1) type handler table (set_interrupt_gate m table ii type (handler ii))

-- The two loops of `load_idt`.
unfoldable pub fill : (ℕ → ℕ) → ℕ → ℕ → Mem → Mem
fill ex_handlers default_trap_handler table m =
    set_gates 224 32 trap_gate (λ ii. default_trap_handler) table
      (set_gates 32 0 interrupt_gate ex_handlers table m)

-- The two assignments to `idt`, the structure `idt_reg` of a limit and an address.
unfoldable pub set_idt : ℕ → ℕ → Mem → Mem
set_idt idt table m = write 8 (write 2 m idt (table_entries * desc_size - 1)) (idt + 2) table

-- `lidt` takes the ten bytes from `idt` on.
pub load_idt : (ℕ → ℕ) → ℕ → ℕ → ℕ → Cmd (Unit {0})
load_idt ex_handlers default_trap_handler table idt s =
    let m = set_idt idt table (fill ex_handlers default_trap_handler table s.mem) in
    ok tt (record s { mem = m; trace = load_idtr (read 2 m idt) (read 8 m (idt + 2)) ∷ s.trace })
