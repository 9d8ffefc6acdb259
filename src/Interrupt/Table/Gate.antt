-- ===== src/Interrupt/Table/Gate.antt =====
-- The bytes of the interrupt table hold the descriptors of the abstract table, through
-- `set_interrupt_gate` and `load_idt` of bootloader/delice_pxe/src/interrupt.cc.
use deliceos.Base.{
  ℕ, zero, suc, ◌+◌, ◌*◌, ◌/◌, ◌%◌, ◌^◌, ◌<◌, ◌≤◌, ◌≡◌, ◌∙◌, ◌⊎◌, inl, inr, refl, sym, subst, ap,
  fun_ext, ◌∷◌, arith, ◌==◌, Bool-cases, u8, ◌>>>◌,
}
use deliceos.Memory.{Mem, memset}
use deliceos.Memory.Cells.{write-Outside}
use deliceos.Memory.Fill.{memset_fills}
use deliceos.Machine.{Machine, ok, load_idtr}
use deliceos.Interrupt.{IdtDesc, Slots, gate, interrupt_gate, trap_gate, desc_size, load_idt}
use deliceos.Interrupt
use deliceos.Interrupt.Table.{put_bits, assign, set_interrupt_gate, set_gates, fill}
use deliceos.Interrupt.Table.Fields.{
  desc_at, desc_at_cong, Words, memset-Words, write_0-Words, write_2-Words, write_4-Words,
  write_6-Words, write_8-Words,
}

assign-Words :
    (m : Mem) (a low width v : ℕ) {o1 sel bits o2 o3 r2 : ℕ}
    → Words m a o1 sel bits o2 o3 r2
    → Words (assign m (a + 4) low width v) a o1 sel (put_bits bits low width v % 2 ^ 16) o2 o3 r2
unfolding assign
assign-Words m a low width v w = rw w.w4 (write_4-Words m a (put_bits _ low width v) w)

-- The words that `set_interrupt_gate` leaves in the descriptor.
gate-Words :
    (m : Mem) (table vector type handler : ℕ)
    → type < 16
    → Words
        (set_interrupt_gate m table vector type handler)
        (table + 16 * u8 vector)
        (handler % 2 ^ 16)
        8
        (type * 2 ^ 8 + 2 ^ 15)
        (handler / 2 ^ 16 % 2 ^ 16)
        (handler / 2 ^ 32 % 2 ^ 32)
        0
unfolding set_interrupt_gate
gate-Words m table vector type handler small =
    subst
      (λ b.
        Words (set_interrupt_gate m table vector type handler) a (handler % 2 ^ 16) 8 b
          (handler / 2 ^ 16 % 2 ^ 16) (handler / 2 ^ 32 % 2 ^ 32) 0)
      word
      (write_8-Words _ a (handler >>> 32) (
        write_6-Words _ a (handler >>> 16) (
          write_0-Words _ a handler (
            assign-Words _ a 15 1 1 (
              assign-Words _ a 13 2 0 (
                assign-Words _ a 8 4 type
                  (assign-Words _ a 0 3 0 (write_2-Words _ a 8 (memset-Words m a)))))))))
  where
    a : ℕ
    a = table + 16 * u8 vector

    low : ℕ
    low = put_bits 0 0 3 0 % 2 ^ 16

    typed : ℕ
    typed = put_bits low 8 4 type % 2 ^ 16

    level : ℕ
    level = put_bits typed 13 2 0 % 2 ^ 16

    word : put_bits level 15 1 1 % 2 ^ 16 ≡ type * 2 ^ 8 + 2 ^ 15
    word = omega arith

gate-desc :
    (m : Mem) (table vector type handler : ℕ)
    → type < 16
    → desc_at (set_interrupt_gate m table vector type handler) (table + 16 * u8 vector)
      ≡ gate type handler
gate-desc m table vector type handler small =
    let w = gate-Words m table vector type handler small in
    rw (w.w0, w.w2, w.w4, w.w6, w.w8, w.w12) (ground arith)

gate-Outside :
    (m : Mem) (table vector type handler x : ℕ)
    → (x < table + 16 * u8 vector) ⊎ (table + 16 * u8 vector + 16 ≤ x)
    → set_interrupt_gate m table vector type handler x ≡ m x
unfolding set_interrupt_gate assign
gate-Outside m table vector type handler x out =
    write-Outside 4 _ (a + 8) (handler >>> 32) x (ground arith)
    ∙ write-Outside 2 _ (a + 6) (handler >>> 16) x (ground arith)
    ∙ write-Outside 2 _ a handler x (ground arith)
    ∙ write-Outside 2 _ (a + 4) _ x (ground arith)
    ∙ write-Outside 2 _ (a + 4) _ x (ground arith)
    ∙ write-Outside 2 _ (a + 4) _ x (ground arith)
    ∙ write-Outside 2 _ (a + 4) _ x (ground arith)
    ∙ write-Outside 2 (memset m a 0 16) (a + 2) 8 x (ground arith)
    ∙ ground (arith, memset_fills m a 0 16 x)
  where
    a : ℕ
    a = table + 16 * u8 vector

-- The descriptors in the bytes from `table` on.
abbrev pub slots_at : Mem → ℕ → Slots
slots_at m table v = desc_at m (table + 16 * v)

-- One gate: the bytes then hold what the function on descriptors gives.
set_interrupt_gate-refines :
    (m : Mem) (table vector type handler v : ℕ) (slots : Slots)
    → type < 16
    → ((u : ℕ) → slots_at m table u ≡ slots u)
    → slots_at (set_interrupt_gate m table vector type handler) table v
      ≡ Interrupt.set_interrupt_gate slots vector type handler v
unfolding Interrupt.set_interrupt_gate
set_interrupt_gate-refines m table vector type handler v slots small holds =
    elim (Bool-cases (v == u8 vector)) [
      | inl same ↦
          let here : v ≡ u8 vector = ground arith in
          rw (same, here) (gate-desc m table vector type handler small)
      | inr other ↦ rw other (
          desc_at_cong (set_interrupt_gate m table vector type handler) m (table + 16 * v)
            (λ i p. gate-Outside m table vector type handler (table + 16 * v + i) (ground arith))
          ∙ holds v)
    ]

set_gates-refines :
    (left ii type : ℕ) (handler : ℕ → ℕ) (table : ℕ) (m : Mem) (slots : Slots)
    → type < 16
    → ((u : ℕ) → slots_at m table u ≡ slots u)
    → (v : ℕ)
    → slots_at (set_gates left ii type handler table m) table v
      ≡ Interrupt.set_gates left ii type handler slots v
unfolding set_gates Interrupt.set_gates
set_gates-refines zero ii type handler table m slots small holds v = holds v
set_gates-refines (suc left) ii type handler table m slots small holds v =
    set_gates-refines left (ii + 1) type handler table
      (set_interrupt_gate m table ii type (handler ii))
      (Interrupt.set_interrupt_gate slots ii type (handler ii)) small
      (λ u. set_interrupt_gate-refines m table ii type (handler ii) u slots small holds) v

set_gates-Outside :
    (left ii type : ℕ) (handler : ℕ → ℕ) (table : ℕ) (m : Mem) (x : ℕ)
    → (x < table) ⊎ (table + 16 * 256 ≤ x)
    → set_gates left ii type handler table m x ≡ m x
unfolding set_gates
set_gates-Outside zero ii type handler table m x out = refl
set_gates-Outside (suc left) ii type handler table m x out =
    set_gates-Outside left (ii + 1) type handler table
      (set_interrupt_gate m table ii type (handler ii)) x out
    ∙ gate-Outside m table ii type (handler ii) x (ground arith)

-- The loops of `load_idt` over the bytes from the address of the table on leave, read as
-- descriptors, the table that `load_idt` returns, at every index, also behind the array; no byte
-- before the table changes, and none from the end of its 256th descriptor on.
pub fill-refines :
    (ex_handlers : ℕ → ℕ) (default_trap_handler table : ℕ) (m : Mem) (s : Machine)
    → (load_idt ex_handlers default_trap_handler table (slots_at m table) s
        ≡ ok
            (slots_at (fill ex_handlers default_trap_handler table m) table)
            (record s { trace = load_idtr 4079 table ∷ s.trace }))
      × ((x : ℕ)
          → (x < table) ⊎ (table + 16 * 256 ≤ x)
          → fill ex_handlers default_trap_handler table m x ≡ m x)
unfolding fill load_idt
fill-refines ex_handlers default_trap_handler table m s = (
  ap (λ (t : Slots). ok t (record s { trace = load_idtr 4079 table ∷ s.trace }))
      (fun_ext λ v. sym (
        set_gates-refines 224 32 trap_gate (λ ii. default_trap_handler) table exceptions
          (Interrupt.set_gates 32 0 interrupt_gate ex_handlers (slots_at m table)) (omega arith)
          (set_gates-refines 32 0 interrupt_gate ex_handlers table m (slots_at m table)
            (omega arith) λ w. refl)
          v)),
  λ x out.
      set_gates-Outside 224 32 trap_gate (λ ii. default_trap_handler) table exceptions x out
      ∙ set_gates-Outside 32 0 interrupt_gate ex_handlers table m x out,
)
  where
    exceptions : Mem
    exceptions = set_gates 32 0 interrupt_gate ex_handlers table m
