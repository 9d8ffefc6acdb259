-- ===== src/Interrupt/Gates.antt =====
-- The table that `load_idt` of bootloader/delice_pxe/src/interrupt.cc fills, as the processor reads
-- it.
use deliceos.Base.{
  ℕ, zero, suc, ◌+◌, ◌-◌, ◌*◌, ◌^◌, ◌≤◌, ◌<◌, ◌≡◌, ◌≢◌, ◌↔◌, refl, ap, fun_ext, ◌∷◌, ◌&&◌, true,
  false, ◌==◌, ltb, leb, if◌then◌else◌, arith, Bool-cases, inl, inr,
}
use deliceos.Machine.{Machine, ok, load_idtr}
use deliceos.Interrupt.{
  IdtDesc, Slots, gate, interrupt_gate, trap_gate, set_interrupt_gate, set_gates, load_idt,
  table_entries, desc_size,
}

-- The entry point that the processor takes from the three parts of the offset (Intel SDM, volume
-- 3, 64-bit gate descriptors).
abbrev pub entry_point : IdtDesc → ℕ
entry_point d = d.offset_1 + d.offset_2 * 2 ^ 16 + d.offset_3 * 2 ^ 32

-- A present gate of the given type for privilege level 0, in the code segment 8, without a stack
-- of its own, with all that is reserved 0.
pub record IsGate (type handler : ℕ) (d : IdtDesc) : Type 0 where
  pub entry : entry_point d ≡ handler
  pub type_is : d.type ≡ type
  pub present : d.present ≡ 1
  pub kernel_code : d.selector ≡ 8
  pub level : d.dpl ≡ 0
  pub stack : d.ist ≡ 0
  pub reserved : (d.res0 ≡ 0) × (d.res1 ≡ 0) × (d.res2 ≡ 0)

gate-IsGate :
    (type handler : ℕ) → type < 16 → handler < 2 ^ 64 → IsGate type handler (gate type handler)
gate-IsGate type handler h g = record {
  entry = omega arith;
  type_is = omega arith;
  present = refl;
  kernel_code = refl;
  level = refl;
  stack = refl;
  reserved = (refl, refl, refl);
}

set_gates_lem :
    (left ii type : ℕ) (handler : ℕ → ℕ) (slots : Slots) (v : ℕ)
    → ii + left ≤ 256
    → set_gates left ii type handler slots v
      ≡ (if leb ii v && ltb v (ii + left) then gate type (handler v) else slots v)
unfolding set_gates set_interrupt_gate
set_gates_lem zero ii type handler slots v h = ground arith
set_gates_lem (suc left) ii type handler slots v h = elim (Bool-cases (v == ii)) [
  | inl same ↦
      let e : v ≡ ii = ground arith in
      ground (
        arith,
        set_gates_lem left (ii + 1) type handler (set_interrupt_gate slots ii type (handler ii)) v,
        ap handler e,
      )
  | inr other ↦ ground (
    arith,
    set_gates_lem left (ii + 1) type handler (set_interrupt_gate slots ii type (handler ii)) v,
  )
]

-- The slots after `load_idt`.
abbrev pub filled : (ℕ → ℕ) → ℕ → Slots → Slots
filled ex_handlers default_trap_handler slots v =
    if ltb v 32
    then gate interrupt_gate (ex_handlers v)
    else if ltb v 256
    then gate trap_gate default_trap_handler
    else slots v

pub load_idt_runs :
    (ex_handlers : ℕ → ℕ) (default_trap_handler base : ℕ) (slots : Slots) (s : Machine)
    → load_idt ex_handlers default_trap_handler base slots s
      ≡ ok
          (filled ex_handlers default_trap_handler slots)
          (record s { trace = load_idtr 4079 base ∷ s.trace })
unfolding load_idt
load_idt_runs ex_handlers default_trap_handler base slots s =
    ap (λ t. ok t (record s { trace = load_idtr 4079 base ∷ s.trace }))
      (fun_ext λ v. ground (
        arith,
        set_gates_lem 224 32 trap_gate (λ ii. default_trap_handler)
            (set_gates 32 0 interrupt_gate ex_handlers slots) v,
        set_gates_lem 32 0 interrupt_gate ex_handlers slots v,
      ))

-- `load_idt` returns with every vector below 256 leading to its handler: an interrupt gate to the
-- exception's own entry point below 32, and a trap gate to the default handler from 32 on; no slot
-- from 256 on is touched, and the only instruction issued loads the table's address.
pub load_idt-IsGate :
    (ex_handlers : ℕ → ℕ) (default_trap_handler base : ℕ) (slots : Slots) (s : Machine)
    → ((v : ℕ) → ex_handlers v < 2 ^ 64)
    → default_trap_handler < 2 ^ 64
    → (slots' : Slots) × (load_idt ex_handlers default_trap_handler base slots s
        ≡ ok slots' (record s { trace = load_idtr 4079 base ∷ s.trace }))
      × ((v : ℕ) → v < 32 → IsGate interrupt_gate (ex_handlers v) (slots' v))
      × ((v : ℕ) → 32 ≤ v → v < 256 → IsGate trap_gate default_trap_handler (slots' v))
      × ((v : ℕ) → 256 ≤ v → slots' v ≡ slots v)
load_idt-IsGate ex_handlers default_trap_handler base slots s small small_default = (
  filled ex_handlers default_trap_handler slots,
  load_idt_runs ex_handlers default_trap_handler base slots s,
  λ v h.
      let now : ltb v 32 ≡ true = ground arith in
      rw now (gate-IsGate interrupt_gate (ex_handlers v) (omega arith) (small v)),
  λ v h g.
      let later : ltb v 32 ≡ false = ground arith in
      let below : ltb v 256 ≡ true = ground arith in
      rw (later, below) (gate-IsGate trap_gate default_trap_handler (omega arith) small_default),
  λ v h. ground arith,
)

-- The processor finds the descriptor of a vector only if its 16 bytes lie within the limit.
abbrev pub Reachable : ℕ → ℕ → Type 0
Reachable limit v = desc_size * v + (desc_size - 1) ≤ limit

-- The table is one entry short: the array has no entry 255, though `load_idt` writes the gate of
-- vector 255 there, and with the limit that it loads exactly the other vectors below 256 can be
-- delivered.
pub load_idt-Reachable :
    (ex_handlers : ℕ → ℕ) (default_trap_handler base : ℕ) (slots : Slots) (s : Machine)
    → (limit : ℕ) × (slots' : Slots) × (load_idt ex_handlers default_trap_handler base slots s
        ≡ ok slots' (record s { trace = load_idtr limit base ∷ s.trace }))
      × (slots' 255 ≡ gate trap_gate default_trap_handler)
      × ¬ (255 < table_entries)
      × ((v : ℕ) → v < 256 → Reachable limit v ↔ v ≢ 255)
load_idt-Reachable ex_handlers default_trap_handler base slots s = (
  4079,
  filled ex_handlers default_trap_handler slots,
  load_idt_runs ex_handlers default_trap_handler base slots s,
  refl,
  omega arith,
  λ v h. (omega arith, omega arith),
)
