-- ===== src/Interrupt.antt =====
-- Interrupts: bootloader/delice_pxe/src/interrupt.cc. The addresses of the entry points and of the
-- table are parameters. `Interrupt/Gates` is about the table that `load_idt` fills,
-- `Interrupt/Handler` about the handler, and `Interrupt/Entry` has the entry points themselves.
pub mod Gates
pub mod Handler
pub mod Table
pub mod Entry
mod Tests
use deliceos.Base.{
  ℕ, zero, suc, ◌+◌, ◌-◌, ◌*◌, ◌/◌, ◌%◌, ◌^◌, List, [], ◌∷◌, ◌==◌, if◌then◌else◌, u8, u16, u32,
  ◌>>>◌,
}
use deliceos.Machine.{Hardware, Machine, Cmd, ok, issue, load_idtr, pure, ◌>>=◌, ◌>>◌}
use deliceos.Cpu.{eoi}
use deliceos.Cpu.Frame.{frame_at}
use deliceos.Console.{Console, Call, Formatter, printf, stay}

abbrev pub interrupt_gate : ℕ
interrupt_gate = 0xe

abbrev pub trap_gate : ℕ
trap_gate = 0xf

abbrev pub page_fault : ℕ
page_fault = 0xe

abbrev pub gp_fault : ℕ
gp_fault = 0xd

abbrev pub pmi_vec : ℕ
pmi_vec = 0x2

pub record IdtDesc : Type 0 where
  pub offset_1 : ℕ
  pub selector : ℕ
  pub ist : ℕ
  pub res0 : ℕ
  pub type : ℕ
  pub res1 : ℕ
  pub dpl : ℕ
  pub present : ℕ
  pub offset_2 : ℕ
  pub offset_3 : ℕ
  pub res2 : ℕ

-- `memset(idesc, 0x0, sizeof(struct IDT_Desc))`.
abbrev pub cleared : IdtDesc
cleared = record {
  offset_1 = 0;
  selector = 0;
  ist = 0;
  res0 = 0;
  type = 0;
  res1 = 0;
  dpl = 0;
  present = 0;
  offset_2 = 0;
  offset_3 = 0;
  res2 = 0;
}

-- The memory from `interrupt_desc_table` on, in steps of a descriptor. The array itself holds
-- `table_entries` of them.
abbrev pub Slots : Type 0
Slots = ℕ → IdtDesc

abbrev pub table_entries : ℕ
table_entries = 255

abbrev pub desc_size : ℕ
desc_size = 16

-- The assignments keep the low bits that a field has room for: 4 for `type`, 16 and 32 for the
-- parts of the offset.
abbrev pub gate : ℕ → ℕ → IdtDesc
gate type handler = record cleared {
  selector = 0x08;
  ist = 0;
  type = type % 2 ^ 4;
  dpl = 0;
  present = 1;
  offset_1 = u16 handler;
  offset_2 = u16 (handler >>> 16);
  offset_3 = u32 (handler >>> 32);
}

unfoldable pub set_interrupt_gate : Slots → ℕ → ℕ → ℕ → Slots
set_interrupt_gate slots vector type handler v =
    if v == u8 vector then gate type handler else slots v

-- `for (ii = …; ii < …; ii++) set_interrupt_gate(ii, type, handler of ii);` with `left` to go.
pub set_gates : ℕ → ℕ → ℕ → (ℕ → ℕ) → Slots → Slots
set_gates zero ii type handler slots = slots
set_gates (suc left) ii type handler slots =
    set_gates left (ii + 1) type handler (set_interrupt_gate slots ii type (handler ii))

module _ (ex_handlers : ℕ → ℕ) (default_trap_handler : ℕ) where
  -- `load_idt` on the table as descriptors, which stands here for its bytes. Its stores to memory, those
  -- to `idt` included, are in `load_idt` of Interrupt/Table.
  pub load_idt : ℕ → Slots → Cmd Slots
  load_idt interrupt_desc_table slots = do
    let exceptions = set_gates 32 0 interrupt_gate ex_handlers slots
    let traps = set_gates 224 32 trap_gate (λ ii. default_trap_handler) exceptions
    issue (load_idtr (table_entries * desc_size - 1) interrupt_desc_table)
    pure traps

-- The messages of the handler.
abbrev pub greeting : ℕ → ℕ → Call
greeting rip vector = record {
  format = "Hallo from interrupt! vector %lx %d\n";
  args = rip ∷ vector ∷ [];
}

abbrev pub page_fault_message : ℕ → Call
page_fault_message error_code = record {
  format = "Page fault occurred! error_code %d\n";
  args = error_code ∷ [];
}

abbrev pub gp_fault_message : Call
gp_fault_message = record { format = "General Protection fault occurred\n"; args = [] }

abbrev pub pmi_message : Call
pmi_message = record { format = "PMI Interrupt occurred\n"; args = [] }

module _ (hw : Hardware) (fuel : ℕ) (vsnprintf : Formatter) where
  -- A message, and then `while(1){}`.
  pub report_and_stay : Console → Call → Cmd (ℕ × Console)
  report_and_stay c call = printf hw fuel vsnprintf c call >>= λ _. stay

  abbrev end_interrupt : ℕ → Console → Cmd (ℕ × Console)
  end_interrupt state c = eoi >> pure (state, c)

  -- The `switch`, and what follows it.
  pub dispatch : Console → ℕ → ℕ → ℕ → Cmd (ℕ × Console)
  dispatch c vector error_code state =
      if vector == page_fault
      then report_and_stay c (page_fault_message error_code)
      else if vector == gp_fault
      then report_and_stay c gp_fault_message
      else if vector == pmi_vec
      then printf hw fuel vsnprintf c pmi_message >>= (λ printed. end_interrupt state printed.1)
      else end_interrupt state c

  -- `frame` and `state` are the addresses of what the processor and the entry point have saved.
  pub interrupt_handler : Console → ℕ → ℕ → ℕ → ℕ → Cmd (ℕ × Console)
  interrupt_handler c vector frame error_code state s =
      (printf hw fuel vsnprintf c (greeting (frame_at s.mem frame).rip vector) >>= λ printed.
      dispatch printed.1 vector error_code state)
        s
