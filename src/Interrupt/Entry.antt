-- ===== src/Interrupt/Entry.antt =====
-- The entry points of the exceptions: bootloader/delice_pxe/src/interrupt.s. Its instructions are
-- lists, which `exec` runs on the registers, the segment selectors and the machine; the call in
-- between is `interrupt_handler` of src/interrupt.cc. What that call leaves in the registers and the
-- address to which it returns are parameters.
pub mod Stack
pub mod Restore
pub mod Interrupted
pub mod Layout
pub mod Enter
pub mod Leave
pub mod Resume
pub mod Held
mod Tests
use deliceos.Base.{
  ℕ, ◌+◌, ◌-◌, ◌%◌, ◌^◌, List, [], ◌∷◌, ◌++◌, Bool, false, ◌||◌, ◌==◌, if◌then◌else◌, u16, u64,
}
use deliceos.Memory.Cells.{read, write}
use deliceos.Machine
use deliceos.Machine.{Hardware, Machine, Run, Cmd, ok, hang, then_run}
use deliceos.Cpu.Frame.{InterruptFrame, frame_at}
use deliceos.Console.{Console, Formatter}
use deliceos.Interrupt.{interrupt_handler}

pub data Reg : Type 0 where
  rax rcx rdx rbx rsp rbp rsi rdi r8 r9 r10 r11 r12 r13 r14 r15 : Reg

-- The number of a register in an instruction.
abbrev pub number : Reg → ℕ
number rax = 0
number rcx = 1
number rdx = 2
number rbx = 3
number rsp = 4
number rbp = 5
number rsi = 6
number rdi = 7
number r8 = 8
number r9 = 9
number r10 = 10
number r11 = 11
number r12 = 12
number r13 = 13
number r14 = 14
number r15 = 15

pub data Segment : Type 0 where
  es cs ss ds fs gs : Segment

abbrev pub selector_number : Segment → ℕ
selector_number es = 0
selector_number cs = 1
selector_number ss = 2
selector_number ds = 3
selector_number fs = 4
selector_number gs = 5

abbrev pub same : Reg → Reg → Bool
same r q = number r == number q

-- The registers with a new value in one of them.
abbrev pub put : (Reg → ℕ) → Reg → ℕ → Reg → ℕ
put regs r v q = if same r q then v else regs q

abbrev pub select : (Segment → ℕ) → Segment → ℕ → Segment → ℕ
select segments g v h = if selector_number g == selector_number h then v else segments h

-- `mov_from r g` is `mov r, g` and `mov_to g r` is `mov g, r`; `load r k` is `mov r, dword[rsp + k]`
-- with the lower half of `r`; `lea r k` is `lea r, [rsp + k]`.
pub data Instr : Type 0 where
  push pop : Reg → Instr
  push_byte : ℕ → Instr
  mov : Reg → Reg → Instr
  mov_from : Reg → Segment → Instr
  mov_to : Segment → Reg → Instr
  load lea : Reg → ℕ → Instr
  add : Reg → ℕ → Instr
  cli : Instr

pub record Core : Type 0 where
  pub regs : Reg → ℕ
  pub segments : Segment → ℕ
  pub machine : Machine

unfoldable pub push_word : ℕ → Core → Core
push_word v c =
    let top = u64 (c.regs rsp + 2 ^ 64 - 8) in
    record c {
      regs = put c.regs rsp top;
      machine = record c.machine { mem = write 8 c.machine.mem top v };
    }

pub step : Instr → Core → Core
step (push r) c = push_word (c.regs r) c
step (push_byte v) c = push_word v c
step (pop r) c = record c {
  regs = put (put c.regs rsp (u64 (c.regs rsp + 8))) r (read 8 c.machine.mem (c.regs rsp));
}
step (mov r q) c = record c { regs = put c.regs r (c.regs q) }
step (mov_from r g) c = record c { regs = put c.regs r (c.segments g) }
step (mov_to g r) c = record c { segments = select c.segments g (u16 (c.regs r)) }
step (load r k) c = record c { regs = put c.regs r (read 4 c.machine.mem (u64 (c.regs rsp + k))) }
step (lea r k) c = record c { regs = put c.regs r (u64 (c.regs rsp + k)) }
step (add r k) c = record c { regs = put c.regs r (u64 (c.regs r + k)) }
step cli c = record c { machine = record c.machine { trace = Machine.cli ∷ c.machine.trace } }

pub exec : List Instr → Core → Core
exec [] c = c
exec (i ∷ is) c = exec is (step i c)

-- `EXCEPTION_ENTRY_ERROR_CODE`, for the exceptions for which the processor pushes an error code
-- itself, and `EXCEPTION_ENTRY`, which pushes a 0 in its place.
abbrev pub exception_entry_error_code : ℕ → List Instr
exception_entry_error_code vector = cli ∷ push_byte vector ∷ []

abbrev pub exception_entry : ℕ → List Instr
exception_entry vector = cli ∷ push_byte 0 ∷ push_byte vector ∷ []

-- The exceptions of which the entry is made with `EXCEPTION_ENTRY_ERROR_CODE`.
abbrev pub has_error_code : ℕ → Bool
has_error_code vector =
    vector == 8
    || vector == 10
    || vector == 11
    || vector == 12
    || vector == 13
    || vector == 14
    || vector == 17

abbrev pub exception_handler : ℕ → List Instr
exception_handler vector =
    if has_error_code vector then exception_entry_error_code vector else exception_entry vector

-- `entry_vector` up to its call.
abbrev pub entry_vector : List Instr
entry_vector =
    push rax
    ∷ push rbx
    ∷ push rcx
    ∷ push rdx
    ∷ push rsi
    ∷ push rdi
    ∷ push rbp
    ∷ push r15
    ∷ push r14
    ∷ push r13
    ∷ push r12
    ∷ push r11
    ∷ push r10
    ∷ push r9
    ∷ push r8
    ∷ mov_from rax gs
    ∷ push rax
    ∷ mov_from rax fs
    ∷ push rax
    ∷ mov_from rax es
    ∷ push rax
    ∷ mov_from rax ds
    ∷ push rax
    ∷ load rdi 152
    ∷ load rdx 160
    ∷ mov rcx rsp
    ∷ lea rsi 168
    ∷ []

-- What follows the call, up to `iretq`.
abbrev pub leave_vector : List Instr
leave_vector =
    mov rsp rax
    ∷ pop rax
    ∷ mov_to ds rax
    ∷ pop rax
    ∷ mov_to es rax
    ∷ pop rax
    ∷ mov_to fs rax
    ∷ pop rax
    ∷ mov_to gs rax
    ∷ pop r8
    ∷ pop r9
    ∷ pop r10
    ∷ pop r11
    ∷ pop r12
    ∷ pop r13
    ∷ pop r14
    ∷ pop r15
    ∷ pop rbp
    ∷ pop rdi
    ∷ pop rsi
    ∷ pop rdx
    ∷ pop rcx
    ∷ pop rbx
    ∷ pop rax
    ∷ add rsp 16
    ∷ []

-- Where the interrupted code goes on, and with what.
pub record Resumed : Type 0 where
  pub frame : InterruptFrame
  pub regs : Reg → ℕ
  pub segments : Segment → ℕ

-- The five words of the frame go to rip, cs, rflags, rsp and ss.
abbrev pub iretq : Core → Resumed
iretq c =
    let frame = frame_at c.machine.mem (c.regs rsp) in
    record {
      frame = frame;
      regs = put c.regs rsp frame.rsp;
      segments = select (select c.segments cs (u16 frame.cs)) ss (u16 frame.ss);
    }

-- `mov dword[0xb8000], 0x0f42` and `jmp $`.
pub default_trap_handler : Cmd (Unit {0})
default_trap_handler s = hang (record s { mem = write 4 s.mem 0xb8000 0x0f42 })

module _ (hw : Hardware) (fuel : ℕ) (vsnprintf : Formatter) (back : ℕ) (left : Reg → ℕ) where
  -- `call interrupt_handler`: its four arguments are in rdi, rsi, rdx and rcx, its result in rax.
  abbrev pub call_handler : Console → Core → Run (Core × Console)
  call_handler console c =
      let called = push_word back c in
      then_run
        (interrupt_handler hw fuel vsnprintf console (c.regs rdi) (c.regs rsi) (c.regs rdx)
          (c.regs rcx) called.machine)
        λ (state, console') s.
          ok (record c { regs = put (put left rsp (c.regs rsp)) rax state; machine = s }, console')
            s

  -- From the first instruction of the entry point of `vector` to the instruction behind `iretq`.
  pub exception : ℕ → Console → Core → Run (Resumed × Console)
  exception vector console c =
      then_run (call_handler console (exec (exception_handler vector ++ entry_vector) c))
        λ (c', console') s. ok (iretq (exec leave_vector c'), console') s
