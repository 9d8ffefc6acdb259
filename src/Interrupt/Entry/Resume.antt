-- ===== src/Interrupt/Entry/Resume.antt =====
-- The whole way of an exception through bootloader/delice_pxe/src/interrupt.s and the handler of
-- src/interrupt.cc, back to the interrupted code.
use deliceos.Base.{
  ℕ, ◌+◌, ◌-◌, ◌^◌, ◌≤◌, ◌<◌, ◌≡◌, ◌≢◌, refl, sym, ap, ◌∙◌, subst, inl, inr, ◌⊎◌, arith, List, ◌∷◌,
  ◌++◌, false, Bool-cases, u16, u32,
}
use deliceos.Memory.{Mem}
use deliceos.Memory.Cells.{read, read_cong}
use deliceos.Machine
use deliceos.Machine.{Event, Hardware, Machine, Run, ok, hang, mmio_store, then_run}
use deliceos.Cpu.{apic_addr}
use deliceos.Cpu.Frame.{InterruptFrame, frame_at}
use mathlib.Core.List.{reverse}
use deliceos.Serial.Write.{outputs, others, Answers}
use deliceos.Console.{Console, Formatter}
use deliceos.Console.Prints.{IsFree, to_console}
use deliceos.Interrupt.{page_fault, gp_fault, greeting, interrupt_handler}
use deliceos.Interrupt.Handler.{
  Ends, fault_message, interrupt_handler-Ends, interrupt_handler-Stays,
}
use deliceos.Interrupt.Entry.{
  Reg, rax, rcx, rdx, rsp, rsi, rdi, Segment, cs, ss, Core, same, put, select, push_word, exec,
  exception_handler, entry_vector, leave_vector, Resumed, iretq, exception,
}
use deliceos.Interrupt.Entry.Stack.{Stacked, Holds, push_word-Holds}
use deliceos.Interrupt.Entry.Leave.{leave}
use deliceos.Interrupt.Entry.Interrupted.{saved, Interrupted}
use deliceos.Interrupt.Entry.Enter.{exception_handler-Enters}

frame_cong : (m k : Mem) (a : ℕ) → ((x : ℕ) → a ≤ x → k x ≡ m x) → frame_at k a ≡ frame_at m a
frame_cong m k a same_bytes =
    rw
      (
        word a (omega arith),
        word (a + 8) (omega arith),
        word (a + 16) (omega arith),
        word (a + 24) (omega arith),
        word (a + 32) (omega arith),
      )
      refl
  where
    word : (b : ℕ) → a ≤ b → read 8 k b ≡ read 8 m b
    word b over = read_cong 8 k m b λ i small. same_bytes (b + i) (omega arith)

-- The handler has returned, and the interrupted code goes on: with the frame that the processor had
-- pushed, all its registers, and the selectors that are not in the frame. From the frame on memory is
-- as before. The lock of `printf` is free, and besides port input and output the only instructions are
-- `cli` and the one write of 0 to the end-of-interrupt register.
pub record Resumes (frame : ℕ) (c : Core) (r : Run (Resumed × Console)) : Type 0 where
  pub resumed : Resumed
  pub console : Console
  pub machine : Machine
  pub returns : r ≡ ok (resumed, console) machine
  pub goes_on : resumed.frame ≡ frame_at c.machine.mem frame
  pub registers : (r : Reg) → resumed.regs r ≡ put c.regs rsp resumed.frame.rsp r
  pub selectors :
      (g : Segment)
      → resumed.segments g
        ≡ select (select c.segments cs (u16 resumed.frame.cs)) ss (u16 resumed.frame.ss) g
  pub above : (x : ℕ) → frame ≤ x → machine.mem x ≡ c.machine.mem x
  pub free : IsFree console
  pub acknowledged :
      others machine.trace ≡ mmio_store (apic_addr 0xb0) 0 ∷ Machine.cli ∷ others c.machine.trace

-- A read of one register behind a new stack pointer.
registers_back :
    (regs f : Reg → ℕ) (v : ℕ)
    → ((r : Reg) → same rsp r ≡ false → f r ≡ regs r)
    → (r : Reg) → put f rsp v r ≡ put regs rsp v r
registers_back regs f v kept r = elim (Bool-cases (same rsp r)) [
  | inl is ↦ rw is refl
  | inr other ↦ rw other (kept r other)
]

module _ (hw : Hardware) (fuel : ℕ) (answers : Answers hw fuel) (vsnprintf : Formatter) (back : ℕ)
    (left : Reg → ℕ) (back_word : back < 2 ^ 64) (vector code state : ℕ) (c : Core)
    (i : Interrupted vector code state c) where
  entered : Core
  entered = exec (exception_handler vector ++ entry_vector) c

  called-Holds :
      Holds
        (state + 168)
        (record c.machine { trace = Machine.cli ∷ c.machine.trace })
        c.segments
        (push_word back entered)
        (state - 8)
        (back ∷ saved c vector code)
  unfolding entered
  called-Holds =
      push_word-Holds (state + 168) _ c.segments (omega (arith, i.few)) entered state (state - 8)
        back (saved c vector code) (omega (arith, i.room)) (omega arith) back_word
        (exception_handler-Enters vector code state c i).holds

  -- From the return of the handler on.
  returned-Resumes :
      (console : Console)
      → Ends state (push_word back entered).machine (
          interrupt_handler hw fuel vsnprintf console
            (entered.regs rdi)
            (entered.regs rsi)
            (entered.regs rdx)
            (entered.regs rcx)
            (push_word back entered).machine)
      → Resumes (state + 168) c (exception hw fuel vsnprintf back left vector console c)
  unfolding exception entered others
  returned-Resumes console e =
      let h = called-Holds in
      let c2 : Core = record entered {
        regs = put (put left rsp (entered.regs rsp)) rax state;
        machine = record (push_word back entered).machine { trace = e.trace };
      } in
      let stack : Stacked c2.machine.mem state (saved c vector code) =
        subst (λ x. Stacked c2.machine.mem x (saved c vector code)) (omega (arith, i.room))
          h.stack.1 in
      let l = leave c c2 vector code state i.few i.selectors refl stack in
      let m_is : (exec leave_vector c2).machine.mem ≡ (push_word back entered).machine.mem =
        ap (λ (t : Machine). t.mem) l.machine in
      let kept : (x : ℕ)
          → state + 168 ≤ x
          → (exec leave_vector c2).machine.mem x ≡ c.machine.mem x =
        λ x over. ap (λ (m : Mem). m x) m_is ∙ h.above x over in
      let frame_is : (iretq (exec leave_vector c2)).frame ≡ frame_at c.machine.mem (state + 168) =
        ap (frame_at (exec leave_vector c2).machine.mem) l.at
        ∙ frame_cong c.machine.mem (exec leave_vector c2).machine.mem (state + 168) kept in
      rw e.returns (record {
        resumed = iretq (exec leave_vector c2);
        console = e.console;
        machine = c2.machine;
        returns = refl;
        goes_on = frame_is;
        registers = registers_back c.regs (exec leave_vector c2).regs _ l.registers;
        selectors = λ g. l.selectors _ _ g;
        above = λ x over. h.above x over;
        free = e.free;
        acknowledged = e.acknowledged ∙ ap (λ t. mmio_store (apic_addr 0xb0) 0 ∷ others t) h.trace;
      })

  handler-Ends :
      (console : Console)
      → IsFree console
      → vector ≢ page_fault
      → vector ≢ gp_fault
      → Ends state (push_word back entered).machine (
          interrupt_handler hw fuel vsnprintf console
            (entered.regs rdi)
            (entered.regs rsi)
            (entered.regs rdx)
            (entered.regs rcx)
            (push_word back entered).machine)
  unfolding entered
  handler-Ends console free not_pf not_gp =
      let e = exception_handler-Enters vector code state c i in
      subst
        (λ x. Ends x (push_word back entered).machine (
          interrupt_handler hw fuel vsnprintf console (entered.regs rdi) (entered.regs rsi)
            (entered.regs rdx) (entered.regs rcx) (push_word back entered).machine))
        e.state_is
        (interrupt_handler-Ends hw fuel answers vsnprintf console (entered.regs rdi)
          (entered.regs rsi) (entered.regs rdx) (entered.regs rcx) (push_word back entered).machine
          free (λ z. not_pf (sym e.vector_is ∙ z)) (λ z. not_gp (sym e.vector_is ∙ z)))

  -- With the lock of `printf` free and devices that answer, an exception other than the page fault and
  -- the general protection fault is taken and acknowledged once, and the interrupted code goes on at
  -- its frame with all its registers and selectors, whatever the handler leaves in the registers.
  pub exception-Resumes :
      (console : Console)
      → IsFree console
      → vector ≢ page_fault
      → vector ≢ gp_fault
      → Resumes (state + 168) c (exception hw fuel vsnprintf back left vector console c)
  exception-Resumes console free not_pf not_gp =
      returned-Resumes console (handler-Ends console free not_pf not_gp)

  -- With the lock of `printf` free and devices that answer, the page fault and the general protection
  -- fault are never returned from, with the interrupts off and nothing acknowledged; the ports get the
  -- message with the address of the interrupted code and the vector, and then the message of the fault,
  -- that of the page fault with the lower half of the error code.
  pub exception-Stays :
      (console : Console)
      → IsFree console
      → (vector ≡ page_fault) ⊎ (vector ≡ gp_fault)
      → (m : Machine) × (exception hw fuel vsnprintf back left vector console c ≡ hang m)
        × (outputs m.trace
            ≡ reverse (
                to_console console.devices
                  (vsnprintf (greeting (frame_at c.machine.mem (state + 168)).rip vector)).0
                ++ to_console console.devices (vsnprintf (fault_message vector (u32 code))).0)
              ++ outputs c.machine.trace)
        × (others m.trace ≡ Machine.cli ∷ others c.machine.trace)
  unfolding exception entered others outputs
  exception-Stays console free fault =
      let e = exception_handler-Enters vector code state c i in
      let h = called-Holds in
      let r =
        interrupt_handler-Stays hw fuel answers vsnprintf console (entered.regs rdi)
          (entered.regs rsi) (entered.regs rdx) (entered.regs rcx) (push_word back entered).machine
          free (is_fault (entered.regs rdi) e.vector_is fault) in
      let frame_is : frame_at (push_word back entered).machine.mem (entered.regs rsi)
          ≡ frame_at c.machine.mem (state + 168) =
        ap (frame_at (push_word back entered).machine.mem) e.frame_is
        ∙ frame_cong c.machine.mem (push_word back entered).machine.mem (state + 168) h.above in
      (
        record (push_word back entered).machine { trace = r.trace },
        rw r.stays refl,
        r.sends
            ∙ ap
                (λ (f : InterruptFrame).
                  written f.rip (entered.regs rdi) (entered.regs rdx)
                    (push_word back entered).machine.trace)
                frame_is
            ∙ ap (λ v. written rip v (entered.regs rdx) (push_word back entered).machine.trace)
                e.vector_is
            ∙ ap (λ x. written rip vector x (push_word back entered).machine.trace) e.code_is
            ∙ ap (written rip vector (u32 code)) h.trace,
        r.ports_only ∙ ap others h.trace,
      )
    where
      rip : ℕ
      rip = (frame_at c.machine.mem (state + 168)).rip

      written : ℕ → ℕ → ℕ → List Event → List (ℕ × ℕ)
      written at v x t =
          reverse (
            to_console console.devices (vsnprintf (greeting at v)).0
            ++ to_console console.devices (vsnprintf (fault_message v x)).0)
          ++ outputs t

      is_fault :
          (v : ℕ)
          → v ≡ vector
          → (vector ≡ page_fault) ⊎ (vector ≡ gp_fault)
          → (v ≡ page_fault) ⊎ (v ≡ gp_fault)
      is_fault v e (inl pf) = inl (e ∙ pf)
      is_fault v e (inr gp) = inr (e ∙ gp)
