-- ===== src/Interrupt/Entry/Tests.antt =====
-- Two exceptions on a sample machine: bootloader/delice_pxe/src/interrupt.s.
use deliceos.Base.{◌≡◌, refl, [], ◌∷◌, ◌++◌, inr, arith}
use deliceos.Memory.Cells.{read}
use deliceos.Machine
use deliceos.Machine.{Machine, hang, out_of_fuel}
use deliceos.Samples.{idle_line, idle_line-Answers}
use mathlib.Core.List.{reverse}
use deliceos.Serial.Write.{outputs, others}
use deliceos.Console.Prints.{to_console}
use deliceos.Cpu.Frame.{frame_at}
use deliceos.Interrupt.{greeting}
use deliceos.Interrupt.Handler.{fault_message}
use deliceos.Console.{Console, Formatter}
use deliceos.Interrupt.Entry.{Core, exec, exception_handler, entry_vector, exception}
use deliceos.Interrupt.Entry.Interrupted.{Interrupted}
use deliceos.Interrupt.Entry.Enter.{Enters, exception_handler-Enters}
use deliceos.Interrupt.Entry.Held.{exception-held}
use deliceos.Interrupt.Entry.Resume.{Resumes, exception-Resumes, exception-Stays}

abbrev letter : Formatter
letter call = (0x41 ∷ 0 ∷ [], 1)

abbrev fresh : Console
fresh = record { devices = 0x3f8 ∷ []; acquire = 0; release = 0 }

-- The counter overflow arrives as vector 2, without an error code; the frame is at 0x70a8.
abbrev overflow : Core
overflow = record {
  regs = λ r. 0x70a8;
  segments = λ g. 0x10;
  machine = record { mem = λ a. 0; trace = [] };
}

overflow-Interrupted : Interrupted 2 0 0x7000 overflow
overflow-Interrupted = record {
  exception = omega arith;
  room = omega arith;
  few = omega arith;
  pushed = (refl, refl);
  bytes = λ x. omega arith;
  words = λ r. omega arith;
  selectors = λ g. omega arith;
}

-- A general protection fault, with the error code 0 below the frame.
abbrev fault : Core
fault = record overflow { regs = λ r. 0x70a0 }

fault-Interrupted : Interrupted 13 0 0x7000 fault
unfolding read
fault-Interrupted = record {
  exception = omega arith;
  room = omega arith;
  few = omega arith;
  pushed = (refl, refl);
  bytes = λ x. omega arith;
  words = λ r. omega arith;
  selectors = λ g. omega arith;
}

exception_handler-Enters_example :
    Enters 13 0 0x7000 fault (exec (exception_handler 13 ++ entry_vector) fault)
exception_handler-Enters_example = exception_handler-Enters 13 0 0x7000 fault fault-Interrupted

exception-Resumes_example :
    Resumes 0x70a8 overflow (exception idle_line 1 letter 0x8200 (λ r. 7) 2 fresh overflow)
exception-Resumes_example =
    exception-Resumes idle_line 1 idle_line-Answers letter 0x8200 (λ r. 7) (omega arith) 2 0 0x7000
      overflow overflow-Interrupted fresh refl (omega arith) (omega arith)

exception-Stays_example :
    (m : Machine) × (exception idle_line 1 letter 0x8200 (λ r. 7) 13 fresh fault ≡ hang m)
    × (outputs m.trace
        ≡ reverse (
            to_console (0x3f8 ∷ []) (letter (greeting (frame_at (λ a. 0) 0x70a8).rip 13)).0
            ++ to_console (0x3f8 ∷ []) (letter (fault_message 13 0)).0)
          ++ outputs [])
    × (others m.trace ≡ Machine.cli ∷ others fault.machine.trace)
exception-Stays_example =
    exception-Stays idle_line 1 idle_line-Answers letter 0x8200 (λ r. 7) (omega arith) 13 0 0x7000
      fault fault-Interrupted fresh refl (inr refl)

-- The same while the interrupted code prints.
exception-held_example :
    exception idle_line 5 letter 0x8200 (λ r. 7) 2 (record fresh { acquire = 1 }) overflow
    ≡ out_of_fuel
exception-held_example =
    exception-held idle_line 5 letter 0x8200 (λ r. 7) 2 0 0x7000 overflow fresh overflow-Interrupted
      refl (omega arith)
