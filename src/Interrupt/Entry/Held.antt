-- ===== src/Interrupt/Entry/Held.antt =====
-- Exceptions that come while a message is printed: bootloader/delice_pxe/src/interrupt.s and the lock
-- of src/printf.cc.
use deliceos.Base.{◌<◌, ◌^◌, arith, ℕ, ◌≡◌, refl, ◌++◌}
use deliceos.Machine.{Hardware, out_of_fuel}
use deliceos.Lock.{fetch_add}
use deliceos.Console.Prints.{IsFree}
use deliceos.Console.{Console, Formatter}
use deliceos.Interrupt.Handler.{interrupt_handler-held}
use deliceos.Interrupt.Entry.{
  Reg, rcx, rdx, rsi, rdi, Core, push_word, exec, exception_handler, entry_vector, exception,
}
use deliceos.Interrupt.Entry.Interrupted.{Interrupted}
use deliceos.Interrupt.Entry.Enter.{}

-- An exception of any vector that comes while the interrupted code holds the lock of `printf`, which was
-- free before, does not return, whatever the fuel: the handler waits for a ticket that only the
-- interrupted code can have served.
pub exception-held :
    (hw : Hardware) (fuel : ℕ) (vsnprintf : Formatter) (back : ℕ) (left : Reg → ℕ)
    (vector code state : ℕ) (c : Core) (before : Console)
    → Interrupted vector code state c
    → IsFree before
    → before.acquire < 2 ^ 32
    → exception hw fuel vsnprintf back left vector
        (record before { acquire = fetch_add before.acquire })
        c
      ≡ out_of_fuel
unfolding exception
exception-held hw fuel vsnprintf back left vector code state c before i free word =
    let entered : Core = exec (exception_handler vector ++ entry_vector) c in
    rw
      (interrupt_handler-held hw fuel vsnprintf
        (record before { acquire = fetch_add before.acquire }) (entered.regs rdi) (entered.regs rsi)
        (entered.regs rdx) (entered.regs rcx) (push_word back entered).machine
        (λ same. omega (arith, same, free)))
      refl
