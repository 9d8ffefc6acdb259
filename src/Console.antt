-- ===== src/Console.antt =====
-- `printf` as the boot loader calls it: bootloader/delice_pxe/src/printf.cc is a copy of a printf
-- library, and its formatter `_vsnprintf` is a parameter. Modelled are the parts that tie it to the
-- kernel: `_out_char`, which hands each character to the serial ports, and `printf_`, which holds
-- the lock of bootloader/delice_pxe/includes/atomic.h while it prints.
pub mod Prints
pub mod Shared
mod Tests
use Prim.Native.String.{String}
use deliceos.Base.{ℕ, zero, suc, ◌+◌, List, [], ◌∷◌, ◌==◌, if◌then◌else◌}
use deliceos.Machine.{Hardware, Cmd, hang, out_of_fuel, pure, ◌>>=◌, ◌>>◌}
use deliceos.Serial.{ComDevices}
use deliceos.Serial
use deliceos.Lock.{fetch_add}

-- A call of `printf`: the format and the arguments that follow it.
pub record Call : Type 0 where
  pub format : String
  pub args : List ℕ

-- What `_vsnprintf` does for a call: the characters that it passes to its output function, the
-- terminating 0 included, and the number that it returns.
abbrev pub Formatter : Type 0
Formatter = Call → List ℕ × ℕ

-- The serial devices, and the two counters of the lock `spin`.
pub record Console : Type 0 where
  pub devices : ComDevices
  pub acquire : ℕ
  pub release : ℕ

-- An empty loop that nothing ends.
abbrev pub stay : {A : Type 0} → Cmd A
stay s = hang s

module _ (hw : Hardware) (fuel : ℕ) where
  abbrev pub putchar_serial : ComDevices → ℕ → Cmd (Unit {0})
  putchar_serial devices byte = Serial.write hw fuel devices byte

  pub out_char : ComDevices → ℕ → Cmd (Unit {0})
  out_char devices character = if character == 0 then pure tt else putchar_serial devices character

  -- The calls that the formatter makes of its output function.
  pub out_chars : ComDevices → List ℕ → Cmd (Unit {0})
  out_chars devices [] = pure tt
  out_chars devices (c ∷ cs) = out_char devices c >> out_chars devices cs

  -- The loop of `lock()` for at most `rounds` rounds. Nothing else runs on this processor while it
  -- waits, so `release` stays as it is.
  pub wait_turn : ℕ → Console → ℕ → Cmd (Unit {0})
  wait_turn zero c ticket = λ s. out_of_fuel
  wait_turn (suc rounds) c ticket =
      let again = wait_turn rounds c ticket in if c.release == ticket then pure tt else again

  -- `spin.lock()->vsnptr(…)`. The guard is dropped at the end of the statement.
  pub printf : Formatter → Console → Call → Cmd (ℕ × Console)
  printf vsnprintf c call =
      let (chars, ret) = vsnprintf call in
      let held = record c { acquire = fetch_add c.acquire } in
      do
        wait_turn fuel held c.acquire
        out_chars held.devices chars
        pure (ret, record held { release = fetch_add held.release })
