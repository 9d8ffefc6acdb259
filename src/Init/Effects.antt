-- ===== src/Init/Effects.antt =====
-- What a run on the machine does, in one record: the value that it returns, the memory that it
-- leaves, what it writes to the serial ports and what else it issues. No code of the repository is
-- modelled here; the rules serve the proofs on bootloader/delice_pxe/src/init.cc.
use deliceos.Base.{◌<◌, ◌^◌, ℕ, ◌≡◌, refl, ap, ◌∙◌, List, [], ◌++◌}
use mathlib.Core.List.{append_assoc, reverse, reverse-append}
use deliceos.Memory.{Mem}
use deliceos.Machine
use deliceos.Machine.{Event, Hardware, Machine, Run, Cmd, ok, pure, issue, ◌>>=◌}
use deliceos.Serial.{ComDevices}
use deliceos.Serial.Write.{Answers, outputs, others}
use deliceos.Console.{Console, Call, Formatter, printf}
use deliceos.Console.Prints.{IsFree, Prints, to_console, printf-Prints}

-- A normal return with a value in `Q` and the memory `after`; `new` are the port writes and `events`
-- the other instructions but port input, in order.
pub record Does {A : Type 0} (new : List (ℕ × ℕ)) (events : List Event) (after : Mem)
    (Q : A → Type 0) (s : Machine) (r : Run A) : Type 0 where
  pub value : A
  pub trace : List Event
  pub returns : r ≡ ok value (record { mem = after; trace = trace })
  pub holds : Q value
  pub sends : outputs trace ≡ reverse new ++ outputs s.trace
  pub issues : others trace ≡ reverse events ++ others s.trace

-- One command and then another.
pub Does-bind :
    {A B : Type 0} {new more : List (ℕ × ℕ)} {events later : List Event} {between after : Mem}
    {P : A → Type 0} {Q : B → Type 0} {s : Machine} (c : Cmd A) (k : A → Cmd B)
    → (d : Does new events between P s (c s))
    → Does more later after Q
        (record { mem = between; trace = d.trace })
        (k d.value (record { mem = between; trace = d.trace }))
    → Does (new ++ more) (events ++ later) after Q s (Machine.then_run (c s) k)
Does-bind {new = new} {more = more} {events = events} {later = later} c k d e =
    rw d.returns (record {
      value = e.value;
      trace = e.trace;
      returns = e.returns;
      holds = e.holds;
      sends =
          e.sends ∙ ap (λ t. reverse more ++ t) d.sends ∙ rw (reverse-append, append_assoc) refl;
      issues =
          e.issues ∙ ap (λ t. reverse later ++ t) d.issues ∙ rw (reverse-append, append_assoc) refl;
    })

pub Does-pure :
    {A : Type 0} {Q : A → Type 0} (a : A) (s : Machine) → Q a → Does [] [] s.mem Q s (pure a s)
Does-pure a s q = record {
  value = a;
  trace = s.trace;
  returns = refl;
  holds = q;
  sends = refl;
  issues = refl;
}

-- Instructions that are no port writes, issued before a run.
pub Does-after :
    {A : Type 0} {new : List (ℕ × ℕ)} {events : List Event} {after : Mem} {Q : A → Type 0}
    {r : Run A} (s t : Machine) (before : List Event)
    → outputs t.trace ≡ outputs s.trace
    → others t.trace ≡ reverse before ++ others s.trace
    → Does new events after Q t r
    → Does new (before ++ events) after Q s r
Does-after {new = new} {events = events} s t before o i d = record {
  value = d.value;
  trace = d.trace;
  returns = d.returns;
  holds = d.holds;
  sends = d.sends ∙ ap (λ x. reverse new ++ x) o;
  issues = d.issues ∙ ap (λ x. reverse events ++ x) i ∙ rw (reverse-append, append_assoc) refl;
}

-- The lock of `printf` is free, and the serial devices are `devices`.
pub record Ready (devices : ComDevices) (c : Console) : Type 0 where
  pub free : IsFree c
  pub word : c.acquire < 2 ^ 32
  pub same : c.devices ≡ devices

pub printf-Does :
    (hw : Hardware) (fuel : ℕ) (vsnprintf : Formatter) (devices : ComDevices) (c : Console)
    (call : Call) (s : Machine)
    → Answers hw fuel
    → Ready devices c
    → Does
        (to_console devices (vsnprintf call).0)
        []
        s.mem
        (λ v. Ready devices v.1)
        s
        (printf hw fuel vsnprintf c call s)
printf-Does hw fuel vsnprintf devices c call s answers ready = record {
  value = ((vsnprintf call).1, printed.console);
  trace = printed.trace;
  returns = printed.returns;
  holds = record {
    free = printed.free;
    word = printed.word;
    same = printed.same_devices ∙ ready.same;
  };
  sends =
      printed.sends
      ∙ ap (λ d. reverse (to_console d (vsnprintf call).0) ++ outputs s.trace) ready.same;
  issues = printed.ports_only;
}
  where
    printed :
        Prints
          (to_console c.devices (vsnprintf call).0)
          (vsnprintf call).1
          c
          s
          (printf hw fuel vsnprintf c call s)
    printed = printf-Prints hw fuel answers vsnprintf c call s ready.free
