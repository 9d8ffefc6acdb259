-- ===== src/Console/Prints.antt =====
-- What a call of `printf` sends, and when it never returns: the glue of
-- bootloader/delice_pxe/src/printf.cc to the lock and to the serial ports.
use deliceos.Base.{
  zero, suc, ◌<◌, ◌^◌, ℕ, ◌≡◌, ◌≢◌, refl, ap, List, [], ◌∷◌, ◌++◌, true, false, ◌==◌, if◌then◌else◌,
  arith, Bool-cases, inl, inr,
}
use mathlib.Core.List.{reverse}
use deliceos.Machine.{Event, Hardware, Machine, Run, ok, out_of_fuel}
use deliceos.Serial.{ComDevices}
use deliceos.Serial.Write.{outputs, others, Answers, Sends, Sends-bind, to_devices, write-Sends}
use deliceos.Lock.{fetch_add}
use deliceos.Console.{Console, Call, Formatter, out_char, out_chars, wait_turn, printf}

-- What the devices get for a row of characters; a 0 is not sent.
unfoldable pub to_console : ComDevices → List ℕ → List (ℕ × ℕ)
to_console devices [] = []
to_console devices (c ∷ cs) = (if c == 0 then [] else to_devices c devices) ++ to_console devices cs

-- Nobody holds the lock.
abbrev pub IsFree : Console → Type 0
IsFree c = c.release ≡ c.acquire

-- A normal return with the value `ret`, the lock free again and the devices as they were, after
-- which `new` are the port writes added and nothing else but port input was issued.
pub record Prints (new : List (ℕ × ℕ)) (ret : ℕ) (c : Console) (s : Machine) (r : Run (ℕ × Console))
    : Type 0 where
  pub console : Console
  pub trace : List Event
  pub returns : r ≡ ok (ret, console) (record s { trace = trace })
  pub free : IsFree console
  pub word : console.acquire < 2 ^ 32
  pub same_devices : console.devices ≡ c.devices
  pub sends : outputs trace ≡ reverse new ++ outputs s.trace
  pub ports_only : others trace ≡ others s.trace

module _ (hw : Hardware) (fuel : ℕ) (answers : Answers hw fuel) where
  out_char-Sends :
      (devices : ComDevices) (c : ℕ) (s : Machine)
      → Sends (if c == 0 then [] else to_devices c devices) s (out_char hw fuel devices c s)
  unfolding out_char
  out_char-Sends devices c s = elim (Bool-cases (c == 0)) [
    | inl y ↦ rw y (record { trace = s.trace; returns = refl; sends = refl; ports_only = refl })
    | inr n ↦ rw n (write-Sends hw fuel devices c s answers)
  ]

  out_chars-Sends :
      (devices : ComDevices) (cs : List ℕ) (s : Machine)
      → Sends (to_console devices cs) s (out_chars hw fuel devices cs s)
  unfolding out_chars to_console
  out_chars-Sends devices [] s = record {
    trace = s.trace;
    returns = refl;
    sends = refl;
    ports_only = refl;
  }
  out_chars-Sends devices (c ∷ cs) s =
      Sends-bind _ _ (out_char-Sends devices c s) (out_chars-Sends devices cs)

  wraps : (v : ℕ) → fetch_add v < 2 ^ 32
  wraps v = omega arith

  turn_comes :
      (rounds : ℕ) (c : Console) (ticket : ℕ) (s : Machine)
      → c.release ≡ ticket
      → 0 < rounds
      → wait_turn hw fuel rounds c ticket s ≡ ok tt s
  unfolding wait_turn
  turn_comes zero c ticket s served some_round = absurd (omega arith)
  turn_comes (suc rounds) c ticket s served some_round =
      let now : (c.release == ticket) ≡ true = ground arith in rw now refl

  -- With the lock free and devices that answer, `printf` returns what the formatter returns and
  -- frees the lock; the devices get the formatter's characters but for the zeros, in order, each
  -- line feed with its carriage return, and nothing else is issued but port input.
  pub printf-Prints :
      (vsnprintf : Formatter) (c : Console) (call : Call) (s : Machine)
      → IsFree c
      → Prints
          (to_console c.devices (vsnprintf call).0)
          (vsnprintf call).1
          c
          s
          (printf hw fuel vsnprintf c call s)
  unfolding printf
  printf-Prints vsnprintf c call s free =
      let sent = out_chars-Sends c.devices (vsnprintf call).0 s in
      rw
        (
          turn_comes fuel (record c { acquire = fetch_add c.acquire }) c.acquire s free
              (omega (arith, (answers 0 []).1)),
          sent.returns,
        )
        (record {
          console = record c { acquire = fetch_add c.acquire; release = fetch_add c.release };
          trace = sent.trace;
          returns = refl;
          free = ap fetch_add free;
          word = wraps c.acquire;
          same_devices = refl;
          sends = sent.sends;
          ports_only = sent.ports_only;
        })

wait_turn_held :
    (hw : Hardware) (fuel rounds : ℕ) (c : Console) (ticket : ℕ) (s : Machine)
    → c.release ≢ ticket
    → wait_turn hw fuel rounds c ticket s ≡ out_of_fuel
unfolding wait_turn
wait_turn_held hw fuel zero c ticket s held = refl
wait_turn_held hw fuel (suc rounds) c ticket s held =
    let later : (c.release == ticket) ≡ false = ground arith in
    rw later (wait_turn_held hw fuel rounds c ticket s held)

-- A call of `printf` while the lock is held on the same processor, as in an interrupt that comes
-- while a message is printed, does not return, whatever the fuel.
pub printf-held :
    (hw : Hardware) (fuel : ℕ) (vsnprintf : Formatter) (c : Console) (call : Call) (s : Machine)
    → c.release ≢ c.acquire
    → printf hw fuel vsnprintf c call s ≡ out_of_fuel
unfolding printf
printf-held hw fuel vsnprintf c call s held =
    rw (wait_turn_held hw fuel fuel (record c { acquire = fetch_add c.acquire }) c.acquire s held)
      refl
