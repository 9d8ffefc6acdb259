-- ===== src/Serial/Write.antt =====
-- What `ComDevices::write` of bootloader/delice_pxe/src/serial.cc sends.
use deliceos.Base.{
  ℕ, zero, suc, ◌+◌, ◌<◌, ◌≡◌, refl, ap, ◌∙◌, List, [], ◌∷◌, ◌++◌, true, false, ◌==◌, if◌then◌else◌,
  arith, Bool-cases, inl, inr, u16, u8, bit_and, not, Bool,
}
use mathlib.Core.List.{append_assoc, reverse, reverse-append}
use deliceos.Machine.{
  Event, Hardware, Machine, Run, ok, hang, out_of_fuel, out_port, in_port, pure, ◌>>=◌, ◌>>◌,
}
use deliceos.Machine.Io.{outb}
use deliceos.Machine
use deliceos.Serial.{ComDevices, wait_ready, write_device, write}

-- The writes to ports among what was issued.
unfoldable pub outputs : List Event → List (ℕ × ℕ)
outputs [] = []
outputs (out_port port byte ∷ es) = (port, byte) ∷ outputs es
outputs (e ∷ es) = outputs es

pub outputs-append : (xs ys : List Event) → outputs (xs ++ ys) ≡ outputs xs ++ outputs ys
unfolding outputs
outputs-append [] ys = refl
outputs-append (out_port port byte ∷ xs) ys = ap (λ t. (port, byte) ∷ t) (outputs-append xs ys)
outputs-append (e ∷ xs) ys = outputs-append xs ys

-- What was issued other than port input and output.
unfoldable pub others : List Event → List Event
others [] = []
others (out_port port byte ∷ es) = others es
others (in_port port ∷ es) = others es
others (e ∷ es) = e ∷ others es

-- The trace after `n` polls of a line status register.
abbrev pub polled : ℕ → ℕ → List Event → List Event
polled zero dev h = h
polled (suc n) dev h = polled n dev (in_port (u16 (dev + 5)) ∷ h)

abbrev pub is_ready : Hardware → ℕ → List Event → Bool
is_ready hw dev h = not (bit_and (u8 (hw.on_in h (u16 (dev + 5)))) 0x20 == 0)

-- Whatever went before, each device reports an empty transmit register at one of the next `fuel`
-- polls.
abbrev pub Answers : Hardware → ℕ → Type 0
Answers hw fuel =
    (dev : ℕ) (h : List Event) → (n : ℕ) × (n < fuel) × (is_ready hw dev (polled n dev h) ≡ true)

outputs-polled : (n dev : ℕ) (h : List Event) → outputs (polled n dev h) ≡ outputs h
unfolding outputs
outputs-polled zero dev h = refl
outputs-polled (suc n) dev h = outputs-polled n dev (in_port (u16 (dev + 5)) ∷ h)

others-polled : (n dev : ℕ) (h : List Event) → others (polled n dev h) ≡ others h
unfolding others
others-polled zero dev h = refl
others-polled (suc n) dev h = others-polled n dev (in_port (u16 (dev + 5)) ∷ h)

-- The loop ends behind a poll that reports the register empty.
wait_ready_lem :
    (hw : Hardware) (fuel dev : ℕ) (s : Machine) (n : ℕ)
    → n < fuel
    → is_ready hw dev (polled n dev s.trace) ≡ true
    → (j : ℕ) × (wait_ready hw fuel dev s ≡ ok tt (record s { trace = polled (suc j) dev s.trace }))
      × (is_ready hw dev (polled j dev s.trace) ≡ true)
unfolding wait_ready
wait_ready_lem hw zero dev s n h r = absurd (omega arith)
wait_ready_lem hw (suc fuel) dev s zero h r =
    let e : (bit_and (u8 (hw.on_in s.trace (u16 (dev + 5)))) 0x20 == 0) ≡ false = ground arith in
    (0, rw e, r)
wait_ready_lem hw (suc fuel) dev s (suc n) h r =
    elim (Bool-cases (bit_and (u8 (hw.on_in s.trace (u16 (dev + 5)))) 0x20 == 0)) [
      | inl busy ↦
          let (j, ran, now) =
            wait_ready_lem hw fuel dev (record s { trace = in_port (u16 (dev + 5)) ∷ s.trace }) n
              (omega arith) r in
          (suc j, rw busy ran, now)
      | inr free ↦ (0, rw free, rw free)
    ]

-- What one device gets for a byte, in order: a carriage return before a line feed, and then the
-- byte, unless the device is absent. The carriage return goes out even then, to port 0.
unfoldable pub to_device : ℕ → ℕ → List (ℕ × ℕ)
to_device byte dev =
    (if byte == 0x0a then (u16 dev, 0x0d) ∷ [] else [])
    ++ (if dev == 0 then [] else (u16 dev, u8 byte) ∷ [])

unfoldable pub to_devices : ℕ → ComDevices → List (ℕ × ℕ)
unfolding to_device
to_devices byte [] = []
to_devices byte (dev ∷ devs) = to_device byte dev ++ to_devices byte devs

-- A normal return after which `new` are the port writes added, in order, and nothing is added but
-- port input and output.
pub record Sends (new : List (ℕ × ℕ)) (s : Machine) (r : Run (Unit {0})) : Type 0 where
  pub trace : List Event
  pub returns : r ≡ ok tt (record s { trace = trace })
  pub sends : outputs trace ≡ reverse new ++ outputs s.trace
  pub ports_only : others trace ≡ others s.trace

newline-Sends :
    (byte dev : ℕ) (s : Machine)
    → Sends
        (if byte == 0x0a then (u16 dev, 0x0d) ∷ [] else [])
        s
        ((if byte == 0x0a then outb dev 0x0d else pure tt) s)
unfolding outputs others
newline-Sends byte dev s = elim (Bool-cases (byte == 0x0a)) [
  | inl y ↦ rw y (record {
    trace = out_port (u16 dev) 0x0d ∷ s.trace;
    returns = refl;
    sends = refl;
    ports_only = refl;
  })
  | inr n ↦ rw n (record { trace = s.trace; returns = refl; sends = refl; ports_only = refl })
]

byte-Sends :
    (hw : Hardware) (fuel byte dev : ℕ) (s : Machine)
    → Answers hw fuel
    → Sends
        (if dev == 0 then [] else (u16 dev, u8 byte) ∷ [])
        s
        ((if dev == 0 then pure tt else (wait_ready hw fuel dev >> outb dev byte)) s)
unfolding outputs others
byte-Sends hw fuel byte dev s answers = elim (Bool-cases (dev == 0)) [
  | inl y ↦ rw y (record { trace = s.trace; returns = refl; sends = refl; ports_only = refl })
  | inr n ↦
      let (m, below, ready) = answers dev s.trace in
      let (j, ran, now) = wait_ready_lem hw fuel dev s m below ready in
      rw (n, ran)
        (record {
          trace = out_port (u16 dev) (u8 byte) ∷ polled (suc j) dev s.trace;
          returns = refl;
          sends = ap (λ t. (u16 dev, u8 byte) ∷ t) (outputs-polled (suc j) dev s.trace);
          ports_only = others-polled (suc j) dev s.trace;
        })
]

-- One command after another sends the one list after the other.
pub Sends-bind :
    {first second : List (ℕ × ℕ)} {s : Machine} (r : Run (Unit {0})) (k : Machine → Run (Unit {0}))
    → Sends first s r
    → ((t : Machine) → Sends second t (k t))
    → Sends (first ++ second) s (Machine.then_run r λ _. k)
Sends-bind {first} {second} {s} r k a b = rw a.returns (record {
  trace = after.trace;
  returns = after.returns;
  sends =
      after.sends ∙ ap (λ t. reverse second ++ t) a.sends ∙ rw (reverse-append, append_assoc) refl;
  ports_only = after.ports_only ∙ a.ports_only;
})
  where
    after : Sends second (record s { trace = a.trace }) (k (record s { trace = a.trace }))
    after = b (record s { trace = a.trace })

write_device-Sends :
    (hw : Hardware) (fuel byte dev : ℕ) (s : Machine)
    → Answers hw fuel
    → Sends (to_device byte dev) s (write_device hw fuel byte dev s)
unfolding write_device to_device
write_device-Sends hw fuel byte dev s answers =
    Sends-bind _ _ (newline-Sends byte dev s) λ t. byte-Sends hw fuel byte dev t answers

-- If every device keeps reporting an empty transmit register within `fuel` polls, whatever went
-- before, then `write` returns, and the port writes that it adds are, device by device: for a line
-- feed a carriage return, to port 0 if the device is absent, and then the byte itself to a device
-- that is there. Nothing but port input and output is issued.
pub write-Sends :
    (hw : Hardware) (fuel : ℕ) (devs : ComDevices) (byte : ℕ) (s : Machine)
    → Answers hw fuel
    → Sends (to_devices byte devs) s (write hw fuel devs byte s)
unfolding write to_devices
write-Sends hw fuel [] byte s answers = record {
  trace = s.trace;
  returns = refl;
  sends = refl;
  ports_only = refl;
}
write-Sends hw fuel (dev ∷ devs) byte s answers =
    Sends-bind _ _ (write_device-Sends hw fuel byte dev s answers)
      λ t. write-Sends hw fuel devs byte t answers
