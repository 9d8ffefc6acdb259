-- ===== src/FirstStage/Sequence/Said.antt =====
-- What processors write to ports when they boot one after another, through
-- bootloader/firststage/bootloader.s and `start_kernel` of bootloader/delice_pxe/src/init.cc.
use deliceos.Base.{bit_at, ℕ, ◌≡◌, refl, ap, sym, ◌∙◌, List, [], ◌∷◌, ◌++◌}
use mathlib.Core.List.{append-nil, append_assoc, reverse, reverse-append, reverse-reverse}
use deliceos.Machine.{Event, out_port, in_port, mmio_load, load_idtr}
use deliceos.Serial.{ComDevices}
use deliceos.Serial.Init.{sent}
use deliceos.Serial.Write.{outputs}
use deliceos.Console.{Formatter}
use deliceos.Console.Prints.{to_console}
use deliceos.Init.{ap_message}

-- What the first stage writes to ports, with `a20` to the port of the A20 line, and what it issues.
pub stage_writes : ℕ → List (ℕ × ℕ)
stage_writes a20 = (0x92, a20) ∷ (0xa1, 0xff) ∷ (0x21, 0xff) ∷ []

abbrev pub staged : ℕ → List Event → List Event
staged a20 t =
    load_idtr 0 0
    ∷ out_port 0x21 0xff
    ∷ out_port 0xa1 0xff
    ∷ mmio_load 0xfee00020
    ∷ out_port 0x92 a20
    ∷ in_port 0x92
    ∷ t

-- The port writes of one processor, with its identifier and what it writes for the A20 line: those of
-- the first stage, the configuration of the ports, and the message.
pub turn_writes : Formatter → ComDevices → ℕ × ℕ → List (ℕ × ℕ)
turn_writes vsnprintf devices (id, a20) =
    stage_writes a20
    ++ (reverse (outputs (sent devices)) ++ to_console devices (vsnprintf (ap_message id)).0)

unfoldable pub said : Formatter → ComDevices → List (ℕ × ℕ) → List (ℕ × ℕ)
said vsnprintf devices [] = []
said vsnprintf devices (t ∷ turns) = turn_writes vsnprintf devices t ++ said vsnprintf devices turns

-- In each of the turns the bit of the A20 line, bit 1, is written as 1.
abbrev pub AllOn : List (ℕ × ℕ) → Type 0
AllOn [] = Unit {0}
AllOn (t ∷ turns) = (bit_at 1 t.1 ≡ 1) × AllOn turns

pub AllOn-append : (xs ys : List (ℕ × ℕ)) → AllOn xs → AllOn ys → AllOn (xs ++ ys)
AllOn-append [] ys on more = more
AllOn-append (x ∷ xs) ys on more = (on.0, AllOn-append xs ys on.1 more)

pub outputs-staged :
    (a20 : ℕ) (t : List Event) → outputs (staged a20 t) ≡ reverse (stage_writes a20) ++ outputs t
unfolding outputs stage_writes
outputs-staged a20 t = refl

pub said_one :
    (vsnprintf : Formatter) (devices : ComDevices) (id a20 : ℕ) (before : List (ℕ × ℕ))
    → reverse (to_console devices (vsnprintf (ap_message id)).0)
        ++ (outputs (sent devices) ++ (reverse (stage_writes a20) ++ before))
      ≡ reverse (said vsnprintf devices ((id, a20) ∷ [])) ++ before
unfolding said turn_writes
said_one vsnprintf devices id a20 before =
    rw (append-nil, reverse-append, reverse-append, reverse-reverse, append_assoc, append_assoc)
      refl

said-append :
    (vsnprintf : Formatter) (devices : ComDevices) (xs ys : List (ℕ × ℕ))
    → said vsnprintf devices (xs ++ ys) ≡ said vsnprintf devices xs ++ said vsnprintf devices ys
unfolding said
said-append vsnprintf devices [] ys = refl
said-append vsnprintf devices (t ∷ xs) ys =
    ap (λ r. turn_writes vsnprintf devices t ++ r) (said-append vsnprintf devices xs ys)
    ∙ sym (
        append_assoc (turn_writes vsnprintf devices t) (said vsnprintf devices xs)
          (said vsnprintf devices ys))

pub said_more :
    (vsnprintf : Formatter) (devices : ComDevices) (xs ys before : List (ℕ × ℕ))
    → reverse (said vsnprintf devices ys) ++ (reverse (said vsnprintf devices xs) ++ before)
      ≡ reverse (said vsnprintf devices (xs ++ ys)) ++ before
said_more vsnprintf devices xs ys before =
    rw (said-append vsnprintf devices xs ys, reverse-append, append_assoc) refl
