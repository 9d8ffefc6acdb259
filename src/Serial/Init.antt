-- ===== src/Serial/Init.antt =====
-- What `ComDevices::init` of bootloader/delice_pxe/src/serial.cc leaves in the devices and sends.
use deliceos.Base.{
  ℕ, ◌+◌, ◌*◌, ◌≡◌, refl, ap, List, [], ◌∷◌, ◌++◌, ◌==◌, if◌then◌else◌, arith, Bool-cases, inl, inr,
  u16,
}
use mathlib.Core.List.{append_assoc}
use deliceos.Memory.{Mem}
use deliceos.Memory.Cells.{read}
use deliceos.Machine.{Event, out_port, Machine, ok}
use deliceos.Serial.{ComDevices, setup, init_from, init}

-- The port that the BIOS data area names for a device.
abbrev pub bios : Mem → ℕ → ℕ
bios m com_id = read 2 m (0x400 + 2 * com_id)

-- The devices after initialisation, from `com_id` on.
unfoldable pub ports : Mem → ℕ → ComDevices → ComDevices
ports m com_id [] = []
ports m com_id (dev ∷ devs) = bios m com_id ∷ ports m (com_id + 1) devs

-- The writes to one port, the latest first.
unfoldable pub sent_to : ℕ → List Event
sent_to port =
    out_port (u16 (port + 4)) 0x0b
    ∷ out_port (u16 (port + 3)) 0x03
    ∷ out_port (u16 (port + 2)) 0xc7
    ∷ out_port (u16 (port + 1)) 0x00
    ∷ out_port (u16 (port + 0)) 0x01
    ∷ out_port (u16 (port + 3)) 0x80
    ∷ out_port (u16 (port + 1)) 0x00
    ∷ []

unfoldable pub sent : ComDevices → List Event
sent [] = []
sent (port ∷ rest) = if port == 0 then sent rest else sent rest ++ sent_to port

setup_lem :
    (port : ℕ) (s : Machine) → setup port s ≡ ok tt (record s { trace = sent_to port ++ s.trace })
unfolding setup sent_to
setup_lem port s = refl

init_from_lem :
    (com_id : ℕ) (devs : ComDevices) (s : Machine)
    → init_from com_id devs s
      ≡ ok
          (ports s.mem com_id devs)
          (record s { trace = sent (ports s.mem com_id devs) ++ s.trace })
unfolding init_from sent ports
init_from_lem com_id [] s = refl
init_from_lem com_id (dev ∷ devs) s = elim (Bool-cases (bios s.mem com_id == 0)) [
  | inl absent ↦
      rw (absent, init_from_lem (com_id + 1) devs s)
        (ap (λ p. ok (p ∷ rest) after_none) (ground arith))
  | inr present ↦
      rw
        (
          present,
          setup_lem (bios s.mem com_id) s,
          init_from_lem (com_id + 1) devs (after_setup (bios s.mem com_id)),
          append_assoc,
        )
        refl
]
  where
    rest : ComDevices
    rest = ports s.mem (com_id + 1) devs

    after_none : Machine
    after_none = record s { trace = sent rest ++ s.trace }

    after_setup : ℕ → Machine
    after_setup port = record s { trace = sent_to port ++ s.trace }

-- `init` gives each device the port that the BIOS data area names for it, 0 where there is none,
-- and sends the seven configuration writes to each port that is there, in the order of the devices,
-- and nothing else; the memory stays.
pub init-ports :
    (devs : ComDevices) (s : Machine)
    → init devs s
      ≡ ok (ports s.mem 0 devs) (record s { trace = sent (ports s.mem 0 devs) ++ s.trace })
unfolding init
init-ports devs s = init_from_lem 0 devs s
