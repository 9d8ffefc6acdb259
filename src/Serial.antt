-- ===== src/Serial.antt =====
-- The serial ports: bootloader/delice_pxe/src/serial.cc and includes/serial.h. `device` holds the
-- port numbers of the four COM devices, 0 for one that is absent.
pub mod Init
pub mod Write
mod Tests
use deliceos.Base.{
  ℕ, zero, suc, ◌+◌, ◌*◌, ◌%◌, ◌^◌, List, [], ◌∷◌, true, false, ◌==◌, if◌then◌else◌, bit_and,
}
use deliceos.Memory.Cells.{read}
use deliceos.Machine.{Hardware, Machine, Cmd, ok, out_of_fuel, pure, ◌>>=◌, ◌>>◌}
use deliceos.Machine.Io.{outb, inb}

abbrev pub ComDevices : Type 0
ComDevices = List ℕ

-- The zero-initialised global `comdevices`.
abbrev pub comdevices : ComDevices
comdevices = 0 ∷ 0 ∷ 0 ∷ 0 ∷ []

-- The seven writes that set a port up.
pub setup : ℕ → Cmd (Unit {0})
setup port = do
  outb (port + 1) 0x00
  outb (port + 3) 0x80
  outb (port + 0) 0x01
  outb (port + 1) 0x00
  outb (port + 2) 0xc7
  outb (port + 3) 0x03
  outb (port + 4) 0x0b

-- `*(reinterpret_cast<uint16_t*>(0x0400) + com_id)`, a word of the BIOS data area.
abbrev pub bios_port : ℕ → Cmd ℕ
bios_port com_id s = ok (read 2 s.mem (0x400 + 2 * com_id)) s

-- The loop of `ComDevices::init` from the device `com_id` on.
pub init_from : ℕ → ComDevices → Cmd ComDevices
init_from com_id [] = pure []
init_from com_id (dev ∷ devs) = do
  port ← bios_port com_id
  dev' ← (if port == 0 then pure 0 else (setup port >> pure port))
  devs' ← init_from (com_id + 1) devs
  pure (dev' ∷ devs')

pub init : ComDevices → Cmd ComDevices
init device = init_from 0 device

-- `serial::Serial::init`, for the shared devices.
abbrev pub serial_init : ComDevices → Cmd ComDevices
serial_init devices = init devices

module _ (hw : Hardware) where
  -- `while ((io::inb(dev + 5) & 0x20) == 0);` for at most `fuel` rounds.
  pub wait_ready : ℕ → ℕ → Cmd (Unit {0})
  wait_ready zero dev = λ s. out_of_fuel
  wait_ready (suc fuel) dev = do
    status ← inb hw (dev + 5)
    let again = wait_ready fuel dev
    if bit_and status 0x20 == 0 then again else pure tt

  -- The body of the loop of `ComDevices::write`.
  pub write_device : ℕ → ℕ → ℕ → Cmd (Unit {0})
  write_device fuel byte dev = do
    if byte == 0x0a then outb dev 0x0d else pure tt
    if dev == 0 then pure tt else (wait_ready fuel dev >> outb dev byte)

  pub write : ℕ → ComDevices → ℕ → Cmd (Unit {0})
  write fuel [] byte = pure tt
  write fuel (dev ∷ devs) byte = write_device fuel byte dev >> write fuel devs byte
