-- ===== src/Samples.antt =====
-- Machines on which the tests run: no code of the repository is modelled here.
use deliceos.Base.{ℕ, List, [], ◌∷◌, ◌==◌, if◌then◌else◌, arith, refl}
use deliceos.Memory.{Mem}
use deliceos.Machine.{Event, Hardware, Machine, write_msr}
use deliceos.Serial.Write.{Answers}

-- Memory whose BIOS data area reports one serial port, 0x3f8.
abbrev pub one_port : Mem
one_port a = if a == 0x400 then 0xf8 else if a == 0x401 then 0x03 else 0

abbrev pub start : Machine
start = record { mem = one_port; trace = [] }

-- What a model-specific register holds after what was issued, at least if that wrote it last.
abbrev pub last_write : List Event → ℕ × ℕ
last_write [] = (0, 0)
last_write (write_msr msr low high ∷ h) = (high, low)
last_write (e ∷ h) = (0, 0)

-- Every read of a port gives a status with the transmit register empty.
abbrev pub idle_line : Hardware
idle_line = record {
  on_in = λ h port. 0x60;
  on_load = λ h addr. 0;
  on_rdmsr = λ h msr. last_write h;
  on_rdpmc = λ h id. (0, 0);
  on_rdtsc = λ h. (0, 0);
  on_cpuid = λ leaf subleaf. (0, 0, 0, 0);
}

pub idle_line-Answers : Answers idle_line 1
idle_line-Answers dev h = (0, omega arith, refl)
