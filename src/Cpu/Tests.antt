-- ===== src/Cpu/Tests.antt =====
-- The theorems about the register wrappers of bootloader/delice_pxe/includes/misc/cpu.h on a sample
-- machine, at the value that enable_lapic writes.
use deliceos.Base.{◌≡◌, refl, ◌∷◌, arith}
use deliceos.Machine.{ok, ◌>>◌, write_msr, read_msr}
use deliceos.Samples.{start, idle_line}
use deliceos.Cpu.{wrmsr, rdmsr}
use deliceos.Cpu.Registers.{rdmsr-wrmsr}

rdmsr-wrmsr_example :
    (wrmsr 0x1b 0x1fee00800 >> rdmsr idle_line 0x1b) start
    ≡ ok 0x1fee00800
        (record start { trace = read_msr 0x1b ∷ write_msr 0x1b 0xfee00800 1 ∷ start.trace })
rdmsr-wrmsr_example =
    rdmsr-wrmsr idle_line 0x1b 0x1fee00800 start (λ h msr low high. refl) (omega arith)
