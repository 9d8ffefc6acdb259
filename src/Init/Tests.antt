-- ===== src/Init/Tests.antt =====
-- The theorems on bootloader/delice_pxe/src/init.cc at concrete inputs.
use deliceos.Base.{◌≡◌, arith, true, some}
use deliceos.Machine.{Hardware}
use deliceos.Serial.{comdevices}
use deliceos.Cpu.{apic_addr}
use deliceos.Paging.{first_pml4_base}
use deliceos.Paging.Walk.{walk}
use deliceos.Samples.{one_port, idle_line}
use deliceos.Init.{Kernel, map_apic}
use deliceos.Init.Start.{map_apic-apic_addr}

map_apic-apic_addr_example :
    walk (map_apic one_port) first_pml4_base (apic_addr 0xb0)
    ≡ some (record { phys = 0xfee000b0; writable = true; uncached = true })
map_apic-apic_addr_example = map_apic-apic_addr one_port 0xb0 (omega arith)

-- What the lock holds before its constructor has run does not matter.
abbrev kernel : Kernel
kernel = record { console = record { devices = comdevices; acquire = 7; release = 5 }; core_id = 1 }

-- IA32_APIC_BASE reads 0xfee00900, with the bit of the bootstrap processor.
abbrev first : Hardware
first = record idle_line { on_rdmsr = λ h msr. (0, 0xfee00900) }
