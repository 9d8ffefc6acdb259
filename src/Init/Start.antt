-- ===== src/Init/Start.antt =====
-- What `start_kernel` of bootloader/delice_pxe/src/init.cc does on an application processor, and
-- where its page of the APIC leads.
use deliceos.Base.{
  ℕ, ◌+◌, ◌*◌, ◌/◌, ◌^◌, ◌<◌, ◌≡◌, refl, ap, ◌∙◌, arith, List, ◌∷◌, ◌++◌, true, false, some,
  bit_and, bit_and_mask, ◌>>>◌, u32,
}
use mathlib.Core.List.{reverse}
use deliceos.Memory.{Mem, store}
use deliceos.Machine.{Event, Hardware, Machine, Run, Cmd, ok, cli, hlt, read_msr, mmio_load}
use deliceos.Serial.{ComDevices}
use deliceos.Serial.Init.{ports, sent, init-ports}
use deliceos.Serial.Write.{Answers, outputs}
use deliceos.Cpu.{apic_addr, is_bsp, get_apic_id}
use deliceos.Console.{Console, Formatter, printf}
use deliceos.Console.Prints.{IsFree, Prints, to_console, printf-Prints}
use deliceos.Paging.{first_pml4_base}
use deliceos.Paging.Walk.{walk}
use deliceos.Paging.Map.{map_addr_translates}
use deliceos.Init.{Kernel, Places, map_apic, ap_message, stack_wait, static_init, start_kernel}
use deliceos.Init

-- With the page that `start_kernel` maps, the virtual address at which `apic_read` and `apic_write`
-- reach a register of the first 2 MB leads to the 32-bit word of that register behind 0xfee00000,
-- writable and not cached.
pub map_apic-apic_addr :
    (m : Mem) (reg : ℕ)
    → reg < 2 ^ 21
    → walk (map_apic m) first_pml4_base (apic_addr reg)
      ≡ some (record { phys = 0xfee00000 + 4 * (reg / 4); writable = true; uncached = true })
map_apic-apic_addr m reg small =
    map_addr_translates m 0x13370000000 (apic_addr reg) 0x7f7 19 (omega arith) (omega arith) refl
      (omega arith)
    ∙ ap (λ (p : ℕ). some (record { phys = p; writable = true; uncached = true })) (omega arith)

-- The end of a run on an application processor that began, after the constructors, on `s` with the lock
-- and the devices `c`: the
-- message with the identifier that the APIC gives is printed, the byte `stack_wait` frees the boot
-- stack, the APIC is mapped, the lock is free, and the last instructions are `cli` and `hlt`.
pub record Parks (hw : Hardware) (vsnprintf : Formatter) (k : Kernel) (c : Console) (s : Machine)
    (r : Run Kernel) : Type 0 where
  pub id : ℕ
  pub given : (h : List Event) × (id ≡ u32 (hw.on_load h (apic_addr 0x20)) / 2 ^ 24)
  pub id_byte : id < 256
  pub console : Console
  pub trace : List Event
  pub returns :
      r
      ≡ ok
          (record k { console = console; core_id = u32 (k.core_id + 1) })
          (record { mem = store (map_apic s.mem) stack_wait 1; trace = hlt ∷ cli ∷ trace })
  pub free : IsFree console
  pub word : console.acquire < 2 ^ 32
  pub devices : console.devices ≡ ports s.mem 0 c.devices
  pub prints :
      outputs trace
      ≡ reverse (to_console (ports s.mem 0 c.devices) (vsnprintf (ap_message id)).0)
        ++ outputs (sent (ports s.mem 0 c.devices) ++ cli ∷ s.trace)

-- A processor whose IA32_APIC_BASE says that it is not the bootstrap processor.
abbrev pub IsAp : Hardware → Type 0
IsAp hw = (s : Machine) → is_bsp hw s ≡ ok false (record s { trace = read_msr 0x1b ∷ s.trace })

byte_lt : (v : ℕ) → bit_and v 0xff < 256
byte_lt v = omega (arith, bit_and_mask 8 v)

module _ (hw : Hardware) (fuel : ℕ) (answers : Answers hw fuel) where
  -- On an application processor, with constructors that leave the lock free and devices that
  -- answer, `start_kernel` comes to its end.
  pub start_kernel-Parks :
      (vsnprintf : Formatter) (places : Places) (constructors : List (Console → Cmd Console))
      (k : Kernel) (c : Console) (before s : Machine)
      → IsAp hw
      → static_init constructors k.console before ≡ ok c s
      → IsFree c
      → Parks hw vsnprintf k c s (start_kernel hw fuel vsnprintf places constructors k before)
  unfolding start_kernel Init.ap get_apic_id outputs
  start_kernel-Parks vsnprintf places constructors k c before s is_ap constructed free =
      rw
        (
          constructed,
          init-ports c.devices (record s { trace = cli ∷ s.trace }),
          is_ap asked,
          printed.returns,
        )
        (record {
          id = id;
          given = (
            before_load,
            omega (arith, bit_and_mask 8 (u32 (hw.on_load before_load (apic_addr 0x20)) >>> 24)),
          );
          id_byte = byte_lt _;
          console = printed.console;
          trace = printed.trace;
          returns = refl;
          free = printed.free;
          word = printed.word;
          devices = printed.same_devices;
          prints = printed.sends;
        })
    where
      devices : ComDevices
      devices = ports s.mem 0 c.devices

      asked : Machine
      asked = record { mem = map_apic s.mem; trace = sent devices ++ cli ∷ s.trace }

      before_load : List Event
      before_load = read_msr 0x1b ∷ asked.trace

      id : ℕ
      id = bit_and (u32 (hw.on_load before_load (apic_addr 0x20)) >>> 24) 0xff

      printed :
          Prints
            (to_console devices (vsnprintf (ap_message id)).0)
            (vsnprintf (ap_message id)).1
            (record c { devices = devices })
            (record asked { trace = mmio_load (apic_addr 0x20) ∷ before_load })
            (printf hw fuel vsnprintf
              (record c { devices = devices })
              (ap_message id)
              (record asked { trace = mmio_load (apic_addr 0x20) ∷ before_load }))
      printed = printf-Prints hw fuel answers vsnprintf _ (ap_message id) _ free
