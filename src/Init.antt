-- ===== src/Init.antt =====
-- The start of the kernel on each processor: bootloader/delice_pxe/src/init.cc and
-- includes/misc/init.h, composed of the models of the other parts. The section init_array, which the
-- compiler makes, is a list of constructors; `construct_spin` is the one that the code has. Interrupts that arrive while `start_kernel`
-- runs are no part of it.
pub mod Start
pub mod Objects
pub mod Effects
pub mod Script
pub mod Measure
mod Tail
pub mod Bsp
pub mod Boot
pub mod Sample
mod Tests
use Prim.Native.String.{String}
use deliceos.Base.{
  ℕ, zero, suc, ◌+◌, ◌-◌, ◌*◌, ◌%◌, ◌^◌, List, [], ◌∷◌, Bool, true, false, if◌then◌else◌, Option,
  none, some, length, bit_or, u8, u32,
}
use deliceos.Memory.{Mem, store}
use deliceos.Memory.Cells.{read, write}
use deliceos.Machine.{
  Hardware, Machine, Cmd, ok, out_of_fuel, pure, ◌>>=◌, ◌>>◌, issue, wbinvd, hlt, cli,
}
use deliceos.Serial.{ComDevices}
use deliceos.Serial
use deliceos.Cpu.{disable_interrupt, enable_interrupt, is_bsp, get_apic_id, rdmsr}
use deliceos.Console.{Console, Call, Formatter, printf}
use deliceos.Paging.{map_addr, page_present, page_write, page_uc}
use deliceos.Interrupt.Table.{load_idt}
use deliceos.Apic
use deliceos.Apic.{check_apic, enable_lapic}
use deliceos.Perf
use deliceos.Perf.{
  get_perf, enable_pmi_nmi, disable_perf_globalctrl, reset, clear, set_perfselect, generate_perf,
  set_perf_globalctrl, unoptimized_function2,
}

unfoldable pub static_init : List (Console → Cmd Console) → Console → Cmd Console
static_init [] c = pure c
static_init (p ∷ ps) c = p c >>= static_init ps

-- The constructor of `spin`, the one that the code has.
abbrev pub construct_spin : Console → Cmd Console
construct_spin c = pure (record c { acquire = 0; release = 0 })

abbrev pub buf_size : ℕ
buf_size = 64 * 1024

abbrev pub e20_addr : ℕ
e20_addr = 0x14000

abbrev pub stack_wait : ℕ
stack_wait = 0x7e00

-- The global data that `start_kernel` uses.
pub record Kernel : Type 0 where
  pub console : Console
  pub core_id : ℕ

abbrev pub change : (Mem → Mem) → Cmd (Unit {0})
change f s = ok tt (record s { mem = f s.mem })

abbrev pub map_apic : Mem → Mem
map_apic m = map_addr m 0x13370000000 0xfee00000 (bit_or (bit_or page_present page_write) page_uc)

-- An entry of 24 bytes: its address, its length and its type.
abbrev pub e20_call : Mem → ℕ → Call
e20_call m entry_addr = record {
  format = "e820 entry addr entry %lx %x %d\n";
  args = read 8 m entry_addr ∷ read 8 m (entry_addr + 8) ∷ read 4 m (entry_addr + 16) ∷ [];
}

abbrev pub entry_count : Mem → ℕ
entry_count m = u8 (m (e20_addr + 0x200) + 2 ^ 8 - 1)

abbrev pub ap_message : ℕ → Call
ap_message id = record { format = "Dragon rocket CPU Core id: %d\n"; args = id ∷ [] }

abbrev pub text : String → Call
text format = record { format = format; args = [] }

abbrev pub apic_init : ℕ → ℕ → Cmd (Unit {0})
apic_init cpu_nodes fuel s = elim (Apic.init cpu_nodes fuel s.mem) [
  | none ↦ out_of_fuel
  | some m ↦ ok tt (record s { mem = m })
]

-- The addresses of the global data and of the entry points in interrupt.s.
pub record Places : Type 0 where
  pub cpu_nodes : ℕ
  pub buf : ℕ
  pub interrupt_desc_table : ℕ
  pub idt : ℕ
  pub spin : ℕ
  pub comdevices : ℕ
  pub ex_handlers : ℕ → ℕ
  pub default_trap_handler : ℕ

-- The array `device` in memory.
unfoldable pub put_devices : ℕ → ComDevices → Mem → Mem
put_devices a [] m = m
put_devices a (dev ∷ devs) m = put_devices (a + 2) devs (write 2 m a dev)

unfoldable pub devices_at : ℕ → ℕ → Mem → ComDevices
devices_at a zero m = []
devices_at a (suc n) m = read 2 m a ∷ devices_at (a + 2) n m

-- The counters of `spin`, one behind the other, and the devices. The pointer to the formatter, which
-- follows the counters, is not kept.
unfoldable pub put_console : Places → Console → Mem → Mem
put_console places c m =
    put_devices places.comdevices c.devices
      (write 4 (write 4 m places.spin c.acquire) (places.spin + 4) c.release)

unfoldable pub console_at : Places → ℕ → Mem → Console
console_at places n m = record {
  devices = devices_at places.comdevices n m;
  acquire = read 4 m places.spin;
  release = read 4 m (places.spin + 4);
}

-- What stores to memory by computed addresses runs with the lock and the devices in memory, and they
-- are what it leaves there.
abbrev pub in_memory : Places → Console → Cmd (Unit {0}) → Cmd Console
in_memory places c stores s =
    (stores >>= λ _ t. ok (console_at places (length c.devices) t.mem) t)
      (record s { mem = put_console places c s.mem })

module _ (hw : Hardware) (fuel : ℕ) (vsnprintf : Formatter) (places : Places) where
  abbrev pub say : Call → Console → Cmd Console
  say call c = do (ret, c') ← printf hw fuel vsnprintf c call; pure c'

  -- The loop over the memory map, with `left` entries to go; `ii` stays below 255.
  pub e20_entries : ℕ → ℕ → Console → Cmd Console
  e20_entries zero ii c = pure c
  e20_entries (suc left) ii c = do
    c1 ← (λ s. say (e20_call s.mem (e20_addr + 24 * ii)) c s)
    e20_entries left (ii + 1) c1

  -- The counted run of `unoptimized_function2`.
  pub measure : Console → Cmd Console
  measure c = do
    disable_perf_globalctrl
    reset hw
    clear
    issue wbinvd
    set_perfselect generate_perf
    set_perf_globalctrl
    val ← rdmsr hw 0x1d9
    change (unoptimized_function2 places.buf buf_size)
    disable_perf_globalctrl
    c1 ← say (record { format = "VAL %d\n"; args = val ∷ [] }) c
    pmc ← Perf.read hw 0
    say (record { format = "PMC counter val %d\n"; args = pmc ∷ [] }) c1

  pub bsp : Kernel → Cmd Kernel
  bsp k = do
    c1 ← (λ s. e20_entries (entry_count s.mem) 0 k.console s)
    c2 ← say (text "BSP processor ready\n") c1
    c3 ← (if check_apic hw then say (text "APIC is supported\n") c2 else pure c2)
    c4 ← in_memory places c3 (do
      load_idt places.ex_handlers places.default_trap_handler places.interrupt_desc_table places.idt
      enable_interrupt
      apic_init places.cpu_nodes fuel)
    enable_lapic
    (ret, c5) ← get_perf hw fuel vsnprintf c4
    enable_pmi_nmi
    c6 ← measure c5
    pure (record k { console = c6 })

  pub ap : Kernel → Cmd Kernel
  ap k = do id ← get_apic_id hw; c ← say (ap_message id) k.console; pure (record k { console = c })

  pub start_kernel : List (Console → Cmd Console) → Kernel → Cmd Kernel
  start_kernel constructors k = do
    c ← static_init constructors k.console
    disable_interrupt
    devices ← Serial.serial_init c.devices
    let here = record k { console = record c { devices = devices }; core_id = u32 (k.core_id + 1) }
    change map_apic
    first ← is_bsp hw
    k1 ← (if first then bsp here else ap here)
    change (λ m. store m stack_wait 1)
    issue cli
    issue hlt
    pure k1
