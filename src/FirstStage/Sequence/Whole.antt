-- ===== src/FirstStage/Sequence/Whole.antt =====
-- The bootstrap processor and any number of application processors behind it, through
-- bootloader/firststage/bootloader.s and `start_kernel` of bootloader/delice_pxe/src/init.cc.
use deliceos.Base.{
  u8, bit_or, ℕ, suc, ◌+◌, ◌≤◌, ◌≡◌, refl, ap, sym, ◌∙◌, arith, List, [], ◌∷◌, ◌++◌, map, length,
  get_elem?, some, u32, inl,
}
use mathlib.Core.List.{reverse}
use mathlib.Core.Option.{some-injective}
use deliceos.Memory.{Mem, store}
use deliceos.Machine.{Hardware, Machine, Event, Run, ok, cli, hlt}
use deliceos.Serial.Init.{ports, sent}
use deliceos.Serial.Write.{outputs, outputs-append}
use deliceos.Serial.Write
use deliceos.Console.{Console, Formatter}
use deliceos.Perf.{unoptimized_function2}
use deliceos.Init.{construct_spin, Kernel, Places, map_apic, buf_size, stack_wait, static_init}
use deliceos.Init.Script
use deliceos.Init.Script.{bsp_calls}
use deliceos.Init.Objects.{Searches}
use deliceos.Init.Boot.{IsBsp, Boots, start_kernel-Boots}
use deliceos.FirstStage.{early_page}
use deliceos.FirstStage.MemoryMap.{Bios, get_physical}
use deliceos.FirstStage.MemoryMap.Collected.{Answers, get_physical-collects}
use deliceos.FirstStage.Sequence.{boot, boot_all, first_stage}
use deliceos.FirstStage.Sequence.Kept.{
  SameLow, stage-SameLow, kernel-SameLow, ports_cong, ports-ports, length-ports, buf-SameLow,
}
use deliceos.FirstStage.Sequence.Said.{AllOn, said, staged, stage_writes, outputs-staged}
use deliceos.FirstStage.Sequence.Parked.{IsCore, IsReady, boot_all-AllPark}

-- What the first stage writes for the A20 line: what it reads, with bit 1.
abbrev pub a20_value : Hardware → Machine → ℕ
a20_value hw s = u8 (bit_or (u8 (hw.on_in s.trace 0x92)) 2)

-- The machine at the start of the kernel, with the memory map in `m`.
abbrev pub entered : Hardware → Machine → Mem → Machine
entered hw s m = record { mem = early_page m; trace = staged (a20_value hw s) s.trace }

-- The end of a run on the bootstrap processor and on application processors with the identifiers
-- `ids`, where `m` is the memory with the memory map: the machine is ready for one more, and the ports
-- got the configuration, the messages of the bootstrap processor, and what the others print.
pub record AllBoot (vsnprintf : Formatter) (places : Places) (hw : Hardware) (ids : List ℕ)
    (k : Kernel) (s : Machine) (m : Mem) (r : Run Kernel) : Type 0 where
  pub val : ℕ
  pub pmc : ℕ
  pub console : Console
  pub end : Machine
  pub returns :
      r ≡ ok (record { console = console; core_id = u32 (k.core_id + suc (length ids)) }) end
  pub ready : IsReady console end
  pub devices : console.devices ≡ ports s.mem 0 k.console.devices
  pub turns : List (ℕ × ℕ)
  pub numbers : map (λ t. t.0) turns ≡ ids
  pub on : AllOn turns
  pub prints :
      outputs end.trace
      ≡ reverse (said vsnprintf (ports s.mem 0 k.console.devices) turns)
        ++ (reverse (
              Script.said vsnprintf
                (ports s.mem 0 k.console.devices)
                (bsp_calls hw (map_apic (early_page m)) val pmc))
            ++ (outputs (sent (ports s.mem 0 k.console.devices))
                ++ (reverse (stage_writes (a20_value hw s)) ++ outputs s.trace)))

module _ (bios : Bios) (n fuel : ℕ) (entry : ℕ → ℕ → ℕ) (vsnprintf : Formatter) (places : Places)
    (answers : Answers bios n entry) (some_there : 1 ≤ n) (few : n ≤ 21) (enough : n ≤ fuel) where
  -- The bootstrap processor.
  boot-Boots :
      (hw : Hardware) (k : Kernel) (s : Machine) (m : Mem) (search : Console → Mem)
      → Write.Answers hw fuel
      → IsBsp hw
      → s.mem stack_wait ≡ 1
      → get_physical bios fuel (store s.mem stack_wait 0) ≡ some m
      → Searches fuel places
          (ports (early_page m) 0 k.console.devices)
          (map_apic (early_page m))
          search
      → Boots hw vsnprintf places k
          (record k.console { acquire = 0; release = 0 })
          (entered hw s m)
          search
          (boot bios fuel vsnprintf places (construct_spin ∷ []) hw k s)
  unfolding boot first_stage static_init
  boot-Boots hw k s m search ready is_bsp set mapped se =
      rw (set, mapped)
        (start_kernel-Boots hw vsnprintf places fuel (construct_spin ∷ []) k
          (record k.console { acquire = 0; release = 0 }) (entered hw s m) (entered hw s m) search
          ready is_bsp refl refl (omega arith) se)

  map-SameLow :
      (s : Machine) (m : Mem)
      → get_physical bios fuel (store s.mem stack_wait 0) ≡ some m
      → SameLow m (store s.mem stack_wait 0)
  map-SameLow s m mapped x low =
      let (m0, runs, placed, kept, count) =
        get_physical-collects bios n entry few answers fuel (store s.mem stack_wait 0) some_there
          enough in
      ap (λ (f : Mem). f x) (some-injective _ _ (sym mapped ∙ runs)) ∙ kept x (inl (omega arith))

  -- The machine that the bootstrap processor leaves for the next one.
  Boots-IsReady :
      (hw : Hardware) (k : Kernel) (s : Machine) (m : Mem) (search : Console → Mem) {r : Run Kernel}
      (trace : List Event)
      → (b : Boots hw vsnprintf places k
          (record k.console { acquire = 0; release = 0 })
          (entered hw s m)
          search
          r)
      → length k.console.devices ≤ 4
      → SameLow (early_page m) s.mem
      → ((c : Console)
          → c.devices ≡ ports (early_page m) 0 k.console.devices
          → SameLow (search c) (map_apic (early_page m)))
      → stack_wait ≤ places.buf
      → IsReady b.console (record {
        mem = store (unoptimized_function2 places.buf buf_size (search b.at_search)) stack_wait 1;
        trace = trace;
      })
        × (b.console.devices ≡ ports s.mem 0 k.console.devices)
  unfolding store
  Boots-IsReady hw k s m search trace b room low searched above =
      let devs = k.console.devices in
      let kept : b.console.devices ≡ ports s.mem 0 devs =
        b.ready.same ∙ ports_cong (early_page m) s.mem 0 devs (omega (arith, room)) low in
      let final : SameLow
          (store (unoptimized_function2 places.buf buf_size (search b.at_search)) stack_wait 1)
          s.mem =
        λ x h. ground (
          arith,
          buf-SameLow places.buf (search b.at_search) above x h,
          searched b.at_search b.found_devices x h,
          kernel-SameLow (early_page m) x h,
          low x h,
        ) in
      (
        record {
          free = b.ready.free;
          set = refl;
          few = rw kept (omega (arith, room, length-ports s.mem 0 devs));
          named = rw kept (
              ports-ports _ s.mem 0 0 devs ∙ ports_cong _ s.mem 0 devs (omega (arith, room)) final);
        },
        kept,
      )

  -- From a machine with the byte set and at most four devices, with a BIOS of from 1 to 21 entries, the
  -- constructor of the lock, which each processor runs, devices that answer, and a search for the
  -- processors that ends, and spares the lock and the devices, as the interrupt table does, and the
  -- memory below the byte, as the buffer of the counted run does too, the bootstrap processor and then
  -- any application processors, with the identifiers that their APICs give, go one after another
  -- through the first stage and `start_kernel`: all come to their end, and leave the lock free and the
  -- byte set, with the devices at the ports that the BIOS names, and the ports get the writes of the
  -- first stage, the configuration and the messages of the first, and the writes of the first stage,
  -- that for the A20 line with bit 1, the configuration and the message of each other, in their order
  -- and with nothing else between.
  pub boot_all-AllBoot :
      (hw : Hardware) (cores : List (Hardware × ℕ)) (k : Kernel) (s : Machine) (m : Mem)
      (search : Console → Mem)
      → Write.Answers hw fuel
      → IsBsp hw
      → s.mem stack_wait ≡ 1
      → length k.console.devices ≤ 4
      → get_physical bios fuel (store s.mem stack_wait 0) ≡ some m
      → Searches fuel places
          (ports (early_page m) 0 k.console.devices)
          (map_apic (early_page m))
          search
      → ((c : Console)
          → c.devices ≡ ports (early_page m) 0 k.console.devices
          → SameLow (search c) (map_apic (early_page m)))
      → stack_wait ≤ places.buf
      → ((i : ℕ) (core : Hardware × ℕ) → get_elem? cores i ≡ some core → IsCore fuel core)
      → AllBoot vsnprintf places hw (map (λ core. core.1) cores) k s m (
          boot_all bios fuel vsnprintf places
            (construct_spin ∷ [])
            (hw ∷ map (λ core. core.0) cores)
            k
            s)
  unfolding boot_all outputs
  boot_all-AllBoot hw cores k s m search ready is_bsp set room mapped se searched above each =
      let b = boot-Boots hw k s m search ready is_bsp set mapped se in
      let low = stage-SameLow s.mem m (map-SameLow s m mapped) in
      let same = ports_cong (early_page m) s.mem 0 k.console.devices (omega (arith, room)) low in
      let devices = ports s.mem 0 k.console.devices in
      let end : Machine = record {
        mem = store (unoptimized_function2 places.buf buf_size (search b.at_search)) stack_wait 1;
        trace = hlt ∷ cli ∷ b.trace;
      } in
      let (next, kept) = Boots-IsReady hw k s m search end.trace b room low searched above in
      let k1 : Kernel = record { console = b.console; core_id = u32 (k.core_id + 1) } in
      let rest =
        boot_all-AllPark bios n fuel entry vsnprintf places answers some_there few enough cores k1
          end (omega arith) each next in
      record {
        val = b.val;
        pmc = b.pmc;
        console = rest.console;
        end = rest.end;
        returns =
            rw (b.returns, rest.returns)
              (ap (λ c. ok (record { console = rest.console; core_id = c }) rest.end)
                (omega arith));
        ready = rest.ready;
        devices = rest.same_devices ∙ kept;
        turns = rest.turns;
        numbers = rest.numbers;
        on = rest.on;
        prints =
            rest.prints
            ∙ rw (kept, b.prints, same)
                (ap
                  (λ t.
                    reverse (said vsnprintf devices rest.turns)
                    ++ (reverse (
                          Script.said vsnprintf devices
                            (bsp_calls hw (map_apic (early_page m)) b.val b.pmc))
                        ++ t))
                  (outputs-append (sent devices) (cli ∷ (entered hw s m).trace)
                    ∙ ap (λ t. outputs (sent devices) ++ t)
                        (outputs-staged (a20_value hw s) s.trace)));
      }
