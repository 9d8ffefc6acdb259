-- ===== src/FirstStage/Sequence/Parked.antt =====
-- Any number of application processors one after another, through bootloader/firststage/bootloader.s
-- and `start_kernel` of bootloader/delice_pxe/src/init.cc.
use deliceos.Base.{
  bit_at, bit_at-bit_or, bit_or, u8, ℕ, suc, ◌+◌, ◌/◌, ◌^◌, ◌<◌, ◌≤◌, ◌≡◌, refl, ap, sym, ◌∙◌,
  arith, List, [], ◌∷◌, ◌++◌, map, length, get_elem?, some, inl, u32,
}
use mathlib.Core.Path.{ap₂}
use mathlib.Core.List.{map-append, reverse}
use deliceos.Memory.{Mem, store}
use deliceos.Machine.{Event, Hardware, Machine, Run, ok, cli, hlt}
use deliceos.Serial.Init.{ports, sent}
use deliceos.Serial.Write.{outputs, outputs-append}
use deliceos.Serial.Write
use deliceos.Cpu.{apic_addr}
use deliceos.Console.{Console, Formatter}
use deliceos.Console.Prints.{IsFree, to_console}
use deliceos.Init.{construct_spin, Kernel, Places, map_apic, ap_message, stack_wait, static_init}
use deliceos.Init.Start.{IsAp, start_kernel-Parks}
use deliceos.FirstStage.{early_page}
use deliceos.FirstStage.MemoryMap.{Bios}
use deliceos.FirstStage.MemoryMap.Collected.{Answers, get_physical-collects}
use deliceos.FirstStage.Sequence.Said.{
  AllOn, AllOn-append, staged, said, outputs-staged, said_one, said_more,
}
use deliceos.FirstStage.Sequence.{boot, boot_all, first_stage}
use deliceos.FirstStage.Sequence.Kept.{SameLow, stage-SameLow, kernel-SameLow, ports_cong}

-- An application processor and the identifier that its APIC gives (Intel SDM, volume 3), with devices
-- that answer it.
pub record IsCore (fuel : ℕ) (core : Hardware × ℕ) : Type 0 where
  pub answers : Write.Answers core.0 fuel
  pub is_ap : IsAp core.0
  pub has_id : (h : List Event) → u32 (core.0.on_load h (apic_addr 0x20)) / 2 ^ 24 ≡ core.1

-- The lock is free, the byte is set, and the devices are at the ports that the BIOS names.
pub record IsReady (c : Console) (s : Machine) : Type 0 where
  pub free : IsFree c
  pub set : s.mem stack_wait ≡ 1
  pub few : length c.devices ≤ 4
  pub named : ports s.mem 0 c.devices ≡ c.devices

-- The run ends ready for the next processor, with the writes of processors `ids` on the ports.
pub record AllPark (vsnprintf : Formatter) (ids : List ℕ) (k : Kernel) (s : Machine)
    (r : Run Kernel) : Type 0 where
  pub console : Console
  pub end : Machine
  pub returns : r ≡ ok (record k { console = console; core_id = u32 (k.core_id + length ids) }) end
  pub ready : IsReady console end
  pub same_devices : console.devices ≡ k.console.devices
  pub turns : List (ℕ × ℕ)
  pub numbers : map (λ t. t.0) turns ≡ ids
  pub on : AllOn turns
  pub prints :
      outputs end.trace ≡ reverse (said vsnprintf k.console.devices turns) ++ outputs s.trace

module _ (bios : Bios) (n fuel : ℕ) (entry : ℕ → ℕ → ℕ) (vsnprintf : Formatter) (places : Places)
    (answers : Answers bios n entry) (some_there : 1 ≤ n) (few : n ≤ 21) (enough : n ≤ fuel) where
  -- The first stage ends, with the bytes below `stack_wait` as they were.
  first_stage_runs :
      (hw : Hardware) (s : Machine)
      → s.mem stack_wait ≡ 1
      → (m : Mem) × (a20 : ℕ) × (bit_at 1 a20 ≡ 1)
        × (first_stage bios fuel hw s
            ≡ ok tt (record { mem = early_page m; trace = staged a20 s.trace }))
        × SameLow m (store s.mem stack_wait 0)
  unfolding first_stage
  first_stage_runs hw s set =
      let (m, runs, placed, kept, count) =
        get_physical-collects bios n entry few answers fuel (store s.mem stack_wait 0) some_there
          enough in
      (
        m,
        u8 (bit_or (u8 (hw.on_in s.trace 0x92)) 2),
        omega (arith, bit_at-bit_or 1 (u8 (hw.on_in s.trace 0x92)) 2),
        rw (set, runs) refl,
        λ x low. kept x (inl (omega arith)),
      )

  -- One processor: the machine on which the next one starts.
  boot-Parks :
      (core : Hardware × ℕ) (k : Kernel) (s : Machine)
      → IsCore fuel core
      → IsReady k.console s
      → AllPark vsnprintf
          (core.1 ∷ [])
          k
          s
          (boot bios fuel vsnprintf places (construct_spin ∷ []) core.0 k s)
  unfolding boot outputs store static_init
  boot-Parks core k s is ready =
      let (m, a20, on, runs, low) = first_stage_runs core.0 s ready.set in
      let s1 : Machine = record { mem = early_page m; trace = staged a20 s.trace } in
      let p =
        start_kernel-Parks core.0 fuel is.answers vsnprintf places (construct_spin ∷ []) k
          (record k.console { acquire = 0; release = 0 }) s1 s1 is.is_ap refl refl in
      let same : ports s1.mem 0 k.console.devices ≡ k.console.devices =
        ports_cong s1.mem s.mem 0 k.console.devices (omega (arith, ready.few))
          (stage-SameLow s.mem m low)
        ∙ ready.named in
      let kept : p.console.devices ≡ k.console.devices = p.devices ∙ same in
      let id_is : p.id ≡ core.1 = p.given.1 ∙ is.has_id p.given.0 in
      record {
        console = p.console;
        end = record {
          mem = store (map_apic (early_page m)) stack_wait 1;
          trace = hlt ∷ cli ∷ p.trace;
        };
        returns = rw (runs, p.returns) refl;
        ready = record {
          free = p.free;
          set = refl;
          few = rw kept ready.few;
          named =
              ap (ports _ 0) kept
              ∙ ports_cong _ (early_page m) 0 k.console.devices (omega (arith, ready.few))
                  (kernel-SameLow (early_page m))
              ∙ same
              ∙ sym kept;
        };
        same_devices = kept;
        turns = (core.1, a20) ∷ [];
        numbers = refl;
        on = (on, tt);
        prints =
            p.prints
            ∙ rw (same, id_is)
                (ap
                  (λ t.
                    reverse (to_console k.console.devices (vsnprintf (ap_message core.1)).0) ++ t)
                  (outputs-append (sent k.console.devices) (cli ∷ s1.trace)
                    ∙ ap (λ t. outputs (sent k.console.devices) ++ t) (outputs-staged a20 s.trace)))
            ∙ said_one vsnprintf k.console.devices core.1 a20 (outputs s.trace);
      }

  -- From a machine with the lock free, the byte set and at most four devices, at the ports that the
  -- BIOS names, any application processors, with the identifiers that their APICs give, go one after
  -- another through the first stage and `start_kernel`, with a BIOS of from 1 to 21 entries,
  -- the constructor of the lock, which each of them runs, and devices that answer: all come to their end, and
  -- leave such a machine again, and the ports get the writes of the first stage, that for the A20
  -- line with bit 1, the configuration and the message of each, in their order and with nothing else between.
  pub boot_all-AllPark :
      (cores : List (Hardware × ℕ)) (k : Kernel) (s : Machine)
      → k.core_id < 2 ^ 32
      → ((i : ℕ) (core : Hardware × ℕ) → get_elem? cores i ≡ some core → IsCore fuel core)
      → IsReady k.console s
      → AllPark vsnprintf (map (λ core. core.1) cores) k s (
          boot_all bios fuel vsnprintf places
            (construct_spin ∷ [])
            (map (λ core. core.0) cores)
            k
            s)
  unfolding boot_all said
  boot_all-AllPark [] k s small each ready = record {
    console = k.console;
    end = s;
    returns = ap (λ c. ok (record k { core_id = c }) s) (omega arith);
    ready = ready;
    same_devices = refl;
    turns = [];
    numbers = refl;
    on = tt;
    prints = refl;
  }
  boot_all-AllPark (core ∷ cores) k s small each ready =
      let one = boot-Parks core k s (each 0 core refl) ready in
      let k1 = record k { console = one.console; core_id = u32 (k.core_id + 1) } in
      let rest =
        boot_all-AllPark cores k1 one.end (omega arith) (λ i c at. each (suc i) c at) one.ready in
      record {
        console = rest.console;
        end = rest.end;
        returns =
            rw (one.returns, rest.returns)
              (ap (λ c. ok (record k { console = rest.console; core_id = c }) rest.end)
                (omega arith));
        ready = rest.ready;
        same_devices = rest.same_devices ∙ one.same_devices;
        turns = one.turns ++ rest.turns;
        numbers = map-append _ one.turns rest.turns ∙ ap₂ ◌++◌ one.numbers rest.numbers;
        on = AllOn-append one.turns rest.turns one.on rest.on;
        prints =
            rest.prints
            ∙ rw (one.same_devices, one.prints)
                (said_more vsnprintf k.console.devices one.turns rest.turns (outputs s.trace));
      }
