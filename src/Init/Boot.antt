-- ===== src/Init/Boot.antt =====
-- The whole of `start_kernel` of bootloader/delice_pxe/src/init.cc on the bootstrap processor.
use deliceos.Base.{
  ◌<◌, ◌^◌, ℕ, ◌+◌, ◌≡◌, refl, ap, ◌∙◌, List, [], ◌∷◌, ◌++◌, true, Bool-cases, inl, inr, ◌==◌, u32,
}
use mathlib.Core.List.{append_assoc, reverse}
use deliceos.Memory.{Mem, store}
use deliceos.Machine.{Event, Hardware, Machine, Run, Cmd, ok, cli, hlt, read_msr}
use deliceos.Serial.{ComDevices}
use deliceos.Serial.Init.{ports, sent, sent_to, init-ports}
use deliceos.Serial.Write.{Answers, outputs, others}
use deliceos.Cpu.{is_bsp}
use deliceos.Console.{Console, Formatter}
use deliceos.Console.Prints.{IsFree}
use deliceos.Perf.{unoptimized_function2}
use deliceos.Init.{Kernel, Places, map_apic, stack_wait, buf_size, static_init, start_kernel}
use deliceos.Init
use deliceos.Init.Effects.{Does, Ready}
use deliceos.Init.Objects.{Searches}
use deliceos.Init.Script.{said, bsp_calls, bsp_order}
use deliceos.Init.Bsp.{bsp-Does}
use deliceos.Init.Tail.{Sets}

-- Setting up the serial ports issues port output only.
others-sent : (ports : ComDevices) (t : List Event) → others (sent ports ++ t) ≡ others t
unfolding sent sent_to others
others-sent [] t = refl
others-sent (port ∷ rest) t = elim (Bool-cases (port == 0)) [
  | inl absent ↦ rw absent (others-sent rest t)
  | inr present ↦ rw (present, append_assoc) (others-sent rest (sent_to port ++ t))
]

kernel_is :
    (v : Kernel) (id : ℕ) → v.core_id ≡ id → v ≡ record { console = v.console; core_id = id }
kernel_is v id q = ap (λ (n : ℕ). record { console = v.console; core_id = n }) q

-- A processor whose IA32_APIC_BASE says that it is the bootstrap processor.
abbrev pub IsBsp : Hardware → Type 0
IsBsp hw = (s : Machine) → is_bsp hw s ≡ ok true (record s { trace = read_msr 0x1b ∷ s.trace })

module _ (hw : Hardware) (vsnprintf : Formatter) (places : Places) where
  -- The end of a run that began, after the constructors, on `s` with the lock and the devices `c`, where
  -- `search` is the memory that the search for the processors leaves, for the lock and the devices that
  -- it finds. `status`, `val` and `pmc` are what the status register, the debug control register and
  -- the counter read.
  pub record Boots (k : Kernel) (c : Console) (s : Machine) (search : Console → Mem)
      (r : Run Kernel) : Type 0 where
    pub status : ℕ
    pub val : ℕ
    pub pmc : ℕ
    pub at_search : Console
    pub found_devices : at_search.devices ≡ ports s.mem 0 c.devices
    pub console : Console
    pub trace : List Event
    pub returns :
        r
        ≡ ok
            (record { console = console; core_id = u32 (k.core_id + 1) })
            (record {
              mem =
                  store (unoptimized_function2 places.buf buf_size (search at_search)) stack_wait 1;
              trace = hlt ∷ cli ∷ trace;
            })
    pub ready : Ready (ports s.mem 0 c.devices) console
    pub prints :
        outputs trace
        ≡ reverse (said vsnprintf (ports s.mem 0 c.devices) (bsp_calls hw (map_apic s.mem) val pmc))
          ++ outputs (sent (ports s.mem 0 c.devices) ++ cli ∷ s.trace)
    pub order :
        others trace ≡ reverse (bsp_order places status) ++ (read_msr 0x1b ∷ cli ∷ others s.trace)

  pub start_kernel-Boots :
      (fuel : ℕ) (constructors : List (Console → Cmd Console)) (k : Kernel) (c : Console)
      (before s : Machine) (search : Console → Mem)
      → Answers hw fuel
      → IsBsp hw
      → static_init constructors k.console before ≡ ok c s
      → IsFree c
      → c.acquire < 2 ^ 32
      → Searches fuel places (ports s.mem 0 c.devices) (map_apic s.mem) search
      → Boots k c s search (start_kernel hw fuel vsnprintf places constructors k before)
  unfolding start_kernel outputs others
  start_kernel-Boots fuel constructors k c before s search answers is_first constructed free word
        se =
      rw
        (
          constructed,
          init-ports c.devices (record s { trace = cli ∷ s.trace }),
          is_first asked,
          ran.returns,
        )
        (record {
          status = run.2;
          val = run.3;
          pmc = run.4;
          at_search = run.0;
          found_devices = run.1;
          console = ran.value.console;
          trace = ran.trace;
          returns = ap (λ v. ok v end) (kernel_is ran.value (u32 (k.core_id + 1)) ran.holds.1);
          ready = ran.holds.0;
          prints = ran.sends;
          order =
              ran.issues
              ∙ ap (λ t. reverse (bsp_order places run.2) ++ (read_msr 0x1b ∷ t))
                  (others-sent devices (cli ∷ s.trace));
        })
    where
      devices : ComDevices
      devices = ports s.mem 0 c.devices

      asked : Machine
      asked = record { mem = map_apic s.mem; trace = sent devices ++ cli ∷ s.trace }

      here : Kernel
      here = record k { console = record c { devices = devices }; core_id = u32 (k.core_id + 1) }

      asked_which : Machine
      asked_which = record asked { trace = read_msr 0x1b ∷ asked.trace }

      run :
          (at_search : Console) × (at_search.devices ≡ devices)
          × (status val pmc : ℕ) × Does
              (said vsnprintf devices (bsp_calls hw (map_apic s.mem) val pmc))
              (bsp_order places status)
              (unoptimized_function2 places.buf buf_size (search at_search))
              (Sets hw fuel answers vsnprintf places devices here)
              asked_which
              (Init.bsp hw fuel vsnprintf places here asked_which)
      run =
          bsp-Does hw fuel answers vsnprintf places devices here asked_which search
            (record { free = free; word = word; same = refl }) se

      ran :
          Does
            (said vsnprintf devices (bsp_calls hw (map_apic s.mem) run.3 run.4))
            (bsp_order places run.2)
            (unoptimized_function2 places.buf buf_size (search run.0))
            (Sets hw fuel answers vsnprintf places devices here)
            asked_which
            (Init.bsp hw fuel vsnprintf places here asked_which)
      ran = run.5

      end : Machine
      end = record {
        mem = store (unoptimized_function2 places.buf buf_size (search run.0)) stack_wait 1;
        trace = hlt ∷ cli ∷ ran.trace;
      }
