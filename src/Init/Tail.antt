-- ===== src/Init/Tail.antt =====
-- What `start_kernel` of bootloader/delice_pxe/src/init.cc does on the bootstrap processor from the
-- interrupt table on.
use deliceos.Base.{ℕ, ◌≡◌, refl, List, [], ◌∷◌, ◌++◌}
use deliceos.Memory.{Mem}
use deliceos.Machine.{
  Event, Hardware, Machine, Cmd, sti, mfence, lfence, write_msr, read_pmc, mmio_store, load_idtr,
  pure, ◌>>=◌, ◌>>◌,
}
use deliceos.Serial.{ComDevices}
use deliceos.Serial.Write.{Answers, outputs, others}
use deliceos.Cpu.{apic_addr, wrmsr}
use deliceos.Console.{Console, Formatter}
use deliceos.Interrupt.Table.{load_idt}
use deliceos.Init.Objects.{Searches, in_memory_runs}
use deliceos.Apic.{enable_lapic}
use deliceos.Perf.{unoptimized_function2, get_perf, enable_pmi_nmi}
use deliceos.Init.{
  Kernel, Places, map_apic, e20_addr, e20_call, entry_count, text, apic_init, in_memory, change,
  stack_wait, buf_size, static_init, start_kernel, say, e20_entries, measure,
}
use deliceos.Init
use deliceos.Init.Effects.{Does, Does-bind, Does-after, Ready, printf-Does}
use deliceos.Init.Script.{said, counted, val_call, pmc_call, perf_call, set_up}
use deliceos.Init.Measure.{measure-Does}

module _ (hw : Hardware) (fuel : ℕ) (answers : Answers hw fuel) (vsnprintf : Formatter)
    (places : Places) (devices : ComDevices) where
  -- `bsp` from the interrupt table on.
  unfoldable pub tail_of_bsp : Kernel → Console → Cmd Kernel
  tail_of_bsp k c3 = do
    c4 ← in_memory places c3 (do
      load_idt places.ex_handlers places.default_trap_handler places.interrupt_desc_table places.idt
      Init.enable_interrupt
      apic_init places.cpu_nodes fuel)
    enable_lapic
    (ret, c5) ← get_perf hw fuel vsnprintf c4
    enable_pmi_nmi
    c6 ← measure hw fuel vsnprintf places c5
    pure (record k { console = c6 })

  -- From the performance counters on.
  perf_of_bsp : Kernel → Console → Cmd Kernel
  perf_of_bsp k c3 = do
    (ret, c4) ← get_perf hw fuel vsnprintf c3
    enable_pmi_nmi
    c5 ← measure hw fuel vsnprintf places c4
    pure (record k { console = c5 })

  lapic_on : Mem → List Event → Machine
  lapic_on m' events = record {
    mem = m';
    trace =
        mmio_store (apic_addr 0xb0) 0
        ∷ mmio_store (apic_addr 0x80) 0
        ∷ mmio_store (apic_addr 0xf0) 0x1ff
        ∷ write_msr 0x1b 0xfee00800 0
        ∷ sti
        ∷ load_idtr 4079 places.interrupt_desc_table
        ∷ events;
  }

  tail_runs :
      (k : Kernel) (c : Console) (s : Machine) (search : Console → Mem)
      → Ready devices c
      → Searches fuel places devices s.mem search
      → tail_of_bsp k c s ≡ perf_of_bsp k c (lapic_on (search c) s.trace)
  unfolding tail_of_bsp perf_of_bsp lapic_on enable_lapic wrmsr
  tail_runs k c s search ready se =
      rw (in_memory_runs fuel places devices s.mem search se c ready s.trace) refl

  abbrev pub Sets : Kernel → Kernel → Type 0
  Sets k k' = Ready devices k'.console × (k'.core_id ≡ k.core_id)

  measured-Does :
      (k : Kernel) (c : Console) (s : Machine)
      → Ready devices c
      → (status val pmc : ℕ) × Does
          (said vsnprintf devices (val_call val ∷ pmc_call pmc ∷ []))
          (counted status ++ (read_pmc 0 ∷ mfence ∷ lfence ∷ []))
          (unoptimized_function2 places.buf buf_size s.mem)
          (Sets k)
          s
          ((measure hw fuel vsnprintf places c >>= λ c5. pure (record k { console = c5 })) s)
  measured-Does k c s ready =
      let (status, val, pmc, d) = measure-Does hw fuel answers vsnprintf places devices c s ready in
      (
        status,
        val,
        pmc,
        record {
          value = record k { console = d.value };
          trace = d.trace;
          returns = rw d.returns refl;
          holds = (d.holds, refl);
          sends = d.sends;
          issues = d.issues;
        },
      )

  perf-Does :
      (k : Kernel) (c : Console) (s : Machine)
      → Ready devices c
      → (status val pmc : ℕ) × Does
          (said vsnprintf devices ((perf_call hw) ∷ val_call val ∷ pmc_call pmc ∷ []))
          (mmio_store (apic_addr 0x340) 0x400 ∷ counted status
            ++ (read_pmc 0 ∷ mfence ∷ lfence ∷ []))
          (unoptimized_function2 places.buf buf_size s.mem)
          (Sets k)
          s
          (perf_of_bsp k c s)
  unfolding perf_of_bsp said perf_call get_perf enable_pmi_nmi outputs others
  perf-Does k c s ready =
      let p = printf-Does hw fuel vsnprintf devices c (perf_call hw) s answers ready in
      let told : Machine = record { mem = s.mem; trace = p.trace } in
      let pmi : Machine = record {
        mem = s.mem;
        trace = mmio_store (apic_addr 0x340) 0x400 ∷ p.trace;
      } in
      let (status, val, pmc, d) = measured-Does k p.value.1 pmi p.holds in
      (
        status,
        val,
        pmc,
        Does-bind (get_perf hw fuel vsnprintf c)
            (λ p.
              enable_pmi_nmi
              >> (measure hw fuel vsnprintf places p.1 >>= λ c5. pure (record k { console = c5 })))
            p (Does-after told pmi (mmio_store (apic_addr 0x340) 0x400 ∷ []) refl refl d),
      )

  pub tail-Does :
      (k : Kernel) (c : Console) (s : Machine) (search : Console → Mem)
      → Ready devices c
      → Searches fuel places devices s.mem search
      → (status val pmc : ℕ) × Does
          (said vsnprintf devices ((perf_call hw) ∷ val_call val ∷ pmc_call pmc ∷ []))
          ((set_up places)
            ++ (mmio_store (apic_addr 0x340) 0x400 ∷ counted status
                ++ (read_pmc 0 ∷ mfence ∷ lfence ∷ [])))
          (unoptimized_function2 places.buf buf_size (search c))
          (Sets k)
          s
          (tail_of_bsp k c s)
  unfolding lapic_on outputs others
  tail-Does k c s search ready se =
      let (status, val, pmc, d) = perf-Does k c (lapic_on (search c) s.trace) ready in
      (
        status,
        val,
        pmc,
        rw (tail_runs k c s search ready se)
            (Does-after s (lapic_on (search c) s.trace) (set_up places) refl refl d),
      )
