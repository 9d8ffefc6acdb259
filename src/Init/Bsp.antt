-- ===== src/Init/Bsp.antt =====
-- What `start_kernel` of bootloader/delice_pxe/src/init.cc does on the bootstrap processor, in which
-- order.
use deliceos.Base.{ℕ, ◌≡◌, ap, ◌∙◌, sym, subst, [], ◌∷◌, ◌++◌, Bool-cases, inl, inr, if◌then◌else◌}
use mathlib.Core.List.{append-nil}
use deliceos.Memory.{Mem}
use deliceos.Machine.{Hardware, Machine, Cmd, pure, ◌>>=◌}
use deliceos.Serial.{ComDevices}
use deliceos.Serial.Write.{Answers}
use deliceos.Console.{Console, Formatter}
use deliceos.Apic.{check_apic}
use deliceos.Perf.{unoptimized_function2}
use deliceos.Init.{
  Kernel, Places, map_apic, e20_addr, e20_call, entry_count, text, apic_init, change, stack_wait,
  buf_size, static_init, start_kernel, say, e20_entries, measure,
}
use deliceos.Init
use deliceos.Init.Objects.{Searches}
use deliceos.Init.Effects.{Does, Does-bind, Does-pure, Ready}
use deliceos.Init.Script.{
  said, said-append, e20_calls, supported_calls, ending, bsp_calls, bsp_order,
}
use deliceos.Init.Measure.{saying, say-Does, e20_entries-Does}
use deliceos.Init.Tail.{tail_of_bsp, Sets, tail-Does}

module _ (hw : Hardware) (fuel : ℕ) (answers : Answers hw fuel) (vsnprintf : Formatter)
    (places : Places) (devices : ComDevices) where
  supported-Does :
      (c : Console) (s : Machine)
      → Ready devices c
      → Does (said vsnprintf devices (supported_calls hw)) [] s.mem (Ready devices) s (
          (if check_apic hw
              then say hw fuel vsnprintf places (text "APIC is supported\n") c
              else pure c)
            s)
  unfolding said supported_calls
  supported-Does c s ready = elim (Bool-cases (check_apic hw)) [
    | inl y ↦
        rw (y, append-nil)
          (say-Does hw fuel answers vsnprintf places devices (text "APIC is supported\n") c s ready)
    | inr n ↦ rw n (Does-pure c s ready)
  ]

  pub bsp-Does :
      (k : Kernel) (s : Machine) (search : Console → Mem)
      → Ready devices k.console
      → Searches fuel places devices s.mem search
      → (at_search : Console) × (at_search.devices ≡ devices)
        × (status val pmc : ℕ) × Does
            (said vsnprintf devices ((bsp_calls hw) s.mem val pmc))
            ((bsp_order places) status)
            (unoptimized_function2 places.buf buf_size (search at_search))
            (Sets hw fuel answers vsnprintf places devices k)
            s
            (Init.bsp hw fuel vsnprintf places k s)
  unfolding Init.bsp tail_of_bsp said bsp_calls
  bsp-Does k s search ready se =
      let d1 =
        e20_entries-Does hw fuel answers vsnprintf places devices (entry_count s.mem) 0 k.console s
          ready in
      let s1 : Machine = record { mem = s.mem; trace = d1.trace } in
      let d2 =
        say-Does hw fuel answers vsnprintf places devices (text "BSP processor ready\n") d1.value s1
          d1.holds in
      let s2 : Machine = record { mem = s.mem; trace = d2.trace } in
      let d3 = supported-Does d2.value s2 d2.holds in
      let s3 : Machine = record { mem = s.mem; trace = d3.trace } in
      let (status, val, pmc, d4) =
        tail-Does hw fuel answers vsnprintf places devices k d3.value s3 search d3.holds se in
      (
        d3.value,
        d3.holds.same,
        status,
        val,
        pmc,
        subst
            (λ new.
              Does new ((bsp_order places) status)
                (unoptimized_function2 places.buf buf_size (search d3.value))
                (Sets hw fuel answers vsnprintf places devices k) s
                (Init.bsp hw fuel vsnprintf places k s))
            (sym (
              said-append vsnprintf devices (e20_calls (entry_count s.mem) 0 s.mem)
                (text "BSP processor ready\n" ∷ ((supported_calls hw) ++ (ending hw) val pmc))
              ∙ ap
                  (λ t.
                    said vsnprintf devices (e20_calls (entry_count s.mem) 0 s.mem)
                    ++ (saying hw fuel answers vsnprintf places devices
                          (text "BSP processor ready\n")
                        ++ t))
                  (said-append vsnprintf devices (supported_calls hw) ((ending hw) val pmc))))
            (Does-bind (λ t. e20_entries hw fuel vsnprintf places (entry_count t.mem) 0 k.console t)
              (λ c1. say hw fuel vsnprintf places (text "BSP processor ready\n") c1 >>= from_ready)
              d1
              (Does-bind (say hw fuel vsnprintf places (text "BSP processor ready\n") d1.value)
                from_ready d2
                (Does-bind (supported d2.value)
                  (tail_of_bsp hw fuel answers vsnprintf places devices k) d3 d4))),
      )
    where
      supported : Console → Cmd Console
      supported c =
          if check_apic hw
          then say hw fuel vsnprintf places (text "APIC is supported\n") c
          else pure c

      from_ready : Console → Cmd Kernel
      from_ready c2 = supported c2 >>= tail_of_bsp hw fuel answers vsnprintf places devices k
