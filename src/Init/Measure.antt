-- ===== src/Init/Measure.antt =====
-- The messages and the counted run of bootloader/delice_pxe/src/init.cc on the bootstrap processor.
use deliceos.Base.{
  ℕ, zero, suc, ◌+◌, ◌*◌, refl, List, [], ◌∷◌, ◌++◌, bit_and, bit_or, u32, ◌<<<◌, ◌>>>◌,
}
use mathlib.Core.List.{append-nil}
use deliceos.Machine.{
  Event, Hardware, Machine, wbinvd, mfence, lfence, read_msr, write_msr, read_pmc, ◌>>=◌,
}
use deliceos.Serial.{ComDevices}
use deliceos.Serial.Write.{Answers, outputs, others}
use deliceos.Cpu.{wrmsr, rdmsr}
use deliceos.Console.{Console, Call, Formatter}
use deliceos.Console.Prints.{to_console}
use deliceos.Perf
use deliceos.Perf.{
  disable_perf_globalctrl, reset, clear, set_perfselect, generate_perf, bits, set_perf_globalctrl,
  unoptimized_function2, get_perf, enable_pmi_nmi,
}
use deliceos.Init.{Places, e20_addr, e20_call, buf_size, say, e20_entries, measure}
use deliceos.Init.Effects.{Does, Does-bind, Does-pure, Does-after, Ready, printf-Does}
use deliceos.Init.Script.{said, e20_calls, counted, val_call, pmc_call}

module _ (hw : Hardware) (fuel : ℕ) (answers : Answers hw fuel) (vsnprintf : Formatter)
    (places : Places) (devices : ComDevices) where
  abbrev pub saying : Call → List (ℕ × ℕ)
  saying call = to_console devices (vsnprintf call).0

  pub say-Does :
      (call : Call) (c : Console) (s : Machine)
      → Ready devices c
      → Does (saying call) [] s.mem (Ready devices) s (say hw fuel vsnprintf places call c s)
  say-Does call c s ready =
      let d = printf-Does hw fuel vsnprintf devices c call s answers ready in
      record {
        value = d.value.1;
        trace = d.trace;
        returns = rw d.returns refl;
        holds = d.holds;
        sends = d.sends;
        issues = d.issues;
      }

  pub e20_entries-Does :
      (left ii : ℕ) (c : Console) (s : Machine)
      → Ready devices c
      → Does
          (said vsnprintf devices (e20_calls left ii s.mem))
          []
          s.mem
          (Ready devices)
          s
          (e20_entries hw fuel vsnprintf places left ii c s)
  unfolding e20_entries e20_calls said
  e20_entries-Does zero ii c s ready = Does-pure c s ready
  e20_entries-Does (suc left) ii c s ready =
      let d = say-Does (e20_call s.mem (e20_addr + 24 * ii)) c s ready in
      Does-bind (λ s'. say hw fuel vsnprintf places (e20_call s'.mem (e20_addr + 24 * ii)) c s')
        (λ c1. e20_entries hw fuel vsnprintf places left (ii + 1) c1) d
        (e20_entries-Does left (ii + 1) d.value (record { mem = s.mem; trace = d.trace }) d.holds)

  -- The two messages after the counted run.
  report-Does :
      (val : ℕ) (c : Console) (s : Machine)
      → Ready devices c
      → (pmc : ℕ) × Does
          (said vsnprintf devices (val_call val ∷ pmc_call pmc ∷ []))
          (read_pmc 0 ∷ mfence ∷ lfence ∷ [])
          s.mem
          (Ready devices)
          s
          ((say hw fuel vsnprintf places (val_call val) c >>= λ c1.
              Perf.read hw 0 >>= λ pmc. say hw fuel vsnprintf places (pmc_call pmc) c1)
            s)
  unfolding said Perf.read outputs others
  report-Does val c s ready =
      let d = say-Does (val_call val) c s ready in
      let pmc : ℕ = bit_or (u32 (hw.on_rdpmc d.trace 0).0 <<< 32) (u32 (hw.on_rdpmc d.trace 0).1) in
      let t : Machine = record { mem = s.mem; trace = d.trace } in
      let t' : Machine = record { mem = s.mem; trace = lfence ∷ mfence ∷ read_pmc 0 ∷ d.trace } in
      (
        pmc,
        Does-bind (say hw fuel vsnprintf places (val_call val) c)
            (λ c1. Perf.read hw 0 >>= λ pmc. say hw fuel vsnprintf places (pmc_call pmc) c1) d
            (rw append-nil (
              Does-after t t' (read_pmc 0 ∷ mfence ∷ lfence ∷ []) refl refl
                (say-Does (pmc_call pmc) d.value t' d.holds))),
      )

  pub measure-Does :
      (c : Console) (s : Machine)
      → Ready devices c
      → (status val pmc : ℕ) × Does
          (said vsnprintf devices (val_call val ∷ pmc_call pmc ∷ []))
          (counted status ++ (read_pmc 0 ∷ mfence ∷ lfence ∷ []))
          (unoptimized_function2 places.buf buf_size s.mem)
          (Ready devices)
          s
          (measure hw fuel vsnprintf places c s)
  unfolding measure disable_perf_globalctrl reset clear set_perfselect set_perf_globalctrl wrmsr
      rdmsr generate_perf bits outputs others
  measure-Does c s ready =
      let (high, low) = hw.on_rdmsr (write_msr 0x38f 0 0 ∷ s.trace) 0x38e in
      let status : ℕ = bit_or (u32 high <<< 32) (u32 low) in
      let before : List Event =
        write_msr 0x38f 1 2
        ∷ write_msr 0x186 0x1530879 0
        ∷ wbinvd
        ∷ write_msr 0x30a 0 0
        ∷ write_msr 0xc1 0 0
        ∷ write_msr 0x186 0 0
        ∷ write_msr 0x390 (bit_and status 0xffffffff) (u32 (status >>> 32))
        ∷ read_msr 0x38e
        ∷ write_msr 0x38f 0 0
        ∷ s.trace in
      let val : ℕ =
        bit_or (u32 (hw.on_rdmsr before 0x1d9).0 <<< 32) (u32 (hw.on_rdmsr before 0x1d9).1) in
      let t : Machine = record {
        mem = unoptimized_function2 places.buf buf_size s.mem;
        trace = write_msr 0x38f 0 0 ∷ read_msr 0x1d9 ∷ before;
      } in
      let (pmc, d) = report-Does val c t ready in
      (status, val, pmc, Does-after s t (counted status) refl refl d)
