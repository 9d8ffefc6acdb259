-- ===== src/Init/Script.antt =====
-- What `start_kernel` of bootloader/delice_pxe/src/init.cc says and issues on the bootstrap processor,
-- as lists: the statements are made with these.
use deliceos.Base.{
  ℕ, zero, suc, ◌+◌, ◌*◌, ◌≡◌, refl, List, [], ◌∷◌, ◌++◌, if◌then◌else◌, bit_and, u8, u32, ◌>>>◌,
}
use mathlib.Core.List.{append_assoc}
use deliceos.Memory.{Mem}
use deliceos.Machine.{
  Event, Hardware, sti, wbinvd, mfence, lfence, read_msr, write_msr, read_pmc, mmio_store,
  load_idtr,
}
use deliceos.Serial.{ComDevices}
use deliceos.Cpu.{apic_addr, cpuid}
use deliceos.Console.{Call, Formatter}
use deliceos.Console.Prints.{to_console}
use deliceos.Apic.{check_apic}
use deliceos.Init.{Places, e20_addr, e20_call, entry_count, text}

module _ (vsnprintf : Formatter) (devices : ComDevices) where
  -- The port writes of one call of `printf` after another.
  unfoldable pub said : List Call → List (ℕ × ℕ)
  said [] = []
  said (call ∷ calls) = to_console devices (vsnprintf call).0 ++ said calls

  pub said-append : (xs ys : List Call) → said (xs ++ ys) ≡ said xs ++ said ys
  unfolding said
  said-append [] ys = refl
  said-append (x ∷ xs) ys = rw (said-append xs ys, append_assoc) refl

-- The messages on the entries of the memory map.
unfoldable pub e20_calls : ℕ → ℕ → Mem → List Call
e20_calls zero ii m = []
e20_calls (suc left) ii m = e20_call m (e20_addr + 24 * ii) ∷ e20_calls left (ii + 1) m

-- The instructions of the counted run, when the status register reads `status`.
abbrev pub counted : ℕ → List Event
counted status =
    write_msr 0x38f 0 0
    ∷ read_msr 0x38e
    ∷ write_msr 0x390 (bit_and status 0xffffffff) (u32 (status >>> 32))
    ∷ write_msr 0x186 0 0
    ∷ write_msr 0xc1 0 0
    ∷ write_msr 0x30a 0 0
    ∷ wbinvd
    ∷ write_msr 0x186 0x1530879 0
    ∷ write_msr 0x38f 1 2
    ∷ read_msr 0x1d9
    ∷ write_msr 0x38f 0 0
    ∷ []

abbrev pub val_call : ℕ → Call
val_call val = record { format = "VAL %d\n"; args = val ∷ [] }

abbrev pub pmc_call : ℕ → Call
pmc_call pmc = record { format = "PMC counter val %d\n"; args = pmc ∷ [] }

module _ (hw : Hardware) where
  unfoldable pub supported_calls : List Call
  supported_calls = if check_apic hw then text "APIC is supported\n" ∷ [] else []

  unfoldable pub perf_call : Call
  perf_call =
      let eax = (cpuid hw 0x0a 0).eax in
      record {
        format = "Version id %d | Number of Perf ctrs %d | Bit width of counter %d\n";
        args = u8 (eax >>> 0) ∷ u8 (eax >>> 8) ∷ u8 (eax >>> 16) ∷ [];
      }

  abbrev pub ending : ℕ → ℕ → List Call
  ending val pmc = perf_call ∷ val_call val ∷ pmc_call pmc ∷ []

  -- All that is printed, in order.
  unfoldable pub bsp_calls : Mem → ℕ → ℕ → List Call
  bsp_calls m val pmc =
      e20_calls (entry_count m) 0 m
      ++ (text "BSP processor ready\n" ∷ (supported_calls ++ ending val pmc))

module _ (places : Places) where
  -- From the interrupt table to the local APIC.
  abbrev pub set_up : List Event
  set_up =
      load_idtr 4079 places.interrupt_desc_table
      ∷ sti
      ∷ write_msr 0x1b 0xfee00800 0
      ∷ mmio_store (apic_addr 0xf0) 0x1ff
      ∷ mmio_store (apic_addr 0x80) 0
      ∷ mmio_store (apic_addr 0xb0) 0
      ∷ []

  -- All that is issued to other devices than the serial ports, in order.
  abbrev pub bsp_order : ℕ → List Event
  bsp_order status =
      set_up
      ++ (mmio_store (apic_addr 0x340) 0x400 ∷ counted status
          ++ (read_pmc 0 ∷ mfence ∷ lfence ∷ []))
