-- ===== src/Cpu.antt =====
-- The instruction wrappers of bootloader/delice_pxe/includes/misc/cpu.h: registers of the local
-- APIC, model-specific registers, `cpuid`, and the plain instructions.
pub mod Registers
pub mod Clock
pub mod Frame
mod Tests
use deliceos.Base.{
  ℕ, zero, suc, ◌+◌, ◌*◌, ◌/◌, ◌%◌, ◌^◌, ◌∷◌, Bool, not, ◌==◌, bit_and, bit_or, u32, ◌<<<◌, ◌>>>◌,
}
use deliceos.Machine.{
  Hardware, Machine, Cmd, ok, out_of_fuel, pure, ◌>>=◌, issue, mmio_store, mmio_load, write_msr,
  read_msr, cli, sti, hlt, mfence, lfence,
}

-- The virtual address that init.cc maps to the APIC.
abbrev pub apic_base : ℕ
apic_base = 0x13370000000

-- `apic_base + (reg / 4)` for a pointer to 32-bit words.
abbrev pub apic_addr : ℕ → ℕ
apic_addr reg = apic_base + 4 * (reg / 4)

abbrev pub apic_write : ℕ → ℕ → Cmd (Unit {0})
apic_write reg v = issue (mmio_store (apic_addr reg) (u32 v))

abbrev pub eoi : Cmd (Unit {0})
eoi = apic_write 0xb0 0x0

-- `value & 0xFFFFFFFF` in eax and `value >> 32` in edx.
unfoldable pub wrmsr : ℕ → ℕ → Cmd (Unit {0})
wrmsr msr value = issue (write_msr msr (bit_and value 0xffffffff) (u32 (value >>> 32)))

abbrev pub disable_interrupt : Cmd (Unit {0})
disable_interrupt = issue cli

abbrev pub enable_interrupt : Cmd (Unit {0})
enable_interrupt = issue sti

abbrev pub halt : Cmd (Unit {0})
halt = issue hlt

-- The answers of the four registers in the order of the `std::tuple`: eax, ebx, edx, ecx.
pub record CpuidResult : Type 0 where
  pub eax : ℕ
  pub ebx : ℕ
  pub edx : ℕ
  pub ecx : ℕ

module _ (hw : Hardware) where
  abbrev pub apic_read : ℕ → Cmd ℕ
  apic_read reg s =
      ok (u32 (hw.on_load s.trace (apic_addr reg)))
        (record s { trace = mmio_load (apic_addr reg) ∷ s.trace })

  unfoldable pub get_apic_id : Cmd ℕ
  get_apic_id = do v ← apic_read 0x20; pure (bit_and (v >>> 24) 0xff)

  unfoldable pub rdmsr : ℕ → Cmd ℕ
  rdmsr msr s =
      let (high, low) = hw.on_rdmsr s.trace msr in
      ok (bit_or (u32 high <<< 32) (u32 low)) (record s { trace = read_msr msr ∷ s.trace })

  -- Bit 8 of IA32_APIC_BASE: the bootstrap processor.
  unfoldable pub is_bsp : Cmd Bool
  is_bsp = do v ← rdmsr 0x1b; pure (not (bit_and v (1 <<< 8) == 0))

  abbrev pub cpuid : ℕ → ℕ → CpuidResult
  cpuid eax_in ecx_in =
      let (a, b, c, d) = hw.on_cpuid eax_in ecx_in in
      record { eax = u32 a; ebx = u32 b; edx = u32 d; ecx = u32 c }

-- `recursion` calls itself with 0 and does nothing else: no fuel is enough for it.
pub recursion : (fuel incr : ℕ) → Cmd (Unit {0})
recursion zero incr s = out_of_fuel
recursion (suc fuel) incr s = recursion fuel 0 s
