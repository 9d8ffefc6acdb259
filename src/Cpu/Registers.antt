-- ===== src/Cpu/Registers.antt =====
-- What the wrappers of bootloader/delice_pxe/includes/misc/cpu.h make of the register halves.
use deliceos.Base.{
  ℕ, ◌+◌, ◌*◌, ◌/◌, ◌%◌, ◌^◌, ◌<◌, ◌≡◌, refl, ap, ◌∙◌, ◌∷◌, List, not, ◌==◌, bit_and, bit_or,
  bit_at, bit_and_mask, bit_or-add, bit_or-zero, bit_or_comm, bit_and_single, u32, ◌<<<◌, arith,
}
use deliceos.Machine.{Event, Hardware, Machine, ok, ◌>>◌, write_msr, read_msr}
use deliceos.Cpu.{wrmsr, rdmsr, is_bsp}

-- The halves come together to the value: `(high << 32) | low`.
pub join_halves : (high low : ℕ) → low < 2 ^ 32 → bit_or (high * 2 ^ 32) low ≡ high * 2 ^ 32 + low
join_halves high low h =
    bit_or_comm (high * 2 ^ 32) low
    ∙ ap (bit_or low) (omega arith)
    ∙ bit_or-add 32 high low 0 h (omega arith)
    ∙ ap (λ t. high * 2 ^ 32 + t) (bit_or-zero 32 low h)

-- The model-specific registers keep what is written to them: a read that directly follows a write
-- of the same register gives both halves back.
abbrev pub KeepsMsr : Hardware → Type 0
KeepsMsr hw =
    (h : List Event) (msr low high : ℕ) → hw.on_rdmsr (write_msr msr low high ∷ h) msr ≡ (high, low)

-- On a machine that keeps its registers, a 64-bit value written by `wrmsr` is what `rdmsr` reads
-- back: the value is split into edx and eax and joined again without loss.
pub rdmsr-wrmsr :
    (hw : Hardware) (msr value : ℕ) (s : Machine)
    → KeepsMsr hw
    → value < 2 ^ 64
    → (wrmsr msr value >> rdmsr hw msr) s
      ≡ ok value (record s {
        trace = read_msr msr ∷ write_msr msr (value % 2 ^ 32) (value / 2 ^ 32) ∷ s.trace;
      })
unfolding wrmsr rdmsr
rdmsr-wrmsr hw msr value s keeps small =
    rw (bit_and_mask 32 value, high, keeps s.trace msr (value % 2 ^ 32) (value / 2 ^ 32))
      (ap
        (λ v. ok v (record s {
          trace = read_msr msr ∷ write_msr msr (value % 2 ^ 32) (value / 2 ^ 32) ∷ s.trace;
        }))
        joined)
  where
    high : u32 (value / 2 ^ 32) ≡ value / 2 ^ 32
    high = omega arith

    joined : bit_or (u32 (value / 2 ^ 32) * 2 ^ 32) (u32 (value % 2 ^ 32)) ≡ value
    joined = join_halves _ (u32 (value % 2 ^ 32)) (omega arith) ∙ omega arith

one_bit : (v : ℕ) → not (bit_and v 256 == 0) ≡ (bit_at 8 v == 1)
one_bit v = ground (arith, bit_and_single 8 v)

-- `is_bsp` is bit 8 of the register IA32_APIC_BASE, and nothing else of it.
pub is_bsp_lem :
    (hw : Hardware) (s : Machine)
    → (v : ℕ) × (rdmsr hw 0x1b s ≡ ok v (record s { trace = read_msr 0x1b ∷ s.trace }))
      × (is_bsp hw s ≡ ok (bit_at 8 v == 1) (record s { trace = read_msr 0x1b ∷ s.trace }))
unfolding is_bsp rdmsr
is_bsp_lem hw s =
    let (high, low) = hw.on_rdmsr s.trace 0x1b in
    let v = bit_or (u32 high <<< 32) (u32 low) in
    let after : Machine = record s { trace = read_msr 0x1b ∷ s.trace } in
    (v, refl, ap (λ b. ok b after) (one_bit v))
