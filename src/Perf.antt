-- ===== src/Perf.antt =====
-- Performance counters: bootloader/delice_pxe/src/perfctr.cc and includes/perfctr.h.
pub mod Select
pub mod Search
pub mod Zero
pub mod Idle
mod Tests
use deliceos.Base.{
  ℕ, zero, suc, ◌+◌, ◌-◌, ◌*◌, ◌/◌, ◌%◌, ◌^◌, ◌∷◌, List, [], ◌==◌, if◌then◌else◌, Bool, bit_or, u8,
  u32, ◌<<<◌, ◌>>>◌, ℤ, pos, negsuc, ◌+ℤ◌, ◌-ℤ◌, half, ltb_ℤ, leb_ℤ, eq_ℤ,
}
use deliceos.Memory.{Mem}
use deliceos.Memory.Cells.{write}
use deliceos.Machine.{
  Hardware, Machine, Cmd, ok, pure, ◌>>=◌, ◌>>◌, issue, read_pmc, mfence, lfence,
}
use deliceos.Cpu.{CpuidResult, cpuid, wrmsr, rdmsr, apic_write}
use deliceos.Console.{Console, Call, Formatter, printf}

-- The bit-fields of `perf_select`, the lowest first; `reserved` is the field `_`.
pub record PerfSelect : Type 0 where
  pub event : ℕ
  pub umask : ℕ
  pub usr : ℕ
  pub os : ℕ
  pub edge : ℕ
  pub pinctrl : ℕ
  pub interrupt : ℕ
  pub reserved : ℕ
  pub enable : ℕ
  pub inverter : ℕ
  pub counter_mask : ℕ

-- The member `bits` of the union.
unfoldable pub bits : PerfSelect → ℕ
bits f =
    f.event % 2 ^ 8
    + f.umask % 2 ^ 8 * 2 ^ 8
    + f.usr % 2 * 2 ^ 16
    + f.os % 2 * 2 ^ 17
    + f.edge % 2 * 2 ^ 18
    + f.pinctrl % 2 * 2 ^ 19
    + f.interrupt % 2 * 2 ^ 20
    + f.reserved % 2 * 2 ^ 21
    + f.enable % 2 * 2 ^ 22
    + f.inverter % 2 * 2 ^ 23
    + f.counter_mask % 2 ^ 8 * 2 ^ 24

unfoldable pub generate_perf : ℕ
generate_perf = bits (record {
  event = 0x79;
  umask = 0x08;
  usr = 1;
  os = 1;
  edge = 0;
  pinctrl = 0;
  interrupt = 1;
  reserved = 0;
  enable = 1;
  inverter = 0;
  counter_mask = 1;
})

-- `binarySearch` and `search`. An array gives the number at every index; `fuel` bounds the depth of
-- the recursion. Within the indices of an array no operation on `int` overflows.
abbrev pub not_found : ℤ
not_found = negsuc 0

pub binary_search : ℕ → (ℤ → ℤ) → ℤ → ℤ → ℤ → ℤ
binary_search zero arr l r x = not_found
binary_search (suc fuel) arr l r x =
    let mid = l +ℤ half (r -ℤ l) in
    let lower = binary_search fuel arr l (mid -ℤ pos 1) x in
    let upper = binary_search fuel arr (mid +ℤ pos 1) r x in
    if leb_ℤ l r
    then if eq_ℤ (arr mid) x then mid else if ltb_ℤ x (arr mid) then lower else upper
    else not_found

pub search_from : ℕ → ℕ → (ℤ → ℤ) → ℤ → ℤ
search_from zero i arr x = not_found
search_from (suc left) i arr x =
    let rest = search_from left (i + 1) arr x in if eq_ℤ (arr (pos i)) x then pos i else rest

-- A negative `n` is no round at all.
pub search : (ℤ → ℤ) → ℤ → ℤ → ℤ
search arr (pos n) x = search_from n 0 arr x
search arr (negsuc n) x = not_found

-- The loop of `unoptimized_function2`: 8 bytes of zeros, and then `decl %ecx; jnz`, so a count of 0
-- goes round 2 ^ 32 times.
pub store_zeros : ℕ → ℕ → Mem → Mem
store_zeros zero dst m = m
store_zeros (suc left) dst m = store_zeros left (dst + 8) (write 8 m dst 0)

abbrev pub rounds : ℕ → ℕ
rounds ecx = if ecx == 0 then 2 ^ 32 else ecx

pub unoptimized_function2 : ℕ → ℕ → Mem → Mem
unoptimized_function2 addr size m = store_zeros (rounds (u32 (size / 8))) addr m

-- The registers.
unfoldable pub enable_pmi_nmi : Cmd (Unit {0})
enable_pmi_nmi = apic_write 0x340 (0b100 <<< 8)

unfoldable pub set_event_counts : ℕ → Cmd (Unit {0})
set_event_counts val = wrmsr 0x309 val

unfoldable pub set_fixed_ctrl : Cmd (Unit {0})
set_fixed_ctrl = wrmsr 0x38d 0xb0

unfoldable pub set_perf_globalctrl : Cmd (Unit {0})
set_perf_globalctrl = wrmsr 0x38f 0x200000001

unfoldable pub disable_perf_globalctrl : Cmd (Unit {0})
disable_perf_globalctrl = wrmsr 0x38f 0

unfoldable pub set_perfselect : ℕ → Cmd (Unit {0})
set_perfselect val = wrmsr 0x186 val

unfoldable pub disable_noclear : Cmd (Unit {0})
disable_noclear = wrmsr 0x186 0x0

unfoldable pub clear : Cmd (Unit {0})
clear = do wrmsr 0x186 0x0; wrmsr 0xc1 0x0; wrmsr 0x30a 0x0

module _ (hw : Hardware) where
  unfoldable pub read : ℕ → Cmd ℕ
  read id s =
      let (high, low) = hw.on_rdpmc s.trace id in
      ok (bit_or (u32 high <<< 32) (u32 low))
        (record s { trace = lfence ∷ mfence ∷ read_pmc (u32 id) ∷ s.trace })

  unfoldable pub freeze_on_overflow : Cmd (Unit {0})
  freeze_on_overflow = do v ← rdmsr hw 0x1d9; wrmsr 0x1d9 (bit_or v (1 <<< 12))

  unfoldable pub reset : Cmd (Unit {0})
  reset = do v ← rdmsr hw 0x38e; wrmsr 0x390 v

  -- The three bytes of eax that `get_perf` reports.
  unfoldable pub get_perf : ℕ → Formatter → Console → Cmd (ℕ × Console)
  get_perf fuel vsnprintf c =
      let eax = (cpuid hw 0x0a 0).eax in
      let v_id = u8 (eax >>> 0) in
      let num_perf = u8 (eax >>> 8) in
      let perf_bit_width = u8 (eax >>> 16) in
      printf hw fuel vsnprintf c (record {
        format = "Version id %d | Number of Perf ctrs %d | Bit width of counter %d\n";
        args = v_id ∷ num_perf ∷ perf_bit_width ∷ [];
      })
