-- ===== src/Apic.antt =====
-- The search for the processors in the firmware's tables and the set-up of the local APIC:
-- bootloader/delice_pxe/src/apic.cc. Pointers are addresses, and `cpu_nodes` is memory like any
-- other, so a store to it is one to `cpu_nodes_base` and what follows.
pub mod Compare
pub mod Rsdp
pub mod Madt
pub mod Discover
pub mod Records
pub mod Tables
mod Tests
mod Firmware
use deliceos.Base.{
  eq_ℤ, pos_part, ℕ, zero, suc, ◌+◌, ◌-◌, ◌*◌, ◌/◌, ◌%◌, ◌^◌, List, [], ◌∷◌, Bool, true, false, not,
  ◌&&◌, ltb, ◌==◌, if◌then◌else◌, Option, none, some, bit_and, bit_or, u8, u16, u32, u64, ◌<<<◌, ℤ,
  pos, ◌-ℤ◌, signed32,
}
use deliceos.Memory.{Mem, store}
use deliceos.Memory.Cells.{read}
use deliceos.Machine.{Hardware, Cmd, pure, ◌>>=◌, ◌>>◌}
use deliceos.Cpu.{CpuidResult, cpuid, wrmsr, apic_read, apic_write}

abbrev pub madt_lapic : ℕ
madt_lapic = 0x00

abbrev pub apic_lvt_masked : ℕ
apic_lvt_masked = 0x10000

-- A plain `char` is signed.
abbrev pub char_of : ℕ → ℤ
char_of b = if ltb b 128 then pos b else pos b -ℤ pos 256

-- The second argument of `memcmp` is a constant, so it is a function of the index; the test of the
-- bytes comes before that of the size.
pub memcmp : ℕ → Mem → ℕ → (ℕ → ℕ) → ℕ → ℤ
memcmp zero m src dest i = pos 0
memcmp (suc left) m src dest i =
    let rest = memcmp left m src dest (i + 1) in
    if m (src + i) == dest i then rest else char_of (m (src + i)) -ℤ char_of (dest i)

-- The bytes of a string; behind its end there is its 0.
abbrev pub bytes_of : List ℕ → ℕ → ℕ
bytes_of [] k = 0
bytes_of (b ∷ bs) zero = b
bytes_of (b ∷ bs) (suc k) = bytes_of bs k

-- "RSD PTR "
abbrev pub rsd_ptr : ℕ → ℕ
rsd_ptr = bytes_of (0x52 ∷ 0x53 ∷ 0x44 ∷ 0x20 ∷ 0x50 ∷ 0x54 ∷ 0x52 ∷ 0x20 ∷ [])

-- "APIC"
abbrev pub apic_signature : ℕ → ℕ
apic_signature = bytes_of (0x41 ∷ 0x50 ∷ 0x49 ∷ 0x43 ∷ [])

pub scan : ℕ → Mem → ℕ → ℕ → Option ℕ
scan zero m ii high = none
scan (suc fuel) m ii high =
    let rest = scan fuel m (ii + 16) high in
    if ltb ii high then if eq_ℤ (memcmp 8 m ii rsd_ptr 0) (pos 0) then some ii else rest else none

-- Each round goes 16 bytes on, so `high - low` rounds are more than enough.
pub check_rsdt : Mem → ℕ → ℕ → Option ℕ
check_rsdt m low high = scan (high - low) m low high

-- The offsets of the packed structures `rsdp`, `acpisdt` and `acpi_madt`.
abbrev pub rsdt_addr : Mem → ℕ → ℕ
rsdt_addr m rsdp = read 4 m (rsdp + 16)

abbrev pub table_length : Mem → ℕ → ℕ
table_length m table = read 4 m (table + 4)

abbrev pub payload : ℕ → ℕ
payload table = table + 36

-- `(length - sizeof(struct acpisdt)) / 4` in 64 bits, and as an `int` the bound of the loop.
pub entries : ℕ → ℕ
entries length = pos_part (signed32 (u32 (u64 (length + 2 ^ 64 - 36) / 4)))

-- `none` where the fuel of a loop is used up.
module _ (cpu_nodes : ℕ) where
  -- One structure of the table at `madt_ptr`.
  pub take_entry : Mem → ℕ → Mem
  take_entry m madt_ptr =
      let lapic_id = m (madt_ptr + 10) in
      if m (madt_ptr + 8) == madt_lapic then store m (cpu_nodes + lapic_id) lapic_id else m

  pub walk : ℕ → Mem → ℕ → ℕ → Option Mem
  walk zero m madt_ptr end_apic = if ltb madt_ptr end_apic then none else some m
  walk (suc fuel) m madt_ptr end_apic =
      let rest = walk fuel (take_entry m madt_ptr) (madt_ptr + m (madt_ptr + 9)) end_apic in
      if ltb madt_ptr end_apic then rest else some m

  pub each_table : ℕ → ℕ → ℕ → ℕ → Mem → Option Mem
  each_table fuel zero ii entries_ptr m = some m
  each_table fuel (suc left) ii entries_ptr m =
      let acpi_ptr = read 4 m (entries_ptr + 4 * ii) in
      elim (if eq_ℤ (memcmp 4 m acpi_ptr apic_signature 0) (pos 0)
        then walk fuel m (payload acpi_ptr) (acpi_ptr + table_length m acpi_ptr)
        else some m) [ none ↦ none | some m' ↦ each_table fuel left (ii + 1) entries_ptr m' ]

  -- The tuple of ranges; the answer of the search in the later ranges is dropped.
  pub iterate_check : ℕ → List (ℕ × ℕ) → Mem → Option (Bool × Mem)
  iterate_check fuel [] m = some (false, m)
  iterate_check fuel ((low, high) ∷ later) m = elim (check_rsdt m low high) [
    | some rsdp ↦
        let rsdt = rsdt_addr m rsdp in
        elim (each_table fuel (entries (table_length m rsdt)) 0 (payload rsdt) m) [
          | none ↦ none
          | some m' ↦ some (true, m')
        ]
    | none ↦ elim (iterate_check fuel later m) [ none ↦ none | some found ↦ some (false, found.1) ]
  ]

  pub init : ℕ → Mem → Option Mem
  init fuel m =
      let paddr = u32 (read 2 m 0x40e <<< 4) in
      elim (iterate_check fuel ((paddr, u32 (paddr + 1024)) ∷ (0xe0000, 0x100000) ∷ []) m) [
        | none ↦ none
        | some found ↦ some found.1
      ]

  -- `ii` stays 0, so the test `ii <= MAX_CPUS` always holds.
  pub find_core : ℕ → Mem → ℕ → ℕ → Option ℕ
  find_core zero m core_id c_id = none
  find_core (suc fuel) m core_id c_id =
      let same = find_core fuel m core_id c_id in
      let next = find_core fuel m core_id (u64 (c_id + 1)) in
      if m (cpu_nodes + core_id) == core_id then if c_id == core_id then some 0 else next else same

  pub check_apic_id : ℕ → Mem → ℕ → Option ℕ
  check_apic_id fuel m core_id = find_core fuel m core_id 0

unfoldable pub enable_lapic : Cmd (Unit {0})
enable_lapic = do
  wrmsr 0x1b (bit_or 0xfee00000 (1 <<< 11))
  apic_write 0xf0 (bit_or (1 <<< 8) 0xff)
  apic_write 0x80 0x0
  apic_write 0xb0 0x0

-- `Apic::eoi`, which nothing calls: the handler calls that of `cpu`.
abbrev eoi : Cmd (Unit {0})
eoi = apic_write 0xb0 0x0

-- An empty body.
pub lapic_init : Cmd (Unit {0})
lapic_init = pure tt

pub launch_ap : ℕ → Cmd Bool
launch_ap core_id = do
  apic_write 0x300 0xc4500
  apic_write 0x300 0xc4608
  apic_write 0x300 0xc4608
  pure false

module _ (hw : Hardware) where
  pub check_apic : Bool
  check_apic = not (bit_and (cpuid hw 1 0).edx (1 <<< 9) == 0)

  pub mask_lvt : ℕ → Cmd (Unit {0})
  mask_lvt reg_addr = do
    reg ← apic_read hw reg_addr
    apic_write reg_addr (bit_or reg apic_lvt_masked)
