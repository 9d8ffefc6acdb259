-- ===== src/FirstStage/MemoryMap.antt =====
-- The memory map: `get_physical` of bootloader/firststage/bootloader.s asks the BIOS for it, entry by
-- entry, and leaves it where `start_kernel` of bootloader/delice_pxe/src/init.cc reads it. What the
-- BIOS answers is a parameter.
pub mod Collected
pub mod Printed
use deliceos.Base.{
  ℕ, zero, suc, ◌+◌, ◌*◌, ◌%◌, ◌^◌, Option, none, some, ◌==◌, if◌then◌else◌, u16, u32,
}
use deliceos.Memory.{Mem}
use deliceos.Memory.Cells.{write}

-- `int 0x15` with eax 0xe820: from the continuation value and the address of the buffer, the next
-- continuation value and the memory with the entry.
abbrev pub Bios : Type 0
Bios = ℕ → ℕ → Mem → ℕ × Mem

-- The base of the segment in es.
abbrev pub es_base : ℕ
es_base = 0x10000

abbrev pub e820_addr : ℕ
e820_addr = 0x4000

module _ (bios : Bios) where
  -- The loop `L1`.
  unfoldable pub collect : ℕ → ℕ → ℕ → ℕ → Mem → Option (ℕ × Mem)
  collect zero ebx edi ebp m = none
  collect (suc fuel) ebx edi ebp m =
      let (ebx', m') = bios ebx (es_base + u16 edi) m in
      let rest = collect fuel ebx' (u32 (edi + 24)) (u32 (ebp + 1)) m' in
      if ebx' == 0 then some (u32 (ebp + 1), m') else rest

  abbrev pub with_count : Option (ℕ × Mem) → Option Mem
  with_count none = none
  with_count (some (ebp, m)) = some (write 4 m (es_base + e820_addr + 0x200) ebp)

  unfoldable pub get_physical : ℕ → Mem → Option Mem
  get_physical fuel m = with_count (collect fuel 0 e820_addr 0 m)
