-- ===== src/Paging.antt =====
-- Page tables: bootloader/delice_pxe/src/paging.cc and includes/paging.h. `map_addr` writes one
-- entry in each of three tables at fixed addresses; `Paging/Walk` reads them as the processor does.
pub mod Entry
pub mod Walk
pub mod Map
pub mod Alias
mod Tests
use deliceos.Base.{ℕ, ◌+◌, ◌*◌, ◌/◌, ◌^◌, bit_and, bit_or, ◌>>>◌}
use deliceos.Memory.{Mem, memset}
use deliceos.Memory.Cells.{write}

abbrev pub first_pml4_base : ℕ
first_pml4_base = 0x32000

abbrev pub apic_pdpte : ℕ
apic_pdpte = 0x22000

abbrev pub apic_pde : ℕ
apic_pde = 0x23000

abbrev pub page_present : ℕ
page_present = 1

abbrev pub page_write : ℕ
page_write = 2

abbrev pub page_uc : ℕ
page_uc = 16

abbrev pub page_size_2mb : ℕ
page_size_2mb = 128

-- The index into the table whose entries cover 2 ^ `shift` bytes each.
abbrev pub index : ℕ → ℕ → ℕ
index shift vaddr = bit_and (vaddr >>> shift) 0x1ff

-- `memset(entry, 0x0, sizeof(uint64_t)); *entry = value;` at `table + indicies[…]`.
unfoldable pub put_entry : Mem → ℕ → ℕ → ℕ → Mem
put_entry m table i value = write 8 (memset m (table + 8 * i) 0 8) (table + 8 * i) value

pub map_addr : Mem → ℕ → ℕ → ℕ → Mem
map_addr m vaddr phys flags =
    let m1 =
      put_entry m first_pml4_base (index 39 vaddr)
        (bit_or (bit_or page_present page_write) apic_pdpte) in
    let m2 =
      put_entry m1 apic_pdpte (index 30 vaddr) (bit_or (bit_or page_present page_write) apic_pde) in
    put_entry m2 apic_pde (index 21 vaddr) (bit_or (bit_or flags page_size_2mb) phys)
