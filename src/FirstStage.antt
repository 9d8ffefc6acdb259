-- ===== src/FirstStage.antt =====
-- The first stage, bootloader/firststage/bootloader.s: the page tables that a processor enters long
-- mode with. `FirstStage/Pages` is about where they lead, before and after `start_kernel` maps the
-- page of the local APIC, and `FirstStage/Turn` about the order in which processors boot.
pub mod Pages
pub mod Identity
pub mod Stacks
pub mod Turn
pub mod Modes
pub mod Sequence
pub mod MemoryMap
mod Tests
use deliceos.Base.{ℕ, zero, suc, ◌+◌, ◌*◌, ◌%◌, ◌^◌, bit_or, u32}
use deliceos.Memory.{Mem}
use deliceos.Memory.Cells.{write}
use deliceos.Paging.{first_pml4_base}

abbrev pub first_pdpt_base : ℕ
first_pdpt_base = 0x33000

abbrev pub first_pd_base : ℕ
first_pd_base = 0x34000

abbrev pub page_present : ℕ
page_present = 1

abbrev pub page_write : ℕ
page_write = 2

abbrev pub page_size : ℕ
page_size = 128

-- `rep stosd` with eax 0, and ecx and edi as given.
pub do_memset_zero : ℕ → ℕ → Mem → Mem
do_memset_zero zero edi m = m
do_memset_zero (suc ecx) edi m = do_memset_zero ecx (edi + 4) (write 4 m edi 0)

-- The loop with ecx rounds to go.
pub fill_pd : ℕ → ℕ → ℕ → Mem → Mem
fill_pd zero edi ebx m = m
fill_pd (suc ecx) edi ebx m =
    fill_pd ecx (edi + 8) (u32 (ebx + 0x200000))
      (write 4 m edi (bit_or (bit_or (bit_or page_present page_write) page_size) ebx))

pub early_page : Mem → Mem
early_page m =
    let m1 = do_memset_zero 4096 first_pml4_base m in
    let m2 = write 4 m1 first_pml4_base (bit_or (bit_or page_present page_write) first_pdpt_base) in
    let m3 = write 4 m2 first_pdpt_base (bit_or (bit_or page_present page_write) first_pd_base) in
    fill_pd 512 first_pd_base 0 m3
