-- ===== src/FirstStage/Sequence/Kept.antt =====
-- What a boot leaves of the memory below the byte `stack_wait`, where the BIOS keeps the ports of the
-- serial devices: bootloader/firststage/bootloader.s and bootloader/delice_pxe/src/init.cc.
use deliceos.Base.{
  ◌⊎◌, ℕ, zero, suc, ◌+◌, ◌*◌, ◌/◌, ◌≤◌, ◌<◌, ◌≡◌, ◌∙◌, inl, refl, arith, [], ◌∷◌, length, u32,
}
use deliceos.Memory.{Mem, store}
use deliceos.Memory.Cells.{write, write-Outside, read_cong}
use deliceos.Serial.{ComDevices}
use deliceos.Serial.Init.{ports}
use deliceos.Paging.{first_pml4_base}
use deliceos.Paging.Map.{map_addr-Outside}
use deliceos.Init.{map_apic, buf_size, stack_wait}
use deliceos.Memory.Fill.{memset_fills}
use deliceos.Perf.{unoptimized_function2}
use deliceos.Perf.Zero.{unoptimized_function2-memset}
use deliceos.FirstStage.{fill_pd, early_page, first_pd_base}
use deliceos.FirstStage.Pages.{do_memset_zero_outside}

-- The two memories agree below `stack_wait`.
abbrev pub SameLow : Mem → Mem → Type 0
SameLow m m' = (x : ℕ) → x < stack_wait → m x ≡ m' x

fill_pd_outside :
    (n edi ebx : ℕ) (m : Mem) (x : ℕ) → (x < edi) ⊎ (edi + 8 * n ≤ x) → fill_pd n edi ebx m x ≡ m x
unfolding fill_pd
fill_pd_outside zero edi ebx m x h = refl
fill_pd_outside (suc n) edi ebx m x h =
    fill_pd_outside n (edi + 8) (u32 (ebx + 0x200000)) (write 4 m edi _) x (ground arith)
    ∙ write-Outside 4 m edi _ x (ground arith)

-- The tables of the first stage take four pages.
pub early_page_outside : (m : Mem) (x : ℕ) → (x < 0x32000) ⊎ (0x36000 ≤ x) → early_page m x ≡ m x
unfolding early_page
early_page_outside m x h =
    fill_pd_outside 512 first_pd_base 0 _ x (ground arith)
    ∙ write-Outside 4 _ 0x33000 _ x (ground arith)
    ∙ write-Outside 4 _ first_pml4_base _ x (ground arith)
    ∙ do_memset_zero_outside 4096 first_pml4_base m x (ground arith)

-- The first stage: the byte is taken, and `m'` holds the memory map.
pub stage-SameLow : (m m' : Mem) → SameLow m' (store m stack_wait 0) → SameLow (early_page m') m
unfolding store
stage-SameLow m m' collected x h =
    ground (arith, early_page_outside m' x (inl (omega arith)), collected x h)

-- `start_kernel`: the page of the local APIC is mapped, and the byte is set.
pub kernel-SameLow : (m : Mem) → SameLow (store (map_apic m) stack_wait 1) m
unfolding store
kernel-SameLow m x h = ground (
  arith,
  map_addr-Outside m 0x13370000000 0xfee00000 19 x (inl (omega arith)) (inl (omega arith))
      (inl (omega arith)),
)

pub ports_cong :
    (m m' : Mem) (com_id : ℕ) (devs : ComDevices)
    → com_id + length devs ≤ 4
    → SameLow m m'
    → ports m com_id devs ≡ ports m' com_id devs
unfolding ports
ports_cong m m' com_id [] few same = refl
ports_cong m m' com_id (dev ∷ devs) few same =
    rw
      (
        read_cong 2 m m' (0x400 + 2 * com_id) (λ i h. same _ (omega arith)),
        ports_cong m m' (com_id + 1) devs (omega arith) same,
      )
      refl

-- Only the number of the devices counts.
pub ports-ports :
    (m m' : Mem) (com_id c : ℕ) (devs : ComDevices)
    → ports m com_id (ports m' c devs) ≡ ports m com_id devs
unfolding ports
ports-ports m m' com_id c [] = refl
ports-ports m m' com_id c (dev ∷ devs) = rw (ports-ports m m' (com_id + 1) (c + 1) devs) refl

pub length-ports :
    (m : Mem) (com_id : ℕ) (devs : ComDevices) → length (ports m com_id devs) ≡ length devs
unfolding ports
length-ports m com_id [] = refl
length-ports m com_id (dev ∷ devs) = omega (arith, length-ports m (com_id + 1) devs)

-- The counted loop of stores.
pub buf-SameLow :
    (buf : ℕ) (m : Mem) → stack_wait ≤ buf → SameLow (unoptimized_function2 buf buf_size m) m
buf-SameLow buf m above x h = ground (
  arith,
  unoptimized_function2-memset buf buf_size m x (omega arith) (omega arith),
  memset_fills m buf 0 (8 * (buf_size / 8)) x,
)
