-- ===== src/FirstStage/Sequence/Tests.antt =====
-- The boots of bootloader/firststage/bootloader.s and bootloader/delice_pxe/src/init.cc on a sample
-- machine with three processors and a BIOS with two entries.
use deliceos.Base.{
  ℕ, zero, suc, ◌+◌, ◌*◌, ◌^◌, ◌<◌, ◌≤◌, ◌⊎◌, ap, ◌∙◌, length, ◌≡◌, refl, subst, inl, List, [], ◌∷◌,
  some, true, arith, get_elem?, u32,
}
use mathlib.Core.Option.{some-injective}
use deliceos.Memory.{Mem, store}
use deliceos.Memory.Cells.{read, write, write_byte, write-Outside}
use deliceos.Machine.{Hardware, Machine, ok, read_msr}
use deliceos.Samples
use deliceos.Samples.{one_port}
use deliceos.Serial.{comdevices}
use deliceos.Serial.Init.{ports}
use deliceos.Cpu.{is_bsp, rdmsr}
use deliceos.Paging.{first_pml4_base}
use deliceos.Paging.Map.{map_addr-Outside, map_addr_byte}
use deliceos.Init.{construct_spin, Kernel, map_apic, stack_wait}
use deliceos.Init.Objects.{Searches, prepared}
use deliceos.Init.Sample.{places, one_digit, prepared-Outside, nothing-Searches}
use deliceos.FirstStage.{do_memset_zero, fill_pd, first_pd_base, early_page}
use deliceos.FirstStage.MemoryMap.{get_physical, collect}
use deliceos.FirstStage.Sequence.{boot_all}
use deliceos.FirstStage.Sequence.Kept.{early_page_outside, ports_cong}
use deliceos.FirstStage.Sequence.Parked.{IsCore, IsReady, AllPark, boot_all-AllPark}
use deliceos.FirstStage.Sequence.Whole.{AllBoot, boot_all-AllBoot}
use deliceos.FirstStage.Tests.{two_entries, two_entries-Answers}

-- An application processor with the identifier `id`.
abbrev core : ℕ → Hardware × ℕ
core id = (
  record Samples.idle_line { on_load = λ h addr. id * 2 ^ 24; on_rdmsr = λ h msr. (0, 0xfee00800) },
  id,
)

core-IsCore : (id : ℕ) → id < 256 → IsCore 2 (core id)
unfolding is_bsp rdmsr
core-IsCore id small = record {
  answers = λ dev h. (0, omega arith, refl);
  is_ap = λ s. refl;
  has_id = λ h. omega arith;
}

abbrev two_cores : List (Hardware × ℕ)
two_cores = core 1 ∷ core 2 ∷ []

two_cores-IsCore : (i : ℕ) (c : Hardware × ℕ) → get_elem? two_cores i ≡ some c → IsCore 2 c
two_cores-IsCore zero c e = subst (IsCore 2) (some-injective _ _ e) (core-IsCore 1 (omega arith))
two_cores-IsCore (suc zero) c e =
    subst (IsCore 2) (some-injective _ _ e) (core-IsCore 2 (omega arith))
two_cores-IsCore (suc (suc i)) c e = absurd (ground (arith, e))

-- The bootstrap processor has set the devices and let the next one in.
abbrev kernel : Kernel
kernel = record {
  console = record { devices = 0x3f8 ∷ 0 ∷ 0 ∷ 0 ∷ []; acquire = 3; release = 3 };
  core_id = 1;
}

abbrev let_in : Machine
let_in = record Samples.start { mem = store Samples.one_port stack_wait 1 }

let_in-IsReady : IsReady kernel.console let_in
unfolding ports read store
let_in-IsReady = record { free = refl; set = refl; few = omega arith; named = refl }

boot_all-AllPark_example : AllPark one_digit (1 ∷ 2 ∷ []) kernel let_in (
    boot_all two_entries 2 one_digit places
      (construct_spin ∷ [])
      ((core 1).0 ∷ (core 2).0 ∷ [])
      kernel
      let_in)
boot_all-AllPark_example =
    boot_all-AllPark two_entries 2 2 (λ k i. k) one_digit places two_entries-Answers (omega arith)
      (omega arith) (omega arith) two_cores kernel let_in (omega arith) two_cores-IsCore
      let_in-IsReady

-- The bootstrap processor starts with the devices not set.
abbrev at_start : Kernel
at_start = record {
  console = record { devices = comdevices; acquire = 0; release = 0 };
  core_id = 0;
}

abbrev first : Hardware
first = record Samples.idle_line { on_rdmsr = λ h msr. (0, 0xfee00900) }

-- The memory with the two entries and their number.
abbrev mapped : Mem
mapped =
    write 4 (two_entries 1 0x14018 (two_entries 0 0x14000 (store let_in.mem stack_wait 0)).1).1
      0x14200 2

mapped_is : get_physical two_entries 2 (store let_in.mem stack_wait 0) ≡ some mapped
unfolding get_physical collect
mapped_is = refl

mapped_byte : (x : ℕ) → mapped x < 256
unfolding store
mapped_byte = write_byte 4 _ 0x14200 2 λ x. ground arith

do_memset_zero_byte :
    (n edi : ℕ) (m : Mem) → ((x : ℕ) → m x < 256) → (x : ℕ) → do_memset_zero n edi m x < 256
unfolding do_memset_zero
do_memset_zero_byte zero edi m bytes = bytes
do_memset_zero_byte (suc n) edi m bytes =
    do_memset_zero_byte n (edi + 4) (write 4 m edi 0) (write_byte 4 m edi 0 bytes)

fill_pd_byte :
    (n edi ebx : ℕ) (m : Mem) → ((x : ℕ) → m x < 256) → (x : ℕ) → fill_pd n edi ebx m x < 256
unfolding fill_pd
fill_pd_byte zero edi ebx m bytes = bytes
fill_pd_byte (suc n) edi ebx m bytes =
    fill_pd_byte n (edi + 8) (u32 (ebx + 0x200000)) (write 4 m edi _) (write_byte 4 m edi _ bytes)

early_page_byte : (m : Mem) → ((x : ℕ) → m x < 256) → (x : ℕ) → early_page m x < 256
unfolding early_page
early_page_byte m bytes = fill_pd_byte 512 first_pd_base 0 _ (
    write_byte 4 _ 0x33000 _
      (write_byte 4 _ first_pml4_base _ (do_memset_zero_byte 4096 first_pml4_base m bytes)))

-- The memory that the search sees, and its bytes outside all that is written.
abbrev seen : Mem
seen = map_apic (early_page mapped)

seen_byte : (x : ℕ) → seen x < 256
seen_byte =
    map_addr_byte (early_page mapped) 0x13370000000 0xfee00000 19
      (early_page_byte mapped mapped_byte)

seen_is : (x : ℕ) → (x < 0x7e00) ⊎ (0x80000 ≤ x) → seen x ≡ one_port x
unfolding store
seen_is x out = ground (
  arith,
  map_addr-Outside (early_page mapped) 0x13370000000 0xfee00000 19 x (ground arith) (ground arith)
      (ground arith),
  early_page_outside mapped x (ground arith),
  write-Outside 4
      (two_entries 1 0x14018 (two_entries 0 0x14000 (store let_in.mem stack_wait 0)).1).1 0x14200 2
      x (ground arith),
)

mapped_low : (x : ℕ) → x < stack_wait → mapped x ≡ one_port x
unfolding store
mapped_low x low = ground (
  arith,
  write-Outside 4
      (two_entries 1 0x14018 (two_entries 0 0x14000 (store let_in.mem stack_wait 0)).1).1 0x14200 2
      x (inl (omega (arith, low))),
)

found_ports : ports (early_page mapped) 0 at_start.console.devices ≡ 0x3f8 ∷ 0 ∷ 0 ∷ 0 ∷ []
unfolding ports read store
found_ports =
    ports_cong (early_page mapped) one_port 0 at_start.console.devices (omega arith)
      (λ x low. early_page_outside mapped x (inl (omega (arith, low))) ∙ mapped_low x low)
    ∙ refl

searches :
    Searches 2 places
      (ports (early_page mapped) 0 at_start.console.devices)
      seen
      (λ c. prepared places c seen)
searches = rw found_ports (
    nothing-Searches (0x3f8 ∷ 0 ∷ 0 ∷ 0 ∷ []) seen (omega arith) seen_byte seen_is 2
      (omega arith, (omega arith, (omega arith, (omega arith, tt)))))

first-IsBsp :
    (s : Machine) → is_bsp first s ≡ ok true (record s { trace = read_msr 0x1b ∷ s.trace })
unfolding is_bsp rdmsr
first-IsBsp s = refl

boot_all-AllBoot_example : AllBoot one_digit places first (1 ∷ 2 ∷ []) at_start let_in mapped (
    boot_all two_entries 2 one_digit places
      (construct_spin ∷ [])
      (first ∷ (core 1).0 ∷ (core 2).0 ∷ [])
      at_start
      let_in)
unfolding store
boot_all-AllBoot_example =
    boot_all-AllBoot two_entries 2 2 (λ k i. k) one_digit places two_entries-Answers (omega arith)
      (omega arith) (omega arith) first two_cores at_start let_in mapped
      (λ c. prepared places c seen) (λ dev h. (0, omega arith, refl)) first-IsBsp refl (omega arith)
      mapped_is searches
      (λ c same x low.
        prepared-Outside c seen x (omega (arith, ap length (same ∙ found_ports)))
          (inl (omega (arith, low))))
      (omega arith) two_cores-IsCore
