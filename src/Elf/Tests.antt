-- ===== src/Elf/Tests.antt =====
-- The theorems about `main` of elf_parse/src/parser.cc at a small ELF file, with the structure
-- layout of ELF-64.
use deliceos.Base.{
  ℕ, zero, suc, ◌+◌, ◌-◌, ◌%◌, ◌<◌, ◌≡◌, ◌≢◌, ◌↔◌, ◌^◌, ◌≤◌, true, false, refl, sym, subst, List,
  [], ◌∷◌, map, some, arith, get_elem?, length, pos, negsuc, ◌==◌, if◌then◌else◌,
}
use deliceos.Memory.{Mem}
use deliceos.Memory.Cells.{read}
use deliceos.Elf.{
  Layout, Section, main, parse, collect, section_at, flatten, min_element, max_element,
  write_blocks, entry_sh, is_elf, finished, bad_signature, no_entry, assert_failed,
}
use deliceos.Elf.Image.{IsLaidOut}
use deliceos.Elf.Main.{header, Taken, taken, main-IsImage, main_errors}

abbrev elf64 : Layout
elf64 = record {
  shoff_at = 0x28;
  shnum_at = 0x3c;
  shdr_size = 64;
  sh_offset_at = 0x18;
  sh_size_at = 0x20;
}

-- Three headers at 0x50: the empty one, a section of 4 bytes at 0x40 and one of 3 bytes at 0x44.
abbrev contents : List (ℕ × ℕ)
contents =
    (1, b'E')
    ∷ (2, b'L')
    ∷ (3, b'F')
    ∷ (0x28, 0x50)
    ∷ (0x3c, 3)
    ∷ (0x40, 11)
    ∷ (0x41, 12)
    ∷ (0x42, 13)
    ∷ (0x43, 14)
    ∷ (0x44, 15)
    ∷ (0x45, 16)
    ∷ (0x46, 17)
    ∷ (0xa8, 0x40)
    ∷ (0xb0, 4)
    ∷ (0xe8, 0x44)
    ∷ (0xf0, 3)
    ∷ []

abbrev first : Section
first = record { sh_offset = 0x40; sh_size = 4 }

abbrev second : Section
second = record { sh_offset = 0x44; sh_size = 3 }

look : List (ℕ × ℕ) → Mem
look [] a = 0
look ((k, v) ∷ rest) a = if a == k then v else look rest a

abbrev file : Mem
file = look contents

flat_file :
    main elf64 (pos 3) file ≡ finished (0x40 ∷ 0x44 ∷ []) (11 ∷ 12 ∷ 13 ∷ 14 ∷ 15 ∷ 16 ∷ 17 ∷ [])
unfolding main parse collect section_at flatten min_element max_element write_blocks read look
flat_file = refl

two_sections : taken elf64 file ≡ first ∷ second ∷ []
unfolding collect section_at read look
two_sections = refl

laid_out : IsLaidOut (first ∷ second ∷ [])
laid_out = record { fits = fits; ordered = ordered }
  where
    fits :
        (k : ℕ) (t : Section)
        → get_elem? (first ∷ second ∷ []) k ≡ some t
        → t.sh_offset + t.sh_size < 2 ^ 32
    fits zero t e = ground arith
    fits (suc zero) t e = ground arith
    fits (suc (suc k)) t e = cc

    ordered :
        (j k : ℕ) (s t : Section)
        → get_elem? (first ∷ second ∷ []) j ≡ some s
        → get_elem? (first ∷ second ∷ []) k ≡ some t
        → s.sh_offset ≤ t.sh_offset
        → s.sh_offset + s.sh_size ≤ t.sh_offset + t.sh_size
    ordered zero zero s t e f h = ground arith
    ordered zero (suc zero) s t e f h = ground arith
    ordered zero (suc (suc k)) s t e f h = cc
    ordered (suc zero) zero s t e f h = ground arith
    ordered (suc zero) (suc zero) s t e f h = ground arith
    ordered (suc zero) (suc (suc k)) s t e f h = cc
    ordered (suc (suc j)) k s t e f h = cc

second-Taken : Taken elf64 file 2
unfolding section_at read look
second-Taken = (omega arith, refl)

elf_file : is_elf elf64 file ≡ true
unfolding look
elf_file = refl

main-IsImage_example :
    (base : ℕ) × (out : List ℕ) × (main elf64 (pos 3) file
      ≡ finished (map (λ t. t.sh_offset) (taken elf64 file)) out)
    × ((j : ℕ) → j < length out → get_elem? out j ≡ some (file (base + j)))
    × ((k i : ℕ)
        → Taken elf64 file k
        → i < (header elf64 file k).sh_size
        → get_elem? out ((header elf64 file k).sh_offset - base + i)
          ≡ some (file ((header elf64 file k).sh_offset + i)))
main-IsImage_example =
    main-IsImage elf64 3 file 2 elf_file second-Taken (subst IsLaidOut (sym two_sections) laid_out)

main_errors_example :
    (main elf64 (negsuc 0) file ≡ assert_failed)
    × (main elf64 (pos 3) file ≡ bad_signature ↔ is_elf elf64 file ≡ false)
    × (main elf64 (pos 3) file ≡ no_entry
        ↔ (is_elf elf64 file ≡ true) × (read 2 file 0x3c % 256 ≡ 0))
    × (is_elf elf64 file ≡ true
        → entry_sh elf64 file ≢ 0
        → ((k : ℕ) → ¬ (Taken elf64 file k))
        → main elf64 (pos 3) file ≡ assert_failed)
main_errors_example = main_errors elf64 0 3 file
