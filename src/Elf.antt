-- ===== src/Elf.antt =====
-- The tool that flattens the kernel's ELF file: elf_parse/src/parser.cc, elf_parse/include/parser.h
-- and the first steps of `openfile` of elf_parse/src/Utils/file.cc.
-- The mapped file is byte memory from offset 0 on. The layout of the ELF structures comes from the
-- system's elf.h and is a parameter, and so is what `open` returns. The file is mapped as far as it is
-- read, and the bytes that the stream is given are the result: a stream that does not open or write
-- and a mapping that fails or ends before a read are not modelled.
pub mod Extremes
pub mod Image
pub mod Main
mod Tests
use deliceos.Base.{
  ℕ, zero, suc, ◌+◌, ◌-◌, ◌*◌, Bool, true, false, not, ◌&&◌, List, [], ◌∷◌, map, ◌==◌, ltb,
  if◌then◌else◌, u8, u32, ℤ, pos, negsuc,
}
use deliceos.Memory.{Mem}
use deliceos.Memory.Cells.{read}

-- The offsets of `e_shoff` and `e_shnum` in `Elf64_Ehdr`, and of `sh_offset` and `sh_size` in
-- `Elf64_Shdr`, whose size is `shdr_size`.
pub record Layout : Type 0 where
  pub shoff_at : ℕ
  pub shnum_at : ℕ
  pub shdr_size : ℕ
  pub sh_offset_at : ℕ
  pub sh_size_at : ℕ

-- `sh_offset` and `sh_size` of a section, 64 bits each.
pub record Section : Type 0 where
  pub sh_offset : ℕ
  pub sh_size : ℕ

pub record FileHeader : Type 0 where
  pub offset : ℕ
  pub size : ℕ

-- The constructor of `FileHeader` takes 32-bit numbers.
abbrev pub initheader : Section → FileHeader
initheader s = record { offset = u32 s.sh_offset; size = u32 s.sh_size }

abbrev pub comparator : FileHeader → FileHeader → Bool
comparator s1 s2 = ltb s1.offset s2.offset

-- How a run ends: by `exit(1)` with one of the two messages, by a failed `assert`, or normally,
-- with the offsets printed and the bytes written to the flat file.
pub data Outcome : Type 0 where
  bad_signature : Outcome
  no_entry : Outcome
  assert_failed : Outcome
  finished : List ℕ → List ℕ → Outcome

-- `std::min_element` and `std::max_element` with `comparator` give the first such element.
unfoldable pub min_element : FileHeader → List FileHeader → FileHeader
min_element best [] = best
min_element best (h ∷ hs) = min_element (if comparator h best then h else best) hs

unfoldable pub max_element : FileHeader → List FileHeader → FileHeader
max_element best [] = best
max_element best (h ∷ hs) = max_element (if comparator best h then h else best) hs

-- `for (ii = image_base; ii < image_end; ii++) file.writefile(faddr + ii);` with `left` to go.
unfoldable pub write_blocks : ℕ → ℕ → Mem → List ℕ
write_blocks zero ii faddr = []
write_blocks (suc left) ii faddr = faddr ii ∷ write_blocks left (ii + 1) faddr

abbrev pub image_end : FileHeader → ℕ
image_end last = u32 (last.offset + last.size)

-- What follows the loop over the section headers.
pub flatten : Mem → List Section → Outcome
flatten faddr [] = assert_failed
flatten faddr (s ∷ ss) =
    let minoffset = min_element (initheader s) (map initheader ss) in
    let maxoffset = max_element (initheader s) (map initheader ss) in
    finished (map (λ t. t.sh_offset) (s ∷ ss))
      (write_blocks (image_end maxoffset - minoffset.offset) minoffset.offset faddr)

module _ (layout : Layout) (faddr : Mem) where
  pub section_at : ℕ → ℕ → Section
  section_at sh_off ii = record {
    sh_offset = read 8 faddr (sh_off + layout.shdr_size * ii + layout.sh_offset_at);
    sh_size = read 8 faddr (sh_off + layout.shdr_size * ii + layout.sh_size_at);
  }

  abbrev pub selected : ℕ → Section → Bool
  selected sh_off s = ltb 0 s.sh_offset && ltb s.sh_offset sh_off

  -- The loop over the section headers, with `left` to go.
  pub collect : ℕ → ℕ → ℕ → List Section
  collect sh_off zero ii = []
  collect sh_off (suc left) ii =
      let rest = collect sh_off left (ii + 1) in
      if selected sh_off (section_at sh_off ii) then section_at sh_off ii ∷ rest else rest

  abbrev pub is_elf : Bool
  is_elf = faddr 1 == b'E' && faddr 2 == b'L' && faddr 3 == b'F'

  abbrev pub sh_off : ℕ
  sh_off = read 8 faddr layout.shoff_at

  -- `uint8_t entry_sh = hdr->e_shnum;`
  abbrev pub entry_sh : ℕ
  entry_sh = u8 (read 2 faddr layout.shnum_at)

  pub parse : Outcome
  parse =
      if not is_elf
      then bad_signature
      else if not (ltb 0 entry_sh)
      then no_entry
      else flatten faddr (collect sh_off entry_sh 0)

-- `fd` is what `open` returns for the kernel file.
pub main : Layout → ℤ → Mem → Outcome
main layout (pos fd) faddr = parse layout faddr
main layout (negsuc n) faddr = assert_failed
