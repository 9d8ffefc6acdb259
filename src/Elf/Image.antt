-- ===== src/Elf/Image.antt =====
-- What `main` of elf_parse/src/parser.cc writes, and how it ends.
use deliceos.Base.{
  ℕ, zero, suc, ◌+◌, ◌-◌, ◌^◌, ◌≤◌, ◌<◌, ◌≡◌, refl, ap, ◌∙◌, List, [], ◌∷◌, map, some, arith,
  get_elem?, length,
}
use deliceos.Memory.{Mem}
use deliceos.Elf.{
  Section, FileHeader, initheader, min_element, max_element, image_end, write_blocks, flatten,
  finished,
}
use deliceos.Elf.Extremes.{min_element-le, le-max_element, max_element-mem}

write_blocks_lem :
    (left ii : ℕ) (faddr : Mem) (j : ℕ)
    → j < left
    → get_elem? (write_blocks left ii faddr) j ≡ some (faddr (ii + j))
unfolding write_blocks
write_blocks_lem zero ii faddr j h = absurd (omega arith)
write_blocks_lem (suc left) ii faddr zero h = ap (λ (t : ℕ). some (faddr t)) (omega arith)
write_blocks_lem (suc left) ii faddr (suc j) h =
    write_blocks_lem left (ii + 1) faddr j (omega arith)
    ∙ ap (λ (t : ℕ). some (faddr t)) (omega arith)

get_elem?-map :
    (ss : List Section) (k : ℕ) {t : Section}
    → get_elem? ss k ≡ some t
    → get_elem? (map initheader ss) k ≡ some (initheader t)
get_elem?-map [] k h = absurd (ground arith)
get_elem?-map (s ∷ ss) zero h = ground arith
get_elem?-map (s ∷ ss) (suc k) h = get_elem?-map ss k h

get_elem?-map_inv :
    (ss : List Section) (k : ℕ) {h : FileHeader}
    → get_elem? (map initheader ss) k ≡ some h
    → (t : Section) × (get_elem? ss k ≡ some t) × (h ≡ initheader t)
get_elem?-map_inv [] k e = absurd (ground arith)
get_elem?-map_inv (s ∷ ss) zero e = (s, refl, ground arith)
get_elem?-map_inv (s ∷ ss) (suc k) e = get_elem?-map_inv ss k e

-- The sections fit 32 bits, and one that starts no later than another ends no later.
pub record IsLaidOut (ss : List Section) : Type 0 where
  pub fits : (k : ℕ) (t : Section) → get_elem? ss k ≡ some t → t.sh_offset + t.sh_size < 2 ^ 32
  pub ordered :
      (j k : ℕ) (s t : Section)
      → get_elem? ss j ≡ some s
      → get_elem? ss k ≡ some t
      → s.sh_offset ≤ t.sh_offset
      → s.sh_offset + s.sh_size ≤ t.sh_offset + t.sh_size

-- `out` is the file from `base` on, and holds every section.
pub record IsImage (faddr : Mem) (ss : List Section) (base : ℕ) (out : List ℕ) : Type 0 where
  pub bytes : (j : ℕ) → j < length out → get_elem? out j ≡ some (faddr (base + j))
  pub starts : (k : ℕ) (t : Section) → get_elem? ss k ≡ some t → base ≤ t.sh_offset
  pub holds :
      (k : ℕ) (t : Section) (i : ℕ)
      → get_elem? ss k ≡ some t
      → i < t.sh_size
      → get_elem? out (t.sh_offset - base + i) ≡ some (faddr (t.sh_offset + i))

length-write_blocks : (left ii : ℕ) (faddr : Mem) → length (write_blocks left ii faddr) ≡ left
unfolding write_blocks
length-write_blocks zero ii faddr = refl
length-write_blocks (suc left) ii faddr = ap suc (length-write_blocks left (ii + 1) faddr)

module _ (faddr : Mem) (s : Section) (ss : List Section) (laid : IsLaidOut (s ∷ ss)) where
  abbrev lowest : FileHeader
  lowest = min_element (initheader s) (map initheader ss)

  abbrev highest : FileHeader
  highest = max_element (initheader s) (map initheader ss)

  starts : (k : ℕ) (t : Section) → get_elem? (s ∷ ss) k ≡ some t → lowest.offset ≤ t.sh_offset
  starts k t e = omega (
    arith,
    laid.fits k t e,
    min_element-le (initheader s) (map initheader ss) k (get_elem?-map (s ∷ ss) k e),
  )

  ends :
      (k : ℕ) (t : Section)
      → get_elem? (s ∷ ss) k ≡ some t
      → t.sh_offset + t.sh_size ≤ image_end highest
  ends k t e =
      let (j, at) = max_element-mem (initheader s) (map initheader ss) in
      let (last, there, is) = get_elem?-map_inv (s ∷ ss) j at in
      let above : t.sh_offset ≤ last.sh_offset = omega (
        arith,
        laid.fits k t e,
        laid.fits j last there,
        ap (λ (h : FileHeader). h.offset) is,
        le-max_element (initheader s) (map initheader ss) k (get_elem?-map (s ∷ ss) k e),
      ) in
      omega (
        arith,
        laid.fits j last there,
        laid.ordered k j t last e there above,
        ap (λ (h : FileHeader). h.offset) is,
        ap (λ (h : FileHeader). h.size) is,
      )

  pub flatten-IsImage :
      (base : ℕ) × (out : List ℕ) × (flatten faddr (s ∷ ss)
        ≡ finished (map (λ t. t.sh_offset) (s ∷ ss)) out)
      × IsImage faddr (s ∷ ss) base out
  unfolding flatten
  flatten-IsImage = (
    lowest.offset,
    write_blocks (image_end highest - lowest.offset) lowest.offset faddr,
    refl,
    record {
      bytes = λ j h. write_blocks_lem _ _ faddr j (
          omega
            (arith, length-write_blocks (image_end highest - lowest.offset) lowest.offset faddr));
      starts = starts;
      holds = λ k t i e h.
          write_blocks_lem _ lowest.offset faddr (t.sh_offset - lowest.offset + i)
            (omega (arith, starts k t e, ends k t e))
          ∙ ap (λ (x : ℕ). some (faddr x)) (omega (arith, starts k t e));
    },
  )
