-- ===== src/Elf/Extremes.antt =====
-- What `min_element` and `max_element` of Elf pick: elf_parse/src/parser.cc with `comparator` of
-- elf_parse/include/parser.h.
use deliceos.Base.{
  ℕ, zero, suc, ◌≤◌, ◌≡◌, refl, List, [], ◌∷◌, some, if◌then◌else◌, arith, get_elem?, Bool-cases,
  inl, inr,
}
use deliceos.Elf.{FileHeader, min_element, max_element, comparator}

pub min_element-le_start :
    (best : FileHeader) (hs : List FileHeader) → (min_element best hs).offset ≤ best.offset
unfolding min_element
min_element-le_start best [] = omega arith
min_element-le_start best (h ∷ hs) =
    ground (arith, min_element-le_start (if comparator h best then h else best) hs)

pub min_element-le :
    (best : FileHeader) (hs : List FileHeader) (k : ℕ) {e : FileHeader}
    → get_elem? (best ∷ hs) k ≡ some e
    → (min_element best hs).offset ≤ e.offset
unfolding min_element
min_element-le best hs zero h = ground (arith, min_element-le_start best hs)
min_element-le best [] (suc k) h = absurd (ground arith)
min_element-le best (h ∷ hs) (suc zero) p =
    ground (arith, min_element-le_start (if comparator h best then h else best) hs)
min_element-le best (h ∷ hs) (suc (suc k)) p =
    min_element-le (if comparator h best then h else best) hs (suc k) p

pub le-max_element_start :
    (best : FileHeader) (hs : List FileHeader) → best.offset ≤ (max_element best hs).offset
unfolding max_element
le-max_element_start best [] = omega arith
le-max_element_start best (h ∷ hs) =
    ground (arith, le-max_element_start (if comparator best h then h else best) hs)

pub le-max_element :
    (best : FileHeader) (hs : List FileHeader) (k : ℕ) {e : FileHeader}
    → get_elem? (best ∷ hs) k ≡ some e
    → e.offset ≤ (max_element best hs).offset
unfolding max_element
le-max_element best hs zero h = ground (arith, le-max_element_start best hs)
le-max_element best [] (suc k) h = absurd (ground arith)
le-max_element best (h ∷ hs) (suc zero) p =
    ground (arith, le-max_element_start (if comparator best h then h else best) hs)
le-max_element best (h ∷ hs) (suc (suc k)) p =
    le-max_element (if comparator best h then h else best) hs (suc k) p

pub max_element-mem :
    (best : FileHeader) (hs : List FileHeader)
    → (k : ℕ) × (get_elem? (best ∷ hs) k ≡ some (max_element best hs))
unfolding max_element
max_element-mem best [] = (0, refl)
max_element-mem best (h ∷ hs) = elim (Bool-cases (comparator best h)) [
  | inl more ↦ rw more (let (k, e) = max_element-mem h hs in (suc k, e))
  | inr less ↦ rw less (skip (max_element-mem best hs))
]
  where
    skip :
        (k : ℕ) × (get_elem? (best ∷ hs) k ≡ some (max_element best hs))
        → (k : ℕ) × (get_elem? (best ∷ h ∷ hs) k ≡ some (max_element best hs))
    skip (zero, e) = (0, e)
    skip (suc k, e) = (suc (suc k), e)
