-- ===== src/Perf/Search.antt =====
-- `binarySearch` and `search` of bootloader/delice_pxe/src/perfctr.cc find what is there.
use deliceos.Base.{
  ℕ, zero, suc, ◌+◌, ◌-◌, ◌/◌, ◌≤◌, ◌<◌, ◌≡◌, ◌≢◌, ◌↔◌, inl, inr, refl, ap, true, false, Bool-cases,
  ltb, ◌==◌, if◌then◌else◌, arith, ℤ, pos, negsuc, ◌+ℤ◌, ◌-ℤ◌, ◌≤ℤ◌, half, ltb_ℤ, leb_ℤ, eq_ℤ,
  eq_ℤ_iff,
}
use deliceos.Perf.{not_found, binary_search, search_from, search}

-- The index before `n`, -1 before 0.
abbrev pub before : ℕ → ℤ
before zero = negsuc 0
before (suc n) = pos n

middle : ℕ → ℕ → ℕ
middle lo hi = lo + (hi - 1 - lo) / 2

mid_is : (lo h : ℕ) → lo ≤ h → pos lo +ℤ half (pos h -ℤ pos lo) ≡ pos (middle lo (suc h))
unfolding ◌+ℤ◌ ◌-ℤ◌ middle
mid_is lo h le = ground arith

mid_before : (m : ℕ) → pos m -ℤ pos 1 ≡ before m
unfolding ◌-ℤ◌
mid_before zero = refl
mid_before (suc m) = ground arith

mid_after : (m : ℕ) → pos m +ℤ pos 1 ≡ pos (m + 1)
unfolding ◌+ℤ◌
mid_after m = ground arith

-- One call, with the indices as numbers.
binary_search-suc :
    (fuel lo hi : ℕ) (arr : ℤ → ℤ) (x : ℤ)
    → binary_search (suc fuel) arr (pos lo) (before hi) x ≡ (
        if ltb lo hi
        then if eq_ℤ (arr (pos (middle lo hi))) x
          then pos (middle lo hi)
          else if ltb_ℤ x (arr (pos (middle lo hi)))
          then binary_search fuel arr (pos lo) (before (middle lo hi)) x
          else binary_search fuel arr (pos (middle lo hi + 1)) (before hi) x
        else not_found)
unfolding binary_search
binary_search-suc fuel lo zero arr x = ground arith
binary_search-suc fuel lo (suc h) arr x = elim (Bool-cases (ltb lo (suc h))) [
  | inl some_left ↦
      let le : leb_ℤ (pos lo) (pos h) ≡ true = ground arith in
      rw (
        some_left,
        le,
        mid_is lo h (ground arith),
        mid_before (middle lo (suc h)),
        mid_after (middle lo (suc h)),
      )
  | inr none_left ↦ let gt : leb_ℤ (pos lo) (pos h) ≡ false = ground arith in rw (none_left, gt)
]

-- `r` is an index between `lo` and `hi` at which `arr` holds `x`, or it is -1 and there is none.
pub data Finds (arr : ℤ → ℤ) (x : ℤ) (lo hi : ℕ) (r : ℤ) : Type 0 where
  at_index : (i : ℕ) → r ≡ pos i → lo ≤ i → i < hi → arr (pos i) ≡ x → Finds arr x lo hi r
  absent : r ≡ not_found → ((j : ℕ) → lo ≤ j → j < hi → arr (pos j) ≢ x) → Finds arr x lo hi r

-- `arr` does not fall from index 0 to index `n - 1`.
abbrev pub IsSorted : (ℤ → ℤ) → ℕ → Type 0
IsSorted arr n = (i j : ℕ) → i ≤ j → j < n → arr (pos i) ≤ℤ arr (pos j)

middle_in : (lo hi : ℕ) → lo < hi → (lo ≤ middle lo hi) × (middle lo hi < hi)
unfolding middle
middle_in lo hi h = omega arith

-- What half of the range leaves out does not hold `x`.
widen_below :
    (arr : ℤ → ℤ) (x : ℤ) (n lo m hi : ℕ) (r : ℤ)
    → IsSorted arr n
    → m < hi
    → hi ≤ n
    → ltb_ℤ x (arr (pos m)) ≡ true
    → Finds arr x lo m r
    → Finds arr x lo hi r
widen_below arr x n lo m hi r sorted h g less (at_index i e p q held) =
    at_index i e p (omega arith) held
widen_below arr x n lo m hi r sorted h g less (absent e none_here) = absent e λ j p q is.
    elim (Bool-cases (ltb j m)) [
      | inl below ↦ none_here j p (ground arith) is
      | inr above ↦ ground (arith, sorted m j, is)
    ]

widen_above :
    (arr : ℤ → ℤ) (x : ℤ) (n lo m hi : ℕ) (r : ℤ)
    → IsSorted arr n
    → lo ≤ m
    → m < n
    → eq_ℤ (arr (pos m)) x ≡ false
    → ltb_ℤ x (arr (pos m)) ≡ false
    → Finds arr x (m + 1) hi r
    → Finds arr x lo hi r
widen_above arr x n lo m hi r sorted h g differs not_less (at_index i e p q held) =
    at_index i e (omega arith) q held
widen_above arr x n lo m hi r sorted h g differs not_less (absent e none_here) =
    absent e λ j p q is. elim (Bool-cases (ltb m j)) [
      | inl above ↦ none_here j (ground arith) q is
      | inr below ↦ ground (arith, sorted j m, is)
    ]

binary_search-Finds_between :
    (fuel lo hi n : ℕ) (arr : ℤ → ℤ) (x : ℤ)
    → IsSorted arr n
    → hi ≤ n
    → hi - lo < fuel
    → Finds arr x lo hi (binary_search fuel arr (pos lo) (before hi) x)
unfolding middle
binary_search-Finds_between zero lo hi n arr x sorted h enough = absurd (omega arith)
binary_search-Finds_between (suc fuel) lo hi n arr x sorted h enough =
    rw (binary_search-suc fuel lo hi arr x) (elim (Bool-cases (ltb lo hi)) [
      | inr none_left ↦ rw none_left (absent refl λ j p q is. ground arith)
      | inl some_left ↦
          let within : (lo ≤ middle lo hi) × (middle lo hi < hi) = middle_in lo hi (ground arith) in
          rw some_left (elim (Bool-cases (eq_ℤ (arr (pos (middle lo hi))) x)) [
            | inl same ↦ rw same (
                at_index (middle lo hi) refl within.0 within.1
                  ((eq_ℤ_iff (arr (pos (middle lo hi))) x).0 same))
            | inr differs ↦ rw differs (elim (Bool-cases (ltb_ℤ x (arr (pos (middle lo hi))))) [
              | inl less ↦ rw less (
                  widen_below arr x n lo (middle lo hi) hi _ sorted within.1 h less (
                    binary_search-Finds_between fuel lo (middle lo hi) n arr x sorted (omega arith)
                      (omega arith)))
              | inr not_less ↦ rw not_less (
                  widen_above arr x n lo (middle lo hi) hi _ sorted within.0 (omega arith) differs
                    not_less
                    (binary_search-Finds_between fuel (middle lo hi + 1) hi n arr x sorted h
                      (omega arith)))
            ])
          ])
    ])

-- The binary search of the first `n` entries of an array that does not fall, with as much stack as
-- entries and one more, gives an index below `n` that holds `x`, or -1 when no entry is `x`.
pub binary_search-Finds :
    (fuel n : ℕ) (arr : ℤ → ℤ) (x : ℤ)
    → IsSorted arr n
    → n < fuel
    → Finds arr x 0 n (binary_search fuel arr (pos 0) (before n) x)
binary_search-Finds fuel n arr x sorted enough =
    binary_search-Finds_between fuel 0 n n arr x sorted (omega arith) (omega arith)

j_is : (j i : ℕ) → (j == i) ≡ true → j ≡ i
j_is j i h = ground arith

search_from-Finds :
    (left i n : ℕ) (arr : ℤ → ℤ) (x : ℤ) → i + left ≡ n → Finds arr x i n (search_from left i arr x)
unfolding search_from
search_from-Finds zero i n arr x h = absent refl λ j p q is. omega arith
search_from-Finds (suc left) i n arr x h = elim (Bool-cases (eq_ℤ (arr (pos i)) x)) [
  | inl same ↦
      rw same (at_index i refl (omega arith) (omega arith) ((eq_ℤ_iff (arr (pos i)) x).0 same))
  | inr differs ↦
      rw differs
        (widen_first arr x i n _ differs (search_from-Finds left (i + 1) n arr x (omega arith)))
]
  where
    widen_first :
        (arr : ℤ → ℤ) (x : ℤ) (i n : ℕ) (r : ℤ)
        → eq_ℤ (arr (pos i)) x ≡ false
        → Finds arr x (i + 1) n r
        → Finds arr x i n r
    widen_first arr x i n r differs (at_index j e p q held) = at_index j e (omega arith) q held
    widen_first arr x i n r differs (absent e none_here) = absent e λ j p q is.
        elim (Bool-cases (j == i)) [
          | inl first ↦
              ground (
                arith,
                eq_ℤ_iff (arr (pos i)) x,
                is,
                differs,
                ap (λ k. arr (pos k)) (j_is j i first),
              )
          | inr later ↦ none_here j (ground arith) q is
        ]

-- The linear search of the first `n` entries gives an index below `n` that holds `x`, or -1 when no
-- entry is `x`.
pub search-Finds : (n : ℕ) (arr : ℤ → ℤ) (x : ℤ) → Finds arr x 0 n (search arr (pos n) x)
unfolding search
search-Finds n arr x = search_from-Finds n 0 n arr x (omega arith)

not_found-Finds :
    (arr : ℤ → ℤ) (x : ℤ) (n : ℕ) (r s : ℤ)
    → Finds arr x 0 n r
    → Finds arr x 0 n s
    → r ≡ not_found
    → s ≡ not_found
not_found-Finds arr x n r s found (absent e none_here) is = e
not_found-Finds arr x n r s (absent d none) (at_index i e p q held) is = absurd (none i p q held)
not_found-Finds arr x n r s (at_index j d o u have) (at_index i e p q held) is = ground arith

-- On an array that does not fall, the binary search fails exactly when the linear one does.
binary_search-search :
    (fuel n : ℕ) (arr : ℤ → ℤ) (x : ℤ)
    → IsSorted arr n
    → n < fuel
    → (binary_search fuel arr (pos 0) (before n) x ≡ not_found ↔ search arr (pos n) x ≡ not_found)
binary_search-search fuel n arr x sorted enough =
    let both = binary_search-Finds fuel n arr x sorted enough in
    let linear = search-Finds n arr x in
    (not_found-Finds arr x n _ _ both linear, not_found-Finds arr x n _ _ linear both)
