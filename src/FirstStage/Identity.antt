-- ===== src/FirstStage/Identity.antt =====
-- The processor's view of memory with the tables of bootloader/firststage/bootloader.s, before and
-- after `map_addr` of bootloader/delice_pxe/src/paging.cc.
use deliceos.Base.{
  ℕ, ◌+◌, ◌*◌, ◌/◌, ◌%◌, ◌^◌, ◌≤◌, ◌<◌, ◌≡◌, ◌≢◌, refl, ap, ◌∙◌, ◌⊎◌, inl, inr, arith, true, false,
  none, some, ltb, Bool-cases, if◌then◌else◌, ◌==◌,
}
use deliceos.Memory.{Mem}
use deliceos.Memory.Cells.{read, write, read-write_apart, read_cong}
use deliceos.Paging.{first_pml4_base, map_addr}
use deliceos.Paging.Entry.{large_page}
use deliceos.Paging.Walk.{Target, walk, walk_pdpt, walk_pd}
use deliceos.Paging.Map.{walk_pd_large, map_addr-Outside}
use deliceos.FirstStage.{do_memset_zero, early_page, first_pdpt_base, first_pd_base}
use deliceos.FirstStage.Pages.{
  do_memset_zero_inside, read-halves, read_zero, entry_written, flags_of, fill_pd-Outside,
  fill_pd_entry,
}

-- The entries that map the first 2 ^ 30 bytes to themselves.
pub record IsIdentity (m : Mem) : Type 0 where
  pub pml4 : read 8 m first_pml4_base ≡ 0x33003
  pub pdpt : read 8 m first_pdpt_base ≡ 0x34003
  pub pd : (i : ℕ) → i < 512 → read 8 m (first_pd_base + 8 * i) ≡ flags_of (i * 2 ^ 21)

walk_first :
    (m : Mem) (x : ℕ)
    → read 8 m (first_pml4_base + 8 * (x / 2 ^ 39 % 512)) ≡ 0x33003
    → walk m first_pml4_base x ≡ walk_pdpt m first_pdpt_base x true
unfolding walk
walk_first m x e4 = rw e4

walk_second :
    (m : Mem) (x : ℕ)
    → read 8 m (first_pdpt_base + 8 * (x / 2 ^ 30 % 512)) ≡ 0x34003
    → walk_pdpt m first_pdpt_base x true ≡ walk_pd m first_pd_base x true
unfolding walk_pdpt
walk_second m x e3 = rw e3

abbrev pub itself : ℕ → Target
itself x = record { phys = x; writable = true; uncached = false }

pub identity_walk :
    (m : Mem) (x : ℕ) → IsIdentity m → x < 2 ^ 30 → walk m first_pml4_base x ≡ some (itself x)
identity_walk m x is small =
    walk_first m x (ap (λ i. read 8 m (first_pml4_base + 8 * i)) top ∙ is.pml4)
    ∙ walk_second m x (ap (λ i. read 8 m (first_pdpt_base + 8 * i)) next ∙ is.pdpt)
    ∙ walk_pd_large m first_pd_base x (x / 2 ^ 21) 3 (flags_of (x / 2 ^ 21 * 2 ^ 21)) (omega arith)
        refl (large_page (x / 2 ^ 21) 3 (omega arith))
        (ap (λ i. read 8 m (first_pd_base + 8 * i)) number ∙ is.pd (x / 2 ^ 21) (omega arith))
    ∙ ap (λ p. some (itself p)) back
  where
    top : x / 2 ^ 39 % 512 ≡ 0
    top = omega arith

    next : x / 2 ^ 30 % 512 ≡ 0
    next = omega arith

    number : x / 2 ^ 21 % 512 ≡ x / 2 ^ 21
    number = omega arith

    back : x / 2 ^ 21 * 2 ^ 21 + x % 2 ^ 21 ≡ x
    back = omega arith

-- The memory before the directory is filled.
module _ (m : Mem) where
  cleared : Mem
  cleared = do_memset_zero 4096 first_pml4_base m

  tables : Mem
  tables = write 4 (write 4 cleared first_pml4_base 0x33003) first_pdpt_base 0x34003

  cleared_word :
      (n a : ℕ) → first_pml4_base ≤ a → a + n ≤ first_pml4_base + 0x4000 → read n cleared a ≡ 0
  unfolding cleared
  cleared_word n a from to =
      read_zero n (do_memset_zero 4096 first_pml4_base m) a
        λ x low high. do_memset_zero_inside 4096 first_pml4_base m x (omega arith) (omega arith)

  fill_kept : (b : ℕ) → b + 8 ≤ first_pd_base → read 8 (early_page m) b ≡ read 8 tables b
  unfolding early_page tables cleared
  fill_kept b below =
      read-halves (early_page m) b
      ∙ omega (
        arith,
        fill_pd-Outside 512 first_pd_base 0 tables b (inl (omega arith)),
        fill_pd-Outside 512 first_pd_base 0 tables (b + 4) (inl (omega arith)),
        read-halves tables b,
      )

  -- An entry of the first two tables other than their first.
  other_entry :
      (b : ℕ)
      → first_pml4_base + 8 ≤ b
      → b + 8 ≤ first_pd_base
      → (b + 8 ≤ first_pdpt_base) ⊎ (first_pdpt_base + 8 ≤ b)
      → read 8 (early_page m) b ≡ 0
  unfolding tables
  other_entry b from to apart =
      fill_kept b to
      ∙ read-write_apart 8 4 (write 4 cleared first_pml4_base 0x33003) b first_pdpt_base 0x34003
          (ground arith)
      ∙ read-write_apart 8 4 cleared b first_pml4_base 0x33003 (inr (omega arith))
      ∙ cleared_word 8 b (omega arith) (omega arith)

  pub early_page-IsIdentity : IsIdentity (early_page m)
  unfolding early_page tables cleared
  early_page-IsIdentity = record {
    pml4 =
        fill_kept first_pml4_base (omega arith)
        ∙ read-write_apart 8 4 (write 4 cleared first_pml4_base 0x33003) first_pml4_base
            first_pdpt_base 0x34003 (inl (omega arith))
        ∙ entry_written cleared first_pml4_base 0x33003 (omega arith)
            (cleared_word 4 (first_pml4_base + 4) (omega arith) (omega arith));
    pdpt =
        fill_kept first_pdpt_base (omega arith)
        ∙ entry_written (write 4 cleared first_pml4_base 0x33003) first_pdpt_base 0x34003
            (omega arith)
            (read-write_apart 4 4 cleared (first_pdpt_base + 4) first_pml4_base 0x33003
                (inr (omega arith))
              ∙ cleared_word 4 (first_pdpt_base + 4) (omega arith) (omega arith));
    pd = λ i small.
        fill_pd_entry 512 first_pd_base 0 i tables small (omega arith) (
          read-write_apart 4 4 (write 4 cleared first_pml4_base 0x33003) (first_pd_base + 8 * i + 4)
            first_pdpt_base 0x34003 (inr (omega arith))
          ∙ read-write_apart 4 4 cleared (first_pd_base + 8 * i + 4) first_pml4_base 0x33003
              (inr (omega arith))
          ∙ cleared_word 4 (first_pd_base + 8 * i + 4) (omega arith) (omega arith))
        ∙ ap (λ k. flags_of (k * 2 ^ 21)) (plain i);
  }
    where
      plain : (i : ℕ) → 0 + i ≡ i
      plain i = omega arith

  top_missing : (x : ℕ) → x / 2 ^ 39 % 512 ≢ 0 → walk (early_page m) first_pml4_base x ≡ none
  unfolding walk
  top_missing x ne = rw (
      other_entry (first_pml4_base + 8 * (x / 2 ^ 39 % 512)) (omega (arith, ne)) (omega arith)
        (inl (omega arith)))

  next_missing :
      (x : ℕ)
      → x / 2 ^ 39 % 512 ≡ 0
      → x / 2 ^ 30 % 512 ≢ 0
      → walk (early_page m) first_pml4_base x ≡ none
  unfolding walk_pdpt
  next_missing x zeroth ne =
      walk_first (early_page m) x (
        ap (λ i. read 8 (early_page m) (first_pml4_base + 8 * i)) zeroth
        ∙ early_page-IsIdentity.pml4)
      ∙ rw (
          other_entry (first_pdpt_base + 8 * (x / 2 ^ 30 % 512)) (omega arith) (omega arith)
            (inr (omega (arith, ne))))

-- The first stage maps the first 2 ^ 30 bytes, each address to itself, writable and cached, and no
-- other address below 2 ^ 48.
pub early_page-maps :
    (m : Mem) (x : ℕ)
    → x < 2 ^ 48
    → walk (early_page m) first_pml4_base x ≡ (if ltb x (2 ^ 30) then some (itself x) else none)
early_page-maps m x small = elim (Bool-cases (ltb x (2 ^ 30))) [
  | inl low ↦
      rw low (identity_walk (early_page m) x (early_page-IsIdentity m) (ground (arith, low)))
  | inr high ↦ rw high (elim (Bool-cases (x / 2 ^ 39 % 512 == 0)) [
    | inl zeroth ↦ next_missing m x (ground (arith, zeroth)) (ground (arith, high, zeroth))
    | inr other ↦ top_missing m x (ground (arith, other))
  ])
]

-- A call of `map_addr` for an address outside the first 2 ^ 39 bytes leaves the identity.
map_addr-IsIdentity :
    (m : Mem) (vaddr phys flags : ℕ)
    → vaddr / 2 ^ 39 % 512 ≢ 0
    → IsIdentity m
    → IsIdentity (map_addr m vaddr phys flags)
map_addr-IsIdentity m vaddr phys flags ne is = record {
  pml4 = kept first_pml4_base (inl (refl, omega (arith, ne))) ∙ is.pml4;
  pdpt = kept first_pdpt_base (inr (omega arith)) ∙ is.pdpt;
  pd = λ i small. kept (first_pd_base + 8 * i) (inr (omega arith)) ∙ is.pd i small;
}
  where
    kept :
        (b : ℕ)
        → ((b ≡ first_pml4_base) × (1 ≤ vaddr / 2 ^ 39 % 512)) ⊎ (first_pdpt_base ≤ b)
        → read 8 (map_addr m vaddr phys flags) b ≡ read 8 m b
    kept b (inl (first, apart)) = read_cong 8 (map_addr m vaddr phys flags) m b λ k small.
        map_addr-Outside m vaddr phys flags (b + k) (inl (omega arith)) (inr (omega arith))
          (inr (omega arith))
    kept b (inr behind) = read_cong 8 (map_addr m vaddr phys flags) m b λ k small.
        map_addr-Outside m vaddr phys flags (b + k) (inr (omega arith)) (inr (omega arith))
          (inr (omega arith))

-- What `start_kernel` runs in stays where it is: with the tables of the first stage, a call of
-- `map_addr` for an address of which bits 39 to 47 are not all 0, whatever its other arguments, leaves
-- every address below 2 ^ 30 leading to itself, writable and cached.
pub early_page-map_addr :
    (m : Mem) (vaddr phys flags x : ℕ)
    → vaddr / 2 ^ 39 % 512 ≢ 0
    → x < 2 ^ 30
    → walk (map_addr (early_page m) vaddr phys flags) first_pml4_base x ≡ some (itself x)
early_page-map_addr m vaddr phys flags x ne small =
    identity_walk (map_addr (early_page m) vaddr phys flags) x
      (map_addr-IsIdentity (early_page m) vaddr phys flags ne (early_page-IsIdentity m)) small
