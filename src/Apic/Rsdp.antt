-- ===== src/Apic/Rsdp.antt =====
-- The search for the RSDP, `check_rsdt` of bootloader/delice_pxe/src/apic.cc.
use deliceos.Base.{
  ◌∙◌, sym, ℕ, zero, suc, ◌+◌, ◌-◌, ◌*◌, ◌<◌, ◌≤◌, ◌≡◌, ◌↔◌, refl, ap, subst, arith, ltb,
  Bool-cases, inl, inr, true, pos, eq_ℤ, eq_ℤ_iff, Option, none, some,
}
use deliceos.Memory.{Mem}
use deliceos.Apic.{memcmp, rsd_ptr, scan, check_rsdt}
use deliceos.Apic.Compare.{memcmp-Same}

-- The signature stands at `a`.
abbrev pub Signed : Mem → ℕ → Type 0
Signed m a = (k : ℕ) → k < 8 → m (a + k) ≡ rsd_ptr k

-- `r` is the first of the addresses `low`, `low + 16`, … below `high` at which the signature stands.
pub data FirstSigned (m : Mem) (low high : ℕ) (r : Option ℕ) : Type 0 where
  signed_at :
      (k : ℕ)
      → r ≡ some (low + 16 * k)
      → low + 16 * k < high
      → Signed m (low + 16 * k)
      → ((j : ℕ) → j < k → ¬ Signed m (low + 16 * j))
      → FirstSigned m low high r
  nowhere :
      r ≡ none
      → ((j : ℕ) → low + 16 * j < high → ¬ Signed m (low + 16 * j))
      → FirstSigned m low high r

rsd_ptr_byte : (k : ℕ) → rsd_ptr k < 256
rsd_ptr_byte zero = omega arith
rsd_ptr_byte (suc k) = ground arith

compares_iff :
    (m : Mem) (a : ℕ)
    → ((x : ℕ) → m x < 256)
    → (eq_ℤ (memcmp 8 m a rsd_ptr 0) (pos 0) ≡ true ↔ Signed m a)
compares_iff m a bytes =
    let cmp = memcmp-Same 8 m a rsd_ptr 0 bytes rsd_ptr_byte in
    (
      λ h k less. ground (arith, cmp.0 ((eq_ℤ_iff (memcmp 8 m a rsd_ptr 0) (pos 0)).0 h) k less),
      λ h. (eq_ℤ_iff (memcmp 8 m a rsd_ptr 0) (pos 0)).1 (cmp.1 λ k less. ground (arith, h k less)),
    )

widen :
    (m : Mem) (low high : ℕ) (r : Option ℕ)
    → ¬ Signed m low
    → FirstSigned m (low + 16) high r
    → FirstSigned m low high r
widen m low high r not_here (signed_at k e less here before) =
    signed_at (suc k) (rw e (ap some shift)) (omega arith) (subst (Signed m) shift here) earlier
  where
    shift : low + 16 + 16 * k ≡ low + 16 * suc k
    shift = omega arith

    earlier : (j : ℕ) → j < suc k → ¬ Signed m (low + 16 * j)
    earlier zero p is = not_here (subst (Signed m) (omega arith) is)
    earlier (suc j) p is = before j (omega arith) (subst (Signed m) (omega arith) is)
widen m low high r not_here (nowhere e none_here) = nowhere e later
  where
    later : (j : ℕ) → low + 16 * j < high → ¬ Signed m (low + 16 * j)
    later zero p is = not_here (subst (Signed m) (omega arith) is)
    later (suc j) p is = none_here j (omega arith) (subst (Signed m) (omega arith) is)

scan-FirstSigned :
    (fuel : ℕ) (m : Mem) (low high : ℕ)
    → ((x : ℕ) → m x < 256)
    → high - low ≤ fuel
    → FirstSigned m low high (scan fuel m low high)
unfolding scan
scan-FirstSigned zero m low high bytes enough = nowhere refl λ j p. absurd (omega arith)
scan-FirstSigned (suc fuel) m low high bytes enough = elim (Bool-cases (ltb low high)) [
  | inr done ↦ rw done (nowhere refl λ j p. absurd (ground arith))
  | inl more ↦ rw more (elim (Bool-cases (eq_ℤ (memcmp 8 m low rsd_ptr 0) (pos 0))) [
    | inl here ↦ rw here (
        signed_at 0 (ap some (omega arith)) (ground arith)
          (subst (Signed m) (omega arith) ((compares_iff m low bytes).0 here))
          λ j p. absurd (omega arith))
    | inr not_here ↦ rw not_here (
        widen m low high _
          (λ is. absurd (ground (arith, not_here, (compares_iff m low bytes).1 is)))
          (scan-FirstSigned fuel m (low + 16) high bytes (omega arith)))
  ])
]

-- In a memory of bytes, `check_rsdt` gives the first of the addresses `low`, `low + 16`, … below
-- `high` at which the signature of the RSDP stands, and nothing if it stands at none of them.
pub check_rsdt-FirstSigned :
    (m : Mem) (low high : ℕ)
    → ((x : ℕ) → m x < 256)
    → FirstSigned m low high (check_rsdt m low high)
unfolding check_rsdt
check_rsdt-FirstSigned m low high bytes =
    scan-FirstSigned (high - low) m low high bytes (omega arith)

FirstSigned-lt :
    (m : Mem) (low high j k : ℕ)
    → Signed m (low + 16 * j)
    → ((i : ℕ) → i < k → ¬ Signed m (low + 16 * i))
    → k ≤ j
FirstSigned-lt m low high j k here before = elim (Bool-cases (ltb j k)) [
  | inl less ↦ absurd (before j (ground arith) here)
  | inr not_less ↦ ground arith
]

-- There is one first.
pub FirstSigned-unique :
    (m : Mem) (low high : ℕ) (r s : Option ℕ)
    → FirstSigned m low high r
    → FirstSigned m low high s
    → r ≡ s
FirstSigned-unique m low high r s (signed_at j e p here before) (signed_at k d q there earlier) =
    e
    ∙ ap (λ (i : ℕ). some (low + 16 * i))
        (omega (
          arith,
          FirstSigned-lt m low high j k here earlier,
          FirstSigned-lt m low high k j there before,
        ))
    ∙ sym d
FirstSigned-unique m low high r s (signed_at j e p here before) (nowhere d none_here) =
    absurd (none_here j p here)
FirstSigned-unique m low high r s (nowhere e none_here) (signed_at k d q there earlier) =
    absurd (none_here k q there)
FirstSigned-unique m low high r s (nowhere e none_here) (nowhere d none_there) = e ∙ sym d
