-- ===== src/Apic/Compare.antt =====
-- `memcmp` of bootloader/delice_pxe/src/apic.cc.
use deliceos.Base.{
  ℕ, zero, suc, ◌+◌, ◌<◌, ◌≡◌, ◌↔◌, refl, arith, ◌==◌, Bool-cases, inl, inr, true, pos, ◌-ℤ◌,
}
use deliceos.Memory.{Mem}
use deliceos.Apic.{char_of, memcmp}

-- Two bytes of which the difference is 0 are the same.
char_of_differs : (a b : ℕ) → a < 256 → b < 256 → char_of a -ℤ char_of b ≡ pos 0 → a ≡ b
unfolding ◌-ℤ◌
char_of_differs a b p q h = ground arith

-- The bytes from `src + i` on and those of `dest` from `i` on.
abbrev pub Same : Mem → ℕ → (ℕ → ℕ) → ℕ → ℕ → Type 0
Same m src dest i size = (k : ℕ) → k < size → m (src + (i + k)) ≡ dest (i + k)

pub memcmp-Same :
    (size : ℕ) (m : Mem) (src : ℕ) (dest : ℕ → ℕ) (i : ℕ)
    → ((a : ℕ) → m a < 256)
    → ((k : ℕ) → dest k < 256)
    → (memcmp size m src dest i ≡ pos 0 ↔ Same m src dest i size)
unfolding memcmp
memcmp-Same zero m src dest i p q = (λ h k less. absurd (omega arith), λ h. refl)
memcmp-Same (suc size) m src dest i p q = elim (Bool-cases (m (src + i) == dest i)) [
  | inl same ↦ rw same (
    forwards same (memcmp-Same size m src dest (i + 1) p q).0,
    λ h. (memcmp-Same size m src dest (i + 1) p q).1 λ k less. ground (arith, h (suc k)),
  )
  | inr differs ↦ rw differs (
    λ h. absurd (ground (arith, char_of_differs (m (src + i)) (dest i) (p (src + i)) (q i) h)),
    λ h. absurd (ground (arith, h 0)),
  )
]
  where
    forwards :
        (m (src + i) == dest i) ≡ true
        → (memcmp size m src dest (i + 1) ≡ pos 0 → Same m src dest (i + 1) size)
        → memcmp size m src dest (i + 1) ≡ pos 0
        → Same m src dest i (suc size)
    forwards same others h zero less = ground arith
    forwards same others h (suc k) less = ground (arith, others h k (ground arith))
