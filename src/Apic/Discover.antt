-- ===== src/Apic/Discover.antt =====
-- The search in the two ranges of `Apic::init`, bootloader/delice_pxe/src/apic.cc.
use deliceos.Base.{
  ℕ, ◌+◌, ◌*◌, ◌<◌, ◌≡◌, ◌≢◌, refl, arith, true, none, some, Option-cases, inl, inr, List, ◌∷◌, u32,
  ◌<<<◌,
}
use deliceos.Memory.{Mem}
use deliceos.Memory.Cells.{read}
use deliceos.Apic.{check_rsdt, iterate_check, init}
use deliceos.Apic.Rsdp.{
  Signed, FirstSigned, signed_at, nowhere, FirstSigned-unique, check_rsdt-FirstSigned,
}

-- The signature stands at none of `low`, `low + 16`, … below `high`.
abbrev pub Unsigned : Mem → ℕ → ℕ → Type 0
Unsigned m low high = (j : ℕ) → low + 16 * j < high → ¬ Signed m (low + 16 * j)

pub check_rsdt-Unsigned :
    (m : Mem) (low high : ℕ)
    → ((x : ℕ) → m x < 256)
    → Unsigned m low high
    → check_rsdt m low high ≡ none
check_rsdt-Unsigned m low high bytes nothing = of (check_rsdt-FirstSigned m low high bytes)
  where
    of : FirstSigned m low high (check_rsdt m low high) → check_rsdt m low high ≡ none
    of (signed_at k e less here before) = absurd (nothing k less here)
    of (nowhere e none_here) = e

pub check_rsdt-found :
    (m : Mem) (low high rsdp : ℕ)
    → ((x : ℕ) → m x < 256)
    → FirstSigned m low high (some rsdp)
    → check_rsdt m low high ≡ some rsdp
check_rsdt-found m low high rsdp bytes first =
    FirstSigned-unique m low high _ _ (check_rsdt-FirstSigned m low high bytes) first

-- The start of the extended BIOS data area, from the word at 0x40e.
abbrev pub ebda : Mem → ℕ
ebda m = u32 (read 2 m 0x40e <<< 4)

module _ (cpu_nodes fuel : ℕ) where
  -- In a memory of bytes with the signature of the RSDP neither in the first 1024 bytes of the
  -- extended BIOS data area nor from 0xe0000 to 0xfffff, `init` returns and changes no byte.
  pub init-Unsigned :
      (m : Mem)
      → ((x : ℕ) → m x < 256)
      → Unsigned m (ebda m) (u32 (ebda m + 1024))
      → Unsigned m 0xe0000 0x100000
      → init cpu_nodes fuel m ≡ some m
  unfolding init iterate_check
  init-Unsigned m bytes first second =
      rw
        (
          init,
          iterate_check,
          check_rsdt-Unsigned m (ebda m) (u32 (ebda m + 1024)) bytes first,
          check_rsdt-Unsigned m 0xe0000 0x100000 bytes second,
        )
        refl

  -- When the first range has no RSDP, `iterate_check` never answers true, whatever the later ranges
  -- hold.
  pub iterate_check-Unsigned :
      (m : Mem) (low high : ℕ) (later : List (ℕ × ℕ)) (after : Mem)
      → ((x : ℕ) → m x < 256)
      → Unsigned m low high
      → iterate_check cpu_nodes fuel ((low, high) ∷ later) m ≢ some (true, after)
  unfolding iterate_check
  iterate_check-Unsigned m low high later after bytes nothing =
      rw (iterate_check, check_rsdt-Unsigned m low high bytes nothing)
        (elim (Option-cases (iterate_check cpu_nodes fuel later m)) [
          | inl out ↦ rw out λ h. absurd (ground (arith, h))
          | inr (found, e) ↦ rw e λ h. absurd (ground (arith, h))
        ])
