-- ===== src/Apic/Records.antt =====
-- What the loop over the structures of the MADT leaves in memory: `cpu_nodes` as a table of the
-- processors found, after bootloader/delice_pxe/src/apic.cc.
use deliceos.Base.{
  ℕ, ◌+◌, ◌<◌, ◌≤◌, ◌≡◌, ◌⊎◌, refl, arith, ◌==◌, ◌&&◌, ◌||◌, if◌then◌else◌, Bool, false, List, [],
  ◌∷◌, ◌++◌,
}
use deliceos.Memory.{Mem, store}
use deliceos.Apic.{madt_lapic}
use deliceos.Apic.Madt.{Chain, record_all}

-- Among the structures there is a local APIC with the identifier `i`.
abbrev pub listed : ℕ → List (ℕ × ℕ) → Bool
listed i [] = false
listed i ((type, id) ∷ es) = (type == madt_lapic && id == i) || listed i es

-- Every identifier is a byte.
abbrev pub Ids : List (ℕ × ℕ) → Type 0
Ids [] = Unit {0}
Ids ((type, id) ∷ es) = (id < 256) × Ids es

pub Chain-Ids :
    (es : List (ℕ × ℕ)) (m : Mem) (end_apic p : ℕ)
    → ((a : ℕ) → m a < 256)
    → Chain m end_apic p es
    → Ids es
Chain-Ids [] m end_apic p bytes chain = tt
Chain-Ids ((type, id) ∷ es) m end_apic p bytes (less, is_type, is_id, others) =
    (omega (arith, bytes (p + 10)), Chain-Ids es m end_apic (p + m (p + 9)) bytes others)

pub Ids-append : (es fs : List (ℕ × ℕ)) → Ids es → Ids fs → Ids (es ++ fs)
Ids-append [] fs h g = g
Ids-append (e ∷ es) fs h g = (h.0, Ids-append es fs h.1 g)

module _ (cpu_nodes : ℕ) where
  -- `x` is none of the 256 bytes that a processor may be recorded in.
  abbrev pub Elsewhere : ℕ → Type 0
  Elsewhere x = (x < cpu_nodes) ⊎ (cpu_nodes + 256 ≤ x)

  pub record_all-append :
      (es fs : List (ℕ × ℕ)) (m : Mem)
      → record_all cpu_nodes (es ++ fs) m ≡ record_all cpu_nodes fs (record_all cpu_nodes es m)
  unfolding record_all
  record_all-append [] fs m = refl
  record_all-append ((type, id) ∷ es) fs m = record_all-append es fs _

  pub record_all-Elsewhere :
      (es : List (ℕ × ℕ)) (m : Mem) (x : ℕ)
      → Ids es
      → Elsewhere x
      → record_all cpu_nodes es m x ≡ m x
  unfolding record_all store
  record_all-Elsewhere [] m x ids h = refl
  record_all-Elsewhere ((type, id) ∷ es) m x ids h = ground (
    arith,
    record_all-Elsewhere es (if type == madt_lapic then store m (cpu_nodes + id) id else m) x ids.1
        h,
  )

  pub record_all_byte :
      (es : List (ℕ × ℕ)) (m : Mem)
      → Ids es
      → ((a : ℕ) → m a < 256)
      → (a : ℕ) → record_all cpu_nodes es m a < 256
  unfolding record_all store
  record_all_byte [] m ids bytes a = bytes a
  record_all_byte ((type, id) ∷ es) m ids bytes a =
      record_all_byte es _ ids.1 (λ x. ground (arith, bytes x)) a

  -- The entry of every identifier that is listed holds it, and every other entry stays.
  pub record_all_lem :
      (es : List (ℕ × ℕ)) (m : Mem) (i : ℕ)
      → record_all cpu_nodes es m (cpu_nodes + i) ≡ (if listed i es then i else m (cpu_nodes + i))
  unfolding record_all store
  record_all_lem [] m i = refl
  record_all_lem ((type, id) ∷ es) m i =
      ground
        (arith, record_all_lem es (if type == madt_lapic then store m (cpu_nodes + id) id else m) i)
