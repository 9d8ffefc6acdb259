-- ===== src/Apic/Madt.antt =====
-- The walk over the structures of the MADT, and `check_apic` on what it records:
-- bootloader/delice_pxe/src/apic.cc.
use deliceos.Base.{
  Bool-cases, inl, inr, ℕ, zero, suc, ◌+◌, ◌<◌, ◌≤◌, ◌≡◌, ◌≢◌, ◌⊎◌, refl, ◌∙◌, ap, arith, ◌==◌,
  if◌then◌else◌, none, some, length, List, [], ◌∷◌, u64, ◌^◌,
}
use deliceos.Memory.{Mem, store}
use deliceos.Apic.{madt_lapic, take_entry, walk, find_core, check_apic_id}

-- The structures `es`, pairs of a type and an identifier, follow one another from the pointer `p` on.
-- As `madt_ptr` points 8 bytes before the structure that it means, those of the walk are the ones
-- with `p < end_apic`.
abbrev pub Chain : Mem → ℕ → ℕ → List (ℕ × ℕ) → Type 0
Chain m end_apic p [] = end_apic ≤ p
Chain m end_apic p ((type, id) ∷ es) =
    (p < end_apic) × (m (p + 8) ≡ type) × (m (p + 10) ≡ id) × Chain m end_apic (p + m (p + 9)) es

pub Chain-cong :
    (es : List (ℕ × ℕ)) (m k : Mem) (end_apic p : ℕ)
    → ((x : ℕ) → p ≤ x → x < end_apic + 10 → k x ≡ m x)
    → Chain m end_apic p es
    → Chain k end_apic p es
Chain-cong [] m k end_apic p agree chain = chain
Chain-cong ((type, id) ∷ es) m k end_apic p agree (less, is_type, is_id, others) = (
  less,
  agree (p + 8) (omega arith) (omega arith) ∙ is_type,
  agree (p + 10) (omega arith) (omega arith) ∙ is_id,
  rw (agree (p + 9) (omega arith) (omega arith))
      (Chain-cong es m k end_apic (p + m (p + 9)) (λ x h. agree x (omega arith)) others),
)

module _ (cpu_nodes : ℕ) where
  -- Each processor is written at its own index.
  unfoldable pub record_all : List (ℕ × ℕ) → Mem → Mem
  record_all [] m = m
  record_all ((type, id) ∷ es) m =
      record_all es (if type == madt_lapic then store m (cpu_nodes + id) id else m)

  walk_step :
      (fuel : ℕ) (m : Mem) (p end_apic : ℕ)
      → p < end_apic
      → walk cpu_nodes (suc fuel) m p end_apic
        ≡ walk cpu_nodes fuel (take_entry cpu_nodes m p) (p + m (p + 9)) end_apic
  unfolding walk
  walk_step fuel m p end_apic less = ground arith

  -- A structure that is none of the bytes of `cpu_nodes` is read as before.
  take_entry-other :
      (m : Mem) (p x : ℕ)
      → ((a : ℕ) → m a < 256)
      → (x < cpu_nodes) ⊎ (cpu_nodes + 256 ≤ x)
      → take_entry cpu_nodes m p x ≡ m x
  unfolding take_entry store
  take_entry-other m p x bytes apart = ground (arith, bytes (p + 10))

  take_entry_byte :
      (m : Mem) (p : ℕ) → ((a : ℕ) → m a < 256) → (a : ℕ) → take_entry cpu_nodes m p a < 256
  unfolding take_entry store
  take_entry_byte m p bytes a = ground (arith, bytes a, bytes (p + 10))

  -- `cpu_nodes` shares no byte with what is read from `p` on.
  abbrev pub Apart : ℕ → ℕ → Type 0
  Apart p end_apic = (cpu_nodes + 256 ≤ p) ⊎ (end_apic + 10 ≤ cpu_nodes)

  Chain-take_entry :
      (es : List (ℕ × ℕ)) (m : Mem) (q end_apic p : ℕ)
      → ((a : ℕ) → m a < 256)
      → Apart p end_apic
      → Chain m end_apic p es
      → Chain (take_entry cpu_nodes m q) end_apic p es
  Chain-take_entry es m q end_apic p bytes apart =
      Chain-cong es m (take_entry cpu_nodes m q) end_apic p
        λ x h less. take_entry-other m q x bytes (ground arith)

  take_entry_is :
      (m : Mem) (p type id : ℕ)
      → m (p + 8) ≡ type
      → m (p + 10) ≡ id
      → take_entry cpu_nodes m p ≡ (if type == madt_lapic then store m (cpu_nodes + id) id else m)
  unfolding take_entry
  take_entry_is m p type id is_type is_id = rw (is_type, is_id) refl

  -- The walk over a chain of structures in a memory of bytes that shares none with `cpu_nodes`
  -- ends, with as much fuel as there are structures, and has recorded the processors of all of
  -- them, each at its own index.
  pub walk-record_all :
      (es : List (ℕ × ℕ)) (fuel : ℕ) (m : Mem) (p end_apic : ℕ)
      → ((a : ℕ) → m a < 256)
      → Apart p end_apic
      → Chain m end_apic p es
      → length es ≤ fuel
      → walk cpu_nodes fuel m p end_apic ≡ some (record_all es m)
  unfolding record_all walk
  walk-record_all [] zero m p end_apic bytes apart chain enough = ground arith
  walk-record_all [] (suc fuel) m p end_apic bytes apart chain enough = ground arith
  walk-record_all ((type, id) ∷ es) zero m p end_apic bytes apart chain enough =
      absurd (omega arith)
  walk-record_all ((type, id) ∷ es) (suc fuel) m p end_apic bytes apart
        (less, is_type, is_id, others) enough =
      walk_step fuel m p end_apic less
      ∙ walk-record_all es fuel (take_entry cpu_nodes m p) (p + m (p + 9)) end_apic
          (take_entry_byte m p bytes) (ground arith)
          (Chain-take_entry es m p end_apic (p + m (p + 9)) bytes (ground arith) others)
          (omega arith)
      ∙ ap (λ k. some (record_all es k)) (take_entry_is m p type id is_type is_id)

  -- A structure of length 0 that is no processor before the end of the table keeps the walk for
  -- ever: no fuel is enough.
  pub walk_stuck :
      (fuel : ℕ) (m : Mem) (p end_apic : ℕ)
      → p < end_apic
      → m (p + 9) ≡ 0
      → m (p + 8) ≢ madt_lapic
      → walk cpu_nodes fuel m p end_apic ≡ none
  unfolding walk
  walk_stuck zero m p end_apic less empty other = ground arith
  walk_stuck (suc fuel) m p end_apic less empty other =
      walk_step fuel m p end_apic less
      ∙ ap (λ k. walk cpu_nodes fuel k (p + m (p + 9)) end_apic) stays
      ∙ ap (λ q. walk cpu_nodes fuel m q end_apic) (omega arith)
      ∙ walk_stuck fuel m p end_apic less empty other
    where
      stays : take_entry cpu_nodes m p ≡ m
      stays = unfold take_entry in ground arith

  find_core_found :
      (left fuel : ℕ) (m : Mem) (core_id c_id : ℕ)
      → m (cpu_nodes + core_id) ≡ core_id
      → c_id + left ≡ core_id
      → core_id < 2 ^ 64
      → left < fuel
      → find_core cpu_nodes fuel m core_id c_id ≡ some 0
  unfolding find_core
  find_core_found left zero m core_id c_id is sum small enough = absurd (omega arith)
  find_core_found zero (suc fuel) m core_id c_id is sum small enough = ground arith
  find_core_found (suc left) (suc fuel) m core_id c_id is sum small enough = ground (
    arith,
    find_core_found left fuel m core_id (u64 (c_id + 1)) is (omega arith) small (omega arith),
  )

  check_apic_id_stuck :
      (fuel : ℕ) (m : Mem) (core_id : ℕ)
      → m (cpu_nodes + core_id) ≢ core_id
      → find_core cpu_nodes fuel m core_id 0 ≡ none
  unfolding find_core
  check_apic_id_stuck zero m core_id differs = refl
  check_apic_id_stuck (suc fuel) m core_id differs =
      ground (arith, check_apic_id_stuck fuel m core_id differs)

  -- With fuel beyond its number, `check_apic` returns 0 for a core that is recorded under its own
  -- number, whatever the number, and does not return for any other.
  pub check_apic_id_lem :
      (fuel : ℕ) (m : Mem) (core_id : ℕ)
      → core_id < 2 ^ 64
      → core_id < fuel
      → check_apic_id cpu_nodes fuel m core_id
        ≡ (if m (cpu_nodes + core_id) == core_id then some 0 else none)
  unfolding check_apic_id
  check_apic_id_lem fuel m core_id small enough =
      elim (Bool-cases (m (cpu_nodes + core_id) == core_id)) [
        | inl same ↦
            rw same
              (find_core_found core_id fuel m core_id 0 (ground arith) (omega arith) small enough)
        | inr differs ↦ rw differs (check_apic_id_stuck fuel m core_id (λ is. ground arith))
      ]
