-- ===== src/Apic/Tables.antt =====
-- From the RSDP to `cpu_nodes`: `iterate_check` and `Apic::init` of bootloader/delice_pxe/src/apic.cc
-- on firmware tables with a chain of structures that ends.
use deliceos.Base.{
  ℕ, zero, suc, ◌+◌, ◌-◌, ◌*◌, ◌/◌, ◌^◌, ◌<◌, ◌≤◌, ◌≡◌, ◌⊎◌, inl, inr, refl, sym, ◌∙◌, arith,
  if◌then◌else◌, Bool-cases, true, false, some, length, length-append, List, [], ◌∷◌, ◌++◌, u32,
  pos, eq_ℤ, eq_ℤ_iff,
}
use native.Mathlib.Nat.{pow-suc}
use deliceos.Memory.{Mem}
use deliceos.Memory.Cells.{read, read_cong}
use deliceos.Apic.{
  memcmp, apic_signature, rsdt_addr, table_length, payload, entries, walk, each_table,
  iterate_check, init,
}
use deliceos.Apic.Compare.{Same, memcmp-Same}
use deliceos.Apic.Madt.{Chain, Chain-cong, record_all, walk-record_all}
use deliceos.Apic.Rsdp.{FirstSigned}
use deliceos.Apic.Discover.{Unsigned, ebda, check_rsdt-Unsigned, check_rsdt-found}
use deliceos.Apic.Records.{
  listed, Ids, Chain-Ids, Ids-append, Elsewhere, record_all-append, record_all-Elsewhere,
  record_all_byte, record_all_lem,
}

-- All structures of the tables, in order.
abbrev pub together : List (List (ℕ × ℕ)) → List (ℕ × ℕ)
together [] = []
together (es ∷ ess) = es ++ together ess

pub read-lt : (n : ℕ) (m : Mem) (a : ℕ) → ((x : ℕ) → m x < 256) → read n m a < 256 ^ n
unfolding read
read-lt zero m a bytes = omega arith
read-lt (suc n) m a bytes = omega (arith, bytes a, read-lt n m (a + 1) bytes, pow-suc 256 n)

-- The number of entries is that of the whole words behind the header.
entries_lem : (len : ℕ) → len < 2 ^ 32 → entries len ≡ (len - 36) / 4
unfolding entries
entries_lem len small = ground arith

apic_byte : (k : ℕ) → apic_signature k < 256
apic_byte zero = omega arith
apic_byte (suc k) = ground arith

-- The RSDP that `init` uses: the first in its first range, or, when there is none, in its second.
abbrev pub Located : Mem → ℕ → Type 0
Located m rsdp =
    FirstSigned m (ebda m) (u32 (ebda m + 1024)) (some rsdp)
    ⊎ (Unsigned m (ebda m) (u32 (ebda m + 1024)) × FirstSigned m 0xe0000 0x100000 (some rsdp))

module _ (cpu_nodes : ℕ) where
  -- The table at `p` lies above `cpu_nodes`, and if it is a MADT the chain of structures that the code
  -- walks, from 8 bytes before the first one on, is `es`; the walk takes none from another table.
  abbrev pub Table : Mem → ℕ → List (ℕ × ℕ) → Type 0
  Table m p es =
      (cpu_nodes + 256 ≤ p)
      × ((Same m p apic_signature 0 4 × Chain m (p + table_length m p) (payload p) es)
          ⊎ ((¬ Same m p apic_signature 0 4) × (es ≡ [])))

  -- The tables to which the entries from `ii` on point.
  abbrev pub Tables : Mem → ℕ → ℕ → List (List (ℕ × ℕ)) → Type 0
  Tables m entries_ptr ii [] = Unit {0}
  Tables m entries_ptr ii (es ∷ ess) =
      Table m (read 4 m (entries_ptr + 4 * ii)) es × Tables m entries_ptr (ii + 1) ess

  -- `k` is `m` but for what is recorded.
  abbrev pub Agree : Mem → Mem → Type 0
  Agree m k = (x : ℕ) → Elsewhere cpu_nodes x → k x ≡ m x

  read-Agree :
      (n : ℕ) (m k : Mem) (a : ℕ) → Agree m k → cpu_nodes + 256 ≤ a → read n k a ≡ read n m a
  read-Agree n m k a agree above = read_cong n k m a λ i p. agree (a + i) (inr (omega arith))

  -- One table, from a memory in which processors have been recorded.
  take_structures :
      (fuel : ℕ) (m k : Mem) (p : ℕ) (es : List (ℕ × ℕ))
      → ((x : ℕ) → k x < 256)
      → Agree m k
      → Table m p es
      → length es ≤ fuel
      → (if eq_ℤ (memcmp 4 k p apic_signature 0) (pos 0)
          then walk cpu_nodes fuel k (payload p) (p + table_length k p)
          else some k)
        ≡ some (record_all cpu_nodes es k)
  take_structures fuel m k p es bytes agree (above, inl (same, chain)) enough =
      rw (is_apic, read-Agree 4 m k (p + 4) agree (omega arith))
        (walk-record_all cpu_nodes es fuel k (payload p) (p + table_length m p) bytes
          (inl (omega arith)) chain_k enough)
    where
      is_apic : eq_ℤ (memcmp 4 k p apic_signature 0) (pos 0) ≡ true
      is_apic = (eq_ℤ_iff (memcmp 4 k p apic_signature 0) (pos 0)).1 (
          (memcmp-Same 4 k p apic_signature 0 bytes apic_byte).1
            λ j less. agree (p + (0 + j)) (inr (omega arith)) ∙ same j less)

      chain_k : Chain k (p + table_length m p) (payload p) es
      chain_k =
          Chain-cong es m k (p + table_length m p) (payload p)
            (λ x h less. agree x (inr (omega arith))) chain
  take_structures fuel m k p es bytes agree (above, inr (other, empty)) enough =
      rw (not_apic, empty) (unfold record_all in refl)
    where
      not_apic : eq_ℤ (memcmp 4 k p apic_signature 0) (pos 0) ≡ false
      not_apic = elim (Bool-cases (eq_ℤ (memcmp 4 k p apic_signature 0) (pos 0))) [
        | inr no_match ↦ no_match
        | inl match ↦ absurd (
            other λ j less.
              sym (agree (p + (0 + j)) (inr (omega arith)))
              ∙ (memcmp-Same 4 k p apic_signature 0 bytes apic_byte).0
                  ((eq_ℤ_iff (memcmp 4 k p apic_signature 0) (pos 0)).0 match) j less)
      ]

  Table-Ids : (m : Mem) (p : ℕ) (es : List (ℕ × ℕ)) → ((x : ℕ) → m x < 256) → Table m p es → Ids es
  Table-Ids m p es bytes (above, inl (same, chain)) = Chain-Ids es m _ (payload p) bytes chain
  Table-Ids m p es bytes (above, inr (other, empty)) = rw empty tt

  Tables-Ids :
      (ess : List (List (ℕ × ℕ))) (m : Mem) (ep ii : ℕ)
      → ((x : ℕ) → m x < 256)
      → Tables m ep ii ess
      → Ids (together ess)
  Tables-Ids [] m ep ii bytes tables = tt
  Tables-Ids (es ∷ ess) m ep ii bytes (table, tables) =
      Ids-append es (together ess) (Table-Ids m _ es bytes table)
        (Tables-Ids ess m ep (ii + 1) bytes tables)

  each_table-record_all :
      (ess : List (List (ℕ × ℕ))) (fuel : ℕ) (m k : Mem) (ep ii : ℕ)
      → ((x : ℕ) → m x < 256)
      → ((x : ℕ) → k x < 256)
      → Agree m k
      → cpu_nodes + 256 ≤ ep
      → Tables m ep ii ess
      → length (together ess) ≤ fuel
      → each_table cpu_nodes fuel (length ess) ii ep k
        ≡ some (record_all cpu_nodes (together ess) k)
  unfolding each_table
  each_table-record_all [] fuel m k ep ii bytes kbytes agree above tables enough =
      unfold record_all in refl
  each_table-record_all (es ∷ ess) fuel m k ep ii bytes kbytes agree above (table, tables) enough =
      rw
        (
          each_table,
          read-Agree 4 m k (ep + 4 * ii) agree (omega arith),
          take_structures fuel m k (read 4 m (ep + 4 * ii)) es kbytes agree table
              (omega (arith, length-append es (together ess))),
          record_all-append cpu_nodes es (together ess) k,
        )
        (each_table-record_all ess fuel m (record_all cpu_nodes es k) ep (ii + 1) bytes
          (record_all_byte cpu_nodes es k ids kbytes)
          (λ x h. record_all-Elsewhere cpu_nodes es k x ids h ∙ agree x h) above tables
          (omega (arith, length-append es (together ess))))
    where
      ids : Ids es
      ids = Table-Ids m _ es bytes table

  -- In a memory of bytes, with an RSDP in one of the two ranges, and its RSDT and the tables that it
  -- names above `cpu_nodes`, where each MADT holds a chain of structures as the code walks it, `init`
  -- ends, with as much fuel as there are structures in the chains; then the entry of every processor in
  -- a chain holds its identifier, every other entry is as before, and so is every byte elsewhere. The
  -- code's pointer is 8 bytes before the structure that it reads, so a chain goes on behind the end of
  -- its MADT while the pointer is below it: the condition is also one on up to 10 bytes behind the
  -- table, a processor that they spell counts as well, and it fails where they give the length 0.
  pub init-Records :
      (fuel : ℕ) (m : Mem) (rsdp : ℕ) (ess : List (List (ℕ × ℕ)))
      → ((x : ℕ) → m x < 256)
      → Located m rsdp
      → cpu_nodes + 256 ≤ rsdt_addr m rsdp
      → (table_length m (rsdt_addr m rsdp) - 36) / 4 ≡ length ess
      → Tables m (payload (rsdt_addr m rsdp)) 0 ess
      → length (together ess) ≤ fuel
      → (m' : Mem) × (init cpu_nodes fuel m ≡ some m')
        × ((i : ℕ)
            → m' (cpu_nodes + i) ≡ (if listed i (together ess) then i else m (cpu_nodes + i)))
        × ((x : ℕ) → Elsewhere cpu_nodes x → m' x ≡ m x)
  unfolding init iterate_check
  init-Records fuel m rsdp ess bytes located above number tables enough = (
    record_all cpu_nodes (together ess) m,
    init_runs located,
    record_all_lem cpu_nodes (together ess) m,
    λ x h. record_all-Elsewhere cpu_nodes (together ess) m x (Tables-Ids ess m _ 0 bytes tables) h,
  )
    where
      rounds : entries (table_length m (rsdt_addr m rsdp)) ≡ length ess
      rounds =
          entries_lem (table_length m (rsdt_addr m rsdp)) (read-lt 4 m (rsdt_addr m rsdp + 4) bytes)
          ∙ number

      loop :
          each_table cpu_nodes fuel
            (entries (table_length m (rsdt_addr m rsdp)))
            0
            (payload (rsdt_addr m rsdp))
            m
          ≡ some (record_all cpu_nodes (together ess) m)
      loop = rw rounds (
          each_table-record_all ess fuel m m (payload (rsdt_addr m rsdp)) 0 bytes bytes
            (λ x h. refl) (omega arith) tables enough)

      init_runs :
          Located m rsdp → init cpu_nodes fuel m ≡ some (record_all cpu_nodes (together ess) m)
      init_runs (inl first) =
          rw
            (
              init,
              iterate_check,
              check_rsdt-found m (ebda m) (u32 (ebda m + 1024)) rsdp bytes first,
              loop,
            )
            refl
      init_runs (inr (nothing, second)) =
          rw
            (
              init,
              iterate_check,
              check_rsdt-Unsigned m (ebda m) (u32 (ebda m + 1024)) bytes nothing,
              check_rsdt-found m 0xe0000 0x100000 rsdp bytes second,
              loop,
            )
            refl
