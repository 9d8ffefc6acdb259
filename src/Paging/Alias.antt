-- ===== src/Paging/Alias.antt =====
-- Two calls of `map_addr` in a row: the tables below the first one are shared by every address.
use deliceos.Base.{
  ℕ, ◌+◌, ◌*◌, ◌/◌, ◌%◌, ◌^◌, ◌<◌, ◌≡◌, ◌∙◌, false, some, inl, inr, arith, ◌==◌, Bool-cases, bit_or,
  ap,
}
use deliceos.Memory.{Mem}
use deliceos.Memory.Cells.{read}
use deliceos.Paging.{first_pml4_base, apic_pdpte, apic_pde, page_size_2mb, index, map_addr}
use deliceos.Paging.Entry.{index_lem, put_entry_apart, IsLargePage, large_page}
use deliceos.Paging.Walk.{set_in, walk}
use deliceos.Paging.Map.{pml4_entry, pdpt_entry, pd_entry, walk_large, walk_pd_large, entry-lt}

-- Another entry of the first table stays.
pml4_kept :
    (m : Mem) (vaddr phys flags i : ℕ)
    → i < 512
    → (i == vaddr / 2 ^ 39 % 512) ≡ false
    → read 8 (map_addr m vaddr phys flags) (first_pml4_base + 8 * i)
      ≡ read 8 m (first_pml4_base + 8 * i)
unfolding map_addr
pml4_kept m vaddr phys flags i small other =
    put_entry_apart _ apic_pde (index 21 vaddr) _ _ (omega (arith, index_lem 21 vaddr))
    ∙ put_entry_apart _ apic_pdpte (index 30 vaddr) _ _ (omega (arith, index_lem 30 vaddr))
    ∙ put_entry_apart m first_pml4_base (index 39 vaddr) _ _ (ground (arith, index_lem 39 vaddr))

-- So an entry that leads to the shared table leads there after the call too.
pml4_shared :
    (m : Mem) (vaddr phys flags i : ℕ)
    → i < 512
    → read 8 m (first_pml4_base + 8 * i) ≡ 0x22003
    → read 8 (map_addr m vaddr phys flags) (first_pml4_base + 8 * i) ≡ 0x22003
pml4_shared m vaddr phys flags i small e = elim (Bool-cases (i == vaddr / 2 ^ 39 % 512)) [
  | inl same ↦
      ap (λ t. read 8 (map_addr m vaddr phys flags) (first_pml4_base + 8 * t)) (ground arith)
      ∙ pml4_entry m vaddr phys flags
  | inr other ↦ pml4_kept m vaddr phys flags i small other ∙ e
]

-- Mapping a second address `w` takes the first one away: if the two agree in bits 21 to 38, then
-- afterwards `vaddr` leads into the page that `w` was mapped to, whatever page it was mapped to
-- itself, and although bits 39 to 47 may tell the two apart.
pub map_addr_aliases :
    (m : Mem) (vaddr phys flags w page flags' : ℕ)
    → page < 2 ^ 31
    → flags' < 2 ^ 21
    → flags' % 2 ≡ 1
    → vaddr / 2 ^ 21 % 2 ^ 18 ≡ w / 2 ^ 21 % 2 ^ 18
    → walk (map_addr (map_addr m vaddr phys flags) w (page * 2 ^ 21) flags') first_pml4_base vaddr
      ≡ some (record {
        phys = page * 2 ^ 21 + vaddr % 2 ^ 21;
        writable = set_in 1 flags';
        uncached = set_in 4 flags';
      })
map_addr_aliases m vaddr phys flags w page flags' small low present same =
    walk_large (map_addr m1 w (page * 2 ^ 21) flags') vaddr
      (pml4_shared m1 w (page * 2 ^ 21) flags' (vaddr / 2 ^ 39 % 512) (omega arith)
        (pml4_entry m vaddr phys flags))
      (rw i30 (pdpt_entry m1 w (page * 2 ^ 21) flags'))
    ∙ walk_pd_large (map_addr m1 w (page * 2 ^ 21) flags') apic_pde vaddr page flags' _ small
        present is
        (rw i21
          (pd_entry m1 w (page * 2 ^ 21) flags' ∙ omega (arith, entry-lt page flags' _ small is)))
  where
    m1 : Mem
    m1 = map_addr m vaddr phys flags

    i30 : vaddr / 2 ^ 30 % 512 ≡ w / 2 ^ 30 % 512
    i30 = omega arith

    i21 : vaddr / 2 ^ 21 % 512 ≡ w / 2 ^ 21 % 512
    i21 = omega arith

    is : IsLargePage page flags' (bit_or (bit_or flags' page_size_2mb) (page * 2 ^ 21))
    is = large_page page flags' low
