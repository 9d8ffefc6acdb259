-- ===== src/Paging/Map.antt =====
-- The address that `map_addr` maps, as the processor finds it.
use deliceos.Base.{ℕ, ◌+◌, ◌*◌, ◌/◌, ◌%◌, ◌^◌, ◌<◌, ◌≡◌, ◌∙◌, true, some, arith, bit_or, bit_at}
use deliceos.Memory.{Mem}
use deliceos.Memory.Cells.{read, Outside}
use deliceos.Paging.{first_pml4_base, apic_pdpte, apic_pde, page_size_2mb, index, map_addr}
use deliceos.Paging.Entry.{
  put_entry_byte, index_lem, put_entry_self, put_entry-Outside, put_entry_apart, IsLargePage,
  large_page,
}
use deliceos.Paging.Walk.{set_in, walk, walk_pd}

-- The three entries after `map_addr`, which lie in three disjoint tables.
module _ (m : Mem) (vaddr phys flags : ℕ) where
  indices :
      (index 39 vaddr ≡ vaddr / 2 ^ 39 % 512)
      × (index 30 vaddr ≡ vaddr / 2 ^ 30 % 512)
      × (index 21 vaddr ≡ vaddr / 2 ^ 21 % 512)
  indices = (index_lem 39 vaddr, index_lem 30 vaddr, index_lem 21 vaddr)

  pub pml4_entry :
      read 8 (map_addr m vaddr phys flags) (first_pml4_base + 8 * (vaddr / 2 ^ 39 % 512)) ≡ 0x22003
  unfolding map_addr
  pml4_entry = rw (← index_lem 39 vaddr) (
      put_entry_apart _ apic_pde (index 21 vaddr) _ _ (omega (arith, indices))
      ∙ put_entry_apart _ apic_pdpte (index 30 vaddr) _ _ (omega (arith, indices))
      ∙ put_entry_self m first_pml4_base (index 39 vaddr) _)

  pub pdpt_entry :
      read 8 (map_addr m vaddr phys flags) (apic_pdpte + 8 * (vaddr / 2 ^ 30 % 512)) ≡ 0x23003
  unfolding map_addr
  pdpt_entry = rw (← index_lem 30 vaddr) (
      put_entry_apart _ apic_pde (index 21 vaddr) _ _ (omega (arith, indices))
      ∙ put_entry_self _ apic_pdpte (index 30 vaddr) _)

  pub pd_entry :
      read 8 (map_addr m vaddr phys flags) (apic_pde + 8 * (vaddr / 2 ^ 21 % 512))
      ≡ bit_or (bit_or flags page_size_2mb) phys % 2 ^ 64
  unfolding map_addr
  pd_entry = rw (← index_lem 21 vaddr) (put_entry_self _ apic_pde (index 21 vaddr) _)

-- What the walk makes of a directory entry for a large page.
pub walk_pd_large :
    (m : Mem) (table vaddr page flags entry : ℕ)
    → page < 2 ^ 31
    → flags % 2 ≡ 1
    → IsLargePage page flags entry
    → read 8 m (table + 8 * (vaddr / 2 ^ 21 % 512)) ≡ entry
    → walk_pd m table vaddr true
      ≡ some (record {
        phys = page * 2 ^ 21 + vaddr % 2 ^ 21;
        writable = set_in 1 flags;
        uncached = set_in 4 flags;
      })
unfolding walk_pd
walk_pd_large m table vaddr page flags entry small present is e =
    let b0 : bit_at 0 entry ≡ 1 = omega (arith, split, is_present) in
    let b7 : bit_at 7 entry ≡ 1 = omega (arith, split, large) in
    let b1 : bit_at 1 entry ≡ bit_at 1 flags = omega (arith, split, is_writable) in
    let b4 : bit_at 4 entry ≡ bit_at 4 flags = omega (arith, split, is_uncached) in
    let fr : entry / 2 ^ 21 % 2 ^ 31 ≡ page = omega (arith, split, fits) in
    rw (e, b0, b7, b1, b4, fr)
  where
    open is use {
      fits, split, present as is_present, writable as is_writable, uncached as is_uncached, large,
    }

-- The walk through the two upper tables of `map_addr`.
pub walk_large :
    (m : Mem) (vaddr : ℕ)
    → read 8 m (first_pml4_base + 8 * (vaddr / 2 ^ 39 % 512)) ≡ 0x22003
    → read 8 m (apic_pdpte + 8 * (vaddr / 2 ^ 30 % 512)) ≡ 0x23003
    → walk m first_pml4_base vaddr ≡ walk_pd m apic_pde vaddr true
unfolding walk
walk_large m vaddr e4 e3 = rw (e4, e3)

pub entry-lt :
    (page flags entry : ℕ) → page < 2 ^ 31 → IsLargePage page flags entry → entry < 2 ^ 64
entry-lt page flags entry small is = omega arith

-- After `map_addr`, with the flags below bit 21 and the present bit among them, the processor
-- translates every address of the 2 MB page around `vaddr` (its bits 21 to 47 count) to the same
-- offset in the physical page, writable and uncached as the flags say.
pub map_addr_translates :
    (m : Mem) (vaddr x page flags : ℕ)
    → page < 2 ^ 31
    → flags < 2 ^ 21
    → flags % 2 ≡ 1
    → x / 2 ^ 21 % 2 ^ 27 ≡ vaddr / 2 ^ 21 % 2 ^ 27
    → walk (map_addr m vaddr (page * 2 ^ 21) flags) first_pml4_base x
      ≡ some (record {
        phys = page * 2 ^ 21 + x % 2 ^ 21;
        writable = set_in 1 flags;
        uncached = set_in 4 flags;
      })
map_addr_translates m vaddr x page flags small low present same =
    walk_large (map_addr m vaddr (page * 2 ^ 21) flags) x
      (rw i39 (pml4_entry m vaddr (page * 2 ^ 21) flags))
      (rw i30 (pdpt_entry m vaddr (page * 2 ^ 21) flags))
    ∙ walk_pd_large (map_addr m vaddr (page * 2 ^ 21) flags) apic_pde x page flags _ small present
        is
        (rw i21
          (pd_entry m vaddr (page * 2 ^ 21) flags ∙ omega (arith, entry-lt page flags _ small is)))
  where
    i39 : x / 2 ^ 39 % 512 ≡ vaddr / 2 ^ 39 % 512
    i39 = omega arith

    i30 : x / 2 ^ 30 % 512 ≡ vaddr / 2 ^ 30 % 512
    i30 = omega arith

    i21 : x / 2 ^ 21 % 512 ≡ vaddr / 2 ^ 21 % 512
    i21 = omega arith

    is : IsLargePage page flags (bit_or (bit_or flags page_size_2mb) (page * 2 ^ 21))
    is = large_page page flags low

-- `map_addr` changes no byte outside its three entries of eight bytes each.
pub map_addr-Outside :
    (m : Mem) (vaddr phys flags x : ℕ)
    → Outside 8 (first_pml4_base + 8 * (vaddr / 2 ^ 39 % 512)) x
    → Outside 8 (apic_pdpte + 8 * (vaddr / 2 ^ 30 % 512)) x
    → Outside 8 (apic_pde + 8 * (vaddr / 2 ^ 21 % 512)) x
    → map_addr m vaddr phys flags x ≡ m x
unfolding map_addr
map_addr-Outside m vaddr phys flags x o4 o3 o2 =
    put_entry-Outside _ apic_pde (index 21 vaddr) _ x (rw (index_lem 21 vaddr) o2)
    ∙ put_entry-Outside _ apic_pdpte (index 30 vaddr) _ x (rw (index_lem 30 vaddr) o3)
    ∙ put_entry-Outside m first_pml4_base (index 39 vaddr) _ x (rw (index_lem 39 vaddr) o4)

-- `map_addr` leaves a memory of bytes.
pub map_addr_byte :
    (m : Mem) (vaddr phys flags : ℕ)
    → ((x : ℕ) → m x < 256)
    → (x : ℕ) → map_addr m vaddr phys flags x < 256
unfolding map_addr
map_addr_byte m vaddr phys flags bytes = put_entry_byte _ apic_pde (index 21 vaddr) _ (
    put_entry_byte _ apic_pdpte (index 30 vaddr) _
      (put_entry_byte m first_pml4_base (index 39 vaddr) _ bytes))
