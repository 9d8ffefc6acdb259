-- ===== src/Paging/Walk.antt =====
-- The walk that a processor in long mode makes from the table at `cr3` (Intel SDM, volume 3,
-- 4-level paging): an independent description, against which the entries written are judged.
use deliceos.Base.{
  ℕ, ◌+◌, ◌*◌, ◌/◌, ◌%◌, ◌^◌, Bool, ◌&&◌, Option, none, some, ◌==◌, if◌then◌else◌, bit_at,
}
use deliceos.Memory.{Mem}
use deliceos.Memory.Cells.{read}

-- Bits 12 to 51 of an entry: the next table, or a page of 4 KB.
abbrev pub frame : ℕ → ℕ
frame entry = entry / 2 ^ 12 % 2 ^ 40 * 2 ^ 12

-- Where an address leads, and whether it may be written and bypasses the cache.
pub record Target : Type 0 where
  pub phys : ℕ
  pub writable : Bool
  pub uncached : Bool

abbrev pub set_in : ℕ → ℕ → Bool
set_in k entry = bit_at k entry == 1

abbrev pub target : ℕ → ℕ → Bool → Target
target entry phys w = record {
  phys = phys;
  writable = w && set_in 1 entry;
  uncached = set_in 4 entry;
}

unfoldable pub walk_pt : Mem → ℕ → ℕ → Bool → Option Target
walk_pt m table vaddr w =
    let entry = read 8 m (table + 8 * (vaddr / 2 ^ 12 % 512)) in
    if set_in 0 entry then some (target entry (frame entry + vaddr % 2 ^ 12) w) else none

unfoldable pub walk_pd : Mem → ℕ → ℕ → Bool → Option Target
walk_pd m table vaddr w =
    let entry = read 8 m (table + 8 * (vaddr / 2 ^ 21 % 512)) in
    if set_in 0 entry
    then if set_in 7 entry
      then some (target entry (entry / 2 ^ 21 % 2 ^ 31 * 2 ^ 21 + vaddr % 2 ^ 21) w)
      else walk_pt m (frame entry) vaddr (w && set_in 1 entry)
    else none

unfoldable pub walk_pdpt : Mem → ℕ → ℕ → Bool → Option Target
walk_pdpt m table vaddr w =
    let entry = read 8 m (table + 8 * (vaddr / 2 ^ 30 % 512)) in
    if set_in 0 entry
    then if set_in 7 entry
      then some (target entry (entry / 2 ^ 30 % 2 ^ 22 * 2 ^ 30 + vaddr % 2 ^ 30) w)
      else walk_pd m (frame entry) vaddr (w && set_in 1 entry)
    else none

unfoldable pub walk : Mem → ℕ → ℕ → Option Target
unfolding walk_pdpt walk_pd walk_pt
walk m cr3 vaddr =
    let entry = read 8 m (cr3 + 8 * (vaddr / 2 ^ 39 % 512)) in
    if set_in 0 entry then walk_pdpt m (frame entry) vaddr (set_in 1 entry) else none
