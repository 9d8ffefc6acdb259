-- ===== src/Lock/Cell/Tests.antt =====
-- Two threads that count: bootloader/delice_pxe/includes/atomic.h.
use deliceos.Base.{ℕ, ◌+◌, ◌≡◌, refl, List, [], ◌∷◌, none, some, arith}
use deliceos.Lock.{idle, take, poll, drop, lock_take, lock_poll, guard_drop, step}
use deliceos.Lock.Cell.{
  Cell, Access, atomic, load, store, put, guard_load, guard_store, access, accesses,
}
use deliceos.Lock.Cell.Updates.{fresh, updates, accesses-updates}

-- The second thread takes its ticket between the read and the write of the first.
abbrev count : List (Access ℕ)
count =
    atomic (take 0)
    ∷ atomic (poll 0)
    ∷ load 0
    ∷ atomic (take 1)
    ∷ atomic (poll 1)
    ∷ store 0 (λ v. v + 1)
    ∷ atomic (drop 0)
    ∷ atomic (poll 1)
    ∷ load 1
    ∷ store 1 (λ v. v + 10)
    ∷ atomic (drop 1)
    ∷ []

abbrev counted : Cell ℕ
counted = record {
  lock = record { acquire = 2; release = 2; threads = idle ∷ idle ∷ [] };
  val = 5 + 1 + 10;
  loaded =
      put (put (put (put (put (put (λ t. none) 0 (some 5)) 0 none) 0 none) 1 (some 6)) 1 none) 1
        none;
}

both_count : accesses count (fresh 2 5) ≡ some counted
unfolding accesses access guard_load guard_store step lock_take lock_poll guard_drop
both_count = refl

abbrev too_early : List (Access ℕ)
too_early = atomic (take 0) ∷ atomic (take 1) ∷ atomic (poll 0) ∷ atomic (poll 1) ∷ load 1 ∷ []

-- A thread does not read while another owns the lock.
barred : accesses too_early (fresh 2 5) ≡ none
unfolding accesses access guard_load guard_store step lock_take lock_poll guard_drop
barred = refl

accesses-updates_example : counted.val ≡ updates count 5
accesses-updates_example = accesses-updates 2 5 count counted (omega arith) both_count
