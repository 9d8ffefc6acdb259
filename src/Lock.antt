-- ===== src/Lock.antt =====
-- The ticket lock: `Lock` and `Guard` of bootloader/delice_pxe/includes/atomic.h, for any number of
-- threads whose atomic operations interleave. `Lock/Fifo` is what the lock promises, `Lock/Refines`
-- that it keeps the promise.
pub mod Fifo
pub mod Places
mod Keeps
pub mod Refines
pub mod Waits
pub mod Holds
pub mod Runs
pub mod Fair
pub mod Cell
mod Tests
use deliceos.Base.{
  ℕ, zero, suc, ◌+◌, ◌%◌, ◌^◌, List, [], ◌∷◌, Option, none, some, ◌==◌, if◌then◌else◌, u32,
  get_elem?, set,
}

-- Where a thread stands: outside, in the loop of `lock()` with its ticket, or owning a `Guard`.
pub data Phase : Type 0 where
  idle : Phase
  waiting : (ticket : ℕ) → Phase
  holding : Phase

-- The two counters of a `Lock`, 32 bits each, and the threads that use it.
pub record System : Type 0 where
  pub acquire : ℕ
  pub release : ℕ
  pub threads : List Phase

-- The atomic operations of a thread: `acquire.fetch_add(1)` at the start of `lock()`, one
-- `release.load()` of its loop, and `release.fetch_add(1)` of `~Guard()`.
pub data Action : Type 0 where
  take : ℕ → Action
  poll : ℕ → Action
  drop : ℕ → Action

abbrev pub fetch_add : ℕ → ℕ
fetch_add n = u32 (n + 1)

unfoldable pub lock_take : ℕ → Phase → System → Option System
lock_take t idle s =
    some (record s { acquire = fetch_add s.acquire; threads = set s.threads t (waiting s.acquire) })
lock_take t (waiting k) s = none
lock_take t holding s = none

unfoldable pub lock_poll : ℕ → Phase → System → Option System
lock_poll t idle s = none
lock_poll t (waiting ticket) s =
    some (if s.release == ticket then record s { threads = set s.threads t holding } else s)
lock_poll t holding s = none

unfoldable pub guard_drop : ℕ → Phase → System → Option System
guard_drop t idle s = none
guard_drop t (waiting k) s = none
guard_drop t holding s =
    some (record s { release = fetch_add s.release; threads = set s.threads t idle })

abbrev pub with_some : {A : Type 0} → Option A → (A → Option System) → Option System
with_some none f = none
with_some (some p) f = f p

-- `none`: the thread is not where it could do this.
unfoldable pub step : Action → System → Option System
unfolding lock_take lock_poll guard_drop
step (take t) s = with_some (get_elem? s.threads t) (λ p. lock_take t p s)
step (poll t) s = with_some (get_elem? s.threads t) (λ p. lock_poll t p s)
step (drop t) s = with_some (get_elem? s.threads t) (λ p. guard_drop t p s)

unfoldable pub run : List Action → System → Option System
run [] s = some s
run (a ∷ as') s = with_some (step a s) (run as')
