-- ===== src/Lock/Cell.antt =====
-- The value that a `Lock` of bootloader/delice_pxe/includes/atomic.h protects: a thread reads and
-- writes it through the `*` and `->` of its `Guard`, in separate steps, while others run.
pub mod Updates
mod Tests
use deliceos.Base.{ℕ, List, [], ◌∷◌, Option, none, some, ◌==◌, if◌then◌else◌, get_elem?}
use deliceos.Lock.{Phase, idle, waiting, holding, System, Action, take, poll, drop, step}

-- The lock, its value, and what each thread has read through its guard and not written back yet.
pub record Cell (T : Type 0) : Type 0 where
  pub lock : System
  pub val : T
  pub loaded : ℕ → Option T

-- `atomic` is a step of the lock, `load` a read of `cell->val`, and `store t f` the write of what `f`
-- makes of the value that `t` has read.
pub data Access (T : Type 0) : Type 0 where
  atomic : Action → Access T
  load : ℕ → Access T
  store : ℕ → (T → T) → Access T

module _ {T : Type 0} where
  abbrev pub put : (ℕ → Option T) → ℕ → Option T → ℕ → Option T
  put loaded t o u = if u == t then o else loaded u

  -- A value that was read is gone with the guard.
  abbrev pub forget : Action → (ℕ → Option T) → ℕ → Option T
  forget (take t) loaded = loaded
  forget (poll t) loaded = loaded
  forget (drop t) loaded = put loaded t none

  abbrev pub with_lock : Option System → (System → Cell T) → Option (Cell T)
  with_lock none f = none
  with_lock (some l) f = some (f l)

  unfoldable pub guard_load : ℕ → Option Phase → Cell T → Option (Cell T)
  guard_load t (some holding) s = some (record s { loaded = put s.loaded t (some s.val) })
  guard_load t (some idle) s = none
  guard_load t (some (waiting k)) s = none
  guard_load t none s = none

  unfoldable pub guard_store : ℕ → (T → T) → Option Phase → Option T → Cell T → Option (Cell T)
  guard_store t f (some holding) (some v) s =
      some (record s { val = f v; loaded = put s.loaded t none })
  guard_store t f (some holding) none s = none
  guard_store t f (some idle) o s = none
  guard_store t f (some (waiting k)) o s = none
  guard_store t f none o s = none

  -- `none`: the thread is not where it could do this.
  unfoldable pub access : Access T → Cell T → Option (Cell T)
  access (atomic a) s =
      with_lock (step a s.lock) (λ l. record s { lock = l; loaded = forget a s.loaded })
  access (load t) s = guard_load t (get_elem? s.lock.threads t) s
  access (store t f) s = guard_store t f (get_elem? s.lock.threads t) (s.loaded t) s

  abbrev pub with_cell : Option (Cell T) → (Cell T → Option (Cell T)) → Option (Cell T)
  with_cell none f = none
  with_cell (some s) f = f s

  unfoldable pub accesses : List (Access T) → Cell T → Option (Cell T)
  accesses [] s = some s
  accesses (a ∷ as') s = with_cell (access a s) (accesses as')
