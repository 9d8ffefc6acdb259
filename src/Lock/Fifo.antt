-- ===== src/Lock/Fifo.antt =====
-- What a lock promises, without tickets: the threads stand in a queue, and the front may own it.
use deliceos.Base.{
  ℕ, zero, suc, ◌<◌, ◌≡◌, ◌≢◌, List, [], ◌∷◌, ◌++◌, Option, none, some, Bool, true, false, ◌==◌,
  if◌then◌else◌, length, arith, inl, inr, Option-cases,
}
use deliceos.Lock.{Action, take, poll, drop}

pub record Fifo : Type 0 where
  pub queue : List ℕ
  pub granted : Bool

abbrev pub one_more : Option ℕ → Option ℕ
one_more none = none
one_more (some i) = some (suc i)

-- The place of a thread in the queue.
unfoldable pub position : ℕ → List ℕ → Option ℕ
position t [] = none
position t (u ∷ us) = if u == t then some 0 else one_more (position t us)

abbrev pub join : Option ℕ → ℕ → Fifo → Option Fifo
join none t f = some (record f { queue = f.queue ++ (t ∷ []) })
join (some i) t f = none

-- Only the front is let in.
abbrev pub try : Option ℕ → Fifo → Option Fifo
try none f = none
try (some zero) f = if f.granted then none else some (record f { granted = true })
try (some (suc i)) f = some f

-- Only the owner, who is the front, leaves.
abbrev pub leave : ℕ → List ℕ → Bool → Option Fifo
leave t [] g = none
leave t (u ∷ us) g =
    if u == t then (if g then some (record { queue = us; granted = false }) else none) else none

unfoldable pub fifo_step : Action → Fifo → Option Fifo
fifo_step (take t) f = join (position t f.queue) t f
fifo_step (poll t) f = try (position t f.queue) f
fifo_step (drop t) f = leave t f.queue f.granted

pub position-lt : (t : ℕ) (us : List ℕ) {i : ℕ} → position t us ≡ some i → i < length us
unfolding position
position-lt t [] e = absurd (ground arith)
position-lt t (u ∷ us) {i} e = elim (Option-cases (position t us)) [
  | inl n ↦ ground arith
  | inr (j, p) ↦ ground (arith, position-lt t us p)
]

pub position-snoc_self :
    (t : ℕ) (us : List ℕ) → position t us ≡ none → position t (us ++ (t ∷ [])) ≡ some (length us)
unfolding position
position-snoc_self t [] e = ground arith
position-snoc_self t (u ∷ us) e = ground (arith, position-snoc_self t us)

pub position-snoc_ne : (t v : ℕ) (us : List ℕ) → t ≢ v → position t (us ++ (v ∷ [])) ≡ position t us
unfolding position
position-snoc_ne t v [] e = ground arith
position-snoc_ne t v (u ∷ us) e = ground (arith, position-snoc_ne t v us)
