-- ===== src/Lock/Fair.antt =====
-- Fairness of the ticket lock of bootloader/delice_pxe/includes/atomic.h: how often a waiting thread
-- is passed over.
use deliceos.Base.{
  ℕ, zero, suc, ◌+◌, ◌-◌, ◌^◌, ◌<◌, ◌≤◌, ◌≡◌, ◌≢◌, sym, ap, ◌∙◌, List, [], ◌∷◌, ◌++◌, Option, none,
  some, Bool, ◌==◌, length, get_elem?, arith, inl, inr, Bool-cases, Option-cases, u32,
}
use deliceos.Lock.{waiting, System, Action, take, poll, drop, step, run}
use deliceos.Lock.Fifo.{Fifo, position, position-lt, position-snoc_ne, try, leave, fifo_step}
use deliceos.Lock.Places.{Rel, active-le, waiting_inv}
use deliceos.Lock.Refines.{step-refines}
use deliceos.Lock.Runs.{start, empty, start-Rel, run-Rel}

-- How many guards are dropped.
abbrev pub dropped : Action → ℕ
dropped (drop t) = 1
dropped a = 0

abbrev pub drops : List Action → ℕ
drops [] = 0
drops (a ∷ actions) = dropped a + drops actions

-- Thread `t` does not leave the lock.
abbrev pub Stays : ℕ → List Action → Type 0
Stays t [] = Unit {0}
Stays t (a ∷ actions) = (a ≢ drop t) × Stays t actions

-- The next place of a thread that stands at place `i`.
abbrev Moves : ℕ → Action → ℕ → Fifo → Type 0
Moves t a i f' = (j : ℕ) × (position t f'.queue ≡ some j) × (j + dropped a ≡ i)

queue_of : (g f' : Fifo) → some g ≡ some f' → f'.queue ≡ g.queue
queue_of g f' e =
    cc (ap (λ (o : Option Fifo). elim o as (λ x. List ℕ) [ none ↦ [] | some h ↦ h.queue ]) e)

take-Moves :
    (t v i : ℕ) (f f' : Fifo)
    → fifo_step (take v) f ≡ some f'
    → position t f.queue ≡ some i
    → Moves t (take v) i f'
unfolding fifo_step
take-Moves t v i f f' e at = elim (Option-cases (position v f.queue)) [
  | inl n ↦
      let differs : t ≢ v = λ h. absurd (ground (arith, ap (λ x. position x f.queue) h)) in
      let is : f'.queue ≡ f.queue ++ (v ∷ []) = queue_of _ f' (rw n at e) in
      (i, ap (position t) is ∙ position-snoc_ne t v f.queue differs ∙ at, omega arith)
  | inr (j, there) ↦ absurd (ground arith)
]

poll-Moves :
    (t v i : ℕ) (f f' : Fifo)
    → fifo_step (poll v) f ≡ some f'
    → position t f.queue ≡ some i
    → Moves t (poll v) i f'
unfolding fifo_step
poll-Moves t v i f f' e at = (i, ap (position t) (same (position v f.queue) e) ∙ at, omega arith)
  where
    same : (o : Option ℕ) → try o f ≡ some f' → f'.queue ≡ f.queue
    same none h = absurd (ground (arith, h))
    same (some zero) h = elim (Bool-cases f.granted) [
      | inl own ↦ absurd (ground (arith, rw own at h))
      | inr free ↦ queue_of _ f' (rw free at h)
    ]
    same (some (suc j)) h = queue_of f f' h

drop-Moves :
    (t v i : ℕ) (us : List ℕ) (g : Bool) (f' : Fifo)
    → leave v us g ≡ some f'
    → v ≢ t
    → position t us ≡ some i
    → Moves t (drop v) i f'
unfolding position
drop-Moves t v i [] g f' e ne at = absurd (ground (arith, e))
drop-Moves t v i (u ∷ us) g f' e ne at = elim (Bool-cases (u == v)) [
  | inr other ↦ absurd (ground (arith, rw other at e))
  | inl front ↦ elim (Bool-cases g) [
    | inr free ↦ absurd (ground (arith, rw (front, free) at e))
    | inl own ↦ elim (Option-cases (position t us)) [
      | inl n ↦ absurd (ground (arith, ne))
      | inr (j, there) ↦
          (j, ap (position t) (queue_of _ f' (rw (front, own) at e)) ∙ there, ground arith)
    ]
  ]
]

step-Moves :
    (t i : ℕ) (a : Action) (f f' : Fifo)
    → fifo_step a f ≡ some f'
    → a ≢ drop t
    → position t f.queue ≡ some i
    → Moves t a i f'
step-Moves t i (take v) f f' e ne at = take-Moves t v i f f' e at
step-Moves t i (poll v) f f' e ne at = poll-Moves t v i f f' e at
step-Moves t i (drop v) f f' e ne at =
    drop-Moves t v i f.queue f.granted f' (unfold fifo_step in e) (λ h. ne (ap drop h)) at

-- Every guard that is dropped moves the thread up by one place.
run-Moves :
    (actions : List Action) (t i : ℕ) (s s' : System) (f : Fifo)
    → Rel s f
    → position t f.queue ≡ some i
    → Stays t actions
    → run actions s ≡ some s'
    → drops actions ≤ i
unfolding run
run-Moves [] t i s s' f r at stays ran = omega arith
run-Moves (a ∷ actions) t i s s' f r at stays ran = elim (Option-cases (step a s)) [
  | inl n ↦ absurd (ground (arith, rw n at ran))
  | inr (s1, one) ↦
      let (f1, moved, r1) = step-refines a s s1 f r one in
      let (j, there, sum) = step-Moves t i a f f1 moved stays.0 at in
      omega (arith, sum, run-Moves actions t j s1 s' f1 r1 there stays.1 (rw one at ran))
]

-- The guards that are before a ticket, also across the wrap of the counters.
abbrev pub ahead : ℕ → System → ℕ
ahead ticket s = u32 (ticket + 2 ^ 32 - s.release)

-- A thread that waits with a ticket stands at the place of the ticket.
place_of :
    (s : System) (f : Fifo) (t k : ℕ)
    → Rel s f
    → get_elem? s.threads t ≡ some (waiting k)
    → (position t f.queue ≡ some (ahead k s)) × (ahead k s < length s.threads)
place_of s f t k r at =
    let within : length f.queue ≤ length s.threads =
      omega (arith, r.counted, active-le s.threads) in
    elim (waiting_inv s.release k f.granted _ (r.placed t (waiting k) at)) [
      | inl (first, _, same) ↦
          let here : ahead k s ≡ 0 = omega (arith, same, r.wrapped) in
          (first ∙ ap some (sym here), omega (arith, here, within, position-lt t f.queue first))
      | inr (i, behind, same) ↦
          let lt : suc i < length f.queue = position-lt t f.queue behind in
          let here : ahead k s ≡ suc i = omega (arith, same, r.wrapped, r.few, within, lt) in
          (behind ∙ ap some (sym here), omega (arith, here, within, lt))
    ]

-- Fairness: from any moment at which a thread waits with a ticket, and for as long as it does not
-- leave the lock itself, no more guards are dropped than there are between the release counter and
-- its ticket, and these are fewer than there are threads.
pub run-fair :
    (n : ℕ) (earlier actions : List Action) (s s' : System) (t ticket : ℕ)
    → n < 2 ^ 32
    → run earlier (start n) ≡ some s
    → get_elem? s.threads t ≡ some (waiting ticket)
    → Stays t actions
    → run actions s ≡ some s'
    → (drops actions ≤ ahead ticket s) × (ahead ticket s < length s.threads)
run-fair n earlier actions s s' t ticket few ran at stays then_ran =
    let (f, r) = run-Rel earlier (start n) s empty (start-Rel n few) ran in
    let (there, below) = place_of s f t ticket r at in
    (run-Moves actions t (ahead ticket s) s s' f r there stays then_ran, below)
