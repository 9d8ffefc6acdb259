-- ===== src/Lock/Runs.antt =====
-- Runs of the ticket lock of bootloader/delice_pxe/includes/atomic.h from its initial state: mutual
-- exclusion and progress.
use deliceos.Base.{
  ℕ, zero, suc, ◌^◌, ◌<◌, ◌≡◌, ◌≢◌, refl, subst, ap, ◌∙◌, List, [], ◌∷◌, none, some, false,
  if◌then◌else◌, length, get_elem?, set, get_elem?-set_self, lt_of_get_elem?, arith, inl, inr,
  Bool-cases, Option-cases,
}
use deliceos.Lock.{Phase, idle, waiting, holding, System, Action, poll, step, run}
use deliceos.Lock.Fifo.{Fifo, position, position-lt}
use deliceos.Lock.Places.{phase_at, active, Rel, holding_inv, waiting_inv, front_of}
use deliceos.Lock.Refines.{step-refines}

abbrev pub idles : ℕ → List Phase
idles zero = []
idles (suc n) = idle ∷ idles n

-- `Lock(T value)` with its two counters at 0, and `n` threads that have not come to it yet.
abbrev pub start : ℕ → System
start n = record { acquire = 0; release = 0; threads = idles n }

abbrev pub empty : Fifo
empty = record { queue = []; granted = false }

pub length-idles : (n : ℕ) → length (idles n) ≡ n
length-idles zero = refl
length-idles (suc n) = ap suc (length-idles n)

active-idles : (n : ℕ) → active (idles n) ≡ 0
active-idles zero = refl
active-idles (suc n) = omega (arith, active-idles n)

get_elem?-idles : (n t : ℕ) (p : Phase) → get_elem? (idles n) t ≡ some p → p ≡ idle
get_elem?-idles zero t p e = cc
get_elem?-idles (suc n) zero p e = cc
get_elem?-idles (suc n) (suc t) p e = get_elem?-idles n t p e

pub start-Rel : (n : ℕ) → n < 2 ^ 32 → Rel (start n) empty
start-Rel n h = record {
  few = omega (arith, length-idles n);
  wrapped = omega arith;
  tickets = refl;
  counted = active-idles n;
  distinct = tt;
  owned = λ e. refl;
  seated = unfold position in λ t i e. cc;
  placed = unfold position in λ t p e. get_elem?-idles n t p e;
}

pub run-Rel :
    (actions : List Action) (s s' : System) (f : Fifo)
    → Rel s f
    → run actions s ≡ some s'
    → (f' : Fifo) × Rel s' f'
unfolding run
run-Rel [] s s' f r e = (f, subst (λ x. Rel x f) (cc) r)
run-Rel (a ∷ actions) s s' f r e = elim (Option-cases (step a s)) [
  | inl n ↦ absurd (stuck (rw n at e))
  | inr (s1, one) ↦
      let (f1, _, r1) = step-refines a s s1 f r one in run-Rel actions s1 s' f1 r1 (rw one at e)
]
  where
    stuck : none ≡ some s' → ⊥
    stuck h = cc

pub exclusive :
    (s : System) (f : Fifo) (t u : ℕ)
    → Rel s f
    → get_elem? s.threads t ≡ some holding
    → get_elem? s.threads u ≡ some holding
    → t ≡ u
exclusive s f t u r at au =
    let (ft, _) = holding_inv s.release f.granted _ (r.placed t holding at) in
    let (fu, _) = holding_inv s.release f.granted _ (r.placed u holding au) in
    let (us, e1) = front_of t f.queue ft in let (vs, e2) = front_of u f.queue fu in cc (e1, e2)

-- Mutual exclusion: in no interleaving of fewer than 2 ^ 32 threads do two own a `Guard` at once,
-- however often the counters have wrapped.
pub run-exclusive :
    (n : ℕ) (actions : List Action) (s : System) (t u : ℕ)
    → n < 2 ^ 32
    → run actions (start n) ≡ some s
    → get_elem? s.threads t ≡ some holding
    → get_elem? s.threads u ≡ some holding
    → t ≡ u
run-exclusive n actions s t u few ran at au =
    let (f, r) = run-Rel actions (start n) s empty (start-Rel n few) ran in
    exclusive s f t u r at au

pub in_range {ℓ} :
    {A : Type ℓ} (xs : List A) (i : ℕ) → i < length xs → (a : A) × (get_elem? xs i ≡ some a)
in_range [] i h = absurd (omega arith)
in_range (x ∷ xs) zero h = (x, refl)
in_range (x ∷ xs) (suc i) h = in_range xs i (omega arith)

cons_of : (q : List ℕ) → 0 < length q → (v : ℕ) × (us : List ℕ) × (q ≡ v ∷ us)
cons_of [] h = absurd (omega arith)
cons_of (v ∷ us) h = (v, us, refl)

pub position-front : (v : ℕ) (us : List ℕ) → position v (v ∷ us) ≡ some 0
unfolding position
position-front v us = ground arith

-- If nobody owns the lock, the front of the queue waits with the ticket that is being served.
front_waits :
    (s : System) (f : Fifo) (v : ℕ) (us : List ℕ)
    → Rel s f
    → f.queue ≡ v ∷ us
    → ((u : ℕ) → get_elem? s.threads u ≢ some holding)
    → get_elem? s.threads v ≡ some (waiting s.release)
front_waits s f v us r e nobody =
    let first : position v f.queue ≡ some 0 = ap (position v) e ∙ position-front v us in
    let (p, at) = in_range s.threads v (r.seated v 0 first) in
    let is : p ≡ (if f.granted then holding else waiting s.release) =
      r.placed v p at ∙ ap (phase_at s.release f.granted) first in
    elim (Bool-cases f.granted) [
      | inl own ↦ absurd (nobody v (at ∙ ap some (rw own at is)))
      | inr free ↦ at ∙ ap some (rw free at is)
    ]

waits_in_queue :
    (s : System) (f : Fifo) (t k : ℕ)
    → Rel s f
    → get_elem? s.threads t ≡ some (waiting k)
    → 0 < length f.queue
waits_in_queue s f t k r at =
    elim (waiting_inv s.release k f.granted _ (r.placed t (waiting k) at)) [
      | inl (first, _, _) ↦ omega (arith, position-lt t f.queue first)
      | inr (i, behind, _) ↦ omega (arith, position-lt t f.queue behind)
    ]

poll_served :
    (s : System) (v : ℕ)
    → get_elem? s.threads v ≡ some (waiting s.release)
    → step (poll v) s ≡ some (record s { threads = set s.threads v holding })
unfolding step
poll_served s v at = rw at (ground arith)

-- Progress: if some thread waits in `lock()` and no thread owns a `Guard`, then one of the waiting
-- threads gets its `Guard` at its next poll.
pub run-progress :
    (n : ℕ) (actions : List Action) (s : System) (t k : ℕ)
    → n < 2 ^ 32
    → run actions (start n) ≡ some s
    → get_elem? s.threads t ≡ some (waiting k)
    → ((u : ℕ) → get_elem? s.threads u ≢ some holding)
    → (v : ℕ) × (ticket : ℕ) × (s' : System) × (get_elem? s.threads v ≡ some (waiting ticket))
      × (step (poll v) s ≡ some s')
      × (get_elem? s'.threads v ≡ some holding)
run-progress n actions s t k few ran at nobody =
    let (f, r) = run-Rel actions (start n) s empty (start-Rel n few) ran in
    let (v, us, e) = cons_of f.queue (waits_in_queue s f t k r at) in
    let there = front_waits s f v us r e nobody in
    (
      v,
      s.release,
      record s { threads = set s.threads v holding },
      there,
      poll_served s v there,
      get_elem?-set_self s.threads v holding (lt_of_get_elem? s.threads v there),
    )
