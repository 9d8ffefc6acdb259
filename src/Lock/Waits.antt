-- ===== src/Lock/Waits.antt =====
-- Which threads wait after a step of the lock of bootloader/delice_pxe/includes/atomic.h.
use deliceos.Base.{
  set_cases, ℕ, ◌≡◌, ◌⊎◌, inl, inr, refl, sym, ap, ◌∙◌, List, Option, none, some, ◌==◌, get_elem?,
  set, lt_of_get_elem?, arith, Bool-cases, Option-cases,
}
use deliceos.Lock.{
  Phase, idle, waiting, holding, System, Action, take, poll, drop, lock_take, lock_poll, guard_drop,
  step,
}

-- The threads after a step of `t`: `t` has a new phase that lets it wait only with a new ticket.
data After (a : Action) (t : ℕ) (s s' : System) : Type 0 where
  same : s'.threads ≡ s.threads → After a t s s'
  changed :
      (q : Phase)
      → s'.threads ≡ set s.threads t q
      → ((k : ℕ) → q ≡ waiting k → a ≡ take t)
      → After a t s s'

threads_of : (r s' : System) → some r ≡ some s' → s'.threads ≡ r.threads
threads_of r s' e = cc (
    ap
      (λ (o : Option System). elim o as (λ x. List Phase) [ none ↦ r.threads | some h ↦ h.threads ])
      e)

take-After : (t : ℕ) (p : Phase) (s s' : System) → lock_take t p s ≡ some s' → After (take t) t s s'
unfolding lock_take
take-After t idle s s' e = changed (waiting s.acquire) (threads_of _ s' e) λ k h. refl
take-After t (waiting k) s s' e = absurd (ground (arith, e))
take-After t holding s s' e = absurd (ground (arith, e))

poll-After : (t : ℕ) (p : Phase) (s s' : System) → lock_poll t p s ≡ some s' → After (poll t) t s s'
unfolding lock_poll
poll-After t idle s s' e = absurd (ground (arith, e))
poll-After t (waiting k) s s' e = elim (Bool-cases (s.release == k)) [
  | inl now ↦ changed holding (threads_of _ s' (rw now at e)) λ j h. absurd (ground (arith, h))
  | inr later ↦ same (threads_of s s' (rw later at e))
]
poll-After t holding s s' e = absurd (ground (arith, e))

drop-After :
    (t : ℕ) (p : Phase) (s s' : System) → guard_drop t p s ≡ some s' → After (drop t) t s s'
unfolding guard_drop
drop-After t idle s s' e = absurd (ground (arith, e))
drop-After t (waiting k) s s' e = absurd (ground (arith, e))
drop-After t holding s s' e = changed idle (threads_of _ s' e) λ k h. absurd (ground (arith, h))

After-waited :
    (a : Action) (t : ℕ) (p : Phase) (s s' : System) (u k : ℕ)
    → get_elem? s.threads t ≡ some p
    → After a t s s'
    → get_elem? s'.threads u ≡ some (waiting k)
    → (a ≡ take u) ⊎ (get_elem? s.threads u ≡ some (waiting k))
After-waited a t p s s' u k here (same e) at = inr (ap (λ ps. get_elem? ps u) (sym e) ∙ at)
After-waited a t p s s' u k here (changed q e only) at =
    elim (set_cases s.threads t u q (waiting k) (lt_of_get_elem? s.threads t here)
      (ap (λ ps. get_elem? ps u) (sym e) ∙ at)) [
        | inl (is, phase) ↦ inl (only k (sym phase) ∙ ap take (sym is))
        | inr (other, before) ↦ inr before
      ]

-- A thread that waits after a step waited before, or has just taken its ticket.
pub step_waited :
    (a : Action) (s s' : System) (u k : ℕ)
    → step a s ≡ some s'
    → get_elem? s'.threads u ≡ some (waiting k)
    → (a ≡ take u) ⊎ (get_elem? s.threads u ≡ some (waiting k))
unfolding step
step_waited (take t) s s' u k e at = elim (Option-cases (get_elem? s.threads t)) [
  | inl n ↦ absurd (ground (arith, rw n at e))
  | inr (p, here) ↦ After-waited (take t) t p s s' u k here (take-After t p s s' (rw here at e)) at
]
step_waited (poll t) s s' u k e at = elim (Option-cases (get_elem? s.threads t)) [
  | inl n ↦ absurd (ground (arith, rw n at e))
  | inr (p, here) ↦ After-waited (poll t) t p s s' u k here (poll-After t p s s' (rw here at e)) at
]
step_waited (drop t) s s' u k e at = elim (Option-cases (get_elem? s.threads t)) [
  | inl n ↦ absurd (ground (arith, rw n at e))
  | inr (p, here) ↦ After-waited (drop t) t p s s' u k here (drop-After t p s s' (rw here at e)) at
]
