-- ===== src/Lock/Holds.antt =====
-- How long a thread owns the lock of bootloader/delice_pxe/includes/atomic.h.
use deliceos.Base.{
  ℕ, ◌≡◌, ◌≢◌, sym, ap, ◌∙◌, some, ◌==◌, get_elem?, set, get_elem?-set_ne, arith, inl, inr,
  Bool-cases, Option-cases,
}
use mathlib.Core.Option.{some-injective}
use deliceos.Lock.{
  Phase, idle, waiting, holding, System, Action, take, poll, drop, lock_take, lock_poll, guard_drop,
  step,
}

threads_of : (r s' : System) → some r ≡ some s' → r.threads ≡ s'.threads
threads_of r s' e = ap (λ (s : System). s.threads) (some-injective r s' e)

-- A thread whose own phase is another keeps holding.
other_holds :
    (s s' : System) (t u : ℕ) (p q : Phase)
    → get_elem? s.threads t ≡ some p
    → p ≢ holding
    → get_elem? s.threads u ≡ some holding
    → set s.threads t q ≡ s'.threads
    → get_elem? s'.threads u ≡ some holding
other_holds s s' t u p q at ne held is =
    ap (λ ps. get_elem? ps u) (sym is)
    ∙ get_elem?-set_ne s.threads t u q
        (λ same. ne (some-injective _ _ (sym at ∙ ap (get_elem? s.threads) same ∙ held)))
    ∙ held

take_holds :
    (t u : ℕ) (p : Phase) (s s' : System)
    → get_elem? s.threads t ≡ some p
    → lock_take t p s ≡ some s'
    → get_elem? s.threads u ≡ some holding
    → get_elem? s'.threads u ≡ some holding
unfolding lock_take
take_holds t u idle s s' at e held =
    other_holds s s' t u idle (waiting s.acquire) at (λ h. absurd (ground (arith, h))) held
      (threads_of _ s' e)
take_holds t u (waiting k) s s' at e held = absurd (ground (arith, e))
take_holds t u holding s s' at e held = absurd (ground (arith, e))

poll_holds :
    (t u : ℕ) (p : Phase) (s s' : System)
    → get_elem? s.threads t ≡ some p
    → lock_poll t p s ≡ some s'
    → get_elem? s.threads u ≡ some holding
    → get_elem? s'.threads u ≡ some holding
unfolding lock_poll
poll_holds t u idle s s' at e held = absurd (ground (arith, e))
poll_holds t u (waiting k) s s' at e held = elim (Bool-cases (s.release == k)) [
  | inl now ↦
      other_holds s s' t u (waiting k) holding at (λ h. absurd (ground (arith, h))) held
        (threads_of _ s' (rw now at e))
  | inr later ↦ ap (λ ps. get_elem? ps u) (sym (threads_of s s' (rw later at e))) ∙ held
]
poll_holds t u holding s s' at e held = absurd (ground (arith, e))

drop_holds :
    (t u : ℕ) (p : Phase) (s s' : System)
    → t ≢ u
    → guard_drop t p s ≡ some s'
    → get_elem? s.threads u ≡ some holding
    → get_elem? s'.threads u ≡ some holding
unfolding guard_drop
drop_holds t u idle s s' ne e held = absurd (ground (arith, e))
drop_holds t u (waiting k) s s' ne e held = absurd (ground (arith, e))
drop_holds t u holding s s' ne e held =
    ap (λ ps. get_elem? ps u) (sym (threads_of _ s' e))
    ∙ get_elem?-set_ne s.threads t u idle ne
    ∙ held

-- A guard is kept until its thread drops it.
pub step_holds :
    (a : Action) (u : ℕ) (s s' : System)
    → step a s ≡ some s'
    → a ≢ drop u
    → get_elem? s.threads u ≡ some holding
    → get_elem? s'.threads u ≡ some holding
unfolding step
step_holds (take t) u s s' e ne held = elim (Option-cases (get_elem? s.threads t)) [
  | inl n ↦ absurd (ground (arith, rw n at e))
  | inr (p, at) ↦ take_holds t u p s s' at (rw at at e) held
]
step_holds (poll t) u s s' e ne held = elim (Option-cases (get_elem? s.threads t)) [
  | inl n ↦ absurd (ground (arith, rw n at e))
  | inr (p, at) ↦ poll_holds t u p s s' at (rw at at e) held
]
step_holds (drop t) u s s' e ne held = elim (Option-cases (get_elem? s.threads t)) [
  | inl n ↦ absurd (ground (arith, rw n at e))
  | inr (p, at) ↦ drop_holds t u p s s' (λ h. ne (ap drop h)) (rw at at e) held
]
