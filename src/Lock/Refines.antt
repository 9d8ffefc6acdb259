-- ===== src/Lock/Refines.antt =====
-- Every atomic operation of the ticket lock of bootloader/delice_pxe/includes/atomic.h is a step of
-- the queue in `Lock/Fifo`, as long as there are fewer than 2 ^ 32 threads.
use deliceos.Base.{
  ℕ, suc, ◌+◌, ◌≡◌, ◌≢◌, refl, subst, some, false, ◌==◌, get_elem?, arith, inl, inr, Option-cases,
  u32,
}
use mathlib.Core.Option.{some-injective}
use deliceos.Lock.{Phase, idle, waiting, holding, System, Action, take, poll, drop, step}
use deliceos.Lock.Fifo.{Fifo, position, fifo_step, position-lt}
use deliceos.Lock.{lock_take, lock_poll, guard_drop}
use deliceos.Lock.Places.{Rel, idle_inv, waiting_inv, holding_inv, front_of, active-le}
use deliceos.Lock.Keeps.{taken, joined, entered, owned_now, left_by, take-Rel, poll-Rel, drop-Rel}

module _ (t : ℕ) (s : System) (f : Fifo) (r : Rel s f) where
  abbrev Simulates : Action → System → Type 0
  Simulates a s' = (f' : Fifo) × (fifo_step a f ≡ some f') × Rel s' f'

  take_at :
      (p : Phase) (s' : System)
      → get_elem? s.threads t ≡ some p
      → lock_take t p s ≡ some s'
      → Simulates (take t) s'
  unfolding lock_take fifo_step
  take_at idle s' at e =
      let out = idle_inv s.release f.granted _ (r.placed t idle at) in
      let is : (taken t s f r) ≡ s' = unfold taken in cc in
      (
        (joined t s f r),
        rw out (unfold joined in refl),
        subst (λ x. Rel x (joined t s f r)) is (take-Rel t s f r at out),
      )
  take_at (waiting k) s' at e = cc
  take_at holding s' at e = cc

  -- With fewer than 2 ^ 32 threads only the front has the ticket that is being served.
  not_first :
      (i k : ℕ) → position t f.queue ≡ some (suc i) → k ≡ u32 (s.release + suc i) → s.release ≢ k
  not_first i k behind ticket e = absurd (
      omega (arith, position-lt t f.queue behind, r.counted, active-le s.threads, r.few, r.wrapped))

  poll_at :
      (p : Phase) (s' : System)
      → get_elem? s.threads t ≡ some p
      → lock_poll t p s ≡ some s'
      → Simulates (poll t) s'
  unfolding lock_poll fifo_step
  poll_at idle s' at e = cc
  poll_at (waiting k) s' at e =
      elim (waiting_inv s.release k f.granted _ (r.placed t (waiting k) at)) [
        | inl (first, free, same) ↦
            let is : (entered t s f r) ≡ s' = unfold entered in ground arith in
            (
              (owned_now t s f r),
              rw (first, free) (unfold owned_now in refl),
              subst (λ x. Rel x (owned_now t s f r)) is (poll-Rel t s f r k at first free),
            )
        | inr (i, behind, ticket) ↦
            let other : (s.release == k) ≡ false = ground (arith, not_first i k behind ticket) in
            let is : s ≡ s' = some-injective _ _ (rw other at e) in
            (f, rw behind refl, subst (λ x. Rel x f) is r)
      ]
  poll_at holding s' at e = cc

  drop_at :
      (p : Phase) (s' : System)
      → get_elem? s.threads t ≡ some p
      → guard_drop t p s ≡ some s'
      → Simulates (drop t) s'
  unfolding guard_drop fifo_step
  drop_at idle s' at e = cc
  drop_at (waiting k) s' at e = cc
  drop_at holding s' at e =
      let (front, own) = holding_inv s.release f.granted _ (r.placed t holding at) in
      let (us, first) = front_of t f.queue front in
      let is : (left_by t s f r) ≡ s' = unfold left_by in cc in
      (
        record { queue = us; granted = false },
        rw (first, own) (ground arith),
        subst (λ x. Rel x (record { queue = us; granted = false })) is
            (drop-Rel t s f r us at first own),
      )

-- Every atomic operation of a thread is the same operation of the queue: taking a ticket joins the
-- queue at its end, a poll is let in exactly if its thread is the front and nobody owns the lock,
-- and only the owner, who is the front, leaves. The relation to the queue survives the wrap of both
-- counters, for fewer than 2 ^ 32 threads (which `Rel` says).
pub step-refines :
    (a : Action) (s s' : System) (f : Fifo)
    → Rel s f
    → step a s ≡ some s'
    → (f' : Fifo) × (fifo_step a f ≡ some f') × Rel s' f'
unfolding step
step-refines (take t) s s' f r e = elim (Option-cases (get_elem? s.threads t)) [
  | inl n ↦ absurd (ground arith)
  | inr (p, at) ↦ take_at t s f r p s' at (rw at at e)
]
step-refines (poll t) s s' f r e = elim (Option-cases (get_elem? s.threads t)) [
  | inl n ↦ absurd (ground arith)
  | inr (p, at) ↦ poll_at t s f r p s' at (rw at at e)
]
step-refines (drop t) s s' f r e = elim (Option-cases (get_elem? s.threads t)) [
  | inl n ↦ absurd (ground arith)
  | inr (p, at) ↦ drop_at t s f r p s' at (rw at at e)
]
