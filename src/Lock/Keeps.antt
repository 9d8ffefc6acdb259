-- ===== src/Lock/Keeps.antt =====
-- The relation between the lock of bootloader/delice_pxe/includes/atomic.h and the queue after each
-- step of a thread.
use deliceos.Base.{
  set_cases, ℕ, suc, ◌≡◌, ◌≢◌, refl, sym, subst, ap, ◌∙◌, List, [], ◌∷◌, ◌++◌, none, some, true,
  false, ◌==◌, length, length-append, length-set, get_elem?, set, lt_of_get_elem?, arith, inl, inr,
  Bool-cases,
}
use mathlib.Core.Path.{ap₂}
use deliceos.Lock.{idle, waiting, holding, System, fetch_add}
use deliceos.Lock.Fifo.{Fifo, one_more, position, position-lt, position-snoc_self, position-snoc_ne}
use deliceos.Lock.Places.{
  phase_at, Distinct, Rel, Distinct-snoc, last_place, phase_at_behind, phase_at_shift, front_of,
  active-set, position-behind,
}

module _ (t : ℕ) (s : System) (f : Fifo) (r : Rel s f) where
  unfoldable pub taken : System
  taken = record s { acquire = fetch_add s.acquire; threads = set s.threads t (waiting s.acquire) }

  unfoldable pub joined : Fifo
  joined = record f { queue = f.queue ++ (t ∷ []) }

  pub take-Rel : get_elem? s.threads t ≡ some idle → position t f.queue ≡ none → Rel taken joined
  unfolding taken joined
  take-Rel at out = record {
    few = omega (arith, r.few, length-set s.threads t (waiting s.acquire));
    wrapped = r.wrapped;
    tickets = omega (arith, r.tickets, length-append f.queue (t ∷ []));
    counted = omega (
      arith,
      r.counted,
      active-set s.threads t idle (waiting s.acquire) at,
      length-append f.queue (t ∷ []),
    );
    distinct = Distinct-snoc f.queue t r.distinct out;
    owned = λ e. absurd (omega (arith, ap length e, length-append f.queue (t ∷ [])));
    seated = λ u i e. elim (Bool-cases (u == t)) [
      | inl same ↦
          ground (arith, lt_of_get_elem? s.threads t at, length-set s.threads t (waiting s.acquire))
      | inr other ↦
          let ne : u ≢ t = λ e'. ground arith in
          omega (
            arith,
            length-set s.threads t (waiting s.acquire),
            r.seated u i (sym (position-snoc_ne u t f.queue ne) ∙ e),
          )
    ];
    placed = λ u p e.
        elim (set_cases s.threads t u (waiting s.acquire) p (lt_of_get_elem? s.threads t at) e) [
          | inl (same, is) ↦
              is
              ∙ last_place s.release s.acquire f.granted f.queue r.owned r.wrapped r.tickets
              ∙ ap (phase_at s.release f.granted) (
                  sym (
                    ap (λ v. position v (f.queue ++ (t ∷ []))) same
                    ∙ position-snoc_self t f.queue out))
          | inr (other, was) ↦
              r.placed u p was
              ∙ ap (phase_at s.release f.granted) (sym (position-snoc_ne u t f.queue other))
        ];
  }

  unfoldable pub entered : System
  entered = record s { threads = set s.threads t holding }

  unfoldable pub owned_now : Fifo
  owned_now = record f { granted = true }

  pub poll-Rel :
      (k : ℕ)
      → get_elem? s.threads t ≡ some (waiting k)
      → position t f.queue ≡ some 0
      → f.granted ≡ false
      → Rel entered owned_now
  unfolding entered owned_now
  poll-Rel k at first free = record {
    few = omega (arith, r.few, length-set s.threads t holding);
    wrapped = r.wrapped;
    tickets = r.tickets;
    counted = omega (arith, r.counted, active-set s.threads t (waiting k) holding at);
    distinct = r.distinct;
    owned = λ e. absurd (omega (arith, position-lt t f.queue first, ap length e));
    seated = λ u i e. omega (arith, length-set s.threads t holding, r.seated u i e);
    placed = λ u p e. elim (set_cases s.threads t u holding p (lt_of_get_elem? s.threads t at) e) [
      | inl (same, is) ↦
          is ∙ ap (phase_at s.release true) (sym (ap (λ v. position v f.queue) same ∙ first))
      | inr (other, was) ↦
          r.placed u p was
          ∙ phase_at_behind s.release f.granted true (position u f.queue) (λ z. other (
              let (us, e1) = front_of t f.queue first in
              let (vs, e2) = front_of u f.queue z in cc (e1, e2)))
    ];
  }

  unfoldable pub left_by : System
  left_by = record s { release = fetch_add s.release; threads = set s.threads t idle }

  pub drop-Rel :
      (us : List ℕ)
      → get_elem? s.threads t ≡ some holding
      → f.queue ≡ t ∷ us
      → f.granted ≡ true
      → Rel left_by (record { queue = us; granted = false })
  unfolding left_by
  drop-Rel us at first own = record {
    few = omega (arith, r.few, length-set s.threads t idle);
    wrapped = omega arith;
    tickets = omega (arith, r.tickets, ap length first);
    counted = omega (arith, r.counted, active-set s.threads t holding idle at, ap length first);
    distinct = (subst Distinct first r.distinct).1;
    owned = λ e. refl;
    seated = λ u i e. elim (Bool-cases (u == t)) [
      | inl same ↦
          let out : position u us ≡ none =
            ap (λ v. position v us) (ground arith) ∙ (subst Distinct first r.distinct).0 in
          cc
      | inr other ↦
          let ne : u ≢ t = λ e'. ground arith in
          omega (
            arith,
            length-set s.threads t idle,
            r.seated u (suc i) (ap (position u) first ∙ position-behind u t us ne ∙ ap one_more e),
          )
    ];
    placed = λ u p e. elim (set_cases s.threads t u idle p (lt_of_get_elem? s.threads t at) e) [
      | inl (same, is) ↦
          is
          ∙ ap (phase_at (fetch_add s.release) false)
              (sym (ap (λ v. position v us) same ∙ (subst Distinct first r.distinct).0))
      | inr (other, was) ↦
          r.placed u p was
          ∙ ap₂ (phase_at s.release) own (ap (position u) first)
          ∙ ap (phase_at s.release true) (position-behind u t us other)
          ∙ phase_at_shift s.release (position u us)
    ];
  }
