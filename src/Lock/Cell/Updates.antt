-- ===== src/Lock/Cell/Updates.antt =====
-- No update of the value behind a `Lock` of bootloader/delice_pxe/includes/atomic.h is lost.
use deliceos.Base.{
  ℕ, ◌^◌, ◌<◌, ◌≡◌, ◌≢◌, refl, sym, subst, ap, ◌∙◌, List, [], ◌∷◌, Option, none, some, ◌==◌,
  get_elem?, arith, inl, inr, Bool-cases, Option-cases,
}
use mathlib.Core.Option.{some-injective}
use deliceos.Lock.{Phase, idle, waiting, holding, System, Action, take, poll, drop, step}
use deliceos.Lock.Fifo.{Fifo}
use deliceos.Lock.Places.{Rel}
use deliceos.Lock.Refines.{step-refines}
use deliceos.Lock.Runs.{start, empty, start-Rel, exclusive}
use deliceos.Lock.Cell.{
  Cell, Access, atomic, load, store, forget, with_lock, guard_load, guard_store, access, accesses,
}
use deliceos.Lock.Holds.{step_holds}

-- The writes, one after another.
abbrev pub updates : {T : Type 0} → List (Access T) → T → T
updates [] v = v
updates (atomic a ∷ as') v = updates as' v
updates (load t ∷ as') v = updates as' v
updates (store t f ∷ as') v = updates as' (f v)

-- What a thread has read is still the value, and it owns the lock.
record Kept {T : Type 0} (s : Cell T) (f : Fifo) : Type 0 where
  rel : Rel s.lock f
  own :
      (t : ℕ) (v : T)
      → s.loaded t ≡ some v
      → (get_elem? s.lock.threads t ≡ some holding) × (v ≡ s.val)

module _ {T : Type 0} where
  locked :
      (o : Option System) (f : System → Cell T) (s : Cell T)
      → with_lock o f ≡ some s
      → (l : System) × (o ≡ some l) × (f l ≡ s)
  locked none f s e = absurd (ground (arith, e))
  locked (some l) f s e = (l, refl, some-injective _ _ e)

  -- What is left of a value that was read, after a step of the lock.
  forgotten :
      (a : Action) (loaded : ℕ → Option T) (t : ℕ) (v : T)
      → forget a loaded t ≡ some v
      → (a ≢ drop t) × (loaded t ≡ some v)
  forgotten (take u) loaded t v e = (λ h. absurd (ground (arith, h)), e)
  forgotten (poll u) loaded t v e = (λ h. absurd (ground (arith, h)), e)
  forgotten (drop u) loaded t v e = elim (Bool-cases (t == u)) [
    | inl same ↦ absurd (ground (arith, rw same at e))
    | inr other ↦ (λ h. absurd (ground (arith, other, drop_of u t h)), rw other at e)
  ]
    where
      drop_of : (x y : ℕ) → drop x ≡ drop y → x ≡ y
      drop_of x y h =
          ap (λ (a : Action). elim a as (λ z. ℕ) [ take w ↦ w | poll w ↦ w | drop w ↦ w ]) h

  atomic-Kept :
      (a : Action) (s s' : Cell T) (f : Fifo)
      → Kept s f
      → access (atomic a) s ≡ some s'
      → (f' : Fifo) × Kept s' f' × (s'.val ≡ s.val)
  unfolding access
  atomic-Kept a s s' f k e =
      let (l, one, is) =
        locked (step a s.lock) (λ l. record s { lock = l; loaded = forget a s.loaded }) s' e in
      let (f', moved, rel) = step-refines a s.lock l f k.rel one in
      subst (λ (x : Cell T). (f' : Fifo) × Kept x f' × (x.val ≡ s.val)) is
        (
          f',
          record {
            rel = rel;
            own = λ t v got.
                let (ne, before) = forgotten a s.loaded t v got in
                let (held, same) = k.own t v before in (step_holds a t s.lock l one ne held, same);
          },
          refl,
        )

  load-Kept :
      (t : ℕ) (o : Option Phase) (s s' : Cell T) (f : Fifo)
      → get_elem? s.lock.threads t ≡ o
      → Kept s f
      → guard_load t o s ≡ some s'
      → Kept s' f × (s'.val ≡ s.val)
  unfolding guard_load
  load-Kept t none s s' f at k e = absurd (ground (arith, e))
  load-Kept t (some idle) s s' f at k e = absurd (ground (arith, e))
  load-Kept t (some (waiting n)) s s' f at k e = absurd (ground (arith, e))
  load-Kept t (some holding) s s' f at k e =
      subst (λ (x : Cell T). Kept x f × (x.val ≡ s.val)) (some-injective _ _ e)
        (
          record {
            rel = k.rel;
            own = λ u v got. elim (Bool-cases (u == t)) [
              | inl same ↦
                  let is : u ≡ t = ground arith in
                  (
                    ap (get_elem? s.lock.threads) is ∙ at,
                    sym (some-injective s.val v (rw same at got)),
                  )
              | inr other ↦ k.own u v (rw other at got)
            ];
          },
          refl,
        )

  store-Kept :
      (t : ℕ) (g : T → T) (o : Option Phase) (r : Option T) (s s' : Cell T) (f : Fifo)
      → get_elem? s.lock.threads t ≡ o
      → s.loaded t ≡ r
      → Kept s f
      → guard_store t g o r s ≡ some s'
      → Kept s' f × (s'.val ≡ g s.val)
  unfolding guard_store
  store-Kept t g none r s s' f at got k e = absurd (ground (arith, e))
  store-Kept t g (some idle) r s s' f at got k e = absurd (ground (arith, e))
  store-Kept t g (some (waiting n)) r s s' f at got k e = absurd (ground (arith, e))
  store-Kept t g (some holding) none s s' f at got k e = absurd (ground (arith, e))
  store-Kept t g (some holding) (some v) s s' f at got k e =
      subst (λ (x : Cell T). Kept x f × (x.val ≡ g s.val)) (some-injective _ _ e)
        (
          record {
            rel = k.rel;
            own = λ u w left. elim (Bool-cases (u == t)) [
              | inl same ↦ absurd (ground (arith, rw same at left))
              | inr other ↦
                  let is : u ≡ t =
                    exclusive s.lock f u t k.rel (k.own u w (rw other at left)).0 at in
                  absurd (ground (arith, other, is))
            ];
          },
          ap g (k.own t v got).1,
        )

  accesses-Kept :
      (as' : List (Access T)) (s s' : Cell T) (f : Fifo)
      → Kept s f
      → accesses as' s ≡ some s'
      → s'.val ≡ updates as' s.val
  unfolding accesses access
  accesses-Kept [] s s' f k e = ap (λ (x : Cell T). x.val) (sym (some-injective _ _ e))
  accesses-Kept (atomic a ∷ as') s s' f k e = elim (Option-cases (access (atomic a) s)) [
    | inl n ↦ absurd (ground (arith, rw (n, accesses) at e))
    | inr (s1, one) ↦
        let (f1, k1, same) = atomic-Kept a s s1 f k one in
        accesses-Kept as' s1 s' f1 k1 (rw one at e) ∙ ap (updates as') same
  ]
  accesses-Kept (load t ∷ as') s s' f k e = elim (Option-cases (access (load t) s)) [
    | inl n ↦ absurd (ground (arith, rw n at e))
    | inr (s1, one) ↦
        let (k1, same) = load-Kept t (get_elem? s.lock.threads t) s s1 f refl k one in
        accesses-Kept as' s1 s' f k1 (rw one at e) ∙ ap (updates as') same
  ]
  accesses-Kept (store t g ∷ as') s s' f k e = elim (Option-cases (access (store t g) s)) [
    | inl n ↦ absurd (ground (arith, rw n at e))
    | inr (s1, one) ↦
        let (k1, same) =
          store-Kept t g (get_elem? s.lock.threads t) (s.loaded t) s s1 f refl refl k one in
        accesses-Kept as' s1 s' f k1 (rw one at e) ∙ ap (updates as') same
  ]

  -- `Lock(T value)`, with `n` threads that have not come to it yet.
  abbrev pub fresh : ℕ → T → Cell T
  fresh n v = record { lock = start n; val = v; loaded = λ t. none }

  -- No update is lost: in every interleaving of fewer than 2 ^ 32 threads, each of which reads the value
  -- and writes what it makes of it in two steps under one guard, the value is what the writes make of
  -- the first one, one after another in their order.
  pub accesses-updates :
      (n : ℕ) (v : T) (as' : List (Access T)) (s : Cell T)
      → n < 2 ^ 32
      → accesses as' (fresh n v) ≡ some s
      → s.val ≡ updates as' v
  accesses-updates n v as' s few ran =
      accesses-Kept as' (fresh n v) s empty
        (record { rel = start-Rel n few; own = λ t w got. absurd (ground (arith, got)) }) ran
