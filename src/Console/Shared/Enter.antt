-- ===== src/Console/Shared/Enter.antt =====
-- How a call of `printf_` of bootloader/delice_pxe/src/printf.cc comes to the lock: taking the ticket
-- and the loop of `lock()` leave the messages as they are.
use deliceos.Base.{
  ℕ, zero, suc, ◌≡◌, ◌≢◌, ◌⊎◌, inl, inr, refl, sym, subst, ap, ◌∙◌, List, [], ◌∷◌, ◌++◌, Option,
  none, some, Bool, true, false, ◌==◌, get_elem?, arith, Bool-cases, Option-cases,
}
use mathlib.Core.List.{append-nil}
use mathlib.Core.Option.{some-injective}
use deliceos.Lock.{waiting, System, Action, take, poll, drop, step}
use deliceos.Lock.Fifo.{Fifo, position, leave, fifo_step}
use deliceos.Lock.Fifo
use deliceos.Lock.Places.{Rel, front_of}
use deliceos.Lock.Waits.{step_waited}
use deliceos.Lock.Runs.{in_range}
use deliceos.Console.Shared.{Spool, update}
use deliceos.Console.Shared.Messages.{in_turn, Started, Inv}

same_Started :
    (s : Spool) (spin : System) (done : List (ℕ × List ℕ)) (g : Bool) (q : List ℕ)
    → Started s done g q
    → Started (record s { spin = spin }) done g q
same_Started s spin done true (t ∷ us) h = h
same_Started s spin done true [] h = h
same_Started s spin done false q h = h

-- A call leaves the owner's message alone.
join_Started :
    (s : Spool) (spin : System) (done : List (ℕ × List ℕ)) (t : ℕ) (chars : List ℕ) (g : Bool)
    (q : List ℕ)
    → position t q ≡ none
    → (q ≡ [] → g ≡ false)
    → Started s done g q
    → Started
        (record s { spin = spin; message = update s.message t chars; left = update s.left t chars })
        done
        g
        (q ++ (t ∷ []))
unfolding position
join_Started s spin done t chars false q apart owned h = h
join_Started s spin done t chars true [] apart owned h = absurd (ground (arith, owned refl))
join_Started s spin done t chars true (u ∷ us) apart owned (printed, out_is, rest) =
    elim (Bool-cases (u == t)) [
      | inl same ↦ absurd (ground (arith, rw same at apart))
      | inr other ↦ (printed, out_is, rw other rest)
    ]

abbrev called : ℕ → List ℕ → System → Spool → Spool
called t chars spin s = record s {
  spin = spin;
  message = update s.message t chars;
  left = update s.left t chars;
}

pub call-Inv :
    (t : ℕ) (chars : List ℕ) (s : Spool) (spin : System) (f f' : Fifo) (done : List (ℕ × List ℕ))
    → Inv s f done
    → step (take t) s.spin ≡ some spin
    → fifo_step (take t) f ≡ some f'
    → Rel spin f'
    → Inv (called t chars spin s) f' done
unfolding fifo_step
call-Inv t chars s spin f f' done inv e joined rel = elim (Option-cases (position t f.queue)) [
  | inr (i, there) ↦ absurd (ground (arith, rw there at joined))
  | inl apart ↦
      let is : record f { queue = f.queue ++ (t ∷ []) } ≡ f' =
        some-injective _ _ (rw apart at joined) in
      record {
        rel = rel;
        started =
            subst (λ h. Started (called t chars spin s) done h.granted h.queue) is
              (join_Started s spin done t chars f.granted f.queue apart inv.rel.owned inv.started);
        fresh = λ u k at. elim (Bool-cases (u == t)) [
          | inl same ↦ rw same refl
          | inr other ↦ elim (step_waited (take t) s.spin spin u k e at) [
            | inl own ↦ absurd (ground (arith, take_of u t own))
            | inr before ↦ rw other (inv.fresh u k before)
          ]
        ];
      }
]
  where
    take_of : (u v : ℕ) → take v ≡ take u → v ≡ u
    take_of u v h =
        ap (λ (a : Action). elim a as (λ x. ℕ) [ take w ↦ w | poll w ↦ w | drop w ↦ w ]) h

pub no_take : (a : Action) (t u : ℕ) → (a ≡ poll t) ⊎ (a ≡ drop t) → a ≢ take u
no_take a t u (inl p) h = cc (p, h)
no_take a t u (inr d) h = cc (d, h)

-- The front waits as long as nobody is let in.
front_waiting :
    (s : System) (f : Fifo) (t : ℕ)
    → Rel s f
    → position t f.queue ≡ some 0
    → f.granted ≡ false
    → get_elem? s.threads t ≡ some (waiting s.release)
front_waiting s f t r first free =
    let (p, at) = in_range s.threads t (r.seated t 0 first) in
    at ∙ ap some (r.placed t p at ∙ rw (first, free) refl)

-- The front is let in with nothing printed.
enter_Started :
    (s : Spool) (spin : System) (done : List (ℕ × List ℕ)) (g : Bool) (q : List ℕ) (t : ℕ)
    → position t q ≡ some 0
    → g ≡ false
    → s.left t ≡ s.message t
    → Started s done g q
    → Started (record s { spin = spin }) done true q
enter_Started s spin done g q t first free whole h =
    let (us, e) = front_of t q first in
    let out_is : s.out ≡ in_turn done = subst (λ b. Started s done b q) free h in
    subst (λ r. Started (record s { spin = spin }) done true r) (sym e)
      ([], out_is ∙ sym (append-nil (in_turn done)), whole)

try_cases :
    (o : Option ℕ) (f f' : Fifo)
    → Fifo.try o f ≡ some f'
    → ((o ≡ some 0) × (f.granted ≡ false) × (record f { granted = true } ≡ f')) ⊎ (f ≡ f')
try_cases none f f' e = absurd (ground (arith, e))
try_cases (some zero) f f' e = elim (Bool-cases f.granted) [
  | inl own ↦ absurd (ground (arith, rw own at e))
  | inr free ↦ inl (refl, free, some-injective _ _ (rw free at e))
]
try_cases (some (suc i)) f f' e = inr (some-injective _ _ e)

pub try-Inv :
    (t : ℕ) (s : Spool) (spin : System) (f f' : Fifo) (done : List (ℕ × List ℕ))
    → Inv s f done
    → step (poll t) s.spin ≡ some spin
    → fifo_step (poll t) f ≡ some f'
    → Rel spin f'
    → Inv (record s { spin = spin }) f' done
unfolding fifo_step
try-Inv t s spin f f' done inv e moved rel = record {
  rel = rel;
  started = elim (try_cases (position t f.queue) f f' moved) [
    | inl (first, free, is) ↦
        subst (λ h. Started (record s { spin = spin }) done h.granted h.queue) is
          (enter_Started s spin done f.granted f.queue t first free
            (inv.fresh t s.spin.release (front_waiting s.spin f t inv.rel first free)) inv.started)
    | inr is ↦
        subst (λ h. Started (record s { spin = spin }) done h.granted h.queue) is
          (same_Started s spin done f.granted f.queue inv.started)
  ];
  fresh = λ u k at. elim (step_waited (poll t) s.spin spin u k e at) [
    | inl own ↦ absurd (no_take (poll t) t u (inl refl) own)
    | inr before ↦ inv.fresh u k before
  ];
}
