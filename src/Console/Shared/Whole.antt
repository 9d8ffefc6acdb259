-- ===== src/Console/Shared/Whole.antt =====
-- Messages that several processors print at once come out whole: the lock of
-- bootloader/delice_pxe/includes/atomic.h around the characters of src/printf.cc.
use deliceos.Base.{
  ℕ, ◌^◌, ◌<◌, ◌≡◌, ◌⊎◌, inl, inr, refl, sym, subst, ap, ◌∙◌, List, [], ◌∷◌, ◌++◌, Option, none,
  some, Bool, true, false, get_elem?, arith, Option-cases,
}
use mathlib.Core.List.{append_assoc, append-nil}
use mathlib.Core.Option.{some-injective}
use deliceos.Lock.{Phase, idle, waiting, holding, System, take, poll, drop, step}
use deliceos.Lock.Fifo.{Fifo, position}
use deliceos.Lock.Places.{Rel}
use deliceos.Lock.Refines.{step-refines}
use deliceos.Lock.Runs.{start, empty, start-Rel, in_range, position-front}
use deliceos.Console.Shared.{
  Spool, Act, call, try, emit, ret, with_lock, hand_over, give_back, act, acts,
}
use deliceos.Console.Shared.Messages.{marked, in_turn, Started, Inv, finished}
use deliceos.Console.Shared.Enter.{call-Inv, try-Inv}
use deliceos.Console.Shared.Leave.{emitted, emit-Inv, ret-Inv}

-- What a step of the lock gives a step of a call.
locked :
    (o : Option System) (f : System → Spool) (s : Spool)
    → with_lock o f ≡ some s
    → (spin : System) × (o ≡ some spin) × (f spin ≡ s)
locked none f s e = absurd (ground (arith, e))
locked (some spin) f s e = (spin, refl, some-injective _ _ e)

handed :
    (t : ℕ) (o : Option Phase) (cs : List ℕ) (s s' : Spool)
    → hand_over t o cs s ≡ some s'
    → (c : ℕ) × (rest : List ℕ) × (o ≡ some holding) × (cs ≡ c ∷ rest) × (emitted t c rest s ≡ s')
unfolding hand_over
handed t none cs s s' e = absurd (ground (arith, e))
handed t (some idle) cs s s' e = absurd (ground (arith, e))
handed t (some (waiting k)) cs s s' e = absurd (ground (arith, e))
handed t (some holding) [] s s' e = absurd (ground (arith, e))
handed t (some holding) (c ∷ cs) s s' e = (c, cs, refl, refl, some-injective _ _ e)

given_back :
    (t : ℕ) (cs : List ℕ) (s s' : Spool)
    → give_back t cs s ≡ some s'
    → (cs ≡ []) × (with_lock (step (drop t) s.spin) (λ spin. record s { spin = spin }) ≡ some s')
unfolding give_back
given_back t [] s s' e = (refl, e)
given_back t (c ∷ cs) s s' e = absurd (ground (arith, e))

-- The messages that are finished after one more step, and what the threads print then.
abbrev Goes : Act → Spool → Spool → List (ℕ × List ℕ) → Type 0
Goes a s s' done =
    (f' : Fifo) × (done' : List (ℕ × List ℕ)) × Inv s' f' done'
    × ((actions : List Act)
        → done ++ finished s.message (a ∷ actions) ≡ done' ++ finished s'.message actions)

act-Inv :
    (a : Act) (s s' : Spool) (f : Fifo) (done : List (ℕ × List ℕ))
    → Inv s f done
    → act a s ≡ some s'
    → Goes a s s' done
unfolding act
act-Inv (call t chars) s s' f done inv e =
    let (spin, one, is) = locked _ _ s' e in
    let (f', moved, rel) = step-refines (take t) s.spin spin f inv.rel one in
    subst (λ x. Goes (call t chars) s x done) is
      (f', done, call-Inv t chars s spin f f' done inv one moved rel, λ actions. refl)
act-Inv (try t) s s' f done inv e =
    let (spin, one, is) = locked _ _ s' e in
    let (f', moved, rel) = step-refines (poll t) s.spin spin f inv.rel one in
    subst (λ x. Goes (try t) s x done) is
      (f', done, try-Inv t s spin f f' done inv one moved rel, λ actions. refl)
act-Inv (emit t) s s' f done inv e =
    let (c, rest, at, chars, is) = handed t _ _ s s' e in
    subst (λ x. Goes (emit t) s x done) is
      (f, done, emit-Inv t c rest s f done inv at chars, λ actions. refl)
act-Inv (ret t) s s' f done inv e =
    let (nothing, freed) = given_back t _ s s' e in
    let (spin, one, is) = locked _ _ s' freed in
    let (f', moved, rel) = step-refines (drop t) s.spin spin f inv.rel one in
    subst (λ x. Goes (ret t) s x done) is
      (
        f',
        done ++ ((t, s.message t) ∷ []),
        ret-Inv t s spin f f' done inv nothing one moved rel,
        λ actions. sym (append_assoc done ((t, s.message t) ∷ []) (finished s.message actions)),
      )

acts-Inv :
    (actions : List Act) (s s' : Spool) (f : Fifo) (done : List (ℕ × List ℕ))
    → Inv s f done
    → acts actions s ≡ some s'
    → (f' : Fifo) × Inv s' f' (done ++ finished s.message actions)
unfolding acts
acts-Inv [] s s' f done inv e = (
  f,
  subst (λ x. Inv x f (done ++ [])) (some-injective _ _ e)
      (subst (λ d. Inv s f d) (sym (append-nil done)) inv),
)
acts-Inv (a ∷ actions) s s' f done inv e = elim (Option-cases (act a s)) [
  | inl n ↦ absurd (ground (arith, rw n at e))
  | inr (s1, one) ↦
      let (f1, done1, inv1, same) = act-Inv a s s1 f done inv one in
      let (f', inv') = acts-Inv actions s1 s' f1 done1 inv1 (rw one at e) in
      (f', subst (λ d. Inv s' f' d) (sym (same actions)) inv')
]

-- `n` threads that have nothing to print, and the lock that nobody has taken.
abbrev pub quiet : ℕ → Spool
quiet n = record { spin = start n; message = λ t. []; left = λ t. []; out = [] }

quiet-Inv : (n : ℕ) → n < 2 ^ 32 → Inv (quiet n) empty []
quiet-Inv n few = record { rel = start-Rel n few; started = refl; fresh = λ t k at. refl }

-- What has been printed: whole messages, and behind them what the owner of the lock has printed.
abbrev pub Whole : List (ℕ × List ℕ) → Spool → Type 0
Whole done s =
    (t : ℕ) × (printed : List ℕ) × (s.out ≡ in_turn done ++ marked t printed)
    × ((printed ≡ [])
        ⊎ ((get_elem? s.spin.threads t ≡ some holding) × (printed ++ s.left t ≡ s.message t)))

between : (s : Spool) (done : List (ℕ × List ℕ)) → s.out ≡ in_turn done → Whole done s
between s done e = (0, [], e ∙ sym (append-nil (in_turn done)), inl refl)

owner_holds :
    (s : System) (f : Fifo) (t : ℕ) (us : List ℕ)
    → Rel s f
    → f.granted ≡ true
    → f.queue ≡ t ∷ us
    → get_elem? s.threads t ≡ some holding
owner_holds s f t us r own q =
    let first : position t f.queue ≡ some 0 = ap (position t) q ∙ position-front t us in
    let (p, at) = in_range s.threads t (r.seated t 0 first) in
    at ∙ ap some (r.placed t p at ∙ rw (first, own) refl)

Started-Whole :
    (s : Spool) (done : List (ℕ × List ℕ)) (g : Bool) (q : List ℕ)
    → ((t : ℕ) (us : List ℕ) → g ≡ true → q ≡ t ∷ us → get_elem? s.spin.threads t ≡ some holding)
    → Started s done g q
    → Whole done s
Started-Whole s done true (t ∷ us) holds (printed, out_is, rest) =
    (t, printed, out_is, inr (holds t us refl refl, rest))
Started-Whole s done true [] holds h = between s done h
Started-Whole s done false q holds h = between s done h

-- Messages come out whole: in every interleaving of calls of `printf_` by fewer than 2 ^ 32 threads,
-- what has been handed to `_out_char` is the complete messages of the calls that have ended, in the
-- order in which they ended and with no character of another between, and behind them the first
-- characters of the message of the one thread that holds the lock, if any.
pub acts-Whole :
    (n : ℕ) (actions : List Act) (s : Spool)
    → n < 2 ^ 32
    → acts actions (quiet n) ≡ some s
    → Whole (finished (λ t. []) actions) s
acts-Whole n actions s few ran =
    let (f, inv) = acts-Inv actions (quiet n) s empty [] (quiet-Inv n few) ran in
    Started-Whole s (finished (λ t. []) actions) f.granted f.queue
      (λ t us own q. owner_holds s.spin f t us inv.rel own q) inv.started
