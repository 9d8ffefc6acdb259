-- ===== src/Console/Shared/Leave.antt =====
-- How a call of `printf_` of bootloader/delice_pxe/src/printf.cc goes on when it has the lock: one
-- more character, and the end of its message.
use deliceos.Base.{
  ℕ, ◌≡◌, ◌≢◌, inl, inr, refl, sym, subst, ap, ◌∙◌, List, [], ◌∷◌, ◌++◌, some, Bool, true, false,
  ◌==◌, get_elem?, arith, Bool-cases,
}
use mathlib.Core.List.{append_assoc, append-nil}
use mathlib.Core.Path.{ap₂}
use mathlib.Core.Option.{some-injective}
use deliceos.Lock.{waiting, holding, System, drop, step}
use deliceos.Lock.Fifo.{Fifo, leave, fifo_step}
use deliceos.Lock.Places.{Rel, holding_inv, front_of}
use deliceos.Lock.Waits.{step_waited}
use deliceos.Console.Shared.{Spool, update}
use deliceos.Console.Shared.Messages.{marked, marked-append, in_turn, in_turn-snoc, Started, Inv}
use deliceos.Console.Shared.Enter.{no_take}

owner_Started :
    (s : Spool) (done : List (ℕ × List ℕ)) (g : Bool) (q : List ℕ) (t : ℕ) (us : List ℕ)
    → g ≡ true
    → q ≡ t ∷ us
    → Started s done g q
    → Started s done true (t ∷ us)
owner_Started s done g q t us e d h =
    subst (λ r. Started s done true r) d (subst (λ b. Started s done b q) e h)

abbrev pub emitted : ℕ → ℕ → List ℕ → Spool → Spool
emitted t c cs s = record s { left = update s.left t cs; out = s.out ++ ((t, c) ∷ []) }

update_self : (f : ℕ → List ℕ) (t : ℕ) (xs : List ℕ) → update f t xs t ≡ xs
update_self f t xs = ground arith

owner_of :
    (s : System) (f : Fifo) (t : ℕ)
    → Rel s f
    → get_elem? s.threads t ≡ some holding
    → (us : List ℕ) × (f.queue ≡ t ∷ us) × (f.granted ≡ true)
owner_of s f t r at =
    let (first, own) = holding_inv s.release f.granted _ (r.placed t holding at) in
    let (us, e) = front_of t f.queue first in (us, e, own)

emit_Started :
    (s : Spool) (t c : ℕ) (cs us : List ℕ) (done : List (ℕ × List ℕ))
    → s.left t ≡ c ∷ cs
    → Started s done true (t ∷ us)
    → Started (emitted t c cs s) done true (t ∷ us)
emit_Started s t c cs us done e (printed, out_is, rest) = (
  printed ++ (c ∷ []),
  ap (λ o. o ++ ((t, c) ∷ [])) out_is
      ∙ append_assoc (in_turn done) (marked t printed) ((t, c) ∷ [])
      ∙ ap (λ r. in_turn done ++ r) (sym (marked-append t printed (c ∷ []))),
  ap (λ r. (printed ++ (c ∷ [])) ++ r) (update_self s.left t cs)
      ∙ append_assoc printed (c ∷ []) cs
      ∙ ap (λ r. printed ++ r) (sym e)
      ∙ rest,
)

pub emit-Inv :
    (t c : ℕ) (cs : List ℕ) (s : Spool) (f : Fifo) (done : List (ℕ × List ℕ))
    → Inv s f done
    → get_elem? s.spin.threads t ≡ some holding
    → s.left t ≡ c ∷ cs
    → Inv (emitted t c cs s) f done
emit-Inv t c cs s f done inv at e =
    let (us, q, own) = owner_of s.spin f t inv.rel at in
    record {
      rel = inv.rel;
      started =
          subst (λ g. Started (emitted t c cs s) done g f.queue) (sym own)
            (subst (λ r. Started (emitted t c cs s) done true r) (sym q)
              (emit_Started s t c cs us done e
                (owner_Started s done f.granted f.queue t us own q inv.started)));
      fresh = λ u k waits. elim (Bool-cases (u == t)) [
        | inl same ↦
            let is : u ≡ t = ground arith in
            absurd (apart k (sym at ∙ ap (λ v. get_elem? s.spin.threads v) (sym is) ∙ waits))
        | inr other ↦ rw other (inv.fresh u k waits)
      ];
    }
  where
    apart : (k : ℕ) → some holding ≢ some (waiting k)
    apart k h = cc

ret_Started :
    (s : Spool) (spin : System) (t : ℕ) (q : List ℕ) (g : Bool) (f' : Fifo)
    (done : List (ℕ × List ℕ))
    → leave t q g ≡ some f'
    → s.left t ≡ []
    → Started s done g q
    → Started (record s { spin = spin }) (done ++ ((t, s.message t) ∷ [])) f'.granted f'.queue
ret_Started s spin t [] g f' done e nothing h = absurd (ground (arith, e))
ret_Started s spin t (u ∷ us) false f' done e nothing h = elim (Bool-cases (u == t)) [
  | inl front ↦ absurd (ground (arith, rw front at e))
  | inr other ↦ absurd (ground (arith, rw other at e))
]
ret_Started s spin t (u ∷ us) true f' done e nothing (printed, out_is, rest) =
    elim (Bool-cases (u == t)) [
      | inr other ↦ absurd (ground (arith, rw other at e))
      | inl front ↦
          let is : record { queue = us; granted = false } ≡ f' =
            some-injective _ _ (rw front at e) in
          let u_is : u ≡ t = ground arith in
          let all : printed ≡ s.message t =
            sym (append-nil printed)
            ∙ ap (λ r. printed ++ r) (sym nothing)
            ∙ subst (λ v. printed ++ s.left v ≡ s.message v) u_is rest in
          subst
            (λ h.
              Started (record s { spin = spin }) (done ++ ((t, s.message t) ∷ [])) h.granted
                h.queue)
            is
            (out_is
              ∙ ap₂ (λ v xs. in_turn done ++ marked v xs) u_is all
              ∙ sym (in_turn-snoc done t (s.message t)))
    ]

pub ret-Inv :
    (t : ℕ) (s : Spool) (spin : System) (f f' : Fifo) (done : List (ℕ × List ℕ))
    → Inv s f done
    → s.left t ≡ []
    → step (drop t) s.spin ≡ some spin
    → fifo_step (drop t) f ≡ some f'
    → Rel spin f'
    → Inv (record s { spin = spin }) f' (done ++ ((t, s.message t) ∷ []))
unfolding fifo_step
ret-Inv t s spin f f' done inv nothing e moved rel = record {
  rel = rel;
  started = ret_Started s spin t f.queue f.granted f' done moved nothing inv.started;
  fresh = λ u k at. elim (step_waited (drop t) s.spin spin u k e at) [
    | inl own ↦ absurd (no_take (drop t) t u (inr refl) own)
    | inr before ↦ inv.fresh u k before
  ];
}
