-- ===== src/Console/Shared/Messages.antt =====
-- What is printed when calls of `printf_` of bootloader/delice_pxe/src/printf.cc interleave: the
-- messages one after another, and the state of the calls between two steps.
use deliceos.Base.{
  ℕ, ◌≡◌, refl, sym, ap, ◌∙◌, List, [], ◌∷◌, ◌++◌, some, Bool, true, false, get_elem?,
}
use mathlib.Core.List.{append_assoc, append-nil}
use deliceos.Lock.{waiting}
use deliceos.Lock.Fifo.{Fifo}
use deliceos.Lock.Places.{Rel}
use deliceos.Console.Shared.{Spool, Act, call, try, emit, ret, update}

-- The characters of a message, marked with the thread that prints it.
abbrev pub marked : ℕ → List ℕ → List (ℕ × ℕ)
marked t [] = []
marked t (c ∷ cs) = (t, c) ∷ marked t cs

pub marked-append : (t : ℕ) (xs ys : List ℕ) → marked t (xs ++ ys) ≡ marked t xs ++ marked t ys
marked-append t [] ys = refl
marked-append t (x ∷ xs) ys = ap (λ r. (t, x) ∷ r) (marked-append t xs ys)

-- One message after another.
abbrev pub in_turn : List (ℕ × List ℕ) → List (ℕ × ℕ)
in_turn [] = []
in_turn ((t, chars) ∷ ms) = marked t chars ++ in_turn ms

pub in_turn-snoc :
    (ms : List (ℕ × List ℕ)) (t : ℕ) (chars : List ℕ)
    → in_turn (ms ++ ((t, chars) ∷ [])) ≡ in_turn ms ++ marked t chars
in_turn-snoc [] t chars = append-nil _
in_turn-snoc ((u, cs) ∷ ms) t chars =
    ap (λ r. marked u cs ++ r) (in_turn-snoc ms t chars)
    ∙ sym (append_assoc (marked u cs) (in_turn ms) (marked t chars))

-- What the owner of the lock has printed of its message, if there is an owner.
abbrev pub Started : Spool → List (ℕ × List ℕ) → Bool → List ℕ → Type 0
Started s done true (t ∷ us) =
    (printed : List ℕ) × (s.out ≡ in_turn done ++ marked t printed)
    × (printed ++ s.left t ≡ s.message t)
Started s done true [] = s.out ≡ in_turn done
Started s done false q = s.out ≡ in_turn done

pub record Inv (s : Spool) (f : Fifo) (done : List (ℕ × List ℕ)) : Type 0 where
  pub rel : Rel s.spin f
  pub started : Started s done f.granted f.queue
  pub fresh : (t k : ℕ) → get_elem? s.spin.threads t ≡ some (waiting k) → s.left t ≡ s.message t

-- The messages of the calls that have ended, in the order of their ends.
abbrev pub finished : (ℕ → List ℕ) → List Act → List (ℕ × List ℕ)
finished message [] = []
finished message (call t chars ∷ actions) = finished (update message t chars) actions
finished message (try t ∷ actions) = finished message actions
finished message (emit t ∷ actions) = finished message actions
finished message (ret t ∷ actions) = (t, message t) ∷ finished message actions
