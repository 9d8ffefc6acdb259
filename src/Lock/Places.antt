-- ===== src/Lock/Places.antt =====
-- How the counters and tickets of the lock of bootloader/delice_pxe/includes/atomic.h stand for a
-- queue, and the facts about places in the queue that the simulation needs.
use deliceos.Base.{
  ℕ, zero, suc, ◌+◌, ◌^◌, ◌≤◌, ◌<◌, ◌≡◌, ◌≢◌, refl, ap, ◌∙◌, List, [], ◌∷◌, ◌++◌, Option, none,
  some, Bool, true, false, ◌==◌, if◌then◌else◌, length, get_elem?, set, arith, ◌⊎◌, inl, inr,
  Bool-cases, Option-cases, u32,
}
use deliceos.Lock.{Phase, idle, waiting, holding, System, fetch_add}
use deliceos.Lock.Fifo.{Fifo, one_more, position, position-snoc_ne}

-- The phase that a place in the queue stands for.
abbrev pub phase_at : ℕ → Bool → Option ℕ → Phase
phase_at release granted none = idle
phase_at release granted (some zero) = if granted then holding else waiting release
phase_at release granted (some (suc i)) = waiting (u32 (release + suc i))

abbrev pub is_active : Phase → ℕ
is_active idle = 0
is_active (waiting k) = 1
is_active holding = 1

abbrev pub active : List Phase → ℕ
active [] = 0
active (p ∷ ps) = is_active p + active ps

-- No thread stands in the queue twice.
abbrev pub Distinct : List ℕ → Type 0
Distinct [] = Unit {0}
Distinct (u ∷ us) = (position u us ≡ none) × Distinct us

pub record Rel (s : System) (f : Fifo) : Type 0 where
  pub few : length s.threads < 2 ^ 32
  pub wrapped : s.release < 2 ^ 32
  pub tickets : s.acquire ≡ u32 (s.release + length f.queue)
  pub counted : active s.threads ≡ length f.queue
  pub distinct : Distinct f.queue
  pub owned : f.queue ≡ [] → f.granted ≡ false
  pub seated : (t i : ℕ) → position t f.queue ≡ some i → t < length s.threads
  pub placed :
      (t : ℕ) (p : Phase)
      → get_elem? s.threads t ≡ some p
      → p ≡ phase_at s.release f.granted (position t f.queue)

pub active-le : (ps : List Phase) → active ps ≤ length ps
active-le [] = omega arith
active-le (idle ∷ ps) = omega (arith, active-le ps)
active-le (waiting k ∷ ps) = omega (arith, active-le ps)
active-le (holding ∷ ps) = omega (arith, active-le ps)

pub active-set :
    (ps : List Phase) (t : ℕ) (p q : Phase)
    → get_elem? ps t ≡ some p
    → active (set ps t q) + is_active p ≡ active ps + is_active q
active-set [] t p q e = absurd (ground arith)
active-set (x ∷ ps) zero p q e = ground arith
active-set (x ∷ ps) (suc t) p q e = omega (arith, active-set ps t p q e)

pub Distinct-snoc :
    (us : List ℕ) (v : ℕ) → Distinct us → position v us ≡ none → Distinct (us ++ (v ∷ []))
unfolding position
Distinct-snoc [] v d n = (refl, tt)
Distinct-snoc (u ∷ us) v d n =
    let ne : u ≢ v = λ e. ground arith in
    let later : position v us ≡ none = ground arith in
    (position-snoc_ne u v us ne ∙ d.0, Distinct-snoc us v d.1 later)

-- What a phase says of the place in the queue.
pub idle_inv : (r : ℕ) (g : Bool) (o : Option ℕ) → idle ≡ phase_at r g o → o ≡ none
idle_inv r g none e = refl
idle_inv r true (some zero) e = cc
idle_inv r false (some zero) e = cc
idle_inv r g (some (suc i)) e = cc

pub waiting_inv :
    (r k : ℕ) (g : Bool) (o : Option ℕ)
    → waiting k ≡ phase_at r g o
    → ((o ≡ some 0) × (g ≡ false) × (k ≡ r))
      ⊎ ((i : ℕ) × (o ≡ some (suc i)) × (k ≡ u32 (r + suc i)))
waiting_inv r k g none e = cc
waiting_inv r k true (some zero) e = cc
waiting_inv r k false (some zero) e = inl (refl, refl, cc)
waiting_inv r k g (some (suc i)) e = inr (i, refl, cc)

pub holding_inv :
    (r : ℕ) (g : Bool) (o : Option ℕ) → holding ≡ phase_at r g o → (o ≡ some 0) × (g ≡ true)
holding_inv r g none e = cc
holding_inv r true (some zero) e = (refl, refl)
holding_inv r false (some zero) e = cc
holding_inv r g (some (suc i)) e = cc

-- The place behind the last.
pub last_place :
    (r a : ℕ) (g : Bool) (us : List ℕ)
    → (us ≡ [] → g ≡ false)
    → r < 2 ^ 32
    → a ≡ u32 (r + length us)
    → waiting a ≡ phase_at r g (some (length us))
last_place r a g [] owned h e = rw (owned refl) (ap waiting (omega arith))
last_place r a g (u ∷ us) owned h e = ap waiting e

-- Who owns the lock matters to the front only.
pub phase_at_behind :
    (r : ℕ) (g h : Bool) (o : Option ℕ) → o ≢ some 0 → phase_at r g o ≡ phase_at r h o
phase_at_behind r g h none ne = refl
phase_at_behind r g h (some zero) ne = absurd (ne refl)
phase_at_behind r g h (some (suc i)) ne = refl

-- When the front leaves, every other place moves up with the release counter.
pub phase_at_shift :
    (r : ℕ) (o : Option ℕ) → phase_at r true (one_more o) ≡ phase_at (fetch_add r) false o
phase_at_shift r none = refl
phase_at_shift r (some zero) = refl
phase_at_shift r (some (suc i)) = ap waiting (omega arith)

pub front_of : (t : ℕ) (q : List ℕ) → position t q ≡ some 0 → (us : List ℕ) × (q ≡ t ∷ us)
unfolding position
front_of t [] e = cc
front_of t (u ∷ us) e = elim (Bool-cases (u == t)) [
  | inl y ↦ (us, ap (λ v. v ∷ us) (ground arith))
  | inr n ↦ elim (Option-cases (position t us)) [
    | inl none_there ↦ absurd (ground arith)
    | inr (j, there) ↦ absurd (ground arith)
  ]
]

pub position-behind :
    (u t : ℕ) (us : List ℕ) → u ≢ t → position u (t ∷ us) ≡ one_more (position u us)
unfolding position
position-behind u t us ne = elim (Bool-cases (t == u)) [
  | inl y ↦ absurd (ne (ground arith))
  | inr n ↦ rw n
]
