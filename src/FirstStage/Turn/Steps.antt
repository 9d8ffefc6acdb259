-- ===== src/FirstStage/Turn/Steps.antt =====
-- At most one processor is on the boot stack of bootloader/firststage/bootloader.s: every step keeps
-- the byte `stack_wait` true.
use deliceos.Base.{
  ℕ, ◌≡◌, ◌≢◌, refl, sym, ◌∙◌, inl, inr, arith, subst, some, ◌==◌, get_elem?, set, set_cases,
  lt_of_get_elem?, get_elem?-set_self, Bool-cases, Option-cases,
}
use mathlib.Core.Option.{some-injective}
use deliceos.Memory.{store}
use deliceos.Init.{stack_wait}
use deliceos.FirstStage.Turn.{
  Stage, at_gate, inside, parked, Boot, Action, attempt, put_byte, free, wait_for_stack, store_byte,
  free_stack, step,
}

-- Either the byte is set and no processor is on the boot stack, or it is clear and one is.
pub data Turn (s : Boot) : Type 0 where
  open_gate : s.mem stack_wait ≡ 1 → ((u : ℕ) → get_elem? s.stages u ≢ some inside) → Turn s
  taken :
      (t : ℕ)
      → s.mem stack_wait ≡ 0
      → get_elem? s.stages t ≡ some inside
      → ((u : ℕ) → get_elem? s.stages u ≡ some inside → u ≡ t)
      → Turn s

pub attempt-Turn :
    (t : ℕ) (p : Stage) (s s' : Boot)
    → get_elem? s.stages t ≡ some p
    → Turn s
    → wait_for_stack t p s ≡ some s'
    → Turn s'
unfolding wait_for_stack store
attempt-Turn t inside s s' at turn e = absurd (ground (arith, e))
attempt-Turn t parked s s' at turn e = absurd (ground (arith, e))
attempt-Turn t at_gate s s' at (open_gate set_byte nobody) e =
    let s1 : Boot = record { mem = store s.mem stack_wait 0; stages = set s.stages t inside } in
    let is : s1 ≡ s' = some-injective _ _ (rw set_byte at e) in
    subst Turn is (
      taken t refl (get_elem?-set_self s.stages t inside (lt_of_get_elem? s.stages t at)) λ u now.
        elim (set_cases s.stages t u inside inside (lt_of_get_elem? s.stages t at) now) [
          | inl (same, here) ↦ same
          | inr (other, before) ↦ absurd (nobody u before)
        ])
attempt-Turn t at_gate s s' at (taken v clear is_in only) e =
    let s1 : Boot = record { mem = store s.mem stack_wait 0; stages = s.stages } in
    let is : s1 ≡ s' = some-injective _ _ (rw clear at e) in subst Turn is (taken v refl is_in only)

write-Turn : (a v : ℕ) (p : Stage) (s s' : Boot) → Turn s → store_byte a v p s ≡ some s' → Turn s'
unfolding store_byte store
write-Turn a v at_gate s s' turn e = absurd (ground (arith, e))
write-Turn a v parked s s' turn e = absurd (ground (arith, e))
write-Turn a v inside s s' turn e = elim (Bool-cases (a == stack_wait)) [
  | inl same ↦ absurd (ground (arith, rw same at e))
  | inr other ↦
      let is : record s { mem = store s.mem a v } ≡ s' = some-injective _ _ (rw other at e) in
      let kept : store s.mem a v stack_wait ≡ s.mem stack_wait = ground (arith, other) in
      subst Turn is (moved turn kept)
]
  where
    moved :
        Turn s
        → store s.mem a v stack_wait ≡ s.mem stack_wait
        → Turn (record s { mem = store s.mem a v })
    moved (open_gate set_byte nobody) kept = open_gate (kept ∙ set_byte) nobody
    moved (taken t clear is_in only) kept = taken t (kept ∙ clear) is_in only

free-Turn :
    (t : ℕ) (p : Stage) (s s' : Boot)
    → get_elem? s.stages t ≡ some p
    → Turn s
    → free_stack t p s ≡ some s'
    → Turn s'
unfolding free_stack store
free-Turn t at_gate s s' at turn e = absurd (ground (arith, e))
free-Turn t parked s s' at turn e = absurd (ground (arith, e))
free-Turn t inside s s' at (open_gate set_byte nobody) e = absurd (nobody t at)
free-Turn t inside s s' at (taken v clear is_in only) e =
    let s1 : Boot = record { mem = store s.mem stack_wait 1; stages = set s.stages t parked } in
    let is : s1 ≡ s' = some-injective _ _ e in
    subst Turn is (
      open_gate refl λ u now.
        elim (set_cases s.stages t u parked inside (lt_of_get_elem? s.stages t at) now) [
          | inl (same, here) ↦ absurd (ground (arith, here))
          | inr (other, before) ↦ absurd (other (only u before ∙ sym (only t at)))
        ])

pub step-Turn : (a : Action) (s s' : Boot) → Turn s → step a s ≡ some s' → Turn s'
unfolding step
step-Turn (attempt t) s s' turn e = elim (Option-cases (get_elem? s.stages t)) [
  | inl n ↦ absurd (ground (arith, rw n at e))
  | inr (p, at) ↦ attempt-Turn t p s s' at turn (rw at at e)
]
step-Turn (put_byte t a v) s s' turn e = elim (Option-cases (get_elem? s.stages t)) [
  | inl n ↦ absurd (ground (arith, rw n at e))
  | inr (p, at) ↦ write-Turn a v p s s' turn (rw at at e)
]
step-Turn (free t) s s' turn e = elim (Option-cases (get_elem? s.stages t)) [
  | inl n ↦ absurd (ground (arith, rw n at e))
  | inr (p, at) ↦ free-Turn t p s s' at turn (rw at at e)
]
