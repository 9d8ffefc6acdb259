-- ===== src/FirstStage/Turn/Runs.antt =====
-- Processors that boot at once through bootloader/firststage/bootloader.s.
use deliceos.Base.{
  ℕ, zero, suc, ◌≡◌, ◌≢◌, refl, inl, inr, arith, subst, List, [], ◌∷◌, some, get_elem?, set,
  lt_of_get_elem?, get_elem?-set_self, Option-cases,
}
use mathlib.Core.Option.{some-injective}
use deliceos.Memory.{Mem, store}
use deliceos.Init.{stack_wait}
use deliceos.FirstStage.Turn.{
  at_gate, inside, Boot, Action, attempt, wait_for_stack, step, run, all_at_gate,
}
use deliceos.FirstStage.Turn.Steps.{Turn, open_gate, taken, step-Turn}

run-Turn : (actions : List Action) (s s' : Boot) → Turn s → run actions s ≡ some s' → Turn s'
unfolding run
run-Turn [] s s' turn e = subst Turn (some-injective _ _ e) turn
run-Turn (a ∷ actions) s s' turn e = elim (Option-cases (step a s)) [
  | inl n ↦ absurd (ground (arith, rw n at e))
  | inr (s1, one) ↦ run-Turn actions s1 s' (step-Turn a s s1 turn one) (rw one at e)
]

nobody_inside : (n u : ℕ) → get_elem? (all_at_gate n) u ≢ some inside
nobody_inside zero u e = ground (arith, e)
nobody_inside (suc n) zero e = ground (arith, e)
nobody_inside (suc n) (suc u) e = nobody_inside n u e

-- In every interleaving in which any number of processors run the first stage and `start_kernel`, from
-- a memory with the byte `stack_wait` at 1, at most one of them is between its turn and the store that
-- frees the boot stack, whatever it writes elsewhere: if none is, the byte is 1, and it is 0 if one is.
pub boots-Turn :
    (n : ℕ) (m : Mem) (actions : List Action) (s : Boot)
    → m stack_wait ≡ 1
    → run actions (record { mem = m; stages = all_at_gate n }) ≡ some s
    → Turn s
boots-Turn n m actions s first ran = run-Turn actions _ s (open_gate first (nobody_inside n)) ran

let_in :
    (s : Boot) (t : ℕ)
    → s.mem stack_wait ≡ 1
    → get_elem? s.stages t ≡ some at_gate
    → step (attempt t) s
      ≡ some (record { mem = store s.mem stack_wait 0; stages = set s.stages t inside })
unfolding step wait_for_stack
let_in s t set_byte at = rw (at, set_byte) refl

-- As soon as no processor is on the boot stack, any that waits for it gets it in its next round.
pub boots_next :
    (n : ℕ) (m : Mem) (actions : List Action) (s : Boot) (t : ℕ)
    → m stack_wait ≡ 1
    → run actions (record { mem = m; stages = all_at_gate n }) ≡ some s
    → get_elem? s.stages t ≡ some at_gate
    → ((u : ℕ) → get_elem? s.stages u ≢ some inside)
    → (s' : Boot) × (step (attempt t) s ≡ some s') × (get_elem? s'.stages t ≡ some inside)
boots_next n m actions s t first ran at nobody = next (boots-Turn n m actions s first ran)
  where
    next :
        Turn s
        → (s' : Boot) × (step (attempt t) s ≡ some s') × (get_elem? s'.stages t ≡ some inside)
    next (open_gate set_byte none_in) = (
      record { mem = store s.mem stack_wait 0; stages = set s.stages t inside },
      let_in s t set_byte at,
      get_elem?-set_self s.stages t inside (lt_of_get_elem? s.stages t at),
    )
    next (taken v clear is_in only) = absurd (nobody v is_in)
