-- ===== src/FirstStage/Turn.antt =====
-- The order in which processors boot: `.wait_for_stack` of bootloader/firststage/bootloader.s, and the
-- end of `start_kernel` of bootloader/delice_pxe/src/init.cc, which lets the next one in.
pub mod Steps
pub mod Runs
use deliceos.Base.{
  ℕ, zero, suc, ◌≡◌, ◌≢◌, refl, sym, ap, ◌∙◌, ◌⊎◌, inl, inr, arith, subst, List, [], ◌∷◌, Option,
  none, some, ◌==◌, if◌then◌else◌, true, false, get_elem?, set, set_cases, lt_of_get_elem?,
  get_elem?-set_self, Bool-cases, Option-cases,
}
use mathlib.Core.Option.{some-injective}
use deliceos.Memory.{Mem, store}
use deliceos.Init.{stack_wait}

-- Before the boot stack, on the boot stack, and behind `start_kernel`.
pub data Stage : Type 0 where
  at_gate inside parked : Stage

pub record Boot : Type 0 where
  pub mem : Mem
  pub stages : List Stage

-- `attempt` is one round of `.wait_for_stack`, `put_byte` a store of the code between it and the end
-- of `start_kernel`, and `free` the store at that end.
pub data Action : Type 0 where
  attempt : ℕ → Action
  put_byte : (t a v : ℕ) → Action
  free : ℕ → Action

-- `xor al, al`, `lock xchg byte [stack_wait], al`, `test al, al` and `jz`.
unfoldable pub wait_for_stack : ℕ → Stage → Boot → Option Boot
wait_for_stack t at_gate s =
    let al = s.mem stack_wait in
    some (record {
      mem = store s.mem stack_wait 0;
      stages = if al == 0 then s.stages else set s.stages t inside;
    })
wait_for_stack t inside s = none
wait_for_stack t parked s = none

-- A store to the byte `stack_wait` is none of these.
unfoldable pub store_byte : ℕ → ℕ → Stage → Boot → Option Boot
store_byte a v inside s =
    if a == stack_wait then none else some (record s { mem = store s.mem a v })
store_byte a v at_gate s = none
store_byte a v parked s = none

unfoldable pub free_stack : ℕ → Stage → Boot → Option Boot
free_stack t inside s =
    some (record { mem = store s.mem stack_wait 1; stages = set s.stages t parked })
free_stack t at_gate s = none
free_stack t parked s = none

abbrev pub with_stage : Option Stage → (Stage → Option Boot) → Option Boot
with_stage none f = none
with_stage (some p) f = f p

abbrev pub with_boot : Option Boot → (Boot → Option Boot) → Option Boot
with_boot none f = none
with_boot (some s) f = f s

unfoldable pub step : Action → Boot → Option Boot
step (attempt t) s = with_stage (get_elem? s.stages t) (λ p. wait_for_stack t p s)
step (put_byte t a v) s = with_stage (get_elem? s.stages t) (λ p. store_byte a v p s)
step (free t) s = with_stage (get_elem? s.stages t) (λ p. free_stack t p s)

unfoldable pub run : List Action → Boot → Option Boot
run [] s = some s
run (a ∷ as') s = with_boot (step a s) (run as')

abbrev pub all_at_gate : ℕ → List Stage
all_at_gate zero = []
all_at_gate (suc n) = at_gate ∷ all_at_gate n
