-- ===== src/Lock/Tests.antt =====
-- The theorems about the ticket lock of bootloader/delice_pxe/includes/atomic.h for two threads.
use deliceos.Base.{
  ◌≤◌, ◌<◌, length, ℕ, ◌≡◌, ◌≢◌, refl, List, [], ◌∷◌, zero, suc, some, get_elem?, arith,
}
use deliceos.Lock.{idle, waiting, holding, System, Action, take, poll, drop, step, run}
use deliceos.Lock.Fifo.{Fifo, fifo_step}
use deliceos.Lock.Places.{Rel}
use deliceos.Lock.Refines.{step-refines}
use deliceos.Lock.Fair.{drops, ahead, run-fair}
use deliceos.Lock.Runs.{start, empty, start-Rel, run-exclusive, run-progress}

abbrev one_ticket : System
one_ticket = record { acquire = 1; release = 0; threads = waiting 0 ∷ idle ∷ [] }

step-refines_example : (f' : Fifo) × (fifo_step (take 0) empty ≡ some f') × Rel one_ticket f'
unfolding step
step-refines_example =
    step-refines (take 0) (start 2) one_ticket empty (start-Rel 2 (omega arith)) refl

-- Thread 1 took its ticket first; thread 0 polls in vain.
abbrev served : System
served = record { acquire = 2; release = 0; threads = waiting 1 ∷ holding ∷ [] }

abbrev schedule : List Action
schedule = take 1 ∷ take 0 ∷ poll 0 ∷ poll 1 ∷ poll 0 ∷ []

run-exclusive_example : ◌≡◌ {A = ℕ} 1 1
unfolding run step
run-exclusive_example = run-exclusive 2 schedule served 1 1 (omega arith) refl refl refl

nobody : (u : ℕ) → get_elem? one_ticket.threads u ≢ some holding
nobody zero e = cc
nobody (suc zero) e = cc
nobody (suc (suc u)) e = cc

run-progress_example :
    (v : ℕ) × (ticket : ℕ) × (s' : System) × (get_elem? one_ticket.threads v
      ≡ some (waiting ticket))
    × (step (poll v) one_ticket ≡ some s')
    × (get_elem? s'.threads v ≡ some holding)
unfolding run
run-progress_example =
    run-progress 2 (take 0 ∷ []) one_ticket 0 0 (omega arith) (unfold step in refl) refl nobody

-- Thread 0 has the second ticket, and thread 1 the first.
abbrev both_wait : System
both_wait = record { acquire = 2; release = 0; threads = waiting 1 ∷ waiting 0 ∷ [] }

abbrev passed : System
passed = record { acquire = 2; release = 1; threads = holding ∷ idle ∷ [] }

run-fair_example :
    (drops (poll 1 ∷ drop 1 ∷ poll 0 ∷ []) ≤ ahead 1 both_wait)
    × (ahead 1 both_wait < length both_wait.threads)
unfolding run step
run-fair_example =
    run-fair 2 (take 1 ∷ take 0 ∷ []) (poll 1 ∷ drop 1 ∷ poll 0 ∷ []) both_wait passed 0 1
      (omega arith) refl refl (λ e. cc, (λ e. ground arith, (λ e. cc, tt))) refl
