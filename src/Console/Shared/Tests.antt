-- ===== src/Console/Shared/Tests.antt =====
-- Two processors that print at once: bootloader/delice_pxe/src/printf.cc with the lock of
-- includes/atomic.h.
use deliceos.Base.{◌≡◌, refl, List, [], ◌∷◌, none, some, arith}
use deliceos.Lock.{idle, holding, lock_take, lock_poll, guard_drop, step}
use deliceos.Console.Shared.{
  Spool, Act, call, try, emit, ret, update, hand_over, give_back, act, acts,
}
use deliceos.Console.Shared.Messages.{finished}
use deliceos.Console.Shared.Whole.{quiet, Whole, acts-Whole}

-- The second processor prints its first character after the whole message of the first.
abbrev both : List Act
both =
    call 0 (0x41 ∷ 0x42 ∷ [])
    ∷ call 1 (0x43 ∷ 0x44 ∷ [])
    ∷ try 1
    ∷ try 0
    ∷ emit 0
    ∷ try 1
    ∷ emit 0
    ∷ ret 0
    ∷ try 1
    ∷ emit 1
    ∷ []

abbrev after : Spool
after = record {
  spin = record { acquire = 2; release = 1; threads = idle ∷ holding ∷ [] };
  message = update (update (λ t. []) 0 (0x41 ∷ 0x42 ∷ [])) 1 (0x43 ∷ 0x44 ∷ []);
  left =
      update
        (update
          (update (update (update (λ t. []) 0 (0x41 ∷ 0x42 ∷ [])) 1 (0x43 ∷ 0x44 ∷ [])) 0
            (0x42 ∷ []))
          0 [])
        1 (0x44 ∷ []);
  out = (0, 0x41) ∷ (0, 0x42) ∷ (1, 0x43) ∷ [];
}

both_run : acts both (quiet 2) ≡ some after
unfolding acts act hand_over give_back step lock_take lock_poll guard_drop
both_run = refl

-- The lock keeps the second processor out while the first prints.
too_early :
    acts (call 0 (0x41 ∷ []) ∷ call 1 (0x43 ∷ []) ∷ try 0 ∷ try 1 ∷ emit 1 ∷ []) (quiet 2) ≡ none
unfolding acts act hand_over give_back step lock_take lock_poll guard_drop
too_early = refl

acts-Whole_example : Whole (finished (λ t. []) both) after
acts-Whole_example = acts-Whole 2 both after (omega arith) both_run
