-- ===== src/Perf/Tests.antt =====
-- Tests of the models of bootloader/delice_pxe/src/perfctr.cc, and the theorems at concrete inputs.
use deliceos.Base.{ℕ, ◌+◌, ◌*◌, ◌/◌, ◌^◌, ◌≤◌, ◌<◌, ◌≡◌, ◌↔◌, refl, arith, ℤ, pos, pos_part}
use deliceos.Perf.{bits, generate_perf, binary_search}
use deliceos.Perf.Search.{Finds, IsSorted, binary_search-Finds}

-- 0, 2, 4, ...
abbrev evens : ℤ → ℤ
evens i = pos (2 * pos_part i)

evens-IsSorted : IsSorted evens 4
evens-IsSorted i j h less = omega arith

generate_perf_test : generate_perf ≡ 0x1530879
unfolding generate_perf bits
generate_perf_test = refl

binary_search_test : binary_search 5 evens (pos 0) (pos 3) (pos 6) ≡ pos 3
unfolding binary_search deliceos.Base.◌+ℤ◌ deliceos.Base.◌-ℤ◌
binary_search_test = refl

binary_search-Finds_example :
    Finds evens (pos 6) 0 4 (binary_search 5 evens (pos 0) (pos 3) (pos 6))
binary_search-Finds_example = binary_search-Finds 5 4 evens (pos 6) evens-IsSorted (omega arith)
