-- ===== src/Apic/Tests.antt =====
-- Tests of the models of bootloader/delice_pxe/src/apic.cc, and the theorems at concrete inputs.
use deliceos.Base.{ℕ, ◌<◌, ◌≡◌, ◌==◌, if◌then◌else◌, refl, arith, inr, none, some, List, [], ◌∷◌}
use deliceos.Memory.{Mem, store}
use deliceos.Apic.{walk, check_apic_id, init}
use deliceos.Apic.Rsdp.{}
use deliceos.Apic.Madt.{Chain, record_all, walk-record_all, walk_stuck, check_apic_id_lem}
use deliceos.Apic.Discover.{Unsigned, init-Unsigned}

abbrev blank : Mem
blank a = 0

blank_bytes : (a : ℕ) → blank a < 256
blank_bytes a = omega arith

blank-Unsigned : (low high : ℕ) → Unsigned blank low high
blank-Unsigned low high j less is = absurd (ground (arith, is 0))

init-Unsigned_example : init 0x5000 100 blank ≡ some blank
init-Unsigned_example =
    init-Unsigned 0x5000 100 blank blank_bytes (blank-Unsigned _ _) (blank-Unsigned _ _)

-- A table that ends at 0x118 and holds the processors 0 and 1, at 0x108 and 0x110; behind its end
-- there happens to be what reads as the processor 7.
abbrev firmware : Mem
firmware a =
    if a == 0x109
    then 8
    else if a == 0x111
    then 8
    else if a == 0x119
    then 8
    else if a == 0x112
    then 1
    else if a == 0x11a
    then 7
    else 0

firmware_bytes : (a : ℕ) → firmware a < 256
firmware_bytes a = ground arith

-- The third structure is read although it lies behind the table.
abbrev read_there : List (ℕ × ℕ)
read_there = (0, 0) ∷ (0, 1) ∷ (0, 7) ∷ []

firmware-Chain : Chain firmware 0x118 0x100 read_there
firmware-Chain =
    (omega arith, refl, refl, (omega arith, refl, refl, (omega arith, refl, refl, omega arith)))

walk-record_all_example :
    walk 0x5000 3 firmware 0x100 0x118 ≡ some (record_all 0x5000 read_there firmware)
walk-record_all_example =
    walk-record_all 0x5000 read_there 3 firmware 0x100 0x118 firmware_bytes (inr (omega arith))
      firmware-Chain (omega arith)

behind_test : record_all 0x5000 read_there firmware 0x5007 ≡ 7
unfolding record_all store
behind_test = refl

abbrev stuck : Mem
stuck a = if a == 0x108 then 1 else 0

walk_stuck_example : walk 0x5000 1000 stuck 0x100 0x118 ≡ none
walk_stuck_example =
    walk_stuck 0x5000 1000 stuck 0x100 0x118 (omega arith) refl (λ is. absurd (omega (arith, is)))

abbrev two_cores : Mem
two_cores a = if a == 0x5001 then 1 else 0

check_apic_id_lem_example : check_apic_id 0x5000 2 two_cores 1 ≡ some 0
check_apic_id_lem_example = check_apic_id_lem 0x5000 2 two_cores 1 (omega arith) (omega arith)
