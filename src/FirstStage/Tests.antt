-- ===== src/FirstStage/Tests.antt =====
-- The theorems about bootloader/firststage/bootloader.s on a sample memory and a sample BIOS.
use deliceos.Base.{
  ℕ, zero, suc, ◌+◌, ◌≡◌, ◌≢◌, refl, List, [], ◌∷◌, some, arith, ltb, if◌then◌else◌, get_elem?, ◌≤◌,
  ◌⊎◌,
}
use deliceos.Base.{◌++◌, bit_at, ◌<◌}
use deliceos.Memory.{Mem, store}
use deliceos.Machine.{ok, load_idtr}
use deliceos.Interrupt.{Slots, cleared, load_idt}
use deliceos.Samples
use deliceos.FirstStage.Modes.{Modes, named, run_insns, enter_protected, setup_lm}
use deliceos.FirstStage.Modes.Long.{IsLong, run_insns-IsLong}
use deliceos.FirstStage.Modes.Gates.{load_idt-named}
use deliceos.Paging.{first_pml4_base, map_addr}
use deliceos.Paging.Walk.{walk}
use deliceos.Console.{Console}
use deliceos.Init.{stack_wait, entry_count, e20_entries, map_apic}
use deliceos.Init.Effects.{Does, Ready}
use deliceos.Init.Script.{said}
use deliceos.Init.Sample.{places, one_digit}
use deliceos.FirstStage.{early_page}
use deliceos.FirstStage.Identity.{itself, early_page-maps, early_page-map_addr}
use deliceos.FirstStage.Turn.{
  at_gate, inside, parked, Boot, Action, attempt, put_byte, free, wait_for_stack, store_byte,
  free_stack, step, run,
}
use deliceos.FirstStage.Turn.Steps.{Turn}
use deliceos.FirstStage.Turn.Runs.{boots-Turn, boots_next}
use deliceos.FirstStage.MemoryMap.{Bios, get_physical}
use deliceos.FirstStage.MemoryMap.Collected.{Answers}
use deliceos.FirstStage.MemoryMap.Printed.{messages, get_physical_prints}
use deliceos.FirstStage.Stacks.{apic_id, enter_long, enter_long_apart}

abbrev dirty : Mem
dirty a = 0xff

early_page-maps_example : walk (early_page dirty) first_pml4_base 0x8100 ≡ some (itself 0x8100)
early_page-maps_example = early_page-maps dirty 0x8100 (omega arith)

-- With the page of the local APIC.
early_page-map_addr_example :
    walk (map_addr (early_page dirty) 0x13370000000 0xfee00000 19) first_pml4_base 0x8100
    ≡ some (itself 0x8100)
early_page-map_addr_example =
    early_page-map_addr dirty 0x13370000000 0xfee00000 19 0x8100 (omega arith) (omega arith)

-- The first processor boots while the second waits.
abbrev boots : List Action
boots = attempt 0 ∷ attempt 1 ∷ put_byte 0 0x9000 7 ∷ attempt 1 ∷ free 0 ∷ []

abbrev set_byte : Mem
set_byte a = 1

abbrev after : Boot
after = record {
  mem =
      store (store (store (store (store set_byte stack_wait 0) stack_wait 0) 0x9000 7) stack_wait 0)
        stack_wait 1;
  stages = parked ∷ at_gate ∷ [];
}

both_boot : run boots (record { mem = set_byte; stages = at_gate ∷ at_gate ∷ [] }) ≡ some after
unfolding run step wait_for_stack store_byte free_stack store
both_boot = refl

boots-Turn_example : Turn after
boots-Turn_example = boots-Turn 2 set_byte boots after refl both_boot

boots_next_example :
    (s' : Boot) × (step (attempt 1) after ≡ some s') × (get_elem? s'.stages 1 ≡ some inside)
boots_next_example = boots_next 2 set_byte boots after 1 refl both_boot refl nobody
  where
    nobody : (u : ℕ) → get_elem? after.stages u ≢ some inside
    nobody zero e = ground (arith, e)
    nobody (suc zero) e = ground (arith, e)
    nobody (suc (suc u)) e = ground (arith, e)

-- A BIOS with two entries, of which every byte is their number.
abbrev pub two_entries : Bios
two_entries k a m = (
  if ltb (k + 1) 2 then k + 1 else 0,
  λ x. if ltb x a then m x else if ltb x (a + 24) then k else m x,
)

pub two_entries-Answers : Answers two_entries 2 (λ k i. k)
two_entries-Answers = record {
  token = λ k. k;
  first = refl;
  later = λ k more last. ground arith;
  continues = λ k a m. refl;
  writes = λ k a i m byte. ground arith;
  keeps = λ k a x m out. ground arith;
}

abbrev one_device : Console
one_device = record { devices = 0x3f8 ∷ []; acquire = 3; release = 3 }

get_physical_prints_example :
    (m' : Mem) × (get_physical two_entries 5 dirty ≡ some m')
    × Does
        (said one_digit (0x3f8 ∷ []) (messages (λ k i. k) 1 0))
        []
        (map_apic m')
        (Ready (0x3f8 ∷ []))
        (record { mem = map_apic m'; trace = [] })
        (e20_entries Samples.idle_line 5 one_digit places
          (entry_count (map_apic m'))
          0
          one_device
          (record { mem = map_apic m'; trace = [] }))
get_physical_prints_example =
    get_physical_prints two_entries 2 (λ k i. k) 5 dirty Samples.idle_line one_digit places
      one_device [] two_entries-Answers (λ dev h. (0, omega arith, refl)) refl (omega arith)
      (omega arith) (omega arith) (omega arith)

-- The second processor's stack, against that of the first.
enter_long_apart_example :
    ((enter_long (apic_id 0x01000000) + 0x4000 ≤ enter_long (apic_id 0))
      ⊎ (enter_long (apic_id 0) + 0x4000 ≤ enter_long (apic_id 0x01000000)))
    × (walk (map_apic (early_page dirty)) first_pml4_base 0x43ff8 ≡ some (itself 0x43ff8))
enter_long_apart_example =
    enter_long_apart dirty 0x01000000 0 0x43ff8 (omega arith) (unfold enter_long in omega arith)
      (unfold enter_long in omega arith)

-- A processor in real mode, as it starts.
abbrev real_mode : Modes
real_mode = record {
  cr0 = 0x60000010;
  cr3 = 0;
  cr4 = 0;
  efer = 0;
  gdtr = record { entries = []; limit = 0xffff };
  idtr = (0x3ff, 0);
  cs = 0;
  code = 0x9b000000ffff;
  segments = λ r. 0;
}

run_insns-IsLong_example :
    (modes : Modes) × (run_insns (enter_protected ++ setup_lm) real_mode ≡ some modes)
    × IsLong modes
run_insns-IsLong_example = run_insns-IsLong real_mode refl

abbrev no_gates : Slots
no_gates v = cleared

load_idt-named_example :
    (modes : Modes) × (slots : Slots) × (run_insns (enter_protected ++ setup_lm) real_mode
      ≡ some modes)
    × (load_idt (λ v. 0x8200) 0x8100 0x9000 no_gates Samples.start
        ≡ ok slots (record Samples.start { trace = load_idtr 4079 0x9000 ∷ Samples.start.trace }))
    × (bit_at 53 modes.code ≡ 1)
    × ((v : ℕ) → v < 256 → named modes.gdtr (slots v).selector ≡ some modes.code)
load_idt-named_example =
    load_idt-named real_mode (λ v. 0x8200) 0x8100 0x9000 no_gates Samples.start refl
