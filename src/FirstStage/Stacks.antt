-- ===== src/FirstStage/Stacks.antt =====
-- Where bootloader/firststage/bootloader.s puts the stack of each processor.
use deliceos.Base.{
  ℕ, ◌+◌, ◌-◌, ◌*◌, ◌^◌, ◌≤◌, ◌<◌, ◌≡◌, ◌≢◌, ◌⊎◌, arith, Bool, ◌&&◌, leb, ltb, if◌then◌else◌, u16,
  u32, ◌>>>◌, some,
}
use deliceos.Memory.{Mem}
use deliceos.Paging.{first_pml4_base}
use deliceos.Paging.Walk.{walk}
use deliceos.Init.{map_apic}
use deliceos.FirstStage.{early_page}
use deliceos.FirstStage.Identity.{itself, early_page-map_addr}

-- `mov eax, dword[0xfee00020]` and `shr eax, 24`, for the word that the register holds.
abbrev pub apic_id : ℕ → ℕ
apic_id word = u32 word >>> 24

-- `cmp bp, 0x1` and `jge`, which compares as signed numbers.
abbrev pub ap_entry : ℕ → Bool
ap_entry bp = leb 1 bp && ltb bp (2 ^ 15)

-- The stack pointer with which `enter_long` goes to `start_kernel`.
unfoldable pub enter_long : ℕ → ℕ
enter_long ebp = if ap_entry (u16 ebp) then u32 (0x40000 + u32 (ebp * 0x4000)) else 0x40000

enter_long_lem : (word : ℕ) → enter_long (apic_id word) ≡ 0x40000 + apic_id word * 0x4000
unfolding enter_long
enter_long_lem word = ground arith

-- The stacks of any two processors with different identifiers are at least 16 KB apart, and with the
-- tables of the first stage and the page that `start_kernel` maps, every address of the 16 KB below a
-- stack pointer leads to itself, writable and cached.
pub enter_long_apart :
    (m : Mem) (word other x : ℕ)
    → apic_id word ≢ apic_id other
    → enter_long (apic_id word) - 0x4000 ≤ x
    → x < enter_long (apic_id word)
    → ((enter_long (apic_id word) + 0x4000 ≤ enter_long (apic_id other))
        ⊎ (enter_long (apic_id other) + 0x4000 ≤ enter_long (apic_id word)))
      × (walk (map_apic (early_page m)) first_pml4_base x ≡ some (itself x))
enter_long_apart m word other x differ from to = (
  ground (arith, enter_long_lem word, enter_long_lem other),
  early_page-map_addr m 0x13370000000 0xfee00000 _ x (omega arith)
      (omega (arith, enter_long_lem word)),
)
