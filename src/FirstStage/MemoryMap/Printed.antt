-- ===== src/FirstStage/MemoryMap/Printed.antt =====
-- The memory map from `get_physical` of bootloader/firststage/bootloader.s to the messages of
-- `start_kernel` of bootloader/delice_pxe/src/init.cc.
use deliceos.Base.{
  ℕ, zero, suc, ◌+◌, ◌*◌, ◌-◌, ◌≤◌, ◌<◌, ◌≡◌, refl, ap, ◌∙◌, inl, arith, u8, ◌^◌, List, [], ◌∷◌,
  some, subst,
}
use mathlib.Core.Path.{ap₂}
use deliceos.Memory.{Mem}
use deliceos.Memory.Cells.{read}
use deliceos.Paging.Map.{map_addr-Outside}
use deliceos.Machine.{Event, Hardware}
use deliceos.Serial.Write
use deliceos.Console.{Console, Call, Formatter}
use deliceos.Console.Prints.{IsFree}
use deliceos.Init.{Places, e20_addr, e20_call, e20_entries, entry_count, map_apic}
use deliceos.Init.Effects.{Does, Ready}
use deliceos.Init.Measure.{e20_entries-Does}
use deliceos.Init.Script.{said, e20_calls}
use deliceos.FirstStage.MemoryMap.{Bios, get_physical}
use deliceos.FirstStage.MemoryMap.Collected.{Answers, get_physical-collects}

-- The messages on `left` entries from entry `k` on.
abbrev pub messages : (ℕ → Mem) → ℕ → ℕ → List Call
messages entry zero k = []
messages entry (suc left) k = e20_call (entry k) 0 ∷ messages entry left (k + 1)

read_shift :
    (n : ℕ) (m e : Mem) (a b : ℕ)
    → ((i : ℕ) → i < n → m (a + i) ≡ e (b + i))
    → read n m a ≡ read n e b
unfolding read
read_shift zero m e a b h = refl
read_shift (suc n) m e a b h =
    omega (arith, here, read_shift n m e (a + 1) (b + 1) λ i p. later i p)
  where
    here : m a ≡ e b
    here = ground (arith, h 0)

    later : (i : ℕ) → i < n → m (a + 1 + i) ≡ e (b + 1 + i)
    later i p = ground (arith, h (suc i))

call_shift :
    (m e : Mem) (a : ℕ) → ((i : ℕ) → i < 20 → m (a + i) ≡ e i) → e20_call m a ≡ e20_call e 0
call_shift m e a h =
    rw
      (
        word 8 0 a 0 (omega arith) (omega arith) refl,
        word 8 8 (a + 8) 8 (omega arith) refl refl,
        word 4 16 (a + 16) 16 (omega arith) refl refl,
      )
      refl
  where
    word : (n d x y : ℕ) → d + n ≤ 20 → x ≡ a + d → y ≡ d → read n m x ≡ read n e y
    word n d x y inside from to = read_shift n m e x y λ i small. ground (arith, h (d + i))

calls_shift :
    (entry : ℕ → Mem) (m : Mem) (left k : ℕ)
    → ((j i : ℕ) → j < k + left → i < 20 → m (e20_addr + 24 * j + i) ≡ entry j i)
    → e20_calls left k m ≡ messages entry left k
unfolding e20_calls
calls_shift entry m zero k h = refl
calls_shift entry m (suc left) k h =
    ap₂ ◌∷◌ (call_shift m (entry k) (e20_addr + 24 * k) λ i byte. h k i (omega arith) byte)
      (calls_shift entry m left (k + 1) λ j i small byte. h j i (omega arith) byte)

-- The page of the local APIC is mapped by entries that lie elsewhere.
map_apic-kept : (m : Mem) (x : ℕ) → x < 0x20000 → map_apic m x ≡ m x
map_apic-kept m x small =
    map_addr-Outside m 0x13370000000 0xfee00000 _ x (inl (omega arith)) (inl (omega arith))
      (inl (omega arith))

-- With a BIOS of from 1 to 21 entries of at least 20 bytes, which numbers them as it likes, and as much
-- fuel as there are entries, `get_physical` ends, and the loop of `start_kernel` over the memory map,
-- after the page of the local APIC is mapped, with the lock free and devices that answer, prints the
-- addresses, lengths and types of the entries as the BIOS gave them, in order and without the last, and
-- issues nothing else but port input.
pub get_physical_prints :
    (bios : Bios) (n : ℕ) (entry : ℕ → Mem) (fuel : ℕ) (m : Mem) (hw : Hardware)
    (vsnprintf : Formatter) (places : Places) (c : Console) (trace : List Event)
    → Answers bios n entry
    → Write.Answers hw fuel
    → IsFree c
    → c.acquire < 2 ^ 32
    → 1 ≤ n
    → n ≤ 21
    → n ≤ fuel
    → (m' : Mem) × (get_physical bios fuel m ≡ some m')
      × Does
          (said vsnprintf c.devices (messages entry (n - 1) 0))
          []
          (map_apic m')
          (Ready c.devices)
          (record { mem = map_apic m'; trace = trace })
          (e20_entries hw fuel vsnprintf places
            (entry_count (map_apic m'))
            0
            c
            (record { mem = map_apic m'; trace = trace }))
get_physical_prints bios n entry fuel m hw vsnprintf places c trace answers ready free word
      some_there few enough =
    let (m', runs, placed, kept, count) =
      get_physical-collects bios n entry few answers fuel m some_there enough in
    let here : entry_count (map_apic m') ≡ n - 1 =
      ap (λ v. u8 (v + 2 ^ 8 - 1)) (map_apic-kept m' (e20_addr + 0x200) (omega arith)) ∙ count in
    let calls : e20_calls (entry_count (map_apic m')) 0 (map_apic m') ≡ messages entry (n - 1) 0 =
      ap (λ x. e20_calls x 0 (map_apic m')) here
      ∙ calls_shift entry (map_apic m') (n - 1) 0 λ j i small byte.
        map_apic-kept m' (e20_addr + 24 * j + i) (omega arith) ∙ placed j i (omega arith) byte in
    (
      m',
      runs,
      subst
          (λ (calls : List Call).
            Does (said vsnprintf c.devices calls) [] (map_apic m') (Ready c.devices)
              (record { mem = map_apic m'; trace = trace })
              (e20_entries hw fuel vsnprintf places (entry_count (map_apic m')) 0 c
                (record { mem = map_apic m'; trace = trace })))
          calls
          (e20_entries-Does hw fuel ready vsnprintf places c.devices (entry_count (map_apic m')) 0 c
            (record { mem = map_apic m'; trace = trace })
            (record { free = free; word = word; same = refl })),
    )
