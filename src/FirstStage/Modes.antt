-- ===== src/FirstStage/Modes.antt =====
-- The change of modes in the first stage, bootloader/firststage/bootloader.s, from real mode to the
-- long mode that `start_kernel` runs in, with the two tables of segment descriptors. A step gives
-- `none` where the processor raises a fault (Intel SDM, volume 3); its level is 0 all the way.
-- `FirstStage/Modes/Long` is about the whole change.
pub mod Long
pub mod Gates
use deliceos.Base.{
  ℕ, ◌+◌, ◌-◌, ◌*◌, ◌/◌, ◌%◌, ◌^◌, ◌==◌, ltb, leb, List, [], ◌∷◌, length, get_elem?, Option, none,
  some, Bool, not, ◌&&◌, ◌||◌, bit_or, bit_at, if◌then◌else◌,
}
use deliceos.Paging.{first_pml4_base}

-- What `lgdt` loads: the entries from the base on, of 8 bytes each, and the limit.
pub record Gdt : Type 0 where
  pub entries : List ℕ
  pub limit : ℕ

abbrev pub gdt_base : List ℕ
gdt_base = 0x0000000000000000 ∷ 0x00cf9a000000ffff ∷ 0x00cf92000000ffff ∷ []

abbrev pub gdt_desc : Gdt
gdt_desc = record { entries = gdt_base; limit = 8 * length gdt_base - 1 }

abbrev pub lmgdt_base : List ℕ
lmgdt_base = 0x0000000000000000 ∷ 0x00209a0000000000 ∷ 0x0000920000000000 ∷ []

abbrev pub lmgdt : Gdt
lmgdt = record { entries = lmgdt_base; limit = 8 * length lmgdt_base - 1 }

pub data DataSegment : Type 0 where
  ds ss es fs gs : DataSegment

-- `code` is the descriptor that the processor took when it loaded cs.
pub record Modes : Type 0 where
  pub cr0 : ℕ
  pub cr3 : ℕ
  pub cr4 : ℕ
  pub efer : ℕ
  pub gdtr : Gdt
  pub idtr : ℕ × ℕ
  pub cs : ℕ
  pub code : ℕ
  pub segments : DataSegment → ℕ

abbrev pub has : ℕ → ℕ → Bool
has k v = bit_at k v == 1

-- The descriptor that a selector names: none for the null selectors, for the local table and behind
-- the limit.
abbrev pub named : Gdt → ℕ → Option ℕ
named gdt selector =
    if ltb selector 4 || has 2 selector || ltb gdt.limit (selector / 8 * 8 + 7)
    then none
    else get_elem? gdt.entries (selector / 8)

-- A present segment of code or data, of level 0, that a selector of level 0 names.
abbrev pub kernel_level : ℕ → ℕ → Bool
kernel_level selector d = (selector % 4 == 0) && has 47 d && has 44 d && (d / 2 ^ 45 % 4 == 0)

abbrev pub is_code : ℕ → Bool
is_code d = has 43 d

abbrev pub is_writable : ℕ → Bool
is_writable d = not (has 43 d) && has 41 d

abbrev pub protected : Modes → Bool
protected s = has 0 s.cr0

-- Long mode: EFER.LME with paging.
abbrev pub long_mode : Modes → Bool
long_mode s = has 8 s.efer && has 31 s.cr0

-- The instructions with their operands, those that only read a register left out.
pub data Insn : Type 0 where
  lgdt : Gdt → Insn
  lidt : (limit base : ℕ) → Insn
  or_cr0 or_cr4 : (bits : ℕ) → Insn
  mov_cr3 : (root : ℕ) → Insn
  wrmsr_efer : (edx eax : ℕ) → Insn
  mov_segment : DataSegment → (selector : ℕ) → Insn
  far_jump : (selector : ℕ) → Insn

abbrev pub put_segment : DataSegment → ℕ → (DataSegment → ℕ) → DataSegment → ℕ
put_segment ds v f ds = v
put_segment ss v f ss = v
put_segment es v f es = v
put_segment fs v f fs = v
put_segment gs v f gs = v
put_segment r v f q = f q

abbrev pub unless : {A : Type 0} → Bool → A → Option A
unless fault s = if fault then none else some s

-- Paging needs protected mode, and long mode paging also PAE and a code segment that is not 64-bit.
abbrev pub load_cr0 : ℕ → Modes → Option Modes
load_cr0 v s =
    unless
      (has 31 v
        && (not (has 0 v)
            || (has 8 s.efer && (not (has 5 s.cr4) || has 53 s.code) && not (has 31 s.cr0))))
      (record s { cr0 = v })

-- In real mode every selector can be loaded.
abbrev pub load_segment : DataSegment → ℕ → Modes → Option ℕ → Option Modes
load_segment r v s none = unless (protected s) (record s { segments = put_segment r v s.segments })
load_segment r v s (some d) =
    unless (not (kernel_level v d && is_writable d) && protected s)
      (record s { segments = put_segment r v s.segments })

abbrev pub load_code : ℕ → Modes → Option ℕ → Option Modes
load_code v s none = none
load_code v s (some d) =
    unless (not (kernel_level v d && is_code d) || (has 53 d && has 54 d && long_mode s))
      (record s { cs = v; code = d })

pub run_insn : Insn → Modes → Option Modes
run_insn (lgdt gdt) s = some (record s { gdtr = gdt })
run_insn (lidt limit base) s = some (record s { idtr = (limit, base) })
run_insn (or_cr0 bits) s = load_cr0 (bit_or s.cr0 bits) s
run_insn (or_cr4 bits) s = some (record s { cr4 = bit_or s.cr4 bits })
run_insn (mov_cr3 root) s = some (record s { cr3 = root })
run_insn (wrmsr_efer edx eax) s =
    let v = edx * 2 ^ 32 + eax in
    unless (has 31 s.cr0 && not (bit_at 8 v == bit_at 8 s.efer)) (record s { efer = v })
run_insn (mov_segment r v) s = load_segment r v s (named s.gdtr v)
run_insn (far_jump v) s = load_code v s (named s.gdtr v)

abbrev pub and_then : Option Modes → (Modes → Option Modes) → Option Modes
and_then none k = none
and_then (some s) k = k s

pub run_insns : List Insn → Modes → Option Modes
run_insns [] s = some s
run_insns (i ∷ is) s = and_then (run_insn i s) (run_insns is)

-- From `lgdt [ds:gdt_desc]` to `jmp 0x0008:entry`.
abbrev pub enter_protected : List Insn
enter_protected =
    lgdt gdt_desc
    ∷ or_cr0 0x1
    ∷ mov_segment ds 0x10
    ∷ mov_segment ss 0x10
    ∷ mov_segment es 0x10
    ∷ mov_segment fs 0x10
    ∷ mov_segment gs 0x10
    ∷ far_jump 0x0008
    ∷ []

-- From `lidt [idt]` to `jmp 0x0008:enter_long`.
abbrev pub setup_lm : List Insn
setup_lm =
    lidt 0 0
    ∷ or_cr4 (2 ^ 5)
    ∷ mov_cr3 first_pml4_base
    ∷ wrmsr_efer 0 0x00000900
    ∷ or_cr0 (2 ^ 31)
    ∷ lgdt lmgdt
    ∷ far_jump 0x0008
    ∷ []
