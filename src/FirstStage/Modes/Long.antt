-- ===== src/FirstStage/Modes/Long.antt =====
-- The change of modes of bootloader/firststage/bootloader.s as a whole: no instruction of it faults,
-- and where it ends.
use deliceos.Base.{
  ℕ, ◌≡◌, refl, ◌++◌, List, [], ◌∷◌, Option, none, some, ◌^◌, false, fun_ext, sym, ap, ◌∙◌, bit_or,
  bit_at, bit_at-bit_or, arith, true,
}
use deliceos.Paging.{first_pml4_base}
use deliceos.FirstStage.Modes.{
  gdt_desc, lmgdt, DataSegment, ds, ss, es, fs, gs, Modes, has, named, kernel_level, is_code,
  is_writable, Insn, run_insn, run_insns, and_then, put_segment, enter_protected, setup_lm,
}

-- In 64-bit mode at level 0, with PAE, NXE and the tables of the first stage, a segment of 64-bit code
-- in cs, a writable segment in every other segment register, and an interrupt table without an entry.
pub record IsLong (s : Modes) : Type 0 where
  pub protection : bit_at 0 s.cr0 ≡ 1
  pub paging : bit_at 31 s.cr0 ≡ 1
  pub long_enabled : bit_at 8 s.efer ≡ 1
  pub no_execute : bit_at 11 s.efer ≡ 1
  pub extension : bit_at 5 s.cr4 ≡ 1
  pub root : s.cr3 ≡ first_pml4_base
  pub code_named : named s.gdtr s.cs ≡ some s.code
  pub code_level : kernel_level s.cs s.code ≡ true
  pub code_is : is_code s.code ≡ true
  pub code_long : (bit_at 53 s.code ≡ 1) × (bit_at 54 s.code ≡ 0)
  pub data_is :
      (r : DataSegment)
      → (d : ℕ) × (named s.gdtr (s.segments r) ≡ some d)
        × (kernel_level (s.segments r) d ≡ true)
        × (is_writable d ≡ true)
  pub no_vectors : s.idtr ≡ (0, 0)

-- The state after `enter_protected`.
abbrev flat : Modes → Modes
flat s = record s {
  cr0 = bit_or s.cr0 1;
  gdtr = gdt_desc;
  cs = 8;
  code = 0x00cf9a000000ffff;
  segments = λ r. 0x10;
}

abbrev pub long : Modes → Modes
long s = record s {
  cr0 = bit_or (bit_or s.cr0 1) (2 ^ 31);
  cr3 = first_pml4_base;
  cr4 = bit_or s.cr4 (2 ^ 5);
  efer = 0x900;
  gdtr = lmgdt;
  idtr = (0, 0);
  cs = 8;
  code = 0x00209a0000000000;
  segments = λ r. 0x10;
}

abbrev everywhere : (DataSegment → ℕ) → DataSegment → ℕ
everywhere f =
    put_segment gs 0x10
      (put_segment fs 0x10 (put_segment es 0x10 (put_segment ss 0x10 (put_segment ds 0x10 f))))

everywhere_lem : (f : DataSegment → ℕ) (r : DataSegment) → everywhere f r ≡ 0x10
everywhere_lem f ds = refl
everywhere_lem f ss = refl
everywhere_lem f es = refl
everywhere_lem f fs = refl
everywhere_lem f gs = refl

enter_protected_runs :
    (s : Modes) → bit_at 31 s.cr0 ≡ 0 → run_insns enter_protected s ≡ some (flat s)
unfolding run_insns run_insn
enter_protected_runs s off =
    let still : has 31 (bit_or s.cr0 1) ≡ false = ground (arith, bit_at-bit_or 31 s.cr0 1) in
    rw still (
      ap (λ (f : DataSegment → ℕ). some (record (flat s) { segments = f }))
        (fun_ext (everywhere_lem s.segments)))

setup_lm_runs : (s : Modes) → bit_at 31 s.cr0 ≡ 0 → run_insns setup_lm (flat s) ≡ some (long s)
unfolding run_insns run_insn
setup_lm_runs s off =
    let still : has 31 (bit_or s.cr0 1) ≡ false = ground (arith, bit_at-bit_or 31 s.cr0 1) in
    let kept : has 0 (bit_or (bit_or s.cr0 1) (2 ^ 31)) ≡ true =
      ground (arith, bit_at-bit_or 0 (bit_or s.cr0 1) (2 ^ 31), bit_at-bit_or 0 s.cr0 1) in
    let set : has 31 (bit_or (bit_or s.cr0 1) (2 ^ 31)) ≡ true =
      ground (arith, bit_at-bit_or 31 (bit_or s.cr0 1) (2 ^ 31)) in
    let extended : has 5 (bit_or s.cr4 (2 ^ 5)) ≡ true =
      ground (arith, bit_at-bit_or 5 s.cr4 (2 ^ 5)) in
    rw (still, kept, set, extended) refl

and_then_assoc :
    (o : Option Modes) (f g : Modes → Option Modes)
    → and_then (and_then o f) g ≡ and_then o (λ s. and_then (f s) g)
and_then_assoc none f g = refl
and_then_assoc (some s) f g = refl

run_insns_append :
    (is js : List Insn) (s : Modes)
    → run_insns (is ++ js) s ≡ and_then (run_insns is s) (run_insns js)
unfolding run_insns
run_insns_append [] js s = refl
run_insns_append (i ∷ is) js s =
    ap (and_then (run_insn i s)) (fun_ext (run_insns_append is js))
    ∙ sym (and_then_assoc (run_insn i s) (run_insns is) (run_insns js))

pub changes_run :
    (s : Modes) → bit_at 31 s.cr0 ≡ 0 → run_insns (enter_protected ++ setup_lm) s ≡ some (long s)
changes_run s off =
    run_insns_append enter_protected setup_lm s
    ∙ rw (enter_protected_runs s off) (setup_lm_runs s off)

long-IsLong : (s : Modes) → IsLong (long s)
long-IsLong s = record {
  protection = ground (arith, bit_at-bit_or 0 (bit_or s.cr0 1) (2 ^ 31), bit_at-bit_or 0 s.cr0 1);
  paging = ground (arith, bit_at-bit_or 31 (bit_or s.cr0 1) (2 ^ 31));
  long_enabled = refl;
  no_execute = refl;
  extension = ground (arith, bit_at-bit_or 5 s.cr4 (2 ^ 5));
  root = refl;
  code_named = refl;
  code_level = refl;
  code_is = refl;
  code_long = (refl, refl);
  data_is = λ r. (0x0000920000000000, refl, refl, refl);
  no_vectors = refl;
}

-- From any state without paging, the instructions of the first stage that change the mode, in their
-- order, all run without a fault, and the processor is then in 64-bit mode: paging, with PAE and NXE,
-- through the tables at the address that `early_page` writes to, 64-bit code of level 0 in cs, a
-- present writable segment in each of the five other registers, and no entry in the interrupt table.
pub run_insns-IsLong :
    (s : Modes)
    → bit_at 31 s.cr0 ≡ 0
    → (s' : Modes) × (run_insns (enter_protected ++ setup_lm) s ≡ some s') × IsLong s'
run_insns-IsLong s off = (long s, changes_run s off, long-IsLong s)
