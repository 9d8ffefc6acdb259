-- ===== src/Elf/Main.antt =====
-- `main` of elf_parse/src/parser.cc as a whole: which sections it takes, and how it ends.
use deliceos.Base.{
  ℕ, zero, suc, ◌+◌, ◌-◌, ◌%◌, ◌≤◌, ◌<◌, ◌≡◌, refl, sym, subst, ap, ◌∙◌, ◌↔◌, ◌≢◌, Bool, true,
  false, not, List, [], ◌∷◌, map, some, ltb, ◌==◌, if◌then◌else◌, arith, get_elem?, length,
  Bool-cases, inl, inr, pos, negsuc,
}
use deliceos.Memory.{Mem}
use deliceos.Memory.Cells.{read}
use deliceos.Elf.{
  Layout, Section, flatten, Outcome, bad_signature, no_entry, assert_failed, finished, section_at,
  selected, collect, is_elf, sh_off, entry_sh, parse, main,
}
use deliceos.Elf.Image.{IsLaidOut, IsImage, flatten-IsImage}

module _ (layout : Layout) (faddr : Mem) (off : ℕ) where
  -- Every selected header among those looked at is collected.
  collect-mem :
      (left ii k : ℕ)
      → ii ≤ k
      → k < ii + left
      → selected layout faddr off (section_at layout faddr off k) ≡ true
      → (j : ℕ) × (get_elem? (collect layout faddr off left ii) j
          ≡ some (section_at layout faddr off k))
  unfolding collect
  collect-mem zero ii k h g sel = absurd (omega arith)
  collect-mem (suc left) ii k h g sel = elim (Bool-cases (k == ii)) [
    | inl same ↦ (0, here (ground arith))
    | inr other ↦
        let (j, e) = collect-mem left (ii + 1) k (ground arith) (omega arith) sel in
        elim (Bool-cases (selected layout faddr off (section_at layout faddr off ii))) [
          | inl y ↦ (suc j, rw y e)
          | inr n ↦ (j, rw n e)
        ]
  ]
    where
      here :
          k ≡ ii
          → get_elem? (collect layout faddr off (suc left) ii) 0
            ≡ some (section_at layout faddr off k)
      here e =
          let y : selected layout faddr off (section_at layout faddr off ii) ≡ true =
            ap (λ t. selected layout faddr off (section_at layout faddr off t)) (sym e) ∙ sel in
          rw y (ap (λ t. some (section_at layout faddr off t)) (sym e))

  -- All that is collected is a selected header.
  abbrev From : ℕ → ℕ → Section → Type 0
  From left ii t =
      (k : ℕ) × (ii ≤ k)
      × (k < ii + left)
      × (t ≡ section_at layout faddr off k)
      × (selected layout faddr off t ≡ true)

  From-suc : (left ii : ℕ) {t : Section} → From left (ii + 1) t → From (suc left) ii t
  From-suc left ii (k, h, g, e, y) = (k, omega arith, omega arith, e, y)

  collect-From :
      (left ii j : ℕ) {t : Section}
      → get_elem? (collect layout faddr off left ii) j ≡ some t
      → From left ii t
  unfolding collect
  collect-From zero ii j e = absurd (ground arith)
  collect-From (suc left) ii j {t} e =
      elim (Bool-cases (selected layout faddr off (section_at layout faddr off ii))) [
        | inl y ↦ first y (λ i. collect-From left (ii + 1) i) j (rw y at e)
        | inr n ↦ From-suc left ii (collect-From left (ii + 1) j (rw n at e))
      ]
    where
      first :
          selected layout faddr off (section_at layout faddr off ii) ≡ true
          → ((i : ℕ)
              → get_elem? (collect layout faddr off left (ii + 1)) i ≡ some t
              → From left (ii + 1) t)
          → (j : ℕ)
          → get_elem? (section_at layout faddr off ii ∷ collect layout faddr off left (ii + 1)) j
            ≡ some t
          → From (suc left) ii t
      first y ih zero e =
          let same : section_at layout faddr off ii ≡ t = cc in
          (
            ii,
            omega arith,
            omega arith,
            sym same,
            subst (λ s. selected layout faddr off s ≡ true) same y,
          )
      first y ih (suc j) e = From-suc left ii (ih j e)

-- The section headers that the tool takes: those with an offset other than 0 and before the
-- section header table.
module _ (layout : Layout) (faddr : Mem) where
  abbrev pub header : ℕ → Section
  header k = section_at layout faddr (sh_off layout faddr) k

  abbrev pub Taken : ℕ → Type 0
  Taken k =
      (k < entry_sh layout faddr) × (selected layout faddr (sh_off layout faddr) (header k) ≡ true)

  abbrev pub taken : List Section
  taken = collect layout faddr (sh_off layout faddr) (entry_sh layout faddr) 0

  parse_runs :
      is_elf layout faddr ≡ true
      → ltb 0 (entry_sh layout faddr) ≡ true
      → parse layout faddr ≡ flatten faddr taken
  unfolding parse
  parse_runs elf some_entry = rw (elf, some_entry)

  Taken-mem : (k : ℕ) → Taken k → (j : ℕ) × (get_elem? taken j ≡ some (header k))
  Taken-mem k (below, sel) =
      collect-mem layout faddr (sh_off layout faddr) (entry_sh layout faddr) 0 k (omega arith)
        (omega arith) sel

flatten-some :
    (faddr : Mem) (ss : List Section) (j : ℕ) {t : Section}
    → get_elem? ss j ≡ some t
    → IsLaidOut ss
    → (base : ℕ) × (out : List ℕ) × (flatten faddr ss ≡ finished (map (λ t. t.sh_offset) ss) out)
      × IsImage faddr ss base out
flatten-some faddr [] j e laid = absurd (ground arith)
flatten-some faddr (s ∷ ss) j e laid = flatten-IsImage faddr s ss laid

flatten-nil : (faddr : Mem) (ss : List Section) → ss ≡ [] → flatten faddr ss ≡ assert_failed
unfolding flatten
flatten-nil faddr [] e = refl
flatten-nil faddr (s ∷ ss) e = absurd (ground arith)

-- A run on an ELF file with at least one section taken, and with the sections taken laid out in
-- order within 32 bits, finishes. It writes the file from some `base` on without a gap, and the
-- bytes of every section taken stand in the output at their distance from `base`.
pub main-IsImage :
    (layout : Layout) (fd : ℕ) (faddr : Mem) (some_k : ℕ)
    → is_elf layout faddr ≡ true
    → Taken layout faddr some_k
    → IsLaidOut (taken layout faddr)
    → (base : ℕ) × (out : List ℕ) × (main layout (pos fd) faddr
        ≡ finished (map (λ t. t.sh_offset) (taken layout faddr)) out)
      × ((j : ℕ) → j < length out → get_elem? out j ≡ some (faddr (base + j)))
      × ((k i : ℕ)
          → Taken layout faddr k
          → i < (header layout faddr k).sh_size
          → get_elem? out ((header layout faddr k).sh_offset - base + i)
            ≡ some (faddr ((header layout faddr k).sh_offset + i)))
unfolding main
main-IsImage layout fd faddr some_k elf at laid =
    let (j, there) = Taken-mem layout faddr some_k at in
    let (base, out, ran, image) = flatten-some faddr (taken layout faddr) j there laid in
    (
      base,
      out,
      parse_runs layout faddr elf (ground arith) ∙ ran,
      image.bytes,
      λ k i t h.
          let (n, e) = Taken-mem layout faddr k t in image.holds n (header layout faddr k) i e h,
    )

nil_of_none : (ss : List Section) → ((j : ℕ) (t : Section) → get_elem? ss j ≢ some t) → ss ≡ []
nil_of_none [] h = refl
nil_of_none (s ∷ ss) h = absurd (h 0 s refl)

flatten-ne :
    (faddr : Mem) (ss : List Section)
    → (flatten faddr ss ≢ bad_signature) × (flatten faddr ss ≢ no_entry)
unfolding flatten
flatten-ne faddr [] = (λ e. cc, λ e. cc)
flatten-ne faddr (s ∷ ss) = (λ e. cc, λ e. cc)

-- The two tests of `main` in front of the loop.
abbrev tested : Bool → Bool → Outcome → Outcome
tested elf entries rest = if not elf then bad_signature else if not entries then no_entry else rest

tested_signature :
    (elf entries : Bool) (rest : Outcome)
    → rest ≢ bad_signature
    → tested elf entries rest ≡ bad_signature ↔ elf ≡ false
tested_signature false entries rest ne = (λ e. refl, λ e. refl)
tested_signature true false rest ne = (λ e. cc, λ e. cc)
tested_signature true true rest ne = (λ e. absurd (ne e), λ e. cc)

tested_entries :
    (elf entries : Bool) (rest : Outcome)
    → rest ≢ no_entry
    → tested elf entries rest ≡ no_entry ↔ (elf ≡ true) × (entries ≡ false)
tested_entries false entries rest ne = (λ e. cc, λ e. cc)
tested_entries true false rest ne = (λ e. (refl, refl), λ e. refl)
tested_entries true true rest ne = (λ e. absurd (ne e), λ e. cc)

-- How a run ends when it writes nothing: by the assertion if the kernel file cannot be opened; with
-- the signature message exactly if bytes 1 to 3 are not "ELF"; with the other message exactly if
-- the signature is right and the number of section headers is a multiple of 256; and by the
-- assertion if both are right and no section is taken.
pub main_errors :
    (layout : Layout) (n fd : ℕ) (faddr : Mem)
    → (main layout (negsuc n) faddr ≡ assert_failed)
      × (main layout (pos fd) faddr ≡ bad_signature ↔ is_elf layout faddr ≡ false)
      × (main layout (pos fd) faddr ≡ no_entry
          ↔ (is_elf layout faddr ≡ true) × (read 2 faddr layout.shnum_at % 256 ≡ 0))
      × (is_elf layout faddr ≡ true
          → entry_sh layout faddr ≢ 0
          → ((k : ℕ) → ¬ (Taken layout faddr k))
          → main layout (pos fd) faddr ≡ assert_failed)
unfolding main parse
main_errors layout n fd faddr =
    let rest = flatten faddr (taken layout faddr) in
    let ne = flatten-ne faddr (taken layout faddr) in
    let elf = is_elf layout faddr in
    let entries = ltb 0 (entry_sh layout faddr) in
    let (there, back) = tested_entries elf entries rest ne.1 in
    let none_taken : ((k : ℕ) → ¬ (Taken layout faddr k))
        → (j : ℕ) (t : Section) → get_elem? (taken layout faddr) j ≢ some t =
      λ without j t e.
        let (k, from, below, same, sel) =
          collect-From layout faddr (sh_off layout faddr) (entry_sh layout faddr) 0 j e in
        without k (
          omega arith,
          subst (λ s. selected layout faddr (sh_off layout faddr) s ≡ true) same sel,
        ) in
    (
      refl,
      tested_signature elf entries rest ne.0,
      (λ e. ((there e).0, ground (arith, there e)), λ (y, e). back (y, ground arith)),
      λ y many without.
          parse_runs layout faddr y (ground arith)
          ∙ flatten-nil faddr (taken layout faddr)
              (nil_of_none (taken layout faddr) (none_taken without)),
    )
