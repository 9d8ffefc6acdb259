-- ===== src/FirstStage/MemoryMap/Collected.antt =====
-- What `get_physical` of bootloader/firststage/bootloader.s collects, and how much of it
-- `start_kernel` of bootloader/delice_pxe/src/init.cc looks at.
use deliceos.Base.{
  ℕ, zero, suc, ◌+◌, ◌*◌, ◌-◌, ◌≤◌, ◌<◌, ◌≡◌, refl, sym, ap, ◌∙◌, subst, ◌⊎◌, inl, inr, arith,
  Option, some, ◌==◌, if◌then◌else◌, ltb, u16, u32, false, ◌≢◌, Bool-cases,
}
use deliceos.Memory.{Mem, store}
use deliceos.Memory.Cells.{write, write-Outside, Outside}
use deliceos.Init.{entry_count, e20_addr}
use deliceos.FirstStage.MemoryMap.{Bios, es_base, e820_addr, collect, with_count, get_physical}

-- A BIOS that has the entries `entry 0`, `entry 1`, ... below `n` (ACPI, query system address map): it
-- numbers them by continuation values of its own, `token`, of which the first is 0 and none else, and
-- gives 0 with the last. It writes the 20 bytes of an entry, of which `start_kernel` reads no others,
-- and nothing but the 24 bytes that ecx gives it room for.
pub record Answers (bios : Bios) (n : ℕ) (entry : ℕ → ℕ → ℕ) : Type 0 where
  pub token : ℕ → ℕ
  pub first : token 0 ≡ 0
  pub later : (k : ℕ) → 0 < k → token k ≢ 0
  pub continues :
      (k a : ℕ) (m : Mem) → (bios (token k) a m).0 ≡ (if ltb (k + 1) n then token (k + 1) else 0)
  pub writes : (k a i : ℕ) (m : Mem) → i < 20 → (bios (token k) a m).1 (a + i) ≡ entry k i
  pub keeps : (k a x : ℕ) (m : Mem) → Outside 24 a x → (bios (token k) a m).1 x ≡ m x

-- The entries from `k` on stand in memory, and nothing else has changed.
record Stand (n : ℕ) (entry : ℕ → ℕ → ℕ) (k : ℕ) (m m' : Mem) : Type 0 where
  placed : (j i : ℕ) → k ≤ j → j < n → i < 20 → m' (0x14000 + 24 * j + i) ≡ entry j i
  kept : (x : ℕ) → Outside (24 * (n - k)) (0x14000 + 24 * k) x → m' x ≡ m x

module _ (bios : Bios) (n : ℕ) (entry : ℕ → ℕ → ℕ) (few : n ≤ 21)
    (answers : Answers bios n entry) where
  one_more :
      (k : ℕ) (m m' : Mem)
      → k < n
      → Stand n entry (k + 1) (bios (answers.token k) (0x14000 + 24 * k) m).1 m'
      → Stand n entry k m m'
  one_more k m m' small s = record {
    placed = λ j i from to byte. elim (Bool-cases (j == k)) [
      | inl same ↦
          let is : j ≡ k = ground arith in
          subst (λ x. m' (0x14000 + 24 * x + i) ≡ entry x i) (sym is)
            (s.kept (0x14000 + 24 * k + i) (inl (omega arith))
              ∙ answers.writes k (0x14000 + 24 * k) i m byte)
      | inr later ↦ s.placed j i (ground arith) to byte
    ];
    kept = λ x out. s.kept x (ground arith) ∙ answers.keeps k (0x14000 + 24 * k) x m (ground arith);
  }

  address : (k : ℕ) → k < n → es_base + u16 (e820_addr + 24 * k) ≡ 0x14000 + 24 * k
  address k small = omega arith

  -- A round that is not the last.
  collect_next :
      (k fuel : ℕ) (m : Mem) (o : Option (ℕ × Mem))
      → k < n
      → (bios (answers.token k) (0x14000 + 24 * k) m).0 ≡ answers.token (k + 1)
      → collect bios fuel
          (answers.token (k + 1))
          (e820_addr + 24 * (k + 1))
          (k + 1)
          (bios (answers.token k) (0x14000 + 24 * k) m).1
        ≡ o
      → collect bios (suc fuel) (answers.token k) (e820_addr + 24 * k) k m ≡ o
  unfolding collect
  collect_next k fuel m o small goes_on runs =
      let more : (answers.token (k + 1) == 0) ≡ false =
        ground (arith, answers.later (k + 1) (omega arith)) in
      let edi : u32 (e820_addr + 24 * k + 24) ≡ e820_addr + 24 * (k + 1) = omega arith in
      let ebp : u32 (k + 1) ≡ k + 1 = omega arith in
      rw (address k small, goes_on, more, edi, ebp) runs

  collect-Stand :
      (r k fuel : ℕ) (m : Mem)
      → k + suc r ≡ n
      → suc r ≤ fuel
      → (m' : Mem) × (collect bios fuel (answers.token k) (e820_addr + 24 * k) k m ≡ some (n, m'))
        × Stand n entry k m m'
  unfolding collect
  collect-Stand r k zero m e enough = absurd (omega arith)
  collect-Stand zero k (suc fuel) m e enough =
      let m1 : Mem = (bios (answers.token k) (0x14000 + 24 * k) m).1 in
      let ends : (bios (answers.token k) (0x14000 + 24 * k) m).0 ≡ 0 =
        answers.continues k (0x14000 + 24 * k) m ∙ ground (arith, e) in
      let number : u32 (k + 1) ≡ n = omega arith in
      (
        m1,
        rw (address k (omega arith), ends) (ap (λ x. some (x, m1)) number),
        one_more k m m1 (omega arith)
            (record { placed = λ j i from to byte. absurd (omega arith); kept = λ x out. refl }),
      )
  collect-Stand (suc r) k (suc fuel) m e enough =
      let m1 : Mem = (bios (answers.token k) (0x14000 + 24 * k) m).1 in
      let goes_on : (bios (answers.token k) (0x14000 + 24 * k) m).0 ≡ answers.token (k + 1) =
        answers.continues k (0x14000 + 24 * k) m ∙ ground (arith, e) in
      let (m', runs, stand) = collect-Stand r (k + 1) fuel m1 (omega arith) (omega arith) in
      (
        m',
        collect_next k fuel m (some (n, m')) (omega arith) goes_on runs,
        one_more k m m' (omega arith) stand,
      )

  count_byte : (m : Mem) → write 4 m 0x14200 n 0x14200 ≡ n
  unfolding write store
  count_byte m = omega (arith, few)

  -- With a BIOS of from 1 to 21 entries the loop ends, with as much fuel as there are entries, and
  -- every entry stands where `start_kernel` looks for it; nothing else is written but the number of
  -- entries. `start_kernel` looks at all entries but the last.
  pub get_physical-collects :
      (fuel : ℕ) (m : Mem)
      → 1 ≤ n
      → n ≤ fuel
      → (m' : Mem) × (get_physical bios fuel m ≡ some m')
        × ((j i : ℕ) → j < n → i < 20 → m' (e20_addr + 24 * j + i) ≡ entry j i)
        × ((x : ℕ) → (x < e20_addr) ⊎ (e20_addr + 0x204 ≤ x) → m' x ≡ m x)
        × (entry_count m' ≡ n - 1)
  unfolding get_physical
  get_physical-collects fuel m some_there enough =
      let (m', runs, stand) = collect-Stand (n - 1) 0 fuel m (omega arith) (omega arith) in
      (
        write 4 m' 0x14200 n,
        ap (λ b. with_count bios (collect bios fuel b e820_addr 0 m)) (sym answers.first)
            ∙ ap (with_count bios) runs,
        λ j i small byte.
            write-Outside 4 m' 0x14200 n (e20_addr + 24 * j + i) (inl (omega arith))
            ∙ stand.placed j i (omega arith) small byte,
        λ x out. write-Outside 4 m' 0x14200 n x (ground arith) ∙ stand.kept x (ground arith),
        omega (arith, count_byte m'),
      )
