-- ===== src/FirstStage/Pages.antt =====
-- Where the page tables of bootloader/firststage/bootloader.s lead.
use deliceos.Base.{
  ℕ, zero, suc, ◌+◌, ◌*◌, ◌%◌, ◌^◌, ◌≤◌, ◌<◌, ◌≡◌, refl, ap, ◌∙◌, ◌⊎◌, inl, inr, arith, bit_or, u32,
  ltb, Bool-cases,
}
use deliceos.Memory.{Mem, store}
use deliceos.Memory.Cells.{read, write, read-write, read-write_apart, write-Outside}
use deliceos.Paging.Entry.{IsLargePage, large_page}
use deliceos.FirstStage.{do_memset_zero, fill_pd}

write_zero : (n : ℕ) (m : Mem) (a x : ℕ) → a ≤ x → x < a + n → write n m a 0 x ≡ 0
unfolding write store
write_zero zero m a x from to = absurd (omega arith)
write_zero (suc n) m a x from to =
    ground (arith, write_zero n (store m a 0) (a + 1) x, write-Outside n (store m a 0) (a + 1) 0 x)

pub do_memset_zero_outside :
    (n a : ℕ) (m : Mem) (x : ℕ) → (x < a) ⊎ (a + 4 * n ≤ x) → do_memset_zero n a m x ≡ m x
unfolding do_memset_zero
do_memset_zero_outside zero a m x h = refl
do_memset_zero_outside (suc n) a m x h =
    do_memset_zero_outside n (a + 4) (write 4 m a 0) x (ground arith)
    ∙ write-Outside 4 m a 0 x (ground arith)

pub do_memset_zero_inside :
    (n a : ℕ) (m : Mem) (x : ℕ) → a ≤ x → x < a + 4 * n → do_memset_zero n a m x ≡ 0
unfolding do_memset_zero
do_memset_zero_inside zero a m x from to = absurd (omega arith)
do_memset_zero_inside (suc n) a m x from to = elim (Bool-cases (ltb x (a + 4))) [
  | inl now ↦
      do_memset_zero_outside n (a + 4) (write 4 m a 0) x (inl (ground (arith, now)))
      ∙ write_zero 4 m a x from (ground (arith, now))
  | inr later ↦
      do_memset_zero_inside n (a + 4) (write 4 m a 0) x (ground (arith, later)) (omega arith)
]

-- A word of eight bytes by its halves.
pub read-halves : (m : Mem) (a : ℕ) → read 8 m a ≡ read 4 m a + 2 ^ 32 * read 4 m (a + 4)
unfolding read
read-halves m a = omega (arith, ap (read 4 m) four)
  where
    four : a + 1 + 1 + 1 + 1 ≡ a + 4
    four = omega arith

pub read_zero : (n : ℕ) (m : Mem) (a : ℕ) → ((x : ℕ) → a ≤ x → x < a + n → m x ≡ 0) → read n m a ≡ 0
unfolding read
read_zero zero m a h = refl
read_zero (suc n) m a h = omega (
  arith,
  h a (omega arith) (omega arith),
  read_zero n m (a + 1) λ x from to. h x (omega arith) (omega arith),
)

-- An entry of which the lower half is written over zeros.
pub entry_written :
    (m : Mem) (a v : ℕ) → v < 2 ^ 32 → read 4 m (a + 4) ≡ 0 → read 8 (write 4 m a v) a ≡ v
entry_written m a v small zero_above = omega (
  arith,
  read-halves (write 4 m a v) a,
  read-write 4 m a v,
  read-write_apart 4 4 m (a + 4) a v (inr (omega arith)),
)

-- The flags of the directory entries.
abbrev pub flags_of : ℕ → ℕ
flags_of ebx = bit_or (bit_or (bit_or 1 2) 128) ebx

pub page_lt :
    (page : ℕ)
    → page < 2 ^ 11
    → IsLargePage page 3 (flags_of (page * 2 ^ 21))
    → flags_of (page * 2 ^ 21) < 2 ^ 32
page_lt page small is = omega (arith, is.split, is.fits)

pub fill_pd-Outside :
    (n a ebx : ℕ) (m : Mem) (b : ℕ)
    → (b + 4 ≤ a) ⊎ (a + 8 * n ≤ b) ⊎ (b % 8 ≡ (a + 4) % 8)
    → read 4 (fill_pd n a ebx m) b ≡ read 4 m b
unfolding fill_pd
fill_pd-Outside zero a ebx m b h = refl
fill_pd-Outside (suc n) a ebx m b h =
    fill_pd-Outside n (a + 8) (u32 (ebx + 0x200000)) (write 4 m a (flags_of ebx)) b (fill_apart h)
    ∙ read-write_apart 4 4 m b a (flags_of ebx) (here_apart h)
  where
    fill_apart :
        (b + 4 ≤ a) ⊎ (a + 8 * suc n ≤ b) ⊎ (b % 8 ≡ (a + 4) % 8)
        → (b + 4 ≤ a + 8) ⊎ (a + 8 + 8 * n ≤ b) ⊎ (b % 8 ≡ (a + 8 + 4) % 8)
    fill_apart (inl below) = inl (omega arith)
    fill_apart (inr (inl above)) = inr (inl (omega arith))
    fill_apart (inr (inr between)) = inr (inr (omega arith))

    here_apart :
        (b + 4 ≤ a) ⊎ (a + 8 * suc n ≤ b) ⊎ (b % 8 ≡ (a + 4) % 8) → (b + 4 ≤ a) ⊎ (a + 4 ≤ b)
    here_apart h = ground arith

-- The entry at `i` behind the first: rounds before it, its own, and rounds behind it.
pub fill_pd_entry :
    (n a k i : ℕ) (m : Mem)
    → i < n
    → k + n ≤ 512
    → read 4 m (a + 8 * i + 4) ≡ 0
    → read 8 (fill_pd n a (k * 2 ^ 21) m) (a + 8 * i) ≡ flags_of ((k + i) * 2 ^ 21)
unfolding fill_pd
fill_pd_entry zero a k i m small few clear = absurd (omega arith)
fill_pd_entry (suc n) a k zero m small few clear =
    let v : ℕ = flags_of (k * 2 ^ 21) in
    let m1 : Mem = write 4 m a v in
    let rest : Mem = fill_pd n (a + 8) (u32 (k * 2 ^ 21 + 0x200000)) m1 in
    let low : read 4 rest (a + 8 * 0) ≡ v =
      ap (read 4 rest) here
      ∙ fill_pd-Outside n (a + 8) _ m1 a (inl (omega arith))
      ∙ read-write 4 m a v
      ∙ omega (arith, page_lt k (omega arith) (large_page k 3 (omega arith))) in
    let high : read 4 rest (a + 8 * 0 + 4) ≡ 0 =
      fill_pd-Outside n (a + 8) _ m1 (a + 8 * 0 + 4) (inl (omega arith))
      ∙ read-write_apart 4 4 m (a + 8 * 0 + 4) a v (inr (omega arith))
      ∙ clear in
    read-halves rest (a + 8 * 0) ∙ omega (arith, low, high) ∙ ap (λ x. flags_of (x * 2 ^ 21)) first
  where
    here : a + 8 * 0 ≡ a
    here = omega arith

    first : k ≡ k + 0
    first = omega arith
fill_pd_entry (suc n) a k (suc i) m small few clear =
    let v : ℕ = flags_of (k * 2 ^ 21) in
    let m1 : Mem = write 4 m a v in
    let kept : read 4 m1 (a + 8 + 8 * i + 4) ≡ 0 =
      read-write_apart 4 4 m (a + 8 + 8 * i + 4) a v (inr (omega arith))
      ∙ ap (read 4 m) above
      ∙ clear in
    ap (λ x. read 8 (fill_pd n (a + 8) x m1) (a + 8 * suc i)) next
    ∙ ap (read 8 (fill_pd n (a + 8) ((k + 1) * 2 ^ 21) m1)) address
    ∙ fill_pd_entry n (a + 8) (k + 1) i m1 (omega arith) (omega arith) kept
    ∙ ap (λ x. flags_of (x * 2 ^ 21)) number
  where
    above : a + 8 + 8 * i + 4 ≡ a + 8 * suc i + 4
    above = omega arith

    address : a + 8 * suc i ≡ a + 8 + 8 * i
    address = omega arith

    number : k + 1 + i ≡ k + suc i
    number = omega arith

    next : u32 (k * 2 ^ 21 + 0x200000) ≡ (k + 1) * 2 ^ 21
    next = omega arith
