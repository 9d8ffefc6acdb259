-- ===== src/Memory/Cells.antt =====
-- Little-endian words of `n` bytes in byte memory, as a store of 8, 16, 32 or 64 bits makes them.
use deliceos.Base.{ℕ, zero, suc, ◌+◌, ◌*◌, ◌/◌, ◌%◌, ◌^◌, ◌≤◌, ◌<◌, ◌≡◌, refl, ◌⊎◌, inl, ap, arith}
use deliceos.Memory.{Mem, store}
use native.Mathlib.Nat.{pow-suc, div-div-eq-div-mul, mod-eq-sub-div-mul, div-mul-le_self}

-- The bytes of `v`, the lowest first.
unfoldable pub write : ℕ → Mem → ℕ → ℕ → Mem
write zero m a v = m
write (suc n) m a v = write n (store m a (v % 256)) (a + 1) (v / 256)

unfoldable pub read : ℕ → Mem → ℕ → ℕ
read zero m a = 0
read (suc n) m a = m a + 256 * read n m (a + 1)

-- `x` is none of the `n` bytes from `a` on.
abbrev pub Outside : ℕ → ℕ → ℕ → Type 0
Outside n a x = (x < a) ⊎ (a + n ≤ x)

pub write-Outside : (n : ℕ) (m : Mem) (a v x : ℕ) → Outside n a x → write n m a v x ≡ m x
unfolding write store
write-Outside zero m a v x h = refl
write-Outside (suc n) m a v x h =
    ground (arith, write-Outside n (store m a (v % 256)) (a + 1) (v / 256) x)

pub read_cong :
    (n : ℕ) (m k : Mem) (a : ℕ)
    → ((i : ℕ) → i < n → m (a + i) ≡ k (a + i))
    → read n m a ≡ read n k a
unfolding read
read_cong zero m k a h = refl
read_cong (suc n) m k a h = omega (arith, here, read_cong n m k (a + 1) λ i p. later i p)
  where
    here : m a ≡ k a
    here = ground (arith, h 0)

    later : (i : ℕ) → i < n → m (a + 1 + i) ≡ k (a + 1 + i)
    later i p = ground (arith, h (suc i))

-- The lowest byte of a remainder, and the others.
mod_pow_suc : (n v : ℕ) → v % 256 ^ suc n ≡ v % 256 + 256 * (v / 256 % 256 ^ n)
mod_pow_suc n v = omega (
  arith,
  mod-eq-sub-div-mul v (256 ^ suc n),
  mod-eq-sub-div-mul (v / 256) (256 ^ n),
  quotient,
  ap (λ (t : ℕ). v / 256 / 256 ^ n * t) (pow-suc 256 n),
  div-mul-le_self (v / 256) (256 ^ n),
)
  where
    quotient : v / 256 ^ suc n * 256 ^ suc n ≡ v / 256 / 256 ^ n * 256 ^ suc n
    quotient =
        ap (λ (t : ℕ). t * 256 ^ suc n)
          (rw (div-div-eq-div-mul, pow-suc 256 n) (ap (λ (t : ℕ). v / t) (omega arith)))

-- A word is read back as it was written, up to its width.
pub read-write : (n : ℕ) (m : Mem) (a v : ℕ) → read n (write n m a v) a ≡ v % 256 ^ n
unfolding read write
read-write zero m a v = omega arith
read-write (suc n) m a v = omega (
  arith,
  write-Outside n (store m a (v % 256)) (a + 1) (v / 256) a (inl (omega arith)),
  stored,
  read-write n (store m a (v % 256)) (a + 1) (v / 256),
  mod_pow_suc n v,
)
  where
    stored : store m a (v % 256) a ≡ v % 256
    stored = unfold store in ground arith

-- A word that shares no byte with the one written stays.
pub read-write_apart :
    (k n : ℕ) (m : Mem) (b a v : ℕ)
    → (b + k ≤ a) ⊎ (a + n ≤ b)
    → read k (write n m a v) b ≡ read k m b
read-write_apart k n m b a v h =
    read_cong k (write n m a v) m b λ i p. write-Outside n m a v (b + i) (ground arith)

-- A store of a word leaves a memory of bytes.
pub write_byte :
    (n : ℕ) (m : Mem) (a v : ℕ) → ((x : ℕ) → m x < 256) → (x : ℕ) → write n m a v x < 256
unfolding write store
write_byte zero m a v bytes x = bytes x
write_byte (suc n) m a v bytes x =
    write_byte n (store m a (v % 256)) (a + 1) (v / 256) (λ y. ground (arith, bytes y)) x
