-- ===== src/Base/Bits.antt =====
-- The bits of `|` and `&` at every position, from the digit recursion of the native operations.
use Prim.Native.Nat.{
  ℕ, zero, suc, ◌+◌, ◌-◌, ◌*◌, ◌/◌, ◌%◌, ◌^◌, ◌≤◌, ◌<◌, min, max, bit_and, bit_or, digits, bitwise,
  bit_and-bitwise, bit_or-bitwise,
}
use mathlib.Core.Path.{◌≡◌, refl, sym, ap, ap₂, ◌∙◌}
use native.Mathlib.Omega.{arith}
use native.Mathlib.Nat.{pow-suc, one-le-pow, div-div-eq-div-mul, div-add-mod, mod-lt}

-- A bitwise operation by its digit tables: `z` where the first number has run out, `f` at a digit.
module _ (z : ℕ → ℕ) (f : ℕ → ℕ → ℕ) where
  digits-zero : (fuel b : ℕ) → digits z f fuel zero b ≡ z b
  digits-zero zero b = refl
  digits-zero (suc fuel) b = refl

  same_digits :
      (a b fuel more : ℕ) → a ≤ fuel → a ≤ more → digits z f fuel a b ≡ digits z f more a b
  same_digits zero b fuel more p q = digits-zero fuel b ∙ sym (digits-zero more b)
  same_digits (suc a) b (suc fuel) (suc more) p q =
      ap (λ t. t * 2 + f (suc a % 2) (b % 2))
        (same_digits (suc a / 2) (b / 2) fuel more (omega arith) (omega arith))
  same_digits (suc a) b zero more p q = absurd (omega arith)
  same_digits (suc a) b (suc fuel) zero p q = absurd (omega arith)

  bitwise_halves :
      ((b : ℕ) → z b ≡ z (b / 2) * 2 + f 0 (b % 2))
      → (a b : ℕ) → bitwise z f a b ≡ bitwise z f (a / 2) (b / 2) * 2 + f (a % 2) (b % 2)
  bitwise_halves ends zero b = ends b
  bitwise_halves ends (suc a) b =
      ap (λ t. t * 2 + f (suc a % 2) (b % 2))
        (same_digits (suc a / 2) (b / 2) a (suc a / 2) (omega arith) (omega arith))

pub or_halves : (a b : ℕ) → bit_or a b ≡ bit_or (a / 2) (b / 2) * 2 + max (a % 2) (b % 2)
or_halves a b = simp bit_or-bitwise (bitwise_halves (λ y. y) max (λ b. omega arith) a b)

pub and_halves : (a b : ℕ) → bit_and a b ≡ bit_and (a / 2) (b / 2) * 2 + min (a % 2) (b % 2)
and_halves a b = simp bit_and-bitwise (bitwise_halves (λ y. 0) min (λ b. omega arith) a b)

-- Bit `k` of a number.
abbrev pub bit_at : ℕ → ℕ → ℕ
bit_at k a = a / 2 ^ k % 2

half_of_pow : (k a : ℕ) → a / 2 ^ suc k ≡ a / 2 / 2 ^ k
half_of_pow k a = rw (div-div-eq-div-mul, pow-suc 2 k) (ap (λ (t : ℕ). a / t) (omega arith))

pub bit_at-bit_or : (k a b : ℕ) → bit_at k (bit_or a b) ≡ max (bit_at k a) (bit_at k b)
bit_at-bit_or zero a b = omega (arith, or_halves a b)
bit_at-bit_or (suc k) a b =
    rw (half_of_pow k (bit_or a b), half_of_pow k a, half_of_pow k b)
      (rw halves (bit_at-bit_or k (a / 2) (b / 2)))
  where
    halves : bit_or a b / 2 ≡ bit_or (a / 2) (b / 2)
    halves = omega (arith, or_halves a b)

pub bit_or-zero : (k a : ℕ) → a < 2 ^ k → bit_or a 0 ≡ a
bit_or-zero zero zero h = refl
bit_or-zero zero (suc a) h = absurd (omega arith)
bit_or-zero (suc k) a h =
    omega (arith, or_halves a 0, pow-suc 2 k, bit_or-zero k (a / 2) (omega (arith, pow-suc 2 k)))

-- `|` of numbers of `k` bits has `k` bits.
pub bit_or-lt : (k a b : ℕ) → a < 2 ^ k → b < 2 ^ k → bit_or a b < 2 ^ k
bit_or-lt zero zero b h g = omega (arith, bit_or-bitwise 0 b)
bit_or-lt zero (suc a) b h g = absurd (omega arith)
bit_or-lt (suc k) a b h g = omega (
  arith,
  or_halves a b,
  pow-suc 2 k,
  bit_or-lt k (a / 2) (b / 2) (omega (arith, pow-suc 2 k)) (omega (arith, pow-suc 2 k)),
)

-- Bits below `k` join, and what stands above `k` on one side only stays.
pub bit_or-add :
    (k q a b : ℕ) → a < 2 ^ k → b < 2 ^ k → bit_or a (q * 2 ^ k + b) ≡ q * 2 ^ k + bit_or a b
bit_or-add zero q zero zero h g = omega (arith, bit_or-bitwise 0 (q * 1 + 0), bit_or-bitwise 0 0)
bit_or-add zero q zero (suc b) h g = absurd (omega arith)
bit_or-add zero q (suc a) b h g = absurd (omega arith)
bit_or-add (suc k) q a b h g = omega (
  arith,
  or_halves a (q * 2 ^ suc k + b),
  or_halves a b,
  split,
  halves,
  bit_or-add k q (a / 2) (b / 2) (omega (arith, pow-suc 2 k)) (omega (arith, pow-suc 2 k)),
)
  where
    split : q * 2 ^ suc k ≡ 2 * (q * 2 ^ k)
    split = omega (arith, ap (λ (t : ℕ). q * t) (pow-suc 2 k))

    halves : bit_or (a / 2) ((q * 2 ^ suc k + b) / 2) ≡ bit_or (a / 2) (q * 2 ^ k + b / 2)
    halves = ap (bit_or (a / 2)) (omega (arith, split))

bit_and-zero : (bound a : ℕ) → a ≤ bound → bit_and a 0 ≡ 0
bit_and-zero bound zero h = bit_and-bitwise 0 0
bit_and-zero zero (suc a) h = absurd (omega arith)
bit_and-zero (suc bound) (suc a) h =
    omega (arith, and_halves (suc a) 0, bit_and-zero bound (suc a / 2) (omega arith))

mask_low : (k q r : ℕ) → r < 2 ^ k → bit_and (q * 2 ^ k + r) (2 ^ k - 1) ≡ r
mask_low zero q r h = bit_and-zero (q * 1 + r) (q * 1 + r) (omega arith) ∙ omega arith
mask_low (suc k) q r h = omega (
  arith,
  and_halves (q * 2 ^ suc k + r) (2 ^ suc k - 1),
  split,
  one-le-pow k 2,
  pow-suc 2 k,
  halves,
  mask_low k q (r / 2) (omega (arith, pow-suc 2 k)),
)
  where
    split : q * 2 ^ suc k ≡ 2 * (q * 2 ^ k)
    split = omega (arith, ap (λ (t : ℕ). q * t) (pow-suc 2 k))

    halves :
        bit_and ((q * 2 ^ suc k + r) / 2) ((2 ^ suc k - 1) / 2)
        ≡ bit_and (q * 2 ^ k + r / 2) (2 ^ k - 1)
    halves = ap₂ bit_and (omega (arith, split)) (omega (arith, pow-suc 2 k, one-le-pow k 2))

-- A mask of `k` ones keeps the remainder by `2 ^ k`.
pub bit_and_mask : (k a : ℕ) → bit_and a (2 ^ k - 1) ≡ a % 2 ^ k
bit_and_mask k a =
    ap (λ t. bit_and t (2 ^ k - 1)) (omega (arith, div-add-mod a (2 ^ k)))
    ∙ mask_low k (a / 2 ^ k) (a % 2 ^ k) (mod-lt _ (one-le-pow k 2 (omega arith)))

-- `&` with one bit tells that bit.
pub bit_and_single : (k a : ℕ) → bit_and a (2 ^ k) ≡ bit_at k a * 2 ^ k
bit_and_single zero a = omega (arith, and_halves a 1, bit_and-zero (a / 2) (a / 2) (omega arith))
bit_and_single (suc k) a = omega (
  arith,
  and_halves a (2 ^ suc k),
  pow-suc 2 k,
  halves,
  bit_and_single k (a / 2),
  ap (λ (t : ℕ). t % 2 * 2 ^ suc k) (half_of_pow k a),
  split,
)
  where
    halves : bit_and (a / 2) (2 ^ suc k / 2) ≡ bit_and (a / 2) (2 ^ k)
    halves = ap (bit_and (a / 2)) (omega (arith, pow-suc 2 k))

    split : bit_at k (a / 2) * 2 ^ suc k ≡ 2 * (bit_at k (a / 2) * 2 ^ k)
    split = omega (arith, ap (λ (t : ℕ). bit_at k (a / 2) * t) (pow-suc 2 k))

or_comm_below : (bound a b : ℕ) → a ≤ bound → b ≤ bound → bit_or a b ≡ bit_or b a
or_comm_below zero zero zero h g = refl
or_comm_below zero zero (suc b) h g = absurd (omega arith)
or_comm_below zero (suc a) b h g = absurd (omega arith)
or_comm_below (suc bound) a b h g = omega (
  arith,
  or_halves a b,
  or_halves b a,
  or_comm_below bound (a / 2) (b / 2) (omega arith) (omega arith),
)

pub bit_or_comm : (a b : ℕ) → bit_or a b ≡ bit_or b a
bit_or_comm a b = or_comm_below (a + b) a b (omega arith) (omega arith)
