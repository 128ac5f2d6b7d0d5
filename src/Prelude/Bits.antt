-- ===== src/Prelude/Bits.antt =====
-- `|` of two numbers whose digits do not overlap is their sum.
use Prim.Native.Nat.{
  ℕ, zero, suc, ◌+◌, ◌*◌, ◌/◌, ◌%◌, ◌^◌, ◌≤◌, ◌<◌, max, bit_or, digits, bit_or-bitwise,
}
use mathlib.Core.Path.{◌≡◌, refl, ap}
use native.Mathlib.Nat.{pow-suc}
use native.Mathlib.Omega.{arith}

-- The digits of `a | b` with enough rounds.
abbrev or_digits : ℕ → ℕ → ℕ → ℕ
or_digits n a b = digits (λ b. b) max n a b

or_digits-more : (n m a b : ℕ) → a ≤ n → a ≤ m → or_digits n a b ≡ or_digits m a b
or_digits-more zero zero a b p q = refl
or_digits-more zero (suc m) zero b p q = refl
or_digits-more zero (suc m) (suc a) b p q = absurd (omega arith)
or_digits-more (suc n) zero zero b p q = refl
or_digits-more (suc n) zero (suc a) b p q = absurd (omega arith)
or_digits-more (suc n) (suc m) zero b p q = refl
or_digits-more (suc n) (suc m) (suc a) b p q =
    omega (arith, or_digits-more n m (suc a / 2) (b / 2) (omega arith) (omega arith))

pub zero-bit_or : (b : ℕ) → bit_or 0 b ≡ b
zero-bit_or b = bit_or-bitwise 0 b

-- One digit of `|`.
bit_or-digit : (a b : ℕ) → bit_or a b ≡ bit_or (a / 2) (b / 2) * 2 + max (a % 2) (b % 2)
bit_or-digit zero b = omega (arith, zero-bit_or b, zero-bit_or (b / 2))
bit_or-digit (suc a) b = omega (
  arith,
  bit_or-bitwise (suc a) b,
  bit_or-bitwise (suc a / 2) (b / 2),
  or_digits-more a (suc a / 2) (suc a / 2) (b / 2) (omega arith) (omega arith),
)

bit_or-zero_below : (n a : ℕ) → a ≤ n → bit_or a 0 ≡ a
bit_or-zero_below n zero h = refl
bit_or-zero_below zero (suc a) h = absurd (omega arith)
bit_or-zero_below (suc n) (suc a) h =
    omega (arith, bit_or-digit (suc a) 0, bit_or-zero_below n (suc a / 2) (omega arith))

bit_or-even : (a b : ℕ) → bit_or a (b * 2) ≡ bit_or (a / 2) b * 2 + a % 2
bit_or-even a b =
    let half : b * 2 / 2 ≡ b = omega arith in
    omega (arith, bit_or-digit a (b * 2), ap (bit_or (a / 2)) half)

even-bit_or : (a b : ℕ) → bit_or (b * 2) a ≡ bit_or b (a / 2) * 2 + a % 2
even-bit_or a b =
    let half : b * 2 / 2 ≡ b = omega arith in
    omega (arith, bit_or-digit (b * 2) a, ap (λ (t : ℕ). bit_or t (a / 2)) half)

-- `lo | (hi << k)` and `(hi << k) | lo`, for a `lo` of `k` digits.
pub bit_or-shift : (k lo hi : ℕ) → lo < 2 ^ k → bit_or lo (hi * 2 ^ k) ≡ lo + hi * 2 ^ k
bit_or-shift zero lo hi h =
    let z : lo ≡ 0 = omega arith in
    omega (arith, ap (λ (t : ℕ). bit_or t (hi * 1)) z, zero-bit_or (hi * 1))
bit_or-shift (suc k) lo hi h =
    let e : hi * 2 ^ suc k ≡ hi * 2 ^ k * 2 = omega (arith, ap (λ (t : ℕ). hi * t) (pow-suc 2 k)) in
    rw e (
      omega (
        arith,
        pow-suc 2 k,
        bit_or-even lo (hi * 2 ^ k),
        bit_or-shift k (lo / 2) hi (omega (arith, pow-suc 2 k)),
      ))

pub shift-bit_or : (k lo hi : ℕ) → lo < 2 ^ k → bit_or (hi * 2 ^ k) lo ≡ lo + hi * 2 ^ k
shift-bit_or zero lo hi h =
    let z : lo ≡ 0 = omega arith in
    omega (arith, ap (bit_or (hi * 1)) z, bit_or-zero_below (hi * 1) (hi * 1) (omega arith))
shift-bit_or (suc k) lo hi h =
    let e : hi * 2 ^ suc k ≡ hi * 2 ^ k * 2 = omega (arith, ap (λ (t : ℕ). hi * t) (pow-suc 2 k)) in
    rw e (
      omega (
        arith,
        pow-suc 2 k,
        even-bit_or lo (hi * 2 ^ k),
        shift-bit_or k (lo / 2) hi (omega (arith, pow-suc 2 k)),
      ))

-- `|` sets no digit that neither number has.
pub bit_or-lt : (k a b : ℕ) → a < 2 ^ k → b < 2 ^ k → bit_or a b < 2 ^ k
bit_or-lt zero a b ha hb =
    let za : a ≡ 0 = omega arith in omega (arith, ap (λ (t : ℕ). bit_or t b) za, zero-bit_or b)
bit_or-lt (suc k) a b ha hb = omega (
  arith,
  pow-suc 2 k,
  bit_or-digit a b,
  bit_or-lt k (a / 2) (b / 2) (omega (arith, pow-suc 2 k)) (omega (arith, pow-suc 2 k)),
)
