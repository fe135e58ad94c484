-- ===== src/Base/Bits.antt =====
-- `bit_or` of a multiple of 2 ^ k with a number below 2 ^ k is their sum.
use Prim.Native.Nat.{
  ℕ, zero, suc, ◌+◌, ◌*◌, ◌^◌, ◌/◌, ◌≤◌, ◌<◌, max, bit_or, digits, bit_or-bitwise,
}
use mathlib.Core.Path.{◌≡◌, refl, ap}
use native.Mathlib.Omega.{arith}
use native.Mathlib.Nat.{pow-suc, le_refl}

-- What `bit_or a b` stands for: the binary digits of both, with `n` rounds of fuel.
abbrev or_digits : ℕ → ℕ → ℕ → ℕ
or_digits n a b = digits (λ y. y) max n a b

or_digits-zero : (n a : ℕ) → a ≤ n → or_digits n a 0 ≡ a
or_digits-zero zero a h = omega arith
or_digits-zero (suc n) zero h = refl
or_digits-zero (suc n) (suc a) h = omega (arith, or_digits-zero n (suc a / 2) (omega arith))

or_digits-add : (n k q a r : ℕ) → a ≡ q * 2 ^ k → r < 2 ^ k → a ≤ n → or_digits n a r ≡ a + r
or_digits-add zero k q a r e fits h = omega arith
or_digits-add (suc n) k q zero r e fits h = omega arith
or_digits-add (suc n) zero q (suc a) r e fits h =
    let none_left : r ≡ 0 = omega arith in ground (arith, or_digits-zero (suc n) (suc a) h)
or_digits-add (suc n) (suc k) q (suc a) r e fits h =
    let double = ap (λ (t : ℕ). q * t) (pow-suc 2 k) in
    omega (
      arith,
      double,
      pow-suc 2 k,
      or_digits-add n k q (suc a / 2) (r / 2) (omega (arith, double)) (omega (arith, pow-suc 2 k))
          (omega arith),
    )

pub bit_or-add : (k q r : ℕ) → r < 2 ^ k → bit_or (q * 2 ^ k) r ≡ q * 2 ^ k + r
bit_or-add k q r h =
    simp bit_or-bitwise (or_digits-add (q * 2 ^ k) k q (q * 2 ^ k) r refl h (le_refl _))

or_digits-lt : (n k a b : ℕ) → a < 2 ^ k → b < 2 ^ k → or_digits n a b < 2 ^ k
or_digits-lt zero k a b h g = g
or_digits-lt (suc n) k zero b h g = g
or_digits-lt (suc n) zero (suc a) b h g = absurd (omega arith)
or_digits-lt (suc n) (suc k) (suc a) b h g =
    let halves =
      or_digits-lt n k (suc a / 2) (b / 2) (omega (arith, pow-suc 2 k))
        (omega (arith, pow-suc 2 k)) in
    omega (arith, pow-suc 2 k, halves)

pub bit_or-lt : (k a b : ℕ) → a < 2 ^ k → b < 2 ^ k → bit_or a b < 2 ^ k
bit_or-lt k a b h g = simp bit_or-bitwise (or_digits-lt a k a b h g)

le-or_digits : (n a b : ℕ) → a ≤ n → (a ≤ or_digits n a b) × (b ≤ or_digits n a b)
le-or_digits zero a b h = (omega arith, omega arith)
le-or_digits (suc n) zero b h = (omega arith, omega arith)
le-or_digits (suc n) (suc a) b h =
    let halves = le-or_digits n (suc a / 2) (b / 2) (omega arith) in (omega arith, omega arith)

pub le-bit_or : (a b : ℕ) → (a ≤ bit_or a b) × (b ≤ bit_or a b)
le-bit_or a b = simp bit_or-bitwise (le-or_digits a a b (le_refl _))
