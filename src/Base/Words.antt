-- ===== src/Base/Words.antt =====
-- C's `int` as a signed integer, and `unsigned int` as a number below 2 ^ 32.
use Prim.Native.Nat.{ℕ, suc, ◌+◌, ◌-◌, ◌*◌, ◌/◌, ◌%◌, ◌^◌, ◌≤◌, ◌<◌}
use mathlib.Core.Path.{◌≡◌}
use mathlib.Core.Bool.{Bool}
use native.Mathlib.Omega.{arith}
use libcddb.Base.Tests.{ltb, leb, ◌==◌, if◌then◌else◌}

-- `negsuc n` is -(n + 1).
pub data ℤ : Type 0 where
  pos : ℕ → ℤ
  negsuc : ℕ → ℤ

abbrev pub pos_part : ℤ → ℕ
pos_part (pos n) = n
pos_part (negsuc n) = 0

abbrev pub neg_part : ℤ → ℕ
neg_part (pos n) = 0
neg_part (negsuc n) = suc n

-- a - b, as an integer.
abbrev pub sub_ℕ : ℕ → ℕ → ℤ
sub_ℕ a b = if leb b a then pos (a - b) else negsuc (b - a - 1)

infixl 65 ◌+ℤ◌ ◌-ℤ◌
infix 50 ◌≤ℤ◌
unfoldable pub ◌+ℤ◌ : ℤ → ℤ → ℤ
a +ℤ b = sub_ℕ (pos_part a + pos_part b) (neg_part a + neg_part b)

unfoldable pub ◌-ℤ◌ : ℤ → ℤ → ℤ
a -ℤ b = sub_ℕ (pos_part a + neg_part b) (neg_part a + pos_part b)

-- A product with a number, and C's quotient and remainder by one, which round towards zero.
unfoldable pub scale : ℤ → ℕ → ℤ
scale a n = sub_ℕ (pos_part a * n) (neg_part a * n)

unfoldable pub quot : ℤ → ℕ → ℤ
quot a n = sub_ℕ (pos_part a / n) (neg_part a / n)

unfoldable pub rem : ℤ → ℕ → ℤ
rem a n = sub_ℕ (pos_part a % n) (neg_part a % n)

abbrev pub ◌≤ℤ◌ : ℤ → ℤ → Type 0
a ≤ℤ b = pos_part a + neg_part b ≤ pos_part b + neg_part a

abbrev pub ltb_ℤ : ℤ → ℤ → Bool
ltb_ℤ a b = ltb (pos_part a + neg_part b) (pos_part b + neg_part a)

abbrev pub leb_ℤ : ℤ → ℤ → Bool
leb_ℤ a b = leb (pos_part a + neg_part b) (pos_part b + neg_part a)

abbrev pub eq_ℤ : ℤ → ℤ → Bool
eq_ℤ a b = (pos_part a + neg_part b) == (pos_part b + neg_part a)

-- -1, which the source uses for "not set".
abbrev pub minus_one : ℤ
minus_one = negsuc 0

-- The conversions between `int` and `unsigned int`.
unfoldable pub to_u32 : ℤ → ℕ
to_u32 (pos n) = n % 2 ^ 32
to_u32 (negsuc n) = 2 ^ 32 - 1 - n % 2 ^ 32

unfoldable pub to_int : ℕ → ℤ
to_int w = if ltb w (2 ^ 31) then pos w else negsuc (2 ^ 32 - w - 1)

-- A result of `int` arithmetic, wrapped to 32 bits.
unfoldable pub wrap_int : ℤ → ℤ
unfolding to_u32 to_int
wrap_int a = to_int (to_u32 a)

pub to_u32-lt : (a : ℤ) → to_u32 a < 2 ^ 32
unfolding to_u32
to_u32-lt (pos n) = omega arith
to_u32-lt (negsuc n) = omega arith

pub wrap_int-pos : (n : ℕ) → n < 2 ^ 31 → wrap_int (pos n) ≡ pos n
unfolding wrap_int
wrap_int-pos n h = ground arith

pub quot-pos : (m n : ℕ) → quot (pos m) n ≡ pos (m / n)
unfolding quot
quot-pos m n = ground arith

pub rem-pos : (m n : ℕ) → rem (pos m) n ≡ pos (m % n)
unfolding rem
rem-pos m n = ground arith

pub +ℤ-pos : (m n : ℕ) → pos m +ℤ pos n ≡ pos (m + n)
unfolding ◌+ℤ◌
+ℤ-pos m n = ground arith

pub -ℤ-pos : (m n : ℕ) → n ≤ m → pos m -ℤ pos n ≡ pos (m - n)
unfolding ◌-ℤ◌
-ℤ-pos m n h = ground arith

pub scale-pos : (m n : ℕ) → scale (pos m) n ≡ pos (m * n)
unfolding scale
scale-pos m n = ground arith

pub to_u32-pos : (n : ℕ) → n < 2 ^ 32 → to_u32 (pos n) ≡ n
unfolding to_u32
to_u32-pos n h = omega arith
