-- ===== src/Format/Decimal.antt =====
-- Decimal numbers: their digits, their size, and what cddb_regex_get_int of lib/cddb_regex.c reads
-- from them.
use libcddb.Base.{
  ℕ, zero, suc, ◌+◌, ◌*◌, ◌/◌, ◌%◌, ◌^◌, ◌≤◌, ◌<◌, ◌≡◌, refl, arith, ltb, Bool-cases, inl, inr,
  true, pos, [], ◌∷◌, length, length-append, Bytes,
}
use libcddb.Regex.{number_from, get_int, is_digit}
use libcddb.Regex.Digits.{AreDigits, AreDigits-append, number_from-append, get_int-number}
use libcddb.Format.{decimal_digits, decimal, hex_digits, hex_digit, print_hex}

-- 10 ^ n
abbrev pub ten_to : ℕ → ℕ
ten_to zero = 1
ten_to (suc n) = 10 * ten_to n

ten_to-pos : (k : ℕ) → 0 < ten_to k
ten_to-pos zero = omega arith
ten_to-pos (suc k) = omega (arith, ten_to-pos k)

not_empty : (s : Bytes) → 0 < length s → (c : ℕ) × (rest : Bytes) × (s ≡ c ∷ rest)
not_empty [] h = absurd (omega arith)
not_empty (c ∷ s) h = (c, s, refl)

digit : (n : ℕ) → is_digit (n % 10 + b'0') ≡ true
digit n = ground arith

decimal_digits-AreDigits : (fuel n : ℕ) → AreDigits (decimal_digits fuel n)
unfolding decimal_digits
decimal_digits-AreDigits zero n = tt
decimal_digits-AreDigits (suc fuel) n = elim (Bool-cases (ltb n 10)) [
  | inl e ↦ rw e (ground arith, tt)
  | inr e ↦ rw e (AreDigits-append _ _ (decimal_digits-AreDigits fuel (n / 10)) (digit n, tt))
]

number_from-decimal_digits :
    (fuel n : ℕ) → n < ten_to fuel → number_from 0 (decimal_digits fuel n) ≡ n
unfolding decimal_digits
number_from-decimal_digits zero n h = omega arith
number_from-decimal_digits (suc fuel) n h = elim (Bool-cases (ltb n 10)) [
  | inl e ↦ rw e (omega arith)
  | inr e ↦
      rw
        (
          e,
          number_from-append 0 (decimal_digits fuel (n / 10)) ((n % 10 + b'0') ∷ []),
          number_from-decimal_digits fuel (n / 10) (omega arith),
        )
        (omega arith)
]

length-decimal_digits : (fuel n k : ℕ) → 0 < k → n < ten_to k → length (decimal_digits fuel n) ≤ k
unfolding decimal_digits
length-decimal_digits zero n k p h = omega arith
length-decimal_digits (suc fuel) n zero p h = absurd (omega arith)
length-decimal_digits (suc fuel) n (suc zero) p h =
    let e : ltb n 10 ≡ true = ground arith in rw e (omega arith)
length-decimal_digits (suc fuel) n (suc (suc k)) p h = elim (Bool-cases (ltb n 10)) [
  | inl e ↦ rw e (omega arith)
  | inr e ↦ rw e (
      omega (
        arith,
        length-append (decimal_digits fuel (n / 10)) ((n % 10 + b'0') ∷ []),
        length-decimal_digits fuel (n / 10) (suc k) (omega arith) (omega arith),
      ))
]

length-decimal_digits_pos : (fuel n : ℕ) → 0 < length (decimal_digits (suc fuel) n)
unfolding decimal_digits
length-decimal_digits_pos fuel n = elim (Bool-cases (ltb n 10)) [
  | inl e ↦ rw e (omega arith)
  | inr e ↦
      rw e (omega (arith, length-append (decimal_digits fuel (n / 10)) ((n % 10 + b'0') ∷ [])))
]

decimal_digits-length :
    (fuel n k : ℕ) → k < fuel → ten_to k ≤ n → k < length (decimal_digits fuel n)
unfolding decimal_digits
decimal_digits-length zero n k p h = absurd (omega arith)
decimal_digits-length (suc fuel) n zero p h = length-decimal_digits_pos fuel n
decimal_digits-length (suc fuel) n (suc k) p h = elim (Bool-cases (ltb n 10)) [
  | inl e ↦ absurd (ground (arith, ten_to-pos k))
  | inr e ↦ rw e (
      omega (
        arith,
        length-append (decimal_digits fuel (n / 10)) ((n % 10 + b'0') ∷ []),
        decimal_digits-length fuel (n / 10) k (omega arith) (omega arith),
      ))
]

pub decimal-AreDigits : (n : ℕ) → AreDigits (decimal n)
unfolding decimal
decimal-AreDigits n = decimal_digits-AreDigits 20 n

-- There is at least one digit.
pub decimal-cons : (n : ℕ) → (d : ℕ) × (ds : Bytes) × (decimal n ≡ d ∷ ds)
unfolding decimal
decimal-cons n = not_empty (decimal_digits 20 n) (length-decimal_digits_pos 19 n)

-- A number of k + 1 digits.
pub length-decimal :
    (n k : ℕ) → k < 20 → ten_to k ≤ n → n < ten_to (suc k) → length (decimal n) ≡ suc k
unfolding decimal
length-decimal n k p h h' =
    omega
      (arith, decimal_digits-length 20 n k p h, length-decimal_digits 20 n (suc k) (omega arith) h')

pub length-decimal_digit : (n : ℕ) → n < 10 → length (decimal n) ≡ 1
unfolding decimal decimal_digits
length-decimal_digit n h = let e : ltb n 10 ≡ true = ground arith in rw e refl

pub length-decimal_most : (n k : ℕ) → 0 < k → n < ten_to k → length (decimal n) ≤ k
unfolding decimal
length-decimal_most n k p h = length-decimal_digits 20 n k p h

pub get_int-decimal : (n : ℕ) → n < 2 ^ 31 → get_int (decimal n) ≡ pos n
unfolding decimal
get_int-decimal n h =
    let e : number_from 0 (decimal_digits 20 n) ≡ n =
      number_from-decimal_digits 20 n (omega arith) in
    rw e at (get_int-number (decimal_digits 20 n) (rw e h))

length-hex_digits : (n w : ℕ) → length (hex_digits n w) ≡ n
unfolding hex_digits
length-hex_digits zero w = refl
length-hex_digits (suc n) w = omega (
  arith,
  length-append (hex_digits n (w / 16)) (hex_digit (w % 16) ∷ []),
  length-hex_digits n (w / 16),
)

pub length-print_hex : (w : ℕ) → length (print_hex w) ≡ 8
unfolding print_hex
length-print_hex w = length-hex_digits 8 w
