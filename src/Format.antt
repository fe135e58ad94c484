-- ===== src/Format.antt =====
-- The conversions of printf that the commands and entries of lib/cddb_cmd.c are written with.
pub mod Decimal
use libcddb.Base.{
  ℕ, zero, suc, ◌+◌, ◌-◌, ◌/◌, ◌%◌, ltb, if◌then◌else◌, ℤ, pos, negsuc, [], ◌∷◌, ◌++◌, length,
  Bytes,
}

-- Decimal digits, with fuel for as many.
unfoldable pub decimal_digits : ℕ → ℕ → Bytes
decimal_digits zero n = []
decimal_digits (suc fuel) n =
    let higher = decimal_digits fuel (n / 10) in
    if ltb n 10 then (n + b'0') ∷ [] else higher ++ ((n % 10 + b'0') ∷ [])

-- Twenty digits are enough below 2^64.
unfoldable pub decimal : ℕ → Bytes
decimal n = decimal_digits 20 n

-- `%d`
unfoldable pub print_int : ℤ → Bytes
print_int (pos n) = decimal n
print_int (negsuc n) = b'-' ∷ decimal (suc n)

abbrev pub spaces : ℕ → Bytes
spaces zero = []
spaces (suc n) = b' ' ∷ spaces n

-- `%8d` and the like
abbrev pub pad : ℕ → Bytes → Bytes
pad width s = spaces (width - length s) ++ s

abbrev pub hex_digit : ℕ → ℕ
hex_digit d = if ltb d 10 then d + b'0' else d - 10 + b'a'

-- `n` hexadecimal digits.
unfoldable pub hex_digits : ℕ → ℕ → Bytes
hex_digits zero w = []
hex_digits (suc n) w = hex_digits n (w / 16) ++ hex_digit (w % 16) ∷ []

-- `%08x` of an `unsigned int`
unfoldable pub print_hex : ℕ → Bytes
print_hex w = hex_digits 8 w
