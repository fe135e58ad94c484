-- ===== src/Regex/Hex.antt =====
-- Hexadecimal numbers, which lib/cddb_cmd.c writes by `%08x` and reads by strtoll.
use Prim.Native.Nat.{min}
use libcddb.Base.{
  ℕ, zero, suc, ◌+◌, ◌*◌, ◌-◌, ◌/◌, ◌%◌, ◌^◌, ◌<◌, ◌≡◌, refl, arith, if◌then◌else◌, true, leb,
  Bytes, [], ◌∷◌, ◌++◌,
}
use libcddb.Format.{print_hex, hex_digits, hex_digit}
use libcddb.Regex.{is_digit}
use libcddb.Regex.Words.{is_xdigit, All, All-append}

abbrev pub hex_value : ℕ → ℕ
hex_value c = if is_digit c then c - b'0' else if leb b'a' c then c - b'a' + 10 else c - b'A' + 10

unfoldable pub hex_from : ℕ → Bytes → ℕ
hex_from n [] = n
hex_from n (c ∷ s) = hex_from (n * 16 + hex_value c) s

-- `strtoll(…, 16)`, which stops at LLONG_MAX, as an `unsigned int`.
unfoldable pub get_hex : Bytes → ℕ
unfolding hex_from
get_hex s = min (hex_from 0 s) (2 ^ 63 - 1) % 2 ^ 32

hex_value-hex_digit : (d : ℕ) → d < 16 → hex_value (hex_digit d) ≡ d
hex_value-hex_digit d h = ground arith

is_xdigit-hex_digit : (d : ℕ) → d < 16 → is_xdigit (hex_digit d) ≡ true
is_xdigit-hex_digit d h = ground arith

pub hex_digits-All : (n w : ℕ) → All is_xdigit (hex_digits n w)
unfolding hex_digits
hex_digits-All zero w = tt
hex_digits-All (suc n) w =
    All-append is_xdigit (hex_digits n (w / 16)) _ (hex_digits-All n (w / 16))
      (is_xdigit-hex_digit (w % 16) (omega arith))

hex_from-append :
    (n : ℕ) (s : Bytes) (c : ℕ) → hex_from n (s ++ c ∷ []) ≡ hex_from n s * 16 + hex_value c
unfolding hex_from
hex_from-append n [] c = refl
hex_from-append n (x ∷ s) c = hex_from-append (n * 16 + hex_value x) s c

hex_from-hex_digits : (n w : ℕ) → w < 16 ^ n → hex_from 0 (hex_digits n w) ≡ w
unfolding hex_digits hex_from
hex_from-hex_digits zero w h = omega arith
hex_from-hex_digits (suc n) w h =
    let higher = hex_from-hex_digits n (w / 16) (omega arith) in
    rw
      (
        hex_from-append 0 (hex_digits n (w / 16)) (hex_digit (w % 16)),
        higher,
        hex_value-hex_digit (w % 16) (omega arith),
      )
      (omega arith)

pub get_hex-print_hex : (w : ℕ) → w < 2 ^ 32 → get_hex (print_hex w) ≡ w
unfolding get_hex print_hex
get_hex-print_hex w h = rw (hex_from-hex_digits 8 w h) (ground arith)
