-- ===== src/Response/Codes.antt =====
-- A line of a code and a message is read back: cddb_get_response_code of lib/cddb_cmd.c.
use Prim.Native.Nat.{min}
use libcddb.Base.{
  ℕ, ◌-◌, ◌<◌, ◌^◌, ◌≡◌, refl, arith, some, true, [], ◌∷◌, ◌++◌, Bytes, pos, wrap_int-pos,
}
use libcddb.Errors.{ErrorCode, ok}
use libcddb.Regex.{digits, number_from, is_digit}
use libcddb.Response.{skip_spaces, number_at, scan_int, after_space, get_response_code, positive}

abbrev pub AreDigits : Bytes → Type 0
AreDigits [] = Unit {0}
AreDigits (c ∷ cs) = (is_digit c ≡ true) × AreDigits cs

digits-append : (ds msg : Bytes) → AreDigits ds → digits (ds ++ b' ' ∷ msg) ≡ (ds, b' ' ∷ msg)
unfolding digits
digits-append [] msg h = refl
digits-append (d ∷ ds) msg (h, hs) = rw (digits-append ds msg hs, h)

after_space-append : (ds msg : Bytes) → AreDigits ds → after_space (ds ++ b' ' ∷ msg) ≡ some msg
unfolding after_space
after_space-append [] msg h = refl
after_space-append (d ∷ ds) msg (h, hs) = ground (arith, h, after_space-append ds msg hs)

scan_int-append :
    (d : ℕ) (ds msg : Bytes)
    → AreDigits (d ∷ ds)
    → scan_int (d ∷ ds ++ b' ' ∷ msg) ≡ some (positive (number_from 0 (d ∷ ds)))
unfolding scan_int skip_spaces number_at
scan_int-append d ds msg (h, hs) = ground (arith, h, digits-append (d ∷ ds) msg (h, hs))

-- A line that starts with a number below 2^31 in decimal digits and a space gives that number, the
-- rest as the message, and clears the error.
pub get_response_code-answer :
    (errno : ErrorCode) (d : ℕ) (ds msg : Bytes)
    → AreDigits (d ∷ ds)
    → number_from 0 (d ∷ ds) < 2 ^ 31
    → get_response_code errno (some (d ∷ ds ++ b' ' ∷ msg))
      ≡ record { errno = ok; code = pos (number_from 0 (d ∷ ds)); msg = msg }
unfolding get_response_code
get_response_code-answer errno d ds msg h small =
    let m : min (number_from 0 (d ∷ ds)) (2 ^ 63 - 1) ≡ number_from 0 (d ∷ ds) = omega arith in
    rw (
      scan_int-append d ds msg h,
      after_space-append (d ∷ ds) msg h,
      m,
      wrap_int-pos (number_from 0 (d ∷ ds)) small,
    )
