-- ===== src/Response.antt =====
-- cddb_get_response_code of lib/cddb_cmd.c: the code and the message of a server's answer.
pub mod Codes
use Prim.Native.Nat.{min}
use libcddb.Base.{
  ℕ, ◌-◌, ◌^◌, Bool, true, false, ◌||◌, ◌&&◌, leb, ◌==◌, if◌then◌else◌, Option, none, some, [], ◌∷◌,
  ℤ, pos, minus_one, sub_ℕ, wrap_int, Bytes,
}
use libcddb.Errors.{is_ok, ErrorCode, ok, unexpected_eof, invalid_response}
use libcddb.Regex.{digits, number_from}

-- What `sscanf` skips before a number.
abbrev pub is_space : ℕ → Bool
is_space c = c == b' ' || leb 9 c && leb c 13

unfoldable pub skip_spaces : Bytes → Bytes
skip_spaces [] = []
skip_spaces (c ∷ s) = let rest = skip_spaces s in if is_space c then rest else c ∷ s

abbrev signed : (ℕ → ℤ) → Bytes × Bytes → Option ℤ
signed f ([], rest) = none
signed f (d ∷ ds, rest) = some (f (number_from 0 (d ∷ ds)))

-- `strtol`, which stops at LONG_MAX and LONG_MIN, cut to an `int`.
abbrev pub positive : ℕ → ℤ
positive n = wrap_int (pos (min n (2 ^ 63 - 1)))

abbrev negative : ℕ → ℤ
negative n = wrap_int (sub_ℕ 0 (min n (2 ^ 63)))

unfoldable pub number_at : Bytes → Option ℤ
unfolding digits
number_at [] = none
number_at (c ∷ s) =
    if c == b'-'
    then signed negative (digits s)
    else if c == b'+'
    then signed positive (digits s)
    else signed positive (digits (c ∷ s))

-- `sscanf(line, "%d", &code)`
unfoldable pub scan_int : Bytes → Option ℤ
unfolding skip_spaces number_at
scan_int line = number_at (skip_spaces line)

-- `strchr(line, CHR_SPACE) + 1`
unfoldable pub after_space : Bytes → Option Bytes
after_space [] = none
after_space (c ∷ s) = let later = after_space s in if c == b' ' then some s else later

-- The error number that is left, the code and the message.
pub record Answer : Type 0 where
  pub errno : ErrorCode
  pub code : ℤ
  pub msg : Bytes

abbrev pub refused : ErrorCode → Answer
refused errno = record { errno = errno; code = minus_one; msg = [] }

abbrev pub answer : Option ℤ → Option Bytes → Answer
answer none msg = refused invalid_response
answer (some code) none = refused invalid_response
answer (some code) (some msg) = record { errno = ok; code = code; msg = msg }

-- `line` is what cddb_read_line gives. At the end of the stream an error number OK stays OK.
unfoldable pub get_response_code : ErrorCode → Option Bytes → Answer
unfolding scan_int after_space
get_response_code errno none = refused (if is_ok errno then errno else unexpected_eof)
get_response_code errno (some line) = answer (scan_int line) (after_space line)
