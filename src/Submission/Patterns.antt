-- ===== src/Submission/Patterns.antt =====
-- The numbered lines of an entry are recognised by the patterns of lib/cddb_regex.c, which give back
-- the digits that cddb_write_data of lib/cddb_cmd.c wrote.
use mathlib.Core.List.{append_assoc, append-nil}
use libcddb.Base.{
  ℕ, zero, suc, ◌-◌, ◌≡◌, refl, arith, true, false, pos, some, [], ◌∷◌, ◌++◌, length, Bytes, codes,
}
use libcddb.Regex
use libcddb.Regex.{
  is_digit, is_blank, digits, blanks, some_digits, literal, get_int, titles, seconds,
}
use libcddb.Regex.Digits.{AreDigits, digits-append, digits_all}
use libcddb.Format.{decimal, print_int, spaces, pad}
use libcddb.Format.Decimal.{decimal-AreDigits, decimal-cons}

abbrev IsNumber : Bytes → Type 0
IsNumber s = (d : ℕ) × (ds : Bytes) × (s ≡ d ∷ ds)

some_digits_of : (s rest : Bytes) → IsNumber s → some_digits (s, rest) ≡ some (s, rest)
some_digits_of s rest (d, ds, e) = rw e refl

digit-not_blank : (d : ℕ) → is_digit d ≡ true → is_blank d ≡ false
digit-not_blank d h = ground arith

blanks-number : (s rest : Bytes) → IsNumber s → AreDigits s → blanks (s ++ rest) ≡ s ++ rest
unfolding blanks
blanks-number [] rest (d, ds, e) h = absurd (ground arith)
blanks-number (c ∷ s) rest i (h, hs) = rw (digit-not_blank c h) refl

-- Spaces in front of a number are skipped.
blanks-spaces :
    (n : ℕ) (s rest : Bytes) → IsNumber s → AreDigits s → blanks (spaces n ++ s ++ rest) ≡ s ++ rest
unfolding blanks
blanks-spaces zero s rest i h = blanks-number s rest i h
blanks-spaces (suc n) s rest i h = blanks-spaces n s rest i h

blanks-pad : (w n : ℕ) (rest : Bytes) → blanks (pad w (decimal n) ++ rest) ≡ decimal n ++ rest
blanks-pad w n rest =
    blanks-spaces (w - length (decimal n)) (decimal n) rest (decimal-cons n) (decimal-AreDigits n)

blanks-pad_all : (w n : ℕ) → blanks (pad w (decimal n)) ≡ decimal n
blanks-pad_all w n = simp append-nil at (blanks-pad w n [])

some_digits-decimal :
    (n : ℕ) (rest : Bytes) → some_digits (decimal n, rest) ≡ some (decimal n, rest)
some_digits-decimal n rest = some_digits_of (decimal n) rest (decimal-cons n)

digits-decimal : (n : ℕ) → digits (decimal n) ≡ (decimal n, [])
digits-decimal n = digits_all (decimal n) (decimal-AreDigits n)

pub track_frame_offset-print :
    (n : ℕ)
    → Regex.track_frame_offset (codes "#    " ++ pad 8 (print_int (pos n))) ≡ some (decimal n)
unfolding Regex.track_frame_offset literal print_int
track_frame_offset-print n = rw (blanks-pad_all 8 n, digits-decimal n, some_digits-decimal n [])

pub track_title-print :
    (n : ℕ) (s : Bytes)
    → Regex.track_title (codes "TTITLE" ++ print_int (pos n) ++ codes "=" ++ s)
      ≡ some (decimal n, titles s)
unfolding Regex.track_title literal print_int
track_title-print n s =
    rw
      (
        append_assoc,
        digits-append (decimal n) b'=' s (decimal-AreDigits n) refl,
        some_digits-decimal n (b'=' ∷ s),
      )
      refl

pub track_ext-print :
    (n : ℕ) (s : Bytes)
    → Regex.track_ext (codes "EXTT" ++ print_int (pos n) ++ codes "=" ++ s) ≡ some (decimal n, s)
unfolding Regex.track_ext literal print_int
track_ext-print n s =
    rw
      (
        append_assoc,
        digits-append (decimal n) b'=' s (decimal-AreDigits n) refl,
        some_digits-decimal n (b'=' ∷ s),
      )
      refl

pub disc_length-print :
    (n : ℕ)
    → Regex.disc_length (codes "# Disc length: " ++ pad 6 (print_int (pos n)) ++ codes " seconds")
      ≡ some (decimal n)
unfolding Regex.disc_length literal print_int
disc_length-print n =
    rw
      (
        blanks-pad 6 n (codes " seconds"),
        digits-append (decimal n) b' ' (codes "seconds") (decimal-AreDigits n) refl,
        some_digits-decimal n (codes " seconds"),
      )
      refl

pub disc_revision-print :
    (n : ℕ)
    → Regex.disc_revision (codes "# Revision: " ++ pad 8 (print_int (pos n))) ≡ some (decimal n)
unfolding Regex.disc_revision literal print_int
disc_revision-print n = rw (blanks-pad_all 8 n, digits-decimal n, some_digits-decimal n [])

pub disc_year-print :
    (n : ℕ) → Regex.disc_year (codes "DYEAR=" ++ print_int (pos n)) ≡ some (decimal n)
unfolding Regex.disc_year literal print_int
disc_year-print n = rw (digits-decimal n)
