-- ===== src/Regex.antt =====
-- The patterns of lib/cddb_regex.c that a database entry is read with, as functions that give the
-- matched groups, and cddb_regex_get_int. A star takes as much as it can, so `(.*) / (.*)` splits
-- at the last ` / `; the first alternative of `(.*) / (.*)|(.*)` is taken where it matches.
pub mod Split
pub mod Digits
pub mod Words
pub mod Hex
use Prim.Native.Nat.{min}
use libcddb.Base.{
  ℕ, ◌+◌, ◌-◌, ◌*◌, ◌^◌, ◌%◌, Bool, true, false, ◌&&◌, ◌||◌, leb, ◌==◌, if◌then◌else◌, Option, none,
  some, List, [], ◌∷◌, Bytes, codes, ℤ, to_int,
}

infixl 5 ◌>>=◌
abbrev pub ◌>>=◌ {ℓ κ} : {A : Type ℓ} {B : Type κ} → Option A → (A → Option B) → Option B
none >>= f = none
some a >>= f = f a

-- `[[:blank:]]` and `[0-9]`
abbrev pub is_blank : ℕ → Bool
is_blank c = c == b' ' || c == b'\t'

abbrev pub is_digit : ℕ → Bool
is_digit c = leb b'0' c && leb c b'9'

-- What follows a literal text.
unfoldable pub literal : Bytes → Bytes → Option Bytes
literal [] s = some s
literal (p ∷ ps) [] = none
literal (p ∷ ps) (c ∷ s) = let rest = literal ps s in if p == c then rest else none

-- `[[:blank:]]*`
unfoldable pub blanks : Bytes → Bytes
blanks [] = []
blanks (c ∷ s) = let rest = blanks s in if is_blank c then rest else c ∷ s

-- `[[:blank:]]+`
abbrev blanks1 : Bytes → Option Bytes
blanks1 [] = none
blanks1 (c ∷ s) = if is_blank c then some (blanks s) else none

-- `[0-9]*`: the digits, and what follows.
unfoldable pub digits : Bytes → Bytes × Bytes
digits [] = ([], [])
digits (c ∷ s) = let (ds, rest) = digits s in if is_digit c then (c ∷ ds, rest) else ([], c ∷ s)

-- `[0-9]+`
abbrev pub some_digits : Bytes × Bytes → Option (Bytes × Bytes)
some_digits ([], rest) = none
some_digits (d ∷ ds, rest) = some (d ∷ ds, rest)

-- `$`
abbrev at_end {ℓ} : {A : Type ℓ} → A → Bytes → Option A
at_end a [] = some a
at_end a (c ∷ s) = none

-- REGEX_TRACK_FRAME_OFFSETS: `^#[[:blank:]]*Track frame offsets:[[:blank:]]*$`
unfoldable pub track_frame_offsets : Bytes → Option (Unit {0})
unfolding literal blanks
track_frame_offsets line = do
  s ← literal (codes "#") line
  s ← literal (codes "Track frame offsets:") (blanks s)
  at_end tt (blanks s)

-- REGEX_TRACK_FRAME_OFFSET: `^#[[:blank:]]*([0-9]+)[[:blank:]]*$`
unfoldable pub track_frame_offset : Bytes → Option Bytes
unfolding literal blanks digits
track_frame_offset line = do
  s ← literal (codes "#") line
  found ← some_digits (digits (blanks s))
  at_end found.0 (blanks found.1)

-- `( seconds)*`, with one round of fuel for each byte.
unfoldable pub seconds : ℕ → Bytes → Bytes
seconds ℕ.zero s = s
seconds (ℕ.suc n) s = elim (literal (codes " seconds") s) [ none ↦ s | some rest ↦ seconds n rest ]

abbrev size : Bytes → ℕ
size [] = 0
size (c ∷ s) = ℕ.suc (size s)

-- REGEX_DISC_LENGTH: `^#[[:blank:]]*Disc length:[[:blank:]]+([0-9]+)( seconds)*[[:blank:]]*$`
unfoldable pub disc_length : Bytes → Option Bytes
unfolding literal blanks digits seconds
disc_length line = do
  s ← literal (codes "#") line
  s ← literal (codes "Disc length:") (blanks s)
  s ← blanks1 s
  found ← some_digits (digits s)
  at_end found.0 (blanks (seconds (size found.1) found.1))

-- REGEX_DISC_REVISION: `^#[[:blank:]]*Revision:[[:blank:]]+([0-9]+)[[:blank:]]*$`
unfoldable pub disc_revision : Bytes → Option Bytes
unfolding literal blanks digits
disc_revision line = do
  s ← literal (codes "#") line
  s ← literal (codes "Revision:") (blanks s)
  s ← blanks1 s
  found ← some_digits (digits s)
  at_end found.0 (blanks found.1)

-- The last ` / ` of a text: one in the rest, or else the one that starts here.
abbrev pub split_at : ℕ → Bytes → Option (Bytes × Bytes) → Option (Bytes × Bytes)
split_at c s (some (before, after)) = some (c ∷ before, after)
split_at c s none = elim (literal (codes " / ") (c ∷ s)) [
  | some after ↦ some ([], after)
  | none ↦ none
]

unfoldable pub split_last : Bytes → Option (Bytes × Bytes)
unfolding literal
split_last [] = none
split_last (c ∷ s) = split_at c s (split_last s)

-- The groups of `((.*) / (.*)|(.*))`.
pub data Titles : Type 0 where
  both : Bytes → Bytes → Titles
  one : Bytes → Titles

unfoldable pub titles : Bytes → Titles
unfolding split_last
titles s = elim (split_last s) [ some (artist, title) ↦ both artist title | none ↦ one s ]

-- REGEX_DISC_TITLE: `^DTITLE=((.*) / (.*)|(.*))$`
unfoldable pub disc_title : Bytes → Option Titles
unfolding literal titles
disc_title line = do s ← literal (codes "DTITLE=") line; some (titles s)

-- REGEX_DISC_YEAR: `^DYEAR=([0-9]*)$`
unfoldable pub disc_year : Bytes → Option Bytes
unfolding literal digits
disc_year line = do s ← literal (codes "DYEAR=") line; at_end (digits s).0 (digits s).1

-- REGEX_DISC_GENRE: `^DGENRE=(.*)$`
unfoldable pub disc_genre : Bytes → Option Bytes
unfolding literal
disc_genre line = literal (codes "DGENRE=") line

-- REGEX_DISC_EXT: `^EXTD=(.*)$`
unfoldable pub disc_ext : Bytes → Option Bytes
unfolding literal
disc_ext line = literal (codes "EXTD=") line

-- REGEX_TRACK_TITLE: `^TTITLE([0-9]+)=((.*) / (.*)|(.*))$`
unfoldable pub track_title : Bytes → Option (Bytes × Titles)
unfolding literal digits titles
track_title line = do
  s ← literal (codes "TTITLE") line
  found ← some_digits (digits s)
  s ← literal (codes "=") found.1
  some (found.0, titles s)

-- REGEX_TRACK_EXT: `^EXTT([0-9]+)=(.*)$`
unfoldable pub track_ext : Bytes → Option (Bytes × Bytes)
unfolding literal digits
track_ext line = do
  s ← literal (codes "EXTT") line
  found ← some_digits (digits s)
  s ← literal (codes "=") found.1
  some (found.0, s)

-- REGEX_PLAY_ORDER: `^PLAYORDER=(.*)$`
unfoldable pub play_order : Bytes → Option Bytes
unfolding literal
play_order line = literal (codes "PLAYORDER=") line

-- The number that digits spell.
abbrev pub number_from : ℕ → Bytes → ℕ
number_from n [] = n
number_from n (c ∷ s) = number_from (n * 10 + (c - b'0')) s

-- cddb_regex_get_int on digits: `atoi`, a `strtol` that stops at LONG_MAX, cut to an `int`.
unfoldable pub get_int : Bytes → ℤ
get_int s = to_int (min (number_from 0 s) (2 ^ 63 - 1) % 2 ^ 32)
