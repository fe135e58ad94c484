-- ===== src/Regex/Digits.antt =====
-- The digits of a line, for the patterns and cddb_regex_get_int of lib/cddb_regex.c.
use libcddb.Base.{
  ℕ, ◌+◌, ◌-◌, ◌*◌, ◌<◌, ◌^◌, ◌≡◌, refl, arith, true, false, [], ◌∷◌, ◌++◌, Bytes, pos, to_int,
}
use libcddb.Regex.{is_digit, digits, number_from, get_int}

abbrev pub AreDigits : Bytes → Type 0
AreDigits [] = Unit {0}
AreDigits (c ∷ cs) = (is_digit c ≡ true) × AreDigits cs

pub AreDigits-append : (xs ys : Bytes) → AreDigits xs → AreDigits ys → AreDigits (xs ++ ys)
AreDigits-append [] ys h k = k
AreDigits-append (x ∷ xs) ys (h, hs) k = (h, AreDigits-append xs ys hs k)

-- The digits end at the first other byte.
pub digits-append :
    (ds : Bytes) (c : ℕ) (s : Bytes)
    → AreDigits ds
    → is_digit c ≡ false
    → digits (ds ++ c ∷ s) ≡ (ds, c ∷ s)
unfolding digits
digits-append [] c s h k = rw k
digits-append (d ∷ ds) c s (h, hs) k = rw (digits-append ds c s hs k, h)

pub digits_all : (ds : Bytes) → AreDigits ds → digits ds ≡ (ds, [])
unfolding digits
digits_all [] h = refl
digits_all (d ∷ ds) (h, hs) = rw (digits_all ds hs, h)

pub number_from-append :
    (n : ℕ) (xs ys : Bytes) → number_from n (xs ++ ys) ≡ number_from (number_from n xs) ys
number_from-append n [] ys = refl
number_from-append n (x ∷ xs) ys = number_from-append (n * 10 + (x - b'0')) xs ys

-- A number below 2^31 is read whole.
pub get_int-number : (s : Bytes) → number_from 0 s < 2 ^ 31 → get_int s ≡ pos (number_from 0 s)
unfolding get_int to_int
get_int-number s h = ground arith
