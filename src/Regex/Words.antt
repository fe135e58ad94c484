-- ===== src/Regex/Words.antt =====
-- Words of a line, for the patterns of queries and sites in lib/cddb_regex.c.
use libcddb.Base.{
  ℕ, ◌<◌, ◌≡◌, refl, arith, leb, ◌||◌, ◌&&◌, if◌then◌else◌, Bool, true, false, length, Option, none,
  [], ◌∷◌, ◌++◌, Bytes,
}
use libcddb.Regex.{is_blank, is_digit}

-- `[[:alpha:]]` and `[[:xdigit:]]`
abbrev pub is_alpha : ℕ → Bool
is_alpha c = (leb b'a' c && leb c b'z') || (leb b'A' c && leb c b'Z')

abbrev pub is_xdigit : ℕ → Bool
is_xdigit c = is_digit c || (leb b'a' c && leb c b'f') || (leb b'A' c && leb c b'F')

-- The longest start of such bytes, and what follows.
unfoldable pub span : (ℕ → Bool) → Bytes → Bytes × Bytes
span p [] = ([], [])
span p (c ∷ s) = let (xs, rest) = span p s in if p c then (c ∷ xs, rest) else ([], c ∷ s)

-- One or more of them and a blank.
abbrev pub word_then {ℓ} : {A : Type ℓ} → Bytes × Bytes → (Bytes → Bytes → Option A) → Option A
word_then (x ∷ xs, c ∷ rest) f = if is_blank c then f (x ∷ xs) rest else none
word_then _ f = none

-- Every byte passes a test.
abbrev pub All : (ℕ → Bool) → Bytes → Type 0
All p [] = Unit {0}
All p (c ∷ s) = (p c ≡ true) × All p s

pub All-append : (p : ℕ → Bool) (s : Bytes) (c : ℕ) → All p s → p c ≡ true → All p (s ++ c ∷ [])
All-append p [] c h k = (k, tt)
All-append p (x ∷ s) c (h, hs) k = (h, All-append p s c hs k)

pub span-append :
    (p : ℕ → Bool) (s : Bytes) (c : ℕ) (rest : Bytes)
    → All p s
    → p c ≡ false
    → span p (s ++ c ∷ rest) ≡ (s, c ∷ rest)
unfolding span
span-append p [] c rest h k = rw k refl
span-append p (x ∷ s) c rest (h, hs) k = rw (span-append p s c rest hs k, h) refl

pub word_then-some {ℓ} :
    {A : Type ℓ} (s rest : Bytes) (c : ℕ) (f : Bytes → Bytes → Option A)
    → 0 < length s
    → is_blank c ≡ true
    → word_then (s, c ∷ rest) f ≡ f s rest
word_then-some [] rest c f h k = absurd (omega arith)
word_then-some (x ∷ s) rest c f h k = rw k refl

-- A word and the blank behind it are taken off a line.
pub word_then-span {ℓ} :
    {A : Type ℓ} (p : ℕ → Bool) (s rest : Bytes) (f : Bytes → Bytes → Option A)
    → 0 < length s
    → All p s
    → p b' ' ≡ false
    → word_then (span p (s ++ b' ' ∷ rest)) f ≡ f s rest
word_then-span p s rest f some_byte all stop =
    rw (span-append p s b' ' rest all stop) (word_then-some s rest b' ' f some_byte refl)
