-- ===== src/Regex/Split.antt =====
-- The split of a title line at its last ` / `, REGEX_DISC_TITLE and REGEX_TRACK_TITLE of
-- lib/cddb_regex.c.
use libcddb.Base.{ℕ, ◌≡◌, refl, arith, Option, none, some, [], ◌∷◌, ◌++◌, Bytes, codes}
use libcddb.Regex.{literal, split_at, split_last, Titles, both, one}

abbrev pub slash : Bytes
slash = codes " / "

-- The text that a line with these groups has.
abbrev pub joined : Titles → Bytes
joined (both artist title) = artist ++ slash ++ title
joined (one text) = text

literal-slash : (s t : Bytes) → literal slash s ≡ some t → s ≡ slash ++ t
unfolding literal
literal-slash (a ∷ b ∷ c ∷ s) t h = grind arith
literal-slash _ t h = ground arith

literal_after : (t : Bytes) → literal slash (slash ++ t) ≡ some t
unfolding literal
literal_after t = refl

split_at-joined :
    (c : ℕ) (s a b : Bytes) (later : Option (Bytes × Bytes))
    → split_last s ≡ later
    → ((x y : Bytes)
        → later ≡ some (x, y)
        → (s ≡ x ++ slash ++ y) × (split_last (codes "/ " ++ y) ≡ none))
    → split_at c s later ≡ some (a, b)
    → (c ∷ s ≡ a ++ slash ++ b) × (split_last (codes "/ " ++ b) ≡ none)
split_at-joined c s a b (some (x, y)) e ih h = grind (arith, ih x y refl)
split_at-joined c s a b none e ih h = grind (arith, literal-slash (c ∷ s) b)

-- The two groups are the text around a ` / `, and no later one starts in the rest.
split_last-joined :
    (s a b : Bytes)
    → split_last s ≡ some (a, b)
    → (s ≡ a ++ slash ++ b) × (split_last (codes "/ " ++ b) ≡ none)
unfolding split_last
split_last-joined [] a b h = ground arith
split_last-joined (c ∷ s) a b h =
    split_at-joined c s a b (split_last s) refl (split_last-joined s) h

-- Whatever the text before it, the last ` / ` is found.
pub split_last-append :
    (a b : Bytes) → split_last (codes "/ " ++ b) ≡ none → split_last (a ++ slash ++ b) ≡ some (a, b)
unfolding split_last
split_last-append [] b h = rw h
split_last-append (c ∷ a) b h = rw (split_last-append a b h)
