-- ===== src/Category/Names.antt =====
-- The names of the categories and the search for one by its name.
use libcddb.Regex.Words.{is_alpha, All}
use libcddb.Base.{
  length, str_eq, ◌<◌, ◌≡◌, ◌≢◌, refl, true, false, ◌⊎◌, inl, inr, arith, Bool-cases, some, Option,
  none, List, [], ◌∷◌, Bytes, str_eq_iff,
}
use libcddb.Category.{Category, misc, last, named, category_name, find_name, is_name}

-- Of the categories of a list none has the name.
abbrev Unnamed : Bytes → List Category → Type 0
Unnamed text [] = Unit {0}
Unnamed text (c ∷ cs) = (category_name c ≢ some text) × Unnamed text cs

is_name-yes : (text : Bytes) (o : Option Bytes) → is_name text o ≡ true → o ≡ some text
is_name-yes text none h = cc
is_name-yes text (some name) h = ground (arith, str_eq_iff text name)

is_name-no : (text : Bytes) (o : Option Bytes) → is_name text o ≡ false → o ≢ some text
is_name-no text none h e = cc
is_name-no text (some name) h e = ground (arith, str_eq_iff text name)

find_name_cases :
    (text : Bytes) (cs : List Category)
    → (category_name (find_name text cs) ≡ some text)
      ⊎ (Unnamed text cs × (find_name text cs ≡ misc))
unfolding find_name
find_name_cases text [] = inr (tt, refl)
find_name_cases text (c ∷ cs) = elim (Bool-cases (is_name text (category_name c))) [
  | inl found ↦ rw found (inl (is_name-yes text (category_name c) found))
  | inr other ↦ rw other (elim (find_name_cases text cs) [
    | inl hit ↦ inl hit
    | inr (unnamed, e) ↦ inr ((is_name-no text (category_name c) other, unnamed), e)
  ])
]

last_unnamed : (text : Bytes) → category_name last ≢ some text
unfolding category_name
last_unnamed text e = cc

-- No category at all has a name that those of the list do not have.
none_named : (text : Bytes) → Unnamed text named → (c : Category) → category_name c ≢ some text
none_named text u last = last_unnamed text
none_named text u _ = assumption

-- The search among all the names finds the category with the name; only if there is none, it
-- answers `misc`.
find_name_total :
    (text : Bytes)
    → (category_name (find_name text named) ≡ some text)
      ⊎ (((c : Category) → category_name c ≢ some text) × (find_name text named ≡ misc))
find_name_total text = elim (find_name_cases text named) [
  | inl hit ↦ inl hit
  | inr (u, e) ↦ inr (none_named text u, e)
]

-- What the pattern and the search need of a name in CDDB_CATEGORY.
abbrev pub IsNameOf : Category → Option Bytes → Type 0
IsNameOf c none = Unit {0}
IsNameOf c (some name) = (0 < length name) × All is_alpha name × (find_name name named ≡ c)

pub category_name-IsNameOf : (c : Category) → IsNameOf c (category_name c)
unfolding category_name find_name str_eq
category_name-IsNameOf last = tt
category_name-IsNameOf c = (omega arith, ground arith, refl)
