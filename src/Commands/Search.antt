-- ===== src/Commands/Search.antt =====
-- cddb_search_param_str of lib/cddb_cmd.c: what a text search asks for.
use libcddb.Base.{
  ℕ, ◌+◌, ◌-◌, Bool-cases, inl, inr, ◌*◌, ◌^◌, ◌≤◌, ◌<◌, arith, ◌==◌, if◌then◌else◌, Bool, true,
  false, not, bit_and, none, some, List, [], ◌∷◌, ◌++◌, length, length-append, Bytes, codes,
}
use libcddb.Category.{Category, index, category_name, searchable}

-- SEARCH_ALL as an `unsigned int`.
abbrev pub search_all : ℕ
search_all = 2 ^ 32 - 1

abbrev pub has_bit : ℕ → ℕ → Bool
has_bit flags bit = not (bit_and flags bit == 0)

abbrev pub when : Bool → Bytes → Bytes
when b text = if b then text else []

-- The names lie in the array, since the loop ends before CDDB_CAT_INVALID.
abbrev pub cat_text : Category → Bytes
unfolding category_name
cat_text c = elim (category_name c) [ none ↦ [] | some name ↦ codes "&cats=" ++ name ]

unfoldable pub cats_text : ℕ → List Category → Bytes
cats_text cats [] = []
cats_text cats (c ∷ cs) = when (has_bit cats (2 ^ index c)) (cat_text c) ++ cats_text cats cs

-- All of them, or none but those that follow.
abbrev pub all_or : ℕ → Bytes → Bytes
all_or flags text = if flags == search_all then codes "YES" else codes "NO" ++ text

unfoldable pub fields_text : ℕ → Bytes
fields_text fields =
    when (has_bit fields 1) (codes "&fields=artist")
    ++ when (has_bit fields 2) (codes "&fields=title")
    ++ when (has_bit fields 4) (codes "&fields=track")
    ++ when (has_bit fields 8) (codes "&fields=rest")

unfoldable pub search_param_str : ℕ → ℕ → Bytes
search_param_str fields cats =
    codes "&allfields="
    ++ all_or fields (fields_text fields)
    ++ codes "&allcats="
    ++ all_or cats (cats_text cats searchable)
    ++ codes "&grouping=cats"

-- `char paramstr[1024]`
abbrev pub paramstr_size : ℕ
paramstr_size = 1024

length-when : (b : Bool) (text : Bytes) → length (when b text) ≤ length text
length-when true text = omega arith
length-when false text = omega arith

length-cat_text : (c : Category) → length (cat_text c) ≤ 16
unfolding cat_text category_name
length-cat_text c = ground arith

length-cats_text : (cats : ℕ) (cs : List Category) → length (cats_text cats cs) ≤ 16 * length cs
unfolding cats_text
length-cats_text cats [] = omega arith
length-cats_text cats (c ∷ cs) = omega (
  arith,
  length-append (when (has_bit cats (2 ^ index c)) (cat_text c)) (cats_text cats cs),
  length-when (has_bit cats (2 ^ index c)) (cat_text c),
  length-cat_text c,
  length-cats_text cats cs,
)

length-fields_text : (fields : ℕ) → length (fields_text fields) ≤ 52
unfolding fields_text
length-fields_text fields =
    let a = when (has_bit fields 1) (codes "&fields=artist") in
    let b = when (has_bit fields 2) (codes "&fields=title") in
    let c = when (has_bit fields 4) (codes "&fields=track") in
    let d = when (has_bit fields 8) (codes "&fields=rest") in
    omega (
      arith,
      length-append (a ++ b ++ c) d,
      length-append (a ++ b) c,
      length-append a b,
      length-when (has_bit fields 1) (codes "&fields=artist"),
      length-when (has_bit fields 2) (codes "&fields=title"),
      length-when (has_bit fields 4) (codes "&fields=track"),
      length-when (has_bit fields 8) (codes "&fields=rest"),
    )

length-all_or : (flags : ℕ) (text : Bytes) → length (all_or flags text) ≤ 3 + length text
length-all_or flags text = elim (Bool-cases (flags == search_all)) [
  | inl e ↦ rw e (omega arith)
  | inr e ↦ rw e (omega arith)
]

-- Whatever fields and categories are searched, the parameters fit their buffer.
pub search_param_str-fits :
    (fields cats : ℕ) → length (search_param_str fields cats) < paramstr_size
unfolding search_param_str
search_param_str-fits fields cats =
    let a = all_or fields (fields_text fields) in
    let b = all_or cats (cats_text cats searchable) in
    omega (
      arith,
      length-append (codes "&allfields=" ++ a ++ codes "&allcats=" ++ b) (codes "&grouping=cats"),
      length-append (codes "&allfields=" ++ a ++ codes "&allcats=") b,
      length-append (codes "&allfields=" ++ a) (codes "&allcats="),
      length-append (codes "&allfields=") a,
      length-all_or fields (fields_text fields),
      length-all_or cats (cats_text cats searchable),
      length-fields_text fields,
      length-cats_text cats searchable,
    )
