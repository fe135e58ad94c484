-- ===== src/Category.antt =====
-- `cddb_cat_t` of include/cddb/cddb_disc.h and the names CDDB_CATEGORY of lib/cddb_disc.c.
pub mod Names
use libcddb.Base.{
  ℕ, Bool, ◌==◌, if◌then◌else◌, Option, none, some, List, [], ◌∷◌, Bytes, codes, str_eq,
}

pub data Category : Type 0 where
  data_cat folk jazz misc rock country blues newage reggae classical soundtrack : Category
  invalid last : Category

abbrev pub index : Category → ℕ
index data_cat = 0
index folk = 1
index jazz = 2
index misc = 3
index rock = 4
index country = 5
index blues = 6
index newage = 7
index reggae = 8
index classical = 9
index soundtrack = 10
index invalid = 11
index last = 12

abbrev pub same : Category → Category → Bool
same a b = index a == index b

-- CDDB_CATEGORY; `last` is its size, and lies outside it.
unfoldable pub category_name : Category → Option Bytes
category_name data_cat = some (codes "data")
category_name folk = some (codes "folk")
category_name jazz = some (codes "jazz")
category_name misc = some (codes "misc")
category_name rock = some (codes "rock")
category_name country = some (codes "country")
category_name blues = some (codes "blues")
category_name newage = some (codes "newage")
category_name reggae = some (codes "reggae")
category_name classical = some (codes "classical")
category_name soundtrack = some (codes "soundtrack")
category_name invalid = some (codes "invalid")
category_name last = none

-- The categories below CDDB_CAT_INVALID in the order of the enumeration.
abbrev pub searchable : List Category
searchable =
    data_cat ∷ folk ∷ jazz ∷ misc ∷ rock ∷ country ∷ blues ∷ newage ∷ reggae ∷ classical
    ∷ soundtrack ∷ []

-- Those below CDDB_CAT_LAST.
abbrev pub named : List Category
named =
    data_cat ∷ folk ∷ jazz ∷ misc ∷ rock ∷ country ∷ blues ∷ newage ∷ reggae ∷ classical
    ∷ soundtrack ∷ invalid ∷ []

abbrev pub is_name : Bytes → Option Bytes → Bool
is_name text none = Bool.false
is_name text (some name) = str_eq text name

-- The loop of cddb_disc_set_category_str: the first entry with the name, or `misc`.
unfoldable pub find_name : Bytes → List Category → Category
find_name text [] = misc
find_name text (c ∷ cs) = if is_name text (category_name c) then c else find_name text cs
