-- ===== src/Cache/FileNames.antt =====
-- The names of the cache's files and its directories: cddb_cache_file_name, cddb_cache_exists and
-- cddb_cache_mkdir of lib/cddb_cmd.c. What stat and mkdir find is a parameter.
use libcddb.Base.{
  take_all, ℕ, suc, ◌+◌, ◌-◌, ◌^◌, ◌<◌, ◌≡◌, refl, sym, ap, subst, ◌∙◌, arith, not, if◌then◌else◌,
  Bool, true, false, length, length-append, take, drop, Option, none, some, List, [], ◌∷◌, ◌++◌,
  Bytes, codes, CString, Run, value, fault, value-injective, ◌>>=◌,
}
use libcddb.Category.{Category, category_name, find_name, named}
use libcddb.Category.Names.{IsNameOf, category_name-IsNameOf}
use libcddb.Regex.Words.{is_alpha, span, All, span-append}
use libcddb.Regex.Hex.{get_hex, get_hex-print_hex}
use libcddb.Format.Decimal.{length-print_hex}
use libcddb.Format.{print_hex}

-- `strlen` and `%s` of a directory that may be NULL, and of a name behind the array.
abbrev pub present {ℓ} : {A : Type ℓ} → CString → (Bytes → Run A) → Run A
present none f = fault
present (some s) f = f s

-- `snprintf(fn, len + 1, "%s/%s/%08x", …)`
unfoldable pub file_text : Bytes → Bytes → ℕ → Bytes
file_text dir name discid = dir ++ b'/' ∷ (name ++ b'/' ∷ print_hex discid)

unfoldable pub cache_file_name : CString → Category → ℕ → Run Bytes
unfolding file_text
cache_file_name cache_dir category discid = present cache_dir λ dir.
    present (category_name category) λ name.
      let len = length dir + length name + 11 in value (take len (file_text dir name discid))

-- What stat finds at a path: nothing, or a file that is regular or not.
abbrev pub Stat : Type 0
Stat = Bytes → Option Bool

abbrev pub is_regular : Option Bool → Bool
is_regular none = false
is_regular (some regular) = regular

unfoldable pub cache_exists : Stat → CString → Category → ℕ → Run Bool
unfolding cache_file_name
cache_exists stat cache_dir category discid = do
  fn ← cache_file_name cache_dir category discid
  value (is_regular (stat fn))

-- What mkdir does with a path: a new directory, EEXIST, or another error.
pub data Made : Type 0 where
  created already_there refused : Made

abbrev pub there : Made → Bool
there refused = false
there _ = true

-- `snprintf(fn, c->buf_size, "%s/%s", …)`
unfoldable pub category_dir : ℕ → Bytes → Bytes → Bytes
category_dir buf_size dir name = take (buf_size - 1) (dir ++ codes "/" ++ name)

-- The two directories, in this order; the second is not tried when the first cannot be there.
unfoldable pub cache_mkdir : (Bytes → Made) → ℕ → CString → Category → Run Bool
unfolding category_dir
cache_mkdir mkdir buf_size cache_dir category = present cache_dir λ dir.
    if not (there (mkdir dir))
    then value false
    else present (category_name category)
        λ name. value (there (mkdir (category_dir buf_size dir name)))

behind {ℓ} : {A : Type ℓ} (xs ys : List A) (x : A) → drop (suc (length xs)) (xs ++ x ∷ ys) ≡ ys
behind [] ys x = refl
behind (y ∷ xs) ys x = behind xs ys x

length-file_text :
    (dir name : Bytes) (discid : ℕ)
    → length (file_text dir name discid) ≡ length dir + length name + 10
unfolding file_text
length-file_text dir name discid = omega (
  arith,
  length-append dir (b'/' ∷ (name ++ b'/' ∷ print_hex discid)),
  length-append name (b'/' ∷ print_hex discid),
  length-print_hex discid,
)

-- The buffer takes the whole name.
cache_file_name-file_text :
    (dir name : Bytes) (category : Category) (discid : ℕ)
    → category_name category ≡ some name
    → cache_file_name (some dir) category discid ≡ value (file_text dir name discid)
unfolding cache_file_name
cache_file_name-file_text dir name category discid e = rw e (
    ap value (
      take_all (length dir + length name + 11) (file_text dir name discid)
        (omega (arith, length-file_text dir name discid))))

-- The parts of a file's name.
file_text-parts :
    (dir name : Bytes) (discid : ℕ)
    → All is_alpha name
    → span is_alpha (drop (suc (length dir)) (file_text dir name discid))
      ≡ (name, b'/' ∷ print_hex discid)
unfolding file_text
file_text-parts dir name discid alpha =
    rw (behind dir (name ++ b'/' ∷ print_hex discid) b'/')
      (span-append is_alpha name b'/' (print_hex discid) alpha refl)

-- Two discs have the same file only if their categories and their disc IDs are the same, and each
-- file name is whole: the directory, the category and the disc ID with a slash between.
pub cache_file_name_injective :
    (dir fn name name' : Bytes) (c c' : Category) (discid discid' : ℕ)
    → category_name c ≡ some name
    → category_name c' ≡ some name'
    → discid < 2 ^ 32
    → discid' < 2 ^ 32
    → cache_file_name (some dir) c discid ≡ value fn
    → cache_file_name (some dir) c' discid' ≡ value fn
    → (c ≡ c') × (discid ≡ discid') × (fn ≡ file_text dir name discid)
cache_file_name_injective dir fn name name' c c' discid discid' e e' h h' k k' =
    let (some_name, alpha, finds) = subst (IsNameOf c) e (category_name-IsNameOf c) in
    let (some_name', alpha', finds') = subst (IsNameOf c') e' (category_name-IsNameOf c') in
    let text = value-injective _ fn (sym (cache_file_name-file_text dir name c discid e) ∙ k) in
    let text' =
      value-injective _ fn (sym (cache_file_name-file_text dir name' c' discid' e') ∙ k') in
    let parts =
      sym (file_text-parts dir name discid alpha)
      ∙ ap (λ s. span is_alpha (drop (suc (length dir)) s)) (text ∙ sym text')
      ∙ file_text-parts dir name' discid' alpha' in
    let names = ap (λ (p : Bytes × Bytes). p.0) parts in
    let ids = ap (λ (p : Bytes × Bytes). get_hex (drop 1 p.1)) parts in
    (
      sym finds ∙ ap (λ s. find_name s named) names ∙ finds',
      sym (get_hex-print_hex discid h) ∙ ids ∙ get_hex-print_hex discid' h',
      sym text,
    )
