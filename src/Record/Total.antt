-- ===== src/Record/Total.antt =====
-- cddb_parse_record of lib/cddb_cmd.c ends without a fault on a valid disc.
use libcddb.Category.{Category, category_name}
use libcddb.Cache.{CacheMode, is_off}
use libcddb.Cache.FileNames.{Stat, Made, there, cache_exists, cache_file_name, cache_mkdir}
use libcddb.Cache.Side.{cache_side, make_file, cache_open, CacheSide, caches}
use libcddb.Base.{
  false, true, not, ◌||◌, unlines, some, Bool, ℕ, Bool-cases, inl, inr, ◌≡◌, refl, List, [], ◌∷◌,
  Bytes, Run, value, fault, ◌>>=◌, if◌then◌else◌,
}
use libcddb.Charset.{Iconv}
use libcddb.Disc.{Disc}
use libcddb.Disc.Chain.{IsValid}
use libcddb.Disc.Convert.Chain.{disc_iconv-IsValid}
use libcddb.Record as Rec
use libcddb.Record.Cases as Cases
use libcddb.Record.Loop.{
  Left, ended, missing, prepend, after_line, read_lines, Reading, finish, parser_start,
  parse_record,
}
use libcddb.Record.Valid.{Fine}
use libcddb.Record.Safe.{switch_line-Fine}

-- A way out of the loop with a valid disc.
abbrev IsValidLeft : Left → Type 0
IsValidLeft (ended q) = IsValid q.disc
IsValidLeft (missing q) = IsValid q.disc

abbrev Leaves : Run (List Bytes × Left) → Type 0
Leaves r = (w : List Bytes) × (left : Left) × (r ≡ value (w, left)) × IsValidLeft left

prepend-Leaves :
    (line : Bytes) (r : Run (List Bytes × Left)) → Leaves r → Leaves (r >>= prepend line)
prepend-Leaves line r (w, left, e, v) = (line ∷ w, left, rw e refl, v)

after_line-Leaves :
    (line : Bytes) (further : Rec.Parser → Run (List Bytes × Left)) (step : Run Rec.Step)
    → ((q : Rec.Parser) → IsValid q.disc → Leaves (further q))
    → Fine step
    → Leaves (step >>= after_line line further)
after_line-Leaves line further fault goes v = absurd v
after_line-Leaves line further (value (Rec.track_not_found q)) goes v =
    (line ∷ [], missing q, refl, v)
after_line-Leaves line further (value (Rec.next q)) goes v =
    elim (Bool-cases (Rec.is_stop q.state)) [
      | inl e ↦ (line ∷ [], ended q, rw (after_line, e) refl, v)
      | inr e ↦
          let (w, left, f, k) = prepend-Leaves line (further q) (goes q v) in
          (w, left, rw (after_line, e) f, k)
    ]

read_lines-Leaves :
    (lines : List Bytes) (p : Rec.Parser) → IsValid p.disc → Leaves (read_lines lines p)
unfolding read_lines
read_lines-Leaves [] p v = ([], ended _, refl, v)
read_lines-Leaves (line ∷ rest) p v =
    after_line-Leaves line (read_lines rest) (Cases.switch_line line p)
      (λ q k. read_lines-Leaves rest q k) (switch_line-Fine line p v)

finish-IsValid :
    (cd : Iconv) (c : CacheSide) (w : Bytes) (left : Left)
    → IsValidLeft left
    → IsValid (finish cd c w left).disc
unfolding finish
finish-IsValid cd c w (missing q) v = v
finish-IsValid cd c w (ended q) v = elim (Bool-cases (Rec.is_stop q.state)) [
  | inl e ↦ rw e (disc_iconv-IsValid cd q.disc v)
  | inr e ↦ rw e v
]

abbrev HasValue : Run Bool → Type 0
HasValue r = (b : Bool) × (r ≡ value b)

if-HasValue :
    (b : Bool) (r r' : Run Bool) → HasValue r → HasValue r' → HasValue (if b then r else r')
if-HasValue true r r' h k = h
if-HasValue false r r' h k = k

bind-HasValue :
    (r : Run Bool) (f : Bool → Run Bool)
    → HasValue r
    → ((a : Bool) → HasValue (f a))
    → HasValue (r >>= f)
bind-HasValue r f (a, e) h = rw e (h a)

-- With a cache directory and a category of the array, each question has an answer.
caches-value :
    (stat : Stat) (mkdir : Bytes → Made) (fopen : Bytes → Bool) (mode : CacheMode)
    (from_cache : Bool) (buf_size : ℕ) (dir name : Bytes) (category : Category) (discid : ℕ)
    → category_name category ≡ some name
    → (b : Bool) × (caches
          (cache_side stat mkdir fopen mode from_cache buf_size (some dir) category discid)
        ≡ value b)
unfolding cache_exists cache_file_name make_file cache_open cache_mkdir
caches-value stat mkdir fopen mode from_cache buf_size dir name category discid e = rw e (
    if-HasValue (from_cache || is_off mode) _ _ (false, refl)
      (if-HasValue _ _ _ (false, refl)
        (bind-HasValue _ _ (if-HasValue (not (there (mkdir dir))) _ _ (false, refl) (_, refl))
          (λ made. (_, refl)))))

-- With any iconv with which cddb_str_iconv goes wrong on no text, whatever the lines are and
-- whatever stat, mkdir and fopen find, when the connection has a cache directory and the disc a
-- category of the array, an entry is read into a valid disc to the end without a fault, and leaves a valid disc.
pub parse_record-IsValid :
    (cd : Iconv) (stat : Stat) (mkdir : Bytes → Made) (fopen : Bytes → Bool) (mode : CacheMode)
    (from_cache : Bool) (buf_size : ℕ) (dir name : Bytes) (lines : List Bytes) (disc : Disc)
    → category_name disc.category ≡ some name
    → IsValid disc
    → (r : Reading) × (parse_record cd
          (cache_side stat mkdir fopen mode from_cache buf_size
            (some dir)
            disc.category
            disc.discid)
          lines
          disc
        ≡ value r)
      × IsValid r.disc
unfolding parse_record
parse_record-IsValid cd stat mkdir fopen mode from_cache buf_size dir name lines disc e v =
    let c =
      cache_side stat mkdir fopen mode from_cache buf_size (some dir) disc.category disc.discid in
    let (w, left, f, k) = read_lines-Leaves lines (parser_start disc) v in
    let (b, g) =
      caches-value stat mkdir fopen mode from_cache buf_size dir name disc.category disc.discid e in
    let w' = if b then unlines w else [] in
    (finish cd c w' left, rw (g, f) refl, finish-IsValid cd c w' left k)
