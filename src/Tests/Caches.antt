-- ===== src/Tests/Caches.antt =====
-- Examples for Cache.
use libcddb.Base.{ℕ, Bytes, codes, ◌≡◌, refl, arith, value, false, ◌==◌, ◌*◌, ◌^◌}
use libcddb.Category.{jazz, category_name}
use libcddb.Format.{print_hex, hex_digits}
use libcddb.Cache.FileNames.{file_text, cache_file_name, cache_file_name_injective}
use libcddb.Errors.{ok}
use libcddb.Disc.{Disc, disc_new}
use libcddb.Cache.{cache_on, Queried, Files, cache_query}
use libcddb.Cache.Query.{Answers, cache_query-Answers, static_cache, static_cache-IsFaithful}

-- One file, for a jazz disc.
abbrev one_file : Files
one_file = λ cat discid. elim cat [ jazz ↦ discid == 3 * 2 ^ 24 | _ ↦ false ]

abbrev three : Disc
three = record disc_new { discid = 3 * 2 ^ 24 }

cache_query-Answers_example :
    (r : Queried) × (cache_query one_file cache_on static_cache three ok ≡ value r)
    × Answers one_file three r
cache_query-Answers_example =
    cache_query-Answers one_file cache_on static_cache three ok (static_cache-IsFaithful one_file)
      refl (λ e. absurd (omega arith)) (omega arith)

abbrev slave_dir : Bytes
slave_dir = codes "/home/u/.cddbslave"

abbrev id : ℕ
id = 195

cache_file_name_injective_example :
    (jazz ≡ jazz)
    × (id ≡ id)
    × (codes "/home/u/.cddbslave/jazz/000000c3" ≡ file_text slave_dir (codes "jazz") id)
unfolding cache_file_name file_text print_hex hex_digits category_name
cache_file_name_injective_example =
    cache_file_name_injective slave_dir (codes "/home/u/.cddbslave/jazz/000000c3") (codes "jazz")
      (codes "jazz") jazz jazz id id refl refl (omega arith) (omega arith) refl refl
