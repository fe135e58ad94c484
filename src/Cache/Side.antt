-- ===== src/Cache/Side.antt =====
-- What cddb_parse_record of lib/cddb_cmd.c finds of the cache, and cddb_cache_open. What stat, mkdir
-- and fopen find is a parameter.
use libcddb.Base.{ℕ, ◌&&◌, ◌||◌, if◌then◌else◌, Bool, false, Bytes, CString, Run, value, ◌>>=◌}
use libcddb.Category.{Category}
use libcddb.Cache.{CacheMode, is_off}
use libcddb.Cache.FileNames.{Stat, Made, cache_file_name, cache_exists, cache_mkdir}

-- The mode, whether the lines come out of the cache, what cddb_cache_exists answers, and what
-- cddb_cache_mkdir and cddb_cache_open do together.
pub record CacheSide : Type 0 where
  pub use_cache : CacheMode
  pub cache_read : Bool
  pub exists : Run Bool
  pub opened : Run Bool

-- The condition under which the lines are copied to the cache.
abbrev pub caches : CacheSide → Run Bool
caches c =
    if c.cache_read || is_off c.use_cache
    then value false
    else do known ← c.exists; if known then value false else c.opened

-- `fopen` tells whether a file can be opened to be written.
unfoldable pub cache_open : (Bytes → Bool) → CString → Category → ℕ → Run Bool
cache_open fopen cache_dir category discid = do
  fn ← cache_file_name cache_dir category discid
  value (fopen fn)

-- `cache_content &= cddb_cache_open(c, disc, "w")`: the file is opened whatever mkdir did.
unfoldable pub make_file : (Bytes → Made) → (Bytes → Bool) → ℕ → CString → Category → ℕ → Run Bool
unfolding cache_open
make_file mkdir fopen buf_size cache_dir category discid = do
  made ← cache_mkdir mkdir buf_size cache_dir category
  opened ← cache_open fopen cache_dir category discid
  value (made && opened)

-- What the code asks, with the functions that it calls.
abbrev pub cache_side :
    Stat
    → (Bytes → Made)
    → (Bytes → Bool)
    → CacheMode
    → Bool
    → ℕ
    → CString
    → Category
    → ℕ
    → CacheSide
cache_side stat mkdir fopen mode from_cache buf_size cache_dir category discid = record {
  use_cache = mode;
  cache_read = from_cache;
  exists = cache_exists stat cache_dir category discid;
  opened = make_file mkdir fopen buf_size cache_dir category discid;
}
