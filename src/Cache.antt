-- ===== src/Cache.antt =====
-- The local cache of lib/cddb_cmd.c and the modes of include/cddb/cddb_conn.h: the search for a
-- disc among the cache files, and the table query_cache in front of it. The files are a parameter,
-- the test whether there is a regular file for a category and a disc ID.
pub mod Query
pub mod Lines
pub mod FileNames
pub mod Side
use libcddb.Base.{
  ℕ, zero, suc, ◌/◌, ◌^◌, Bool, true, false, ◌==◌, if◌then◌else◌, Option, none, some, List, [], ◌∷◌,
  get_elem?, set, Run, value, fault,
}
use libcddb.Category.{Category, data_cat, invalid, searchable}
use libcddb.Errors.{ErrorCode, ok}
use libcddb.Disc.{Disc}

pub data CacheMode : Type 0 where
  cache_off cache_on cache_only : CacheMode

abbrev pub is_off : CacheMode → Bool
is_off cache_off = true
is_off _ = false

pub record CacheEntry : Type 0 where
  pub discid : ℕ
  pub category : Category

abbrev pub query_cache_size : ℕ
query_cache_size = 256

-- The static table, with the flag of its initialisation.
pub record QueryCache : Type 0 where
  pub entries : List CacheEntry
  pub query_cache_init : Bool

-- A test for the cache file of a category and a disc ID.
abbrev pub Files : Type 0
Files = Category → ℕ → Bool

-- The first `n` entries of the table get the category CDDB_CAT_INVALID.
unfoldable pub invalidate : ℕ → List CacheEntry → List CacheEntry
invalidate zero es = es
invalidate (suc n) [] = []
invalidate (suc n) (e ∷ es) = record e { category = invalid } ∷ invalidate n es

-- `i < sizeof(QUERY_CACHE_SIZE)`, the size of an `int`.
unfoldable pub cache_query_init : QueryCache → QueryCache
unfolding invalidate
cache_query_init cache =
    if cache.query_cache_init
    then cache
    else record { entries = invalidate 4 cache.entries; query_cache_init = true }

-- The upper 8 bits of the disc ID.
unfoldable pub cache_query_hash : ℕ → ℕ
cache_query_hash discid = discid / 2 ^ 24

-- What a query leaves: the table, the disc, the error number and the result.
pub record Queried : Type 0 where
  pub cache : QueryCache
  pub disc : Disc
  pub errno : ErrorCode
  pub found : Bool

-- The loop over the categories: the first one with a file for the disc ID.
unfoldable pub first_category : Files → ℕ → List Category → Option Category
first_category files discid [] = none
first_category files discid (cat ∷ cats) =
    let later = first_category files discid cats in if files cat discid then some cat else later

abbrev pub update : QueryCache → ℕ → CacheEntry → QueryCache
update cache hash entry = record cache { entries = set cache.entries hash entry }

-- A write behind the table is a fault.
abbrev pub write_entry : QueryCache → ℕ → CacheEntry → Run QueryCache
write_entry cache hash entry = elim (get_elem? cache.entries hash) [
  | none ↦ fault
  | some _ ↦ value (update cache hash entry)
]

abbrev found_on_disc : QueryCache → Disc → Category → Run QueryCache → Run Queried
found_on_disc cache disc cat fault = fault
found_on_disc cache disc cat (value updated) =
    value
      (record { cache = updated; disc = record disc { category = cat }; errno = ok; found = true })

unfoldable pub cache_query_disc : Files → QueryCache → Disc → ErrorCode → Run Queried
unfolding first_category cache_query_hash
cache_query_disc files cache disc errno = elim (first_category files disc.discid searchable) [
  | none ↦ value (record {
    cache = cache;
    disc = record disc { category = invalid };
    errno = errno;
    found = false;
  })
  | some cat ↦ found_on_disc cache disc cat (
      write_entry cache (cache_query_hash disc.discid)
        (record { discid = disc.discid; category = cat }))
]

-- The entry for the hash: the answer if it is for this disc ID.
unfoldable pub query_entry : Files → QueryCache → Disc → ErrorCode → Option CacheEntry → Run Queried
unfolding cache_query_disc
query_entry files cache disc errno none = fault
query_entry files cache disc errno (some entry) =
    let on_disc = cache_query_disc files cache disc errno in
    if entry.discid == disc.discid
    then value (record {
      cache = cache;
      disc = record disc { category = entry.category };
      errno = ok;
      found = true;
    })
    else on_disc

unfoldable pub cache_query : Files → CacheMode → QueryCache → Disc → ErrorCode → Run Queried
unfolding cache_query_init cache_query_hash query_entry
cache_query files mode cache disc errno =
    if is_off mode
    then value (record { cache = cache; disc = disc; errno = errno; found = false })
    else let ready = cache_query_init cache in
      query_entry files ready disc errno (get_elem? ready.entries (cache_query_hash disc.discid))
