-- ===== src/Cache/Query.antt =====
-- The table query_cache of lib/cddb_cmd.c against the search among the files.
use mathlib.Core.Option.{some-injective}
use libcddb.Base.{
  ap, ◌++◌, ℕ, zero, suc, ◌<◌, ◌/◌, ◌^◌, ◌≡◌, ◌≢◌, ◌⊎◌, inl, inr, refl, sym, ◌∙◌, arith, true,
  false, none, some, List, [], ◌∷◌, ◌==◌, Bool-cases, Option-cases, length, length-set, get_elem?,
  get_elem?-some, set, value,
}
use libcddb.Category.{Category, data_cat, invalid, searchable}
use libcddb.Errors.{ErrorCode, ok}
use libcddb.Disc.{Disc}
use libcddb.Cache.{
  write_entry, CacheMode, is_off, CacheEntry, query_cache_size, QueryCache, Files, invalidate,
  cache_query_init, cache_query_hash, Queried, first_category, update, cache_query_disc,
  query_entry, cache_query,
}

-- The table has its size, what it knows of a disc is what the files say, and it is empty before
-- its initialisation.
pub record IsFaithful (files : Files) (cache : QueryCache) : Type 0 where
  pub size : length cache.entries ≡ query_cache_size
  pub known :
      (i : ℕ) (e : CacheEntry)
      → get_elem? cache.entries i ≡ some e
      → e.discid ≢ 0
      → first_category files e.discid searchable ≡ some e.category
  pub fresh :
      cache.query_cache_init ≡ false
      → (i : ℕ) (e : CacheEntry) → get_elem? cache.entries i ≡ some e
      → e.discid ≡ 0

length-invalidate : (n : ℕ) (es : List CacheEntry) → length (invalidate n es) ≡ length es
unfolding invalidate
length-invalidate zero es = refl
length-invalidate (suc n) [] = refl
length-invalidate (suc n) (e ∷ es) = omega (arith, length-invalidate n es)

invalidate-discid :
    (n i : ℕ) (es : List CacheEntry) (e : CacheEntry)
    → get_elem? (invalidate n es) i ≡ some e
    → (d : CacheEntry) × (get_elem? es i ≡ some d) × (e.discid ≡ d.discid)
unfolding invalidate
invalidate-discid zero i es e h = (e, h, refl)
invalidate-discid (suc n) i [] e h = absurd (grind arith)
invalidate-discid (suc n) zero (x ∷ es) e h = (x, refl, grind arith)
invalidate-discid (suc n) (suc i) (x ∷ es) e h = invalidate-discid n i es e h

init-IsFaithful :
    (files : Files) (cache : QueryCache)
    → IsFaithful files cache
    → IsFaithful files (cache_query_init cache) × ((cache_query_init cache).query_cache_init ≡ true)
unfolding cache_query_init
init-IsFaithful files cache v = elim (Bool-cases cache.query_cache_init) [
  | inl k ↦
      rw k (record { size = v.size; known = v.known; fresh = λ z. absurd (grind arith) }, refl)
  | inr k ↦ rw k (
    record {
      size = length-invalidate 4 cache.entries ∙ v.size;
      known = λ i e h n.
          let (d, h', same) = invalidate-discid 4 i cache.entries e h in
          absurd (n (same ∙ v.fresh k i d h'));
      fresh = λ z. absurd (grind arith);
    },
    refl,
  )
]

get_elem?-set {ℓ} :
    {A : Type ℓ} (xs : List A) (h i : ℕ) (x y : A)
    → get_elem? (set xs h x) i ≡ some y
    → (x ≡ y) ⊎ (get_elem? xs i ≡ some y)
get_elem?-set [] h i x y e = inr e
get_elem?-set (z ∷ xs) zero zero x y e = inl (grind arith)
get_elem?-set (z ∷ xs) zero (suc i) x y e = inr e
get_elem?-set (z ∷ xs) (suc h) zero x y e = inr e
get_elem?-set (z ∷ xs) (suc h) (suc i) x y e = get_elem?-set xs h i x y e

update-IsFaithful :
    (files : Files) (cache : QueryCache) (hash : ℕ) (entry : CacheEntry)
    → cache.query_cache_init ≡ true
    → first_category files entry.discid searchable ≡ some entry.category
    → IsFaithful files cache
    → IsFaithful files (update cache hash entry)
update-IsFaithful files cache hash entry k f v = record {
  size = length-set cache.entries hash entry ∙ v.size;
  known = λ i e h n. elim (get_elem?-set cache.entries hash i entry e h) [
    | inl same ↦ rw same at f
    | inr h' ↦ v.known i e h' n
  ];
  fresh = λ z. absurd (grind arith);
}

-- None of the categories has a file for the disc ID.
abbrev pub LackIt : Files → ℕ → List Category → Type 0
LackIt files discid [] = Unit {0}
LackIt files discid (c ∷ cs) = (files c discid ≡ false) × LackIt files discid cs

-- A category with a file, and none before it in a list has one.
abbrev pub IsFirstIn : Files → ℕ → List Category → Category → Type 0
IsFirstIn files discid cats cat =
    (before : List Category) × (after : List Category) × (cats ≡ before ++ cat ∷ after)
    × LackIt files discid before
    × (files cat discid ≡ true)

-- What a query finds: a category, or none and CDDB_CAT_INVALID.
abbrev pub Finds : Files → Disc → Queried → Type 0
Finds files disc r =
    ((r.found ≡ true)
      × ((cat : Category) × (r.disc ≡ record disc { category = cat })
          × IsFirstIn files disc.discid searchable cat))
    ⊎ ((r.found ≡ false)
        × (r.disc ≡ record disc { category = invalid })
        × LackIt files disc.discid searchable)

first_category-LackIt :
    (files : Files) (discid : ℕ) (cats : List Category)
    → first_category files discid cats ≡ none
    → LackIt files discid cats
unfolding first_category
first_category-LackIt files discid [] e = tt
first_category-LackIt files discid (c ∷ cs) e = elim (Bool-cases (files c discid)) [
  | inl f ↦ absurd (let g = rw f at e in grind arith)
  | inr f ↦ (f, first_category-LackIt files discid cs (rw f at e))
]

first_category-IsFirstIn :
    (files : Files) (discid : ℕ) (cats : List Category) (cat : Category)
    → first_category files discid cats ≡ some cat
    → IsFirstIn files discid cats cat
unfolding first_category
first_category-IsFirstIn files discid [] cat e = absurd (grind arith)
first_category-IsFirstIn files discid (c ∷ cs) cat e = elim (Bool-cases (files c discid)) [
  | inl f ↦
      let same : c ≡ cat = some-injective _ _ (rw f at e) in
      ([], cs, ap (λ k. k ∷ cs) same, tt, ap (λ k. files k discid) (sym same) ∙ f)
  | inr f ↦
      let (before, after, split, lack, has) =
        first_category-IsFirstIn files discid cs cat (rw f at e) in
      (c ∷ before, after, ap (λ ks. c ∷ ks) split, (f, lack), has)
]

-- What a query promises: what the files say, and a faithful table.
pub record Answers (files : Files) (disc : Disc) (r : Queried) : Type 0 where
  pub finds : Finds files disc r
  pub faithful : IsFaithful files r.cache

module _ (files : Files) (cache : QueryCache) (disc : Disc) (errno : ErrorCode)
    (v : IsFaithful files cache) (k : cache.query_cache_init ≡ true)
    (small : disc.discid < 2 ^ 32) where
  entry_there : (e : CacheEntry) × (get_elem? cache.entries (cache_query_hash disc.discid) ≡ some e)
  unfolding cache_query_hash
  entry_there = get_elem?-some cache.entries (disc.discid / 2 ^ 24) (omega (arith, v.size))

  cache_query_disc-Answers :
      (r : Queried) × (cache_query_disc files cache disc errno ≡ value r) × Answers files disc r
  unfolding cache_query_disc
  cache_query_disc-Answers = elim (Option-cases (first_category files disc.discid searchable)) [
    | inl f ↦
        let r : Queried = record {
          cache = cache;
          disc = record disc { category = invalid };
          errno = errno;
          found = false;
        } in
        (
          r,
          rw (cache_query_disc, f) refl,
          record {
            finds = inr (refl, refl, first_category-LackIt files disc.discid searchable f);
            faithful = v;
          },
        )
    | inr (cat, f) ↦
        let (e, there) = entry_there in
        let entry : CacheEntry = record { discid = disc.discid; category = cat } in
        let r : Queried = record {
          cache = update cache (cache_query_hash disc.discid) entry;
          disc = record disc { category = cat };
          errno = ok;
          found = true;
        } in
        let faithful = update-IsFaithful files cache (cache_query_hash disc.discid) entry k f v in
        (
          r,
          rw (cache_query_disc, f, write_entry, there) refl,
          record {
            finds =
                inl
                  (refl, (cat, refl, first_category-IsFirstIn files disc.discid searchable cat f));
            faithful = faithful;
          },
        )
  ]

  query_entry-Answers :
      (e : CacheEntry)
      → get_elem? cache.entries (cache_query_hash disc.discid) ≡ some e
      → disc.discid ≢ 0
      → (r : Queried) × (query_entry files cache disc errno (some e) ≡ value r)
        × Answers files disc r
  unfolding query_entry
  query_entry-Answers e there n = elim (Bool-cases (e.discid == disc.discid)) [
    | inl same ↦
        let eq : e.discid ≡ disc.discid = ground (arith, same) in
        let f : first_category files disc.discid searchable ≡ some e.category =
          rw eq at (v.known _ e there (λ z. n (sym eq ∙ z))) in
        let r : Queried = record {
          cache = cache;
          disc = record disc { category = e.category };
          errno = ok;
          found = true;
        } in
        (
          r,
          rw same refl,
          record {
            finds = inl (
              refl,
              (
                e.category,
                refl,
                first_category-IsFirstIn files disc.discid searchable e.category f,
              ),
            );
            faithful = v;
          },
        )
    | inr other ↦ rw other cache_query_disc-Answers
  ]

-- With the cache in use, a query for a disc ID but 0 gives the first
-- category in the order of the enumeration with a file for it, or CDDB_CAT_INVALID and FALSE where
-- there is none, whatever the table already knows, reads and writes inside the table, and leaves it faithful.
pub cache_query-Answers :
    (files : Files) (mode : CacheMode) (cache : QueryCache) (disc : Disc) (errno : ErrorCode)
    → IsFaithful files cache
    → is_off mode ≡ false
    → disc.discid ≢ 0
    → disc.discid < 2 ^ 32
    → (r : Queried) × (cache_query files mode cache disc errno ≡ value r) × Answers files disc r
unfolding cache_query
cache_query-Answers files mode cache disc errno v on n small =
    let (v', k) = init-IsFaithful files cache v in
    let (e, there) = entry_there files (cache_query_init cache) disc errno v' k small in
    rw (on, there)
      (query_entry-Answers files (cache_query_init cache) disc errno v' k small e there n)

-- The table of a program that starts.
abbrev pub static_entries : ℕ → List CacheEntry
static_entries zero = []
static_entries (suc n) = record { discid = 0; category = data_cat } ∷ static_entries n

static_discid : (n i : ℕ) (e : CacheEntry) → get_elem? (static_entries n) i ≡ some e → e.discid ≡ 0
static_discid zero i e h = absurd (grind arith)
static_discid (suc n) zero e h = grind arith
static_discid (suc n) (suc i) e h = static_discid n i e h

abbrev pub static_cache : QueryCache
static_cache = record { entries = static_entries query_cache_size; query_cache_init = false }

pub static_cache-IsFaithful : (files : Files) → IsFaithful files static_cache
static_cache-IsFaithful files = record {
  size = refl;
  known = λ i e h n. absurd (n (static_discid query_cache_size i e h));
  fresh = λ z i e h. static_discid query_cache_size i e h;
}
