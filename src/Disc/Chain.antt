-- ===== src/Disc/Chain.antt =====
-- The chain of tracks of a disc: its numbering, the access by position, the iteration and the
-- clone of lib/cddb_disc.c.
use mathlib.Core.List.{append_assoc, append-nil}
use libcddb.Base.{
  ℕ, zero, suc, ◌+◌, ◌<◌, ◌≡◌, refl, ap, ◌∙◌, arith, ℤ, pos, negsuc, pos_part, ltb, true, none,
  some, Option, List, [], ◌∷◌, ◌++◌, length, length-append, value,
}
use libcddb.Track.{Track, track_clone}
use libcddb.Disc.{
  Disc, disc_new, numbered, add_track, clone_tracks, disc_clone, pointer, walk, get_track,
  get_track_first, get_track_next,
}

-- The tracks carry the numbers from `n` on.
abbrev pub IsNumbered : ℕ → List Track → Type 0
IsNumbered n [] = Unit {0}
IsNumbered n (t ∷ ts) = (t.num ≡ pos n) × IsNumbered (suc n) ts

pub record IsValid (disc : Disc) : Type 0 where
  pub counted : disc.track_cnt ≡ length disc.tracks
  pub in_order : IsNumbered 1 disc.tracks

pub disc_new-IsValid : IsValid disc_new
disc_new-IsValid = record { counted = refl; in_order = tt }

pub IsNumbered-append :
    (n : ℕ) (ts us : List Track)
    → IsNumbered n ts
    → IsNumbered (length ts + n) us
    → IsNumbered n (ts ++ us)
IsNumbered-append n [] us h k = let e : 0 + n ≡ n = omega arith in rw e at k
IsNumbered-append n (t ∷ ts) us (h, hs) k =
    let e : suc (length ts) + n ≡ length ts + suc n = omega arith in
    (h, IsNumbered-append (suc n) ts us hs (rw e at k))

-- A valid disc is valid with one more track, whatever number that track had.
pub add_track-IsValid :
    (disc : Disc) (track : Track) → IsValid disc → IsValid (add_track disc track)
unfolding add_track
add_track-IsValid disc track v = record {
  counted =
      omega
        (arith, v.counted, length-append disc.tracks (numbered track (disc.track_cnt + 1) ∷ []));
  in_order = IsNumbered-append 1 disc.tracks _ v.in_order (
      let e : disc.track_cnt + 1 ≡ length disc.tracks + 1 = omega (arith, v.counted) in
      (ap pos e, tt));
}

walk_reaches : (n i : ℕ) (ts : List Track) → n < length ts → walk n ts i ≡ value (some (i + n))
unfolding walk
walk_reaches n i [] h = elim h [ ]
walk_reaches zero i (t ∷ ts) h = let e : i ≡ i + 0 = omega arith in rw (← e)
walk_reaches (suc n) i (t ∷ ts) h =
    let e : i + 1 + n ≡ i + suc n = omega arith in walk_reaches n (i + 1) ts (omega arith) ∙ rw e

walk_start : (ts : List Track) → walk 0 ts 0 ≡ value (pointer ts 0)
unfolding walk
walk_start [] = refl
walk_start (t ∷ ts) = ground arith

pub get_track-counted :
    (disc : Disc) (track_no : ℤ)
    → disc.track_cnt ≡ length disc.tracks
    → get_track disc track_no ≡ value (pointer disc.tracks (pos_part track_no))
unfolding get_track
get_track-counted disc (negsuc n) v = ground (arith, walk_start disc.tracks)
get_track-counted disc (pos n) v = ground (arith, v, walk_reaches n 0 disc.tracks)

-- No `next` of NULL is followed: a track number is the position in the chain, a negative one is
-- taken for 0, and one past the end gives NULL.
pub get_track-pointer :
    (disc : Disc) (track_no : ℤ)
    → IsValid disc
    → get_track disc track_no ≡ value (pointer disc.tracks (pos_part track_no))
get_track-pointer disc track_no v = get_track-counted disc track_no v.counted

-- `for (t = cddb_disc_get_track_first(disc); t; t = cddb_disc_get_track_next(disc))` with fuel:
-- the disc that it leaves, and the positions that it visits.
pub for_tracks : ℕ → Disc × Option ℕ → Disc × List ℕ
for_tracks zero (disc, p) = (disc, [])
for_tracks (suc f) (disc, none) = (disc, [])
for_tracks (suc f) (disc, some i) =
    let (last, rest) = for_tracks f (get_track_next disc) in (last, i ∷ rest)

abbrev pub positions : ℕ → ℕ → List ℕ
positions i zero = []
positions i (suc n) = i ∷ positions (i + 1) n

for_tracks_from :
    (n i : ℕ) (disc : Disc)
    → length disc.tracks ≡ i + n
    → for_tracks (suc n) (record disc { iterator = pointer disc.tracks i }, pointer disc.tracks i)
      ≡ (record disc { iterator = none }, positions i n)
unfolding for_tracks get_track_next
for_tracks_from zero i disc h = ground arith
for_tracks_from (suc n) i disc h =
    let more : ltb i (length disc.tracks) ≡ true = ground arith in
    rw more (ground (arith, for_tracks_from n (i + 1) disc (omega arith)))

-- The loop ends, visits every track once and in order, and leaves the iterator at NULL.
pub for_tracks_all :
    (disc : Disc)
    → for_tracks (suc (length disc.tracks)) (get_track_first disc)
      ≡ (record disc { iterator = none }, positions 0 (length disc.tracks))
unfolding get_track_first
for_tracks_all disc = for_tracks_from (length disc.tracks) 0 disc (omega arith)

-- What the loop of cddb_disc_clone adds to a disc of `n` tracks.
clone_tracks_onto :
    (ts : List Track) (disc : Disc)
    → IsNumbered (disc.track_cnt + 1) ts
    → clone_tracks disc ts
      ≡ record disc { tracks = disc.tracks ++ ts; track_cnt = disc.track_cnt + length ts }
unfolding clone_tracks add_track track_clone
clone_tracks_onto [] disc h =
    let e : disc.track_cnt + 0 ≡ disc.track_cnt = omega arith in rw (e, append-nil)
clone_tracks_onto (t ∷ ts) disc (h, hs) =
    let same : numbered t (disc.track_cnt + 1) ≡ t = ground arith in
    let later =
      clone_tracks_onto ts (add_track disc (track_clone t))
        (let e : suc (disc.track_cnt + 1) ≡ disc.track_cnt + 1 + 1 = omega arith in rw e at hs) in
    let total : disc.track_cnt + 1 + length ts ≡ disc.track_cnt + suc (length ts) = omega arith in
    later ∙ rw (same, append_assoc, total)

-- The clone of a valid disc is the same disc, but for the iterator.
pub disc_clone-same :
    (disc : Disc) → IsValid disc → disc_clone disc ≡ record disc { iterator = none }
unfolding disc_clone
disc_clone-same disc v =
    clone_tracks_onto disc.tracks _ v.in_order
    ∙ (let e : 0 + length disc.tracks ≡ disc.track_cnt = omega (arith, v.counted) in rw e)
