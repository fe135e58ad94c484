-- ===== src/Disc/Copy.antt =====
-- cddb_disc_copy of lib/cddb_disc.c and cddb_track_copy of lib/cddb_track.c.
use mathlib.Core.List.{append_assoc, append-nil}
use libcddb.Base.{
  ◌≢◌, ℤ, negsuc, minus_one, eq_ℤ, ℕ, suc, ◌+◌, ◌≡◌, refl, ap, ◌∙◌, arith, pos, ltb, none, some,
  true, false, List, [], ◌∷◌, ◌++◌, length, get_elem?, set, length-append, if◌then◌else◌, ◌==◌,
  CString,
}
use libcddb.Track.{Track, track_new, track_copy, prefer}
use libcddb.Category.{Category, same, invalid}
use libcddb.Disc.{
  on_track, copy_onto, ensure, Disc, disc_new, numbered, add_track, copy_tracks, copy_fields,
  disc_copy,
}
use libcddb.Disc.Chain.{IsNumbered, IsValid, disc_new-IsValid}

-- The tracks of a copy, the first of them with number `n`: each track of the source goes onto the
-- one at its position, or onto a new one.
abbrev pub merged : ℕ → List Track → List Track → List Track
merged n ds [] = ds
merged n [] (s ∷ ss) = track_copy (numbered track_new n) s ∷ merged (suc n) [] ss
merged n (d ∷ ds) (s ∷ ss) = track_copy d s ∷ merged (suc n) ds ss

pub get_middle {ℓ} :
    {A : Type ℓ} (xs ys : List A) (a : A) → get_elem? (xs ++ a ∷ ys) (length xs) ≡ some a
get_middle [] ys a = refl
get_middle (x ∷ xs) ys a = get_middle xs ys a

pub set_middle {ℓ} :
    {A : Type ℓ} (xs ys : List A) (a b : A) → set (xs ++ a ∷ ys) (length xs) b ≡ xs ++ b ∷ ys
set_middle [] ys a b = refl
set_middle (x ∷ xs) ys a b = ap (◌∷◌ x) (set_middle xs ys a b)

-- A disc whose chain is `pre` followed by `ds`, with as many tracks as it says.
abbrev with : Disc → List Track → Disc
with disc ts = record disc { tracks = ts; track_cnt = length ts }

-- From the chain with `x` behind `pre`, as the list that starts the next round.
next_round :
    (ss pre ds : List Track) (x : Track) (disc : Disc)
    → copy_tracks (with disc ((pre ++ x ∷ []) ++ ds)) (length (pre ++ x ∷ [])) ss
      ≡ with disc ((pre ++ x ∷ []) ++ merged (suc (length (pre ++ x ∷ []))) ds ss)
    → copy_tracks (with disc (pre ++ x ∷ ds)) (length pre + 1) ss
      ≡ with disc (pre ++ x ∷ merged (suc (suc (length pre))) ds ss)
next_round ss pre ds x disc h =
    let one_more : length pre + 1 ≡ suc (length pre) = omega arith in
    let longer : length (pre ++ x ∷ []) ≡ suc (length pre) =
      omega (arith, length-append pre (x ∷ [])) in
    rw one_more (simp (longer, append_assoc) at h)

copy_present :
    (s d : Track) (pre ds : List Track) (disc : Disc)
    → on_track (copy_onto s) (ensure (with disc (pre ++ d ∷ ds)) (length pre)) (length pre)
      ≡ with disc (pre ++ track_copy d s ∷ ds)
copy_present s d pre ds disc =
    let inside : ltb (length pre) (length (pre ++ d ∷ ds)) ≡ true =
      ground (arith, length-append pre (d ∷ ds)) in
    let size : length (pre ++ d ∷ ds) ≡ length (pre ++ track_copy d s ∷ ds) =
      omega (arith, length-append pre (d ∷ ds), length-append pre (track_copy d s ∷ ds)) in
    rw (inside, get_middle pre ds d, set_middle pre ds d (track_copy d s), size)

copy_absent :
    (s : Track) (pre : List Track) (disc : Disc)
    → on_track (copy_onto s) (ensure (with disc (pre ++ [])) (length pre)) (length pre)
      ≡ with disc (pre ++ track_copy (numbered track_new (suc (length pre))) s ∷ [])
unfolding add_track
copy_absent s pre disc =
    let outside : ltb (length pre) (length pre) ≡ false = ground arith in
    let new = numbered track_new (suc (length pre)) in
    let one_more : length pre + 1 ≡ suc (length pre) = omega arith in
    let grown : length (pre ++ track_copy new s ∷ []) ≡ suc (length pre) =
      omega (arith, length-append pre (track_copy new s ∷ [])) in
    rw (
      append-nil,
      outside,
      one_more,
      get_middle pre [] new,
      set_middle pre [] new (track_copy new s),
      grown,
    )

copy_tracks-merged :
    (ss pre ds : List Track) (disc : Disc)
    → copy_tracks (with disc (pre ++ ds)) (length pre) ss
      ≡ with disc (pre ++ merged (suc (length pre)) ds ss)
unfolding copy_tracks
copy_tracks-merged [] pre ds disc = refl
copy_tracks-merged (s ∷ ss) pre [] disc =
    let x = track_copy (numbered track_new (suc (length pre))) s in
    rw (copy_absent s pre disc)
      (next_round ss pre [] x disc (copy_tracks-merged ss (pre ++ x ∷ []) [] disc))
copy_tracks-merged (s ∷ ss) pre (d ∷ ds) disc =
    let x = track_copy d s in
    rw (copy_present s d pre ds disc)
      (next_round ss pre ds x disc (copy_tracks-merged ss (pre ++ x ∷ []) ds disc))

-- A copy onto a valid disc as the fields and the list of tracks that come out.
disc_copy-merged :
    (dst src : Disc)
    → IsValid dst
    → disc_copy dst src ≡ record (copy_fields dst src) {
      tracks = merged 1 dst.tracks src.tracks;
      track_cnt = length (merged 1 dst.tracks src.tracks);
    }
unfolding disc_copy
disc_copy-merged dst src v =
    rw v.counted (copy_tracks-merged src.tracks [] dst.tracks (copy_fields dst src))

-- What the source has, or else what there was.
abbrev pub TakesNumber : ℕ → ℕ → ℕ → Type 0
TakesNumber new src old = (src ≡ 0 → new ≡ old) × (src ≢ 0 → new ≡ src)

abbrev pub TakesInt : ℤ → ℤ → ℤ → Type 0
TakesInt new src old = (src ≡ minus_one → new ≡ old) × (src ≢ minus_one → new ≡ src)

abbrev pub TakesText : CString → CString → CString → Type 0
TakesText new src old = (src ≡ none → new ≡ old) × (src ≢ none → new ≡ src)

abbrev pub TakesCategory : Category → Category → Category → Type 0
TakesCategory new src old = (src ≡ invalid → new ≡ old) × (src ≢ invalid → new ≡ src)

pub record TakesTrack (new src old : Track) : Type 0 where
  pub num : TakesInt new.num src.num old.num
  pub frame_offset : TakesInt new.frame_offset src.frame_offset old.frame_offset
  pub length : TakesInt new.length src.length old.length
  pub title : TakesText new.title src.title old.title
  pub artist : TakesText new.artist src.artist old.artist
  pub ext_data : TakesText new.ext_data src.ext_data old.ext_data

-- The tracks at one position after another; a new track with the next number stands where there
-- was none.
abbrev pub TakeTracks : ℕ → List Track → List Track → List Track → Type 0
TakeTracks n new [] old = new ≡ old
TakeTracks n (t ∷ ts) (s ∷ ss) (d ∷ ds) = TakesTrack t s d × TakeTracks (suc n) ts ss ds
TakeTracks n (t ∷ ts) (s ∷ ss) [] =
    TakesTrack t s (record track_new { num = pos n }) × TakeTracks (suc n) ts ss []
TakeTracks n [] (s ∷ ss) old = ⊥

pub record TakesDisc (new src old : Disc) : Type 0 where
  pub discid : TakesNumber new.discid src.discid old.discid
  pub category : TakesCategory new.category src.category old.category
  pub year : TakesNumber new.year src.year old.year
  pub genre : TakesText new.genre src.genre old.genre
  pub title : TakesText new.title src.title old.title
  pub artist : TakesText new.artist src.artist old.artist
  pub length : TakesNumber new.length src.length old.length
  pub revision : TakesNumber new.revision src.revision old.revision
  pub ext_data : TakesText new.ext_data src.ext_data old.ext_data
  pub tracks : TakeTracks 1 new.tracks src.tracks old.tracks
  pub counted : new.track_cnt ≡ libcddb.Base.length new.tracks
  pub iterator : new.iterator ≡ old.iterator

takes_number : (src old : ℕ) → TakesNumber (if src == 0 then old else src) src old
takes_number src old = ground arith

takes_int : (src old : ℤ) → TakesInt (if eq_ℤ src minus_one then old else src) src old
takes_int (pos n) old = ground arith
takes_int (negsuc n) old = ground arith

takes_text : (src old : CString) → TakesText (prefer src old) src old
takes_text none old = ground arith
takes_text (some s) old = ground arith

takes_category :
    (src old : Category) → TakesCategory (if same src invalid then old else src) src old
takes_category src old = ground arith

track_copy-TakesTrack : (d s : Track) → TakesTrack (track_copy d s) s d
unfolding track_copy
track_copy-TakesTrack d s = record {
  num = takes_int s.num d.num;
  frame_offset = takes_int s.frame_offset d.frame_offset;
  length = takes_int s.length d.length;
  title = takes_text s.title d.title;
  artist = takes_text s.artist d.artist;
  ext_data = takes_text s.ext_data d.ext_data;
}

merged-TakeTracks : (n : ℕ) (ds ss : List Track) → TakeTracks n (merged n ds ss) ss ds
merged-TakeTracks n ds [] = refl
merged-TakeTracks n [] (s ∷ ss) = (track_copy-TakesTrack _ s, merged-TakeTracks (suc n) [] ss)
merged-TakeTracks n (d ∷ ds) (s ∷ ss) = (track_copy-TakesTrack d s, merged-TakeTracks (suc n) ds ss)

-- A copy onto a valid disc has each field of the source that is set there, and of the destination
-- else; so has each track, position by position, and a track that is added has the next number
-- unless the source's has one.
pub disc_copy-TakesDisc : (dst src : Disc) → IsValid dst → TakesDisc (disc_copy dst src) src dst
disc_copy-TakesDisc dst src v = rw (disc_copy-merged dst src v) (record {
  discid = takes_number src.discid dst.discid;
  category = takes_category src.category dst.category;
  year = takes_number src.year dst.year;
  genre = takes_text src.genre dst.genre;
  title = takes_text src.title dst.title;
  artist = takes_text src.artist dst.artist;
  length = takes_number src.length dst.length;
  revision = takes_number src.revision dst.revision;
  ext_data = takes_text src.ext_data dst.ext_data;
  tracks = merged-TakeTracks 1 dst.tracks src.tracks;
  counted = refl;
  iterator = refl;
})

track_copy_num :
    (d s : Track) (n : ℕ) → d.num ≡ pos n → s.num ≡ pos n → (track_copy d s).num ≡ pos n
unfolding track_copy
track_copy_num d s n h k = ground arith

merged-IsNumbered :
    (n : ℕ) (ds ss : List Track) → IsNumbered n ds → IsNumbered n ss → IsNumbered n (merged n ds ss)
merged-IsNumbered n ds [] h k = h
merged-IsNumbered n [] (s ∷ ss) h (k, ks) =
    (track_copy_num (numbered track_new n) s n refl k, merged-IsNumbered (suc n) [] ss tt ks)
merged-IsNumbered n (d ∷ ds) (s ∷ ss) (h, hs) (k, ks) =
    (track_copy_num d s n h k, merged-IsNumbered (suc n) ds ss hs ks)

-- A copy between valid discs is valid: the tracks that it adds are numbered on.
disc_copy-IsValid : (dst src : Disc) → IsValid dst → IsValid src → IsValid (disc_copy dst src)
disc_copy-IsValid dst src v w =
    rw (disc_copy-merged dst src v)
      (record { counted = refl; in_order = merged-IsNumbered 1 _ _ v.in_order w.in_order })

track_copy_new : (n : ℕ) (s : Track) → s.num ≡ pos n → track_copy (numbered track_new n) s ≡ s
unfolding track_copy
track_copy_new n s h = ground arith

merged_new : (n : ℕ) (ss : List Track) → IsNumbered n ss → merged n [] ss ≡ ss
merged_new n [] h = refl
merged_new n (s ∷ ss) (h, hs) = rw (track_copy_new n s h, merged_new (suc n) ss hs)

keep_category : (c : Category) → (if same c invalid then invalid else c) ≡ c
keep_category invalid = refl
keep_category _ = refl

keep_number : (n : ℕ) → (if n == 0 then 0 else n) ≡ n
keep_number n = ground arith

keep_text : (s : CString) → prefer s none ≡ s
keep_text none = refl
keep_text (some s) = refl

-- The copy of a valid disc onto a new one is that disc.
disc_copy_new : (src : Disc) → IsValid src → disc_copy disc_new src ≡ record src { iterator = none }
disc_copy_new src v =
    disc_copy-merged disc_new src disc_new-IsValid
    ∙ rw (merged_new 1 src.tracks v.in_order, ← v.counted)
        (simp (keep_number, keep_text, keep_category))
