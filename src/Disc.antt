-- ===== src/Disc.antt =====
-- lib/cddb_disc.c, and `struct cddb_disc_s` of include/cddb/cddb_ni.h. The chain of tracks that
-- starts at `disc->tracks` is a list, a pointer into it is a position; a track is in one disc.
pub mod Fields
pub mod Discid
pub mod Convert
pub mod Chain
pub mod Copy
pub mod Print
use libcddb.Base.{
  ℕ, zero, suc, ◌+◌, ◌-◌, ◌==◌, ltb, if◌then◌else◌, ℤ, pos, negsuc, leb_ℤ, pos_part, Bool, true,
  false, Option, none, some, List, [], ◌∷◌, ◌++◌, length, get_elem?, set, Bytes, CString, Run,
  value, fault,
}
use libcddb.Category.{Category, invalid, same}
use libcddb.Track.{Track, Place, Owner, track_new, track_clone, track_copy, prefer}

pub record Disc : Type 0 where
  pub revision : ℕ
  pub discid : ℕ
  pub category : Category
  pub genre : CString
  pub title : CString
  pub artist : CString
  pub length : ℕ
  pub year : ℕ
  pub ext_data : CString
  pub track_cnt : ℕ
  pub tracks : List Track
  pub iterator : Option ℕ

abbrev pub disc_new : Disc
disc_new = record {
  revision = 0;
  discid = 0;
  category = invalid;
  genre = none;
  title = none;
  artist = none;
  length = 0;
  year = 0;
  ext_data = none;
  track_cnt = 0;
  tracks = [];
  iterator = none;
}

abbrev pub numbered : Track → ℕ → Track
numbered track n = record track { num = pos n }

unfoldable pub add_track : Disc → Track → Disc
add_track disc track = record disc {
  tracks = disc.tracks ++ numbered track (disc.track_cnt + 1) ∷ [];
  track_cnt = disc.track_cnt + 1;
}

-- `while (track) { cddb_disc_add_track(clone, cddb_track_clone(track)); … }`
clone_tracks : Disc → List Track → Disc
clone_tracks clone [] = clone
clone_tracks clone (t ∷ ts) = clone_tracks (add_track clone (track_clone t)) ts

unfoldable pub disc_clone : Disc → Disc
unfolding clone_tracks
disc_clone disc =
    clone_tracks
      (record disc_new {
        discid = disc.discid;
        category = disc.category;
        year = disc.year;
        genre = disc.genre;
        title = disc.title;
        artist = disc.artist;
        length = disc.length;
        revision = disc.revision;
        ext_data = disc.ext_data;
      })
      disc.tracks

-- The pointer at position `i` of a chain; NULL behind its end.
abbrev pub pointer : List Track → ℕ → Option ℕ
pointer ts i = if ltb i (length ts) then some i else none

-- `for (track = disc->tracks; track_no > 0; track_no--, track = track->next)`: to follow `next` of
-- NULL is a fault. `i` is the position that has been reached.
unfoldable pub walk : ℕ → List Track → ℕ → Run (Option ℕ)
walk zero [] i = value none
walk zero (t ∷ ts) i = value (some i)
walk (suc n) [] i = fault
walk (suc n) (t ∷ ts) i = walk n ts (i + 1)

unfoldable pub get_track : Disc → ℤ → Run (Option ℕ)
unfolding walk
get_track disc track_no =
    if leb_ℤ (pos disc.track_cnt) track_no
    then value none
    else walk (pos_part track_no) disc.tracks 0

unfoldable pub get_track_first : Disc → Disc × Option ℕ
get_track_first disc =
    let first = pointer disc.tracks 0 in (record disc { iterator = first }, first)

abbrev advance : List Track → Option ℕ → Option ℕ
advance ts none = none
advance ts (some i) = pointer ts (i + 1)

unfoldable pub get_track_next : Disc → Disc × Option ℕ
get_track_next disc =
    let next = advance disc.tracks disc.iterator in (record disc { iterator = next }, next)

-- The pointers that a track at position `i` holds.
abbrev before : List Track → ℕ → Option Track
before ts zero = none
before ts (suc i) = get_elem? ts i

abbrev pub place : Disc → ℕ → Place
place disc i = record {
  prev = before disc.tracks i;
  next = get_elem? disc.tracks (i + 1);
  disc = some (record { length = disc.length; artist = disc.artist });
}

-- What a function of lib/cddb_track.c leaves at position `i`.
abbrev pub put : Disc → ℕ → Option Track → Disc
put disc i none = disc
put disc i (some track) = record disc { tracks = set disc.tracks i track }

abbrev pub on_track : (Option Track → Option Track) → Disc → ℕ → Disc
on_track f disc i = put disc i (f (get_elem? disc.tracks i))

abbrev prefer_num : ℕ → ℕ → ℕ
prefer_num new old = if new == 0 then old else new

abbrev pub copy_onto : Track → Option Track → Option Track
copy_onto src none = none
copy_onto src (some dst) = some (track_copy dst src)

-- A new track where the destination has none at `i`.
abbrev pub ensure : Disc → ℕ → Disc
ensure dst i = if ltb i (length dst.tracks) then dst else add_track dst track_new

copy_tracks : Disc → ℕ → List Track → Disc
copy_tracks dst i [] = dst
copy_tracks dst i (src ∷ rest) =
    copy_tracks (on_track (copy_onto src) (ensure dst i) i) (i + 1) rest

-- The fields of a disc, but for its tracks.
abbrev pub copy_fields : Disc → Disc → Disc
copy_fields dst src = record dst {
  discid = prefer_num src.discid dst.discid;
  category = if same src.category invalid then dst.category else src.category;
  year = prefer_num src.year dst.year;
  genre = prefer src.genre dst.genre;
  title = prefer src.title dst.title;
  artist = prefer src.artist dst.artist;
  length = prefer_num src.length dst.length;
  revision = prefer_num src.revision dst.revision;
  ext_data = prefer src.ext_data dst.ext_data;
}

unfoldable pub disc_copy : Disc → Disc → Disc
unfolding copy_tracks
disc_copy dst src = copy_tracks (copy_fields dst src) 0 src.tracks
