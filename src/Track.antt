-- ===== src/Track.antt =====
-- lib/cddb_track.c, and `struct cddb_track_s` of include/cddb/cddb_ni.h. A track is a value; its
-- pointers `prev`, `next` and `disc` are given to the functions that follow them as a `Place`,
-- which Disc takes from the disc's chain. `strdup` and `realloc` are taken to succeed.
pub mod Lengths
pub mod Again
use libcddb.Base.{
  ℕ, ◌*◌, ◌++◌, Bool, true, false, not, ◌&&◌, [], ◌==◌, if◌then◌else◌, bit_and, ℤ, pos, negsuc,
  minus_one, ◌+ℤ◌, ◌-ℤ◌, scale, quot, ltb_ℤ, leb_ℤ, eq_ℤ, to_int, wrap_int, Option, none, some,
  Bytes, CString, Run, value, fault,
}
use libcddb.Flags.{str_or_empty, f_no_track_artist}

abbrev pub frames_per_second : ℕ
frames_per_second = 75

unfoldable pub frames_to_seconds : ℤ → ℤ
frames_to_seconds f = quot f frames_per_second

pub record Track : Type 0 where
  pub num : ℤ
  pub frame_offset : ℤ
  pub length : ℤ
  pub title : CString
  pub artist : CString
  pub ext_data : CString

-- What a track's function reads of its disc.
pub record Owner : Type 0 where
  pub length : ℕ
  pub artist : CString

-- The pointers `prev`, `next` and `disc` of a track.
pub record Place : Type 0 where
  pub prev : Option Track
  pub next : Option Track
  pub disc : Option Owner

abbrev pub track_new : Track
track_new = record {
  num = minus_one;
  frame_offset = minus_one;
  length = minus_one;
  title = none;
  artist = none;
  ext_data = none;
}

unfoldable pub track_clone : Track → Track
track_clone track = record {
  num = track.num;
  frame_offset = track.frame_offset;
  length = track.length;
  title = track.title;
  artist = track.artist;
  ext_data = track.ext_data;
}

-- A track pointer that may be `NULL` is an `Option Track`.
get_number : Option Track → ℤ
get_number (some track) = track.num
get_number none = minus_one

get_frame_offset : Option Track → ℤ
get_frame_offset (some track) = track.frame_offset
get_frame_offset none = minus_one

unfoldable pub set_frame_offset : Option Track → ℤ → Option Track
set_frame_offset none offset = none
set_frame_offset (some track) offset = some (record track { frame_offset = offset })

get_title : ℕ → Option Track → CString
get_title flags (some track) = str_or_empty flags track.title
get_title flags none = str_or_empty flags none

unfoldable pub set_title : Option Track → CString → Option Track
set_title none title = none
set_title (some track) title = some (record track { title = title })

-- With the disc's end for the last track, and the next track's start for the others.
unfoldable pub known_length : Place → Track → ℤ
known_length place track = elim place.next [
  | some next ↦
      let start = track.frame_offset in
      let stop = next.frame_offset in
      if ltb_ℤ start stop then frames_to_seconds (wrap_int (stop -ℤ start)) else track.length
  | none ↦ elim place.disc [
    | some disc ↦
        let start = frames_to_seconds track.frame_offset in
        let stop = to_int disc.length in
        if ltb_ℤ start stop then wrap_int (stop -ℤ start) else track.length
    | none ↦ track.length
  ]
]

-- The length is kept in the track once it is known.
unfoldable pub get_length : Place → Option Track → Option Track × ℤ
unfolding known_length
get_length place none = (none, minus_one)
get_length place (some track) =
    let known = if eq_ℤ track.length minus_one then known_length place track else track.length in
    (some (record track { length = known }), known)

-- The frame offset that follows from the track before.
inferred_offset : Place → Track → ℤ
inferred_offset place track = elim place.prev [
  | some prev ↦
      if not (eq_ℤ prev.frame_offset minus_one) && not (eq_ℤ prev.length minus_one)
      then wrap_int (prev.frame_offset +ℤ scale prev.length frames_per_second)
      else track.frame_offset
  | none ↦ pos 150
]

abbrev is_some {ℓ} : {A : Type ℓ} → Option A → Bool
is_some none = false
is_some (some _) = true

set_length_of : Place → ℤ → Track → Track
set_length_of place length track = record track {
  length = length;
  frame_offset =
      if is_some place.disc && eq_ℤ track.frame_offset minus_one
      then inferred_offset place track
      else track.frame_offset;
}

unfoldable pub set_length : Place → Option Track → ℤ → Option Track
unfolding set_length_of inferred_offset
set_length place none length = none
set_length place (some track) length =
    if leb_ℤ (pos 0) length then some (set_length_of place length track) else some track

-- `realloc` and `strcpy` behind the text that is there, if any.
abbrev pub append_text : CString → CString → CString
append_text old none = old
append_text none (some s) = some s
append_text (some old) (some s) = some (old ++ s)

unfoldable pub append_title : Option Track → CString → Option Track
append_title none title = none
append_title (some track) title = some (record track { title = append_text track.title title })

-- `track->disc->artist` is read whether or not the track has a disc.
unfoldable pub get_artist : ℕ → Place → Option Track → Run CString
get_artist flags place none = value (str_or_empty flags none)
get_artist flags place (some track) = elim track.artist [
  | some artist ↦ value (some artist)
  | none ↦
      if bit_and flags f_no_track_artist == 0
      then elim place.disc [ some disc ↦ value (str_or_empty flags disc.artist) | none ↦ fault ]
      else value (str_or_empty flags none)
]

unfoldable pub set_artist : Option Track → CString → Option Track
set_artist none artist = none
set_artist (some track) artist = some (record track { artist = artist })

unfoldable pub append_artist : Option Track → CString → Option Track
append_artist none artist = none
append_artist (some track) artist = some (record track { artist = append_text track.artist artist })

get_ext_data : ℕ → Option Track → CString
get_ext_data flags (some track) = str_or_empty flags track.ext_data
get_ext_data flags none = str_or_empty flags none

unfoldable pub set_ext_data : Option Track → CString → Option Track
set_ext_data none ext_data = none
set_ext_data (some track) ext_data = some (record track { ext_data = ext_data })

unfoldable pub append_ext_data : Option Track → CString → Option Track
append_ext_data none ext_data = none
append_ext_data (some track) ext_data =
    some (record track { ext_data = append_text track.ext_data ext_data })

-- The source's text where it has one, else what the destination has.
abbrev pub prefer : CString → CString → CString
prefer none old = old
prefer (some new) old = some new

abbrev prefer_int : ℤ → ℤ → ℤ
prefer_int new old = if eq_ℤ new minus_one then old else new

unfoldable pub track_copy : Track → Track → Track
track_copy dst src = record {
  num = prefer_int src.num dst.num;
  frame_offset = prefer_int src.frame_offset dst.frame_offset;
  length = prefer_int src.length dst.length;
  title = prefer src.title dst.title;
  artist = prefer src.artist dst.artist;
  ext_data = prefer src.ext_data dst.ext_data;
}
