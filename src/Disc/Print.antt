-- ===== src/Disc/Print.antt =====
-- cddb_track_print of lib/cddb_track.c and cddb_disc_print of lib/cddb_disc.c: the text that is
-- printed, and the lengths that the tracks keep from then on.
use libcddb.Base.{
  bit_and, ◌==◌, ℕ, suc, ◌≡◌, refl, ap, if◌then◌else◌, Bool-cases, inl, inr, Option, none, some,
  List, [], ◌∷◌, ◌++◌, Bytes, codes, CString, ℤ, pos, to_int, Run, value, fault, ◌>>=◌,
}
use libcddb.Category.{Category, index, category_name}
use libcddb.Format.{print_int, print_hex, pad}
use libcddb.Track.{Track, Place, Owner, get_length, get_artist}
use libcddb.Track.Again.{offset_of, get_length_again}
use libcddb.Flags.{str_or_empty, f_no_track_artist}
use libcddb.Disc.{Disc}

-- STR_OR_NULL
abbrev pub str_or_null : CString → Bytes
str_or_null none = codes "NULL"
str_or_null (some s) = s

abbrev pub quoted : Bytes → CString → Bytes
quoted label s = label ++ codes ": '" ++ str_or_null s ++ codes "'\n"

abbrev pub counted : Bytes → ℤ → Bytes → Bytes
counted label n unit = label ++ codes ": " ++ print_int n ++ unit ++ codes "\n"

unfoldable pub track_text : Track → ℤ → CString → Bytes
track_text track length artist =
    counted (codes "    number") track.num []
    ++ counted (codes "    frame offset") track.frame_offset []
    ++ counted (codes "    length") length (codes " seconds")
    ++ quoted (codes "    artist") artist
    ++ quoted (codes "    title") track.title
    ++ quoted (codes "    extended data") track.ext_data

-- The track keeps its length when cddb_track_get_length has found it.
unfoldable pub track_print : ℕ → Place → Option Track → Run (Bytes × Track)
track_print flags place none = fault
track_print flags place (some track) =
    let (kept, length) = get_length place (some track) in
    do
      artist ← get_artist flags place kept
      value (track_text track length artist, record track { length = length })

abbrev pub first_of : List Track → Option Track
first_of [] = none
first_of (t ∷ ts) = some t

-- The loop over the tracks, with the number that is printed and the track before.
unfoldable pub print_tracks : ℕ → Owner → ℕ → Option Track → List Track → Run (Bytes × List Track)
print_tracks flags owner cnt prev [] = value ([], [])
print_tracks flags owner cnt prev (t ∷ ts) = do
  (text, t) ←
      track_print flags (record { prev = prev; next = first_of ts; disc = some owner }) (some t)
  (rest, ts) ← print_tracks flags owner (suc cnt) (some t) ts
  value (codes "  Track " ++ pad 2 (print_int (pos cnt)) ++ codes "\n" ++ text ++ rest, t ∷ ts)

-- The lines in front of the tracks.
unfoldable pub disc_text : Disc → Bytes → Bytes
disc_text disc category =
    codes "Disc ID: "
    ++ print_hex disc.discid
    ++ codes "\nCDDB category: "
    ++ category
    ++ codes " ("
    ++ print_int (pos (index disc.category))
    ++ codes ")\n"
    ++ quoted (codes "Music genre") disc.genre
    ++ counted (codes "Year") (to_int disc.year) []
    ++ quoted (codes "Artist") disc.artist
    ++ quoted (codes "Title") disc.title
    ++ quoted (codes "Extended data") disc.ext_data
    ++ counted (codes "Length") (to_int disc.length) (codes " seconds")
    ++ counted (codes "Revision") (to_int disc.revision) []
    ++ counted (codes "Number of tracks") (to_int disc.track_cnt) []

abbrev pub printed_name : Category → Run Bytes
printed_name category = elim (category_name category) [ none ↦ fault | some name ↦ value name ]

unfoldable pub disc_print : ℕ → Disc → Run (Bytes × Disc)
disc_print flags disc = do
  name ← printed_name disc.category
  (text, tracks) ←
      print_tracks flags (record { length = disc.length; artist = disc.artist }) 1 none disc.tracks
  value (disc_text disc name ++ text, record disc { tracks = tracks })

-- The artist that is printed: the track's, or else the disc's unless a flag forbids it.
abbrev artist_of : ℕ → Owner → CString → CString
artist_of flags owner (some artist) = some artist
artist_of flags owner none =
    if bit_and flags f_no_track_artist == 0
    then str_or_empty flags owner.artist
    else str_or_empty flags none

get_artist-value :
    (flags : ℕ) (prev next : Option Track) (owner : Owner) (track : Track) (artist : CString)
    → get_artist flags
        (record { prev = prev; next = next; disc = some owner })
        (some (record track { artist = artist }))
      ≡ value (artist_of flags owner artist)
unfolding get_artist
get_artist-value flags prev next owner track (some artist) = refl
get_artist-value flags prev next owner track none =
    elim (Bool-cases (bit_and flags f_no_track_artist == 0)) [
      | inl e ↦ rw e refl
      | inr e ↦ rw e refl
    ]

track_print-value :
    (flags : ℕ) (prev next : Option Track) (owner : Owner) (track : Track)
    → let place : Place = record { prev = prev; next = next; disc = some owner } in
      let length = (get_length place (some track)).1 in
      track_print flags place (some track)
      ≡ value (
        track_text track length (artist_of flags owner track.artist),
        record track { length = length },
      )
unfolding track_print get_length
track_print-value flags prev next owner track =
    let place : Place = record { prev = prev; next = next; disc = some owner } in
    let length = (get_length place (some track)).1 in
    ap
      (λ (r : Run CString).
        r >>= λ artist. value (track_text track length artist, record track { length = length }))
      (get_artist-value flags prev next owner (record track { length = length }) track.artist)

-- The second list has the tracks of the first, and lengths of its own.
abbrev pub AreMeasured : List Track → List Track → Type 0
AreMeasured [] [] = Unit {0}
AreMeasured (t ∷ ts) (u ∷ us) =
    ((length : ℤ) × (u ≡ record t { length = length })) × AreMeasured ts us
AreMeasured _ _ = ⊥

AreMeasured-offset :
    (ts us : List Track) → AreMeasured ts us → offset_of (first_of us) ≡ offset_of (first_of ts)
AreMeasured-offset [] [] h = refl
AreMeasured-offset (t ∷ ts) (u ∷ us) ((length, e), h) = ap (λ k. offset_of (some k)) e
AreMeasured-offset [] (u ∷ us) h = absurd h
AreMeasured-offset (t ∷ ts) [] h = absurd h

print_tracks-again :
    (flags : ℕ) (owner : Owner) (cnt : ℕ) (prev prev' : Option Track) (ts : List Track)
    → (text : Bytes) × (us : List Track) × AreMeasured ts us
      × (print_tracks flags owner cnt prev ts ≡ value (text, us))
      × (print_tracks flags owner cnt prev' us ≡ value (text, us))
unfolding print_tracks track_text
print_tracks-again flags owner cnt prev prev' [] = ([], [], tt, refl, refl)
print_tracks-again flags owner cnt prev prev' (t ∷ ts) =
    let next = first_of ts in
    let length = (get_length (record { prev = prev; next = next; disc = some owner }) (some t)).1 in
    let u : Track = record t { length = length } in
    let (rest, us, h, e, f) = print_tracks-again flags owner (suc cnt) (some u) (some u) ts in
    let again : get_length (record { prev = prev'; next = first_of us; disc = some owner }) (some u)
        ≡ get_length (record { prev = prev; next = next; disc = some owner }) (some t) =
      get_length_again next (first_of us) prev prev' (some owner) t (AreMeasured-offset ts us h) in
    let whole =
      codes "  Track "
      ++ pad 2 (print_int (pos cnt))
      ++ codes "\n"
      ++ track_text t length (artist_of flags owner t.artist)
      ++ rest in
    (
      whole,
      u ∷ us,
      ((length, refl), h),
      rw (track_print-value flags prev next owner t, e) refl,
      rw (track_print-value flags prev' (first_of us) owner u, again, f) refl,
    )

-- To print a disc whose category lies in the array never follows NULL, and changes nothing of it
-- but lengths of tracks; printed again, it gives the same text and stays as it is.
pub disc_print_again :
    (flags : ℕ) (disc : Disc) (name : Bytes)
    → category_name disc.category ≡ some name
    → (text : Bytes) × (ts : List Track) × AreMeasured disc.tracks ts
      × (disc_print flags disc ≡ value (text, record disc { tracks = ts }))
      × (disc_print flags (record disc { tracks = ts }) ≡ value (text, record disc { tracks = ts }))
unfolding disc_print disc_text
disc_print_again flags disc name e =
    let owner : Owner = record { length = disc.length; artist = disc.artist } in
    let (text, ts, h, k, again) = print_tracks-again flags owner 1 none none disc.tracks in
    let named : printed_name disc.category ≡ value name = rw (printed_name, e) refl in
    (disc_text disc name ++ text, ts, h, rw (named, k) refl, rw (named, again) refl)
