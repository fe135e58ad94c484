-- ===== src/Disc/Convert.antt =====
-- cddb_track_iconv of lib/cddb_track.c and cddb_disc_iconv of lib/cddb_disc.c.
pub mod RoundTrip
pub mod Chain
use libcddb.Base.{Bool, true, false, none, some, List, [], ◌∷◌, Bytes, Option}
use libcddb.Charset.{Iconv, conversion, convert_field}
use libcddb.Track.{Track}
use libcddb.Disc.{Disc}

unfoldable pub convert_track : (Bytes → Option Bytes) → Track → Track × Bool
convert_track cd track =
    convert_field cd track.title (λ s. record track { title = s }) track
      λ track.
        convert_field cd track.artist (λ s. record track { artist = s }) track
          λ track.
            convert_field cd track.ext_data (λ s. record track { ext_data = s }) track
              λ track. (track, true)

unfoldable pub track_iconv : Iconv → Track → Track × Bool
unfolding convert_track
track_iconv none track = (track, true)
track_iconv (some cd) track = convert_track (conversion cd) track

-- The tracks behind one that fails are left alone.
unfoldable pub convert_tracks : (Bytes → Option Bytes) → List Track → List Track × Bool
unfolding convert_track
convert_tracks cd [] = ([], true)
convert_tracks cd (t ∷ ts) =
    let (t', good) = convert_track cd t in
    let (ts', rest) = convert_tracks cd ts in
    elim good [ true ↦ (t' ∷ ts', rest) | false ↦ (t' ∷ ts, false) ]

convert_disc : (Bytes → Option Bytes) → Disc → Disc × Bool
unfolding convert_tracks
convert_disc cd disc =
    convert_field cd disc.genre (λ s. record disc { genre = s }) disc
      λ disc.
        convert_field cd disc.title (λ s. record disc { title = s }) disc
          λ disc.
            convert_field cd disc.artist (λ s. record disc { artist = s }) disc
              λ disc.
                convert_field cd disc.ext_data (λ s. record disc { ext_data = s }) disc
                  λ disc.
                    let (ts, good) = convert_tracks cd disc.tracks in
                    (record disc { tracks = ts }, good)

unfoldable pub disc_iconv : Iconv → Disc → Disc × Bool
unfolding convert_disc
disc_iconv none disc = (disc, true)
disc_iconv (some cd) disc = convert_disc (conversion cd) disc
