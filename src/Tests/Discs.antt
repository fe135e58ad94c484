-- ===== src/Tests/Discs.antt =====
-- Examples for Disc.
use libcddb.Base.{
  List, codes, ℕ, ◌+◌, ◌*◌, ◌^◌, ◌≡◌, refl, arith, pos, none, some, [], ◌∷◌, value, Bytes,
}
use libcddb.Track.{Track, track_new}
use libcddb.Category.{category_name}
use libcddb.Disc.{Disc, disc_new, disc_clone, disc_copy, get_track, get_track_first}
use libcddb.Disc.Chain.{
  IsValid, disc_new-IsValid, get_track-pointer, for_tracks, for_tracks_all, disc_clone-same,
}
use libcddb.Disc.Copy.{TakesDisc, disc_copy-TakesDisc}
use libcddb.Disc.Discid.{calc_discid}
use libcddb.Disc.Discid.Checksum.{digit_total}
use libcddb.Disc.Print.{AreMeasured, disc_print, disc_print_again}
use libcddb.Disc.Discid.Layout.{calc_discid_fields}

abbrev track_from : ℕ → ℕ → Track
track_from number offset = record track_new { num = pos number; frame_offset = pos offset }

-- The disc of tests/check_discid.sh's kind: two tracks from 150 and 20150 on, of 600 seconds.
abbrev two_tracks : Disc
two_tracks = record disc_new {
  length = 600;
  track_cnt = 2;
  tracks = track_from 1 150 ∷ track_from 2 20150 ∷ [];
}

two_tracks-IsValid : IsValid two_tracks
two_tracks-IsValid = record { counted = refl; in_order = (refl, (refl, tt)) }

calc_discid_fields_example : (calc_discid two_tracks).discid ≡ 18 * 2 ^ 24 + 598 * 2 ^ 8 + 2
unfolding digit_total
calc_discid_fields_example =
    calc_discid_fields two_tracks (track_from 1 150) (track_from 2 20150 ∷ []) refl (omega arith)
      (omega arith) (omega arith) (omega arith)

get_track-pointer_example : get_track two_tracks (pos 1) ≡ value (some 1)
get_track-pointer_example = get_track-pointer two_tracks (pos 1) two_tracks-IsValid

for_tracks_all_example :
    for_tracks 3 (get_track_first two_tracks) ≡ (record two_tracks { iterator = none }, 0 ∷ 1 ∷ [])
for_tracks_all_example = for_tracks_all two_tracks

disc_clone-same_example : disc_clone two_tracks ≡ two_tracks
disc_clone-same_example = disc_clone-same two_tracks two_tracks-IsValid

disc_copy-TakesDisc_example : TakesDisc (disc_copy disc_new two_tracks) two_tracks disc_new
disc_copy-TakesDisc_example = disc_copy-TakesDisc disc_new two_tracks disc_new-IsValid

disc_print_again_example :
    (text : Bytes) × (ts : List Track) × AreMeasured two_tracks.tracks ts
    × (disc_print 0 two_tracks ≡ value (text, record two_tracks { tracks = ts }))
    × (disc_print 0 (record two_tracks { tracks = ts })
        ≡ value (text, record two_tracks { tracks = ts }))
unfolding category_name
disc_print_again_example = disc_print_again 0 two_tracks (codes "invalid") refl
