-- ===== src/Disc/Convert/Chain.antt =====
-- The conversion leaves the chain of a disc as it is, also where it fails: cddb_disc_iconv of
-- lib/cddb_disc.c.
use libcddb.Base.{
  ℕ, suc, ◌≡◌, refl, ap, ◌∙◌, arith, Bool-cases, inl, inr, none, some, Option, List, [], ◌∷◌,
  length, Bytes,
}
use libcddb.Charset.{Iconv}
use libcddb.Track.{Track}
use libcddb.Disc.{Disc}
use libcddb.Disc.Chain.{IsNumbered, IsValid}
use libcddb.Charset.{conversion}
use libcddb.Disc.Convert.{convert_track, convert_tracks, disc_iconv}

convert_track-num : (cd : Bytes → Option Bytes) (t : Track) → (convert_track cd t).0.num ≡ t.num
unfolding convert_track
convert_track-num cd t = ground arith

module _ (cd : Bytes → Option Bytes) where
  convert_tracks-IsNumbered :
      (n : ℕ) (ts : List Track) → IsNumbered n ts → IsNumbered n (convert_tracks cd ts).0
  unfolding convert_tracks convert_track
  convert_tracks-IsNumbered n [] h = h
  convert_tracks-IsNumbered n (t ∷ ts) (h, hs) = elim (Bool-cases (convert_track cd t).1) [
    | inl e ↦
        rw (IsNumbered, e) (convert_track-num cd t ∙ h, convert_tracks-IsNumbered (suc n) ts hs)
    | inr e ↦ rw (IsNumbered, e) (convert_track-num cd t ∙ h, hs)
  ]

  length-convert_tracks : (ts : List Track) → length (convert_tracks cd ts).0 ≡ length ts
  unfolding convert_tracks convert_track
  length-convert_tracks [] = refl
  length-convert_tracks (t ∷ ts) = elim (Bool-cases (convert_track cd t).1) [
    | inl e ↦ rw (length, e) (ap suc (length-convert_tracks ts))
    | inr e ↦ rw (length, e)
  ]

-- A valid disc is valid after a conversion, whether it succeeds or fails.
pub disc_iconv-IsValid : (cd : Iconv) (disc : Disc) → IsValid disc → IsValid (disc_iconv cd disc).0
unfolding disc_iconv
disc_iconv-IsValid none disc v = v
disc_iconv-IsValid (some cd) disc v = record {
  counted = ground (arith, v.counted, length-convert_tracks (conversion cd) disc.tracks);
  in_order =
      ground
        (arith, v.in_order, convert_tracks-IsNumbered (conversion cd) 1 disc.tracks v.in_order);
}
