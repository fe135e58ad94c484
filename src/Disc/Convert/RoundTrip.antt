-- ===== src/Disc/Convert/RoundTrip.antt =====
-- Character set conversion of tracks and discs, there and back.
use libcddb.Base.{
  sym, ◌↔◌, ◌≡◌, refl, ap, arith, Bool, true, none, some, Option, List, [], ◌∷◌, Bytes, CString,
}
use libcddb.Base.{Option-cases, inl, inr, subst}
use libcddb.Charset.{convert_field}
use libcddb.Track.{Track}
use libcddb.Disc.{Disc}
use libcddb.Disc.Convert.{convert_track, convert_tracks, disc_iconv}
use libcddb.Charset.{Descriptor, conversion}

-- A field that is there is converted, and NULL stays NULL.
abbrev pub Converts : (Bytes → Option Bytes) → CString → CString → Type 0
Converts cd none none = Unit
Converts cd (some s) (some t) = cd s ≡ some t
Converts cd _ _ = ⊥

pub record ConvertsTrack (cd : Bytes → Option Bytes) (a b : Track) : Type 0 where
  pub title : Converts cd a.title b.title
  pub artist : Converts cd a.artist b.artist
  pub ext_data : Converts cd a.ext_data b.ext_data
  pub num : b.num ≡ a.num
  pub frame_offset : b.frame_offset ≡ a.frame_offset
  pub length : b.length ≡ a.length

convert_track-Converts :
    (cd : Bytes → Option Bytes) (a b : Track)
    → convert_track cd a ≡ (b, true)
    → ConvertsTrack cd a b
unfolding convert_track
convert_track-Converts cd a b h = record {
  title = ground arith;
  artist = ground arith;
  ext_data = ground arith;
  num = ground arith;
  frame_offset = ground arith;
  length = ground arith;
}

Converts-convert_track :
    (cd : Bytes → Option Bytes) (a b : Track)
    → ConvertsTrack cd a b
    → convert_track cd a ≡ (b, true)
unfolding convert_track
Converts-convert_track cd a b h = ground (arith, h.title, h.artist, h.ext_data)

abbrev pub ConvertsTracks : (Bytes → Option Bytes) → List Track → List Track → Type 0
ConvertsTracks cd [] [] = Unit
ConvertsTracks cd (x ∷ xs) (y ∷ ys) = ConvertsTrack cd x y × ConvertsTracks cd xs ys
ConvertsTracks cd _ _ = ⊥

convert_tracks-Converts :
    (cd : Bytes → Option Bytes) (xs ys : List Track)
    → convert_tracks cd xs ≡ (ys, true)
    → ConvertsTracks cd xs ys
unfolding convert_tracks convert_track
convert_tracks-Converts cd [] [] h = tt
convert_tracks-Converts cd [] (y ∷ ys) h = ground arith
convert_tracks-Converts cd (x ∷ xs) [] h = ground arith
convert_tracks-Converts cd (x ∷ xs) (y ∷ ys) h =
    (convert_track-Converts cd x y (ground arith), convert_tracks-Converts cd xs ys (ground arith))

Converts-convert_tracks :
    (cd : Bytes → Option Bytes) (xs ys : List Track)
    → ConvertsTracks cd xs ys
    → convert_tracks cd xs ≡ (ys, true)
unfolding convert_tracks convert_track
Converts-convert_tracks cd [] [] h = refl
Converts-convert_tracks cd [] (y ∷ ys) h = absurd h
Converts-convert_tracks cd (x ∷ xs) [] h = absurd h
Converts-convert_tracks cd (x ∷ xs) (y ∷ ys) (h, hs) =
    ground (arith, Converts-convert_track cd x y h, Converts-convert_tracks cd xs ys hs)

-- Every text of the disc and of its tracks is converted, and all else is as it was.
pub record ConvertsDisc (cd : Bytes → Option Bytes) (a b : Disc) : Type 0 where
  pub genre : Converts cd a.genre b.genre
  pub title : Converts cd a.title b.title
  pub artist : Converts cd a.artist b.artist
  pub ext_data : Converts cd a.ext_data b.ext_data
  pub tracks : ConvertsTracks cd a.tracks b.tracks
  pub revision : b.revision ≡ a.revision
  pub discid : b.discid ≡ a.discid
  pub category : b.category ≡ a.category
  pub length : b.length ≡ a.length
  pub year : b.year ≡ a.year
  pub track_cnt : b.track_cnt ≡ a.track_cnt
  pub iterator : b.iterator ≡ a.iterator

-- One field: the rest of the function runs on the converted text.
field_cases {ℓ} :
    {A : Type ℓ} (cd : Bytes → Option Bytes) (s : CString) (put : CString → A) (a : A)
    (rest : A → A × Bool) (b : A)
    → put s ≡ a
    → convert_field cd s put a rest ≡ (b, true)
    → (t : CString) × Converts cd s t × (rest (put t) ≡ (b, true))
field_cases cd none put a rest b e h = (none, tt, rw e h)
field_cases cd (some s) put a rest b e h = elim (Option-cases (cd s)) [
  | inl failed ↦ absurd (ground arith)
  | inr (t, converted) ↦ (some t, converted, ground arith)
]

finished :
    (cd : Bytes → Option Bytes) (a b : Disc) (genre title artist ext_data : CString)
    → Converts cd a.genre genre
    → Converts cd a.title title
    → Converts cd a.artist artist
    → Converts cd a.ext_data ext_data
    → (let (ts, good) = convert_tracks cd a.tracks in
        ◌≡◌ {A = Disc × Bool}
          (
            record a {
              genre = genre;
              title = title;
              artist = artist;
              ext_data = ext_data;
              tracks = ts;
            },
            good,
          )
          (b, true))
    → ConvertsDisc cd a b
finished cd a b genre title artist ext_data hg ht ha he h =
    let same : Disc = record a {
      genre = genre;
      title = title;
      artist = artist;
      ext_data = ext_data;
      tracks = (convert_tracks cd a.tracks).0;
    } in
    let e : same ≡ b = ap (λ (p : Disc × Bool). p.0) h in
    let good : (convert_tracks cd a.tracks).1 ≡ true = ap (λ (p : Disc × Bool). p.1) h in
    subst (ConvertsDisc cd a) e (record {
      genre = hg;
      title = ht;
      artist = ha;
      ext_data = he;
      tracks = convert_tracks-Converts cd a.tracks _ (ground arith);
      revision = refl;
      discid = refl;
      category = refl;
      length = refl;
      year = refl;
      track_cnt = refl;
      iterator = refl;
    })

pub disc_iconv-Converts :
    (cd : Descriptor) (a b : Disc)
    → disc_iconv (some cd) a ≡ (b, true)
    → ConvertsDisc (conversion cd) a b
unfolding disc_iconv
disc_iconv-Converts cd' a b h =
    let cd = conversion cd' in
    let (genre, hg, h1) = field_cases cd a.genre (λ s. record a { genre = s }) a _ b refl h in
    let a1 : Disc = record a { genre = genre } in
    let (title, ht, h2) = field_cases cd a.title (λ s. record a1 { title = s }) a1 _ b refl h1 in
    let a2 : Disc = record a1 { title = title } in
    let (artist, ha, h3) = field_cases cd a.artist (λ s. record a2 { artist = s }) a2 _ b refl h2 in
    let a3 : Disc = record a2 { artist = artist } in
    let (ext_data, he, h4) =
      field_cases cd a.ext_data (λ s. record a3 { ext_data = s }) a3 _ b refl h3 in
    finished cd a b genre title artist ext_data hg ht ha he h4

Converts-disc_iconv :
    (cd : Descriptor) (a b : Disc)
    → ConvertsDisc (conversion cd) a b
    → disc_iconv (some cd) a ≡ (b, true)
unfolding disc_iconv
Converts-disc_iconv cd a b h = ground (
  arith,
  h.genre,
  h.title,
  h.artist,
  h.ext_data,
  Converts-convert_tracks (conversion cd) a.tracks b.tracks h.tracks,
)

-- The conversion of a disc succeeds with a result exactly when that result has every text
-- converted, and all other fields as they were.
disc_iconv_iff :
    (cd : Descriptor) (a b : Disc)
    → (disc_iconv (some cd) a ≡ (b, true)) ↔ ConvertsDisc (conversion cd) a b
disc_iconv_iff cd a b = (disc_iconv-Converts cd a b, Converts-disc_iconv cd a b)

module _ (to from : Descriptor)
    (inverse : (s t : Bytes) → conversion to s ≡ some t → conversion from t ≡ some s) where
  Converts-back : (s t : CString) → Converts (conversion to) s t → Converts (conversion from) t s
  Converts-back none none h = tt
  Converts-back none (some t) h = absurd h
  Converts-back (some s) none h = absurd h
  Converts-back (some s) (some t) h = inverse s t h

  ConvertsTracks-back :
      (xs ys : List Track)
      → ConvertsTracks (conversion to) xs ys
      → ConvertsTracks (conversion from) ys xs
  ConvertsTracks-back [] [] h = tt
  ConvertsTracks-back [] (y ∷ ys) h = absurd h
  ConvertsTracks-back (x ∷ xs) [] h = absurd h
  ConvertsTracks-back (x ∷ xs) (y ∷ ys) (h, hs) = (
    record {
      title = Converts-back x.title y.title h.title;
      artist = Converts-back x.artist y.artist h.artist;
      ext_data = Converts-back x.ext_data y.ext_data h.ext_data;
      num = sym h.num;
      frame_offset = sym h.frame_offset;
      length = sym h.length;
    },
    ConvertsTracks-back xs ys hs,
  )

  -- A disc that was converted to the other character set comes back as it was, where the one
  -- descriptor undoes what the other does.
  disc_iconv-disc_iconv :
      (a b : Disc) → disc_iconv (some to) a ≡ (b, true) → disc_iconv (some from) b ≡ (a, true)
  disc_iconv-disc_iconv a b e =
      let h = disc_iconv-Converts to a b e in
      Converts-disc_iconv from b a (record {
        genre = Converts-back a.genre b.genre h.genre;
        title = Converts-back a.title b.title h.title;
        artist = Converts-back a.artist b.artist h.artist;
        ext_data = Converts-back a.ext_data b.ext_data h.ext_data;
        tracks = ConvertsTracks-back a.tracks b.tracks h.tracks;
        revision = sym h.revision;
        discid = sym h.discid;
        category = sym h.category;
        length = sym h.length;
        year = sym h.year;
        track_cnt = sym h.track_cnt;
        iterator = sym h.iterator;
      })
