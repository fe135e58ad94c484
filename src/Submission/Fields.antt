-- ===== src/Submission/Fields.antt =====
-- How cddb_parse_record of lib/cddb_cmd.c reads the lines of an entry that are about the disc.
use libcddb.Base.{
  or_empty, ℕ, zero, suc, ◌^◌, ◌<◌, ◌≡◌, ◌≢◌, to_int, refl, arith, false, ◌==◌, ℤ, pos, to_u32-pos,
  none, some, [], ◌++◌, Bytes, CString, codes, value,
}
use libcddb.Conn.{Conn}
use libcddb.Disc.{Disc}
use libcddb.Disc.Fields.{set_genre}
use libcddb.Regex
use libcddb.Regex.{literal, split_last, get_int}
use libcddb.Format.{decimal, print_int, pad}
use libcddb.Format.Decimal.{get_int-decimal}
use libcddb.Record as Rec
use libcddb.Record.Cases as Cases
use libcddb.Record.Texts as Texts
use libcddb.Record.Titles.{first_line}
use libcddb.Submission.{written_genre}
use libcddb.Submission.Lines.{disc_lines, year_text}
use libcddb.Submission.Patterns.{disc_length-print, disc_revision-print, disc_year-print}
use libcddb.Submission.Reads.{Reads, Reads-line, Reads-cons}
use libcddb.Submission.Tracks.{reading}
use libcddb.Submission.Exact.{IsSized, to_int-pos}

year_found :
    (y : ℕ)
    → y < 2 ^ 31
    → (s : Bytes) × (Regex.disc_year (codes "DYEAR=" ++ year_text y) ≡ some s) × (get_int s ≡ pos y)
unfolding Regex.disc_year literal get_int to_int
year_found zero h = ([], refl, refl)
year_found (suc y) h =
    let e : (suc y == 0) ≡ false = ground arith in
    (
      decimal (suc y),
      rw (e, to_int-pos (suc y) h) (disc_year-print (suc y)),
      get_int-decimal (suc y) h,
    )

title_kept :
    (artist : CString) (title : Bytes) → Texts.title_or_artist artist (some title) ≡ some title
title_kept none title = refl
title_kept (some artist) title = refl

-- A year is below 10000, or 0.
year_small : (disc : Disc) → IsSized disc → disc.year < 2 ^ 31
year_small disc s = ground (arith, s.in_year)

module _ (n old : ℤ) (d : Disc) where
  length_step :
      (l : ℕ)
      → l < 2 ^ 31
      → Cases.switch_line
          (codes "# Disc length: " ++ pad 6 (print_int (pos l)) ++ codes " seconds")
          (reading Rec.disc_length Rec.no_multi n old d)
        ≡ value (Rec.next (reading Rec.disc_revision Rec.no_multi n old (record d { length = l })))
  unfolding Cases.switch_line Cases.disc_length_case
  length_step l h = rw (
    Cases.switch_line,
    Cases.disc_length_case,
    disc_length-print l,
    get_int-decimal l h,
    to_u32-pos l (omega arith),
  )

  revision_step :
      (r : ℕ)
      → r < 2 ^ 31
      → Cases.switch_line
          (codes "# Revision: " ++ pad 8 (print_int (pos r)))
          (reading Rec.disc_revision Rec.no_multi n old d)
        ≡ value (Rec.next (reading Rec.disc_title Rec.no_multi n old (record d { revision = r })))
  unfolding Cases.switch_line Cases.disc_revision_case
  revision_step r h = rw (
    Cases.switch_line,
    Cases.disc_revision_case,
    disc_revision-print r,
    get_int-decimal r h,
    to_u32-pos r (omega arith),
  )

  year_step :
      (y : ℕ) (title : Bytes)
      → d.title ≡ some title
      → y < 2 ^ 31
      → Cases.switch_line
          (codes "DYEAR=" ++ year_text y)
          (reading Rec.disc_title Rec.multi_title n old d)
        ≡ value (Rec.next (reading Rec.disc_genre Rec.no_multi n old (record d { year = y })))
  unfolding Cases.switch_line Cases.disc_title_case Cases.disc_year_case Regex.disc_title literal
  year_step y title t h =
      let (s, found, e) = year_found y h in
      let kept : Texts.title_or_artist d.artist d.title ≡ d.title =
        rw t (title_kept d.artist title) in
      rw (
        Cases.switch_line,
        Cases.disc_title_case,
        Cases.disc_year_case,
        found,
        e,
        to_u32-pos y (omega arith),
        kept,
      )

  genre_step :
      (g : Bytes)
      → Cases.switch_line (codes "DGENRE=" ++ g) (reading Rec.disc_genre Rec.no_multi n old d)
        ≡ value
            (Rec.next (reading Rec.track_title Rec.no_multi n old (record d { genre = some g })))
  unfolding Cases.switch_line Cases.disc_genre_case set_genre Regex.disc_genre literal
  genre_step g = refl

  quiet_offsets :
      Cases.switch_line (codes "#") (reading Rec.track_offsets Rec.no_multi n old d)
      ≡ value (Rec.next (reading Rec.disc_length Rec.no_multi n old d))
  unfolding Cases.switch_line Cases.track_offsets_case Cases.disc_length_case
      Regex.track_frame_offset Regex.disc_length literal
  quiet_offsets = refl

  quiet_revision :
      Cases.switch_line (codes "#") (reading Rec.disc_revision Rec.no_multi n old d)
      ≡ value (Rec.next (reading Rec.disc_revision Rec.no_multi n old d))
  unfolding Cases.switch_line Cases.disc_revision_case Regex.disc_revision literal
  quiet_revision = refl

  quiet_client :
      (s : Bytes)
      → Cases.switch_line (codes "# " ++ s) (reading Rec.disc_title Rec.no_multi n old d)
        ≡ value (Rec.next (reading Rec.disc_title Rec.no_multi n old d))
  unfolding Cases.switch_line Cases.disc_title_case Regex.disc_title literal
  quiet_client s = refl

  quiet_hash :
      Cases.switch_line (codes "#") (reading Rec.disc_title Rec.no_multi n old d)
      ≡ value (Rec.next (reading Rec.disc_title Rec.no_multi n old d))
  unfolding Cases.switch_line Cases.disc_title_case Regex.disc_title literal
  quiet_hash = refl

  quiet_discid :
      (s : Bytes)
      → Cases.switch_line (codes "DISCID=" ++ s) (reading Rec.disc_title Rec.no_multi n old d)
        ≡ value (Rec.next (reading Rec.disc_title Rec.no_multi n old d))
  unfolding Cases.switch_line Cases.disc_title_case Regex.disc_title literal
  quiet_discid s = refl

  title_step :
      (artist title : CString) (t : Bytes)
      → title ≡ some t
      → artist ≢ none
      → split_last (codes "/ " ++ t) ≡ none
      → Cases.switch_line
          (codes "DTITLE=" ++ or_empty artist ++ codes " / " ++ or_empty title)
          (reading Rec.disc_title Rec.no_multi n old d)
        ≡ value (
            Rec.next (
              reading Rec.disc_title Rec.multi_title n old
                (record d { artist = artist; title = title })))
  title_step none title t e a h = absurd (a refl)
  title_step (some artist) title t e a h =
      rw e (first_line (reading Rec.disc_title Rec.no_multi n old d) artist t h)

-- What is asked of the artist and the title of the disc.
pub record IsTitled (disc : Disc) : Type 0 where
  pub title : Bytes
  pub has_title : disc.title ≡ some title
  pub has_artist : disc.artist ≢ none
  pub splits : split_last (codes "/ " ++ title) ≡ none

-- The fields that are read from their lines.
abbrev pub with_fields : Disc → Disc → Disc
with_fields d disc = record d {
  length = disc.length;
  revision = disc.revision;
  artist = disc.artist;
  title = disc.title;
  year = disc.year;
  genre = some (or_empty (written_genre disc));
}

pub disc_lines-Reads :
    (c : Conn) (disc d : Disc) (n old : ℤ)
    → IsSized disc
    → IsTitled disc
    → Reads
        (disc_lines c disc)
        (reading Rec.track_offsets Rec.no_multi n old d)
        (reading Rec.track_title Rec.no_multi n old (with_fields d disc))
disc_lines-Reads c disc d n old s t =
    let l = to_int-pos disc.length (omega (arith, s.in_length)) in
    let r = to_int-pos disc.revision (omega (arith, s.in_revision)) in
    let revised : disc.revision < 2 ^ 31 = omega (arith, s.in_revision) in
    let d₁ : Disc = record d { length = disc.length } in
    let d₂ : Disc = record d₁ { revision = disc.revision } in
    let d₃ : Disc = record d₂ { artist = disc.artist; title = disc.title } in
    let d₄ : Disc = record d₃ { year = disc.year } in
    let genre =
      Reads-line _ (reading Rec.disc_genre Rec.no_multi n old d₄) _
        (genre_step n old d₄ (or_empty (written_genre disc))) refl in
    let year =
      Reads-cons _ _ (reading Rec.disc_title Rec.multi_title n old d₃) _ _
        (year_step n old d₃ disc.year t.title t.has_title (year_small disc s)) refl genre in
    let title =
      Reads-cons _ _ (reading Rec.disc_title Rec.no_multi n old d₂) _ _
        (title_step n old d₂ disc.artist disc.title t.title t.has_title t.has_artist t.splits) refl
        year in
    let client = Reads-cons _ _ _ _ _ (quiet_client n old d₂ _) refl (
      Reads-cons _ _ _ _ _ (quiet_hash n old d₂) refl
        (Reads-cons _ _ _ _ _ (quiet_discid n old d₂ _) refl title)) in
    let revision =
      Reads-cons _ _ _ _ _ (quiet_revision n old d₁) refl
        (Reads-cons _ _ _ _ _ (revision_step n old d₁ disc.revision revised) refl client) in
    rw (l, r)
      (Reads-cons _ _ _ _ _ (quiet_offsets n old d) refl (
        Reads-cons _ _ _ _ _ (length_step n old d disc.length (omega (arith, s.in_length))) refl
          revision))
