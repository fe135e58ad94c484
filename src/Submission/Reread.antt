-- ===== src/Submission/Reread.antt =====
-- An entry that cddb_write_data of lib/cddb_cmd.c wrote is read by its cddb_parse_record.
use libcddb.Cache.Side.{CacheSide, caches}
use mathlib.Core.List.{append_assoc, append-nil}
use libcddb.Base.{
  unlines, Bool, or_empty, ℕ, suc, ◌+◌, ◌^◌, ◌<◌, ◌≤◌, ◌≡◌, refl, ap, ◌∙◌, sym, arith, false,
  if◌then◌else◌, ℤ, pos, minus_one, eq_ℤ, none, some, List, [], ◌∷◌, ◌++◌, length, Bytes, CString,
  codes, value,
}
use libcddb.Charset.{Iconv}
use libcddb.Conn.{Conn}
use libcddb.Errors.{ok, iconv_fail}
use libcddb.Track.{Track}
use libcddb.Disc.{Disc, disc_new}
use libcddb.Disc.Chain.{IsNumbered, IsValid}
use libcddb.Disc.Convert.{disc_iconv}
use libcddb.Disc.Fields.{set_ext_data, append_ext_data}
use libcddb.Regex
use libcddb.Regex.{literal}
use libcddb.Record as Rec
use libcddb.Record.Cases as Cases
use libcddb.Record.Texts as Texts
use libcddb.Record.Loop.{parse_record, parser_start, read_lines, ended, finish}
use libcddb.Submission.{written_genre}
use libcddb.Submission.Lines.{
  entry_lines, head_lines, disc_lines, offset_lines, track_title_lines, track_ext_lines,
}
use libcddb.Submission.Reads.{Reads, Reads-line, Reads-append, Reads-cons, Reads-same}
use libcddb.Submission.Exact.{IsSized}
use libcddb.Submission.Fields.{IsTitled, with_fields, disc_lines-Reads}
use libcddb.Submission.Tracks.{reading, with_tracks, placed_from, offset_lines-Reads}
use libcddb.Submission.Titles.{HaveNames, named_from, track_title_lines-Reads}
use libcddb.Submission.Exts.{
  IsExtState, first_line, later_line, kept_ext, append_text-none, extended_from,
  track_ext_lines-Reads,
}

-- What an entry keeps of a disc: not the lengths of the tracks, nor extended data that is empty,
-- and a category's name where the genre is missing.
abbrev pub reread_tracks : List Track → List Track
reread_tracks [] = []
reread_tracks (t ∷ ts) =
    record t { length = minus_one; ext_data = kept_ext t.ext_data } ∷ reread_tracks ts

abbrev pub reread_disc : Disc → Disc
reread_disc disc = record disc {
  genre = some (or_empty (written_genre disc));
  ext_data = kept_ext disc.ext_data;
  tracks = reread_tracks disc.tracks;
  iterator = none;
}

head-Reads :
    (d : Disc)
    → Reads head_lines (parser_start d) (reading Rec.track_offsets Rec.no_multi (pos 0) minus_one d)
unfolding Cases.switch_line Cases.start_case Regex.track_frame_offsets literal Regex.blanks
head-Reads d =
    Reads-cons _ _ _ (parser_start d) _ refl refl
      (Reads-cons _ _ _ (parser_start d) _ refl refl (Reads-line _ _ _ refl refl))

ext_step :
    (d : Disc) (m : Rec.Multi) (n old : ℤ) (s : CString)
    → Cases.switch_line (codes "EXTD=" ++ or_empty s) (reading Rec.track_title m n old d)
      ≡ value (
          Rec.next
            (reading Rec.disc_ext Rec.multi_ext n minus_one (record d { ext_data = kept_ext s })))
unfolding Cases.switch_line Cases.track_title_case Cases.disc_ext_case Texts.with_disc_ext
    Regex.track_title Regex.disc_ext literal set_ext_data append_ext_data
ext_step d m n old s = let kept = append_text-none (or_empty s) in rw kept

order_step :
    (state : Rec.State) (d : Disc) (m : Rec.Multi) (n old : ℤ)
    → IsExtState state
    → (m' : Rec.Multi) × (Cases.switch_line (codes "PLAYORDER=") (reading state m n old d)
        ≡ value (Rec.next (reading Rec.end_dot m' n old d)))
unfolding Cases.switch_line Cases.disc_ext_case Cases.track_ext_case Cases.play_order_case
    Regex.disc_ext Regex.track_ext Regex.play_order literal
order_step _ d m n old first_line = (Rec.no_multi, refl)
order_step _ d m n old later_line = (m, refl)

tracks-reread :
    (n : ℕ) (ts : List Track)
    → IsNumbered n ts
    → extended_from (named_from (placed_from n ts) ts) ts ≡ reread_tracks ts
tracks-reread n [] h = refl
tracks-reread n (t ∷ ts) (h, hs) = rw (h, tracks-reread (suc n) ts hs)

-- A new disc, of which the category and the disc ID are known.
abbrev pub asked_for : Disc → Disc
asked_for disc = record disc_new { discid = disc.discid; category = disc.category }

length-placed_from : (n : ℕ) (ts : List Track) → length (placed_from n ts) ≡ length ts
length-placed_from n [] = refl
length-placed_from n (t ∷ ts) = ap suc (length-placed_from (suc n) ts)

length-named_from :
    (xs ts : List Track) → length xs ≡ length ts → length (named_from xs ts) ≡ length ts
length-named_from [] [] h = refl
length-named_from [] (t ∷ ts) h = h
length-named_from (x ∷ xs) [] h = h
length-named_from (x ∷ xs) (t ∷ ts) h = ap suc (length-named_from xs ts (omega arith))

length-reread_tracks : (ts : List Track) → length (reread_tracks ts) ≡ length ts
length-reread_tracks [] = refl
length-reread_tracks (t ∷ ts) = ap suc (length-reread_tracks ts)

unset : (i : ℕ) → eq_ℤ (pos i) minus_one ≡ false
unset i = ground arith

all_read :
    (disc : Disc)
    → IsValid disc
    → with_tracks
        (record (with_fields (asked_for disc) disc) { ext_data = kept_ext disc.ext_data })
        (extended_from (named_from (placed_from 1 disc.tracks) disc.tracks) disc.tracks)
      ≡ reread_disc disc
all_read disc v =
    let size : length (reread_tracks disc.tracks) ≡ disc.track_cnt =
      length-reread_tracks disc.tracks ∙ sym v.counted in
    rw (tracks-reread 1 disc.tracks v.in_order, size)

-- The lines up to the titles of the tracks.
first_part :
    (c : Conn) (disc : Disc)
    → IsSized disc
    → IsTitled disc
    → Reads
        (head_lines ++ offset_lines disc.tracks ++ disc_lines c disc)
        (parser_start (asked_for disc))
        (reading Rec.track_title Rec.no_multi
          (pos (length (placed_from 1 disc.tracks)))
          minus_one
          (with_tracks (with_fields (asked_for disc) disc) (placed_from 1 disc.tracks)))
first_part c disc s titled =
    let d = asked_for disc in
    let placed = placed_from 1 disc.tracks in
    Reads-append (head_lines ++ offset_lines disc.tracks) (disc_lines c disc) _ _ _
      (Reads-append head_lines (offset_lines disc.tracks) _ _ _ (head-Reads d)
        (offset_lines-Reads d disc.tracks [] s.offsets (omega (arith, s.few))))
      (disc_lines-Reads c disc (with_tracks d placed) (pos (length placed)) minus_one s titled)

-- The lines from there on.
last_part :
    (disc d : Disc) (xs : List Track) (m : Rec.Multi) (n : ℤ)
    → length xs ≡ length disc.tracks
    → length disc.tracks ≤ 20
    → HaveNames disc.tracks
    → (m' : Rec.Multi) × (n' : ℤ) × (old' : ℤ) × Reads
        (track_title_lines 0 disc.tracks
          ++ (codes "EXTD=" ++ or_empty disc.ext_data) ∷ []
          ++ track_ext_lines 0 disc.tracks
          ++ codes "PLAYORDER=" ∷ [])
        (reading Rec.track_title m n minus_one (with_tracks d xs))
        (reading Rec.end_dot m' n' old' (
          with_tracks
            (record d { ext_data = kept_ext disc.ext_data })
            (extended_from (named_from xs disc.tracks) disc.tracks)))
last_part disc d xs m n same few named =
    let ts = disc.tracks in
    let small : 0 + length ts < 2 ^ 31 = omega (arith, few) in
    let d₂ : Disc = record d { ext_data = kept_ext disc.ext_data } in
    let (m₁, n₁, old₁, titles) =
      track_title_lines-Reads d ts xs [] m n minus_one named same small (λ i _. unset i) in
    let (st, m₂, n₂, old₂, e, exts) =
      track_ext_lines-Reads d₂ ts (named_from xs ts) [] Rec.disc_ext Rec.multi_ext n₁ minus_one
        first_line (length-named_from xs ts same) small (λ i _. unset i) in
    let (m₃, order) =
      order_step st (with_tracks d₂ (extended_from (named_from xs ts) ts)) m₂ n₂ old₂ e in
    let ext = (codes "EXTD=" ++ or_empty disc.ext_data) ∷ [] in
    (
      m₃,
      n₂,
      old₂,
      Reads-append (track_title_lines 0 ts ++ ext ++ track_ext_lines 0 ts) (codes "PLAYORDER=" ∷ [])
          _ _ _
          (Reads-append (track_title_lines 0 ts ++ ext) (track_ext_lines 0 ts) _ _ _
            (Reads-append (track_title_lines 0 ts) ext _ _ _ titles (
              Reads-line _ _ _
                (ext_step (with_tracks d (named_from xs ts)) m₁ n₁ old₁ disc.ext_data) refl))
            exts)
          (Reads-line _ _ _ order refl),
    )

regroup {ℓ} :
    {A : Type ℓ} (ws xs ys zs vs : List A)
    → ws ++ (xs ++ ys ++ zs ++ vs) ≡ ws ++ xs ++ ys ++ zs ++ vs
regroup ws xs ys zs vs = simp append_assoc

-- What is asked of a disc so that its entry can be read again.
pub record IsRereadable (disc : Disc) : Type 0 where
  pub valid : IsValid disc
  pub sized : IsSized disc
  pub titled : IsTitled disc
  pub named : HaveNames disc.tracks

entry_lines-Reads :
    (c : Conn) (disc : Disc)
    → IsRereadable disc
    → (m : Rec.Multi) × (n : ℤ) × (old : ℤ) × Reads
        (entry_lines c disc)
        (parser_start (asked_for disc))
        (reading Rec.end_dot m n old (reread_disc disc))
entry_lines-Reads c disc h =
    let ts = disc.tracks in
    let placed = placed_from 1 ts in
    let (m, n, old, later) =
      last_part disc (with_fields (asked_for disc) disc) placed Rec.no_multi (pos (length placed))
        (length-placed_from 1 ts) h.sized.few h.named in
    (
      m,
      n,
      old,
      Reads-same
          (regroup (head_lines ++ offset_lines ts ++ disc_lines c disc) (track_title_lines 0 ts)
            ((codes "EXTD=" ++ or_empty disc.ext_data) ∷ []) (track_ext_lines 0 ts)
            (codes "PLAYORDER=" ∷ []))
          refl (ap (reading Rec.end_dot m n old) (all_read disc h.valid))
          (Reads-append (head_lines ++ offset_lines ts ++ disc_lines c disc) _ _ _ _
            (first_part c disc h.sized h.titled) later),
    )

read_to_end :
    (ls : List Bytes) (p : Rec.Parser) (m : Rec.Multi) (n old : ℤ) (d : Disc)
    → Reads ls p (reading Rec.end_dot m n old d)
    → read_lines ls p ≡ value (ls, ended (reading Rec.stop m n old d))
unfolding read_lines
read_to_end ls p m n old d h =
    rw append-nil at (h.goes_on [] [] (ended (reading Rec.stop m n old d)) refl)

-- The lines of an entry that was written are read into a new disc with the category and the disc
-- ID: it gets what the entry keeps of the written disc, converted to the user's character set, and
-- reading fails only where this conversion does.
pub parse_record-entry :
    (cd : Iconv) (side : CacheSide) (c : Conn) (disc : Disc) (caching : Bool)
    → IsRereadable disc
    → caches side ≡ value caching
    → parse_record cd side (entry_lines c disc) (asked_for disc)
      ≡ value (record {
        errno = if (disc_iconv cd (reread_disc disc)).1 then ok else iconv_fail;
        disc = (disc_iconv cd (reread_disc disc)).0;
        cached = if caching then unlines (entry_lines c disc) else [];
        unlinked = false;
      })
unfolding parse_record finish
parse_record-entry cd side c disc caching h asked =
    let (m, n, old, reads) = entry_lines-Reads c disc h in
    let loop =
      read_to_end (entry_lines c disc) (parser_start (asked_for disc)) m n old (reread_disc disc)
        reads in
    rw (asked, loop) refl
