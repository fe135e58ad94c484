-- ===== src/Submission/Tracks.antt =====
-- How cddb_parse_record of lib/cddb_cmd.c reads the lines of the tracks of an entry.
use mathlib.Core.List.{append_assoc, append-nil}
use libcddb.Base.{
  ℕ, suc, ◌+◌, ◌^◌, ◌<◌, ◌≡◌, refl, ap, ◌∙◌, subst, arith, ltb, true, ℤ, pos, minus_one, wrap_int,
  wrap_int-pos, +ℤ-pos, ◌+ℤ◌, Option, none, some, List, [], ◌∷◌, ◌++◌, length, length-append, value,
}
use libcddb.Track.{Track, track_new}
use libcddb.Disc.{Disc, add_track, get_track, on_track}
use libcddb.Disc.Chain.{get_track-counted}
use libcddb.Disc.Copy.{get_middle, set_middle}
use libcddb.Format.Decimal.{get_int-decimal}
use libcddb.Record as Rec
use libcddb.Record.Cases as Cases
use libcddb.Record.Texts as Texts
use libcddb.Submission.Lines.{offset_line, offset_lines}
use libcddb.Submission.Exact.{HaveOffsets}
use libcddb.Submission.Patterns.{track_frame_offset-print}
use libcddb.Submission.Reads.{Reads, Reads-nil, Reads-line, Reads-append}

-- A disc with these tracks, and a parser that reads it.
abbrev pub with_tracks : Disc → List Track → Disc
with_tracks disc ts = record disc { tracks = ts; track_cnt = length ts }

abbrev pub reading : Rec.State → Rec.Multi → ℤ → ℤ → Disc → Rec.Parser
reading state multi n old disc = record {
  state = state;
  multi_line = multi;
  track_no = n;
  old_no = old;
  disc = disc;
}

-- What the offset line of a track leaves.
abbrev pub placed : ℕ → Track → Track
placed n t = record track_new { num = pos n; frame_offset = t.frame_offset }

abbrev pub placed_from : ℕ → List Track → List Track
placed_from n [] = []
placed_from n (t ∷ ts) = placed n t ∷ placed_from (suc n) ts

behind_end :
    (disc : Disc) (ts : List Track) → get_track (with_tracks disc ts) (pos (length ts)) ≡ value none
unfolding get_track
behind_end disc ts = ground arith

-- The parser among the lines of the frame offsets.
abbrev pub at_offsets : Disc → List Track → Rec.Parser
at_offsets disc ts =
    reading Rec.track_offsets Rec.no_multi (pos (length ts)) minus_one (with_tracks disc ts)

pub length-snoc {ℓ} : {A : Type ℓ} (xs : List A) (x : A) → length (xs ++ x ∷ []) ≡ suc (length xs)
length-snoc xs x = omega (arith, length-append xs (x ∷ []))

offset_step :
    (disc : Disc) (done : List Track) (t : Track) (o : ℕ)
    → t.frame_offset ≡ pos o
    → o < 2 ^ 31
    → length done + 1 < 2 ^ 31
    → Cases.switch_line (offset_line t) (at_offsets disc done)
      ≡ value (Rec.next (at_offsets disc (done ++ placed (suc (length done)) t ∷ [])))
unfolding Cases.switch_line Cases.track_offsets_case Texts.add_offset add_track
offset_step disc done t o e small few =
    let one_more : length done + 1 ≡ suc (length done) = omega arith in
    let next : wrap_int (pos (length done) +ℤ pos 1) ≡ pos (suc (length done)) =
      ap wrap_int (+ℤ-pos (length done) 1) ∙ wrap_int-pos (length done + 1) few ∙ ap pos one_more in
    rw (
      Cases.switch_line,
      Cases.track_offsets_case,
      e,
      track_frame_offset-print o,
      behind_end disc done,
      get_int-decimal o small,
      next,
      one_more,
      length-snoc done (record track_new { num = pos (suc (length done)); frame_offset = pos o }),
    )

pub snoc {ℓ} : {A : Type ℓ} (xs ys : List A) (x : A) → xs ++ x ∷ [] ++ ys ≡ xs ++ x ∷ ys
snoc xs ys x = simp append_assoc

-- The offset lines of tracks add these, with their offsets and their numbers.
pub offset_lines-Reads :
    (disc : Disc) (ts done : List Track)
    → HaveOffsets ts
    → length done + length ts < 2 ^ 31
    → Reads
        (offset_lines ts)
        (at_offsets disc done)
        (at_offsets disc (done ++ placed_from (suc (length done)) ts))
offset_lines-Reads disc [] done h few = rw (append-nil) (Reads-nil (at_offsets disc done))
offset_lines-Reads disc (t ∷ ts) done ((o, e, b), hs) few =
    let x = placed (suc (length done)) t in
    let size = length-snoc done x in
    let later = offset_lines-Reads disc ts (done ++ x ∷ []) hs (omega (arith, size)) in
    let same : done ++ x ∷ [] ++ placed_from (suc (length (done ++ x ∷ []))) ts
        ≡ done ++ x ∷ placed_from (suc (suc (length done))) ts =
      rw size (snoc done (placed_from (suc (suc (length done))) ts) x) in
    Reads-append (offset_line t ∷ []) (offset_lines ts) _ _ _
      (Reads-line _ _ _ (offset_step disc done t o e (omega arith) (omega arith)) refl)
      (subst (λ ds. Reads (offset_lines ts) (at_offsets disc (done ++ x ∷ [])) (at_offsets disc ds))
        same later)

module _ (disc : Disc) (done todo : List Track) (x : Track) where
  -- The track at the end of `done` is found by its number.
  pub found_there :
      get_track (with_tracks disc (done ++ x ∷ todo)) (pos (length done))
      ≡ value (some (length done))
  found_there =
      let inside : ltb (length done) (length (done ++ x ∷ todo)) ≡ true =
        ground (arith, length-append done (x ∷ todo)) in
      get_track-counted (with_tracks disc (done ++ x ∷ todo)) (pos (length done)) refl
      ∙ rw inside refl

  -- A change to it leaves the others.
  pub changed_there :
      (f : Option Track → Option Track) (y : Track)
      → f (some x) ≡ some y
      → on_track f (with_tracks disc (done ++ x ∷ todo)) (length done)
        ≡ with_tracks disc (done ++ y ∷ todo)
  changed_there f y e =
      let size : length (done ++ x ∷ todo) ≡ length (done ++ y ∷ todo) =
        omega (arith, length-append done (x ∷ todo), length-append done (y ∷ todo)) in
      rw (get_middle done todo x, e, set_middle done todo x y, size)
