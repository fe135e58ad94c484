-- ===== src/Submission/Exts.antt =====
-- How cddb_parse_record of lib/cddb_cmd.c reads the extended data of the tracks of an entry.
use libcddb.Base.{
  or_empty, ℕ, suc, ◌+◌, ◌^◌, ◌<◌, ◌≤◌, ◌≡◌, refl, ap, arith, false, ℤ, pos, eq_ℤ, none, some, List,
  [], ◌∷◌, ◌++◌, length, Bytes, CString, value,
}
use libcddb.Track.{Track, set_ext_data, append_ext_data, append_text}
use libcddb.Disc.{Disc}
use libcddb.Regex
use libcddb.Regex.{literal}
use libcddb.Format.Decimal.{get_int-decimal}
use libcddb.Record as Rec
use libcddb.Record.Cases as Cases
use libcddb.Record.Texts as Texts
use libcddb.Record.Texts.{ext_text}
use libcddb.Submission.Lines.{track_ext_line, track_ext_lines}
use libcddb.Submission.Patterns.{track_ext-print}
use libcddb.Submission.Reads.{Reads, Reads-nil, Reads-line, Reads-append, Reads-same}
use libcddb.Submission.Tracks.{with_tracks, reading, found_there, changed_there, snoc, length-snoc}
use libcddb.Submission.Titles.{other_number}

-- The states in which such a line is expected.
pub data IsExtState : Rec.State → Type 0 where
  first_line : IsExtState Rec.disc_ext
  later_line : IsExtState Rec.track_ext

-- A text that is not empty.
abbrev pub kept_ext : CString → CString
kept_ext s = ext_text (or_empty s)

-- A track with the extended data of another.
abbrev pub extended_as : Track → Track → Track
extended_as x t = record x { ext_data = kept_ext t.ext_data }

abbrev pub extended_from : List Track → List Track → List Track
extended_from (x ∷ xs) (t ∷ ts) = extended_as x t ∷ extended_from xs ts
extended_from xs _ = xs

pub append_text-none : (s : Bytes) → append_text none (ext_text s) ≡ ext_text s
append_text-none [] = refl
append_text-none (c ∷ s) = refl

module _ (disc : Disc) (done todo : List Track) (x : Track) (n old : ℤ) where
  add_ext :
      (state : Rec.State) (m : Rec.Multi) (s : Bytes)
      → eq_ℤ (pos (length done)) old ≡ false
      → Texts.with_track_ext s
          (pos (length done))
          (reading state m n old (with_tracks disc (done ++ x ∷ todo)))
          (length done)
        ≡ reading Rec.track_ext m
            (pos (length done))
            (pos (length done))
            (with_tracks disc (done ++ record x { ext_data = ext_text s } ∷ todo))
  unfolding Texts.with_track_ext set_ext_data append_ext_data
  add_ext state m s h =
      let cleared =
        changed_there disc done todo x (λ t. set_ext_data t none) (record x { ext_data = none })
          refl in
      let filled =
        changed_there disc done todo (record x { ext_data = none })
          (λ t. append_ext_data t (ext_text s)) (record x { ext_data = ext_text s })
          (ap (λ e. some (record x { ext_data = e })) (append_text-none s)) in
      rw (h, cleared, filled) refl

  ext_step :
      (state : Rec.State) (m : Rec.Multi) (t : Track)
      → IsExtState state
      → eq_ℤ (pos (length done)) old ≡ false
      → length done < 2 ^ 31
      → (m' : Rec.Multi) × (Cases.switch_line
            (track_ext_line (length done) t)
            (reading state m n old (with_tracks disc (done ++ x ∷ todo)))
          ≡ value (
              Rec.next (
                reading Rec.track_ext m'
                  (pos (length done))
                  (pos (length done))
                  (with_tracks disc (done ++ extended_as x t ∷ todo)))))
  unfolding Cases.switch_line Cases.disc_ext_case Cases.track_ext_case literal Regex.disc_ext
  ext_step _ m t first_line new few = (
    Rec.no_multi,
    let found = track_ext-print (length done) (or_empty t.ext_data) in
        rw
          (
            Cases.switch_line,
            Cases.disc_ext_case,
            Regex.disc_ext,
            Cases.track_ext_case,
            found,
            get_int-decimal (length done) few,
            found_there disc done todo x,
            add_ext Rec.disc_ext Rec.no_multi (or_empty t.ext_data) new,
          )
          refl,
  )
  ext_step _ m t later_line new few = (
    m,
    let found = track_ext-print (length done) (or_empty t.ext_data) in
        rw
          (
            Cases.switch_line,
            Cases.track_ext_case,
            found,
            get_int-decimal (length done) few,
            found_there disc done todo x,
            add_ext Rec.track_ext m (or_empty t.ext_data) new,
          )
          refl,
  )

abbrev pub at_exts : Disc → List Track → Rec.State → Rec.Multi → ℤ → ℤ → Rec.Parser
at_exts disc ts state m n old = reading state m n old (with_tracks disc ts)

-- The extension lines of tracks that are all there give these their extended data.
pub track_ext_lines-Reads :
    (disc : Disc) (ts xs done : List Track) (state : Rec.State) (m : Rec.Multi) (n old : ℤ)
    → IsExtState state
    → length xs ≡ length ts
    → length done + length ts < 2 ^ 31
    → ((i : ℕ) → length done ≤ i → eq_ℤ (pos i) old ≡ false)
    → (state' : Rec.State) × (m' : Rec.Multi) × (n' : ℤ) × (old' : ℤ) × IsExtState state'
      × Reads
          (track_ext_lines (length done) ts)
          (at_exts disc (done ++ xs) state m n old)
          (at_exts disc (done ++ extended_from xs ts) state' m' n' old')
track_ext_lines-Reads disc [] [] done state m n old s same few new =
    (state, m, n, old, s, Reads-nil _)
track_ext_lines-Reads disc [] (x ∷ xs) done state m n old s same few new = absurd (omega arith)
track_ext_lines-Reads disc (t ∷ ts) [] done state m n old s same few new = absurd (omega arith)
track_ext_lines-Reads disc (t ∷ ts) (x ∷ xs) done state m n old s same few new =
    let y = extended_as x t in
    let size = length-snoc done y in
    let i = pos (length done) in
    let (m₁, step) =
      ext_step disc done xs x n old state m t s (new (length done) (omega arith)) (omega arith) in
    let (state', m', n', old', s', later) =
      track_ext_lines-Reads disc ts xs (done ++ y ∷ []) Rec.track_ext m₁ i i later_line
        (omega arith) (omega (arith, size))
        (λ j l. other_number (length done) j (omega (arith, size))) in
    (
      state',
      m',
      n',
      old',
      s',
      Reads-append (track_ext_line (length done) t ∷ []) (track_ext_lines (suc (length done)) ts) _
          _ _ (Reads-line _ _ _ step refl)
          (Reads-same (ap (λ k. track_ext_lines k ts) size)
            (ap (λ l. at_exts disc l Rec.track_ext m₁ i i) (snoc done xs y))
            (ap (λ l. at_exts disc l state' m' n' old') (snoc done (extended_from xs ts) y)) later),
    )
