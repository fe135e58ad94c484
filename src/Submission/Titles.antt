-- ===== src/Submission/Titles.antt =====
-- How cddb_parse_record of lib/cddb_cmd.c reads the titles of the tracks of an entry.
use libcddb.Base.{
  ℕ, suc, ◌+◌, ◌^◌, ◌<◌, ◌≤◌, ◌≡◌, refl, ap, ◌∙◌, arith, false, ℤ, pos, eq_ℤ, none, some, List, [],
  ◌∷◌, ◌++◌, length, Bytes, CString, codes, value,
}
use libcddb.Track.{Track, set_title, set_artist, append_title, append_artist}
use libcddb.Disc.{Disc}
use libcddb.Regex
use libcddb.Regex.{Titles, get_int, titles, both, one, split_last}
use libcddb.Regex.Split.{split_last-append}
use libcddb.Format.{decimal}
use libcddb.Format.Decimal.{get_int-decimal}
use libcddb.Record as Rec
use libcddb.Record.Cases as Cases
use libcddb.Record.Texts as Texts
use libcddb.Submission.Lines.{track_title_line, track_title_lines, track_name}
use libcddb.Submission.Patterns.{track_title-print}
use libcddb.Submission.Reads.{Reads, Reads-nil, Reads-line, Reads-append, Reads-same}
use libcddb.Submission.Tracks.{with_tracks, reading, found_there, changed_there, snoc, length-snoc}

-- The title is taken for what it is when the line is split at its last ` / `.
abbrev pub IsSplit : CString → Bytes → Type 0
IsSplit none title = split_last title ≡ none
IsSplit (some artist) title = split_last (codes "/ " ++ title) ≡ none

abbrev pub HasName : Track → Type 0
HasName t = (title : Bytes) × (t.title ≡ some title) × IsSplit t.artist title

abbrev groups : CString → Bytes → Titles
groups none title = one title
groups (some artist) title = both artist title

abbrev kind : CString → Rec.Multi
kind none = Rec.multi_artist
kind (some artist) = Rec.multi_title

-- A track with the title and the artist of another.
abbrev pub named_as : Track → Track → Track
named_as x t = record x { title = t.title; artist = t.artist }

titles_one : (s : Bytes) → split_last s ≡ none → titles s ≡ one s
unfolding titles
titles_one s h = rw (titles, h)

titles-name :
    (t : Track) (artist : CString) (title : Bytes)
    → t.artist ≡ artist
    → t.title ≡ some title
    → IsSplit artist title
    → titles (track_name t) ≡ groups artist title
unfolding titles
titles-name t none title a e h =
    ap titles {x = track_name t} {y = title} (rw (a, e)) ∙ titles_one title h
titles-name t (some artist) title a e h = rw (a, e, titles, split_last-append artist title h)

module _ (disc : Disc) (done todo : List Track) (x : Track) (m : Rec.Multi) (n old : ℤ) where
  abbrev before_title : Rec.Parser
  before_title = reading Rec.track_title m n old (with_tracks disc (done ++ x ∷ todo))

  add_named :
      (artist : CString) (title : Bytes)
      → eq_ℤ (pos (length done)) old ≡ false
      → Texts.with_track_title (groups artist title) (pos (length done)) before_title (length done)
        ≡ reading Rec.track_title
            (kind artist)
            (pos (length done))
            (pos (length done))
            (with_tracks disc (done ++ record x { title = some title; artist = artist } ∷ todo))
  unfolding Texts.with_track_title Texts.fresh_title Texts.add_track_title set_title set_artist
      append_title append_artist
  add_named none title h =
      let cleared =
        changed_there disc done todo x (λ t. set_title (set_artist t none) none)
          (record x { title = none; artist = none }) refl in
      let filled =
        changed_there disc done todo (record x { title = none; artist = none })
          (λ t. append_title t (some title)) (record x { title = some title; artist = none })
          refl in
      rw (h, cleared, filled) refl
  add_named (some artist) title h =
      let cleared =
        changed_there disc done todo x (λ t. set_title (set_artist t none) none)
          (record x { title = none; artist = none }) refl in
      let filled =
        changed_there disc done todo (record x { title = none; artist = none })
          (λ t. append_title (append_artist (Texts.title_to_artist t) (some artist)) (some title))
          (record x { title = some title; artist = some artist }) refl in
      rw (h, cleared, filled) refl

  title_step :
      (t : Track) (title : Bytes)
      → t.title ≡ some title
      → IsSplit t.artist title
      → eq_ℤ (pos (length done)) old ≡ false
      → length done < 2 ^ 31
      → Cases.switch_line (track_title_line (length done) t) before_title
        ≡ value (
            Rec.next (
              reading Rec.track_title
                (kind t.artist)
                (pos (length done))
                (pos (length done))
                (with_tracks disc (done ++ named_as x t ∷ todo))))
  unfolding Cases.switch_line Cases.track_title_case
  title_step t title e split new few =
      let found : Regex.track_title (track_title_line (length done) t)
          ≡ some (decimal (length done), groups t.artist title) =
        track_title-print (length done) (track_name t)
        ∙ ap (λ g. some (decimal (length done), g)) (titles-name t t.artist title refl e split) in
      rw (
        Cases.switch_line,
        Cases.track_title_case,
        found,
        get_int-decimal (length done) few,
        found_there disc done todo x,
        add_named t.artist title new,
        e,
      )

abbrev pub named_from : List Track → List Track → List Track
named_from (x ∷ xs) (t ∷ ts) = named_as x t ∷ named_from xs ts
named_from xs _ = xs

abbrev pub HaveNames : List Track → Type 0
HaveNames [] = Unit {0}
HaveNames (t ∷ ts) = HasName t × HaveNames ts

-- The parser among the title lines, with whatever track number and kind of line came before.
abbrev pub at_titles : Disc → List Track → Rec.Multi → ℤ → ℤ → Rec.Parser
at_titles disc ts m n old = reading Rec.track_title m n old (with_tracks disc ts)

pub other_number : (i j : ℕ) → i < j → eq_ℤ (pos j) (pos i) ≡ false
other_number i j h = ground arith

-- The title lines of tracks that are all there give these their titles and artists.
pub track_title_lines-Reads :
    (disc : Disc) (ts xs done : List Track) (m : Rec.Multi) (n old : ℤ)
    → HaveNames ts
    → length xs ≡ length ts
    → length done + length ts < 2 ^ 31
    → ((i : ℕ) → length done ≤ i → eq_ℤ (pos i) old ≡ false)
    → (m' : Rec.Multi) × (n' : ℤ) × (old' : ℤ) × Reads
        (track_title_lines (length done) ts)
        (at_titles disc (done ++ xs) m n old)
        (at_titles disc (done ++ named_from xs ts) m' n' old')
track_title_lines-Reads disc [] [] done m n old h same few new = (m, n, old, Reads-nil _)
track_title_lines-Reads disc [] (x ∷ xs) done m n old h same few new = absurd (omega arith)
track_title_lines-Reads disc (t ∷ ts) [] done m n old h same few new = absurd (omega arith)
track_title_lines-Reads disc (t ∷ ts) (x ∷ xs) done m n old ((title, e, split), hs) same few new =
    let y = named_as x t in
    let size = length-snoc done y in
    let i = pos (length done) in
    let (m', n', old', later) =
      track_title_lines-Reads disc ts xs (done ++ y ∷ []) (kind t.artist) i i hs (omega arith)
        (omega (arith, size)) (λ j l. other_number (length done) j (omega (arith, size))) in
    (
      m',
      n',
      old',
      Reads-append (track_title_line (length done) t ∷ [])
          (track_title_lines (suc (length done)) ts) _ _ _
          (Reads-line _ _ _
            (title_step disc done xs x m n old t title e split (new (length done) (omega arith))
              (omega arith))
            refl)
          (Reads-same (ap (λ k. track_title_lines k ts) size)
            (ap (λ l. at_titles disc l (kind t.artist) i i) (snoc done xs y))
            (ap (λ l. at_titles disc l m' n' old') (snoc done (named_from xs ts) y)) later),
    )
