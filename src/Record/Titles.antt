-- ===== src/Record/Titles.antt =====
-- A disc's title over several lines `DTITLE=`, lib/cddb_cmd.c.
use libcddb.Base.{◌≡◌, refl, ap, none, some, List, [], ◌∷◌, ◌++◌, Bytes, codes, Run, value, ◌>>=◌}
use libcddb.Disc.Fields.{append_title, append_artist, set_title, set_artist}
use libcddb.Regex
use libcddb.Regex.{split_last, titles, literal}
use libcddb.Regex.Split.{slash, split_last-append}
use libcddb.Record as Rec
use libcddb.Record.Cases.{switch_line, disc_title_case}
use libcddb.Record.Texts.{with_disc_title, fresh_disc_title}
use libcddb.Record.Loop.{Left, prepend, read_lines}

abbrev pub title_line : Bytes → Bytes
title_line s = codes "DTITLE=" ++ s

-- The parser among the lines of a title, with the artist and what there is of the title.
abbrev pub in_title : Rec.Parser → Bytes → Bytes → Rec.Parser
in_title p artist title = record p {
  state = Rec.disc_title;
  multi_line = Rec.multi_title;
  disc = record (p.disc) { artist = some artist; title = some title };
}

disc_title_line : (s : Bytes) → Regex.disc_title (title_line s) ≡ some (titles s)
unfolding Regex.disc_title literal
disc_title_line s = refl

pub first_line :
    (p : Rec.Parser) (artist title : Bytes)
    → split_last (codes "/ " ++ title) ≡ none
    → switch_line
        (title_line (artist ++ slash ++ title))
        (record p { state = Rec.disc_title; multi_line = Rec.no_multi })
      ≡ value (Rec.next (in_title p artist title))
unfolding switch_line disc_title_case with_disc_title fresh_disc_title append_title append_artist
    set_title set_artist titles
first_line p artist title h =
    rw
      (
        switch_line,
        disc_title_case,
        disc_title_line (artist ++ slash ++ title),
        titles,
        split_last-append artist title h,
      )
      refl

next_line :
    (p : Rec.Parser) (artist title s : Bytes)
    → split_last s ≡ none
    → switch_line (title_line s) (in_title p artist title)
      ≡ value (Rec.next (in_title p artist (title ++ s)))
unfolding switch_line disc_title_case with_disc_title fresh_disc_title append_title titles
next_line p artist title s h = rw (switch_line, disc_title_case, disc_title_line s, titles, h) refl

-- Lines without a ` / `.
abbrev pub AreContinuations : List Bytes → Type 0
AreContinuations [] = Unit {0}
AreContinuations (s ∷ ss) = (split_last s ≡ none) × AreContinuations ss

abbrev pub title_lines : List Bytes → List Bytes → List Bytes
title_lines [] rest = rest
title_lines (s ∷ ss) rest = title_line s ∷ title_lines ss rest

-- The title with its continuations.
abbrev pub extended : Bytes → List Bytes → Bytes
extended title [] = title
extended title (s ∷ ss) = extended (title ++ s) ss

-- The lines in front of what a loop reads.
abbrev pub read_before : List Bytes → Run (List Bytes × Left) → Run (List Bytes × Left)
read_before [] r = r
read_before (line ∷ lines) r = read_before lines r >>= prepend line

further_lines :
    (p : Rec.Parser) (artist title : Bytes) (ss rest : List Bytes)
    → AreContinuations ss
    → read_lines (title_lines ss rest) (in_title p artist title)
      ≡ read_before (title_lines ss []) (read_lines rest (in_title p artist (extended title ss)))
unfolding read_lines
further_lines p artist title [] rest h = refl
further_lines p artist title (s ∷ ss) rest (h, hs) =
    rw (next_line p artist title s h)
      (ap (λ r. r >>= prepend (title_line s)) (further_lines p artist (title ++ s) ss rest hs))

-- An artist and a title on a first line, and lines that continue the title: the artist is as on
-- the first line, the title is the one there with all the continuations in order, and reading goes
-- on behind them, whatever artist and title the disc had.
pub read_lines-title :
    (p : Rec.Parser) (artist title : Bytes) (ss rest : List Bytes)
    → split_last (codes "/ " ++ title) ≡ none
    → AreContinuations ss
    → read_lines
        (title_lines ((artist ++ slash ++ title) ∷ ss) rest)
        (record p { state = Rec.disc_title; multi_line = Rec.no_multi })
      ≡ read_before
          (title_lines ((artist ++ slash ++ title) ∷ ss) [])
          (read_lines rest (in_title p artist (extended title ss)))
unfolding read_lines
read_lines-title p artist title ss rest h hs = rw (first_line p artist title h) (
    ap (λ r. r >>= prepend (title_line (artist ++ slash ++ title)))
      (further_lines p artist title ss rest hs))
