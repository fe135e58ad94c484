-- ===== src/Record.antt =====
-- cddb_parse_record of lib/cddb_cmd.c: the lines of a database entry, from the network or from the
-- cache, are read into a disc. Its variables are here, what a line does to the disc in Texts, the
-- switch in Cases, the loop and what comes after it in Loop.
pub mod Texts
pub mod Cases
pub mod Loop
pub mod Reread
pub mod Valid
pub mod Safe
pub mod Total
pub mod Titles
use libcddb.Base.{
  ℕ, Bool, true, false, ◌==◌, Option, none, some, [], ◌∷◌, ℤ, Bytes, Run, value, fault, ◌>>=◌,
}
use libcddb.Disc.{Disc, get_track}

-- STATE_START … STATE_STOP
pub data State : Type 0 where
  start track_offsets disc_length disc_revision disc_title disc_year disc_genre disc_ext : State
  track_title track_ext play_order end_dot stop : State

-- MULTI_NONE … MULTI_EXT
pub data Multi : Type 0 where
  no_multi multi_artist multi_title multi_ext : Multi

abbrev pub is_stop : State → Bool
is_stop stop = true
is_stop _ = false

abbrev pub is_no_multi : Multi → Bool
is_no_multi no_multi = true
is_no_multi _ = false

abbrev pub is_multi_title : Multi → Bool
is_multi_title multi_title = true
is_multi_title _ = false

-- The variables of cddb_parse_record, with the disc that it fills.
pub record Parser : Type 0 where
  pub state : State
  pub multi_line : Multi
  pub track_no : ℤ
  pub old_no : ℤ
  pub disc : Disc

-- The way out of the switch: to the next line, or out of the function for a missing track.
pub data Step : Type 0 where
  next : Parser → Step
  track_not_found : Parser → Step

-- A setter on the disc that is being read, which is not NULL.
abbrev pub on_disc : (Option Disc → Option Disc) → Disc → Disc
on_disc f disc = elim (f (some disc)) [ none ↦ disc | some changed ↦ changed ]

-- `*line == CHR_DOT`
abbrev pub starts_with_dot : Bytes → Bool
starts_with_dot [] = false
starts_with_dot (c ∷ s) = c == b'.'

-- The lookup of the track that a line names; without one the function is left.
abbrev pub found_track : (Parser → ℕ → Parser) → State → ℤ → Parser → Option ℕ → Step
found_track f state n p none = track_not_found (record p { state = state; track_no = n })
found_track f state n p (some i) = next (f p i)

abbrev pub with_track : (Parser → ℕ → Parser) → State → ℤ → Parser → Run Step
with_track f state n p = do i ← get_track p.disc n; value (found_track f state n p i)
