-- ===== src/Record/Cases.antt =====
-- The switch of cddb_parse_record, lib/cddb_cmd.c. A case that falls through ends with the call of
-- the next one.
use libcddb.Base.{if◌then◌else◌, none, some, minus_one, to_u32, Bytes, Run, value, ◌>>=◌}
use libcddb.Disc.{get_track}
use libcddb.Disc.Fields.{set_genre}
use libcddb.Regex
use libcddb.Record.{
  Parser, Step, next, on_disc, is_no_multi, no_multi, starts_with_dot, with_track, start,
  track_offsets, disc_length, disc_revision, disc_title, disc_year, disc_genre, disc_ext,
  track_title, track_ext, play_order, end_dot, stop,
}
use libcddb.Record.Texts.{
  with_track_ext, with_disc_ext, with_track_title, with_disc_title, fresh_disc_title,
  title_or_artist, add_offset,
}

unfoldable pub end_dot_case : Bytes → Parser → Step
end_dot_case line p = if starts_with_dot line then next (record p { state = stop }) else next p

unfoldable pub play_order_case : Bytes → Parser → Step
unfolding end_dot_case
play_order_case line p = elim (Regex.play_order line) [
  | some order ↦ next (record p { state = end_dot })
  | none ↦ end_dot_case line p
]

unfoldable pub track_ext_case : Bytes → Parser → Run Step
unfolding with_track_ext play_order_case
track_ext_case line p = elim (Regex.track_ext line) [
  | some (number, text) ↦
      let n = Regex.get_int number in with_track (with_track_ext text n) track_ext n p
  | none ↦ value (play_order_case line p)
]

unfoldable pub disc_ext_case : Bytes → Parser → Run Step
unfolding with_disc_ext track_ext_case
disc_ext_case line p = elim (Regex.disc_ext line) [
  | some text ↦ value (next (with_disc_ext text p))
  | none ↦ track_ext_case line (record p { multi_line = no_multi })
]

unfoldable pub track_title_case : Bytes → Parser → Run Step
unfolding with_track_title disc_ext_case
track_title_case line p = elim (Regex.track_title line) [
  | some (number, titles) ↦
      let n = Regex.get_int number in with_track (with_track_title titles n) track_title n p
  | none ↦ disc_ext_case line (record p { multi_line = no_multi; old_no = minus_one })
]

unfoldable pub disc_genre_case : Bytes → Parser → Run Step
unfolding set_genre track_title_case
disc_genre_case line p = elim (Regex.disc_genre line) [
  | some genre ↦
      value
        (next (record p { state = track_title; disc = on_disc (λ d. set_genre d genre) p.disc }))
  | none ↦ track_title_case line p
]

unfoldable pub disc_year_case : Bytes → Parser → Run Step
unfolding disc_genre_case
disc_year_case line p = elim (Regex.disc_year line) [
  | some year ↦ value (
      next (record p {
        state = disc_genre;
        disc = record (p.disc) { year = to_u32 (Regex.get_int year) };
      }))
  | none ↦ disc_genre_case line p
]

unfoldable pub disc_title_case : Bytes → Parser → Run Step
unfolding with_disc_title fresh_disc_title disc_year_case
disc_title_case line p = elim (Regex.disc_title line) [
  | some titles ↦ value (next (with_disc_title titles (fresh_disc_title p)))
  | none ↦
      if is_no_multi p.multi_line
      then value (next p)
      else disc_year_case line (record p {
        multi_line = no_multi;
        disc = record (p.disc) { title = title_or_artist p.disc.artist p.disc.title };
      })
]

unfoldable pub disc_revision_case : Bytes → Parser → Step
disc_revision_case line p = elim (Regex.disc_revision line) [
  | some revision ↦ next (record p {
    state = disc_title;
    disc = record (p.disc) { revision = to_u32 (Regex.get_int revision) };
  })
  | none ↦ next p
]

unfoldable pub disc_length_case : Bytes → Parser → Step
disc_length_case line p = elim (Regex.disc_length line) [
  | some length ↦ next (record p {
    state = disc_revision;
    disc = record (p.disc) { length = to_u32 (Regex.get_int length) };
  })
  | none ↦ next p
]

unfoldable pub track_offsets_case : Bytes → Parser → Run Step
unfolding add_offset disc_length_case
track_offsets_case line p = elim (Regex.track_frame_offset line) [
  | some offset ↦ do
    i ← get_track p.disc p.track_no
    value (next (add_offset (Regex.get_int offset) p i))
  | none ↦ value (disc_length_case line (record p { state = disc_length }))
]

unfoldable pub start_case : Bytes → Parser → Step
start_case line p = elim (Regex.track_frame_offsets line) [
  | some _ ↦ next (record p { state = track_offsets })
  | none ↦ next p
]

-- The switch of the loop. STATE_STOP has no case: such a line is only reported.
unfoldable pub switch_line : Bytes → Parser → Run Step
unfolding start_case track_offsets_case disc_length_case disc_revision_case disc_title_case
    disc_year_case disc_genre_case track_title_case disc_ext_case track_ext_case play_order_case
    end_dot_case
switch_line line p = elim p.state [
  | start ↦ value (start_case line p)
  | track_offsets ↦ track_offsets_case line p
  | disc_length ↦ value (disc_length_case line p)
  | disc_revision ↦ value (disc_revision_case line p)
  | disc_title ↦ disc_title_case line p
  | disc_year ↦ disc_year_case line p
  | disc_genre ↦ disc_genre_case line p
  | track_title ↦ track_title_case line p
  | disc_ext ↦ disc_ext_case line p
  | track_ext ↦ track_ext_case line p
  | play_order ↦ value (play_order_case line p)
  | end_dot ↦ value (end_dot_case line p)
  | stop ↦ value (next p)
]
