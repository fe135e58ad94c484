-- ===== src/Record/Safe.antt =====
-- No line of an entry leads to a fault in a valid disc, lib/cddb_cmd.c.
use libcddb.Base.{Option-cases, Bool-cases, inl, inr, Bytes, value, minus_one}
use libcddb.Disc.Fields.{set_genre}
use libcddb.Disc.Chain.{IsValid, get_track-pointer}
use libcddb.Regex
use libcddb.Record as Rec
use libcddb.Record.Cases as Cases
use libcddb.Record.Texts as Texts
use libcddb.Record.Valid.{
  Fine, with_track-Fine, with_track_ext-IsValid, add_offset-IsValid, with_disc_ext-IsValid,
  with_track_title-IsValid, with_disc_title-IsValid, fresh_disc_title-IsValid,
}

module _ (line : Bytes) where
  end_dot-Fine : (p : Rec.Parser) → IsValid p.disc → Fine (value (Cases.end_dot_case line p))
  unfolding Cases.end_dot_case
  end_dot-Fine p v = elim (Bool-cases (Rec.starts_with_dot line)) [
    | inl e ↦ rw (Fine, e) v
    | inr e ↦ rw (Fine, e) v
  ]

  play_order-Fine : (p : Rec.Parser) → IsValid p.disc → Fine (value (Cases.play_order_case line p))
  unfolding Cases.play_order_case
  play_order-Fine p v = elim (Option-cases (Regex.play_order line)) [
    | inl e ↦ rw (Fine, e) (end_dot-Fine p v)
    | inr (order, e) ↦ rw (Fine, e) v
  ]

  track_ext-Fine : (p : Rec.Parser) → IsValid p.disc → Fine (Cases.track_ext_case line p)
  unfolding Cases.track_ext_case
  track_ext-Fine p v = elim (Option-cases (Regex.track_ext line)) [
    | inl e ↦ rw (Fine, e) (play_order-Fine p v)
    | inr ((number, text), e) ↦
        let n = Regex.get_int number in
        rw (Fine, e)
          (with_track-Fine (Texts.with_track_ext text n) Rec.track_ext n p
            (λ i. with_track_ext-IsValid text n p i v) v)
  ]

  disc_ext-Fine : (p : Rec.Parser) → IsValid p.disc → Fine (Cases.disc_ext_case line p)
  unfolding Cases.disc_ext_case
  disc_ext-Fine p v = elim (Option-cases (Regex.disc_ext line)) [
    | inl e ↦ rw (Fine, e) (track_ext-Fine (record p { multi_line = Rec.no_multi }) v)
    | inr (text, e) ↦ rw (Fine, e) (with_disc_ext-IsValid text p v)
  ]

  track_title-Fine : (p : Rec.Parser) → IsValid p.disc → Fine (Cases.track_title_case line p)
  unfolding Cases.track_title_case
  track_title-Fine p v = elim (Option-cases (Regex.track_title line)) [
    | inl e ↦
        rw (Fine, e) (disc_ext-Fine (record p { multi_line = Rec.no_multi; old_no = minus_one }) v)
    | inr ((number, titles), e) ↦
        let n = Regex.get_int number in
        rw (Fine, e)
          (with_track-Fine (Texts.with_track_title titles n) Rec.track_title n p
            (λ i. with_track_title-IsValid titles n p i v) v)
  ]

  disc_genre-Fine : (p : Rec.Parser) → IsValid p.disc → Fine (Cases.disc_genre_case line p)
  unfolding Cases.disc_genre_case set_genre
  disc_genre-Fine p v = elim (Option-cases (Regex.disc_genre line)) [
    | inl e ↦ rw (Fine, e) (track_title-Fine p v)
    | inr (genre, e) ↦ rw (Fine, e) (record { counted = v.counted; in_order = v.in_order })
  ]

  disc_year-Fine : (p : Rec.Parser) → IsValid p.disc → Fine (Cases.disc_year_case line p)
  unfolding Cases.disc_year_case
  disc_year-Fine p v = elim (Option-cases (Regex.disc_year line)) [
    | inl e ↦ rw (Fine, e) (disc_genre-Fine p v)
    | inr (year, e) ↦ rw (Fine, e) (record { counted = v.counted; in_order = v.in_order })
  ]

  disc_title-Fine : (p : Rec.Parser) → IsValid p.disc → Fine (Cases.disc_title_case line p)
  unfolding Cases.disc_title_case
  disc_title-Fine p v = elim (Option-cases (Regex.disc_title line)) [
    | inr (titles, e) ↦
        rw (Fine, e) (with_disc_title-IsValid titles _ (fresh_disc_title-IsValid p v))
    | inl e ↦ elim (Bool-cases (Rec.is_no_multi p.multi_line)) [
      | inl k ↦ rw (Fine, e, k) v
      | inr k ↦
          rw (Fine, e, k) (disc_year-Fine _ (record { counted = v.counted; in_order = v.in_order }))
    ]
  ]

  disc_revision-Fine :
      (p : Rec.Parser) → IsValid p.disc → Fine (value (Cases.disc_revision_case line p))
  unfolding Cases.disc_revision_case
  disc_revision-Fine p v = elim (Option-cases (Regex.disc_revision line)) [
    | inl e ↦ rw (Fine, e) v
    | inr (revision, e) ↦ rw (Fine, e) (record { counted = v.counted; in_order = v.in_order })
  ]

  disc_length-Fine :
      (p : Rec.Parser) → IsValid p.disc → Fine (value (Cases.disc_length_case line p))
  unfolding Cases.disc_length_case
  disc_length-Fine p v = elim (Option-cases (Regex.disc_length line)) [
    | inl e ↦ rw (Fine, e) v
    | inr (length, e) ↦ rw (Fine, e) (record { counted = v.counted; in_order = v.in_order })
  ]

  track_offsets-Fine : (p : Rec.Parser) → IsValid p.disc → Fine (Cases.track_offsets_case line p)
  unfolding Cases.track_offsets_case
  track_offsets-Fine p v = elim (Option-cases (Regex.track_frame_offset line)) [
    | inl e ↦ rw (Fine, e) (disc_length-Fine (record p { state = Rec.disc_length }) v)
    | inr (offset, e) ↦
        rw (Fine, e, get_track-pointer p.disc p.track_no v)
          (add_offset-IsValid (Regex.get_int offset) p _ v)
  ]

  start-Fine : (p : Rec.Parser) → IsValid p.disc → Fine (value (Cases.start_case line p))
  unfolding Cases.start_case
  start-Fine p v = elim (Option-cases (Regex.track_frame_offsets line)) [
    | inl e ↦ rw (Fine, e) v
    | inr (_, e) ↦ rw (Fine, e) v
  ]

  read_state-Fine :
      (state : Rec.State) (p : Rec.Parser)
      → IsValid p.disc
      → Fine (Cases.switch_line line (record p { state = state }))
  unfolding Cases.switch_line
  read_state-Fine Rec.start p v = start-Fine (record p { state = Rec.start }) v
  read_state-Fine Rec.track_offsets p v =
      track_offsets-Fine (record p { state = Rec.track_offsets }) v
  read_state-Fine Rec.disc_length p v = disc_length-Fine (record p { state = Rec.disc_length }) v
  read_state-Fine Rec.disc_revision p v =
      disc_revision-Fine (record p { state = Rec.disc_revision }) v
  read_state-Fine Rec.disc_title p v = disc_title-Fine (record p { state = Rec.disc_title }) v
  read_state-Fine Rec.disc_year p v = disc_year-Fine (record p { state = Rec.disc_year }) v
  read_state-Fine Rec.disc_genre p v = disc_genre-Fine (record p { state = Rec.disc_genre }) v
  read_state-Fine Rec.disc_ext p v = disc_ext-Fine (record p { state = Rec.disc_ext }) v
  read_state-Fine Rec.track_title p v = track_title-Fine (record p { state = Rec.track_title }) v
  read_state-Fine Rec.track_ext p v = track_ext-Fine (record p { state = Rec.track_ext }) v
  read_state-Fine Rec.play_order p v = play_order-Fine (record p { state = Rec.play_order }) v
  read_state-Fine Rec.end_dot p v = end_dot-Fine (record p { state = Rec.end_dot }) v
  read_state-Fine Rec.stop p v = v

  -- Whatever the line and the state, a valid disc is read on without a fault and stays valid.
  pub switch_line-Fine : (p : Rec.Parser) → IsValid p.disc → Fine (Cases.switch_line line p)
  switch_line-Fine p v = read_state-Fine p.state p v
