-- ===== src/Record/Texts.antt =====
-- What a line of an entry does to the disc, lib/cddb_cmd.c.
use libcddb.Base.{
  ℕ, pos, if◌then◌else◌, Option, none, some, [], ◌∷◌, ℤ, ◌+ℤ◌, eq_ℤ, wrap_int, Bytes, CString,
}
use libcddb.Track.{
  Track, track_new, set_title as set_track_title, append_title as append_track_title,
  set_artist as set_track_artist, append_artist as append_track_artist,
  set_ext_data as set_track_ext, append_ext_data as append_track_ext,
}
use libcddb.Disc.{add_track, on_track}
use libcddb.Disc.Fields.{
  set_title, append_title, set_artist, append_artist, set_ext_data, append_ext_data,
}
use libcddb.Regex.{Titles, both, one}
use libcddb.Record.{
  Parser, on_disc, is_no_multi, is_multi_title, multi_artist, multi_title, multi_ext, track_title,
  track_ext, disc_ext,
}

-- The text of an extension line is appended unless it is empty.
abbrev pub ext_text : Bytes → CString
ext_text [] = none
ext_text (c ∷ s) = some (c ∷ s)

-- The rest of the case for a line `EXTTn=` whose track is at position `i`.
unfoldable pub with_track_ext : Bytes → ℤ → Parser → ℕ → Parser
unfolding set_track_ext append_track_ext
with_track_ext text n p i =
    let cleared =
      if eq_ℤ n p.old_no then p.disc else on_track (λ t. set_track_ext t none) p.disc i in
    record p {
      state = track_ext;
      track_no = n;
      old_no = n;
      disc = on_track (λ t. append_track_ext t (ext_text text)) cleared i;
    }

-- A line `EXTD=`: the first one clears what the disc has from an earlier read.
unfoldable pub with_disc_ext : Bytes → Parser → Parser
unfolding set_ext_data append_ext_data
with_disc_ext text p =
    let fresh = is_no_multi p.multi_line in
    let cleared = if fresh then on_disc (λ d. set_ext_data d none) p.disc else p.disc in
    record p {
      state = disc_ext;
      multi_line = if fresh then multi_ext else p.multi_line;
      disc = on_disc (λ d. append_ext_data d (ext_text text)) cleared;
    }

-- A line `TTITLEn=`: the first one for a track clears its title and artist. A text without ` / `
-- goes into the title, and is moved to the artist if a later line has the ` / `.
unfoldable pub fresh_title : ℤ → Parser → ℕ → Parser
unfolding set_track_title set_track_artist
fresh_title n p i = if eq_ℤ n p.old_no then p else record p {
  multi_line = multi_artist;
  old_no = n;
  disc = on_track (λ t. set_track_title (set_track_artist t none) none) p.disc i;
}

abbrev pub title_to_artist : Option Track → Option Track
title_to_artist none = none
title_to_artist (some t) = some (record t { artist = t.title; title = none })

unfoldable pub add_track_title : Titles → Parser → ℕ → Parser
unfolding append_track_title append_track_artist
add_track_title (one text) p i = record p {
  disc = on_track (λ t. append_track_title t (some text)) p.disc i;
}
add_track_title (both artist title) p i = record p {
  multi_line = multi_title;
  disc =
      on_track
        (λ t.
          append_track_title (append_track_artist (title_to_artist t) (some artist)) (some title))
        p.disc i;
}

unfoldable pub with_track_title : Titles → ℤ → Parser → ℕ → Parser
unfolding fresh_title add_track_title
with_track_title titles n p i =
    add_track_title titles (fresh_title n (record p { state = track_title; track_no = n }) i) i

-- A line `DTITLE=`.
unfoldable pub with_disc_title : Titles → Parser → Parser
unfolding append_artist append_title
with_disc_title (both artist title) p = record p {
  multi_line = multi_title;
  disc = on_disc (λ d. append_title (append_artist d (some artist)) (some title)) p.disc;
}
with_disc_title (one text) p =
    if is_multi_title p.multi_line
    then record p { disc = on_disc (λ d. append_title d (some text)) p.disc }
    else record p {
      multi_line = multi_artist;
      disc = on_disc (λ d. append_artist d (some text)) p.disc;
    }

unfoldable pub fresh_disc_title : Parser → Parser
unfolding set_artist set_title
fresh_disc_title p =
    if is_no_multi p.multi_line
    then record p { disc = on_disc (λ d. set_title (set_artist d none) none) p.disc }
    else p

-- An artist that came without a title is the title, too.
abbrev pub title_or_artist : CString → CString → CString
title_or_artist (some artist) none = some artist
title_or_artist artist title = title

-- The frame offset goes to the track at `track_no`, or else to a new one at the end.
abbrev pub set_offset : ℤ → Option Track → Option Track
set_offset offset none = none
set_offset offset (some t) = some (record t { frame_offset = offset })

unfoldable pub add_offset : ℤ → Parser → Option ℕ → Parser
add_offset offset p (some i) = record p {
  track_no = wrap_int (p.track_no +ℤ pos 1);
  disc = on_track (set_offset offset) p.disc i;
}
add_offset offset p none = record p {
  track_no = wrap_int (p.track_no +ℤ pos 1);
  disc = add_track p.disc (record track_new { frame_offset = offset });
}
