-- ===== src/Submission/Lines.antt =====
-- The lines of an entry, as cddb_write_data of lib/cddb_cmd.c lays it out.
use libcddb.Base.{
  or_empty, ℕ, suc, ◌==◌, if◌then◌else◌, to_int, pos, none, some, List, [], ◌∷◌, ◌++◌, Bytes, codes,
}
use libcddb.Conn.{Conn}
use libcddb.Track.{Track}
use libcddb.Disc.{Disc}
use libcddb.Format.{print_int, print_hex, pad}
use libcddb.Submission.{written_genre}

abbrev pub offset_line : Track → Bytes
offset_line track = codes "#    " ++ pad 8 (print_int track.frame_offset)

-- The artist, where a track has one, and the title.
abbrev pub track_name : Track → Bytes
track_name track = elim track.artist [
  | some artist ↦ artist ++ codes " / " ++ or_empty track.title
  | none ↦ or_empty track.title
]

abbrev pub track_title_line : ℕ → Track → Bytes
track_title_line i track = codes "TTITLE" ++ print_int (pos i) ++ codes "=" ++ track_name track

abbrev pub track_ext_line : ℕ → Track → Bytes
track_ext_line i track = codes "EXTT" ++ print_int (pos i) ++ codes "=" ++ or_empty track.ext_data

abbrev pub offset_lines : List Track → List Bytes
offset_lines [] = []
offset_lines (t ∷ ts) = offset_line t ∷ offset_lines ts

abbrev pub track_title_lines : ℕ → List Track → List Bytes
track_title_lines i [] = []
track_title_lines i (t ∷ ts) = track_title_line i t ∷ track_title_lines (suc i) ts

abbrev pub track_ext_lines : ℕ → List Track → List Bytes
track_ext_lines i [] = []
track_ext_lines i (t ∷ ts) = track_ext_line i t ∷ track_ext_lines (suc i) ts

abbrev pub year_text : ℕ → Bytes
year_text year = if year == 0 then [] else print_int (to_int year)

-- In front of the tracks' titles: what stands on the disc as a whole.
abbrev pub disc_lines : Conn → Disc → List Bytes
disc_lines c disc =
    codes "#"
    ∷ (codes "# Disc length: " ++ pad 6 (print_int (to_int disc.length)) ++ codes " seconds")
    ∷ codes "#"
    ∷ (codes "# Revision: " ++ pad 8 (print_int (to_int disc.revision)))
    ∷ (codes "# Submitted via: " ++ c.cname ++ codes " " ++ c.cversion)
    ∷ codes "#"
    ∷ (codes "DISCID=" ++ print_hex disc.discid)
    ∷ (codes "DTITLE=" ++ or_empty disc.artist ++ codes " / " ++ or_empty disc.title)
    ∷ (codes "DYEAR=" ++ year_text disc.year)
    ∷ (codes "DGENRE=" ++ or_empty (written_genre disc))
    ∷ []

abbrev pub head_lines : List Bytes
head_lines = codes "# xmcd" ∷ codes "#" ∷ codes "# Track frame offsets:" ∷ []

abbrev pub entry_lines : Conn → Disc → List Bytes
entry_lines c disc =
    head_lines
    ++ offset_lines disc.tracks
    ++ disc_lines c disc
    ++ track_title_lines 0 disc.tracks
    ++ (codes "EXTD=" ++ or_empty disc.ext_data) ∷ []
    ++ track_ext_lines 0 disc.tracks
    ++ codes "PLAYORDER=" ∷ []
