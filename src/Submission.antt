-- ===== src/Submission.antt =====
-- cddb_write_data of lib/cddb_cmd.c: a disc is written into a buffer as a database entry. Each call
-- of snprintf comes with the number of bytes that it is declared to add, by which the buffer's
-- pointer moves on. The texts are taken to be shorter than an `int` can count.
pub mod Room
pub mod Lines
pub mod Layout
pub mod Exact
pub mod Written
pub mod Patterns
pub mod Reads
pub mod Tracks
pub mod Titles
pub mod Exts
pub mod Fields
pub mod Reread
pub mod Cached
use libcddb.Base.{
  newline, or_empty, ℕ, suc, ◌+◌, ◌-◌, ◌/◌, ltb, leb, ◌==◌, if◌then◌else◌, to_int, pos, Option,
  none, some, List, [], ◌∷◌, ◌++◌, length, take, drop, Bytes, CString, codes, Run, value, fault,
  ◌>>=◌,
}
use libcddb.Category.{category_name}
use libcddb.Conn.{Conn}
use libcddb.Track.{Track}
use libcddb.Disc.{Disc}
use libcddb.Format.{print_int, print_hex, pad}

-- The declared number of bytes and the text.
pub record Chunk : Type 0 where
  pub size : ℕ
  pub text : Bytes

-- `strlen` and `%s` of NULL.
abbrev pub not_null {ℓ} : {A : Type ℓ} → CString → (Bytes → Run A) → Run A
not_null none f = fault
not_null (some s) f = f s

unfoldable pub offset_chunk : Track → Chunk
unfolding print_int
offset_chunk track = record {
  size = 6 + 8;
  text = codes "#    " ++ pad 8 (print_int track.frame_offset) ++ newline;
}

unfoldable pub length_chunk : Disc → Chunk
unfolding print_int
length_chunk disc = record {
  size = 26 + 6;
  text = codes "#\n# Disc length: " ++ pad 6 (print_int (to_int disc.length)) ++ codes " seconds\n";
}

unfoldable pub revision_chunk : Disc → Chunk
unfolding print_int
revision_chunk disc = record {
  size = 15 + 8;
  text = codes "#\n# Revision: " ++ pad 8 (print_int (to_int disc.revision)) ++ newline;
}

unfoldable pub client_chunk : Conn → Chunk
client_chunk c = record {
  size = 21 + length c.cname + length c.cversion;
  text = codes "# Submitted via: " ++ c.cname ++ codes " " ++ c.cversion ++ codes "\n#\n";
}

unfoldable pub discid_chunk : Disc → Chunk
unfolding print_hex
discid_chunk disc = record {
  size = 8 + 8;
  text = codes "DISCID=" ++ print_hex disc.discid ++ newline;
}

unfoldable pub title_chunk : Disc → Run Chunk
title_chunk disc = not_null disc.artist λ artist. not_null disc.title λ title. value (record {
  size = 11 + length artist + length title;
  text = codes "DTITLE=" ++ artist ++ codes " / " ++ title ++ newline;
})

unfoldable pub year_chunk : Disc → Chunk
unfolding print_int
year_chunk disc =
    if disc.year == 0
    then record { size = 7; text = codes "DYEAR=" ++ newline }
    else record { size = 7 + 4; text = codes "DYEAR=" ++ print_int (to_int disc.year) ++ newline }

-- The genre, or else the name of the category, which lies outside the array for CDDB_CAT_LAST.
unfoldable pub written_genre : Disc → CString
written_genre disc = elim disc.genre [
  | some (c ∷ genre) ↦ some (c ∷ genre)
  | some [] ↦ category_name disc.category
  | none ↦ category_name disc.category
]

unfoldable pub genre_chunk : Disc → Run Chunk
unfolding written_genre
genre_chunk disc =
    not_null (written_genre disc)
      λ s. value (record { size = 8 + length s; text = codes "DGENRE=" ++ s ++ newline })

-- `i / 10 + 1`, the number of digits of a track's number as it is declared.
abbrev pub declared_digits : ℕ → ℕ
declared_digits i = i / 10 + 1

unfoldable pub track_title_chunk : ℕ → Track → Run Chunk
unfolding print_int
track_title_chunk i track = elim track.artist [
  | some artist ↦ not_null track.title λ title. value (record {
    size = 11 + declared_digits i + length artist + length title;
    text =
        codes "TTITLE"
        ++ print_int (pos i)
        ++ codes "="
        ++ artist
        ++ codes " / "
        ++ title
        ++ newline;
  })
  | none ↦ not_null track.title λ title. value (record {
    size = 8 + declared_digits i + length title;
    text = codes "TTITLE" ++ print_int (pos i) ++ codes "=" ++ title ++ newline;
  })
]

-- An extended text that is NULL leaves the line empty.
unfoldable pub ext_chunk : Disc → Chunk
ext_chunk disc = record {
  size = 6 + length (or_empty disc.ext_data);
  text = codes "EXTD=" ++ or_empty disc.ext_data ++ newline;
}

unfoldable pub track_ext_chunk : ℕ → Track → Chunk
unfolding print_int
track_ext_chunk i track = record {
  size = 6 + declared_digits i + length (or_empty track.ext_data);
  text = codes "EXTT" ++ print_int (pos i) ++ codes "=" ++ or_empty track.ext_data ++ newline;
}

-- The loops over the tracks.
unfoldable pub offset_chunks : List Track → List Chunk
unfolding offset_chunk
offset_chunks [] = []
offset_chunks (t ∷ ts) = offset_chunk t ∷ offset_chunks ts

unfoldable pub track_title_chunks : ℕ → List Track → Run (List Chunk)
unfolding track_title_chunk
track_title_chunks i [] = value []
track_title_chunks i (t ∷ ts) = do
  chunk ← track_title_chunk i t
  rest ← track_title_chunks (suc i) ts
  value (chunk ∷ rest)

unfoldable pub track_ext_chunks : ℕ → List Track → List Chunk
unfolding track_ext_chunk
track_ext_chunks i [] = []
track_ext_chunks i (t ∷ ts) = track_ext_chunk i t ∷ track_ext_chunks (suc i) ts

-- The buffer's bytes, and how far `buf` has moved into it: `remaining` is the size less that.
pub record Buffer : Type 0 where
  pub contents : Bytes
  pub at : ℕ

-- `snprintf(buf, remaining, …)`: nothing for no room, else as much as fits and a NUL. A `remaining`
-- below 0 is a huge size, and `buf` is outside the buffer.
unfoldable pub write_append : Buffer → Chunk → Run Buffer
write_append b chunk =
    let room = length b.contents - b.at in
    let out = take (room - 1) chunk.text ++ 0 ∷ [] in
    if ltb (length b.contents) b.at
    then fault
    else if room == 0
    then value (record b { at = b.at + chunk.size })
    else value (record {
      contents = take b.at b.contents ++ out ++ drop (b.at + length out) b.contents;
      at = b.at + chunk.size;
    })

unfoldable pub write_all : Buffer → List Chunk → Run Buffer
unfolding write_append
write_all b [] = value b
write_all b (chunk ∷ chunks) = do b ← write_append b chunk; write_all b chunks

abbrev pub head_chunks : List Chunk
head_chunks =
    record { size = 9; text = codes "# xmcd\n#\n" }
    ∷ record { size = 23; text = codes "# Track frame offsets:\n" }
    ∷ []

abbrev pub disc_chunks : Conn → Disc → Chunk → Chunk → List Chunk
unfolding length_chunk revision_chunk client_chunk discid_chunk year_chunk
disc_chunks c disc title genre =
    length_chunk disc
    ∷ revision_chunk disc
    ∷ client_chunk c
    ∷ discid_chunk disc
    ∷ title
    ∷ year_chunk disc
    ∷ genre
    ∷ []

abbrev pub play_order_chunk : Chunk
play_order_chunk = record { size = 11; text = codes "PLAYORDER=\n" }

unfoldable pub entry_chunks : Conn → Disc → Run (List Chunk)
unfolding offset_chunks title_chunk genre_chunk track_title_chunks ext_chunk track_ext_chunks
entry_chunks c disc = do
  title ← title_chunk disc
  genre ← genre_chunk disc
  titles ← track_title_chunks 0 disc.tracks
  value (
      head_chunks
      ++ offset_chunks disc.tracks
      ++ disc_chunks c disc title genre
      ++ titles
      ++ ext_chunk disc ∷ []
      ++ track_ext_chunks 0 disc.tracks
      ++ play_order_chunk ∷ [])

-- The buffer that is left, the size of the entry, and the disc with its iterator at the end.
unfoldable pub write_data : Conn → Bytes → Disc → Run (Bytes × ℕ × Disc)
unfolding entry_chunks write_all
write_data c buf disc = do
  chunks ← entry_chunks c disc
  b ← write_all (record { contents = buf; at = 0 }) chunks
  value (b.contents, b.at, record disc { iterator = none })
