-- ===== src/Tests/Submissions.antt =====
-- A disc that is written and read again.
use libcddb.Cache.Side.{CacheSide}
use libcddb.Base.{
  value, true, unlines, str_eq, to_int, ℕ, zero, suc, ◌+◌, ◌<◌, ◌≡◌, ◌↔◌, inr, refl, arith, Bool,
  not, ◌&&◌, ◌==◌, ltb, ltb→lt, none, some, List, [], ◌∷◌, ◌++◌, length, pos, Bytes, codes, fault,
}
use libcddb.Category.{rock, category_name}
use libcddb.Errors.{ok}
use libcddb.Track.{Track, track_new}
use libcddb.Disc.{Disc, disc_new}
use libcddb.Disc.Convert.{disc_iconv}
use libcddb.Conn.{Conn, conn_new}
use libcddb.Cache.{cache_on, cache_only}
use libcddb.Commands.{Session, nowhere, set_errno}
use libcddb.Commands.Read.{read}
use libcddb.Commands.Write.{has_default_email, lacks_data, lacking_track, write}
use libcddb.Commands.Offline.{with_entry, succeeds, write-read}
use libcddb.Tests.Commands.{no_net, empty_store}
use libcddb.Net.{line_feed, carriage_return}
use libcddb.Net.Lines.{IsPlain, ArePlain}
use libcddb.Format.{print_int, decimal, decimal_digits, print_hex, hex_digits}
use libcddb.Regex.{split_last, literal}
use libcddb.Submission.{Chunk, write_data, written_genre, track_title_chunk}
use libcddb.Submission.Lines.{entry_lines}
use libcddb.Submission.Room.{IsExact}
use libcddb.Submission.Exact.{IsSized}
use libcddb.Submission.Written.{
  IsComplete, write_data-entry, write_data-fault, track_title_chunk-IsExact,
}
use libcddb.Submission.Reread.{IsRereadable, asked_for, reread_disc}

abbrev pub zeros : ℕ → Bytes
zeros zero = []
zeros (suc n) = 0 ∷ zeros n

abbrev first_track : Track
first_track = record track_new { num = pos 1; frame_offset = pos 150; title = some (codes "One") }

abbrev second_track : Track
second_track = record track_new {
  num = pos 2;
  frame_offset = pos 20000;
  title = some (codes "Two");
  artist = some (codes "Guest");
  ext_data = some (codes "live");
}

abbrev pub album : Disc
album = record disc_new {
  discid = 134217730;
  category = rock;
  artist = some (codes "Band");
  title = some (codes "Album");
  length = 500;
  year = 1999;
  track_cnt = 2;
  tracks = first_track ∷ second_track ∷ [];
}

abbrev pub client : Conn
unfolding conn_new
client = conn_new (codes "app") (codes "1") (codes "/home/u")

pub album-IsComplete : IsComplete album
album-IsComplete = record {
  has_artist = ground arith;
  has_title = ground arith;
  has_category = ground arith;
  titles = (ground arith, (ground arith, tt));
}

pub album-IsSized : IsSized album
album-IsSized = record {
  in_length = omega arith;
  in_revision = omega arith;
  in_year = inr (omega arith, omega arith);
  offsets = ((150, refl, omega arith), ((20000, refl, omega arith), tt));
  few = omega arith;
}

album-IsRereadable : IsRereadable album
unfolding split_last literal
album-IsRereadable = record {
  valid = record { counted = refl; in_order = (refl, (refl, tt)) };
  sized = album-IsSized;
  titled = record {
    title = codes "Album";
    has_title = refl;
    has_artist = ground arith;
    splits = refl;
  };
  named = ((codes "One", refl, refl), ((codes "Two", refl, refl), tt));
}

album_size : length (unlines (entry_lines client album)) < length (zeros 400)
unfolding print_int decimal decimal_digits print_hex hex_digits written_genre client to_int
    category_name
album_size = ltb→lt _ _ refl

unfoldable pub is_plain : Bytes → Bool
is_plain [] = true
is_plain (c ∷ s) = not (c == 0) && not (c == line_feed) && not (c == carriage_return) && is_plain s

is_plain-IsPlain : (s : Bytes) → is_plain s ≡ true → IsPlain s
unfolding is_plain
is_plain-IsPlain [] h = tt
is_plain-IsPlain (c ∷ s) h = ground (arith, is_plain-IsPlain s)

unfoldable pub are_plain : ℕ → List Bytes → Bool
unfolding is_plain
are_plain n [] = true
are_plain n (s ∷ ss) = is_plain s && ltb (length s + 2) n && are_plain n ss

pub are_plain-ArePlain : (n : ℕ) (ss : List Bytes) → are_plain n ss ≡ true → ArePlain n ss
unfolding are_plain
are_plain-ArePlain n [] h = tt
are_plain-ArePlain n (s ∷ ss) h =
    ground (arith, is_plain-IsPlain s, ltb→lt (length s + 2) n, are_plain-ArePlain n ss)

album-ArePlain : ArePlain client.buf_size (entry_lines client album)
unfolding is_plain are_plain print_int decimal decimal_digits print_hex hex_digits written_genre
    client to_int category_name
album-ArePlain = are_plain-ArePlain client.buf_size (entry_lines client album) refl

abbrev new_entry : CacheSide
new_entry = record {
  use_cache = cache_on;
  cache_read = true;
  exists = value true;
  opened = value true;
}

write_data-entry_example :
    (left : Bytes) × (length left + length (unlines (entry_lines client album)) ≡ 400)
    × (write_data client (zeros 400) album
        ≡ value (
          unlines (entry_lines client album) ++ left,
          length (unlines (entry_lines client album)),
          album,
        ))
write_data-entry_example =
    write_data-entry client (zeros 400) album album-IsComplete album-IsSized album_size

write_data-fault_example : write_data client (zeros 8) album ≡ fault
write_data-fault_example =
    write_data-fault client (zeros 8) album (codes "Band") (codes "Album") refl refl (omega arith)

abbrev late_chunk : Chunk
late_chunk = record { size = 14; text = codes "TTITLE20=One\n" }

track_title_chunk-IsExact_example : IsExact late_chunk ↔ (20 < 20)
unfolding track_title_chunk print_int decimal decimal_digits
track_title_chunk-IsExact_example =
    track_title_chunk-IsExact 20 first_track late_chunk (omega arith) refl

-- A connection of a user with an address, which only uses the cache.
abbrev offline : Session
offline = record {
  conn = record client { use_cache = cache_only; user = codes "me"; hostname = codes "home" };
  lines = [];
  output = [];
  query_data = [];
  it = nowhere;
}

write-read_example :
    (write none no_net
        (record empty_store { writable = λ category discid. true })
        (λ category. true)
        (zeros 400)
        offline
        album
      ≡ value (succeeds offline album, some (unlines (entry_lines offline.conn album))))
    × (read none no_net
          (with_entry
            (record empty_store { writable = λ category discid. true })
            album
            (unlines (entry_lines offline.conn album)))
          (set_errno offline ok)
          (asked_for album)
        ≡ value (succeeds offline (reread_disc album)))
unfolding disc_iconv client has_default_email lacks_data lacking_track str_eq
write-read_example =
    write-read none none no_net (record empty_store { writable = λ category discid. true })
      (λ category. true) (zeros 400) offline album album (reread_disc album) refl refl refl refl
      refl album-IsComplete album-IsRereadable album_size (omega arith) album-ArePlain refl refl
      refl
