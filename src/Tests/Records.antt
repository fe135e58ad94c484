-- ===== src/Tests/Records.antt =====
-- Examples for Regex and Record.
use libcddb.Tests.Texts.{copying, copying-IsSound}
use libcddb.Charset.{Descriptor}
use libcddb.Tests.Submissions.{is_plain, are_plain, are_plain-ArePlain}
use libcddb.Category.{invalid, category_name}
use libcddb.Cache.FileNames.{created}
use libcddb.Cache.Lines.{cached_lines}
use libcddb.Net.Lines.{ArePlain}
use libcddb.Cache.Side.{cache_side, CacheSide}
use libcddb.Base.{
  unlines, suc, length, arith, ◌≡◌, ◌≢◌, refl, none, some, true, false, [], ◌∷◌, pos, value, to_int,
  to_u32, Bytes, List, codes,
}
use libcddb.Cache.{cache_on}
use libcddb.Errors.{ok, invalid_response}
use libcddb.Disc.{disc_new, get_track, add_track}
use libcddb.Disc.Convert.{disc_iconv}
use libcddb.Disc.Chain.{IsValid, disc_new-IsValid}
use libcddb.Regex
use libcddb.Regex.{split_last}
use libcddb.Track.{track_new}
use libcddb.Record.Cases.{
  switch_line, start_case, track_offsets_case, disc_length_case, disc_revision_case,
  disc_title_case, disc_year_case, disc_genre_case, track_title_case, disc_ext_case, track_ext_case,
  play_order_case, end_dot_case,
}
use libcddb.Record.Texts.{
  add_offset, fresh_disc_title, with_disc_title, with_track_title, fresh_title, add_track_title,
}
use libcddb.Record.Loop.{Reading, parse_record, finish, read_lines}
use libcddb.Record as Rec
use libcddb.Record.Loop.{parser_start}
use libcddb.Record.Titles.{read_lines-title, title_lines, read_before, in_title}
use libcddb.Record.Reread.{parse_record-errno, parse_record-again}
use libcddb.Record.Total.{parse_record-IsValid}

abbrev entry : List Bytes
entry =
    codes "# Track frame offsets:"
    ∷ codes "#  150"
    ∷ codes "#"
    ∷ codes "# Disc length: 600 seconds"
    ∷ codes "# Revision: 1"
    ∷ codes "DTITLE=A / B"
    ∷ codes "TTITLE0=C"
    ∷ codes "."
    ∷ []

abbrev writing : CacheSide
writing = record {
  use_cache = cache_on;
  cache_read = false;
  exists = value false;
  opened = value true;
}

abbrev reading : CacheSide
reading = record writing { cache_read = true; exists = value true }

-- What the entry gives.
abbrev found : Reading
found = record {
  errno = ok;
  disc = record disc_new {
    revision = 1;
    length = 600;
    artist = some (codes "A");
    title = some (codes "B");
    track_cnt = 1;
    tracks =
        record track_new { num = pos 1; frame_offset = pos 150; title = some (codes "C") } ∷ [];
  };
  cached = unlines entry;
  unlinked = false;
}

read_entry : parse_record none writing entry disc_new ≡ value found
unfolding parse_record finish read_lines switch_line start_case track_offsets_case disc_length_case
    disc_revision_case disc_title_case disc_year_case disc_genre_case track_title_case disc_ext_case
    track_ext_case play_order_case end_dot_case add_offset fresh_disc_title with_disc_title
    with_track_title fresh_title add_track_title Regex.track_frame_offsets Regex.track_frame_offset
    Regex.disc_length Regex.disc_revision Regex.disc_title Regex.disc_year Regex.disc_genre
    Regex.disc_ext Regex.track_title Regex.track_ext Regex.play_order Regex.get_int get_track
    add_track to_int disc_iconv to_u32
read_entry = refl

parse_record-errno_example : (found.errno ≢ invalid_response) × (found.unlinked ≡ false)
parse_record-errno_example = parse_record-errno none writing entry disc_new found read_entry

entry-ArePlain : ArePlain 256 entry
unfolding is_plain are_plain
entry-ArePlain = are_plain-ArePlain 256 entry refl

parse_record-again_example :
    parse_record none reading (cached_lines (suc (length found.cached)) 256 found.cached) disc_new
    ≡ value (record found { cached = [] })
parse_record-again_example =
    parse_record-again none writing reading entry disc_new found 256 refl refl (omega arith)
      entry-ArePlain read_entry

-- A descriptor between two character sets that are the same.
abbrev same_charset : Descriptor
same_charset = record { iconv = copying; sound = copying-IsSound }

-- A cache in which nothing is found and everything can be made.
parse_record-IsValid_example :
    (r : Reading) × (parse_record
        (some same_charset)
        (cache_side
          (λ path. none)
          (λ path. created)
          (λ path. true)
          cache_on
          false
          256
          (some (codes "/c"))
          invalid
          0)
        entry
        disc_new
      ≡ value r)
    × IsValid r.disc
unfolding category_name
parse_record-IsValid_example =
    parse_record-IsValid (some same_charset) (λ path. none) (λ path. created) (λ path. true)
      cache_on false 256 (codes "/c") (codes "invalid") entry disc_new refl disc_new-IsValid

-- A title over two lines, and the dot behind it.
read_lines-title_example :
    read_lines
      (title_lines (codes "A / B" ∷ codes "C" ∷ []) (codes "." ∷ []))
      (record (parser_start disc_new) { state = Rec.disc_title; multi_line = Rec.no_multi })
    ≡ read_before
        (title_lines (codes "A / B" ∷ codes "C" ∷ []) [])
        (read_lines (codes "." ∷ []) (in_title (parser_start disc_new) (codes "A") (codes "BC")))
unfolding split_last
read_lines-title_example =
    read_lines-title (parser_start disc_new) (codes "A") (codes "B") (codes "C" ∷ [])
      (codes "." ∷ []) refl (refl, tt)
