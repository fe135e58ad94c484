-- ===== src/Tests/Commands.antt =====
-- Examples for the commands.
use libcddb.Net.Timeouts.{refused, timed_out}
use libcddb.Base.{
  str_eq, if◌then◌else◌, inr, ◌++◌, List, [], ◌∷◌, wrap_int, ◌≡◌, refl, arith, Bool, true, false,
  none, some, length, Bytes, codes, fault, value, minus_one, ℤ, eq_ℤ, ◌<◌,
}
use libcddb.Errors.{ok, data_missing, iconv_fail}
use libcddb.Category.{jazz, find_name, rock, category_name}
use libcddb.Cache.{QueryCache, cache_off}
use libcddb.Disc.Convert.{disc_iconv}
use libcddb.Regex.{
  titles, split_last, track_frame_offsets, track_frame_offset, disc_length, disc_revision,
  disc_title, disc_year, disc_genre, track_title, disc_ext, track_ext, play_order, get_int,
}
use libcddb.Regex.Hex.{get_hex, hex_from}
use libcddb.Regex.Words.{span}
use libcddb.Format.{print_hex, hex_digits}
use libcddb.Record.Loop.{parse_record, read_lines}
use libcddb.Disc.{Disc, disc_new, disc_clone}
use libcddb.Disc.Fields.{set_category_str}
use libcddb.Disc.Discid.{calc_discid}
use libcddb.Response.{get_response_code}
use libcddb.Conn.{Conn, conn_new}
use libcddb.Conn.Connect.{Network, Server, connect}
use libcddb.Commands.{Session, at, set_errno, flush_results, sock_printf}
use libcddb.Commands.Send.{hello, command_text, send_cmd, send_on}
use libcddb.Commands.Read.{
  Store, Outcome, read, not_cached, cache_read, read_online, after_sent, after_read, on_read_reply,
  read_entry, read_done, read_reply,
}
use libcddb.Commands.Results.{parse_query_data, query_match, handle_response_list, query_next}
use libcddb.Commands.Query.{query}
use libcddb.Commands.Unsent.{send_cmd-long}
use libcddb.Commands.Search.{search_param_str, paramstr_size, search_param_str-fits}
use libcddb.Commands.Freed.{query-query_next}
use libcddb.Commands.Found.{
  AreFound, one_more, no_more, answered, Lists, handle_response_list-results,
}
use libcddb.Commands.QueryLine.{query_line, parse_query_data-query_line}
use libcddb.Commands.Errno.{Reports, first_line, read-Reports}

-- A connection of its own, without a cache and with a small buffer.
abbrev pub client : Conn
unfolding conn_new
client = record (conn_new (codes "app") (codes "1") (codes "/home/u")) {
  socket = some 5;
  buf_size = 24;
  use_cache = cache_off;
  is_http_enabled = false;
}

abbrev talk : List Bytes → Session
talk lines = record { conn = client; lines = lines; output = []; query_data = []; it = at 0 }

abbrev long_hello : Bytes
long_hello = codes "workstation.example.org"

send_cmd-long_example :
    send_cmd (talk []) (hello (codes "me") long_hello (codes "app") (codes "1"))
    ≡ (set_errno (record (talk []) { output = codes "\n" }) ok, true)
unfolding conn_new client command_text
send_cmd-long_example =
    send_cmd-long (talk []) (hello (codes "me") long_hello (codes "app") (codes "1")) 5 refl refl
      (ground arith) (ground arith)

search_param_str-fits_example : length (search_param_str 5 3) < paramstr_size
search_param_str-fits_example = search_param_str-fits 5 3

abbrev pub no_server : Server
no_server = record { banner = none; hello = none; proto = none }

abbrev pub no_net : Network
no_net = record {
  resolves = λ name. false;
  new_socket = none;
  peer = λ name port. record {
    nonblocking = false;
    attempt = refused;
    ready = timed_out;
    so_error = 0;
  };
  server = no_server;
}

abbrev pub empty_store : Store
empty_store = record {
  exists = λ category discid. false;
  contents = λ category discid. none;
  writable = λ category discid. false;
}

abbrev pub empty_table : QueryCache
empty_table = record { entries = []; query_cache_init = true }

-- A result list whose iterator stands on its only disc.
abbrev found_one : Session
found_one = record (talk []) { query_data = disc_new ∷ [] }

abbrev after_query : Outcome ℤ
after_query = record {
  session = set_errno (flush_results found_one) data_missing;
  disc = calc_discid disc_new;
  result = minus_one;
}

query_refused :
    query none no_net (λ category discid. false) empty_table found_one disc_new
    ≡ value (empty_table, after_query)
unfolding query calc_discid flush_results
query_refused = refl

query-query_next_example : query_next after_query.session disc_new ≡ fault
unfolding flush_results
query-query_next_example =
    query-query_next none no_net (λ category discid. false) empty_table empty_table found_one
      disc_new disc_new 0 after_query refl query_refused refl

-- A server that has no such entry, and one that has.
abbrev rock_one : Disc
rock_one = record disc_new { category = rock; discid = 1 }

abbrev entry : List Bytes
entry =
    codes "210 rock 00000001"
    ∷ codes "# Track frame offsets:"
    ∷ codes "# Disc length: 500 seconds"
    ∷ codes "# Revision: 2"
    ∷ codes "DTITLE=Band / Album"
    ∷ codes "."
    ∷ []

abbrev after_entry : Outcome Bool
after_entry = record {
  session = record (talk []) { output = codes "cddb read rock 00000001\n" };
  disc = record rock_one {
    length = 500;
    revision = 2;
    artist = some (codes "Band");
    title = some (codes "Album");
  };
  result = true;
}

answered_entry : read none no_net empty_store (talk entry) rock_one ≡ value after_entry
unfolding read client conn_new not_cached cache_read read_online after_sent after_read on_read_reply
    read_entry read_done read_reply connect send_cmd send_on sock_printf command_text
    get_response_code print_hex hex_digits parse_record read_lines category_name wrap_int
    track_frame_offsets disc_iconv track_frame_offset disc_length disc_revision disc_title disc_year
    disc_genre track_title disc_ext track_ext play_order get_int
answered_entry = refl

read-Reports_example :
    Reports (eq_ℤ (get_response_code ok (first_line entry)).code minus_one ≡ true) after_entry
unfolding client conn_new
read-Reports_example =
    read-Reports none no_net empty_store (talk entry) rock_one after_entry 5 refl refl
      answered_entry

-- A list of two discs, asked for by one that is new.
abbrev band_disc : Disc
band_disc = record disc_new {
  genre = some (codes "rock");
  category = rock;
  discid = 0x1f;
  artist = some (codes "Band");
  title = some (codes "Album");
}

abbrev duo_disc : Disc
duo_disc = record band_disc {
  genre = some (codes "jazz");
  category = jazz;
  artist = some (codes "Duo");
  title = some (codes "Live");
}

abbrev two_lines : List Bytes
unfolding print_hex hex_digits
two_lines =
    query_line (codes "rock") 0x1f (codes "Band") (codes "Album")
    ∷ query_line (codes "jazz") 0x1f (codes "Duo") (codes "Live")
    ∷ []

two_found : AreFound none disc_new two_lines (band_disc ∷ duo_disc ∷ [])
unfolding two_lines parse_query_data query_match span titles split_last get_hex hex_from disc_iconv
    set_category_str find_name category_name disc_clone print_hex hex_digits str_eq
two_found = one_more refl refl (one_more refl refl no_more)

handle_response_list-results_example : Lists disc_new disc_new band_disc (duo_disc ∷ []) [] (
    handle_response_list none
      (answered (talk []) (codes "211 list") (two_lines ++ codes "." ∷ []))
      disc_new)
unfolding get_response_code wrap_int
handle_response_list-results_example =
    handle_response_list-results none (talk []) disc_new disc_new (codes "211 list") (codes ".")
      (codes "list") two_lines [] 211 band_disc (duo_disc ∷ []) refl (inr refl) two_found refl

parse_query_data-query_line_example :
    (line : Disc) × (line ≡ record disc_new {
      genre = some (codes "rock");
      category = rock;
      discid = 0x1f;
      artist = some (codes "Band");
      title = some (codes "Album");
    })
    × (parse_query_data none disc_new
          (query_line (codes "rock") 0x1f (codes "Band") (codes "Album"))
        ≡ ((disc_iconv none line).0, if (disc_iconv none line).1 then ok else iconv_fail))
unfolding category_name split_last
parse_query_data-query_line_example =
    parse_query_data-query_line none disc_new rock (codes "rock") 0x1f (codes "Band")
      (codes "Album") refl (omega arith) refl
