-- ===== src/Commands/Read.antt =====
-- cddb_read and cddb_cache_read of lib/cddb_cmd.c. The cache is a parameter: the files that there
-- are, what a file holds that can be opened, and whether a new one can be made.
use libcddb.Cache.FileNames.{present}
use libcddb.Cache.Side.{CacheSide}
use libcddb.Base.{
  ℕ, suc, ◌==◌, ◌||◌, not, if◌then◌else◌, Bool, true, false, length, drop, Option, none, some,
  Bytes, ℤ, pos, minus_one, eq_ℤ, List, Run, value, fault, ◌>>=◌,
}
use libcddb.Errors.{
  is_ok, ErrorCode, data_missing, disc_not_found, server_error, not_connected, unknown,
}
use libcddb.Charset.{Iconv}
use libcddb.Category.{Category, invalid, same, category_name}
use libcddb.Cache.{CacheMode, cache_only, is_off}
use libcddb.Cache.Lines.{cached_lines}
use libcddb.Disc.{Disc}
use libcddb.Record.Loop.{Reading, parse_record, parser_start, read_lines}
use libcddb.Response.{Answer, get_response_code}
use libcddb.Conn.Connect.{Network, connect, disconnect}
use libcddb.Commands.{Session, set_errno, next_line}
use libcddb.Commands.Send.{read as read_command, send_cmd}

pub record Store : Type 0 where
  pub exists : Category → ℕ → Bool
  pub contents : Category → ℕ → Option Bytes
  pub writable : Category → ℕ → Bool

-- What a command leaves: the session, the disc and the result.
pub record Outcome {ℓ} (A : Type ℓ) : Type ℓ where
  pub session : Session
  pub disc : Disc
  pub result : A

abbrev pub leaves {ℓ} : {A : Type ℓ} → Session → Disc → A → Run (Outcome A)
leaves s disc result = value (record { session = s; disc = disc; result = result })

abbrev pub fails : Session → Disc → ErrorCode → Run (Outcome Bool)
fails s disc errno = leaves (set_errno s errno) disc false

-- `CDDB_CATEGORY[category]`, a fault behind the array.
abbrev pub name_of : Category → Run Bytes
name_of category = elim (category_name category) [ none ↦ fault | some name ↦ value name ]

abbrev pub is_cache_only : CacheMode → Bool
is_cache_only cache_only = true
is_cache_only _ = false

-- The error number is cddb_parse_record's; its result is whether that is OK.
abbrev pub from_reading : Session → Reading → Run (Outcome Bool)
from_reading s r = leaves (set_errno s r.errno) r.disc (is_ok r.errno)

abbrev pub cached_side : CacheMode → CacheSide
cached_side mode = record {
  use_cache = mode;
  cache_read = true;
  exists = value true;
  opened = value true;
}

-- The fuel is enough for a line of each byte.
unfoldable pub cache_read : Iconv → Store → Session → Disc → Run (Outcome Bool)
unfolding parse_record cached_lines
cache_read cd store s disc =
    if is_off s.conn.use_cache || not (store.exists disc.category disc.discid)
    then leaves s disc false
    else elim (store.contents disc.category disc.discid) [
      | none ↦ leaves s disc false
      | some bytes ↦ do
        r ←
            parse_record cd (cached_side s.conn.use_cache)
              (cached_lines (suc (length bytes)) s.conn.buf_size bytes) disc
        from_reading s r
    ]

-- What a response code means to cddb_read.
pub data Reply : Type 0 where
  follows : Reply
  refused_with : ErrorCode → Reply
  hung_up : Reply

unfoldable pub read_reply : ℤ → Reply
read_reply code =
    if eq_ℤ code (pos 210)
    then follows
    else if eq_ℤ code (pos 401)
    then refused_with disc_not_found
    else if eq_ℤ code (pos 402) || eq_ℤ code (pos 403)
    then refused_with server_error
    else if eq_ℤ code (pos 409) || eq_ℤ code (pos 530)
    then hung_up
    else refused_with unknown

-- cddb_get_response_code on the next line.
abbrev pub answer_of : Session → Session × Answer
answer_of s =
    let (s', line) = next_line s in
    let a = get_response_code s.conn.errnum line in (set_errno s' a.errno, a)

abbrev pub close : Session → Session
close s = record s { conn = disconnect s.conn }

abbrev pub close_http : Session → Session
close_http s = if s.conn.is_http_enabled then close s else s

-- A question to the cache needs its directory and the name of the category.
abbrev pub in_cache : Session → Disc → Bool → Run Bool
in_cache s disc answer =
    present s.conn.cache_dir λ dir. do name ← name_of disc.category; value answer

abbrev pub network_side : Store → Session → Disc → CacheSide
network_side store s disc = record {
  use_cache = s.conn.use_cache;
  cache_read = false;
  exists = in_cache s disc (store.exists disc.category disc.discid);
  opened = in_cache s disc (store.writable disc.category disc.discid);
}

-- The entry, and the lines behind it.
unfoldable pub read_done : Session → List Bytes → Reading → Run (Outcome Bool)
unfolding disconnect
read_done s read r =
    let s = set_errno (record s { lines = drop (length read) s.lines }) r.errno in
    leaves (close_http s) r.disc (is_ok r.errno)

unfoldable pub read_entry : Iconv → Store → Session → Disc → Run (Outcome Bool)
unfolding parse_record read_lines read_done
read_entry cd store s disc = do
  (read, _) ← read_lines s.lines (parser_start disc)
  r ← parse_record cd (network_side store s disc) s.lines disc
  read_done s read r

unfoldable pub on_read_reply : Iconv → Store → Disc → Session → Reply → Run (Outcome Bool)
unfolding read_entry disconnect
on_read_reply cd store disc s follows = read_entry cd store s disc
on_read_reply cd store disc s (refused_with errno) = fails s disc errno
on_read_reply cd store disc s hung_up = fails (close s) disc not_connected

unfoldable pub after_read : Iconv → Store → Disc → Session × Answer → Run (Outcome Bool)
after_read cd store disc (s, a) =
    if eq_ℤ a.code minus_one
    then leaves s disc false
    else on_read_reply cd store disc s (read_reply a.code)

unfoldable pub after_sent : Iconv → Store → Disc → Session × Bool → Run (Outcome Bool)
after_sent cd store disc (s, true) = after_read cd store disc (answer_of s)
after_sent cd store disc (s, false) = leaves s disc false

-- From the connection on.
unfoldable pub read_online : Iconv → Network → Store → Session → Disc → Run (Outcome Bool)
read_online cd net store s disc =
    let (c, good) = connect net s.conn in
    let s = record s { conn = c } in
    if not good then leaves s disc false else do
      name ← name_of disc.category
      after_sent cd store disc (send_cmd s (read_command name disc.discid))

unfoldable pub not_cached : Iconv → Network → Store → Outcome Bool → Run (Outcome Bool)
not_cached cd net store o =
    if o.result
    then value o
    else if is_cache_only o.session.conn.use_cache
    then fails o.session o.disc disc_not_found
    else read_online cd net store o.session o.disc

unfoldable pub read : Iconv → Network → Store → Session → Disc → Run (Outcome Bool)
read cd net store s disc =
    if same disc.category invalid || disc.discid == 0
    then fails s disc data_missing
    else cache_read cd store s disc >>= not_cached cd net store
