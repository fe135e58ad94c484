-- ===== src/Commands/Query.antt =====
-- cddb_query and cddb_album of lib/cddb_cmd.c.
use libcddb.Base.{
  is_null, or_empty, ℕ, suc, ◌+◌, leb, ◌==◌, ◌||◌, ◌&&◌, not, if◌then◌else◌, length, Option, none,
  some, List, [], ◌∷◌, ◌++◌, Bytes, codes, ℤ, pos, minus_one, eq_ℤ, Run, value, ◌>>=◌,
}
use libcddb.Errors.{is_ok, ErrorCode, ok, data_missing, disc_not_found, line_size}
use libcddb.Charset.{Iconv}
use libcddb.Cache.{Files, QueryCache, Queried, cache_query}
use libcddb.Track.{Track}
use libcddb.Disc.{Disc}
use libcddb.Disc.Discid.{calc_discid}
use libcddb.Format.{print_int}
use libcddb.Conn.Connect.{Network, connect}
use libcddb.Commands.{Session, set_errno, flush_results}
use libcddb.Commands.Send.{Command, query as query_command, album as album_command, send_cmd}
use libcddb.Commands.Read.{Outcome, leaves, is_cache_only}
use libcddb.Commands.Results.{no_matches, handle_response_list}

-- The offsets as cddb_query writes them, where the loop over the tracks ends, and the error: a track
-- without an offset, or no more room.
abbrev pub offset_text : Track → Bytes
offset_text track = print_int track.frame_offset ++ codes " "

unfoldable pub offset_list : ℕ → ℕ → Bytes → List Track → Bytes × Option ℕ × ErrorCode
offset_list buf_size i buf [] = (buf, none, ok)
offset_list buf_size i buf (t ∷ ts) =
    let later = offset_list buf_size (suc i) (buf ++ offset_text t) ts in
    if eq_ℤ t.frame_offset minus_one
    then (buf, some i, data_missing)
    else if leb buf_size (length buf + length (offset_text t))
    then (buf, some i, line_size)
    else later

-- From the connection on.
unfoldable pub ask : Iconv → Network → Command → Session → Disc → Run (Outcome ℤ)
unfolding connect send_cmd handle_response_list
ask cd net cmd s disc =
    let (c, good) = connect net s.conn in
    let s = record s { conn = c } in
    if not good
    then leaves s disc minus_one
    else let (s, good) = send_cmd s cmd in
      if good then handle_response_list cd s disc else leaves s disc minus_one

unfoldable pub query_online : Iconv → Network → Session → Disc → Run (Outcome ℤ)
unfolding offset_list ask
query_online cd net s disc =
    let (offsets, it, errno) = offset_list s.conn.buf_size 0 [] disc.tracks in
    let disc = record disc { iterator = it } in
    if is_ok errno
    then ask cd net (query_command disc.discid disc.track_cnt offsets disc.length) s disc
    else no_matches s disc errno

-- The table of cached queries beside what the command leaves.
abbrev pub with_table : QueryCache → Run (Outcome ℤ) → Run (QueryCache × Outcome ℤ)
with_table cache o = do o ← o; value (cache, o)

-- A hit in the cache gives TRUE, and the want of a network FALSE.
unfoldable pub after_cache : Iconv → Network → Session → Queried → Run (QueryCache × Outcome ℤ)
unfolding query_online
after_cache cd net s q =
    let s = set_errno s q.errno in
    with_table q.cache (
      if q.found
      then leaves s q.disc (pos 1)
      else if is_cache_only s.conn.use_cache
      then leaves (set_errno s disc_not_found) q.disc (pos 0)
      else query_online cd net s q.disc)

unfoldable pub query :
    Iconv → Network → Files → QueryCache → Session → Disc → Run (QueryCache × Outcome ℤ)
unfolding flush_results calc_discid cache_query after_cache
query cd net files cache s disc =
    let s = flush_results s in
    let disc = calc_discid disc in
    if disc.discid == 0 || disc.length == 0 || disc.track_cnt == 0
    then with_table cache (no_matches s disc data_missing)
    else cache_query files s.conn.use_cache cache disc s.conn.errnum >>= after_cache cd net s

unfoldable pub album : Iconv → Network → Session → Disc → Run (Outcome ℤ)
unfolding flush_results ask
album cd net s disc =
    let s = flush_results s in
    if is_null disc.title && is_null disc.artist
    then no_matches s disc data_missing
    else if is_cache_only s.conn.use_cache
    then leaves (set_errno s disc_not_found) disc (pos 0)
    else ask cd net (album_command (or_empty disc.artist) (or_empty disc.title)) s disc
