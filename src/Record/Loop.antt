-- ===== src/Record/Loop.antt =====
-- The loop of cddb_parse_record and what comes after it, lib/cddb_cmd.c.
use libcddb.Cache.Side.{CacheSide, caches}
use libcddb.Base.{
  unlines, Bool, true, false, not, if◌then◌else◌, List, [], ◌∷◌, minus_one, pos, Bytes, Run, value,
  ◌>>=◌,
}
use libcddb.Charset.{Iconv}
use libcddb.Disc.{Disc}
use libcddb.Disc.Convert.{disc_iconv}
use libcddb.Errors.{ErrorCode, ok, track_not_found, invalid_response, iconv_fail}
use libcddb.Record as Rec

-- How the loop is left: with the parser, or out of the function.
pub data Left : Type 0 where
  ended : Rec.Parser → Left
  missing : Rec.Parser → Left

abbrev pub prepend : Bytes → List Bytes × Left → Run (List Bytes × Left)
prepend line (read, left) = value (line ∷ read, left)

-- After the switch: `further` is the rest of the loop.
abbrev pub after_line :
    Bytes → (Rec.Parser → Run (List Bytes × Left)) → Rec.Step → Run (List Bytes × Left)
after_line line further (Rec.track_not_found q) = value (line ∷ [], missing q)
after_line line further (Rec.next q) = elim (Rec.is_stop q.state) [
  | true ↦ value (line ∷ [], ended q)
  | false ↦ further q >>= prepend line
]

-- The lines that were read, and how the loop was left. The end of the stream stops the parser.
unfoldable pub read_lines : List Bytes → Rec.Parser → Run (List Bytes × Left)
unfolding Rec.Cases.switch_line
read_lines [] p = value ([], ended (record p { state = Rec.stop }))
read_lines (line ∷ rest) p = do
  step ← Rec.Cases.switch_line line p
  after_line line (read_lines rest) step

-- The error number, the disc, and the cache file if one was written. The function
-- returns TRUE when the number is CDDB_ERR_OK.
pub record Reading : Type 0 where
  pub errno : ErrorCode
  pub disc : Disc
  pub cached : Bytes
  pub unlinked : Bool

-- What comes after the loop.
unfoldable pub finish : Iconv → CacheSide → Bytes → Left → Reading
finish cd c written (missing p) = record {
  errno = track_not_found;
  disc = p.disc;
  cached = written;
  unlinked = false;
}
finish cd c written (ended p) =
    if not (Rec.is_stop p.state)
    then record {
      errno = invalid_response;
      disc = p.disc;
      cached = written;
      unlinked = c.cache_read;
    }
    else let (disc, converted) = disc_iconv cd p.disc in
      record {
        errno = if converted then ok else iconv_fail;
        disc = disc;
        cached = written;
        unlinked = false;
      }

abbrev pub parser_start : Disc → Rec.Parser
parser_start disc = record {
  state = Rec.start;
  multi_line = Rec.no_multi;
  track_no = pos 0;
  old_no = minus_one;
  disc = disc;
}

-- `fprintf(…, "%s\n", line)` for each line that was read.
abbrev pub finish_with : Iconv → CacheSide → Bool → List Bytes × Left → Run Reading
finish_with cd c caching (read, left) =
    value (finish cd c (if caching then unlines read else []) left)

-- `cd` is `c->charset->cd_from_freedb`, and `lines` what cddb_read_line gives until it gives NULL.
unfoldable pub parse_record : Iconv → CacheSide → List Bytes → Disc → Run Reading
unfolding finish read_lines
parse_record cd c lines disc = do
  caching ← caches c
  found ← read_lines lines (parser_start disc)
  finish_with cd c caching found
