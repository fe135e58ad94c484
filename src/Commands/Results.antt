-- ===== src/Commands/Results.antt =====
-- The answer to a query, its result list and cddb_query_next of lib/cddb_cmd.c.
use libcddb.Base.{
  ℕ, suc, ltb, ◌||◌, if◌then◌else◌, Bool, true, false, length, get_elem?, Option, none, some, List,
  [], ◌∷◌, ◌++◌, Bytes, ℤ, pos, minus_one, eq_ℤ, Run, value, fault, ◌>>=◌,
}
use libcddb.Errors.{
  is_ok, ErrorCode, ok, disc_not_found, server_error, not_connected, unknown, invalid_response,
  iconv_fail,
}
use libcddb.Charset.{Iconv}
use libcddb.Disc.{Disc, disc_clone, disc_copy}
use libcddb.Disc.Convert.{disc_iconv}
use libcddb.Disc.Fields.{set_category_str}
use libcddb.Regex.{Titles, both, one, titles}
use libcddb.Regex.Hex.{get_hex}
use libcddb.Regex.Words.{is_alpha, is_xdigit, span, word_then}
use libcddb.Response.{Answer, get_response_code}
use libcddb.Record.{starts_with_dot}
use libcddb.Conn.Connect.{disconnect}
use libcddb.Commands.{Session, Cursor, nowhere, at, freed, set_errno}
use libcddb.Commands.Read.{Outcome, leaves, answer_of, close, close_http}

-- REGEX_QUERY_MATCH: `^([[:alpha:]]+)[[:blank:]]([[:xdigit:]]+)[[:blank:]]((.*) / (.*)|(.*))$`
unfoldable pub query_match : Bytes → Option (Bytes × Bytes × Titles)
unfolding span titles
query_match line = word_then (span is_alpha line) λ category rest.
    word_then (span is_xdigit rest) λ discid text. some (category, discid, titles text)

abbrev pub with_titles : Titles → Disc → Disc
with_titles (both artist title) disc = record disc { artist = some artist; title = some title }
with_titles (one title) disc = record disc { title = some title }

-- The error of a line, and the disc with what it says.
unfoldable pub parse_query_data : Iconv → Disc → Bytes → Disc × ErrorCode
parse_query_data cd disc line = elim (query_match line) [
  | none ↦ (disc, invalid_response)
  | some (category, discid, names) ↦
      let found =
        with_titles names (record (set_category_str disc category) { discid = get_hex discid }) in
      let (converted, good) = disc_iconv cd found in (converted, if good then ok else iconv_fail)
]

-- The loop over the lines of a list: the discs that were appended, the lines that are left, and the
-- error that ended it, if any.
abbrev pub append_found :
    Disc
    → ErrorCode
    → List Bytes
    → List Disc × List Bytes × ErrorCode
    → List Disc × List Bytes × ErrorCode
append_found aux errno rest (discs, left, last) =
    if is_ok errno then (aux ∷ discs, left, last) else ([], rest, errno)

unfoldable pub read_list : Iconv → Disc → List Bytes → List Disc × List Bytes × ErrorCode
unfolding parse_query_data disc_clone
read_list cd disc [] = ([], [], ok)
read_list cd disc (line ∷ lines) =
    let (aux, errno) = parse_query_data cd (disc_clone disc) line in
    let later = read_list cd disc lines in
    if starts_with_dot line then ([], lines, ok) else append_found aux errno lines later

abbrev pub no_matches : Session → Disc → ErrorCode → Run (Outcome ℤ)
no_matches s disc errno = leaves (set_errno s errno) disc minus_one

-- After the switch.
unfoldable pub list_done : Session → Disc → ℕ → Run (Outcome ℤ)
unfolding disconnect
list_done s disc count = leaves (set_errno (close_http s) ok) disc (pos count)

-- The first disc of the list is copied to the caller's; `list_first` sets the iterator.
unfoldable pub first_result : Session → Disc → Run (Outcome ℤ)
unfolding list_done disc_copy
first_result s disc = elim s.query_data [
  | [] ↦ no_matches s disc invalid_response
  | found ∷ more ↦ list_done (record s { it = at 0 }) (disc_copy disc found) (length s.query_data)
]

unfoldable pub after_list : Session → Disc → List Disc × List Bytes × ErrorCode → Run (Outcome ℤ)
unfolding first_result
after_list s disc (discs, left, errno) =
    let s = record s { query_data = s.query_data ++ discs; lines = left } in
    if is_ok errno then first_result s disc else no_matches s disc errno

unfoldable pub list_follows : Iconv → Session → Disc → Run (Outcome ℤ)
unfolding read_list after_list
list_follows cd s disc = after_list s disc (read_list cd disc s.lines)

unfoldable pub exact_match : Iconv → Session → Disc → Bytes → Run (Outcome ℤ)
unfolding parse_query_data list_done
exact_match cd s disc msg =
    let (found, errno) = parse_query_data cd disc msg in
    if is_ok errno then list_done s found 1 else no_matches s found errno

-- What a response code means to cddb_handle_response_list.
pub data ListReply : Type 0 where
  exact list none_found hung_up : ListReply
  refused_with : ErrorCode → ListReply

unfoldable pub list_reply : ℤ → ListReply
list_reply code =
    if eq_ℤ code (pos 200)
    then exact
    else if eq_ℤ code (pos 210) || eq_ℤ code (pos 211)
    then list
    else if eq_ℤ code (pos 202)
    then none_found
    else if eq_ℤ code (pos 403)
    then refused_with server_error
    else if eq_ℤ code (pos 409) || eq_ℤ code (pos 530)
    then hung_up
    else refused_with unknown

unfoldable pub on_list_reply : Iconv → Session → Disc → Bytes → ListReply → Run (Outcome ℤ)
unfolding exact_match list_follows list_done disconnect
on_list_reply cd s disc msg exact = exact_match cd s disc msg
on_list_reply cd s disc msg list = list_follows cd s disc
on_list_reply cd s disc msg none_found = list_done s disc 0
on_list_reply cd s disc msg hung_up = no_matches (close s) disc not_connected
on_list_reply cd s disc msg (refused_with errno) = no_matches s disc errno

unfoldable pub on_list_answer : Iconv → Disc → Session × Answer → Run (Outcome ℤ)
unfolding list_reply on_list_reply
on_list_answer cd disc (s, a) =
    if eq_ℤ a.code minus_one
    then leaves s disc minus_one
    else on_list_reply cd s disc a.msg (list_reply a.code)

unfoldable pub handle_response_list : Iconv → Session → Disc → Run (Outcome ℤ)
unfolding on_list_answer get_response_code
handle_response_list cd s disc = on_list_answer cd disc (answer_of s)

-- `list_next`: the element behind the iterator's; one that is not in the list is read.
abbrev pub next_cursor : Session → Run Cursor
next_cursor s = elim s.it [
  | nowhere ↦ value nowhere
  | at i ↦
      if ltb i (length s.query_data)
      then value (if ltb (suc i) (length s.query_data) then at (suc i) else nowhere)
      else fault
  | freed ↦ fault
]

abbrev pub copy_result : Disc → Option Disc → Run Disc
unfolding disc_copy
copy_result disc none = fault
copy_result disc (some found) = value (disc_copy disc found)

abbrev pub at_cursor : Session → Disc → Cursor → Run (Outcome Bool)
unfolding copy_result
at_cursor s disc it = elim it [
  | at i ↦ do
    found ← copy_result disc (get_elem? s.query_data i)
    leaves (set_errno (record s { it = at i }) ok) found true
  | _ ↦ leaves (set_errno (record s { it = nowhere }) disc_not_found) disc false
]

unfoldable pub query_next : Session → Disc → Run (Outcome Bool)
unfolding at_cursor
query_next s disc = next_cursor s >>= at_cursor s disc
