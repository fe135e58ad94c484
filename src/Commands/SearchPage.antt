-- ===== src/Commands/SearchPage.antt =====
-- cddb_search of lib/cddb_cmd.c: the library's own connection asks for a page, and the links of
-- its lines become the list of results.
use libcddb.Commands.LinkShape.{IsLinkIn}
use libcddb.Base.{
  suc, ◌≡◌, not, if◌then◌else◌, Bool, true, false, length, Option, none, some, List, [], ◌∷◌, ◌++◌,
  Bytes, ℤ, pos, minus_one, map, value,
}
use libcddb.Errors.{ok}
use libcddb.Disc.{Disc, disc_copy}
use libcddb.Conn.{Conn}
use libcddb.Conn.Settings.{clone_proxy}
use libcddb.Conn.Connect.{Network, connect}
use libcddb.Commands.{Session, at, set_errno, flush_results}
use libcddb.Commands.Send.{search as search_command, send_cmd, read_errno}
use libcddb.Commands.Read.{close}
use libcddb.Commands.Search.{search_param_str}
use libcddb.Commands.Links.{Link, text_search, parse_search_data}
use libcddb.Commands.Found.{results}

-- What cddb_search leaves: the caller's session, that of the library, the disc and the result.
pub record SearchOutcome : Type 0 where
  pub session : Session
  pub search_conn : Session
  pub disc : Disc
  pub result : ℤ

-- The error number is copied from the library's connection.
abbrev pub search_fails : Session → Session → Disc → SearchOutcome
search_fails s t disc = record {
  session = set_errno s t.conn.errnum;
  search_conn = t;
  disc = disc;
  result = minus_one;
}

-- The loop over the lines; a line without a link is skipped, and `aux` stays from line to line.
unfoldable pub read_page : Option Disc → List Bytes → List Disc
read_page aux [] = []
read_page aux (line ∷ lines) =
    let (aux, discs) = parse_search_data aux line in discs ++ read_page aux lines

-- `list_first` sets the iterator where there is a result.
unfoldable pub page_done : Session → Session → Disc → List Disc → SearchOutcome
page_done s t disc [] = record {
  session = set_errno s ok;
  search_conn = close t;
  disc = disc;
  result = pos 0;
}
page_done s t disc (d ∷ ds) = record {
  session = set_errno (record s { query_data = d ∷ ds; it = at 0 }) ok;
  search_conn = close t;
  disc = disc_copy disc d;
  result = pos (length (d ∷ ds));
}

unfoldable pub after_search : Session → Disc → Session × Bool → SearchOutcome
unfolding page_done
after_search s disc (t, true) =
    page_done s (record (read_errno t t.lines) { lines = [] }) disc (read_page none t.lines)
after_search s disc (t, false) = search_fails s t disc

-- `t` is the library's connection.
unfoldable pub search : Network → Session → Session → Disc → Bytes → SearchOutcome
unfolding after_search
search net s t disc str =
    let (c, good) = connect net (clone_proxy t.conn s.conn) in
    let t = record t { conn = c } in
    let s = flush_results s in
    if not good
    then search_fails s t disc
    else after_search s disc
        (send_cmd t (search_command str (search_param_str s.conn.fields s.conn.cats)))

-- The links of a line from the left to the right.
pub data AreLinks : Bytes → List Link → Type 0 where
  no_link : {line : Bytes} → text_search line ≡ none → AreLinks line []
  one_more :
      {line : Bytes} {m : Link} {ms : List Link}
      → text_search line ≡ some m
      → IsLinkIn line m
      → AreLinks m.before ms
      → AreLinks line (ms ++ m ∷ [])

-- The links of a page: those of its lines.
pub data AreLinksOf : List Bytes → List Link → Type 0 where
  no_line : AreLinksOf [] []
  then_line :
      {line : Bytes} {lines : List Bytes} {ms more : List Link}
      → AreLinks line ms
      → AreLinksOf lines more
      → AreLinksOf (line ∷ lines) (ms ++ more)

abbrev last_of : Option Disc → List Disc → Option Disc
last_of aux [] = aux
last_of aux (d ∷ ds) = last_of (some d) ds

-- The outcome for these results; cddb_query_next, which cddb_search_next calls, gives the others.
abbrev pub Searched : Disc → Disc → List Disc → SearchOutcome → Type 0
Searched disc later [] o =
    (o.result ≡ pos 0)
    × (o.disc ≡ disc)
    × (o.session.query_data ≡ [])
    × (o.session.conn.errnum ≡ ok)
Searched disc later (d ∷ ds) o =
    (o.result ≡ pos (suc (length ds)))
    × (o.disc ≡ disc_copy disc d)
    × (o.session.conn.errnum ≡ ok)
    × (results (suc (length ds)) o.session later ≡ value (map (disc_copy later) ds))
