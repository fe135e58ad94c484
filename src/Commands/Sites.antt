-- ===== src/Commands/Sites.antt =====
-- cddb_sites of lib/cddb_cmd.c. The list of sites is a value beside the session.
use libcddb.Base.{
  not, if◌then◌else◌, Bool, true, false, Option, none, some, List, [], ◌∷◌, Bytes, pos, minus_one,
  eq_ℤ,
}
use libcddb.Errors.{unknown, iconv_fail}
use libcddb.Charset.{Iconv}
use libcddb.Record.{starts_with_dot}
use libcddb.Response.{Answer}
use libcddb.Site.{Site, site_new, site_iconv}
use libcddb.Site.Parse.{site_parse}
use libcddb.Conn.Connect.{Network, connect}
use libcddb.Commands.{Session, set_errno}
use libcddb.Commands.Send.{sites as sites_command, send_cmd}
use libcddb.Commands.Read.{answer_of, close_http}

-- What cddb_sites leaves: the session, the list of sites and the result.
pub record SitesOutcome : Type 0 where
  pub session : Session
  pub sites_data : List Site
  pub result : Bool

abbrev pub no_sites : Session → SitesOutcome
no_sites s = record { session = s; sites_data = []; result = false }

-- The loop over the lines: the sites, the lines that are left, and whether all were converted. A
-- line that is no site is skipped.
abbrev pub add_site :
    Iconv → Option Site → List Bytes → List Site × List Bytes × Bool → List Site × List Bytes × Bool
add_site cd none rest later = later
add_site cd (some site) rest (sites, left, good) =
    if (site_iconv cd site).1
    then ((site_iconv cd site).0 ∷ sites, left, good)
    else ([], rest, false)

unfoldable pub read_sites : Iconv → List Bytes → List Site × List Bytes × Bool
read_sites cd [] = ([], [], true)
read_sites cd (line ∷ lines) =
    let later = read_sites cd lines in
    if starts_with_dot line
    then ([], lines, true)
    else add_site cd (site_parse site_new line) lines later

unfoldable pub sites_follow : Session → List Site × List Bytes × Bool → SitesOutcome
sites_follow s (sites, left, good) =
    let s = record s { lines = left } in
    if good
    then record { session = close_http s; sites_data = sites; result = true }
    else record { session = set_errno s iconv_fail; sites_data = sites; result = false }

unfoldable pub on_sites_answer : Iconv → Session × Answer → SitesOutcome
on_sites_answer cd (s, a) =
    if eq_ℤ a.code minus_one
    then no_sites s
    else if eq_ℤ a.code (pos 210)
    then sites_follow s (read_sites cd s.lines)
    else if eq_ℤ a.code (pos 401)
    then no_sites s
    else no_sites (set_errno s unknown)

abbrev pub after_sites : Iconv → Session × Bool → SitesOutcome
after_sites cd (s, true) = on_sites_answer cd (answer_of s)
after_sites cd (s, false) = no_sites s

-- The list of before is flushed.
unfoldable pub sites : Iconv → Network → Session → SitesOutcome
sites cd net s =
    let (c, good) = connect net s.conn in
    let s = record s { conn = c } in
    if not good then no_sites s else after_sites cd (send_cmd s sites_command)
