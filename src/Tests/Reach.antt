-- ===== src/Tests/Reach.antt =====
-- Examples for the list of results: the calls that change it, and a page of the text search.
use libcddb.Base.{
  minus_one, ℕ, CString, map, ◌↔◌, ◌≡◌, refl, [], ◌∷◌, ◌++◌, Bool, true, false, none, some, Bytes,
  codes, fault,
}
use libcddb.Errors.{data_missing}
use libcddb.Conn.{Conn, conn_new}
use libcddb.Disc.{Disc, disc_new, disc_clone}
use libcddb.Disc.Discid.{calc_discid}
use libcddb.Commands.{Session, set_errno, nowhere, results_of, flush_results}
use libcddb.Commands.Results.{query_next}
use libcddb.Commands.Query.{query}
use libcddb.Commands.Reach.{Reach, IsStale, here, searched, later, queried}
use libcddb.Commands.Stale.{query_next-fault}
use libcddb.Commands.Placed.{IsPlaced}
use libcddb.Commands.Links.{
  duplicate, text_search, contains, is_duplicate, line_links, link_at, link_disc, link_parts,
  link_text, parse_search_data, text_of,
}
use libcddb.Commands.Send.{send_cmd, search as search_command}
use libcddb.Commands.Search.{search_param_str}
use libcddb.Commands.SearchPage.{read_page, search}
use libcddb.Tests.Commands.{no_net, empty_table}
use libcddb.Regex.{literal, split_last}
use libcddb.Regex.Words.{span}

-- A new connection that speaks HTTP.
abbrev caller : Conn
unfolding conn_new
caller = record (conn_new (codes "app") (codes "1") (codes "/home/u")) {
  socket = some 5;
  buf_size = 256;
  is_http_enabled = true;
}

abbrev new_one : Session
new_one = record { conn = caller; lines = []; output = []; query_data = []; it = nowhere }

abbrev massive : Bytes
massive =
    codes
      "<a href=\"http://freedb.org/freedb_search_fmt.php?cat=rock&id=8e0eee0b\">Massive Attack / Mezzanine</a>"

abbrev third : Bytes
third =
    codes
      "<a href=\"http://freedb.org/freedb_search_fmt.php?cat=soundtrack&id=b30ed30b\"><font size=-1>3</font></a>"

two_links :
    text_search (massive ++ third)
    ≡ some (record {
      before = massive ++ codes "<a href=\"http://freedb.org";
      category = codes "soundtrack";
      discid = codes "b30ed30b";
      text = duplicate;
    })
unfolding text_search link_at link_parts literal span text_of is_duplicate contains
two_links = refl

-- The library's connection with the answer of the server.
abbrev own_one : Session
own_one = record new_one {
  lines = codes "HTTP/1.0 200 OK" ∷ [] ∷ codes "<ul>" ∷ (massive ++ third) ∷ codes "</ul>" ∷ [];
}

abbrev asked : Session × Bool
asked =
    send_cmd own_one (search_command (codes "mezz") (search_param_str caller.fields caller.cats))

-- A text search leaves the iterator on its first result, and the query after it does not reset it.
abbrev searched_one : Session
searched_one = (search no_net new_one own_one disc_new (codes "mezz")).session

abbrev after_query : Session
after_query = set_errno (flush_results searched_one) data_missing

abbrev calls : Reach new_one after_query
unfolding query calc_discid
calls = later (later here (searched no_net own_one disc_new (codes "mezz") refl)) (
    queried none no_net (λ category discid. false) empty_table empty_table disc_new
      (record { session = after_query; disc = calc_discid disc_new; result = minus_one }) refl refl)

query_next-fault_example :
    ((query_next after_query disc_new ≡ fault) ↔ IsStale calls) × IsPlaced (results_of after_query)
query_next-fault_example = query_next-fault new_one after_query disc_new refl calls

-- The duplicate has the artist and the title of the link before it.
two_discs :
    map {B = ℕ × CString × CString}
      (λ (d : Disc). (d.discid, d.artist, d.title))
      (read_page none ((massive ++ third) ∷ []))
    ≡ (2383343115, some (codes "Massive Attack"), some (codes "Mezzanine"))
      ∷ (3004093195, some (codes "Massive Attack"), some (codes "Mezzanine"))
      ∷ []
unfolding read_page parse_search_data line_links text_search link_at link_parts literal span text_of
    is_duplicate contains link_disc link_text disc_clone split_last
two_discs = refl
