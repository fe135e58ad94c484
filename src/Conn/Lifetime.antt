-- ===== src/Conn/Lifetime.antt =====
-- The buffer, the list of sites and the end of a connection, lib/cddb_conn.c. The two lists are on
-- heaps of their own; cddb_disc_destroy and cddb_site_destroy only free.
use libcddb.Base.{ℕ, Option, none, some, Run, value, ◌>>=◌}
use libcddb.Disc.{Disc}
use libcddb.Site.{Site}
use libcddb.LinkedList.{Heap, LinkedList, list_first, list_next, list_flush, element_data}
use libcddb.Conn.{Conn}
use libcddb.Conn.Charset.{close_iconv}
use libcddb.Conn.Connect.{disconnect}

-- The line buffer is made anew; nothing of it is kept.
unfoldable pub set_buf_size : Conn → ℕ → Conn
set_buf_size c size = record c { buf_size = size }

unfoldable pub first_site : Heap Site → LinkedList → Run (LinkedList × Option Site)
unfolding element_data
first_site h sites_data =
    let sites_data = list_first sites_data in
    do site ← element_data h sites_data.it; value (sites_data, site)

unfoldable pub next_site : Heap Site → LinkedList → Run (LinkedList × Option Site)
unfolding list_next element_data
next_site h sites_data = do
  sites_data ← list_next h sites_data
  site ← element_data h sites_data.it
  value (sites_data, site)

-- What cddb_destroy leaves behind: the heaps without the two lists. `list_destroy` is list_flush
-- and the release of the list.
unfoldable pub destroy :
    Heap Disc → LinkedList → Heap Site → LinkedList → Option Conn → Run (Heap Disc × Heap Site)
unfolding list_flush close_iconv
destroy discs query_data sites sites_data none = value (discs, sites)
destroy discs query_data sites sites_data (some c) = do
  (discs, _, _) ← list_flush discs query_data
  (sites, _, _) ← list_flush sites sites_data
  c ← close_iconv (disconnect c)
  value (discs, sites)
