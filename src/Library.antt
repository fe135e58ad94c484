-- ===== src/Library.antt =====
-- libcddb_init and libcddb_shutdown of lib/cddb.c. The patterns need no construction here.
use libcddb.Base.{
  Bool, true, false, if◌then◌else◌, Option, none, some, Bytes, codes, pos, Run, value, fault, ◌>>=◌,
}
use libcddb.Disc.{Disc}
use libcddb.Site.{Site}
use libcddb.LinkedList.{Heap, LinkedList}
use libcddb.Conn.{Conn, conn_new}
use libcddb.Conn.Settings.{http_enable, set_server_port, set_http_path_query}
use libcddb.Conn.Lifetime.{destroy}

-- The pointer cddb_search_conn, which a shutdown does not reset.
pub data SearchConn : Type 0 where
  null released : SearchConn
  open_conn : Conn → SearchConn

pub record Globals : Type 0 where
  pub initialized : Bool
  pub search_conn : SearchConn

-- cddb_destroy of the pointer.
abbrev pub conn_of : SearchConn → Run (Option Conn)
conn_of null = value none
conn_of released = fault
conn_of (open_conn c) = value (some c)

-- The connection for text searches.
unfoldable pub search_conn_new : Bytes → Bytes → Bytes → Conn
unfolding conn_new http_enable set_server_port set_http_path_query
search_conn_new client_name client_version home =
    set_http_path_query
      (set_server_port (http_enable (conn_new client_name client_version home)) (pos 80))
      (codes "/freedb_search.php")

unfoldable pub init : Bytes → Bytes → Bytes → Globals → Globals
unfolding search_conn_new
init client_name client_version home g = if g.initialized then g else record {
  initialized = true;
  search_conn = open_conn (search_conn_new client_name client_version home);
}

-- The heaps are those of the search connection's lists.
unfoldable pub shutdown :
    Heap Disc
    → LinkedList
    → Heap Site
    → LinkedList
    → Globals
    → Run (Globals × Heap Disc × Heap Site)
unfolding destroy
shutdown discs query_data sites sites_data g =
    if g.initialized
    then (do
      c ← conn_of g.search_conn
      (discs, sites) ← destroy discs query_data sites sites_data c
      value (record { initialized = false; search_conn = released }, discs, sites))
    else value (g, discs, sites)
