-- ===== src/Conn/UseSite.antt =====
-- cddb_set_site of lib/cddb_conn.c.
use libcddb.Base.{
  ℕ, to_int, ◌≡◌, ◌≢◌, ◌⊎◌, ◌↔◌, arith, Option, none, some, Bytes, CString, Run, value, fault,
  ◌>>=◌,
}
use libcddb.Errors.{ErrorCode, ok, invalid_input}
use libcddb.Site.{Protocol, unknown, cddbp, http, Site, get_address, get_protocol, get_query_path}
use libcddb.Conn.{Conn}
use libcddb.Conn.Settings.{
  set_server_name, set_server_port, http_disable, http_enable, set_http_path_query,
}

-- `strdup` of NULL is a fault.
abbrev pub copied : CString → Run Bytes
copied none = fault
copied (some s) = value s

-- From the first setter on.
apply_site : Conn → CString → ℕ → Protocol → CString → Run Conn
unfolding set_server_name set_server_port http_disable http_enable set_http_path_query
apply_site c server port cddbp path = do
  server ← copied server
  value (http_disable (set_server_port (set_server_name c server) (to_int port)))
apply_site c server port _ path = do
  server ← copied server
  path ← copied path
  value (
      set_http_path_query (http_enable (set_server_port (set_server_name c server) (to_int port)))
        path)

abbrev refuse : Conn → ErrorCode → Run (Conn × ErrorCode)
refuse c errno = value (record c { errnum = errno }, errno)

-- With the query path, with the protocol and with the address that the getters give.
with_path : Conn → CString → ℕ → Protocol → ErrorCode × Option CString → Run (Conn × ErrorCode)
unfolding apply_site
with_path c server port proto (errno, none) = refuse c errno
with_path c server port proto (errno, some path) = do
  c ← apply_site c server port proto path
  value (record c { errnum = ok }, ok)

with_protocol : Conn → Option Site → CString → ℕ → Protocol → Run (Conn × ErrorCode)
unfolding with_path get_query_path
with_protocol c site server port unknown = refuse c invalid_input
with_protocol c site server port proto = with_path c server port proto (get_query_path site)

with_address : Conn → Option Site → ErrorCode × Option (CString × ℕ) → Run (Conn × ErrorCode)
unfolding with_protocol get_protocol
with_address c site (errno, none) = refuse c errno
with_address c site (errno, some (server, port)) =
    with_protocol c site server port (get_protocol site)

unfoldable pub set_site : Conn → Option Site → Run (Conn × ErrorCode)
unfolding with_address get_address
set_site c site = with_address c site (get_address site)

-- A site with a protocol is used without a fault exactly when it has an address and, for HTTP, a
-- query path.
pub set_site_faults :
    (c : Conn) (site : Site)
    → (set_site c (some site) ≡ fault) ↔ (
        (site.protocol ≢ unknown)
        × ((site.address ≡ none) ⊎ ((site.protocol ≡ http) × (site.query_path ≡ none))))
unfolding set_site with_address with_protocol with_path apply_site
set_site_faults c site = ground arith
