-- ===== src/Conn.antt =====
-- A connection, `struct cddb_conn_s` of include/cddb/cddb_conn_ni.h, and its construction in
-- lib/cddb_conn.c. The socket is a descriptor or `none` for -1.
pub mod Settings
pub mod Credentials
pub mod Charset
pub mod Connect
pub mod Email
pub mod UseSite
pub mod Lifetime
use libcddb.Base.{
  ℕ, ◌+◌, ◌-◌, ◌^◌, Bool, true, false, Option, none, some, List, [], ◌∷◌, ◌++◌, ℤ, pos, Bytes,
  CString, codes,
}
use libcddb.Errors.{ErrorCode, ok}
use libcddb.Cache.{CacheMode, cache_on}

-- An `iconv_t`: NULL, an open descriptor, or one that was closed.
pub data Handle : Type 0 where
  null : Handle
  opened : ℕ → Handle
  closed : ℕ → Handle

pub record Conn : Type 0 where
  pub buf_size : ℕ
  pub cname : Bytes
  pub cversion : Bytes
  pub socket : Option ℕ
  pub server_name : Bytes
  pub server_port : ℤ
  pub timeout : ℕ
  pub http_path_query : Bytes
  pub http_path_submit : Bytes
  pub is_http_enabled : Bool
  pub is_http_proxy_enabled : Bool
  pub http_proxy_server : CString
  pub http_proxy_server_port : ℤ
  pub http_proxy_username : CString
  pub http_proxy_password : CString
  pub http_proxy_auth : CString
  pub use_cache : CacheMode
  pub cache_dir : CString
  pub cache_read : Bool
  pub user : Bytes
  pub hostname : Bytes
  pub errnum : ErrorCode
  pub cd_to_freedb : Handle
  pub cd_from_freedb : Handle
  pub fields : ℕ
  pub cats : ℕ

abbrev pub default_user : Bytes
default_user = codes "anonymous"

abbrev pub default_host : Bytes
default_host = codes "localhost"

-- cddb_new, with the client's name and version of the build and the environment's HOME.
unfoldable pub conn_new : Bytes → Bytes → Bytes → Conn
conn_new client_name client_version home = record {
  buf_size = 1024;
  cname = client_name;
  cversion = client_version;
  socket = none;
  server_name = codes "freedb.org";
  server_port = pos 888;
  timeout = 10;
  http_path_query = codes "/~cddb/cddb.cgi";
  http_path_submit = codes "/~cddb/submit.cgi";
  is_http_enabled = false;
  is_http_proxy_enabled = false;
  http_proxy_server = none;
  http_proxy_server_port = pos 8080;
  http_proxy_username = none;
  http_proxy_password = none;
  http_proxy_auth = none;
  use_cache = cache_on;
  cache_dir = some (home ++ codes "/.cddbslave");
  cache_read = false;
  user = default_user;
  hostname = default_host;
  errnum = ok;
  cd_to_freedb = null;
  cd_from_freedb = null;
  fields = 1 + 2;
  cats = 2 ^ 32 - 1;
}
