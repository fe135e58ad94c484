-- ===== src/Conn/Settings.antt =====
-- The getters and setters of lib/cddb_conn.c. A connection pointer that may be NULL is an
-- `Option Conn`.
use libcddb.Base.{
  to_u32, ℕ, Bool, true, false, Option, none, some, ◌∷◌, [], ◌++◌, ◌==◌, if◌then◌else◌, ℤ, Bytes,
  CString,
}
use libcddb.Flags.{str_or_empty}
use libcddb.Errors.{ErrorCode, ok, invalid_input}
use libcddb.Cache.{CacheMode, cache_off}
use libcddb.Conn.{Conn}

get_server_name : ℕ → Option Conn → CString
get_server_name flags none = str_or_empty flags none
get_server_name flags (some c) = some c.server_name

unfoldable pub set_server_name : Conn → Bytes → Conn
set_server_name c server = record c { server_name = server }

get_server_port : Option Conn → ℕ
get_server_port (some c) = to_u32 c.server_port
get_server_port none = 0

unfoldable pub set_server_port : Conn → ℤ → Conn
set_server_port c port = record c { server_port = port }

get_timeout : Option Conn → ℕ
get_timeout (some c) = c.timeout
get_timeout none = 0

set_timeout : Option Conn → ℕ → Option Conn
set_timeout none t = none
set_timeout (some c) t = some (record c { timeout = t })

get_http_path_query : ℕ → Option Conn → CString
get_http_path_query flags none = str_or_empty flags none
get_http_path_query flags (some c) = some c.http_path_query

unfoldable pub set_http_path_query : Conn → Bytes → Conn
set_http_path_query c path = record c { http_path_query = path }

get_http_path_submit : ℕ → Option Conn → CString
get_http_path_submit flags none = str_or_empty flags none
get_http_path_submit flags (some c) = some c.http_path_submit

set_http_path_submit : Conn → Bytes → Conn
set_http_path_submit c path = record c { http_path_submit = path }

is_http_enabled : Option Conn → Bool
is_http_enabled (some c) = c.is_http_enabled
is_http_enabled none = false

unfoldable pub http_enable : Conn → Conn
http_enable c = record c { is_http_enabled = true; errnum = ok }

unfoldable pub http_disable : Conn → Conn
http_disable c = record c { is_http_enabled = false; errnum = ok }

unfoldable pub is_http_proxy_enabled : Option Conn → Bool
is_http_proxy_enabled (some c) = c.is_http_proxy_enabled
is_http_proxy_enabled none = false

-- A proxy implies HTTP.
unfoldable pub http_proxy_enable : Conn → Conn
unfolding http_enable
http_proxy_enable c = record (http_enable c) { is_http_proxy_enabled = true; errnum = ok }

unfoldable pub http_proxy_disable : Conn → Conn
http_proxy_disable c = record c { is_http_proxy_enabled = false; errnum = ok }

get_http_proxy_server_name : ℕ → Option Conn → CString
get_http_proxy_server_name flags none = str_or_empty flags none
get_http_proxy_server_name flags (some c) = str_or_empty flags c.http_proxy_server

unfoldable pub set_http_proxy_server_name : Conn → Bytes → Conn
set_http_proxy_server_name c server = record c { http_proxy_server = some server }

get_http_proxy_server_port : Option Conn → ℕ
get_http_proxy_server_port (some c) = to_u32 c.http_proxy_server_port
get_http_proxy_server_port none = 0

unfoldable pub set_http_proxy_server_port : Conn → ℤ → Conn
set_http_proxy_server_port c port = record c { http_proxy_server_port = port }

get_http_proxy_username : ℕ → Option Conn → CString
get_http_proxy_username flags none = str_or_empty flags none
get_http_proxy_username flags (some c) = str_or_empty flags c.http_proxy_username

get_http_proxy_password : ℕ → Option Conn → CString
get_http_proxy_password flags none = str_or_empty flags none
get_http_proxy_password flags (some c) = str_or_empty flags c.http_proxy_password

get_errno : Option Conn → ErrorCode
get_errno (some c) = c.errnum
get_errno none = invalid_input

-- Both or neither.
set_client : Conn → CString → CString → Conn
set_client c (some cname) (some cversion) = record c { cname = cname; cversion = cversion }
set_client c _ _ = c

get_cache_mode : Option Conn → CacheMode
get_cache_mode (some c) = c.use_cache
get_cache_mode none = cache_off

-- cddb_cache_enable, cddb_cache_only and cddb_cache_disable.
set_cache_mode : CacheMode → Option Conn → Option Conn
set_cache_mode mode none = none
set_cache_mode mode (some c) = some (record c { use_cache = mode })

get_cache_dir : Option Conn → CString
get_cache_dir (some c) = c.cache_dir
get_cache_dir none = none

-- `~` at the start stands for HOME; without HOME the directory is left NULL.
expanded : CString → Bytes → CString
expanded home [] = some []
expanded none (c ∷ rest) = if c == b'~' then none else some (c ∷ rest)
expanded (some home) (c ∷ rest) = some (if c == b'~' then home ++ rest else c ∷ rest)

set_cache_dir : CString → Conn → CString → Conn
unfolding expanded
set_cache_dir home c none = c
set_cache_dir home c (some dir) = record c { cache_dir = expanded home dir }

search_set_fields : Conn → ℕ → Conn
search_set_fields c fields = record c { fields = fields }

search_set_categories : Conn → ℕ → Conn
search_set_categories c cats = record c { cats = cats }

-- cddb_clone_proxy: the search connection takes over the proxy of the user's one.
unfoldable pub clone_proxy : Conn → Conn → Conn
unfolding is_http_proxy_enabled http_proxy_enable
clone_proxy dst src =
    if is_http_proxy_enabled (some src)
    then http_proxy_enable (record dst {
      http_proxy_server = src.http_proxy_server;
      http_proxy_server_port = src.http_proxy_server_port;
      http_proxy_auth = src.http_proxy_auth;
    })
    else dst
