-- ===== src/Commands/Send.antt =====
-- cddb_send_cmd, cddb_http_send_cmd and the answer of an HTTP server, lib/cddb_cmd.c.
use libcddb.Base.{
  CString, ℕ, leb, ◌==◌, if◌then◌else◌, Bool, true, false, length, Option, none, some, List, [],
  ◌∷◌, ◌++◌, Bytes, codes, ℤ, pos, eq_ℤ, to_int,
}
use libcddb.Errors.{
  is_ok, ErrorCode, ok, unexpected_eof, invalid_response, proxy_auth, server_error, line_size,
  not_connected,
}
use libcddb.Response.{is_space, skip_spaces, scan_int}
use libcddb.Format.{print_int, print_hex}
use libcddb.Conn.{Conn}
use libcddb.Conn.Connect.{disconnect}
use libcddb.Commands.{Session, set_errno, next_line, sock_printf}

-- cddb_cmd_t, with the arguments of each.
pub data Command : Type 0 where
  hello : Bytes → Bytes → Bytes → Bytes → Command
  quit : Command
  read : Bytes → ℕ → Command
  query : ℕ → ℕ → Bytes → ℕ → Command
  write : Bytes → ℕ → ℕ → Command
  proto : ℤ → Command
  sites : Command
  search : Bytes → Bytes → Command
  album : Bytes → Bytes → Command

-- CDDB_COMMANDS; the size of an entry has no place in the command.
unfoldable pub command_text : Command → Bytes
command_text (hello user host name version) =
    codes "cddb hello " ++ user ++ codes " " ++ host ++ codes " " ++ name ++ codes " " ++ version
command_text quit = codes "quit"
command_text (read category discid) =
    codes "cddb read " ++ category ++ codes " " ++ print_hex discid
command_text (query discid tracks offsets seconds) =
    codes "cddb query "
    ++ print_hex discid
    ++ codes " "
    ++ print_int (to_int tracks)
    ++ codes " "
    ++ offsets
    ++ codes " "
    ++ print_int (to_int seconds)
command_text (write category discid size) =
    codes "cddb write " ++ category ++ codes " " ++ print_hex discid
command_text (proto version) = codes "proto " ++ print_int version
command_text sites = codes "sites"
command_text (search str params) = codes "words=" ++ str ++ params
command_text (album artist title) = codes "cddb album " ++ artist ++ codes " / " ++ title

-- `case ' ': *s = '+'`
unfoldable pub url_encode : Bytes → Bytes
url_encode [] = []
url_encode (c ∷ s) = (if c == b' ' then b'+' else c) ∷ url_encode s

-- `%*s` behind the spaces: a word, and what follows it.
unfoldable pub skip_word : Bytes → Bytes
skip_word [] = []
skip_word (c ∷ s) = let rest = skip_word s in if is_space c then c ∷ s else rest

-- `sscanf(line, "%*s %d %*s", &code)`
abbrev pub status_in : Bytes → Option ℤ
status_in [] = none
status_in (c ∷ s) = scan_int (skip_word (c ∷ s))

unfoldable pub scan_status : Bytes → Option ℤ
scan_status line = status_in (skip_spaces line)

-- The error of an HTTP status line.
unfoldable pub status_error : Option Bytes → ErrorCode
status_error none = unexpected_eof
status_error (some line) = elim (scan_status line) [
  | none ↦ invalid_response
  | some code ↦
      if eq_ℤ code (pos 200) then ok else if eq_ℤ code (pos 407) then proxy_auth else server_error
]

unfoldable pub http_parse_response : Session → Session × Bool
http_parse_response s =
    let (s, line) = next_line s in let errno = status_error line in (set_errno s errno, is_ok errno)

-- The lines behind the first empty one.
unfoldable pub after_headers : List Bytes → List Bytes
after_headers [] = []
after_headers ([] ∷ lines) = lines
after_headers ((c ∷ s) ∷ lines) = after_headers lines

-- Every line that is read sets the error number to OK.
abbrev pub read_errno : Session → List Bytes → Session
read_errno s [] = s
read_errno s (line ∷ lines) = set_errno s ok

unfoldable pub http_parse_headers : Session → Session
http_parse_headers s = record (read_errno s s.lines) { lines = after_headers s.lines }

unfoldable pub with_auth : CString → Session → Session
with_auth none s = s
with_auth (some auth) s =
    sock_printf s (codes "Proxy-Authorization: Basic " ++ auth ++ codes "\r\n")

unfoldable pub add_proxy_auth : Session → Session
add_proxy_auth s = with_auth s.conn.http_proxy_auth s

-- `http://server:port`
abbrev pub server_url : Conn → Bytes
server_url c = codes "http://" ++ c.server_name ++ codes ":" ++ print_int c.server_port

abbrev pub host_header : Session → Session
host_header s = sock_printf s (
    codes "Host: "
    ++ s.conn.server_name
    ++ codes ":"
    ++ print_int s.conn.server_port
    ++ codes "\r\n")

-- The first line of a submission, with the headers for a proxy.
unfoldable pub post_line : Session → Session
post_line s =
    if s.conn.is_http_proxy_enabled
    then add_proxy_auth (
        host_header (
          sock_printf s (
            codes "POST "
            ++ server_url s.conn
            ++ s.conn.http_path_submit
            ++ codes " HTTP/1.0\r\n")))
    else sock_printf s (codes "POST " ++ s.conn.http_path_submit ++ codes " HTTP/1.0\r\n")

unfoldable pub http_send_entry : Session → Bytes → ℕ → ℕ → Session
http_send_entry s category discid size =
    let s = post_line s in
    let s = sock_printf s (codes "Category: " ++ category ++ codes "\r\n") in
    let s = sock_printf s (codes "Discid: " ++ print_hex discid ++ codes "\r\n") in
    let s =
      sock_printf s
        (codes "User-Email: " ++ s.conn.user ++ codes "@" ++ s.conn.hostname ++ codes "\r\n") in
    let s = sock_printf s (codes "Submit-Mode: submit\r\n") in
    let s = sock_printf s (codes "Content-Length: " ++ print_int (to_int size) ++ codes "\r\n") in
    let s = sock_printf s (codes "Charset: UTF-8\r\n") in sock_printf s (codes "\r\n")

abbrev pub is_search : Command → Bool
is_search (search str params) = true
is_search _ = false

-- The command within the URL; DEFAULT_PROTOCOL_VERSION is 6.
unfoldable pub send_in_url : Session → Bytes → Bool → Session
send_in_url s text searching =
    if searching
    then sock_printf s text
    else let s = sock_printf s (codes "cmd=" ++ text ++ codes "&") in
      let s = sock_printf s (
        codes "hello="
        ++ s.conn.user
        ++ codes "+"
        ++ s.conn.hostname
        ++ codes "+"
        ++ s.conn.cname
        ++ codes "+"
        ++ s.conn.cversion
        ++ codes "&") in
      sock_printf s (codes "proto=" ++ print_int (pos 6))

unfoldable pub get_line : Session → Session
get_line s =
    if s.conn.is_http_proxy_enabled
    then sock_printf s (codes "GET " ++ server_url s.conn ++ s.conn.http_path_query ++ codes "?")
    else sock_printf s (codes "GET " ++ s.conn.http_path_query ++ codes "?")

-- What follows the command, and the server's answer to it.
unfoldable pub http_answer : Session → Session × Bool
http_answer s =
    let s = sock_printf s (codes " HTTP/1.0\r\n") in
    let s = if s.conn.is_http_proxy_enabled then add_proxy_auth (host_header s) else s in
    let s = sock_printf s (codes "\r\n") in
    let (s, good) = http_parse_response s in
    if good then (set_errno (http_parse_headers s) ok, true) else (s, false)

unfoldable pub http_send_query : Session → Command → Session × Bool
http_send_query s cmd =
    let s = get_line s in
    let text = command_text cmd in
    if leb s.conn.buf_size (length text)
    then (set_errno s line_size, false)
    else http_answer (send_in_url s (url_encode text) (is_search cmd))

unfoldable pub http_send_cmd : Session → Command → Session × Bool
http_send_cmd s (write category discid size) =
    (set_errno (http_send_entry s category discid size) ok, true)
http_send_cmd s cmd = http_send_query s cmd

-- After a failure the connection is closed and the error number is put back.
abbrev pub close_failed : Session × Bool → Session × Bool
close_failed (s, true) = (set_errno s ok, true)
close_failed (s, false) = (set_errno (record s { conn = disconnect s.conn }) s.conn.errnum, false)

-- CONNECTION_OK
unfoldable pub send_on : Option ℕ → Session → Command → Session × Bool
send_on none s cmd = (set_errno s not_connected, false)
send_on (some socket) s cmd =
    if s.conn.is_http_enabled
    then close_failed (http_send_cmd s cmd)
    else (set_errno (sock_printf (sock_printf s (command_text cmd)) (codes "\n")) ok, true)

unfoldable pub send_cmd : Session → Command → Session × Bool
send_cmd s cmd = send_on s.conn.socket s cmd
