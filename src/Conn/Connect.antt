-- ===== src/Conn/Connect.antt =====
-- cddb_connect, its handshake and cddb_disconnect of lib/cddb_conn.c. What the network does is a
-- parameter: names that resolve, sockets, hosts that answer, and the lines of the server.
pub mod Outcome
use libcddb.Net.Timeouts.{Attempt, Ready, timeout_connect}
use libcddb.Base.{
  leb, length, [], ◌++◌, codes, ℕ, ◌^◌, ◌%◌, ◌||◌, Bool, true, false, not, ◌==◌, if◌then◌else◌,
  Option, none, some, ℤ, pos, minus_one, eq_ℤ, to_u32, Bytes, CString,
}
use libcddb.Errors.{ErrorCode, ok, permission_denied, unknown_host_name, connect as connect_failed}
use libcddb.Response.{Answer, get_response_code}
use libcddb.Conn.{Conn}

-- The server's side of a handshake: its lines.
pub record Server : Type 0 where
  pub banner : Option Bytes
  pub hello : Option Bytes
  pub proto : Option Bytes

-- What the system calls return for a host and a port.
pub record Peer : Type 0 where
  pub nonblocking : Bool
  pub attempt : Attempt
  pub ready : Ready
  pub so_error : ℕ

pub record Network : Type 0 where
  pub resolves : CString → Bool
  pub new_socket : Option ℕ
  pub peer : CString → ℕ → Peer
  pub server : Server

abbrev code_in_three : ℕ → ℕ → ℕ → ℤ → Bool
code_in_three a b c code = eq_ℤ code (pos a) || eq_ℤ code (pos b) || eq_ℤ code (pos c)

-- cddb_errno_set
abbrev pub with_errno : Conn → ErrorCode → Conn
with_errno c errno = record c { errnum = errno }

-- A connection and what was sent on it.
abbrev pub Exchange : Type 0
Exchange = Conn × Bytes

-- An answer: `denied` are the codes that are refused; a code that the switch does not name is
-- accepted.
abbrev pub answered :
    Answer → (ℤ → Bool) → Exchange → (Exchange → Exchange × Bool) → Exchange × Bool
answered a denied (c, out) rest =
    if eq_ℤ a.code minus_one
    then ((with_errno c a.errno, out), false)
    else if denied a.code
    then ((with_errno c permission_denied, out), false)
    else rest (with_errno c a.errno, out)

-- sock_fprintf: a text that does not fit the line buffer is not sent.
abbrev pub put : Exchange → Bytes → Exchange
put (c, out) text = (c, if leb c.buf_size (length text) then out else out ++ text)

-- cddb_send_cmd over CDDBP on an open socket, with the text of the command: it succeeds even where
-- the text is not sent.
abbrev pub sent : Bytes → Exchange → Exchange
sent text x = let x = put (put x text) (codes "\n") in (with_errno x.0 ok, x.1)

abbrev pub hello_text : Conn → Bytes
hello_text c =
    codes "cddb hello "
    ++ c.user
    ++ codes " "
    ++ c.hostname
    ++ codes " "
    ++ c.cname
    ++ codes " "
    ++ c.cversion

abbrev pub proto_text : Bytes
proto_text = codes "proto 6"

unfoldable pub handshake : Server → Conn → Exchange × Bool
unfolding get_response_code
handshake s c =
    answered (get_response_code c.errnum s.banner) (code_in_three 432 433 434) (c, [])
      λ x.
        let x = sent (hello_text x.0) x in
        answered (get_response_code x.0.errnum s.hello) (λ code. eq_ℤ code (pos 431)) x
          λ x.
            let x = sent proto_text x in
            answered (get_response_code x.0.errnum s.proto) (λ code. false) x
              λ x. ((with_errno x.0 ok, x.1), true)

-- The name and the port that are asked for: those of the proxy, or those of the server.
abbrev pub peer_name : Conn → CString
peer_name c = if c.is_http_proxy_enabled then c.http_proxy_server else some c.server_name

-- `htons` takes 16 bits.
abbrev pub peer_port : Conn → ℕ
peer_port c =
    to_u32 (if c.is_http_proxy_enabled then c.http_proxy_server_port else c.server_port) % 2 ^ 16

abbrev pub peer_of : Network → Conn → Peer
peer_of net c = net.peer (peer_name c) (peer_port c)

abbrev pub connected_to : Peer → ℤ
connected_to p = timeout_connect p.nonblocking p.attempt p.ready p.so_error

-- What a handshake leaves on the connection.
abbrev pub made : Exchange × Bool → Conn × Bool
made (x, good) = (x.0, good)

-- From the socket on.
unfoldable pub connect_socket : Network → Conn → Option ℕ → Conn × Bool
unfolding handshake timeout_connect
connect_socket net c none = (record c { socket = none; errnum = connect_failed }, false)
connect_socket net c (some s) =
    if eq_ℤ (connected_to (peer_of net c)) minus_one
    then (record c { socket = some s; errnum = connect_failed }, false)
    else if c.is_http_enabled
    then (record c { socket = some s; errnum = ok }, true)
    else made (handshake net.server (record c { socket = some s }))

abbrev connect_new : Network → Conn → Conn × Bool
connect_new net c =
    if net.resolves (peer_name c)
    then connect_socket net c net.new_socket
    else (with_errno c unknown_host_name, false)

unfoldable pub connect : Network → Conn → Conn × Bool
unfolding connect_socket
connect net c = elim c.socket [ some s ↦ (with_errno c ok, true) | none ↦ connect_new net c ]

unfoldable pub disconnect : Conn → Conn
disconnect c = record c { socket = none; errnum = ok }
