-- ===== src/Commands/Iterator.antt =====
-- To send a command leaves the list of results and its iterator alone, lib/cddb_cmd.c.
use libcddb.Base.{
  CString, Option, codes, if◌then◌else◌, leb, length, ℕ, ◌≡◌, inl, inr, refl, ◌∙◌, arith,
  Bool-cases, Bool, true, false, some, none, Bytes,
}
use libcddb.Commands.{results_of, Session, sock_printf}
use libcddb.Commands.Send.{
  with_auth, send_on, command_text, get_line, host_header, http_parse_response, http_parse_headers,
  close_failed, http_send_entry, http_send_query, write, Command, send_cmd, http_send_cmd,
  add_proxy_auth, post_line, send_in_url, http_answer,
}

pub sock_printf-results :
    (s : Session) (text : Bytes) → results_of (sock_printf s text) ≡ results_of s
unfolding sock_printf
sock_printf-results s text = ground arith

pub if-results :
    (b : Bool) (s t u : Session)
    → results_of s ≡ results_of u
    → results_of t ≡ results_of u
    → results_of (if b then s else t) ≡ results_of u
if-results true s t u h k = h
if-results false s t u h k = k

if_pair-results :
    (b : Bool) (p q : Session × Bool) (u : Session)
    → results_of p.0 ≡ results_of u
    → results_of q.0 ≡ results_of u
    → results_of (if b then p else q).0 ≡ results_of u
if_pair-results true p q u h k = h
if_pair-results false p q u h k = k

with_auth-results : (auth : CString) (s : Session) → results_of (with_auth auth s) ≡ results_of s
unfolding with_auth
with_auth-results none s = refl
with_auth-results (some auth) s = sock_printf-results s _

add_proxy_auth-results : (s : Session) → results_of (add_proxy_auth s) ≡ results_of s
unfolding add_proxy_auth
add_proxy_auth-results s = with_auth-results s.conn.http_proxy_auth s

host_header-results : (s : Session) → results_of (host_header s) ≡ results_of s
host_header-results s = sock_printf-results s _

post_line-results : (s : Session) → results_of (post_line s) ≡ results_of s
unfolding post_line
post_line-results s =
    if-results s.conn.is_http_proxy_enabled _ _ s
      (add_proxy_auth-results _ ∙ host_header-results _ ∙ sock_printf-results s _)
      (sock_printf-results s _)

send_in_url-results :
    (s : Session) (text : Bytes) (b : Bool) → results_of (send_in_url s text b) ≡ results_of s
unfolding send_in_url
send_in_url-results s text true = sock_printf-results s text
send_in_url-results s text false = simp sock_printf-results

http_parse_response-results : (s : Session) → results_of (http_parse_response s).0 ≡ results_of s
unfolding http_parse_response
http_parse_response-results s = ground arith

pub http_parse_headers-results : (s : Session) → results_of (http_parse_headers s) ≡ results_of s
unfolding http_parse_headers
http_parse_headers-results s = ground arith

http_answer-results : (s : Session) → results_of (http_answer s).0 ≡ results_of s
unfolding http_answer
http_answer-results s =
    let headers =
      if-results (sock_printf s (codes " HTTP/1.0\r\n")).conn.is_http_proxy_enabled _ _ s
        (add_proxy_auth-results _ ∙ host_header-results _ ∙ sock_printf-results s _)
        (sock_printf-results s _) in
    let answered = http_parse_response-results _ ∙ sock_printf-results _ _ ∙ headers in
    if_pair-results _ _ _ s (http_parse_headers-results _ ∙ answered) answered

http_send_entry-results :
    (s : Session) (category : Bytes) (discid size : ℕ)
    → results_of (http_send_entry s category discid size) ≡ results_of s
unfolding http_send_entry
http_send_entry-results s category discid size = simp (post_line-results, sock_printf-results)

get_line-results : (s : Session) → results_of (get_line s) ≡ results_of s
unfolding get_line
get_line-results s =
    if-results s.conn.is_http_proxy_enabled _ _ s (sock_printf-results s _)
      (sock_printf-results s _)

http_send_query-results :
    (s : Session) (cmd : Command) → results_of (http_send_query s cmd).0 ≡ results_of s
unfolding http_send_query
http_send_query-results s cmd =
    elim (Bool-cases (leb (get_line s).conn.buf_size (length (command_text cmd)))) [
      | inl e ↦ rw e (get_line-results s)
      | inr e ↦ rw e (simp (http_answer-results, send_in_url-results, get_line-results))
    ]

http_send_cmd-results :
    (s : Session) (cmd : Command) → results_of (http_send_cmd s cmd).0 ≡ results_of s
unfolding http_send_cmd
http_send_cmd-results s (write category discid size) =
    http_send_entry-results s category discid size
http_send_cmd-results s cmd = http_send_query-results s cmd

close_failed-results : (r : Session × Bool) → results_of (close_failed r).0 ≡ results_of r.0
close_failed-results (s, true) = refl
close_failed-results (s, false) = refl

send_on-results :
    (socket : Option ℕ) (s : Session) (cmd : Command)
    → results_of (send_on socket s cmd).0 ≡ results_of s
unfolding send_on
send_on-results none s cmd = refl
send_on-results (some socket) s cmd =
    if_pair-results s.conn.is_http_enabled _ _ s
      (close_failed-results (http_send_cmd s cmd) ∙ http_send_cmd-results s cmd)
      (sock_printf-results _ _ ∙ sock_printf-results s _)

pub send_cmd-results : (s : Session) (cmd : Command) → results_of (send_cmd s cmd).0 ≡ results_of s
unfolding send_cmd
send_cmd-results s cmd = send_on-results s.conn.socket s cmd
