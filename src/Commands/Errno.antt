-- ===== src/Commands/Errno.antt =====
-- The error number that cddb_read of lib/cddb_cmd.c leaves.
use libcddb.Base.{
  not, if◌then◌else◌, ℕ, ◌≡◌, ◌≢◌, ◌⊎◌, inl, inr, refl, ap, ◌∙◌, subst, arith, ◌==◌, ◌||◌, Bool,
  Bool-cases, Option-cases, value-injective, bind-value, true, false, Option, some, none, List, [],
  ◌∷◌, Bytes, codes, ℤ, pos, value, eq_ℤ, minus_one,
}
use libcddb.Errors.{
  is_ok, ErrorCode, ok, not_connected, disc_not_found, data_missing, server_error, unknown,
}
use libcddb.Charset.{Iconv}
use libcddb.Cache.{is_off}
use libcddb.Category.{invalid, same}
use libcddb.Disc.{Disc}
use libcddb.Record.Loop.{Reading, parser_start, read_lines}
use libcddb.Response.{Answer, get_response_code}
use libcddb.Conn.{Conn}
use libcddb.Conn.Connect.{Network, connect, with_errno}
use libcddb.Commands.{Session, set_errno, sock_printf}
use libcddb.Commands.Send.{Command, send_cmd, send_on, read as read_command, command_text}
use libcddb.Commands.Read.{
  Store, Outcome, on_read_reply, leaves, fails, from_reading, cache_read, Reply, follows,
  refused_with, hung_up, read_reply, answer_of, read_done, read_entry, after_read, read_online,
  after_sent, not_cached, read, name_of, is_cache_only, close,
}

-- TRUE comes with the error number OK, FALSE with another, except where `E` holds.
abbrev pub Reports : Type 0 → Outcome Bool → Type 0
Reports E o =
    (o.result ≡ true → o.session.conn.errnum ≡ ok)
    × (o.result ≡ false → (o.session.conn.errnum ≢ ok) ⊎ E)

fails-Reports :
    (E : Type 0) (s : Session) (disc : Disc) (errno : ErrorCode) (o : Outcome Bool)
    → errno ≢ ok
    → fails s disc errno ≡ value o
    → Reports E o
fails-Reports E s disc errno o e h =
    rw (← value-injective _ o h) (λ t. absurd (grind arith), λ f. inl e)

is_ok-cases :
    (E : Type 0) (e : ErrorCode) → (is_ok e ≡ true → e ≡ ok) × (is_ok e ≡ false → (e ≢ ok) ⊎ E)
is_ok-cases E ok = (λ h. refl, λ h. absurd (grind arith))
is_ok-cases E _ = (λ h. absurd (grind arith), λ h. inl (ground arith))

-- What the first line of the answer makes of an error number OK.
abbrev pub first_line : List Bytes → Option Bytes
first_line [] = none
first_line (line ∷ lines) = some line

-- A refusal has an error number.
abbrev IsRefusal : Reply → Type 0
IsRefusal (refused_with errno) = errno ≢ ok
IsRefusal _ = Unit {0}

if-IsRefusal :
    (b : Bool) (r r' : Reply) → IsRefusal r → IsRefusal r' → IsRefusal (if b then r else r')
if-IsRefusal true r r' h k = h
if-IsRefusal false r r' h k = k

read_reply-IsRefusal : (code : ℤ) → IsRefusal (read_reply code)
unfolding read_reply
read_reply-IsRefusal code = if-IsRefusal (eq_ℤ code (pos 210)) _ _ tt (
    if-IsRefusal (eq_ℤ code (pos 401)) (refused_with disc_not_found) _ (ground arith) (
      if-IsRefusal (eq_ℤ code (pos 402) || eq_ℤ code (pos 403)) (refused_with server_error) _
        (ground arith)
        (if-IsRefusal (eq_ℤ code (pos 409) || eq_ℤ code (pos 530)) hung_up (refused_with unknown) tt
          (ground arith))))

from_reading-Reports :
    (E : Type 0) (s : Session) (disc : Disc) (errno : ErrorCode) (o : Outcome Bool)
    → s.conn.errnum ≡ errno
    → leaves s disc (is_ok errno) ≡ value o
    → Reports E o
from_reading-Reports E s disc errno o e h = rw (← value-injective _ o h, e) (is_ok-cases E errno)

read_done-Reports :
    (E : Type 0) (s : Session) (read : List Bytes) (r : Reading) (o : Outcome Bool)
    → s.conn.is_http_enabled ≡ false
    → read_done s read r ≡ value o
    → Reports E o
unfolding read_done
read_done-Reports E s read r o plain h =
    from_reading-Reports E _ r.disc r.errno o refl (rw plain at h)

read_entry-Reports :
    (E : Type 0) (cd : Iconv) (store : Store) (s : Session) (disc : Disc) (o : Outcome Bool)
    → s.conn.is_http_enabled ≡ false
    → read_entry cd store s disc ≡ value o
    → Reports E o
unfolding read_entry
read_entry-Reports E cd store s disc o plain h =
    let ((read, p), e, k) = bind-value (read_lines s.lines (parser_start disc)) _ o h in
    let (r, f, l) = bind-value _ (read_done s read) o k in read_done-Reports E s read r o plain l

on_read_reply-Reports :
    (E : Type 0) (cd : Iconv) (store : Store) (disc : Disc) (s : Session) (reply : Reply)
    (o : Outcome Bool)
    → s.conn.is_http_enabled ≡ false
    → IsRefusal reply
    → on_read_reply cd store disc s reply ≡ value o
    → Reports E o
unfolding on_read_reply
on_read_reply-Reports E cd store disc s follows o plain r h =
    read_entry-Reports E cd store s disc o plain h
on_read_reply-Reports E cd store disc s (refused_with errno) o plain r h =
    fails-Reports E s disc errno o r h
on_read_reply-Reports E cd store disc s hung_up o plain r h =
    fails-Reports E (close s) disc not_connected o (ground arith) h

after_read-Reports :
    (cd : Iconv) (store : Store) (s : Session) (a : Answer) (disc : Disc) (o : Outcome Bool)
    → s.conn.is_http_enabled ≡ false
    → after_read cd store disc (s, a) ≡ value o
    → Reports (eq_ℤ a.code minus_one ≡ true) o
unfolding after_read
after_read-Reports cd store s a disc o plain h = elim (Bool-cases (eq_ℤ a.code minus_one)) [
  | inl e ↦ rw (← value-injective _ o (rw e at h)) (λ t. absurd (grind arith), λ f. inr e)
  | inr e ↦
      on_read_reply-Reports _ cd store disc s (read_reply a.code) o plain
        (read_reply-IsRefusal a.code) (rw e at h)
]

-- What cddb_cache_read says of a connection whose error number is OK.
cache_read-Reports :
    (cd : Iconv) (store : Store) (s : Session) (disc : Disc) (o : Outcome Bool)
    → cache_read cd store s disc ≡ value o
    → (o.result ≡ true → o.session.conn.errnum ≡ ok)
      × (o.session.lines ≡ s.lines)
      × (o.session.conn.socket ≡ s.conn.socket)
      × (o.session.conn.is_http_enabled ≡ s.conn.is_http_enabled)
unfolding cache_read
cache_read-Reports cd store s disc o h =
    elim (Bool-cases (is_off s.conn.use_cache || not (store.exists disc.category disc.discid))) [
      | inl e ↦ rw (← value-injective _ o (rw e at h)) (λ t. absurd (grind arith), refl, refl, refl)
      | inr e ↦ elim (Option-cases (store.contents disc.category disc.discid)) [
        | inl f ↦
            rw (← value-injective _ o (rw (e, f) at h))
              (λ t. absurd (grind arith), refl, refl, refl)
        | inr (bytes, f) ↦
            let (r, g, l) = bind-value _ (from_reading s) o (rw (e, f) at h) in
            rw (← value-injective _ o l) ((is_ok-cases Unit r.errno).0, refl, refl, refl)
      ]
    ]

pub connect-connected :
    (net : Network) (c : Conn) (socket : ℕ)
    → c.socket ≡ some socket
    → connect net c ≡ (with_errno c ok, true)
unfolding connect
connect-connected net c socket connected = rw connected refl

send_cmd-plain :
    (s : Session) (cmd : Command) (socket : ℕ)
    → s.conn.socket ≡ some socket
    → s.conn.is_http_enabled ≡ false
    → send_cmd s cmd
      ≡ (set_errno (sock_printf (sock_printf s (command_text cmd)) (codes "\n")) ok, true)
unfolding send_cmd send_on
send_cmd-plain s cmd socket connected plain = rw (connected, plain) refl

-- What writing to the socket leaves alone.
abbrev Untouched : Session → Session → Type 0
Untouched s t = (t.lines ≡ s.lines) × (t.conn.is_http_enabled ≡ s.conn.is_http_enabled)

sock_printf-Untouched : (s : Session) (text : Bytes) → Untouched s (sock_printf s text)
unfolding sock_printf
sock_printf-Untouched s text = ground arith

sent-Untouched :
    (s : Session) (text : Bytes)
    → Untouched s (set_errno (sock_printf (sock_printf s text) (codes "\n")) ok)
sent-Untouched s text =
    let (l, h) = sock_printf-Untouched s text in
    let (l', h') = sock_printf-Untouched (sock_printf s text) (codes "\n") in (l' ∙ l, h' ∙ h)

pub answer_of-Untouched :
    (s : Session)
    → ((answer_of s).0.conn.is_http_enabled ≡ s.conn.is_http_enabled)
      × ((answer_of s).1 ≡ get_response_code s.conn.errnum (first_line s.lines))
answer_of-Untouched s =
    elim s.lines
      as (λ lines.
        ((answer_of (record s { lines = lines })).0.conn.is_http_enabled ≡ s.conn.is_http_enabled)
        × ((answer_of (record s { lines = lines })).1
            ≡ get_response_code s.conn.errnum (first_line lines))) [
              | [] ↦ (refl, refl)
              | line ∷ lines ↦ (refl, refl)
            ]

read_online-Reports :
    (cd : Iconv) (net : Network) (store : Store) (s : Session) (disc : Disc) (o : Outcome Bool)
    (socket : ℕ)
    → s.conn.socket ≡ some socket
    → s.conn.is_http_enabled ≡ false
    → read_online cd net store s disc ≡ value o
    → Reports (eq_ℤ (get_response_code ok (first_line s.lines)).code minus_one ≡ true) o
unfolding read_online after_sent
read_online-Reports cd net store s disc o socket connected plain h =
    let c = with_errno s.conn ok in
    let (name, e, k) =
      bind-value (name_of disc.category) _ o
        (rw (connect-connected net s.conn socket connected) at h) in
    let start : Session = record s { conn = c } in
    let cmd = read_command name disc.discid in
    let sent : Session =
      set_errno (sock_printf (sock_printf start (command_text cmd)) (codes "\n")) ok in
    let k = rw (send_cmd-plain start cmd socket connected plain) at k in
    let (lines, http) = sent-Untouched start (command_text cmd) in
    let (http', answered) = answer_of-Untouched sent in
    let r =
      after_read-Reports cd store (answer_of sent).0 (answer_of sent).1 disc o
        (http' ∙ http ∙ plain) k in
    subst (λ a. Reports (eq_ℤ a.code minus_one ≡ true) o)
      (answered ∙ ap (λ l. get_response_code ok (first_line l)) lines) r

-- Once the command is sent to a server that does not speak HTTP, cddb_read reports OK exactly when
-- it succeeds.
pub read-Reports :
    (cd : Iconv) (net : Network) (store : Store) (s : Session) (disc : Disc) (o : Outcome Bool)
    (socket : ℕ)
    → s.conn.socket ≡ some socket
    → s.conn.is_http_enabled ≡ false
    → read cd net store s disc ≡ value o
    → Reports (eq_ℤ (get_response_code ok (first_line s.lines)).code minus_one ≡ true) o
unfolding read not_cached
read-Reports cd net store s disc o socket connected plain h =
    elim (Bool-cases (same disc.category invalid || disc.discid == 0)) [
      | inl e ↦ fails-Reports _ s disc data_missing o (ground arith) (rw e at h)
      | inr e ↦
          let (q, f, k) = bind-value (cache_read cd store s disc) _ o (rw e at h) in
          let (good, lines, sock, http) = cache_read-Reports cd store s disc q f in
          elim (Bool-cases q.result) [
            | inl g ↦
                rw (← value-injective q o (rw g at k)) (λ t. good g, λ t. absurd (grind arith))
            | inr g ↦ elim (Bool-cases (is_cache_only q.session.conn.use_cache)) [
              | inl u ↦
                  fails-Reports _ q.session q.disc disc_not_found o (ground arith) (rw (g, u) at k)
              | inr u ↦
                  subst
                    (λ l.
                      Reports (eq_ℤ (get_response_code ok (first_line l)).code minus_one ≡ true) o)
                    lines
                    (read_online-Reports cd net store q.session q.disc o socket (sock ∙ connected)
                      (http ∙ plain) (rw (g, u) at k))
            ]
          ]
    ]
