-- ===== src/Commands/Kept.antt =====
-- cddb_read and cddb_write leave the results of a query alone, lib/cddb_cmd.c.
pub mod Submit
use libcddb.Base.{
  drop, length, suc, ◌≡◌, ◌∙◌, refl, sym, ap, arith, inl, inr, Bool-cases, Option-cases, Bool, true,
  false, none, some, ◌||◌, ◌==◌, not, List, [], ◌∷◌, Bytes, ℤ, eq_ℤ, minus_one, ℕ, Option, Run,
  value, ◌>>=◌, bind-value, value-injective, if◌then◌else◌,
}
use libcddb.Errors.{is_ok, ErrorCode, not_connected}
use libcddb.Charset.{Iconv}
use libcddb.Category.{Category, same, invalid}
use libcddb.Cache.{is_off}
use libcddb.Cache.Lines.{cached_lines}
use libcddb.Disc.{Disc}
use libcddb.Record.Loop.{Reading, parse_record, parser_start, read_lines}
use libcddb.Response.{Answer}
use libcddb.Conn.Connect.{Network, connect}
use libcddb.Commands.{Session, results_of, set_errno}
use libcddb.Commands.Send.{send_cmd, read as read_command}
use libcddb.Commands.Iterator.{send_cmd-results}
use libcddb.Commands.Read.{
  Store, Outcome, leaves, fails, cache_read, from_reading, is_cache_only, Reply, follows,
  refused_with, hung_up, on_read_reply, read_entry, read_done, after_read, read_reply, after_sent,
  answer_of, read_online, not_cached, read, close, close_http, network_side, cached_side, name_of,
}

abbrev pub Keeps {ℓ} : {A : Type ℓ} → Session → Run (Outcome A) → Type ℓ
Keeps {A} s run = (o : Outcome A) → run ≡ value o → results_of o.session ≡ results_of s

pub leaves-Keeps {ℓ} :
    {A : Type ℓ} (s t : Session) (disc : Disc) (a : A)
    → results_of s ≡ results_of t
    → Keeps t (leaves s disc a)
leaves-Keeps s t disc a e o h = ap (λ o. results_of o.session) (sym (value-injective _ o h)) ∙ e

pub bind-Keeps {ℓ κ} :
    {A : Type ℓ} {B : Type κ} (s : Session) (r : Run A) (f : A → Run (Outcome B))
    → ((a : A) → r ≡ value a → Keeps s (f a))
    → Keeps s (r >>= f)
bind-Keeps s r f each o h = let (a, e, k) = bind-value r f o h in each a e o k

pub if-Keeps {ℓ} :
    {A : Type ℓ} (s : Session) (b : Bool) (r r' : Run (Outcome A))
    → Keeps s r
    → Keeps s r'
    → Keeps s (if b then r else r')
if-Keeps s true r r' h k = h
if-Keeps s false r r' h k = k

pub Keeps-from {ℓ} :
    {A : Type ℓ} (s t : Session) (r : Run (Outcome A))
    → results_of t ≡ results_of s
    → Keeps t r
    → Keeps s r
Keeps-from s t r e h o k = h o k ∙ e

pub answer_of-results : (s : Session) → results_of (answer_of s).0 ≡ results_of s
answer_of-results s = ground arith

pub close_http-results : (s : Session) → results_of (close_http s) ≡ results_of s
close_http-results s = ground arith

read_done-Keeps : (s : Session) (lines : List Bytes) (r : Reading) → Keeps s (read_done s lines r)
unfolding read_done
read_done-Keeps s lines r =
    let t : Session = set_errno (record s { lines = drop (length lines) s.lines }) r.errno in
    leaves-Keeps (close_http t) s r.disc (is_ok r.errno) (close_http-results t)

read_entry-Keeps :
    (cd : Iconv) (store : Store) (s : Session) (disc : Disc) → Keeps s (read_entry cd store s disc)
unfolding read_entry
read_entry-Keeps cd store s disc = bind-Keeps s (read_lines s.lines (parser_start disc)) _ λ p _.
    bind-Keeps s (parse_record cd (network_side store s disc) s.lines disc) (read_done s p.0)
      λ r _. read_done-Keeps s p.0 r

on_read_reply-Keeps :
    (cd : Iconv) (store : Store) (disc : Disc) (s : Session) (reply : Reply)
    → Keeps s (on_read_reply cd store disc s reply)
unfolding on_read_reply
on_read_reply-Keeps cd store disc s follows = read_entry-Keeps cd store s disc
on_read_reply-Keeps cd store disc s (refused_with errno) = leaves-Keeps _ s disc false refl
on_read_reply-Keeps cd store disc s hung_up = leaves-Keeps _ s disc false refl

after_sent-Keeps :
    (cd : Iconv) (store : Store) (disc : Disc) (s : Session) (sent : Session × Bool)
    → results_of sent.0 ≡ results_of s
    → Keeps s (after_sent cd store disc sent)
unfolding after_sent after_read
after_sent-Keeps cd store disc s (t, false) e = leaves-Keeps t s disc false e
after_sent-Keeps cd store disc s (t, true) e =
    let (u, a) = answer_of t in
    Keeps-from s u _ (answer_of-results t ∙ e) (
      if-Keeps u (eq_ℤ a.code minus_one) _ _ (leaves-Keeps u u disc false refl)
        (on_read_reply-Keeps cd store disc u (read_reply a.code)))

read_online-Keeps :
    (cd : Iconv) (net : Network) (store : Store) (s : Session) (disc : Disc)
    → Keeps s (read_online cd net store s disc)
unfolding read_online
read_online-Keeps cd net store s disc =
    let t : Session = record s { conn = (connect net s.conn).0 } in
    if-Keeps s (not (connect net s.conn).1) _ _ (leaves-Keeps t s disc false refl) (
      bind-Keeps s (name_of disc.category)
        (λ name. after_sent cd store disc (send_cmd t (read_command name disc.discid)))
        λ name _.
          after_sent-Keeps cd store disc s (send_cmd t (read_command name disc.discid))
            (send_cmd-results t (read_command name disc.discid)))

-- The file of the cache, if it can be opened.
from_file-Keeps :
    (cd : Iconv) (s : Session) (disc : Disc) (contents : Option Bytes)
    → Keeps s (elim contents [
      | none ↦ leaves s disc false
      | some bytes ↦
          parse_record cd
            (cached_side s.conn.use_cache)
            (cached_lines (suc (length bytes)) s.conn.buf_size bytes)
            disc
          >>= from_reading s
    ])
from_file-Keeps cd s disc none = leaves-Keeps s s disc false refl
from_file-Keeps cd s disc (some bytes) =
    bind-Keeps s
      (parse_record cd (cached_side s.conn.use_cache)
        (cached_lines (suc (length bytes)) s.conn.buf_size bytes) disc)
      (from_reading s) λ r _. leaves-Keeps (set_errno s r.errno) s r.disc (is_ok r.errno) refl

cache_read-Keeps :
    (cd : Iconv) (store : Store) (s : Session) (disc : Disc) → Keeps s (cache_read cd store s disc)
unfolding cache_read
cache_read-Keeps cd store s disc =
    if-Keeps s (is_off s.conn.use_cache || not (store.exists disc.category disc.discid)) _ _
      (leaves-Keeps s s disc false refl)
      (from_file-Keeps cd s disc (store.contents disc.category disc.discid))

pub read-Keeps :
    (cd : Iconv) (net : Network) (store : Store) (s : Session) (disc : Disc)
    → Keeps s (read cd net store s disc)
unfolding read not_cached
read-Keeps cd net store s disc =
    if-Keeps s (same disc.category invalid || disc.discid == 0) _ _
      (leaves-Keeps _ s disc false refl)
      (bind-Keeps s (cache_read cd store s disc) _ λ q e.
        Keeps-from s q.session _ (cache_read-Keeps cd store s disc q e) (
          if-Keeps q.session q.result _ _ (leaves-Keeps q.session q.session q.disc q.result refl) (
            if-Keeps q.session (is_cache_only q.session.conn.use_cache) _ _
              (leaves-Keeps _ q.session q.disc false refl)
              (read_online-Keeps cd net store q.session q.disc))))
