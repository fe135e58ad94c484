-- ===== src/Commands/Kept/Submit.antt =====
-- cddb_write leaves the results of a query alone, lib/cddb_cmd.c.
use libcddb.Base.{
  ◌++◌, codes, ap, sym, value-injective, ℕ, ◌≡◌, ◌∙◌, refl, Bool, true, false, not, none, some,
  Option, Bytes, ℤ, eq_ℤ, minus_one, Run, value, bind-value, if◌then◌else◌,
}
use libcddb.Errors.{not_connected}
use libcddb.Charset.{Iconv}
use libcddb.Category.{Category}
use libcddb.Disc.{Disc}
use libcddb.Disc.Convert.{disc_iconv}
use libcddb.Submission.{write_data}
use libcddb.Conn.Connect.{Network, connect}
use libcddb.Commands.{Session, results_of, sock_printf}
use libcddb.Commands.Send.{send_cmd, http_parse_headers, write as write_command}
use libcddb.Commands.Iterator.{
  if-results, send_cmd-results, sock_printf-results, http_parse_headers-results,
}
use libcddb.Commands.Read.{Store, Outcome, fails, answer_of, close, is_cache_only, name_of}
use libcddb.Commands.Write.{
  Written, WriteReply, accepted, hung_up, refused_with, with_file, on_reply, command_reply,
  data_reply, send_text, send_data, bytes_of, after_command, submit, submit_online, cache_entry,
  create_entry, on_lacking, checked_write, lacking_track, lacks_data, has_default_email, write,
}
use libcddb.Commands.Kept.{
  Keeps, leaves-Keeps, bind-Keeps, if-Keeps, Keeps-from, answer_of-results, close_http-results,
}

replied-Keeps :
    (s t : Session) (disc : Disc) (reply : WriteReply) (further : Run (Outcome Bool))
    → results_of t ≡ results_of s
    → Keeps s further
    → Keeps s (elim reply [
      | accepted ↦ further
      | hung_up ↦ fails (close t) disc not_connected
      | refused_with errno ↦ fails t disc errno
    ])
replied-Keeps s t disc accepted further e h = h
replied-Keeps s t disc hung_up further e h = leaves-Keeps _ s disc false e
replied-Keeps s t disc (refused_with errno) further e h = leaves-Keeps _ s disc false e

on_reply-Keeps :
    (reply : ℤ → WriteReply) (s : Session) (disc : Disc) (rest : Session → Run (Outcome Bool))
    → ((t : Session) → Keeps t (rest t))
    → Keeps s (on_reply reply s disc rest)
unfolding on_reply
on_reply-Keeps reply s disc rest each =
    let (t, a) = answer_of s in
    if-Keeps s (eq_ℤ a.code minus_one) _ _ (leaves-Keeps t s disc false (answer_of-results s)) (
      replied-Keeps s t disc (reply a.code) (rest t) (answer_of-results s)
        (Keeps-from s t (rest t) (answer_of-results s) (each t)))

send_text-Keeps : (s : Session) (disc : Disc) (text : Bytes) → Keeps s (send_text s disc text)
unfolding send_text
send_text-Keeps s disc text =
    let sent : Session = record s { output = s.output ++ text } in
    let t : Session =
      if s.conn.is_http_enabled then http_parse_headers sent else sock_printf sent (codes ".\n") in
    let kept : results_of t ≡ results_of s =
      if-results s.conn.is_http_enabled _ _ s (http_parse_headers-results sent)
        (sock_printf-results sent (codes ".\n")) in
    Keeps-from s t _ kept
      (on_reply-Keeps data_reply t disc _ λ u. leaves-Keeps _ u disc true (close_http-results u))

send_data-Keeps : (s : Session) (disc : Disc) (text : Run Bytes) → Keeps s (send_data s disc text)
unfolding send_data
send_data-Keeps s disc text = bind-Keeps s text (send_text s disc) λ t _. send_text-Keeps s disc t

after_command-Keeps :
    (disc : Disc) (text : Run Bytes) (s : Session) (sent : Session × Bool)
    → results_of sent.0 ≡ results_of s
    → Keeps s (after_command disc text sent)
unfolding after_command
after_command-Keeps disc text s (t, false) e = leaves-Keeps t s disc false e
after_command-Keeps disc text s (t, true) e = Keeps-from s t _ e (
    if-Keeps t t.conn.is_http_enabled _ _ (send_data-Keeps t disc text)
      (on_reply-Keeps command_reply t disc _ λ u. send_data-Keeps u disc text))

submit-Keeps :
    (net : Network) (s : Session) (disc : Disc) (text : Run Bytes) (size : ℕ)
    → Keeps s (submit_online net s disc text size)
unfolding submit_online submit
submit-Keeps net s disc text size =
    let t : Session = record s { conn = (connect net s.conn).0 } in
    if-Keeps s (is_cache_only s.conn.use_cache) _ _ (leaves-Keeps _ s disc true refl) (
      if-Keeps s (not (connect net s.conn).1) _ _ (leaves-Keeps t s disc false refl) (
        bind-Keeps s (name_of disc.category)
          (λ name. after_command disc text (send_cmd t (write_command name disc.discid size)))
          λ name _.
            after_command-Keeps disc text s (send_cmd t (write_command name disc.discid size))
              (send_cmd-results t (write_command name disc.discid size))))

-- The same of what is written, with the file of the cache.
abbrev pub KeepsWritten : Session → Run Written → Type 0
KeepsWritten s run = (o : Written) → run ≡ value o → results_of o.0.session ≡ results_of s

with_file-Keeps :
    (s : Session) (file : Option Bytes) (r : Run (Outcome Bool))
    → Keeps s r
    → KeepsWritten s (with_file file r)
with_file-Keeps s file r kept o h =
    let (q, e, k) = bind-value r (λ q. value (q, file)) o h in
    ap (λ (w : Written). results_of w.0.session) (sym (value-injective (q, file) o k)) ∙ kept q e

if-KeepsWritten :
    (s : Session) (b : Bool) (r r' : Run Written)
    → KeepsWritten s r
    → KeepsWritten s r'
    → KeepsWritten s (if b then r else r')
if-KeepsWritten s true r r' h k = h
if-KeepsWritten s false r r' h k = k

create_entry-Keeps :
    (net : Network) (store : Store) (can_mkdir : Category → Bool) (buf : Bytes) (s : Session)
    (disc : Disc)
    → KeepsWritten s (create_entry net store can_mkdir buf s disc)
unfolding create_entry
create_entry-Keeps net store can_mkdir buf s disc o h =
    let ((contents, size, d), _, k) = bind-value (write_data s.conn buf disc) _ o h in
    let (file, _, l) =
      bind-value (cache_entry store can_mkdir s d (bytes_of size contents)) _ o k in
    with_file-Keeps s file _ (submit-Keeps net s d (bytes_of size contents) size) o l

on_lacking-Keeps :
    (cd : Iconv) (net : Network) (store : Store) (can_mkdir : Category → Bool) (buf : Bytes)
    (s : Session) (disc : Disc) (lacking : Option ℕ)
    → KeepsWritten s (on_lacking cd net store can_mkdir buf s disc lacking)
unfolding on_lacking
on_lacking-Keeps cd net store can_mkdir buf s disc (some i) =
    with_file-Keeps s none _ (leaves-Keeps _ s (record disc { iterator = some i }) false refl)
on_lacking-Keeps cd net store can_mkdir buf s disc none =
    let (d, good) = disc_iconv cd (record disc { iterator = none }) in
    if-KeepsWritten s good _ _ (create_entry-Keeps net store can_mkdir buf s d)
      (with_file-Keeps s none _ (leaves-Keeps _ s d false refl))

pub write-Keeps :
    (cd : Iconv) (net : Network) (store : Store) (can_mkdir : Category → Bool) (buf : Bytes)
    (s : Session) (disc : Disc)
    → KeepsWritten s (write cd net store can_mkdir buf s disc)
unfolding write checked_write
write-Keeps cd net store can_mkdir buf s disc =
    if-KeepsWritten s (has_default_email s.conn) _ _
      (with_file-Keeps s none _ (leaves-Keeps _ s disc false refl))
      (if-KeepsWritten s (lacks_data disc) _ _
        (with_file-Keeps s none _ (leaves-Keeps _ s disc false refl))
        (on_lacking-Keeps cd net store can_mkdir buf s disc (lacking_track 0 disc.tracks)))
