-- ===== src/Commands/Write.antt =====
-- cddb_write of lib/cddb_cmd.c. What the stack has in its buffer is a parameter.
use libcddb.Base.{
  leb, length, is_null, ℕ, suc, ◌==◌, ◌||◌, not, if◌then◌else◌, Bool, true, false, take, Option,
  none, some, List, [], ◌∷◌, ◌++◌, Bytes, codes, ℤ, pos, minus_one, eq_ℤ, str_eq, Run, value, fault,
  ◌>>=◌,
}
use libcddb.Errors.{
  ErrorCode, ok, data_missing, email_invalid, iconv_fail, permission_denied, not_connected, unknown,
  rejected,
}
use libcddb.Charset.{Iconv}
use libcddb.Category.{Category, invalid, same}
use libcddb.Cache.{is_off}
use libcddb.Track.{Track}
use libcddb.Disc.{Disc}
use libcddb.Disc.Convert.{disc_iconv}
use libcddb.Submission.{write_data}
use libcddb.Conn.{Conn, default_user, default_host}
use libcddb.Conn.Connect.{Network, connect}
use libcddb.Commands.{Session, set_errno, sock_printf}
use libcddb.Commands.Send.{write as write_command, send_cmd, http_parse_headers}
use libcddb.Commands.Read.{
  Store, Outcome, leaves, fails, name_of, answer_of, close, close_http, is_cache_only,
}

abbrev pub write_buf_size : ℕ
write_buf_size = 4096

-- What is written: the outcome and the file of the cache, if one was.
abbrev pub Written : Type 0
Written = Outcome Bool × Option Bytes

-- The default address, of which cddb_write takes no part.
unfoldable pub has_default_email : Conn → Bool
unfolding str_eq
has_default_email c = str_eq c.user default_user || str_eq c.hostname default_host

unfoldable pub lacks_data : Disc → Bool
lacks_data disc =
    disc.discid == 0
    || same disc.category invalid
    || disc.length == 0
    || disc.track_cnt == 0
    || is_null disc.artist
    || is_null disc.title

-- The loop over the tracks stops at the first one that lacks something; `i` is its position.
unfoldable pub lacking_track : ℕ → List Track → Option ℕ
lacking_track i [] = none
lacking_track i (t ∷ ts) =
    let later = lacking_track (suc i) ts in
    if eq_ℤ t.frame_offset minus_one || is_null t.title then some i else later

abbrev pub with_file {ℓ} : {A : Type ℓ} → Option Bytes → Run A → Run (A × Option Bytes)
with_file file o = do o ← o; value (o, file)

-- What a response code means to cddb_write, to the command and to the data.
pub data WriteReply : Type 0 where
  accepted hung_up : WriteReply
  refused_with : ErrorCode → WriteReply

unfoldable pub command_reply : ℤ → WriteReply
command_reply code =
    if eq_ℤ code (pos 320)
    then accepted
    else if eq_ℤ code (pos 401) || eq_ℤ code (pos 402) || eq_ℤ code (pos 501)
    then refused_with permission_denied
    else if eq_ℤ code (pos 409) || eq_ℤ code (pos 530)
    then hung_up
    else refused_with unknown

unfoldable pub data_reply : ℤ → WriteReply
data_reply code =
    if eq_ℤ code (pos 200)
    then accepted
    else if eq_ℤ code (pos 401) || eq_ℤ code (pos 500) || eq_ℤ code (pos 501)
    then refused_with rejected
    else if eq_ℤ code (pos 530)
    then hung_up
    else refused_with unknown

-- A response code on the next line, and the rest of the function where it is accepted.
unfoldable pub on_reply :
    (ℤ → WriteReply) → Session → Disc → (Session → Run (Outcome Bool)) → Run (Outcome Bool)
on_reply reply s disc rest =
    let (s, a) = answer_of s in
    let further = rest s in
    if eq_ℤ a.code minus_one then leaves s disc false else elim (reply a.code) [
      | accepted ↦ further
      | hung_up ↦ fails (close s) disc not_connected
      | refused_with errno ↦ fails s disc errno
    ]

-- The first `size` bytes of a buffer; to read behind its end is a fault.
abbrev pub bytes_of : ℕ → Bytes → Run Bytes
bytes_of size buf = if leb size (length buf) then value (take size buf) else fault

-- The data and the end of it, and the answer to them.
unfoldable pub send_text : Session → Disc → Bytes → Run (Outcome Bool)
send_text s disc text =
    let s = record s { output = s.output ++ text } in
    let s = if s.conn.is_http_enabled then http_parse_headers s else sock_printf s (codes ".\n") in
    on_reply data_reply s disc λ s. leaves (set_errno (close_http s) ok) disc true

unfoldable pub send_data : Session → Disc → Run Bytes → Run (Outcome Bool)
unfolding send_text
send_data s disc text = text >>= send_text s disc

-- Behind the command; over HTTP there is no answer to it.
unfoldable pub after_command : Disc → Run Bytes → Session × Bool → Run (Outcome Bool)
after_command disc text (s, false) = leaves s disc false
after_command disc text (s, true) =
    if s.conn.is_http_enabled
    then send_data s disc text
    else on_reply command_reply s disc λ s. send_data s disc text

unfoldable pub submit : Network → Session → Disc → Run Bytes → ℕ → Run (Outcome Bool)
submit net s disc text size =
    let (c, good) = connect net s.conn in
    let s = record s { conn = c } in
    if not good then leaves s disc false else do
      name ← name_of disc.category
      after_command disc text (send_cmd s (write_command name disc.discid size))

abbrev pub written_file : Bool → Run Bytes → Run (Option Bytes)
written_file true text = do text ← text; value (some text)
written_file false text = fault

-- The file that is written where the directory can be made and the file opened; `fwrite` to NULL is
-- a fault.
unfoldable pub cache_entry :
    Store → (Category → Bool) → Session → Disc → Run Bytes → Run (Option Bytes)
cache_entry store can_mkdir s disc text = if is_off s.conn.use_cache then value none else do
  name ← name_of disc.category
  if not (can_mkdir disc.category)
      then value none
      else written_file (store.writable disc.category disc.discid) text

-- Without network access the entry is only kept in the cache.
unfoldable pub submit_online : Network → Session → Disc → Run Bytes → ℕ → Run (Outcome Bool)
submit_online net s disc text size =
    if is_cache_only s.conn.use_cache
    then leaves (set_errno s ok) disc true
    else submit net s disc text size

-- From the conversion on, with the buffer of the stack.
unfoldable pub create_entry :
    Network → Store → (Category → Bool) → Bytes → Session → Disc → Run Written
create_entry net store can_mkdir buf s disc = do
  (contents, size, disc) ← write_data s.conn buf disc
  file ← cache_entry store can_mkdir s disc (bytes_of size contents)
  with_file file (submit_online net s disc (bytes_of size contents) size)

-- With the position of the track that lacks something, at which the iterator stays.
unfoldable pub on_lacking :
    Iconv → Network → Store → (Category → Bool) → Bytes → Session → Disc → Option ℕ → Run Written
on_lacking cd net store can_mkdir buf s disc (some i) =
    with_file none (fails s (record disc { iterator = some i }) data_missing)
on_lacking cd net store can_mkdir buf s disc none =
    let (disc, good) = disc_iconv cd (record disc { iterator = none }) in
    if good
    then create_entry net store can_mkdir buf s disc
    else with_file none (fails s disc iconv_fail)

unfoldable pub checked_write :
    Iconv → Network → Store → (Category → Bool) → Bytes → Session → Disc → Run Written
checked_write cd net store can_mkdir buf s disc =
    on_lacking cd net store can_mkdir buf s disc (lacking_track 0 disc.tracks)

-- `cd` is `c->charset->cd_to_freedb`.
unfoldable pub write :
    Iconv → Network → Store → (Category → Bool) → Bytes → Session → Disc → Run Written
write cd net store can_mkdir buf s disc =
    if has_default_email s.conn
    then with_file none (fails s disc email_invalid)
    else if lacks_data disc
    then with_file none (fails s disc data_missing)
    else checked_write cd net store can_mkdir buf s disc
