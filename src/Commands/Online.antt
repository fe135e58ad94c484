-- ===== src/Commands/Online.antt =====
-- What cddb_write of lib/cddb_cmd.c sends over CDDBP.
use libcddb.Base.{
  unlines, ℕ, ◌<◌, ◌≡◌, refl, arith, leb, Bool, true, false, length, none, some, List, ◌∷◌, ◌++◌,
  Bytes, codes, pos, eq_ℤ, value,
}
use libcddb.Errors.{ok}
use libcddb.Charset.{Iconv}
use libcddb.Category.{Category, category_name}
use libcddb.Cache.{cache_off, is_off}
use libcddb.Disc.{Disc}
use libcddb.Disc.Convert.{disc_iconv}
use libcddb.Response.{get_response_code}
use libcddb.Submission.Exact.{IsSized}
use libcddb.Submission.Lines.{entry_lines}
use libcddb.Submission.Written.{IsComplete, write_data-entry}
use libcddb.Conn.Connect.{Network}
use libcddb.Commands.{Session, sock_printf, set_errno}
use libcddb.Commands.Errno.{connect-connected, first_line}
use libcddb.Commands.Answers.{bytes_of-append, Comes, after_command-Comes}
use libcddb.Commands.Send.{Command, send_on, command_text, send_cmd, write as write_command}
use libcddb.Commands.Read.{is_cache_only, Store, Outcome, name_of}
use libcddb.Commands.Write.{
  submit, submit_online, cache_entry, create_entry, on_lacking, checked_write, lacking_track,
  lacks_data, has_default_email, write,
}

send_cmd-short :
    (s : Session) (cmd : Command) (socket : ℕ)
    → s.conn.socket ≡ some socket
    → s.conn.is_http_enabled ≡ false
    → length (command_text cmd) < s.conn.buf_size
    → 1 < s.conn.buf_size
    → send_cmd s cmd
      ≡ (set_errno (record s { output = s.output ++ command_text cmd ++ codes "\n" }) ok, true)
unfolding send_cmd send_on sock_printf
send_cmd-short s cmd socket connected plain short room =
    let fits : leb s.conn.buf_size (length (command_text cmd)) ≡ false = ground arith in
    let fits_too : leb s.conn.buf_size 1 ≡ false = ground arith in
    simp (connected, plain, fits, fits_too) refl

submit-Comes :
    (net : Network) (s : Session) (disc : Disc) (text name ready msg : Bytes) (size socket : ℕ)
    (rest : List Bytes)
    → s.conn.socket ≡ some socket
    → s.conn.is_http_enabled ≡ false
    → category_name disc.category ≡ some name
    → length (command_text (write_command name disc.discid size)) < s.conn.buf_size
    → 2 < s.conn.buf_size
    → get_response_code ok (some ready) ≡ record { errno = ok; code = pos 320; msg = msg }
    → Comes
        (s.output
          ++ command_text (write_command name disc.discid size)
          ++ codes "\n"
          ++ text
          ++ codes ".\n")
        (eq_ℤ (get_response_code ok (first_line rest)).code (pos 200))
        (submit net (record s { lines = ready ∷ rest }) disc (value text) size)
unfolding submit
submit-Comes net s disc text name ready msg size socket rest connected plain e short room reply =
    let cmd = write_command name disc.discid size in
    let t : Session =
      set_errno (record s { output = s.output ++ command_text cmd ++ codes "\n" }) ok in
    let named : name_of disc.category ≡ value name = rw (name_of, e) refl in
    let sent =
      send_cmd-short (set_errno (record s { lines = ready ∷ rest }) ok) cmd socket connected plain
        short (omega arith) in
    let (o, k, out, result) = after_command-Comes t disc text ready msg rest plain room reply in
    (o, rw (connect-connected net s.conn socket connected, named, sent) k, out, result)

create_entry-Comes :
    (net : Network) (store : Store) (can_mkdir : Category → Bool) (buf : Bytes) (s : Session)
    (sent : Disc) (output : Bytes) (result : Bool)
    → s.conn.use_cache ≡ cache_off
    → IsComplete sent
    → IsSized sent
    → length (unlines (entry_lines s.conn sent)) < length buf
    → Comes output result (
        submit net s
          (record sent { iterator = none })
          (value (unlines (entry_lines s.conn sent)))
          (length (unlines (entry_lines s.conn sent))))
    → (o : Outcome Bool) × (create_entry net store can_mkdir buf s sent ≡ value (o, none))
      × (o.session.output ≡ output)
      × (o.result ≡ result)
unfolding create_entry cache_entry submit_online
create_entry-Comes net store can_mkdir buf s sent output result mode complete sized room
      (o, e, out, same) =
    let (left, _, w) = write_data-entry s.conn buf sent complete sized room in
    let off : is_off s.conn.use_cache ≡ true = rw mode refl in
    let online : is_cache_only s.conn.use_cache ≡ false = rw mode refl in
    (
      o,
      rw (w, bytes_of-append (unlines (entry_lines s.conn sent)) left, off, online, e) refl,
      out,
      same,
    )

-- A submission over CDDBP, without the cache, on a connection with a socket and an address of
-- its own, of a disc that lacks nothing and is converted to one with an artist, a category with
-- a name, at most 20 tracks, a length below 10^6, a revision below 10^8, a year that is 0 or
-- has four digits, and offsets below 10^8, whose entry is shorter than the buffer, with a
-- command that is shorter than the line buffer, which has more than two bytes: when the server
-- answers the command with 320, exactly the command, the entry and a dot on a line of its own
-- are sent, each once and in this order, whatever the server answers then; and cddb_write
-- returns TRUE exactly when that answer has the code 200.
pub write-sends :
    (to : Iconv) (net : Network) (store : Store) (can_mkdir : Category → Bool) (buf : Bytes)
    (s : Session) (disc sent : Disc) (name ready msg : Bytes) (rest : List Bytes) (socket : ℕ)
    → s.conn.use_cache ≡ cache_off
    → s.conn.is_http_enabled ≡ false
    → s.conn.socket ≡ some socket
    → has_default_email s.conn ≡ false
    → lacks_data disc ≡ false
    → lacking_track 0 disc.tracks ≡ none
    → disc_iconv to (record disc { iterator = none }) ≡ (sent, true)
    → IsComplete sent
    → IsSized sent
    → length (unlines (entry_lines s.conn sent)) < length buf
    → category_name sent.category ≡ some name
    → length
        (command_text (write_command name sent.discid (length (unlines (entry_lines s.conn sent)))))
      < s.conn.buf_size
    → 2 < s.conn.buf_size
    → get_response_code ok (some ready) ≡ record { errno = ok; code = pos 320; msg = msg }
    → (o : Outcome Bool) × (write to net store can_mkdir buf
          (record s { lines = ready ∷ rest })
          disc
        ≡ value (o, none))
      × (o.session.output
          ≡ s.output
            ++ command_text
                (write_command name sent.discid (length (unlines (entry_lines s.conn sent))))
            ++ codes "\n"
            ++ unlines (entry_lines s.conn sent)
            ++ codes ".\n")
      × (o.result ≡ eq_ℤ (get_response_code ok (first_line rest)).code (pos 200))
unfolding write checked_write on_lacking
write-sends to net store can_mkdir buf s disc sent name ready msg rest socket mode plain connected
      email whole tracks conv complete sized room e short size reply =
    let text = unlines (entry_lines s.conn sent) in
    let (o, k, out, result) =
      create_entry-Comes net store can_mkdir buf (record s { lines = ready ∷ rest }) sent _ _ mode
        complete sized room
        (submit-Comes net s (record sent { iterator = none }) text name ready msg (length text)
          socket rest connected plain e short size reply) in
    (o, rw (email, whole, tracks, conv) k, out, result)
