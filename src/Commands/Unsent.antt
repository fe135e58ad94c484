-- ===== src/Commands/Unsent.antt =====
-- What cddb_send_cmd of lib/cddb_cmd.c does with a command that is too long for its buffer.
use libcddb.Base.{ℕ, ◌<◌, ◌≤◌, ◌≡◌, arith, leb, true, false, some, ◌++◌, length, codes}
use libcddb.Errors.{ok}
use libcddb.Commands.{Session, sock_printf, set_errno}
use libcddb.Commands.Send.{send_on, Command, command_text, send_cmd}

-- Over CDDBP a command that does not fit the line buffer is left out, only the line feed behind it
-- is sent, and cddb_send_cmd returns TRUE with the error number OK.
pub send_cmd-long :
    (s : Session) (cmd : Command) (socket : ℕ)
    → s.conn.socket ≡ some socket
    → s.conn.is_http_enabled ≡ false
    → s.conn.buf_size ≤ length (command_text cmd)
    → 1 < s.conn.buf_size
    → send_cmd s cmd ≡ (set_errno (record s { output = s.output ++ codes "\n" }) ok, true)
unfolding send_cmd send_on sock_printf
send_cmd-long s cmd socket connected plain long room =
    let too_long : leb s.conn.buf_size (length (command_text cmd)) ≡ true = ground arith in
    let fits : leb s.conn.buf_size 1 ≡ false = ground arith in rw (connected, plain, too_long, fits)
