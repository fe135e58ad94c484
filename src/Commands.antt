-- ===== src/Commands.antt =====
-- The commands of lib/cddb_cmd.c. Their state is here: the connection, the lines that
-- cddb_read_line still gives from the socket, what was written to the socket, which takes all of
-- it, and the result list with its iterator.
pub mod Send
pub mod Read
pub mod Results
pub mod Query
pub mod Write
pub mod Unsent
pub mod Search
pub mod Links
pub mod LinkShape
pub mod SearchPage
pub mod Placed
pub mod Reach
pub mod Stale
pub mod Iterator
pub mod Kept
pub mod Freed
pub mod Errno
pub mod Found
pub mod QueryLine
pub mod Sites
pub mod Offline
pub mod Answers
pub mod Online
use libcddb.Base.{
  ℕ, ltb, leb, ◌==◌, ◌||◌, if◌then◌else◌, Bool, true, false, length, Option, none, some, List, [],
  ◌∷◌, ◌++◌, Bytes,
}
use libcddb.Errors.{ErrorCode, ok, line_size}
use libcddb.Disc.{Disc}
use libcddb.Conn.{Conn}
use libcddb.Conn.Connect.{with_errno}

-- `list->it`: NULL, an element of the list, or one that list_flush has freed.
pub data Cursor : Type 0 where
  nowhere : Cursor
  at : ℕ → Cursor
  freed : Cursor

pub record Session : Type 0 where
  pub conn : Conn
  pub lines : List Bytes
  pub output : Bytes
  pub query_data : List Disc
  pub it : Cursor

abbrev pub set_errno : Session → ErrorCode → Session
set_errno s errno = record s { conn = with_errno s.conn errno }

-- cddb_read_line: a line leaves the error number at OK.
abbrev pub next_line : Session → Session × Option Bytes
next_line s = elim s.lines [
  | [] ↦ (s, none)
  | line ∷ rest ↦ (set_errno (record s { lines = rest }) ok, some line)
]

-- `list_flush(c->query_data)`; the iterator is left as it is.
abbrev pub dangling : Cursor → Cursor
dangling (at i) = freed
dangling it = it

unfoldable pub flush_results : Session → Session
flush_results s = record s { query_data = []; it = dangling s.it }

-- sock_fprintf: a text that does not fit the buffer is not sent.
unfoldable pub sock_printf : Session → Bytes → Session
sock_printf s text =
    if leb s.conn.buf_size (length text)
    then set_errno s line_size
    else record s { output = s.output ++ text }

-- The list of results with its iterator.
abbrev pub results_of : Session → List Disc × Cursor
results_of s = (s.query_data, s.it)
