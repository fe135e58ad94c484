-- ===== src/Net.antt =====
-- sock_fgets and sock_fwrite of lib/cddb_net.c and cddb_read_line of lib/cddb_cmd.c. What the
-- clock, select, recv and send do is an explicit sequence of events, one a round of the loop; at
-- its end the time is up.
pub mod Lines
pub mod Writes
pub mod Timeouts
use libcddb.Base.{
  wrap_int, ℕ, zero, suc, ◌+◌, ◌-◌, ◌^◌, ◌%◌, ◌/◌, ◌||◌, ◌==◌, Bool, true, false, length, ◌+ℤ◌,
  if◌then◌else◌, Option, none, some, List, [], ◌∷◌, ◌++◌, ℤ, pos, negsuc, ◌-ℤ◌, take, drop, Bytes,
  CString, Run, value, fault, ◌>>=◌,
}

-- A round of sock_fgets: the time is up or the socket not ready, recv fails, the stream is at its
-- end, or there is a byte.
pub data Read : Type 0 where
  not_readable recv_error end_of_stream : Read
  byte : ℕ → Read

abbrev pub line_feed : ℕ
line_feed = b'\n'

abbrev pub carriage_return : ℕ
carriage_return = b'\r'

abbrev more_of : ℕ → CString × List Read → CString × List Read
more_of c (none, rest) = (none, rest)
more_of c (some s, rest) = (some (c ∷ s), rest)

-- The loop with room for `n` bytes: what was read, or NULL, and the events that are left.
unfoldable pub fgets_loop : ℕ → List Read → CString × List Read
fgets_loop zero es = (some [], es)
fgets_loop (suc n) [] = (none, [])
fgets_loop (suc n) (not_readable ∷ es) = (none, es)
fgets_loop (suc n) (recv_error ∷ es) = (none, es)
fgets_loop (suc n) (end_of_stream ∷ es) = (some [], es)
fgets_loop (suc n) (byte c ∷ es) =
    let later = fgets_loop n es in
    elim (c == line_feed) [ true ↦ (some (c ∷ []), es) | false ↦ more_of c later ]

-- Nothing that was read is NULL.
abbrev pub null_if_empty : CString → CString
null_if_empty (some []) = none
null_if_empty s = s

unfoldable pub sock_fgets : ℕ → List Read → CString × List Read
unfolding fgets_loop
sock_fgets size es = let (s, rest) = fgets_loop (size - 1) es in (null_if_empty s, rest)

abbrev is_terminator : ℕ → Bool
is_terminator c = c == line_feed || c == carriage_return

abbrev before_rest : ℕ → Bytes → Bytes
before_rest c [] = if is_terminator c then [] else c ∷ []
before_rest c (r ∷ rest) = c ∷ r ∷ rest

-- The string up to the first NUL, without the line terminators at its end.
unfoldable pub strip : Bytes → Bytes
strip [] = []
strip (c ∷ s) = let rest = strip s in if c == 0 then [] else before_rest c rest

abbrev pub strip_line : CString → CString
strip_line none = none
strip_line (some s) = some (strip s)

-- cddb_read_line from the socket, with the connection's buffer size.
unfoldable pub read_line : ℕ → List Read → CString × List Read
unfolding sock_fgets strip
read_line buf_size es = let (s, rest) = sock_fgets buf_size es in (strip_line s, rest)

-- A round of sock_fwrite: the time is up or the socket not ready, send fails, it would block, or
-- it takes some bytes.
pub data Write : Type 0 where
  not_writable send_error would_block : Write
  takes : ℕ → Write

-- What send reads from position `p` on; before the buffer that is a fault.
abbrev sent_from : Bytes → ℤ → ℕ → Run Bytes
sent_from buf (pos p) n = value (take n (drop p buf))
sent_from buf (negsuc p) n = fault

abbrev pub prepend_sent : Bytes → Bytes × ℕ → Run (Bytes × ℕ)
prepend_sent out (more, left) = value (out ++ more, left)

-- The loop at position `p` with `to_send` bytes to go: the bytes that went out, and `to_send` at
-- the end. `rv` is an `int`, to which send's result is cut; where it would block that is -1. Both
-- are moved by it. A count that is cut to -1 is taken to go on like one that would block.
unfoldable pub fwrite_loop : Bytes → ℤ → ℕ → List Write → Run (Bytes × ℕ)
fwrite_loop buf p to_send [] = value ([], to_send)
fwrite_loop buf p zero (e ∷ es) = value ([], zero)
fwrite_loop buf p (suc to_send) (not_writable ∷ es) = value ([], suc to_send)
fwrite_loop buf p (suc to_send) (send_error ∷ es) =
    sent_from buf p 0 >>= λ out. value (out, suc to_send)
fwrite_loop buf p (suc to_send) (would_block ∷ es) = do
  out ← sent_from buf p 0
  fwrite_loop buf (p -ℤ pos 1) (suc (suc to_send)) es
fwrite_loop buf p (suc to_send) (takes n ∷ es) = do
  out ← sent_from buf p n
  later ← elim (wrap_int (pos n)) [
    | pos m ↦ fwrite_loop buf (p +ℤ pos m) (suc to_send - m) es
    | negsuc k ↦ fwrite_loop buf (p -ℤ pos (suc k)) (suc to_send + suc k) es
  ]
  prepend_sent out later

-- The number of elements that went out; `to_send` may have outgrown the size, which wraps. For
-- elements of no size the division is a fault.
unfoldable pub sock_fwrite : Bytes → ℕ → List Write → Run (Bytes × ℕ)
unfolding fwrite_loop
sock_fwrite buf size es = do
  (out, left) ← fwrite_loop buf (pos 0) (length buf) es
  if size == 0 then fault else value (out, (length buf + 2 ^ 64 - left) % 2 ^ 64 / size)
