-- ===== src/Net/Lines.antt =====
-- The lines that cddb_read_line of lib/cddb_cmd.c gives, read by sock_fgets of lib/cddb_net.c.
use libcddb.Base.{
  ℕ, zero, suc, ◌+◌, ◌-◌, ◌<◌, ◌≡◌, ◌≢◌, refl, ap, ◌∙◌, arith, ◌==◌, false, none, some, List, [],
  ◌∷◌, ◌++◌, length, Bytes,
}
use libcddb.Net.{
  Read, byte, end_of_stream, line_feed, carriage_return, fgets_loop, sock_fgets, null_if_empty,
  strip, strip_line, read_line,
}

-- Bytes of a line: no NUL and no terminator.
abbrev pub IsPlain : Bytes → Type 0
IsPlain [] = Unit {0}
IsPlain (c ∷ s) = (c ≢ 0) × (c ≢ line_feed) × (c ≢ carriage_return) × IsPlain s

abbrev pub bytes : Bytes → List Read
bytes [] = []
bytes (c ∷ s) = byte c ∷ bytes s

-- A line as the server sends it, with what comes behind it.
abbrev pub line_then : Bytes → List Read → List Read
line_then s rest = bytes s ++ byte carriage_return ∷ byte line_feed ∷ rest

fgets_loop-line :
    (s : Bytes) (rest : List Read) (n : ℕ)
    → IsPlain s
    → fgets_loop (length s + 2 + n) (line_then s rest)
      ≡ (some (s ++ carriage_return ∷ line_feed ∷ []), rest)
unfolding fgets_loop
fgets_loop-line [] rest n h = let e : 0 + 2 + n ≡ suc (suc n) = omega arith in rw e refl
fgets_loop-line (c ∷ s) rest n (_, plain, _, hs) =
    let e : suc (length s) + 2 + n ≡ suc (length s + 2 + n) = omega arith in
    let k : (c == line_feed) ≡ false = ground (arith, plain) in
    rw (e, fgets_loop, k, fgets_loop-line s rest n hs)

strip-line : (s : Bytes) → IsPlain s → strip (s ++ carriage_return ∷ line_feed ∷ []) ≡ s
unfolding strip
strip-line [] h = refl
strip-line (c ∷ []) (z, l, r, hs) = ground (arith, z, l, r)
strip-line (c ∷ d ∷ s) (z, l, r, hs) = rw (strip-line (d ∷ s) hs) (ground (arith, z))

strip_line-line :
    (s : Bytes)
    → IsPlain s
    → strip_line (null_if_empty (some (s ++ carriage_return ∷ line_feed ∷ []))) ≡ some s
strip_line-line [] h = ap some (strip-line [] h)
strip_line-line (c ∷ s) h = ap some (strip-line (c ∷ s) h)

-- A line without NUL and terminators that fits the buffer, with its CR and LF and the closing NUL,
-- is read without them, and the next byte to read is the one behind it.
pub read_line-line :
    (buf_size : ℕ) (s : Bytes) (rest : List Read)
    → IsPlain s
    → length s + 2 < buf_size
    → read_line buf_size (line_then s rest) ≡ (some s, rest)
unfolding read_line sock_fgets
read_line-line buf_size s rest h room =
    let e : buf_size - 1 ≡ length s + 2 + (buf_size - 3 - length s) = omega arith in
    rw (e, fgets_loop-line s rest (buf_size - 3 - length s) h)
      (ap (λ t. (t, rest)) (strip_line-line s h))

-- The lines of a stream, one after the other, and the end of it.
abbrev pub stream : List Bytes → List Read
stream [] = end_of_stream ∷ []
stream (s ∷ ss) = line_then s (stream ss)

abbrev pub ArePlain : ℕ → List Bytes → Type 0
ArePlain buf_size [] = Unit {0}
ArePlain buf_size (s ∷ ss) = IsPlain s × (length s + 2 < buf_size) × ArePlain buf_size ss

-- `while ((line = cddb_read_line(c)) != NULL)` with fuel.
pub read_all : ℕ → ℕ → List Read → List Bytes
unfolding read_line
read_all zero buf_size es = []
read_all (suc fuel) buf_size es =
    let (line, rest) = read_line buf_size es in
    elim line [ none ↦ [] | some s ↦ s ∷ read_all fuel buf_size rest ]

end_line : (buf_size : ℕ) → 1 < buf_size → read_line buf_size (end_of_stream ∷ []) ≡ (none, [])
unfolding read_line sock_fgets fgets_loop
end_line buf_size room = let b : buf_size - 1 ≡ suc (buf_size - 2) = omega arith in rw b

-- The loop over cddb_read_line gives all the lines of a stream in order and ends.
pub read_all-stream :
    (buf_size : ℕ) (ss : List Bytes) (more : ℕ)
    → 1 < buf_size
    → ArePlain buf_size ss
    → read_all (suc (length ss) + more) buf_size (stream ss) ≡ ss
unfolding read_all
read_all-stream buf_size [] more room h =
    let e : suc 0 + more ≡ suc more = omega arith in
    rw e (
      ap (λ t. elim t.0 [ none ↦ [] | some s ↦ s ∷ read_all more buf_size t.1 ])
        (end_line buf_size room))
read_all-stream buf_size (s ∷ ss) more room (plain, fits, hs) =
    let e : suc (suc (length ss)) + more ≡ suc (suc (length ss) + more) = omega arith in
    rw e (
      ap (λ t. elim t.0 [ none ↦ [] | some r ↦ r ∷ read_all (suc (length ss) + more) buf_size t.1 ])
        (read_line-line buf_size s (stream ss) plain fits)
      ∙ ap (◌∷◌ s) (read_all-stream buf_size ss more room hs))
