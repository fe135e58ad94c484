-- ===== src/Cache/Lines.antt =====
-- The lines that cddb_read_line of lib/cddb_cmd.c reads from a file of the cache.
use libcddb.Base.{
  newline, unlines, ◌≤◌, length-append, ℕ, zero, suc, ◌+◌, ◌-◌, ◌<◌, ◌≡◌, refl, ap, ◌∙◌, arith,
  ◌==◌, if◌then◌else◌, false, none, some, List, [], ◌∷◌, ◌++◌, length, Bytes, CString,
}
use libcddb.Net.{line_feed, strip, strip_line}
use libcddb.Net.Lines.{IsPlain, ArePlain}

abbrev gets_more : ℕ → CString × Bytes → CString × Bytes
gets_more c (none, rest) = (some (c ∷ []), rest)
gets_more c (some s, rest) = (some (c ∷ s), rest)

-- `fgets` with room for `n` bytes: NULL only where the file ends before the first.
unfoldable pub file_gets : ℕ → Bytes → CString × Bytes
file_gets zero s = (some [], s)
file_gets (suc n) [] = (none, [])
file_gets (suc n) (c ∷ s) =
    let later = file_gets n s in if c == line_feed then (some (c ∷ []), s) else gets_more c later

unfoldable pub cached_line : ℕ → Bytes → CString × Bytes
unfolding file_gets strip
cached_line buf_size s = let (line, rest) = file_gets (buf_size - 1) s in (strip_line line, rest)

-- `while ((line = cddb_read_line(c)) != NULL)` with fuel.
unfoldable pub cached_lines : ℕ → ℕ → Bytes → List Bytes
unfolding cached_line
cached_lines zero buf_size s = []
cached_lines (suc fuel) buf_size s =
    let (line, rest) = cached_line buf_size s in
    elim line [ none ↦ [] | some t ↦ t ∷ cached_lines fuel buf_size rest ]

file_gets-line :
    (s rest : Bytes) (n : ℕ)
    → IsPlain s
    → file_gets (length s + 1 + n) (s ++ newline ++ rest) ≡ (some (s ++ newline), rest)
unfolding file_gets
file_gets-line [] rest n h = let e : 0 + 1 + n ≡ suc n = omega arith in rw e refl
file_gets-line (c ∷ s) rest n (_, plain, _, hs) =
    let e : suc (length s) + 1 + n ≡ suc (length s + 1 + n) = omega arith in
    let k : (c == line_feed) ≡ false = ground (arith, plain) in
    rw (e, file_gets, k, file_gets-line s rest n hs)

strip-newline : (s : Bytes) → IsPlain s → strip (s ++ newline) ≡ s
unfolding strip
strip-newline [] h = refl
strip-newline (c ∷ []) (z, l, r, hs) = ground (arith, z, l, r)
strip-newline (c ∷ d ∷ s) (z, l, r, hs) = rw (strip-newline (d ∷ s) hs) (ground (arith, z))

cached_line-line :
    (buf_size : ℕ) (s rest : Bytes)
    → IsPlain s
    → length s + 2 < buf_size
    → cached_line buf_size (s ++ newline ++ rest) ≡ (some s, rest)
unfolding cached_line
cached_line-line buf_size s rest h room =
    let e : buf_size - 1 ≡ length s + 1 + (buf_size - 2 - length s) = omega arith in
    rw (e, file_gets-line s rest (buf_size - 2 - length s) h, strip-newline s h)

end_of_file : (buf_size : ℕ) → 1 < buf_size → cached_line buf_size [] ≡ (none, [])
unfolding cached_line file_gets
end_of_file buf_size room = let b : buf_size - 1 ≡ suc (buf_size - 2) = omega arith in rw b

-- The lines of a file that ends with a line feed are read one after the other, and nothing else.
pub cached_lines-unlines :
    (buf_size : ℕ) (ss : List Bytes) (more : ℕ)
    → 1 < buf_size
    → ArePlain buf_size ss
    → cached_lines (suc (length ss) + more) buf_size (unlines ss) ≡ ss
unfolding cached_lines
cached_lines-unlines buf_size [] more room h =
    let e : suc 0 + more ≡ suc more = omega arith in
    rw e (
      ap (λ t. elim t.0 [ none ↦ [] | some r ↦ r ∷ cached_lines more buf_size t.1 ])
        (end_of_file buf_size room))
cached_lines-unlines buf_size (s ∷ ss) more room (plain, fits, hs) =
    let e : suc (suc (length ss)) + more ≡ suc (suc (length ss) + more) = omega arith in
    rw e (
      ap
        (λ t. elim t.0 [
          | none ↦ []
          | some r ↦ r ∷ cached_lines (suc (length ss) + more) buf_size t.1
        ])
        (cached_line-line buf_size s (unlines ss) plain fits)
      ∙ ap (◌∷◌ s) (cached_lines-unlines buf_size ss more room hs))

pub length-unlines : (ss : List Bytes) → length ss ≤ length (unlines ss)
length-unlines [] = omega arith
length-unlines (s ∷ ss) =
    omega
      (arith, length-append (s ++ newline) (unlines ss), length-append s newline, length-unlines ss)

-- The fuel of cache_read is enough for the lines of a file.
pub cached_lines-entry :
    (buf_size : ℕ) (ss : List Bytes)
    → 1 < buf_size
    → ArePlain buf_size ss
    → cached_lines (suc (length (unlines ss))) buf_size (unlines ss) ≡ ss
cached_lines-entry buf_size ss b plain =
    let more = length (unlines ss) - length ss in
    let fuel : suc (length (unlines ss)) ≡ suc (length ss) + more =
      omega (arith, length-unlines ss) in
    ap (λ n. cached_lines n buf_size (unlines ss)) fuel
    ∙ cached_lines-unlines buf_size ss more b plain
