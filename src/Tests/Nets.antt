-- ===== src/Tests/Nets.antt =====
-- Examples for Net.
use libcddb.Base.{ℕ, ◌+◌, ◌≡◌, arith, value, some, [], ◌∷◌, codes, ◌/◌, suc}
use libcddb.Net.{sock_fwrite, read_line, takes, end_of_stream}
use libcddb.Net.Lines.{IsPlain, line_then, stream, read_line-line, read_all, read_all-stream}
use libcddb.Base.{pos, true, ◌↔◌, ◌⊎◌}
use libcddb.Net.Timeouts.{timeout_connect, timeout_connect_iff, in_progress, refused, writable}
use libcddb.Net.Writes.{sock_fwrite-take}

ok-IsPlain : IsPlain (codes "ok")
ok-IsPlain = (
  λ e. absurd (omega arith),
  λ e. absurd (omega arith),
  λ e. absurd (omega arith),
  (λ e. absurd (omega arith), λ e. absurd (omega arith), λ e. absurd (omega arith), tt),
)

read_line-line_example :
    read_line 16 (line_then (codes "ok") (end_of_stream ∷ []))
    ≡ (some (codes "ok"), end_of_stream ∷ [])
read_line-line_example =
    read_line-line 16 (codes "ok") (end_of_stream ∷ []) ok-IsPlain (omega arith)

read_all-stream_example :
    read_all (suc 2 + 1) 16 (stream (codes "ok" ∷ codes "ok" ∷ [])) ≡ codes "ok" ∷ codes "ok" ∷ []
read_all-stream_example =
    read_all-stream 16 (codes "ok" ∷ codes "ok" ∷ []) 1 (omega arith)
      (ok-IsPlain, (omega arith), (ok-IsPlain, omega arith, tt))

sock_fwrite-take_example :
    sock_fwrite (1 ∷ 2 ∷ 3 ∷ []) 1 (takes 2 ∷ takes 1 ∷ []) ≡ value (1 ∷ 2 ∷ 3 ∷ [], 3 / 1)
sock_fwrite-take_example =
    sock_fwrite-take (1 ∷ 2 ∷ 3 ∷ []) 1 (takes 2 ∷ takes 1 ∷ []) (omega arith, (omega arith, tt))
      (omega arith) (omega arith)

abbrev no_error : ℕ
no_error = 0

timeout_connect_iff_example : (timeout_connect true in_progress writable no_error ≡ pos 0) ↔ (
    (true ≡ true)
    × ((in_progress ≡ refused)
        ⊎ ((in_progress ≡ in_progress) × (writable ≡ writable) × (no_error ≡ 0))))
timeout_connect_iff_example = timeout_connect_iff true in_progress writable no_error
