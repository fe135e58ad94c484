-- ===== src/Net/Timeouts.antt =====
-- timeout_connect of lib/cddb_net.c, on what the system calls return.
use libcddb.Base.{ℕ, ◌≡◌, ◌⊎◌, ◌↔◌, arith, Bool, true, ◌==◌, if◌then◌else◌, ℤ, pos, minus_one}

-- connect: it succeeds at once, fails with EINPROGRESS, or with another error.
pub data Attempt : Type 0 where
  connected in_progress refused : Attempt

-- select: 0, -1, or another value.
pub data Ready : Type 0 where
  timed_out select_error writable : Ready

-- The switch: the first two cases fall through to the error condition of the socket.
unfoldable pub await_connect : Ready → ℕ → ℤ
await_connect writable so_error = if so_error == 0 then pos 0 else minus_one
await_connect _ so_error = minus_one

unfoldable pub try_connect : Attempt → Ready → ℕ → ℤ
unfolding await_connect
try_connect connected ready so_error = minus_one
try_connect in_progress ready so_error = await_connect ready so_error
try_connect refused ready so_error = pos 0

-- `nonblocking` is whether the socket can be set so.
unfoldable pub timeout_connect : Bool → Attempt → Ready → ℕ → ℤ
unfolding try_connect
timeout_connect nonblocking attempt ready so_error =
    if nonblocking then try_connect attempt ready so_error else minus_one

-- The result is 0 exactly when the socket can be set non-blocking and connect was refused with an
-- error other than EINPROGRESS, or was in progress, became writable in time and has no error.
pub timeout_connect_iff :
    (nonblocking : Bool) (attempt : Attempt) (ready : Ready) (so_error : ℕ)
    → (timeout_connect nonblocking attempt ready so_error ≡ pos 0) ↔ (
        (nonblocking ≡ true)
        × ((attempt ≡ refused) ⊎ ((attempt ≡ in_progress) × (ready ≡ writable) × (so_error ≡ 0))))
unfolding timeout_connect try_connect await_connect
timeout_connect_iff nonblocking attempt ready so_error = ground arith
