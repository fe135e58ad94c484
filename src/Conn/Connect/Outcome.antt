-- ===== src/Conn/Connect/Outcome.antt =====
-- What cddb_connect of lib/cddb_conn.c leaves.
use libcddb.Net.Timeouts.{refused, in_progress, writable}
use libcddb.Base.{Bool, ◌⊎◌, ℕ, ◌≡◌, true, some}
use libcddb.Errors.{ok}
use libcddb.Conn.{Conn}
use libcddb.Conn.Connect.{made, Peer, made}

-- timeout_connect, which lets a peer through exactly then, as it lets through a refused connect.
abbrev pub LetsThrough : Peer → Type 0
LetsThrough p =
    (p.nonblocking ≡ true)
    × ((p.attempt ≡ refused)
        ⊎ ((p.attempt ≡ in_progress) × (p.ready ≡ writable) × (p.so_error ≡ 0)))

abbrev Opens : ℕ → Conn × Bool → Type 0
Opens s r = (r.0.socket ≡ some s) × (r.0.errnum ≡ ok)
