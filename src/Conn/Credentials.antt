-- ===== src/Conn/Credentials.antt =====
-- The proxy credentials of lib/cddb_conn.c: `user:password` in Base64, in a buffer of twice the
-- size of the text with its closing NUL.
use libcddb.Base.{
  or_empty, ℕ, ◌+◌, ◌*◌, ◌/◌, ◌<◌, ◌≡◌, ◌↔◌, arith, none, some, ◌∷◌, ◌++◌, length, length-append,
  Bytes, CString, Run, value, fault, ◌>>=◌, leb, if◌then◌else◌,
}
use libcddb.Base64.{b64_encode}
use libcddb.Base64.RoundTrip.{IsAscii, decode-b64_encode}
use libcddb.Conn.{Conn}

-- `len`: both texts, the colon and the closing NUL.
abbrev pub auth_len : CString → CString → ℕ
auth_len username password = length (or_empty username) + length (or_empty password) + 2

abbrev pub auth_text : CString → CString → Bytes
auth_text username password = or_empty username ++ b':' ∷ or_empty password

-- What the buffer takes; a longer text with its NUL is written behind it.
unfoldable pub fits_in : ℕ → Bytes → Run Bytes
fits_in size out = if leb (length out + 1) size then value out else fault

unfoldable pub make_auth : CString → CString → Run Bytes
unfolding b64_encode fits_in
make_auth username password = do
  out ← b64_encode (auth_text username password)
  fits_in (auth_len username password * 2) out

unfoldable pub set_http_proxy_auth : Conn → CString → CString → Run Conn
unfolding make_auth
set_http_proxy_auth c username password = do
  auth ← make_auth username password
  value (record c { http_proxy_auth = some auth })

unfoldable pub set_http_proxy_username : Conn → CString → Run Conn
unfolding set_http_proxy_auth
set_http_proxy_username c username =
    set_http_proxy_auth (record c { http_proxy_username = username }) username c.http_proxy_password

unfoldable pub set_http_proxy_password : Conn → CString → Run Conn
unfolding set_http_proxy_auth
set_http_proxy_password c password =
    set_http_proxy_auth (record c { http_proxy_password = password }) c.http_proxy_username password

-- The clear text is not kept.
unfoldable pub set_http_proxy_credentials : Conn → CString → CString → Run Conn
unfolding set_http_proxy_auth
set_http_proxy_credentials c username password =
    set_http_proxy_auth (record c { http_proxy_username = none; http_proxy_password = none })
      username password

-- The letters with their NUL do not fit exactly where they are more than the buffer.
fits_in_faults : (size : ℕ) (out : Bytes) → (fits_in size out ≡ fault) ↔ (size < length out + 1)
unfolding fits_in
fits_in_faults size out = ground arith

too_small : (n size : ℕ) → size ≡ (n + 1 + 2) / 3 * 4 → ((n + 2) * 2 < size + 1) ↔ (n ≡ 0)
too_small n size h = (λ k. omega arith, λ k. omega arith)

-- For ASCII credentials the encoder writes behind its buffer exactly when both are empty.
pub make_auth_faults :
    (username password : CString)
    → IsAscii (auth_text username password)
    → (make_auth username password ≡ fault)
      ↔ (length (or_empty username) + length (or_empty password) ≡ 0)
unfolding make_auth
make_auth_faults username password a =
    let (out, e, back, size) = decode-b64_encode (auth_text username password) a in
    let u = length (or_empty username) in
    let p = length (or_empty password) in
    let total : length (auth_text username password) ≡ u + p + 1 =
      omega (arith, length-append (or_empty username) (b':' ∷ or_empty password)) in
    let (to, from) = fits_in_faults (auth_len username password * 2) out in
    let (to', from') = too_small (u + p) (length out) (rw total at size) in
    rw e (λ k. to' (to k), λ k. from (from' k))
