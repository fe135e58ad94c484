-- ===== src/Conn/Email.antt =====
-- cddb_set_email_address of lib/cddb_conn.c.
use libcddb.Base.{
  ℕ, ◌≡◌, ◌≢◌, refl, arith, ◌==◌, if◌then◌else◌, Bool, true, false, Option, none, some, [], ◌∷◌,
  ◌++◌, Bytes, CString,
}
use libcddb.Errors.{email_invalid}
use libcddb.Conn.{Conn}

abbrev prepend_byte : ℕ → Option (Bytes × Bytes) → Option (Bytes × Bytes)
prepend_byte c none = none
prepend_byte c (some (user, host)) = some (c ∷ user, host)

-- `strchr(email, '@')`: what stands before and behind the first `@`.
unfoldable pub split_at_sign : Bytes → Option (Bytes × Bytes)
split_at_sign [] = none
split_at_sign (c ∷ s) =
    let later = split_at_sign s in if c == b'@' then some ([], s) else prepend_byte c later

abbrev set_parts : Conn → Option (Bytes × Bytes) → Conn × Bool
set_parts c (some (u ∷ user, h ∷ host)) = (record c { user = u ∷ user; hostname = h ∷ host }, true)
set_parts c _ = (record c { errnum = email_invalid }, false)

unfoldable pub set_email_address : Conn → CString → Conn × Bool
unfolding split_at_sign
set_email_address c none = (record c { errnum = email_invalid }, false)
set_email_address c (some email) = set_parts c (split_at_sign email)

-- No `@` in a text.
abbrev pub HasNoAt : Bytes → Type 0
HasNoAt [] = Unit {0}
HasNoAt (c ∷ s) = (c ≢ b'@') × HasNoAt s

split_at_sign-append :
    (user host : Bytes) → HasNoAt user → split_at_sign (user ++ b'@' ∷ host) ≡ some (user, host)
unfolding split_at_sign
split_at_sign-append [] host h = refl
split_at_sign-append (c ∷ user) host (h, hs) = grind (arith, split_at_sign-append user host hs)

prepended :
    (c : ℕ) (s user host : Bytes) (later : Option (Bytes × Bytes))
    → ((x y : Bytes) → later ≡ some (x, y) → (s ≡ x ++ b'@' ∷ y) × HasNoAt x)
    → (if c == b'@' then some ([], s) else prepend_byte c later) ≡ some (user, host)
    → (c ∷ s ≡ user ++ b'@' ∷ host) × HasNoAt user
prepended c s user host none ih e = ground (arith, e)
prepended c s user host (some (x, y)) ih e = let (p, q) = ih x y refl in ground (arith, e, p, q)

split_at_sign-joined :
    (email user host : Bytes)
    → split_at_sign email ≡ some (user, host)
    → (email ≡ user ++ b'@' ∷ host) × HasNoAt user
unfolding split_at_sign
split_at_sign-joined [] user host e = ground arith
split_at_sign-joined (c ∷ s) user host e =
    prepended c s user host (split_at_sign s) (split_at_sign-joined s) e

-- A user without `@`, an `@` and a host, neither empty, are accepted, and both are set.
set_email_address-append :
    (c : Conn) (u h : ℕ) (user host : Bytes)
    → HasNoAt (u ∷ user)
    → set_email_address c (some (u ∷ user ++ b'@' ∷ h ∷ host))
      ≡ (record c { user = u ∷ user; hostname = h ∷ host }, true)
unfolding set_email_address
set_email_address-append c u h user host k = rw (split_at_sign-append (u ∷ user) (h ∷ host) k) refl

-- The address is what the connection's user and host make.
abbrev pub IsAddressOf : Conn → Bytes → Type 0
IsAddressOf c email =
    (email ≡ c.user ++ b'@' ∷ c.hostname) × HasNoAt c.user × (c.user ≢ []) × (c.hostname ≢ [])

set_parts-IsAddressOf :
    (c : Conn) (email : Bytes) (parts : Option (Bytes × Bytes))
    → split_at_sign email ≡ parts
    → (set_parts c parts).1 ≡ true
    → IsAddressOf (set_parts c parts).0 email
set_parts-IsAddressOf c email (some (u ∷ user, h ∷ host)) e k =
    let (joined, plain) = split_at_sign-joined email (u ∷ user) (h ∷ host) e in
    (joined, plain, λ z. absurd (ground (arith, z)), λ z. absurd (ground (arith, z)))
set_parts-IsAddressOf c email (some (u ∷ user, [])) e k = absurd (ground (arith, k))
set_parts-IsAddressOf c email (some ([], host)) e k = absurd (ground (arith, k))
set_parts-IsAddressOf c email none e k = absurd (ground (arith, k))

-- An address that is accepted is the user that is set, without `@`, an `@` and the host that is
-- set, neither empty.
set_email_address-IsAddressOf :
    (c : Conn) (email : Bytes)
    → (set_email_address c (some email)).1 ≡ true
    → IsAddressOf (set_email_address c (some email)).0 email
unfolding set_email_address
set_email_address-IsAddressOf c email h = set_parts-IsAddressOf c email (split_at_sign email) refl h
