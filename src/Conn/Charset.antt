-- ===== src/Conn/Charset.antt =====
-- cddb_set_charset and the release of the conversion descriptors in lib/cddb_conn.c. What
-- iconv_open returns is a parameter: the number of a new descriptor, or `none` for -1.
use libcddb.Base.{
  ℕ, Bool, true, false, Option, none, some, ◌≡◌, ◌≢◌, ◌⊎◌, inl, inr, refl, Run, value, fault, ◌>>=◌,
}
use libcddb.Errors.{ok, invalid_charset}
use libcddb.Conn.{Conn, Handle, null, opened, closed}

-- `if (cd) iconv_close(cd)`: a descriptor that was closed must not be closed again. The field
-- keeps the pointer.
abbrev pub close_handle : Handle → Run Handle
close_handle null = value null
close_handle (opened n) = value (closed n)
close_handle (closed n) = fault

unfoldable pub close_iconv : Conn → Run Conn
close_iconv c = do
  to ← close_handle c.cd_to_freedb
  from ← close_handle c.cd_from_freedb
  value (record c { cd_to_freedb = to; cd_from_freedb = from })

-- From the two calls of iconv_open on.
abbrev open_pair : Conn → Option ℕ → Option ℕ → Conn × Bool
open_pair c none from = (record c { cd_to_freedb = null; errnum = invalid_charset }, false)
open_pair c (some to) none =
    (record c { cd_to_freedb = null; cd_from_freedb = null; errnum = invalid_charset }, false)
open_pair c (some to) (some from) =
    (record c { cd_to_freedb = opened to; cd_from_freedb = opened from; errnum = ok }, true)

unfoldable pub set_charset : Conn → Option ℕ → Option ℕ → Run (Conn × Bool)
unfolding close_iconv
set_charset c to from = do c ← close_iconv c; value (open_pair c to from)

-- Both descriptors are open.
abbrev pub AreOpen : Conn → Type 0
AreOpen c = (m : ℕ) × (n : ℕ) × (c.cd_to_freedb ≡ opened m) × (c.cd_from_freedb ≡ opened n)

-- Neither is there.
abbrev pub AreNull : Conn → Type 0
AreNull c = (c.cd_to_freedb ≡ null) × (c.cd_from_freedb ≡ null)

open_pair-usable :
    (c : Conn) (to from : Option ℕ)
    → ((to ≡ none) → c.cd_from_freedb ≡ null)
    → AreOpen (open_pair c to from).0 ⊎ AreNull (open_pair c to from).0
open_pair-usable c none from h = inr (refl, h refl)
open_pair-usable c (some m) none h = inr (refl, refl)
open_pair-usable c (some m) (some n) h = inl (m, n, refl, refl)

-- On usable descriptors the charset is set without a fault and leaves usable ones, unless the
-- first iconv_open fails on a connection that had a charset.
set_charset_usable :
    (c : Conn) (to from : Option ℕ)
    → AreNull c ⊎ (AreOpen c × (to ≢ none))
    → (c' : Conn) × (good : Bool) × (set_charset c to from ≡ value (c', good))
      × (AreOpen c' ⊎ AreNull c')
unfolding set_charset close_iconv
set_charset_usable c to from (inl (t, f)) =
    let d : Conn = record c { cd_to_freedb = null; cd_from_freedb = null } in
    let (c', good) = open_pair d to from in
    (c', good, rw (t, f) refl, open_pair-usable d to from (λ e. refl))
set_charset_usable c to from (inr ((m, n, t, f), k)) =
    let d : Conn = record c { cd_to_freedb = closed m; cd_from_freedb = closed n } in
    let (c', good) = open_pair d to from in
    (c', good, rw (t, f) refl, open_pair-usable d to from (λ e. absurd (k e)))

-- After a first iconv_open that failed on a connection with a charset, the next call closes a
-- descriptor that was closed before, and so does cddb_destroy.
set_charset_twice :
    (c : Conn) (from : Option ℕ)
    → AreOpen c
    → (c' : Conn) × (set_charset c none from ≡ value (c', false))
      × (close_iconv c' ≡ fault)
      × ((to from : Option ℕ) → set_charset c' to from ≡ fault)
unfolding set_charset close_iconv
set_charset_twice c from (m, n, t, f) = (
  record c { cd_to_freedb = null; cd_from_freedb = closed n; errnum = invalid_charset },
  rw (t, f) refl,
  refl,
  λ to from. refl,
)
