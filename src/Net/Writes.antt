-- ===== src/Net/Writes.antt =====
-- What sock_fwrite of lib/cddb_net.c sends.
use libcddb.Base.{
  wrap_int-pos, false, ◌==◌, ℕ, zero, suc, ◌+◌, ◌-◌, ◌≤◌, ◌<◌, ◌^◌, ◌%◌, ◌/◌, ◌≡◌, refl, arith,
  List, [], ◌∷◌, ◌++◌, length, take, drop, pos, ◌-ℤ◌, +ℤ-pos, Bytes, value, fault,
}
use libcddb.Net.{Write, takes, not_writable, send_error, would_block, fwrite_loop, sock_fwrite}

-- Every round sends, and no more than there is.
abbrev pub Sends : ℕ → List Write → Type 0
Sends left [] = Unit {0}
Sends left (takes n ∷ es) = (n ≤ left) × Sends (left - n) es
Sends left (_ ∷ es) = ⊥

abbrev pub total : List Write → ℕ
total [] = 0
total (takes n ∷ es) = n + total es
total (_ ∷ es) = 0

take_nil : (k : ℕ) → take {A = ℕ} k [] ≡ []
take_nil zero = refl
take_nil (suc k) = refl

drop_nil : (k : ℕ) → drop {A = ℕ} k [] ≡ []
drop_nil zero = refl
drop_nil (suc k) = refl

take-drop : (n k : ℕ) (buf : Bytes) → take n buf ++ take k (drop n buf) ≡ take (n + k) buf
take-drop zero k buf = let e : 0 + k ≡ k = omega arith in rw e
take-drop (suc n) k [] = rw (take_nil k, take_nil (suc n + k))
take-drop (suc n) k (c ∷ buf) =
    let e : suc n + k ≡ suc (n + k) = omega arith in rw (e, take-drop n k buf)

drop-drop : (p n : ℕ) (buf : Bytes) → drop (p + n) buf ≡ drop n (drop p buf)
drop-drop zero n buf = let e : 0 + n ≡ n = omega arith in rw e
drop-drop (suc p) n [] = rw (drop_nil n, drop_nil (suc p + n))
drop-drop (suc p) n (c ∷ buf) =
    let e : suc p + n ≡ suc (p + n) = omega arith in rw (e, drop-drop p n buf)

total-le : (left : ℕ) (es : List Write) → Sends left es → total es ≤ left
total-le left [] h = omega arith
total-le left (takes n ∷ es) (h, hs) = omega (arith, total-le (left - n) es hs)
total-le left (not_writable ∷ es) h = elim h [ ]
total-le left (send_error ∷ es) h = elim h [ ]
total-le left (would_block ∷ es) h = elim h [ ]

fwrite_loop-take :
    (buf : Bytes) (es : List Write) (p left : ℕ)
    → left < 2 ^ 31
    → Sends left es
    → fwrite_loop buf (pos p) left es ≡ value (take (total es) (drop p buf), left - total es)
unfolding fwrite_loop
fwrite_loop-take buf [] p left small h = let e : left - 0 ≡ left = omega arith in rw e
fwrite_loop-take buf (e ∷ es) p zero small h =
    let k : total (e ∷ es) ≡ 0 = omega (arith, total-le 0 (e ∷ es) h) in rw k
fwrite_loop-take buf (takes n ∷ es) p (suc left) small (h, hs) =
    let ih = fwrite_loop-take buf es (p + n) (suc left - n) (omega (arith, small)) hs in
    let d : suc left - n - total es ≡ suc left - (n + total es) = omega arith in
    rw (
      wrap_int-pos n (omega (arith, h, small)),
      +ℤ-pos p n,
      ih,
      drop-drop p n buf,
      take-drop n (total es) (drop p buf),
      d,
    )
fwrite_loop-take buf (not_writable ∷ es) p (suc left) small h = elim h [ ]
fwrite_loop-take buf (send_error ∷ es) p (suc left) small h = elim h [ ]
fwrite_loop-take buf (would_block ∷ es) p (suc left) small h = elim h [ ]

-- When the socket takes bytes in every round, those that went out are the first of the buffer, in
-- order, each once, and the result is the number of whole elements among them, for a buffer below
-- 2^31 bytes and elements of some size.
pub sock_fwrite-take :
    (buf : Bytes) (size : ℕ) (es : List Write)
    → Sends (length buf) es
    → length buf < 2 ^ 31
    → 0 < size
    → sock_fwrite buf size es ≡ value (take (total es) buf, total es / size)
unfolding sock_fwrite
sock_fwrite-take buf size es h small some_size =
    let elements : (size == 0) ≡ false = ground arith in
    let wraps : (length buf + 2 ^ 64 - (length buf - total es)) % 2 ^ 64 ≡ total es =
      omega (arith, total-le (length buf) es h) in
    rw (fwrite_loop-take buf es 0 (length buf) small h, wraps, elements)

-- Where the first send would block, the next one reads in front of the buffer.
sock_fwrite_blocked :
    (c : ℕ) (buf : Bytes) (size n : ℕ) (es : List Write)
    → sock_fwrite (c ∷ buf) size (would_block ∷ takes n ∷ es) ≡ fault
unfolding sock_fwrite fwrite_loop ◌-ℤ◌
sock_fwrite_blocked c buf size n es = refl
