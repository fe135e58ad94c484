-- ===== src/Disc/Discid/Checksum.antt =====
-- The digit sum that cddb_disc_calc_discid takes of the start of each track.
use libcddb.Base.{
  ℕ, zero, suc, ◌+◌, ◌/◌, ◌%◌, ◌^◌, ◌<◌, ◌≡◌, refl, ◌∙◌, ap, arith, ◌==◌, ℤ, pos, negsuc, ◌≤ℤ◌,
  List, [], ◌∷◌, Bool-cases, inl, inr, pos_part,
}
use native.Mathlib.Nat.{pow-suc}
use libcddb.Base.{quot-pos, rem-pos, +ℤ-pos, ◌≢◌}
use libcddb.Track.{Track, frames_to_seconds}
use libcddb.Disc.Discid.{add_digits, digit_rounds, checksum}

-- The sum of the decimal digits of a number, by its definition; `n` digits are looked at.
abbrev pub digit_sum : ℕ → ℕ → ℕ
digit_sum zero m = 0
digit_sum (suc n) m = m % 10 + digit_sum n (m / 10)

digit_sum-zero : (n : ℕ) → digit_sum n 0 ≡ 0
digit_sum-zero zero = refl
digit_sum-zero (suc n) = omega (arith, digit_sum-zero n)

-- The loop adds the digit sum, if the fuel covers the digits.
pub add_digits_lem :
    (n m r : ℕ) → m < 10 ^ n → 0 < n → add_digits n (pos m) (pos r) ≡ pos (r + digit_sum n m)
unfolding add_digits
add_digits_lem zero m r h k = elim k [ ]
add_digits_lem (suc n) m r h k =
    rw (quot-pos, rem-pos, +ℤ-pos)
      (elim (Bool-cases (m / 10 + 0 == 0 + 0)) [
        | inl done ↦
            let small : m / 10 ≡ 0 = ground arith in
            rw done (rw small (ap pos (omega (arith, digit_sum-zero n))))
        | inr more ↦
            let tenth : m / 10 < 10 ^ n = omega (arith, pow-suc 10 n) in
            let rounds : 0 < n = left n (m / 10) tenth (ground arith) in
            rw more (add_digits_lem n (m / 10) (r + m % 10) tenth rounds ∙ ap pos (omega arith))
      ])
  where
    left : (n q : ℕ) → q < 10 ^ n → q ≢ 0 → 0 < n
    left zero q h k = absurd (k (omega arith))
    left (suc n) q h k = omega arith

-- The tracks have offsets, which are not negative and fit an `int`.
abbrev pub HasOffsets : List Track → Type 0
HasOffsets [] = Unit {0}
HasOffsets (t ∷ ts) = (pos 0 ≤ℤ t.frame_offset) × (pos_part t.frame_offset < 2 ^ 31) × HasOffsets ts

-- The sum over the tracks, by its definition.
unfoldable pub digit_total : List Track → ℕ
digit_total [] = 0
digit_total (t ∷ ts) = digit_sum digit_rounds (pos_part t.frame_offset / 75) + digit_total ts

pub frames_to_seconds-pos : (f : ℤ) → pos 0 ≤ℤ f → frames_to_seconds f ≡ pos (pos_part f / 75)
unfolding frames_to_seconds
frames_to_seconds-pos (pos n) h = quot-pos n 75
frames_to_seconds-pos (negsuc n) h = absurd (omega arith)

-- The loops over tracks and digits compute the digit total.
pub checksum-digit_total :
    (ts : List Track) (r : ℕ) → HasOffsets ts → checksum ts (pos r) ≡ pos (r + digit_total ts)
unfolding checksum digit_total
checksum-digit_total [] r h = ap pos (omega arith)
checksum-digit_total (t ∷ ts) r (h, k, hs) =
    let seconds = pos_part t.frame_offset / 75 in
    let one = add_digits_lem digit_rounds seconds r (omega arith) (omega arith) in
    rw (frames_to_seconds-pos t.frame_offset h, one)
      (checksum-digit_total ts (r + digit_sum digit_rounds seconds) hs ∙ ap pos (omega arith))
