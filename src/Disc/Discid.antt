-- ===== src/Disc/Discid.antt =====
-- cddb_disc_calc_discid of lib/cddb_disc.c.
pub mod Layout
pub mod Checksum
use libcddb.Base.{
  ℕ, zero, suc, ◌+◌, ◌*◌, ◌^◌, ◌%◌, bit_or, ℤ, pos, negsuc, ◌+ℤ◌, ◌-ℤ◌, scale, quot, rem, eq_ℤ,
  to_u32, neg_part, pos_part, none, List, [], ◌∷◌, if◌then◌else◌,
}
use libcddb.Track.{Track, frames_to_seconds}
use libcddb.Disc.{Disc}

-- `do { result += tmp % 10; tmp /= 10; } while (tmp != 0);` with fuel for the rounds.
unfoldable pub add_digits : ℕ → ℤ → ℤ → ℤ
add_digits zero tmp result = result
add_digits (suc fuel) tmp result =
    let result' = result +ℤ rem tmp 10 in
    let tmp' = quot tmp 10 in
    let rest = add_digits fuel tmp' result' in if eq_ℤ tmp' (pos 0) then result' else rest

-- An `int` has at most ten decimal digits.
abbrev pub digit_rounds : ℕ
digit_rounds = 10

unfoldable pub checksum : List Track → ℤ → ℤ
checksum [] result = result
checksum (t ∷ ts) result =
    checksum ts (add_digits digit_rounds (frames_to_seconds t.frame_offset) result)

-- `(result % 0xff) << 24 | (disc->length - …) << 8 | disc->track_cnt`, as an `unsigned int`.
unfoldable pub pack_discid : ℤ → ℕ → ℕ → ℕ
pack_discid result seconds track_cnt =
    bit_or (bit_or (to_u32 (scale (rem result 255) (2 ^ 24))) (seconds * 2 ^ 8 % 2 ^ 32))
      (track_cnt % 2 ^ 32)

-- The loop over the tracks leaves the iterator at NULL.
unfoldable pub discid_of : Disc → List Track → ℕ
discid_of disc [] = 0
discid_of disc (first ∷ rest) =
    pack_discid (checksum (first ∷ rest) (pos 0))
      (to_u32 (pos disc.length -ℤ frames_to_seconds first.frame_offset)) disc.track_cnt

unfoldable pub calc_discid : Disc → Disc
unfolding discid_of
calc_discid disc = record disc { discid = discid_of disc disc.tracks; iterator = none }
