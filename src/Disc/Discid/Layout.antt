-- ===== src/Disc/Discid/Layout.antt =====
-- The fields of the disc ID that cddb_disc_calc_discid packs.
use libcddb.Base.{
  ℕ, ◌+◌, ◌-◌, ◌*◌, ◌/◌, ◌%◌, ◌^◌, ◌≤◌, ◌<◌, ◌≡◌, arith, bit_or-add, bit_or-lt, pos, to_u32,
  to_u32-lt, to_u32-pos, rem-pos, scale-pos, -ℤ-pos, pos_part, List, [], ◌∷◌,
}
use libcddb.Track.{Track}
use libcddb.Disc.{Disc}
use libcddb.Disc.Discid.{pack_discid, discid_of, calc_discid}
use libcddb.Disc.Discid.Checksum.{
  HasOffsets, digit_total, checksum-digit_total, frames_to_seconds-pos,
}

pack_discid-add :
    (result seconds track_cnt : ℕ)
    → seconds < 2 ^ 16
    → track_cnt < 2 ^ 8
    → pack_discid (pos result) seconds track_cnt
      ≡ result % 255 * 2 ^ 24 + seconds * 2 ^ 8 + track_cnt
unfolding pack_discid
pack_discid-add result seconds track_cnt h k =
    let top = bit_or-add 24 (result % 255) (seconds * 2 ^ 8) (omega arith) in
    let low = bit_or-add 8 (result % 255 * 2 ^ 16 + seconds) track_cnt k in
    let wide : to_u32 (pos (result % 255 * 2 ^ 24)) ≡ result % 255 * 2 ^ 24 =
      to_u32-pos _ (omega arith) in
    let narrow : seconds * 2 ^ 8 % 2 ^ 32 ≡ seconds * 2 ^ 8 = omega arith in
    let short : track_cnt % 2 ^ 32 ≡ track_cnt = omega arith in
    let both : result % 255 * 2 ^ 24 + seconds * 2 ^ 8 ≡ (result % 255 * 2 ^ 16 + seconds) * 2 ^ 8 =
      omega arith in
    rw (rem-pos, scale-pos, wide, narrow, short, top) (rw both low)

-- The start of the first track in seconds.
abbrev pub lead_in : Track → ℕ
lead_in first = pos_part first.frame_offset / 75

-- For a disc with offsets, fewer than 256 tracks and fewer than 2 ^ 16 seconds of play, the disc
-- ID holds the digit total modulo 255 in its upper byte, the seconds from the start of the first
-- track to the end of the disc in the two middle ones, and the number of tracks in the last.
pub calc_discid_fields :
    (disc : Disc) (first : Track) (rest : List Track)
    → disc.tracks ≡ first ∷ rest
    → HasOffsets (first ∷ rest)
    → lead_in first ≤ disc.length
    → disc.length - lead_in first < 2 ^ 16
    → disc.track_cnt < 2 ^ 8
    → (calc_discid disc).discid
      ≡ digit_total (first ∷ rest) % 255 * 2 ^ 24
        + (disc.length - lead_in first) * 2 ^ 8
        + disc.track_cnt
unfolding calc_discid
calc_discid_fields disc first rest chain offsets starts short few =
    let sum = checksum-digit_total (first ∷ rest) 0 offsets in
    let from_zero : 0 + digit_total (first ∷ rest) ≡ digit_total (first ∷ rest) = omega arith in
    let start = frames_to_seconds-pos first.frame_offset offsets.0 in
    let play = -ℤ-pos disc.length (lead_in first) starts in
    let word = to_u32-pos (disc.length - lead_in first) (omega arith) in
    rw (chain, sum, start, play, word, from_zero) (pack_discid-add _ _ _ short few)

discid_of-lt : (disc : Disc) (ts : List Track) → discid_of disc ts < 2 ^ 32
unfolding discid_of pack_discid
discid_of-lt disc [] = omega arith
discid_of-lt disc (t ∷ ts) =
    bit_or-lt 32 _ _ (bit_or-lt 32 _ _ (to_u32-lt _) (omega arith)) (omega arith)

-- The disc ID is a 32-bit number for every disc, so its upper byte is an index below 256.
calc_discid-lt :
    (disc : Disc)
    → ((calc_discid disc).discid < 2 ^ 32) × ((calc_discid disc).discid / 2 ^ 24 < 256)
unfolding calc_discid
calc_discid-lt disc = let h = discid_of-lt disc disc.tracks in (h, omega arith)
