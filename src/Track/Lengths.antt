-- ===== src/Track/Lengths.antt =====
-- Track lengths and the frame offsets that follow from them.
use libcddb.Base.{
  ℕ, ◌+◌, ◌-◌, ◌*◌, ◌^◌, ◌<◌, ◌≡◌, ap, arith, ℤ, pos, minus_one, ◌+ℤ◌, ◌-ℤ◌, ◌≤ℤ◌, scale, quot,
  wrap_int, wrap_int-pos, +ℤ-pos, -ℤ-pos, scale-pos, quot-pos, Option, some,
}
use libcddb.Track.{Track, Place, Owner, get_length, set_length, frames_to_seconds}

-- The frame offset of a track is inferred from the track before it, and the length of that track
-- is then computed back from the two offsets, for a positive length whose end fits an `int`.
get_length-set_length :
    (first second : Track) (disc : Owner) (before after : Option Track) (start seconds : ℕ)
    (length : ℤ)
    → first.frame_offset ≡ pos start
    → first.length ≡ pos seconds
    → second.frame_offset ≡ minus_one
    → pos 0 ≤ℤ length
    → 0 < seconds
    → start + seconds * 75 < 2 ^ 31
    → let here : Place = record { prev = some first; next = after; disc = some disc } in
      (get_length
        (record { prev = before; next = set_length here (some second) length; disc = some disc })
        (some (record first { length = minus_one }))).1
      ≡ pos seconds
unfolding get_length set_length frames_to_seconds
get_length-set_length first second disc before after start seconds length hs hl unset sign some_time
      fits =
    let stop : wrap_int (pos start +ℤ scale (pos seconds) 75) ≡ pos (start + seconds * 75) =
      rw (scale-pos, +ℤ-pos) (wrap_int-pos _ fits) in
    let frames : wrap_int (pos (start + seconds * 75) -ℤ pos start) ≡ pos (seconds * 75) =
      rw (-ℤ-pos (start + seconds * 75) start (omega arith)) (
        let e : start + seconds * 75 - start ≡ seconds * 75 = omega arith in
        rw e (wrap_int-pos _ (omega arith))) in
    let back : quot (pos (seconds * 75)) 75 ≡ pos seconds = rw quot-pos (ap pos (omega arith)) in
    ground (arith, stop, frames, back)
