-- ===== src/Track/Again.antt =====
-- A length that was found is found again: cddb_track_get_length of lib/cddb_track.c.
use mathlib.Core.Option.{some-injective}
use libcddb.Base.{
  ◌≡◌, refl, arith, if◌then◌else◌, Bool, true, false, Bool-cases, inl, inr, Option, none, some, ℤ,
  ◌-ℤ◌, ltb_ℤ, minus_one, eq_ℤ, wrap_int, to_int,
}
use libcddb.Track.{Track, Place, Owner, frames_to_seconds, known_length, get_length}

abbrev pub offset_of : Option Track → Option ℤ
offset_of none = none
offset_of (some track) = some track.frame_offset

abbrev measured : Place → Track → Track
measured place track = record track { length = known_length place track }

if_again {ℓ} :
    {A : Type ℓ} (b : Bool) (x y : A)
    → (if b then x else (if b then x else y)) ≡ (if b then x else y)
if_again true x y = refl
if_again false x y = refl

known_length-measured :
    (next next' : Option Track) (prev prev' : Option Track) (disc : Option Owner) (track : Track)
    → offset_of next' ≡ offset_of next
    → known_length
        (record { prev = prev'; next = next'; disc = disc })
        (measured (record { prev = prev; next = next; disc = disc }) track)
      ≡ known_length (record { prev = prev; next = next; disc = disc }) track
unfolding known_length
known_length-measured none none prev prev' none track e = refl
known_length-measured none none prev prev' (some disc) track e =
    if_again (ltb_ℤ (frames_to_seconds track.frame_offset) (to_int disc.length))
      (wrap_int (to_int disc.length -ℤ frames_to_seconds track.frame_offset)) track.length
known_length-measured none (some n) prev prev' disc track e = absurd (grind arith)
known_length-measured (some n) none prev prev' disc track e = absurd (grind arith)
known_length-measured (some n) (some n') prev prev' disc track e = rw (some-injective _ _ e) (
    if_again (ltb_ℤ track.frame_offset n.frame_offset)
      (frames_to_seconds (wrap_int (n.frame_offset -ℤ track.frame_offset))) track.length)

get_length-measured :
    (next next' : Option Track) (prev prev' : Option Track) (disc : Option Owner) (track : Track)
    → offset_of next' ≡ offset_of next
    → let place : Place = record { prev = prev; next = next; disc = disc } in
      get_length (record { prev = prev'; next = next'; disc = disc }) (some (measured place track))
      ≡ (some (measured place track), known_length place track)
unfolding get_length
get_length-measured next next' prev prev' disc track e =
    let k = known_length (record { prev = prev; next = next; disc = disc }) track in
    elim (Bool-cases (eq_ℤ k minus_one)) [
      | inl g ↦ rw (g, known_length-measured next next' prev prev' disc track e) refl
      | inr g ↦ rw g refl
    ]

get_length-kept :
    (place : Place) (track : Track)
    → eq_ℤ track.length minus_one ≡ false
    → get_length place (some track) ≡ (some track, track.length)
unfolding get_length
get_length-kept place track e = rw e refl

get_length-found :
    (place : Place) (track : Track)
    → eq_ℤ track.length minus_one ≡ true
    → get_length place (some track) ≡ (some (measured place track), known_length place track)
unfolding get_length
get_length-found place track e = rw e refl

-- What is found does not change with the length that is kept, nor with the lengths around it.
pub get_length_again :
    (next next' : Option Track) (prev prev' : Option Track) (disc : Option Owner) (track : Track)
    → offset_of next' ≡ offset_of next
    → get_length
        (record { prev = prev'; next = next'; disc = disc })
        (some (record track {
          length = (get_length (record { prev = prev; next = next; disc = disc }) (some track)).1;
        }))
      ≡ get_length (record { prev = prev; next = next; disc = disc }) (some track)
get_length_again next next' prev prev' disc track e =
    let place : Place = record { prev = prev; next = next; disc = disc } in
    let later : Place = record { prev = prev'; next = next'; disc = disc } in
    elim (Bool-cases (eq_ℤ track.length minus_one)) [
      | inr f ↦ rw (get_length-kept place track f) (get_length-kept later track f)
      | inl f ↦
          rw (get_length-found place track f)
            (get_length-measured next next' prev prev' disc track e)
    ]
