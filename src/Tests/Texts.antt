-- ===== src/Tests/Texts.antt =====
-- Examples for Base64, Category and Track.
use libcddb.Charset.{IsSound}
use libcddb.Charset.Driver.{
  Converter, IsConverter, Meets, str_iconv, str_iconv-Meets, done, too_big, unfinished,
}
use libcddb.Base.{
  drop, length-drop, true, leb, Bool-cases, inl, inr, ◌≢◌, if◌then◌else◌, take, length-take, ◌+◌,
  ◌*◌, ◌/◌, ◌≡◌, ◌↔◌, arith, pos, none, some, [], ◌∷◌, length, Bytes, codes, value, fault,
}
use libcddb.Base64.{b64_encode}
use libcddb.Base64.RoundTrip.{decode, decode-b64_encode}
use libcddb.Base64.Faults.{HasHigh, b64_encode_faults}
use libcddb.Track.{Track, Place, Owner, track_new}

decode-b64_encode_example :
    (out : Bytes) × (b64_encode (codes "user:pass") ≡ value out)
    × (decode out ≡ codes "user:pass")
    × (length out ≡ (length (codes "user:pass") + 2) / 3 * 4)
decode-b64_encode_example = decode-b64_encode (codes "user:pass") (omega arith)

b64_encode_faults_example : (b64_encode (0x75 ∷ 0xe9 ∷ []) ≡ fault) ↔ HasHigh (0x75 ∷ 0xe9 ∷ [])
b64_encode_faults_example = b64_encode_faults (0x75 ∷ 0xe9 ∷ []) (omega arith)

abbrev owner : Owner
owner = record { length = 300; artist = none }

abbrev first_track : Track
first_track = record track_new { frame_offset = pos 150; length = pos 20 }

abbrev alone : Place
alone = record { prev = none; next = none; disc = some owner }

-- An iconv that copies as much as there is room for.
abbrev pub copying : Converter
copying = λ s room.
    if leb (length s) room
    then (record { ending = done; taken = length s; output = s })
    else (record { ending = too_big; taken = room; output = take room s })

copying-IsConverter : IsConverter copying
copying-IsConverter = record {
  within = λ s room. elim (Bool-cases (leb (length s) room)) [
    | inl e ↦ rw e (ground arith)
    | inr e ↦ rw e (length-take room s)
  ];
  all = λ s room. elim (Bool-cases (leb (length s) room)) [
    | inl e ↦ rw e (λ h. omega arith)
    | inr e ↦ rw e (λ h. ground arith)
  ];
  some_left = λ s room. elim (Bool-cases (leb (length s) room)) [
    | inl e ↦ rw e (λ h. ground arith)
    | inr e ↦ rw e (λ h. ground arith)
  ];
  progress = λ s room. elim (Bool-cases (leb (length s) room)) [
    | inl e ↦ rw e (λ h k. ground arith)
    | inr e ↦ rw e (λ h k. omega (arith, length-take room s))
  ];
}

pub copying-IsSound : (s : Bytes) → IsSound (str_iconv copying s)
unfolding str_iconv
copying-IsSound s =
    let fits : leb (length s) (length s * 2) ≡ true = ground arith in
    let gone : length (drop (length s) s) ≡ 0 = omega (arith, length-drop (length s) s) in
    rw (fits, gone) tt

str_iconv-Meets_example :
    (str_iconv copying (codes "abc") ≢ unfinished)
    × Meets
        (copying (codes "abc") 6).ending
        (copying (codes "abc") 6).output
        6
        (str_iconv copying (codes "abc"))
str_iconv-Meets_example = str_iconv-Meets copying (codes "abc") copying-IsConverter
