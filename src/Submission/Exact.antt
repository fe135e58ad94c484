-- ===== src/Submission/Exact.antt =====
-- When the sizes that cddb_write_data of lib/cddb_cmd.c declares are those of its texts.
use libcddb.Base.{
  ℕ, zero, suc, ◌+◌, ◌-◌, ◌^◌, ◌≤◌, ◌<◌, ◌≡◌, ◌⊎◌, inl, inr, refl, ap, arith, ◌==◌, ltb, false,
  Bool-cases, ltb→lt, pos, to_int, List, [], ◌∷◌, ◌++◌, length, length-append, Bytes, value,
  value-injective,
}
use libcddb.Conn.{Conn}
use libcddb.Track.{Track}
use libcddb.Disc.{Disc}
use libcddb.Format.{print_int, spaces, pad}
use libcddb.Format.Decimal.{
  ten_to, length-decimal, length-decimal_digit, length-decimal_most, length-print_hex,
}
use libcddb.Submission
use libcddb.Submission.{
  Chunk, entry_chunks, disc_chunks, play_order_chunk, head_chunks, declared_digits,
}
use libcddb.Submission.Room.{IsExact, AreExact}
use libcddb.Submission.Layout.{
  track_title_chunk-IsLine, track_ext_chunk-IsLine, entry_chunks-IsEntry, track_title_chunks-cons,
  title_chunk-IsLine, genre_chunk-IsLine,
}

-- A track whose frame offset has at most eight digits.
abbrev pub HasOffset : Track → Type 0
HasOffset t = (o : ℕ) × (t.frame_offset ≡ pos o) × (o < 10 ^ 8)

abbrev pub HaveOffsets : List Track → Type 0
HaveOffsets [] = Unit {0}
HaveOffsets (t ∷ ts) = HasOffset t × HaveOffsets ts

-- The numbers of the disc fit the fields that they are printed in.
pub record IsSized (disc : Disc) : Type 0 where
  pub in_length : disc.length < 10 ^ 6
  pub in_revision : disc.revision < 10 ^ 8
  pub in_year : (disc.year ≡ 0) ⊎ (1000 ≤ disc.year × (disc.year < 10 ^ 4))
  pub offsets : HaveOffsets disc.tracks
  pub few : length disc.tracks ≤ 20

length-spaces : (n : ℕ) → length (spaces n) ≡ n
length-spaces zero = refl
length-spaces (suc n) = ap suc (length-spaces n)

length-pad : (w : ℕ) (s : Bytes) → length s ≤ w → length (pad w s) ≡ w
length-pad w s h =
    omega (arith, length-append (spaces (w - length s)) s, length-spaces (w - length s))

length-print_pos : (n k : ℕ) → 0 < k → n < ten_to k → length (print_int (pos n)) ≤ k
unfolding print_int
length-print_pos n k p h = length-decimal_most n k p h

pub to_int-pos : (n : ℕ) → n < 2 ^ 31 → to_int n ≡ pos n
unfolding to_int
to_int-pos n h = ground arith

pub length-print_small : (i : ℕ) → i < 20 → length (print_int (pos i)) ≡ declared_digits i
unfolding print_int
length-print_small i h = elim (Bool-cases (ltb i 10)) [
  | inl e ↦ omega (arith, length-decimal_digit i (ltb→lt i 10 e), ltb→lt i 10 e)
  | inr e ↦
      let l : 10 ≤ i = ground arith in
      omega (arith, length-decimal i 1 (omega arith) l (omega arith), l)
]

pub length-print_large : (i : ℕ) → 20 ≤ i → i < 100 → length (print_int (pos i)) < declared_digits i
unfolding print_int
length-print_large i h k =
    omega (arith, length-decimal i 1 (omega arith) (omega arith) (omega arith))

length-print_year : (y : ℕ) → 1000 ≤ y → y < 10 ^ 4 → length (print_int (pos y)) ≡ 4
unfolding print_int
length-print_year y h k = length-decimal y 3 (omega arith) h k

AreExact-append : (xs ys : List Chunk) → AreExact xs → AreExact ys → AreExact (xs ++ ys)
AreExact-append [] ys h k = k
AreExact-append (x ∷ xs) ys (h, hs) k = (h, AreExact-append xs ys hs k)

offset_chunks-AreExact : (ts : List Track) → HaveOffsets ts → AreExact (Submission.offset_chunks ts)
unfolding Submission.offset_chunks Submission.offset_chunk
offset_chunks-AreExact [] h = tt
offset_chunks-AreExact (t ∷ ts) ((o, e, b), hs) =
    let size = length-pad 8 (print_int (pos o)) (length-print_pos o 8 (omega arith) b) in
    (rw e (simp (length-append, size) (omega arith)), offset_chunks-AreExact ts hs)

track_ext_chunks-AreExact :
    (i : ℕ) (ts : List Track) → i + length ts ≤ 20 → AreExact (Submission.track_ext_chunks i ts)
unfolding Submission.track_ext_chunks
track_ext_chunks-AreExact i [] h = tt
track_ext_chunks-AreExact i (t ∷ ts) h = (
  omega (arith, (track_ext_chunk-IsLine i t).1, length-print_small i (omega arith)),
  track_ext_chunks-AreExact (suc i) ts (omega arith),
)

track_title_chunks-AreExact :
    (i : ℕ) (ts : List Track) (cs : List Chunk)
    → i + length ts ≤ 20
    → Submission.track_title_chunks i ts ≡ value cs
    → AreExact cs
unfolding Submission.track_title_chunks
track_title_chunks-AreExact i [] cs b h = rw (← value-injective [] cs h) tt
track_title_chunks-AreExact i (t ∷ ts) cs b h =
    let (c, rest, e, f, k) = track_title_chunks-cons i t ts cs h in
    rw k (
      omega (arith, (track_title_chunk-IsLine i t c e).1, length-print_small i (omega arith)),
      track_title_chunks-AreExact (suc i) ts rest (omega arith) f,
    )

year_chunk-IsExact :
    (disc : Disc)
    → (disc.year ≡ 0) ⊎ (1000 ≤ disc.year × (disc.year < 10 ^ 4))
    → IsExact (Submission.year_chunk disc)
unfolding Submission.year_chunk
year_chunk-IsExact disc (inl e) = rw e refl
year_chunk-IsExact disc (inr (l, u)) =
    let e : (disc.year == 0) ≡ false = ground arith in
    rw (e, to_int-pos disc.year (omega arith))
      (simp length-append (omega (arith, length-print_year disc.year l u)))

disc_chunks-AreExact :
    (c : Conn) (disc : Disc) (title genre : Chunk)
    → IsSized disc
    → IsExact title
    → IsExact genre
    → AreExact (disc_chunks c disc title genre)
unfolding Submission.length_chunk Submission.revision_chunk Submission.client_chunk
    Submission.discid_chunk disc_chunks
disc_chunks-AreExact c disc title genre s h k =
    let l = to_int-pos disc.length (omega (arith, s.in_length)) in
    let r = to_int-pos disc.revision (omega (arith, s.in_revision)) in
    let long =
      length-pad 6 (print_int (pos disc.length))
        (length-print_pos disc.length 6 (omega arith) s.in_length) in
    let revised =
      length-pad 8 (print_int (pos disc.revision))
        (length-print_pos disc.revision 8 (omega arith) s.in_revision) in
    let ends : AreExact (title ∷ Submission.year_chunk disc ∷ genre ∷ []) =
      (h, (year_chunk-IsExact disc s.in_year, (k, tt))) in
    rw (l, r)
      (
        simp (length-append, long) (omega arith),
        (
          simp (length-append, revised) (omega arith),
          (
            simp length-append (omega arith),
            (simp (length-append, length-print_hex) (omega arith), ends),
          ),
        ),
      )

ext_chunk-IsExact : (disc : Disc) → IsExact (Submission.ext_chunk disc)
unfolding Submission.ext_chunk
ext_chunk-IsExact disc = simp length-append (omega arith)

-- Every size is the length of its text.
pub entry_chunks-AreExact :
    (c : Conn) (disc : Disc) (cs : List Chunk)
    → IsSized disc
    → entry_chunks c disc ≡ value cs
    → AreExact cs
entry_chunks-AreExact c disc cs s h =
    let (title, genre, titles, e, f, g, k) = entry_chunks-IsEntry c disc cs h in
    let few : 0 + length disc.tracks ≤ 20 = omega (arith, s.few) in
    let fields =
      disc_chunks-AreExact c disc title genre s (title_chunk-IsLine disc title e).1
        (genre_chunk-IsLine disc genre f).1 in
    let a = head_chunks ++ Submission.offset_chunks disc.tracks in
    let b = a ++ disc_chunks c disc title genre in
    let d = b ++ titles in
    let e = d ++ Submission.ext_chunk disc ∷ [] in
    let g' = e ++ Submission.track_ext_chunks 0 disc.tracks in
    let in_a : AreExact a =
      AreExact-append head_chunks _ (refl, (refl, tt))
        (offset_chunks-AreExact disc.tracks s.offsets) in
    let in_d : AreExact d =
      AreExact-append b titles (AreExact-append a _ in_a fields)
        (track_title_chunks-AreExact 0 disc.tracks titles few g) in
    let in_e : AreExact e = AreExact-append d _ in_d (ext_chunk-IsExact disc, tt) in
    rw k (
      AreExact-append g' (play_order_chunk ∷ [])
        (AreExact-append e _ in_e (track_ext_chunks-AreExact 0 disc.tracks few)) (refl, tt))
