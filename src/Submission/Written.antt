-- ===== src/Submission/Written.antt =====
-- What cddb_write_data of lib/cddb_cmd.c leaves in the buffer.
use mathlib.Core.List.{append_assoc}
use native.Mathlib.Decide.{dec_lt}
use libcddb.Base.{
  unlines, ℕ, suc, ◌+◌, ◌<◌, ◌≡◌, ◌≢◌, ◌↔◌, inl, inr, refl, ap, sym, ◌∙◌, value-injective, arith,
  Run-cases, none, some, List, [], ◌∷◌, ◌++◌, length, Bytes, CString, Run, value, fault, ◌>>=◌,
}
use libcddb.Category.{Category, last, category_name}
use libcddb.Conn.{Conn}
use libcddb.Track.{Track}
use libcddb.Disc.{Disc}
use libcddb.Submission
use libcddb.Submission.{
  Chunk, Buffer, not_null, written_genre, entry_chunks, write_all, write_data, disc_chunks,
  head_chunks, play_order_chunk,
}
use libcddb.Submission.Room.{IsExact, AreExact, texts, sizes, write_all-filled, write_all-fault}
use libcddb.Submission.Lines.{entry_lines}
use libcddb.Submission.Layout.{entry_chunks-lines, entry_chunks-IsEntry, track_title_chunk-IsLine}
use libcddb.Submission.Exact.{
  IsSized, entry_chunks-AreExact, length-print_small, length-print_large,
}

abbrev pub HaveTitles : List Track → Type 0
HaveTitles [] = Unit {0}
HaveTitles (t ∷ ts) = (t.title ≢ none) × HaveTitles ts

-- What cddb_write asks of a disc before it is written, and a category of the array.
pub record IsComplete (disc : Disc) : Type 0 where
  pub has_artist : disc.artist ≢ none
  pub has_title : disc.title ≢ none
  pub has_category : disc.category ≢ last
  pub titles : HaveTitles disc.tracks

IsValue {ℓ} : {A : Type ℓ} → Run A → Type ℓ
IsValue {A = A} r = (a : A) × (r ≡ value a)

bind-IsValue {ℓ κ} :
    {A : Type ℓ} {B : Type κ} (r : Run A) (f : A → Run B)
    → IsValue r
    → ((a : A) → IsValue (f a))
    → IsValue (r >>= f)
unfolding IsValue
bind-IsValue r f (a, e) h = rw e (h a)

not_null-IsValue {ℓ} :
    {A : Type ℓ} (s : CString) (f : Bytes → Run A)
    → s ≢ none
    → ((t : Bytes) → IsValue (f t))
    → IsValue (not_null s f)
not_null-IsValue none f h k = absurd (h refl)
not_null-IsValue (some s) f h k = k s

category_name-some : (c : Category) → c ≢ last → category_name c ≢ none
unfolding category_name
category_name-some last h = absurd (h refl)
category_name-some _ h = ground arith

written_genre-some :
    (disc : Disc) (genre : CString)
    → disc.genre ≡ genre
    → disc.category ≢ last
    → written_genre disc ≢ none
unfolding written_genre
written_genre-some disc none e h = rw e (category_name-some disc.category h)
written_genre-some disc (some []) e h = rw e (category_name-some disc.category h)
written_genre-some disc (some (c ∷ s)) e h = rw e (ground arith)

track_title_chunk-IsValue :
    (i : ℕ) (t : Track) (artist : CString)
    → t.artist ≡ artist
    → t.title ≢ none
    → IsValue (Submission.track_title_chunk i t)
unfolding Submission.track_title_chunk IsValue
track_title_chunk-IsValue i t none e h = rw e (not_null-IsValue t.title _ h (λ s. (_, refl)))
track_title_chunk-IsValue i t (some a) e h = rw e (not_null-IsValue t.title _ h (λ s. (_, refl)))

track_title_chunks-IsValue :
    (i : ℕ) (ts : List Track) → HaveTitles ts → IsValue (Submission.track_title_chunks i ts)
unfolding Submission.track_title_chunks IsValue
track_title_chunks-IsValue i [] h = ([], refl)
track_title_chunks-IsValue i (t ∷ ts) (h, hs) =
    bind-IsValue _ _ (track_title_chunk-IsValue i t t.artist refl h)
      (λ c. bind-IsValue _ _ (track_title_chunks-IsValue (suc i) ts hs) (λ cs. (c ∷ cs, refl)))

entry_chunks-IsValue : (c : Conn) (disc : Disc) → IsComplete disc → IsValue (entry_chunks c disc)
unfolding entry_chunks Submission.title_chunk Submission.genre_chunk IsValue
entry_chunks-IsValue c disc h =
    bind-IsValue _ _
      (not_null-IsValue disc.artist _ h.has_artist
        (λ a. not_null-IsValue disc.title _ h.has_title (λ t. (_, refl))))
      (λ title.
        bind-IsValue _ _
          (not_null-IsValue (written_genre disc) _
            (written_genre-some disc disc.genre refl h.has_category) (λ s. (_, refl)))
          (λ genre.
            bind-IsValue _ _ (track_title_chunks-IsValue 0 disc.tracks h.titles)
              (λ titles. (_, refl))))

written_chunks :
    (c : Conn) (buf : Bytes) (disc : Disc) (cs : List Chunk) (text : Bytes)
    → entry_chunks c disc ≡ value cs
    → AreExact cs
    → texts cs ≡ text
    → length text < length buf
    → (left : Bytes) × (length left + length text ≡ length buf)
      × (write_data c buf disc ≡ value (text ++ left, length text, record disc { iterator = none }))
unfolding write_data
written_chunks c buf disc cs text e exact same room =
    let (left, size, w) = write_all-filled cs [] buf exact (rw same room) in
    (left, rw same at size, rw (e, w) (rw same refl))

-- A complete disc whose numbers fit their fields, written into a buffer that is longer than the
-- lines of its entry: the buffer starts with these lines, nothing else of the entry, the result is
-- their size, and the disc keeps everything but its iterator.
pub write_data-entry :
    (c : Conn) (buf : Bytes) (disc : Disc)
    → IsComplete disc
    → IsSized disc
    → length (unlines (entry_lines c disc)) < length buf
    → (left : Bytes) × (length left + length (unlines (entry_lines c disc)) ≡ length buf)
      × (write_data c buf disc
          ≡ value (
            unlines (entry_lines c disc) ++ left,
            length (unlines (entry_lines c disc)),
            record disc { iterator = none },
          ))
unfolding IsValue
write_data-entry c buf disc h s room =
    let (cs, e) = entry_chunks-IsValue c disc h in
    written_chunks c buf disc cs (unlines (entry_lines c disc)) e
      (entry_chunks-AreExact c disc cs s e) (entry_chunks-lines c disc cs e) room

-- A track's title line is declared as long as it is exactly for the first twenty tracks: from
-- there to the hundredth the declared size counts a digit too many.
pub track_title_chunk-IsExact :
    (i : ℕ) (track : Track) (c : Chunk)
    → i < 100
    → Submission.track_title_chunk i track ≡ value c
    → IsExact c ↔ (i < 20)
track_title_chunk-IsExact i track c b h =
    let (_, size) = track_title_chunk-IsLine i track c h in
    (
      λ e. elim (dec_lt i 20) [
        | yes l ↦ l
        | no l ↦ absurd (omega (arith, size, e, length-print_large i (omega arith) b))
      ],
      λ l. omega (arith, size, length-print_small i l),
    )

sizes-append : (xs ys : List Chunk) → sizes (xs ++ ys) ≡ sizes xs + sizes ys
sizes-append [] ys = omega arith
sizes-append (x ∷ xs) ys = omega (arith, sizes-append xs ys)

after_title :
    (xs ds ts us es vs : List Chunk) (title year genre : Chunk)
    → xs ++ (ds ++ title ∷ year ∷ genre ∷ []) ++ ts ++ us ++ es ++ vs
      ≡ (xs ++ ds ++ title ∷ []) ++ year ∷ (genre ∷ ts ++ us ++ es ++ vs)
after_title xs ds ts us es vs title year genre = simp append_assoc

title_chunk-size :
    (disc : Disc) (artist title : Bytes) (c : Chunk)
    → disc.artist ≡ some artist
    → disc.title ≡ some title
    → Submission.title_chunk disc ≡ value c
    → c.size ≡ 11 + length artist + length title
unfolding Submission.title_chunk
title_chunk-size disc artist title c a t h =
    ap (λ c. c.size) (sym (value-injective _ c (rw (a, t) at h)))

-- An artist and a title that are together longer than the buffer lead to a write outside it.
pub write_data-fault :
    (c : Conn) (buf : Bytes) (disc : Disc) (artist title : Bytes)
    → disc.artist ≡ some artist
    → disc.title ≡ some title
    → length buf < length artist + length title
    → write_data c buf disc ≡ fault
unfolding write_data disc_chunks
write_data-fault c buf disc artist title a t room = elim (Run-cases (entry_chunks c disc)) [
  | inl e ↦ rw e refl
  | inr (cs, e) ↦
      let (titled, genre, titles, f, _, _, k) = entry_chunks-IsEntry c disc cs e in
      let before = head_chunks ++ Submission.offset_chunks disc.tracks in
      let fields =
        Submission.length_chunk disc
        ∷ Submission.revision_chunk disc
        ∷ Submission.client_chunk c
        ∷ Submission.discid_chunk disc
        ∷ [] in
      let tail =
        genre ∷ titles
        ++ Submission.ext_chunk disc ∷ []
        ++ Submission.track_ext_chunks 0 disc.tracks
        ++ play_order_chunk ∷ [] in
      let split =
        after_title before fields titles (Submission.ext_chunk disc ∷ [])
          (Submission.track_ext_chunks 0 disc.tracks) (play_order_chunk ∷ []) titled
          (Submission.year_chunk disc) genre in
      let long : length buf < 0 + sizes (before ++ fields ++ titled ∷ []) = omega (
        arith,
        sizes-append (before ++ fields) (titled ∷ []),
        title_chunk-size disc artist title titled a t f,
      ) in
      let whole : Buffer = record { contents = buf; at = 0 } in
      let outside : write_all whole cs ≡ fault = rw (k ∙ split) (
        write_all-fault (before ++ fields ++ titled ∷ []) tail (Submission.year_chunk disc) whole
          long) in
      rw (e, outside) refl
]
