-- ===== src/Submission/Layout.antt =====
-- The text that cddb_write_data of lib/cddb_cmd.c writes is the lines of an entry.
use mathlib.Core.List.{append_assoc}
use libcddb.Base.{
  unlines, or_empty, bind-value, ◌+◌, ℕ, suc, ◌≡◌, ◌≢◌, refl, sym, ◌==◌, Bool-cases, inl, inr,
  to_int, pos, none, some, List, [], ◌∷◌, ◌++◌, Bytes, codes, Run, value, CString, length,
  length-append, arith, value-injective, ◌>>=◌,
}
use libcddb.Conn.{Conn}
use libcddb.Track.{Track}
use libcddb.Disc.{Disc}
use libcddb.Format.{print_int}
use libcddb.Submission
use libcddb.Submission.{
  Chunk, written_genre, entry_chunks, disc_chunks, head_chunks, play_order_chunk, newline, not_null,
  declared_digits,
}
use libcddb.Submission.Room.{texts}
use libcddb.Submission.Lines.{
  track_title_line, track_ext_line, offset_lines, track_title_lines, track_ext_lines, year_text,
  disc_lines, head_lines, entry_lines,
}

unlines-append : (xs ys : List Bytes) → unlines (xs ++ ys) ≡ unlines xs ++ unlines ys
unlines-append [] ys = refl
unlines-append (x ∷ xs) ys = simp (unlines-append xs ys, append_assoc)

texts-append : (xs ys : List Chunk) → texts (xs ++ ys) ≡ texts xs ++ texts ys
texts-append [] ys = refl
texts-append (x ∷ xs) ys = simp (texts-append xs ys, append_assoc)

texts-offset_chunks :
    (ts : List Track) → texts (Submission.offset_chunks ts) ≡ unlines (offset_lines ts)
unfolding Submission.offset_chunks Submission.offset_chunk
texts-offset_chunks [] = refl
texts-offset_chunks (t ∷ ts) = rw (texts-offset_chunks ts) (simp append_assoc)

texts-track_ext_chunks :
    (i : ℕ) (ts : List Track)
    → texts (Submission.track_ext_chunks i ts) ≡ unlines (track_ext_lines i ts)
unfolding Submission.track_ext_chunks Submission.track_ext_chunk
texts-track_ext_chunks i [] = refl
texts-track_ext_chunks i (t ∷ ts) = rw (texts-track_ext_chunks (suc i) ts) (simp append_assoc)

not_null-value {ℓ} :
    {A : Type ℓ} (s : CString) (f : Bytes → Run A) (a : A)
    → not_null s f ≡ value a
    → (s ≢ none) × (f (or_empty s) ≡ value a)
not_null-value none f a h = absurd (grind arith)
not_null-value (some s) f a h = (ground arith, h)

-- A chunk of one line, declared as long as it is.
abbrev pub IsLine : Bytes → Chunk → Type 0
IsLine line c = (c.text ≡ line ++ newline) × (c.size ≡ length c.text)

pub title_chunk-IsLine :
    (disc : Disc) (c : Chunk)
    → Submission.title_chunk disc ≡ value c
    → IsLine (codes "DTITLE=" ++ or_empty disc.artist ++ codes " / " ++ or_empty disc.title) c
unfolding Submission.title_chunk
title_chunk-IsLine disc c h =
    let (_, h) = not_null-value disc.artist _ c h in
    let (_, h) = not_null-value disc.title _ c h in
    rw (← value-injective _ _ h) (simp append_assoc, simp length-append (omega arith))

pub genre_chunk-IsLine :
    (disc : Disc) (c : Chunk)
    → Submission.genre_chunk disc ≡ value c
    → IsLine (codes "DGENRE=" ++ or_empty (written_genre disc)) c
unfolding Submission.genre_chunk
genre_chunk-IsLine disc c h =
    let (_, h) = not_null-value (written_genre disc) _ c h in
    rw (← value-injective _ _ h) (simp append_assoc, simp length-append (omega arith))

-- A chunk of a track's line, with the number of digits that its size takes for the track's number.
abbrev pub IsTrackLine : ℕ → Bytes → Chunk → Type 0
IsTrackLine i line c =
    (c.text ≡ line ++ newline)
    × (c.size + length (print_int (pos i)) ≡ length c.text + declared_digits i)

titled :
    (i : ℕ) (artist title : CString) (track : Track) (c : Chunk)
    → track.artist ≡ artist
    → track.title ≡ title
    → Submission.track_title_chunk i track ≡ value c
    → IsTrackLine i (track_title_line i track) c
unfolding Submission.track_title_chunk
titled i none none track c e k h = absurd (let h = rw (e, k) at h in grind arith)
titled i (some artist) none track c e k h = absurd (let h = rw (e, k) at h in grind arith)
titled i none (some title) track c e k h =
    let h = rw (e, k) at h in
    rw (e, k, ← value-injective _ _ h) (simp append_assoc, simp length-append (omega arith))
titled i (some artist) (some title) track c e k h =
    let h = rw (e, k) at h in
    rw (e, k, ← value-injective _ _ h) (simp append_assoc, simp length-append (omega arith))

pub track_ext_chunk-IsLine :
    (i : ℕ) (track : Track)
    → IsTrackLine i (track_ext_line i track) (Submission.track_ext_chunk i track)
unfolding Submission.track_ext_chunk
track_ext_chunk-IsLine i track = (simp append_assoc, simp length-append (omega arith))

pub track_title_chunk-IsLine :
    (i : ℕ) (track : Track) (c : Chunk)
    → Submission.track_title_chunk i track ≡ value c
    → IsTrackLine i (track_title_line i track) c
track_title_chunk-IsLine i track c h = titled i track.artist track.title track c refl refl h

-- The parts that may be missing, and the chunks that are made of them.
abbrev pub IsEntry : Conn → Disc → List Chunk → Type 0
IsEntry c disc cs =
    (title : Chunk) × (genre : Chunk) × (titles : List Chunk) × (Submission.title_chunk disc
      ≡ value title)
    × (Submission.genre_chunk disc ≡ value genre)
    × (Submission.track_title_chunks 0 disc.tracks ≡ value titles)
    × (cs
        ≡ head_chunks
          ++ Submission.offset_chunks disc.tracks
          ++ disc_chunks c disc title genre
          ++ titles
          ++ Submission.ext_chunk disc ∷ []
          ++ Submission.track_ext_chunks 0 disc.tracks
          ++ play_order_chunk ∷ [])

pub entry_chunks-IsEntry :
    (c : Conn) (disc : Disc) (cs : List Chunk) → entry_chunks c disc ≡ value cs → IsEntry c disc cs
unfolding entry_chunks
entry_chunks-IsEntry c disc cs h =
    let (title, e, k) = bind-value (Submission.title_chunk disc) _ cs h in
    let (genre, f, k) = bind-value (Submission.genre_chunk disc) _ cs k in
    let (titles, g, k) = bind-value (Submission.track_title_chunks 0 disc.tracks) _ cs k in
    (title, genre, titles, e, f, g, sym (value-injective _ cs k))

pub track_title_chunks-cons :
    (i : ℕ) (t : Track) (ts : List Track) (cs : List Chunk)
    → Submission.track_title_chunks i (t ∷ ts) ≡ value cs
    → (c : Chunk) × (rest : List Chunk) × (Submission.track_title_chunk i t ≡ value c)
      × (Submission.track_title_chunks (suc i) ts ≡ value rest)
      × (cs ≡ c ∷ rest)
unfolding Submission.track_title_chunks
track_title_chunks-cons i t ts cs h =
    let later = Submission.track_title_chunks (suc i) ts in
    let (c, e, k) =
      bind-value (Submission.track_title_chunk i t) (λ c. later >>= λ rest. value (c ∷ rest)) cs
        h in
    let (rest, f, k) = bind-value later (λ rest. value (c ∷ rest)) cs k in
    (c, rest, e, f, sym (value-injective (c ∷ rest) cs k))

texts-track_title_chunks :
    (i : ℕ) (ts : List Track) (cs : List Chunk)
    → Submission.track_title_chunks i ts ≡ value cs
    → texts cs ≡ unlines (track_title_lines i ts)
unfolding Submission.track_title_chunks
texts-track_title_chunks i [] cs h = rw (← value-injective [] cs h) refl
texts-track_title_chunks i (t ∷ ts) cs h =
    let (c, rest, e, f, k) = track_title_chunks-cons i t ts cs h in
    rw k (
      rw ((track_title_chunk-IsLine i t c e).0, texts-track_title_chunks (suc i) ts rest f)
        (simp append_assoc))

year_chunk-text :
    (disc : Disc)
    → (Submission.year_chunk disc).text ≡ codes "DYEAR=" ++ year_text disc.year ++ newline
unfolding Submission.year_chunk
year_chunk-text disc = elim (Bool-cases (disc.year == 0)) [ inl e ↦ rw e refl | inr e ↦ rw e refl ]

texts-disc :
    (c : Conn) (disc : Disc) (title genre : Chunk)
    → Submission.title_chunk disc ≡ value title
    → Submission.genre_chunk disc ≡ value genre
    → texts (disc_chunks c disc title genre) ≡ unlines (disc_lines c disc)
unfolding Submission.length_chunk Submission.revision_chunk Submission.client_chunk
    Submission.discid_chunk disc_chunks to_int
texts-disc c disc title genre h k =
    rw
      (
        (title_chunk-IsLine disc title h).0,
        (genre_chunk-IsLine disc genre k).0,
        year_chunk-text disc,
      )
      (simp append_assoc)

ext_chunk-text :
    (disc : Disc)
    → texts (Submission.ext_chunk disc ∷ [])
      ≡ unlines ((codes "EXTD=" ++ or_empty disc.ext_data) ∷ [])
unfolding Submission.ext_chunk
ext_chunk-text disc = simp append_assoc

-- The text of the chunks is that of the lines.
record Writes (cs : List Chunk) (ls : List Bytes) : Type 0 where
  same_text : texts cs ≡ unlines ls

writes : (cs : List Chunk) (ls : List Bytes) → texts cs ≡ unlines ls → Writes cs ls
writes cs ls h = record { same_text = h }

Writes-append :
    {cs ds : List Chunk} {ls ms : List Bytes}
    → Writes cs ls
    → Writes ds ms
    → Writes (cs ++ ds) (ls ++ ms)
Writes-append {cs} {ds} {ls} {ms} h k = record {
  same_text = rw (texts-append cs ds, unlines-append ls ms, h.same_text, k.same_text);
}

-- The text of an entry is its lines.
pub entry_chunks-lines :
    (c : Conn) (disc : Disc) (cs : List Chunk)
    → entry_chunks c disc ≡ value cs
    → texts cs ≡ unlines (entry_lines c disc)
entry_chunks-lines c disc cs h =
    let (title, genre, titles, e, f, g, k) = entry_chunks-IsEntry c disc cs h in
    let all : Writes _ (entry_lines c disc) =
      Writes-append
        (Writes-append
          (Writes-append
            (Writes-append
              (Writes-append
                (Writes-append (writes head_chunks head_lines refl) (
                  writes (Submission.offset_chunks disc.tracks) _
                    (texts-offset_chunks disc.tracks)))
                (writes (disc_chunks c disc title genre) _ (texts-disc c disc title genre e f)))
              (writes titles _ (texts-track_title_chunks 0 disc.tracks titles g)))
            (writes (Submission.ext_chunk disc ∷ []) _ (ext_chunk-text disc)))
          (writes (Submission.track_ext_chunks 0 disc.tracks) _
            (texts-track_ext_chunks 0 disc.tracks)))
        (writes (play_order_chunk ∷ []) (codes "PLAYORDER=" ∷ []) refl) in
    rw k all.same_text
