-- ===== src/Submission/Room.antt =====
-- The buffer that cddb_write_data of lib/cddb_cmd.c fills.
use mathlib.Core.List.{append_assoc, append-nil}
use libcddb.Base.{
  take_all, length-take, length-drop, ℕ, zero, suc, ◌+◌, ◌-◌, ◌≤◌, ◌<◌, ◌≡◌, refl, ap, ◌∙◌, arith,
  ltb, ◌==◌, Run-cases, inl, inr, true, false, List, [], ◌∷◌, ◌++◌, length, length-append, take,
  drop, Bytes, value, fault,
}
use libcddb.Submission.{Chunk, Buffer, write_append, write_all}

-- What the chunks are declared to add, and what they add.
abbrev pub sizes : List Chunk → ℕ
sizes [] = 0
sizes (c ∷ cs) = c.size + sizes cs

abbrev pub texts : List Chunk → Bytes
texts [] = []
texts (c ∷ cs) = c.text ++ texts cs

abbrev pub IsExact : Chunk → Type 0
IsExact c = c.size ≡ length c.text

abbrev pub AreExact : List Chunk → Type 0
AreExact [] = Unit {0}
AreExact (c ∷ cs) = IsExact c × AreExact cs

module _ {ℓ} {A : Type ℓ} where
  pub take-append : (xs ys : List A) → take (length xs) (xs ++ ys) ≡ xs
  take-append [] ys = refl
  take-append (x ∷ xs) ys = ap (◌∷◌ x) (take-append xs ys)

  drop-append : (xs ys : List A) (n : ℕ) → drop (length xs + n) (xs ++ ys) ≡ drop n ys
  drop-append [] ys n = let e : 0 + n ≡ n = omega arith in rw e
  drop-append (x ∷ xs) ys n =
      let e : suc (length xs) + n ≡ suc (length xs + n) = omega arith in rw (e, drop-append xs ys n)

  length-take-drop : (n : ℕ) (xs : List A) → length (take n xs) + length (drop n xs) ≡ length xs
  length-take-drop zero xs = omega arith
  length-take-drop (suc n) [] = refl
  length-take-drop (suc n) (x ∷ xs) = omega (arith, length-take-drop n xs)

-- The buffer with `done` written and `rest` ahead.
abbrev pub filled : Bytes → Bytes → Buffer
filled done rest = record { contents = done ++ rest; at = length done }

write_append-filled :
    (done rest : Bytes) (c : Chunk)
    → IsExact c
    → length c.text < length rest
    → write_append (filled done rest) c
      ≡ value (filled (done ++ c.text) (0 ∷ drop (length c.text + 1) rest))
unfolding write_append
write_append-filled done rest c e h =
    let room : length (done ++ rest) - length done ≡ length rest =
      omega (arith, length-append done rest) in
    let inside : ltb (length (done ++ rest)) (length done) ≡ false =
      ground (arith, length-append done rest) in
    let some_room : (length rest == 0) ≡ false = ground arith in
    let whole = take_all (length rest - 1) c.text (omega arith) in
    let out : length (c.text ++ 0 ∷ []) ≡ length c.text + 1 =
      omega (arith, length-append c.text (0 ∷ [])) in
    rw
      (
        inside,
        room,
        some_room,
        whole,
        out,
        take-append done rest,
        drop-append done rest (length c.text + 1),
        e,
      )
      (simp (append_assoc, length-append))

next_chunk :
    (done rest : Bytes) (c : Chunk) (more left ahead : Bytes) (cs : List Chunk)
    → write_append (filled done rest) c ≡ value (filled (done ++ c.text) ahead)
    → write_all (filled (done ++ c.text) ahead) cs ≡ value (filled (done ++ c.text ++ more) left)
    → write_all (filled done rest) (c ∷ cs) ≡ value (filled (done ++ (c.text ++ more)) left)
unfolding write_all
next_chunk done rest c more left ahead cs e h =
    rw e (h ∙ ap (λ t. value (filled t left)) (append_assoc done c.text more))

-- Exact chunks that leave room for a NUL stand one behind the other.
pub write_all-filled :
    (cs : List Chunk) (done rest : Bytes)
    → AreExact cs
    → length (texts cs) < length rest
    → (left : Bytes) × (length left + length (texts cs) ≡ length rest)
      × (write_all (filled done rest) cs ≡ value (filled (done ++ texts cs) left))
unfolding write_all
write_all-filled [] done rest e h = (rest, omega arith, rw (append-nil))
write_all-filled (c ∷ cs) done rest (e, es) h =
    let both = length-append c.text (texts cs) in
    let ahead = drop (length c.text + 1) rest in
    let size = length-drop (length c.text + 1) rest in
    let later = write_all-filled cs (done ++ c.text) (0 ∷ ahead) es (omega (arith, both, size)) in
    (
      later.0,
      omega (arith, both, size, later.1),
      next_chunk done rest c (texts cs) later.0 _ cs
          (write_append-filled done rest c e (omega (arith, both))) later.2,
    )

-- What is written over a part of the buffer has the size of that part.
length-overwrite :
    (n : ℕ) (xs ys : Bytes)
    → n + length ys ≤ length xs
    → length (take n xs ++ ys ++ drop (n + length ys) xs) ≡ length xs
length-overwrite n xs ys h = omega (
  arith,
  length-append (take n xs ++ ys) (drop (n + length ys) xs),
  length-append (take n xs) ys,
  length-take-drop n xs,
  length-drop n xs,
  length-drop (n + length ys) xs,
)

-- Whatever is written, the buffer has its size and `buf` is where the declared sizes lead.
length-write_append :
    (b b' : Buffer) (c : Chunk)
    → write_append b c ≡ value b'
    → (length b'.contents ≡ length b.contents) × (b'.at ≡ b.at + c.size)
unfolding write_append
length-write_append b b' c h =
    let room = length b.contents - b.at in
    let out = take (room - 1) c.text ++ 0 ∷ [] in
    ground (
      arith,
      length-overwrite b.at b.contents out,
      length-append (take (room - 1) c.text) (0 ∷ []),
      length-take (room - 1) c.text,
    )

-- A chunk that starts behind the end of the buffer is a fault.
pub write_all-fault :
    (xs ys : List Chunk) (y : Chunk) (b : Buffer)
    → length b.contents < b.at + sizes xs
    → write_all b (xs ++ y ∷ ys) ≡ fault
unfolding write_all
write_all-fault [] ys y b h =
    let e : ltb (length b.contents) b.at ≡ true = ground arith in rw (write_append, e)
write_all-fault (x ∷ xs) ys y b h = elim (Run-cases (write_append b x)) [
  | inl e ↦ rw e refl
  | inr (b', e) ↦
      let (l, a) = length-write_append b b' x e in rw e (write_all-fault xs ys y b' (omega arith))
]
