-- ===== src/Charset/Driver.antt =====
-- cddb_str_iconv of lib/cddb_util.c, which drives the system's iconv. That is a parameter: what a
-- call makes of the bytes that are left and the room that there is.
use libcddb.Base.{
  ℕ, zero, suc, ◌+◌, ◌*◌, ◌<◌, ◌≤◌, ◌≡◌, ◌≢◌, inl, inr, refl, sym, subst, ◌∙◌, ap, arith, ◌==◌,
  if◌then◌else◌, true, false, Bool-cases, length, length-append, length-drop, drop, [], ◌++◌, Bytes,
}

-- How a call of iconv ends: all is converted, E2BIG, or another error.
pub data Ending : Type 0 where
  done too_big failed : Ending

-- The bytes that a call has taken and those that it has written.
pub record Call : Type 0 where
  pub ending : Ending
  pub taken : ℕ
  pub output : Bytes

abbrev pub Converter : Type 0
Converter = Bytes → ℕ → Call

-- What cddb_str_iconv comes to: a text, FALSE, or the reallocation or release of a pointer that is
-- not the start of a block; `unfinished` is for the want of fuel.
pub data Conversion : Type 0 where
  converted : Bytes → Conversion
  refused broken unfinished : Conversion

-- After a call: `free(buf)` wants that nothing was written, and the loop goes on while there are
-- bytes left.
abbrev pub go_on : Bytes → Bytes → Conversion → Conversion
go_on out left later = if length left == 0 then converted out else later

abbrev pub after_call : Ending → Bytes → Bytes → Conversion → Conversion
after_call failed out left later = if length out == 0 then refused else broken
after_call done out left later = go_on out left later
after_call too_big out left later = go_on out left later

-- `do { … } while (inlen != 0)`: `s` is the text that is left, `size` the length of the buffer and
-- `out` what is in it. `realloc(buf - len, …)` takes it that the buffer is full.
unfoldable pub str_iconv_loop : ℕ → Converter → Bytes → ℕ → Bytes → Conversion
str_iconv_loop zero cd s size out = unfinished
str_iconv_loop (suc fuel) cd s size out =
    let room = length s * 2 in
    let call = cd s room in
    let left = drop call.taken s in
    let later = str_iconv_loop fuel cd left (size + room) (out ++ call.output) in
    if length out == size then after_call call.ending (out ++ call.output) left later else broken

unfoldable pub str_iconv : Converter → Bytes → Conversion
unfolding str_iconv_loop
str_iconv cd s = str_iconv_loop (suc (length s)) cd s 0 []

-- What iconv promises: it keeps within the room, takes all when it is done and not all with E2BIG,
-- and takes something when it writes something.
pub record IsConverter (cd : Converter) : Type 0 where
  pub within : (s : Bytes) (room : ℕ) → length (cd s room).output ≤ room
  pub all : (s : Bytes) (room : ℕ) → (cd s room).ending ≡ done → length s ≤ (cd s room).taken
  pub some_left :
      (s : Bytes) (room : ℕ) → (cd s room).ending ≡ too_big → (cd s room).taken < length s
  pub progress :
      (s : Bytes) (room : ℕ)
      → (cd s room).ending ≡ too_big
      → 0 < length (cd s room).output
      → 0 < (cd s room).taken

go_on-ends :
    (out left : Bytes) (later : Conversion)
    → (length left ≢ 0 → later ≢ unfinished)
    → go_on out left later ≢ unfinished
go_on-ends out left later again = elim (Bool-cases (length left == 0)) [
  | inl e ↦ rw e (ground arith)
  | inr e ↦ rw e (again (ground (arith, e)))
]

after_call-ends :
    (ending : Ending) (out left : Bytes) (later : Conversion)
    → (ending ≡ too_big → length left ≢ 0 → later ≢ unfinished)
    → (ending ≡ done → length left ≡ 0)
    → after_call ending out left later ≢ unfinished
after_call-ends failed out left later again all = ground arith
after_call-ends done out left later again all =
    go_on-ends out left later (λ some. absurd (some (all refl)))
after_call-ends too_big out left later again all = go_on-ends out left later (again refl)

str_iconv_loop-broken :
    (fuel : ℕ) (cd : Converter) (s : Bytes) (size : ℕ) (out : Bytes)
    → 0 < fuel
    → (length out == size) ≡ false
    → str_iconv_loop fuel cd s size out ≡ broken
unfolding str_iconv_loop
str_iconv_loop-broken zero cd s size out h e = absurd (omega arith)
str_iconv_loop-broken (suc fuel) cd s size out h e = rw e refl

-- The round that follows one which E2BIG ended: it finds the buffer full, and a byte was taken, or
-- it breaks.
next_round-ends :
    (fuel : ℕ) (cd : Converter) (s left : Bytes) (size : ℕ) (out : Bytes) (call : Call)
    → IsConverter cd
    → call ≡ cd s (length s * 2)
    → left ≡ drop call.taken s
    → length s < suc fuel
    → length out ≡ size
    → call.ending ≡ too_big
    → length left ≢ 0
    → (length left < fuel
        → str_iconv_loop fuel cd left (size + length s * 2) (out ++ call.output) ≢ unfinished)
    → str_iconv_loop fuel cd left (size + length s * 2) (out ++ call.output) ≢ unfinished
next_round-ends fuel cd s left size out call law c l room full big more ih =
    let shorter = ap length l ∙ length-drop call.taken s in
    elim (Bool-cases (length (out ++ call.output) == size + length s * 2)) [
      | inl e ↦
          let written : length call.output ≡ length s * 2 =
            ground (arith, length-append out call.output, e) in
          let taken : 0 < call.taken =
            subst (λ k. 0 < k.taken) (sym c)
              (law.progress s (length s * 2) (ap (λ k. k.ending) (sym c) ∙ big)
                (omega (arith, ap (λ k. length k.output) c))) in
          ih (omega (arith, shorter, taken))
      | inr e ↦
          rw
            (str_iconv_loop-broken fuel cd left (size + length s * 2) (out ++ call.output)
              (omega (arith, shorter)) e)
            (ground arith)
    ]

-- Each round that finds the buffer full takes a byte.
str_iconv_loop-ends :
    (fuel : ℕ) (cd : Converter) (s : Bytes) (size : ℕ) (out : Bytes)
    → IsConverter cd
    → length s < fuel
    → str_iconv_loop fuel cd s size out ≢ unfinished
unfolding str_iconv_loop
str_iconv_loop-ends zero cd s size out law room = absurd (omega arith)
str_iconv_loop-ends (suc fuel) cd s size out law room = elim (Bool-cases (length out == size)) [
  | inr e ↦ rw e (ground arith)
  | inl e ↦
      let call = cd s (length s * 2) in
      let left = drop call.taken s in
      rw e (
        after_call-ends call.ending (out ++ call.output) left _
          (λ big more.
            next_round-ends fuel cd s left size out call law refl refl room (ground (arith, e)) big
              more
              (str_iconv_loop-ends fuel cd left (size + length s * 2) (out ++ call.output) law))
          (λ d. omega (arith, length-drop call.taken s, law.all s (length s * 2) d)))
]

-- What the first call of iconv makes of the outcome.
abbrev pub Meets : Ending → Bytes → ℕ → Conversion → Type 0
Meets done output room result = result ≡ converted output
Meets failed output room result = result ≡ (if length output == 0 then refused else broken)
Meets too_big output room result = length output < room → result ≡ broken

first_call-Meets :
    (e : Ending) (output left : Bytes) (room : ℕ) (later : Conversion)
    → (e ≡ done → length left ≡ 0)
    → (e ≡ too_big → (length left ≢ 0) × (length output < room → later ≡ broken))
    → Meets e output room (after_call e output left later)
first_call-Meets done output left room later all big =
    let none_left : (length left == 0) ≡ true = ground (arith, all refl) in rw none_left refl
first_call-Meets failed output left room later all big = refl
first_call-Meets too_big output left room later all big =
    let (more, breaks) = big refl in
    let some_left : (length left == 0) ≡ false = ground arith in rw some_left breaks

-- With an iconv that keeps its promises cddb_str_iconv ends, and its first call decides: a text
-- that is converted at once is the result; an invalid byte gives FALSE only where nothing was
-- written yet, and else the release of a pointer into the buffer; and a text that needs more room
-- leads to the reallocation of such a pointer, unless the buffer is full to the last byte.
pub str_iconv-Meets :
    (cd : Converter) (s : Bytes)
    → IsConverter cd
    → (str_iconv cd s ≢ unfinished)
      × Meets
          (cd s (length s * 2)).ending
          (cd s (length s * 2)).output
          (length s * 2)
          (str_iconv cd s)
unfolding str_iconv
str_iconv-Meets cd s law =
    let call = cd s (length s * 2) in
    let left = length-drop call.taken s in
    (
      str_iconv_loop-ends (suc (length s)) cd s 0 [] law (omega arith),
      first_call-Meets call.ending call.output (drop call.taken s) (length s * 2) _
          (λ d. omega (arith, left, law.all s (length s * 2) d))
          (λ big.
            let some_left = law.some_left s (length s * 2) big in
            (
              λ none_left. absurd (omega (arith, left, some_left, none_left)),
              λ short.
                  str_iconv_loop-broken (length s) cd (drop call.taken s) (0 + length s * 2)
                    call.output (omega (arith, some_left)) (ground (arith, short)),
            )),
    )
