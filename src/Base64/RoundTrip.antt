-- ===== src/Base64/RoundTrip.antt =====
-- A decoder for what cddb_b64_encode writes, and the round trip over ASCII texts.
use libcddb.Base.{
  ℕ, zero, suc, ◌+◌, ◌-◌, ◌*◌, ◌/◌, ◌%◌, ◌^◌, ◌<◌, ◌≡◌, refl, ◌∙◌, arith, leb, ◌==◌, if◌then◌else◌,
  bit_or-add, true, false, Bool, not, [], ◌∷◌, ◌++◌, length, Bytes, Run, value, fault, ◌&&◌,
}
use libcddb.Base64.{letter, shift_in, b64_encode}

-- The value of a letter.
digit : ℕ → ℕ
digit c =
    if leb b'A' c && leb c b'Z'
    then c - b'A'
    else if leb b'a' c && leb c b'z'
    then c - b'a' + 26
    else if leb b'0' c && leb c b'9'
    then c - b'0' + 52
    else if c == b'+'
    then 62
    else 63

-- The bytes that four letters stand for: one or two, where the text is padded with `=`.
decode_quad : ℕ → ℕ → ℕ → ℕ → Bytes
decode_quad a b c d =
    let first = digit a * 4 + digit b / 16 in
    let second = digit b % 16 * 16 + digit c / 4 in
    let third = digit c % 4 * 64 + digit d in
    if c == b'='
    then first ∷ []
    else if d == b'='
    then first ∷ second ∷ []
    else first ∷ second ∷ third ∷ []

pub decode : Bytes → Bytes
decode (a ∷ b ∷ c ∷ d ∷ rest) = decode_quad a b c d ++ decode rest
decode _ = []

abbrev pub IsAscii : Bytes → Type 0
IsAscii [] = Unit {0}
IsAscii (c ∷ cs) = (c < 128) × IsAscii cs

-- The letters are told apart by their values, and none is the padding.
is_good : ℕ → Run ℕ → Bool
is_good i fault = false
is_good i (value c) = digit c == i && not (c == b'=')

all_good : ℕ → Bool
all_good zero = true
all_good (suc n) = is_good n (letter n) && all_good n

all_good_table : all_good 64 ≡ true
unfolding all_good is_good letter digit
all_good_table = refl

all_good_sound : (n i : ℕ) → all_good n ≡ true → i < n → is_good i (letter i) ≡ true
unfolding all_good
all_good_sound zero i h lt = elim lt [ ]
all_good_sound (suc n) i h lt = ground (arith, all_good_sound n i)

record GoodLetter (i : ℕ) : Type 0 where
  char : ℕ
  written : letter i ≡ value char
  is_value : digit char ≡ i
  no_pad : (char == b'=') ≡ false

letter_of : (i : ℕ) (r : Run ℕ) → letter i ≡ r → is_good i r ≡ true → GoodLetter i
unfolding is_good
letter_of i fault e h = absurd (ground arith)
letter_of i (value c) e h = record {
  char = c;
  written = e;
  is_value = ground arith;
  no_pad = ground arith;
}

letter-GoodLetter : (i : ℕ) → i < 64 → GoodLetter i
letter-GoodLetter i h = letter_of i (letter i) refl (all_good_sound 64 i all_good_table h)

pub shift_in_ascii : (t c : ℕ) → t < 2 ^ 24 → c < 128 → shift_in t c ≡ t * 256 + c
unfolding shift_in
shift_in_ascii t c h k = ground (arith, bit_or-add 8 t c)

shift_first : (c : ℕ) → c < 128 → shift_in 0 c ≡ c
shift_first c h = shift_in_ascii 0 c (omega arith) h ∙ omega arith

-- A result that decodes to `s`, and has four letters for every three bytes begun.
record Encodes (s : Bytes) (r : Run Bytes) : Type 0 where
  out : Bytes
  returned : r ≡ value out
  read_back : decode out ≡ s
  size : length out ≡ (length s + 2) / 3 * 4

decode_quad_three :
    (a b c : ℕ) (w : GoodLetter (((a * 256 + b) * 256 + c) / 2 ^ 18))
    (x : GoodLetter (((a * 256 + b) * 256 + c) / 2 ^ 12 % 64))
    (y : GoodLetter (((a * 256 + b) * 256 + c) / 2 ^ 6 % 64))
    (z : GoodLetter (((a * 256 + b) * 256 + c) % 64))
    → a < 128
    → b < 128
    → c < 128
    → decode_quad w.char x.char y.char z.char ≡ a ∷ b ∷ c ∷ []
unfolding decode_quad
decode_quad_three a b c w x y z ha hb hc =
    rw (y.no_pad, z.no_pad, w.is_value, x.is_value, y.is_value, z.is_value)
      (three (omega arith) (omega arith) (omega arith))
  where
    three : {p q r : ℕ} → p ≡ a → q ≡ b → r ≡ c → ◌≡◌ {A = Bytes} (p ∷ q ∷ r ∷ []) (a ∷ b ∷ c ∷ [])
    three e f g = cc

decode_quad_two :
    (a b : ℕ) (w : GoodLetter ((a * 256 + b) / 2 ^ 10))
    (x : GoodLetter ((a * 256 + b) / 2 ^ 4 % 64))
    (y : GoodLetter ((a * 256 + b) * 2 ^ 2 % 2 ^ 32 % 64))
    → a < 128
    → b < 128
    → decode_quad w.char x.char y.char b'=' ≡ a ∷ b ∷ []
unfolding decode_quad
decode_quad_two a b w x y ha hb =
    rw (y.no_pad, w.is_value, x.is_value, y.is_value) (two (omega arith) (omega arith))
  where
    two : {p q : ℕ} → p ≡ a → q ≡ b → ◌≡◌ {A = Bytes} (p ∷ q ∷ []) (a ∷ b ∷ [])
    two e f = cc

decode_quad_one :
    (a : ℕ) (w : GoodLetter (a / 2 ^ 2)) (x : GoodLetter (a * 2 ^ 4 % 2 ^ 32 % 64))
    → a < 128
    → decode_quad w.char x.char b'=' b'=' ≡ a ∷ []
unfolding decode_quad
decode_quad_one a w x ha = rw (w.is_value, x.is_value) (one (omega arith))
  where
    one : {p : ℕ} → p ≡ a → ◌≡◌ {A = Bytes} (p ∷ []) (a ∷ [])
    one e = cc

encode-Encodes : (s : Bytes) → IsAscii s → Encodes s (b64_encode s)
unfolding b64_encode decode
encode-Encodes [] h = record { out = []; returned = refl; read_back = refl; size = refl }
encode-Encodes (a ∷ []) (ha, _) =
    let w = letter-GoodLetter (a / 2 ^ 2) (omega arith) in
    let x = letter-GoodLetter (a * 2 ^ 4 % 2 ^ 32 % 64) (omega arith) in
    record {
      out = w.char ∷ x.char ∷ 0x3d ∷ 0x3d ∷ [];
      returned = rw (shift_first a ha) (rw (w.written, x.written));
      read_back = rw (decode_quad_one a w x ha);
      size = refl;
    }
encode-Encodes (a ∷ b ∷ []) (ha, (hb, _)) =
    let t = a * 256 + b in
    let w = letter-GoodLetter (t / 2 ^ 10) (omega arith) in
    let x = letter-GoodLetter (t / 2 ^ 4 % 64) (omega arith) in
    let y = letter-GoodLetter (t * 2 ^ 2 % 2 ^ 32 % 64) (omega arith) in
    record {
      out = w.char ∷ x.char ∷ y.char ∷ b'=' ∷ [];
      returned =
          rw (shift_first a ha, shift_in_ascii a b (omega arith) hb)
            (rw (w.written, x.written, y.written));
      read_back = rw (decode_quad_two a b w x y ha hb);
      size = refl;
    }
encode-Encodes (a ∷ b ∷ c ∷ s) (ha, (hb, (hc, hs))) =
    let rest = encode-Encodes s hs in
    let t = (a * 256 + b) * 256 + c in
    let w = letter-GoodLetter (t / 2 ^ 18) (omega arith) in
    let x = letter-GoodLetter (t / 2 ^ 12 % 64) (omega arith) in
    let y = letter-GoodLetter (t / 2 ^ 6 % 64) (omega arith) in
    let z = letter-GoodLetter (t % 64) (omega arith) in
    record {
      out = w.char ∷ x.char ∷ y.char ∷ z.char ∷ rest.out;
      returned =
          rw
            (
              shift_first a ha,
              shift_in_ascii a b (omega arith) hb,
              shift_in_ascii (a * 256 + b) c (omega arith) hc,
            )
            (rw (w.written, x.written, y.written, z.written, rest.returned));
      read_back = rw (decode_quad_three a b c w x y z ha hb hc, rest.read_back);
      size = omega (arith, rest.size);
    }

-- An ASCII text is encoded without a fault, in four letters for every three bytes begun, and the
-- decoder gives the text back.
pub decode-b64_encode :
    (s : Bytes)
    → IsAscii s
    → (out : Bytes) × (b64_encode s ≡ value out)
      × (decode out ≡ s)
      × (length out ≡ (length s + 2) / 3 * 4)
decode-b64_encode s h = let e = encode-Encodes s h in (e.out, e.returned, e.read_back, e.size)
