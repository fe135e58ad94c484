-- ===== src/Base64/Faults.antt =====
-- Where cddb_b64_encode reads outside its table.
use libcddb.Base.{
  ℕ, ◌+◌, ◌-◌, ◌*◌, ◌/◌, ◌%◌, ◌^◌, ◌≤◌, ◌<◌, ◌≡◌, ◌↔◌, ◌⊎◌, inl, inr, refl, arith, le-bit_or,
  bit_or-lt, get_elem?-none, [], ◌∷◌, Bytes, Run, value, fault, ◌>>=◌,
}
use libcddb.Base64.{b64_vec, letter, extend, shift_in, quad, b64_encode}
use libcddb.Base64.RoundTrip.{IsAscii, decode-b64_encode}

-- Some byte is not ASCII.
abbrev pub HasHigh : Bytes → Type 0
HasHigh [] = ⊥
HasHigh (c ∷ cs) = (128 ≤ c) ⊎ HasHigh cs

abbrev pub IsBytes : Bytes → Type 0
IsBytes [] = Unit {0}
IsBytes (c ∷ cs) = (c < 256) × IsBytes cs

letter-fault : (i : ℕ) → 66 ≤ i → letter i ≡ fault
unfolding letter
letter-fault i h = ground (arith, get_elem?-none b64_vec i)

-- The sign of a byte fills the bits above it, and moves up with the next shifts.
shift_in_high :
    (t c : ℕ) → 128 ≤ c → c < 256 → (2 ^ 32 - 256 ≤ shift_in t c) × (shift_in t c < 2 ^ 32)
unfolding shift_in
shift_in_high t c h k = ground (
  arith,
  le-bit_or (t * 2 ^ 8 % 2 ^ 32) (2 ^ 32 - 256 + c),
  bit_or-lt 32 (t * 2 ^ 8 % 2 ^ 32) (2 ^ 32 - 256 + c),
)

shift_in_keeps : (t c : ℕ) → c < 256 → (t * 2 ^ 8 % 2 ^ 32 ≤ shift_in t c) × (shift_in t c < 2 ^ 32)
unfolding shift_in
shift_in_keeps t c k =
    ground (
      arith,
      le-bit_or (t * 2 ^ 8 % 2 ^ 32) (extend c),
      bit_or-lt 32 (t * 2 ^ 8 % 2 ^ 32) (extend c),
    )

-- The index of the first letter is out of the table.
Overruns : ℕ → Type 0
Overruns t = 2 ^ 32 - 2 ^ 24 ≤ t

one-Overruns : (a : ℕ) → 128 ≤ a → a < 256 → Overruns (shift_in 0 a)
unfolding Overruns
one-Overruns a h k = omega (arith, shift_in_high 0 a h k)

two-Overruns :
    (a b : ℕ) → (128 ≤ a) ⊎ (128 ≤ b) → a < 256 → b < 256 → Overruns (shift_in (shift_in 0 a) b)
unfolding Overruns
two-Overruns a b (inl h) ka kb =
    omega (arith, shift_in_high 0 a h ka, shift_in_keeps (shift_in 0 a) b kb)
two-Overruns a b (inr h) ka kb = omega (arith, shift_in_high (shift_in 0 a) b h kb)

three-Overruns :
    (a b c : ℕ)
    → (128 ≤ a) ⊎ ((128 ≤ b) ⊎ (128 ≤ c))
    → a < 256
    → b < 256
    → c < 256
    → Overruns (shift_in (shift_in (shift_in 0 a) b) c)
unfolding Overruns
three-Overruns a b c (inl h) ka kb kc = omega (
  arith,
  shift_in_high 0 a h ka,
  shift_in_keeps (shift_in 0 a) b kb,
  shift_in_keeps (shift_in (shift_in 0 a) b) c kc,
)
three-Overruns a b c (inr (inl h)) ka kb kc =
    omega
      (arith, shift_in_high (shift_in 0 a) b h kb, shift_in_keeps (shift_in (shift_in 0 a) b) c kc)
three-Overruns a b c (inr (inr h)) ka kb kc =
    omega (arith, shift_in_high (shift_in (shift_in 0 a) b) c h kc)

Overruns-fault :
    (t : ℕ)
    → Overruns t
    → (letter (t / 2 ^ 18) ≡ fault) × (letter (t / 2 ^ 10) ≡ fault) × (letter (t / 2 ^ 2) ≡ fault)
unfolding Overruns
Overruns-fault t h =
    (letter-fault _ (omega arith), letter-fault _ (omega arith), letter-fault _ (omega arith))

bind-fault : (m : Run Bytes) → ◌>>=◌ {B = Bytes} m (λ _. fault) ≡ fault
bind-fault (value a) = refl
bind-fault fault = refl

b64_encode_first :
    (a b c : ℕ) (s : Bytes)
    → Overruns (shift_in (shift_in (shift_in 0 a) b) c)
    → b64_encode (a ∷ b ∷ c ∷ s) ≡ fault
unfolding b64_encode
b64_encode_first a b c s h = rw ((Overruns-fault _ h).0)

b64_encode-fault : (s : Bytes) → IsBytes s → HasHigh s → b64_encode s ≡ fault
unfolding b64_encode
b64_encode-fault [] k h = absurd h
b64_encode-fault (a ∷ []) (ka, _) (inl h) = rw ((Overruns-fault _ (one-Overruns a h ka)).2)
b64_encode-fault (a ∷ []) k (inr h) = absurd h
b64_encode-fault (a ∷ b ∷ []) (ka, (kb, _)) h =
    rw ((Overruns-fault _ (two-Overruns a b (ground arith) ka kb)).1)
b64_encode-fault (a ∷ b ∷ c ∷ s) (ka, (kb, (kc, ks))) (inl h) =
    b64_encode_first a b c s (three-Overruns a b c (inl h) ka kb kc)
b64_encode-fault (a ∷ b ∷ c ∷ s) (ka, (kb, (kc, ks))) (inr (inl h)) =
    b64_encode_first a b c s (three-Overruns a b c (inr (inl h)) ka kb kc)
b64_encode-fault (a ∷ b ∷ c ∷ s) (ka, (kb, (kc, ks))) (inr (inr (inl h))) =
    b64_encode_first a b c s (three-Overruns a b c (inr (inr h)) ka kb kc)
b64_encode-fault (a ∷ b ∷ c ∷ s) (ka, (kb, (kc, ks))) (inr (inr (inr h))) =
    rw (b64_encode-fault s ks h) (bind-fault (quad (shift_in (shift_in (shift_in 0 a) b) c)))

low_or_high : (s : Bytes) → IsAscii s ⊎ HasHigh s
low_or_high [] = inl tt
low_or_high (c ∷ s) = elim (low_or_high s) [ inl low ↦ ground arith | inr high ↦ inr (inr high) ]

-- The encoder reads outside its table exactly when some byte of the text is not ASCII.
pub b64_encode_faults : (s : Bytes) → IsBytes s → (b64_encode s ≡ fault) ↔ HasHigh s
b64_encode_faults s k = (only, b64_encode-fault s k)
  where
    only : b64_encode s ≡ fault → HasHigh s
    only e = elim (low_or_high s) [
      | inl low ↦ let (out, returned, _, _) = decode-b64_encode s low in absurd (ground arith)
      | inr high ↦ high
    ]
