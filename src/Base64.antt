-- ===== src/Base64.antt =====
-- cddb_b64_encode of lib/cddb_util.c. A byte of the source is a `char`, which is signed here as on
-- the usual platforms; a read past the end of the table b64_vec is a fault.
pub mod RoundTrip
pub mod Faults
use libcddb.Base.{
  ℕ, zero, suc, ◌+◌, ◌-◌, ◌*◌, ◌/◌, ◌%◌, ◌^◌, ltb, if◌then◌else◌, bit_or, Option, none, some, List,
  [], ◌∷◌, ◌++◌, get_elem?, Bytes, codes, Run, value, fault, ◌>>=◌, ◌==◌,
}

abbrev pub b64_vec : Bytes
b64_vec = codes "ABCDEFGHIJKLMNOPQRSTUVWXYZabcdefghijklmnopqrstuvwxyz0123456789+/="

abbrev read : Option ℕ → Run ℕ
read none = fault
read (some c) = value c

-- `b64_vec[i]`; the closing NUL of the array is at 65.
unfoldable pub letter : ℕ → Run ℕ
letter i = if i == 65 then value 0 else read (get_elem? b64_vec i)

-- A `char` as an `int`, in 32 bits.
abbrev pub extend : ℕ → ℕ
extend c = if ltb c 128 then c else 2 ^ 32 - 256 + c

-- `(triplet << 8) | c`
unfoldable pub shift_in : ℕ → ℕ → ℕ
shift_in triplet c = bit_or (triplet * 2 ^ 8 % 2 ^ 32) (extend c)

-- The four letters of a full triplet. `& 0x3f` is the remainder by 64.
quad : ℕ → Run Bytes
quad triplet = do
  a ← letter (triplet / 2 ^ 18)
  b ← letter (triplet / 2 ^ 12 % 64)
  c ← letter (triplet / 2 ^ 6 % 64)
  d ← letter (triplet % 64)
  value (a ∷ b ∷ c ∷ d ∷ [])

-- The switch behind the loop, at one and at two bytes that are left. 0x3d is `=`.
pad_one : ℕ → Run Bytes
pad_one triplet = do
  a ← letter (triplet / 2 ^ 2)
  b ← letter (triplet * 2 ^ 4 % 2 ^ 32 % 64)
  value (a ∷ b ∷ 0x3d ∷ 0x3d ∷ [])

pad_two : ℕ → Run Bytes
pad_two triplet = do
  a ← letter (triplet / 2 ^ 10)
  b ← letter (triplet / 2 ^ 4 % 64)
  c ← letter (triplet * 2 ^ 2 % 2 ^ 32 % 64)
  value (a ∷ b ∷ c ∷ b'=' ∷ [])

-- The loop takes three bytes a round; `triplet` starts at 0 each time.
unfoldable pub b64_encode : Bytes → Run Bytes
unfolding quad pad_one pad_two
b64_encode [] = value []
b64_encode (a ∷ []) = pad_one (shift_in 0 a)
b64_encode (a ∷ b ∷ []) = pad_two (shift_in (shift_in 0 a) b)
b64_encode (a ∷ b ∷ c ∷ rest) = do
  letters ← quad (shift_in (shift_in (shift_in 0 a) b) c)
  more ← b64_encode rest
  value (letters ++ more)
