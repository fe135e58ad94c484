-- ===== src/Base/Texts.antt =====
-- C strings: bytes without the closing NUL, and `NULL` as `none`. A `Run` may end in a fault.
use Prim.Native.Nat.{ℕ}
use Prim.Native.Char.{code}
use Prim.Native.String.{String}
use mathlib.Core.Path.{◌≡◌, refl, ap}
use mathlib.Core.Logic.{◌↔◌, ◌⊎◌, inl, inr}
use mathlib.Core.Bool.{Bool, true, false, ◌&&◌}
use mathlib.Core.List.{List, [], ◌∷◌, ◌++◌}
use mathlib.Core.Option.{Option, none, some}
use native.Mathlib.Omega.{arith}
use libcddb.Base.Tests.{◌==◌}

abbrev pub Bytes : Type 0
Bytes = List ℕ

-- A `char *`.
abbrev pub CString : Type 0
CString = Option Bytes

-- `(s ? s : "")`
abbrev pub or_empty : CString → Bytes
or_empty none = []
or_empty (some s) = s

abbrev pub is_null : CString → Bool
is_null none = true
is_null (some s) = false

-- The bytes of an ASCII literal.
abbrev pub codes : String → Bytes
codes String.[] = []
codes (String.◌∷◌ c s) = code c ∷ codes s

-- `strcmp(a, b) == 0`
unfoldable pub str_eq : Bytes → Bytes → Bool
str_eq [] [] = true
str_eq (x ∷ xs) (y ∷ ys) = x == y && str_eq xs ys
str_eq _ _ = false

pub str_eq_iff : (a b : Bytes) → (str_eq a b ≡ true) ↔ (a ≡ b)
unfolding str_eq
str_eq_iff (x ∷ a) (y ∷ b) = ground (arith, str_eq_iff a b)
str_eq_iff _ _ = ground arith

-- A computation that may dereference an invalid pointer.
pub data Run {ℓ} (A : Type ℓ) : Type ℓ where
  value : A → Run A
  fault : Run A

infixl 5 ◌>>=◌
abbrev pub ◌>>=◌ {ℓ κ} : {A : Type ℓ} {B : Type κ} → Run A → (A → Run B) → Run B
value a >>= f = f a
fault >>= f = fault

pub Run-cases {ℓ} : {A : Type ℓ} (r : Run A) → (r ≡ fault) ⊎ ((a : A) × (r ≡ value a))
Run-cases fault = inl refl
Run-cases (value a) = inr (a, refl)

pub value-injective {ℓ} : {A : Type ℓ} (a b : A) → value a ≡ value b → a ≡ b
value-injective a b h = ap (λ r. elim r [ value c ↦ c | fault ↦ a ]) h

abbrev pub newline : Bytes
newline = codes "\n"

-- Lines with a line feed behind each.
abbrev pub unlines : List Bytes → Bytes
unlines [] = []
unlines (s ∷ ss) = s ++ newline ++ unlines ss
