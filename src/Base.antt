-- ===== src/Base.antt =====
-- What the parts of the model share: the libraries' names, passed on, and those of the children:
-- Boolean tests, lists, 32-bit and signed arithmetic, bits, C strings and faults.
mod Tests
mod Lists
mod Words
mod Bits
mod Texts
pub use Tests.*
pub use Lists.*
unfoldable pub use Words.*
pub use Bits.*
unfoldable pub use Texts.*
pub use Prim.Native.Nat.{ℕ, zero, suc, ◌+◌, ◌-◌, ◌*◌, ◌/◌, ◌%◌, ◌^◌, ◌≤◌, ◌<◌}
pub use Prim.Native.Nat.{bit_and, bit_or}
pub use mathlib.Core.Path.{◌≡◌, refl, sym, ap, ◌∙◌, subst}
pub use mathlib.Core.Logic.{◌≢◌, ◌↔◌, ◌⊎◌, inl, inr}
pub use mathlib.Core.Bool.{Bool, true, false, not, ◌&&◌, ◌||◌}
pub use mathlib.Core.Option.{Option, none, some}
pub use mathlib.Core.List.{List, [], ◌∷◌, ◌++◌, map}
pub use native.Mathlib.Omega.{arith}

pub bind-value {ℓ κ} :
    {A : Type ℓ} {B : Type κ} (r : Run A) (f : A → Run B) (b : B)
    → (r >>= f) ≡ value b
    → (a : A) × (r ≡ value a) × (f a ≡ value b)
bind-value fault f b h = absurd (grind arith)
bind-value (value a) f b h = (a, refl, h)
