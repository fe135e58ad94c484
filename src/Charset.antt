-- ===== src/Charset.antt =====
-- Character set conversion with cddb_str_iconv of lib/cddb_util.c, which drives the system's iconv.
pub mod Driver
use libcddb.Base.{Bool, false, Option, none, some, Bytes, CString}
use libcddb.Charset.Driver.{
  Converter, Conversion, converted, refused, broken, unfinished, str_iconv,
}

-- A text or FALSE, and not the release of a pointer into a block.
abbrev pub IsSound : Conversion → Type 0
IsSound (converted t) = Unit {0}
IsSound refused = Unit {0}
IsSound _ = ⊥

-- An open descriptor: what the system's iconv does, with which cddb_str_iconv goes wrong on no text.
pub record Descriptor : Type 0 where
  pub iconv : Converter
  pub sound : (s : Bytes) → IsSound (str_iconv iconv s)

-- The text that cddb_str_iconv gives, or its FALSE.
abbrev pub text_of : Conversion → Option Bytes
text_of (converted t) = some t
text_of _ = none

unfoldable pub conversion : Descriptor → Bytes → Option Bytes
conversion cd s = text_of (str_iconv cd.iconv s)

-- An `iconv_t`; a NULL one, as `none`, stands for no user character set.
abbrev pub Iconv : Type 0
Iconv = Option Descriptor

-- `if (x->field) { if (cddb_str_iconv(…)) … else return FALSE; }` before the rest of the function.
-- What was converted before a failure stays converted.
abbrev pub convert_field {ℓ} :
    {A : Type ℓ} → (Bytes → Option Bytes) → CString → (CString → A) → A → (A → A × Bool) → A × Bool
convert_field cd none put a rest = rest a
convert_field cd (some s) put a rest = elim (cd s) [
  | some t ↦ rest (put (some t))
  | none ↦ (a, false)
]
