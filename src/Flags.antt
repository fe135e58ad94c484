-- ===== src/Flags.antt =====
-- The library's flags of include/cddb/cddb.h, and the macro RETURN_STR_OR_EMPTY of
-- include/cddb/cddb_ni.h that every getter of a string ends with.
use libcddb.Base.{ℕ, ◌-◌, ◌^◌, bit_and, bit_or, ◌==◌, if◌then◌else◌, none, some, [], CString}

abbrev pub f_empty_str : ℕ
f_empty_str = 1

abbrev pub f_no_track_artist : ℕ
f_no_track_artist = 2

-- `_flags |= flags` and `_flags &= ~flags`, with the complement in 32 bits.
pub set_flags : ℕ → ℕ → ℕ
set_flags flags more = bit_or flags more

pub reset_flags : ℕ → ℕ → ℕ
reset_flags flags less = bit_and flags (2 ^ 32 - 1 - less)

-- `(!s && (libcddb_flags() & CDDB_F_EMPTY_STR)) ? "" : s`
abbrev pub str_or_empty : ℕ → CString → CString
str_or_empty flags none = if bit_and flags f_empty_str == 0 then none else some []
str_or_empty flags (some s) = some s
