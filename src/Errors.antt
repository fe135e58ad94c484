-- ===== src/Errors.antt =====
-- The error codes of include/cddb/cddb_error.h and their texts in lib/cddb_error.c.
use native.Mathlib.Decide.{dec_lt}
use libcddb.Base.{
  Bool, true, false, ℕ, ◌≢◌, arith, ◌||◌, if◌then◌else◌, ℤ, ltb_ℤ, leb_ℤ, pos, negsuc, pos_part,
  none, some, List, [], ◌∷◌, get_elem?, get_elem?-some, Bytes, codes, CString, Run, value, fault,
}

pub data ErrorCode : Type 0 where
  ok out_of_memory line_size not_implemented unknown : ErrorCode
  server_error unknown_host_name connect permission_denied not_connected : ErrorCode
  unexpected_eof invalid_response disc_not_found : ErrorCode
  data_missing track_not_found rejected email_invalid : ErrorCode
  invalid_charset iconv_fail proxy_auth invalid_input : ErrorCode

-- No error.
abbrev pub is_ok : ErrorCode → Bool
is_ok ok = true
is_ok _ = false

-- CDDB_ERR_LAST
abbrev pub last_error : ℕ
last_error = 21

abbrev pub number : ErrorCode → ℕ
number ok = 0
number out_of_memory = 1
number line_size = 2
number not_implemented = 3
number unknown = 4
number server_error = 5
number unknown_host_name = 6
number connect = 7
number permission_denied = 8
number not_connected = 9
number unexpected_eof = 10
number invalid_response = 11
number disc_not_found = 12
number data_missing = 13
number track_not_found = 14
number rejected = 15
number email_invalid = 16
number invalid_charset = 17
number iconv_fail = 18
number proxy_auth = 19
number invalid_input = 20

abbrev pub err_str : List Bytes
err_str =
    codes "ok"
    ∷ codes "out of memory"
    ∷ codes "internal buffer too small"
    ∷ codes "feature not implemented"
    ∷ codes "problem unknown"
    ∷ codes "server error"
    ∷ codes "unknown host name"
    ∷ codes "connection error"
    ∷ codes "permission denied"
    ∷ codes "not connected"
    ∷ codes "unexpected end-of-file"
    ∷ codes "invalid response data"
    ∷ codes "disc not found"
    ∷ codes "command data missing"
    ∷ codes "track not found"
    ∷ codes "posted data rejected"
    ∷ codes "submit e-mail address invalid"
    ∷ codes "invalid character set or unsupported conversion"
    ∷ codes "character set conversion failed"
    ∷ codes "proxy authentication failed"
    ∷ codes "invalid input parameter"
    ∷ []

-- The table's entry for a code, read out of it only where the index lies in it.
unfoldable pub error_str : ℤ → Run CString
error_str errnum =
    if ltb_ℤ errnum (pos 0) || leb_ℤ (pos last_error) errnum
    then value none
    else elim (get_elem? err_str (pos_part errnum)) [ none ↦ fault | some text ↦ value (some text) ]

error_str-no_fault : (errnum : ℤ) → error_str errnum ≢ fault
unfolding error_str
error_str-no_fault (negsuc n) = ground arith
error_str-no_fault (pos n) = elim (dec_lt n 21) [
  | yes h ↦ let (text, e) = get_elem?-some err_str n h in rw e (ground arith)
  | no h ↦ ground arith
]

error_str-text : (e : ErrorCode) → error_str (pos (number e)) ≢ value none
unfolding error_str
error_str-text ok = ground arith
error_str-text _ = ground arith

-- No number leads outside the table, and every code has a text.
pub error_str_total :
    ((errnum : ℤ) → error_str errnum ≢ fault)
    × ((e : ErrorCode) → error_str (pos (number e)) ≢ value none)
error_str_total = (error_str-no_fault, error_str-text)
