-- ===== src/DtcDecode.antt =====
-- src/dtc_decode.c and dtc_decode.h: the SAE J1979 Mode 03 request and the parser of its response.
-- Bytes and characters are numbers; a code is its five characters, without the terminating NUL.
pub mod Spec
pub mod Codes
mod Tests
use telenode.Prelude.{
  ℕ, zero, suc, ◌+◌, ◌-◌, ◌/◌, ◌%◌, ◌^◌, Bool, true, false, ◌&&◌, ◌||◌, not, List, [], ◌∷◌, ◌++◌,
  ltb, ◌==◌, if◌then◌else◌, length, get_or, replicate,
}
use telenode.Prelude.Errno.{Result, ok, err, einval}

abbrev pub max_codes_per_frame : ℕ
max_codes_per_frame = 3

-- OBD2_SERVICE_READ_STORED_DTCS and its response
abbrev pub service_read_stored_dtcs : ℕ
service_read_stored_dtcs = 0x03

abbrev pub service_read_stored_dtcs_resp : ℕ
service_read_stored_dtcs_resp = 0x03 + 0x40

abbrev pub category_letters : List ℕ
category_letters = b'P' ∷ b'C' ∷ b'B' ∷ b'U' ∷ []

-- `char codes[...][DTC_CODE_STRLEN]` and its count, the length of the list
abbrev pub Code : Type 0
Code = List ℕ

abbrev pub DtcList : Type 0
DtcList = List Code

-- `dtc_decode_build_request`
pub build_request : List ℕ
build_request = 1 ∷ service_read_stored_dtcs ∷ replicate 6 0xCC

-- What `%X` (and `%u`, below ten) prints of a digit.
abbrev pub hex_digit : ℕ → ℕ
hex_digit n = if ltb n 10 then b'0' + n else b'A' + n - 10

-- The text of one code, `"%c%1u%1X%1X%1X"`.
unfoldable pub format_code : ℕ → ℕ → Code
format_code b0 b1 =
    get_or category_letters (b0 / 2 ^ 6 % 4) 0
    ∷ hex_digit (b0 / 2 ^ 4 % 4)
    ∷ hex_digit (b0 % 16)
    ∷ hex_digit (b1 / 2 ^ 4 % 16)
    ∷ hex_digit (b1 % 16)
    ∷ []

-- One round of the loop: a slot of two zero bytes is unused.
abbrev pub add_code : ℕ → ℕ → DtcList → DtcList
add_code b0 b1 out = if b0 == 0 && b1 == 0 then out else out ++ (format_code b0 b1 ∷ [])

-- The loop from index `i`. Its fuel is `len`, since `i` grows and stays below it.
pub parse_from : ℕ → List ℕ → ℕ → ℕ → DtcList → DtcList
parse_from zero frame len i out = out
parse_from (suc fuel) frame len i out =
    let rest =
      parse_from fuel frame len (i + 2)
        (add_code (get_or frame i 0) (get_or frame (i + 1) 0) out) in
    if ltb (i + 1) len && ltb (length out) max_codes_per_frame then rest else out

-- `dtc_decode_parse_response`; on an error `*out` is left alone.
unfoldable pub parse_response : List ℕ → ℕ → Result DtcList
unfolding parse_from
parse_response frame len =
    if ltb len 2 || not (get_or frame 1 0 == service_read_stored_dtcs_resp)
    then err einval
    else ok (parse_from len frame len 2 [])
