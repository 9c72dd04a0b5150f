-- ===== src/DtcDecode/Tests.antt =====
-- Tests of src/dtc_decode.c, and the theorems at concrete frames.
use telenode.Prelude.{
  ℕ, ◌≡◌, ◌≢◌, inr, ◌≤◌, refl, List, [], ◌∷◌, ◌++◌, length, arith, replicate, map,
}
use telenode.Prelude.Errno.{ok, err, einval}
use telenode.DtcDecode.{Code, build_request, format_code, parse_response, max_codes_per_frame}
use telenode.Prelude.{◌<◌, ◌⊎◌, get_or, take, drop}
use telenode.DtcDecode.{service_read_stored_dtcs_resp}
use telenode.DtcDecode.Spec.{codes_of, parse_response_refines}
use telenode.DtcDecode.Codes.{
  Dtc, powertrain, network, text, payload, parse_response-payload, format_code-ne,
}

-- P0301 and U3FA0, then an unused slot.
abbrev frame : List ℕ
frame = 4 ∷ 0x43 ∷ 0x03 ∷ 0x01 ∷ 0xFF ∷ 0xA0 ∷ 0 ∷ 0 ∷ []

abbrev p0301 : Code
p0301 = b'P' ∷ b'0' ∷ b'3' ∷ b'0' ∷ b'1' ∷ []

abbrev u3fa0 : Code
u3fa0 = b'U' ∷ b'3' ∷ b'F' ∷ b'A' ∷ b'0' ∷ []

parse-frame : parse_response frame 8 ≡ ok (p0301 ∷ u3fa0 ∷ [])
unfolding parse_response format_code
parse-frame = refl

parse-mode_01 : parse_response (4 ∷ 0x41 ∷ 0x0C ∷ 0x1A ∷ 0xF8 ∷ []) 5 ≡ err einval
unfolding parse_response
parse-mode_01 = refl

length-build_request : length build_request ≡ 8
unfolding build_request
length-build_request = refl

abbrev dtcs : List Dtc
dtcs =
    record { category = powertrain; first = 0; second = 3; third = 0; fourth = 1 }
    ∷ record { category = network; first = 3; second = 15; third = 10; fourth = 0 }
    ∷ []

parse_response-payload_example :
    parse_response (4 ∷ 0x43 ∷ (payload dtcs ++ replicate 2 0)) 8 ≡ ok (map text dtcs)
unfolding payload
parse_response-payload_example =
    parse_response-payload 4 dtcs 2 (omega arith) (omega arith) (omega arith)

format_code-ne_example : format_code 0x03 0x01 ≢ format_code 0x03 0x02
format_code-ne_example =
    format_code-ne 0x03 0x01 0x03 0x02 (omega arith) (omega arith) (omega arith) (omega arith)
      (inr (omega arith))

parse_response_refines_example :
    ((length frame < 2) ⊎ (get_or frame 1 0 ≢ service_read_stored_dtcs_resp))
      × (parse_response frame 8 ≡ err einval)
    ⊎ (2 ≤ length frame)
      × (get_or frame 1 0 ≡ service_read_stored_dtcs_resp)
      × (parse_response frame 8 ≡ ok (take max_codes_per_frame (codes_of (drop 2 frame))))
parse_response_refines_example = parse_response_refines frame
