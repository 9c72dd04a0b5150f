-- ===== src/DtcDecode/Spec.antt =====
-- src/dtc_decode.c against a description by lists: the payload is cut into pairs of bytes, unused
-- pairs are left out, the rest are printed, and the first three are kept.
use telenode.Prelude.{
  ℕ, zero, suc, ◌+◌, ◌≤◌, ◌<◌, ◌≡◌, ◌⊎◌, refl, sym, ap, ◌∙◌, ◌&&◌, ◌||◌, not, List, [], ◌∷◌, ◌++◌,
  append_assoc, append-nil, ltb, ◌==◌, if◌then◌else◌, length, get_or, take, take_all, take-append,
  drop, drop-suc, get_or-drop, length-drop, length-append, ap₂, ◌≢◌, ltb→lt, arith, Bool-cases, inl,
  inr,
}
use telenode.Prelude.Errno.{ok, err, einval}
use telenode.DtcDecode.{
  DtcList, max_codes_per_frame, service_read_stored_dtcs_resp, format_code, add_code, parse_from,
  parse_response,
}

-- All codes of a payload, in order; a last single byte says nothing.
unfoldable pub codes_of : List ℕ → DtcList
codes_of [] = []
codes_of (b0 ∷ []) = []
codes_of (b0 ∷ b1 ∷ payload) =
    if b0 == 0 && b1 == 0 then codes_of payload else format_code b0 b1 ∷ codes_of payload

loop_stops :
    (fuel : ℕ) (frame : List ℕ) (i : ℕ) (out : DtcList)
    → length frame ≤ i + 1
    → parse_from fuel frame (length frame) i out ≡ out
unfolding parse_from
loop_stops zero frame i out h = refl
loop_stops (suc fuel) frame i out h = ground arith

loop_full :
    (fuel : ℕ) (frame : List ℕ) (i : ℕ) (out : DtcList)
    → length out ≡ max_codes_per_frame
    → parse_from fuel frame (length frame) i out ≡ out
unfolding parse_from
loop_full zero frame i out h = refl
loop_full (suc fuel) frame i out h = ground arith

loop_steps :
    (fuel : ℕ) (frame : List ℕ) (i : ℕ) (out : DtcList)
    → i + 1 < length frame
    → length out < max_codes_per_frame
    → parse_from (suc fuel) frame (length frame) i out
      ≡ parse_from fuel frame
          (length frame)
          (i + 2)
          (add_code (get_or frame i 0) (get_or frame (i + 1) 0) out)
unfolding parse_from
loop_steps fuel frame i out h room = ground arith

add_code-codes_of :
    (b0 b1 : ℕ) (out : DtcList) (payload : List ℕ)
    → add_code b0 b1 out ++ codes_of payload ≡ out ++ codes_of (b0 ∷ b1 ∷ payload)
unfolding codes_of
add_code-codes_of b0 b1 out payload = elim (Bool-cases (b0 == 0 && b1 == 0)) [
  | inl unused ↦ rw unused refl
  | inr used ↦ rw used (append_assoc out (format_code b0 b1 ∷ []) (codes_of payload))
]

length-add_code : (b0 b1 : ℕ) (out : DtcList) → length (add_code b0 b1 out) ≤ length out + 1
length-add_code b0 b1 out = elim (Bool-cases (b0 == 0 && b1 == 0)) [
  | inl unused ↦ rw unused (omega arith)
  | inr used ↦ rw used (omega (arith, length-append out (format_code b0 b1 ∷ [])))
]

-- The loop at index `i` adds the codes of what lies behind `i`, as long as there is room.
parse_from-codes_of :
    (fuel : ℕ) (frame : List ℕ) (i : ℕ) (out : DtcList) (rest : List ℕ)
    → length out ≤ max_codes_per_frame
    → drop i frame ≡ rest
    → length rest ≤ fuel
    → parse_from fuel frame (length frame) i out ≡ take max_codes_per_frame (out ++ codes_of rest)
unfolding codes_of
parse_from-codes_of fuel frame i out [] room at enough =
    loop_stops fuel frame i out (omega (arith, length-drop i frame, ap length at))
    ∙ sym (ap (take 3) (append-nil out) ∙ take_all 3 out room)
parse_from-codes_of fuel frame i out (b ∷ []) room at enough =
    loop_stops fuel frame i out (omega (arith, length-drop i frame, ap length at))
    ∙ sym (ap (take 3) (append-nil out) ∙ take_all 3 out room)
parse_from-codes_of zero frame i out (b0 ∷ b1 ∷ rest) room at enough = absurd (omega arith)
parse_from-codes_of (suc fuel) frame i out (b0 ∷ b1 ∷ rest) room at enough =
    elim (Bool-cases (ltb (length out) max_codes_per_frame)) [
      | inr full ↦
          loop_full (suc fuel) frame i out (ground arith)
          ∙ sym (take-append 3 out (codes_of (b0 ∷ b1 ∷ rest)) (ground arith))
      | inl more ↦
          let e₁ : i + 1 ≡ suc i = omega arith in
          let e₂ : i + 2 ≡ suc (suc i) = omega arith in
          let next = drop-suc i frame b0 (b1 ∷ rest) at in
          loop_steps fuel frame i out (omega (arith, length-drop i frame, ap length at))
            (ground arith)
          ∙ ap₂ (λ x y. parse_from fuel frame (length frame) (i + 2) (add_code x y out))
              (get_or-drop i frame b0 0 _ at) (rw e₁ (get_or-drop (suc i) frame b1 0 _ next))
          ∙ parse_from-codes_of fuel frame (i + 2) (add_code b0 b1 out) rest
              (omega (arith, length-add_code b0 b1 out, ltb→lt (length out) 3 more))
              (rw e₂ (drop-suc (suc i) frame b1 rest next)) (omega arith)
          ∙ ap (take 3) (add_code-codes_of b0 b1 out rest)
    ]

-- `dtc_decode_parse_response` refuses exactly a frame of fewer than two bytes and one whose second
-- byte is not the Mode 03 response; of any other it returns the first three codes of the payload.
pub parse_response_refines :
    (frame : List ℕ)
    → ((length frame < 2) ⊎ (get_or frame 1 0 ≢ service_read_stored_dtcs_resp))
        × (parse_response frame (length frame) ≡ err einval)
      ⊎ (2 ≤ length frame)
        × (get_or frame 1 0 ≡ service_read_stored_dtcs_resp)
        × (parse_response frame (length frame)
            ≡ ok (take max_codes_per_frame (codes_of (drop 2 frame))))
unfolding parse_response
parse_response_refines frame =
    elim (Bool-cases
      (ltb (length frame) 2 || not (get_or frame 1 0 == service_read_stored_dtcs_resp))) [
        | inl bad ↦ inl (ground arith, rw bad refl)
        | inr good ↦ inr (
          ground arith,
          ground arith,
          rw good (
              ap ok (
                parse_from-codes_of (length frame) frame 2 [] (drop 2 frame) (omega arith) refl
                  (omega (arith, length-drop 2 frame)))),
        )
      ]
