-- ===== src/DtcDecode/Codes.antt =====
-- The text that src/dtc_decode.c prints of a trouble code, against the code's own parts.
use telenode.Prelude.{
  ◌⊎◌, ◌≢◌, inl, inr, Bool-cases, length-take, All-take, ℕ, zero, suc, ◌+◌, ◌-◌, ◌*◌, ◌/◌, ◌%◌, ◌^◌,
  ◌≤◌, ◌<◌, ◌≡◌, refl, sym, ap, ap₂, ◌∙◌, false, ◌&&◌, List, [], ◌∷◌, ◌++◌, ltb, ◌==◌,
  if◌then◌else◌, length, get_or, take, take_all, drop, map, replicate, arith, All,
}
use telenode.Prelude.Errno.{ok}
use telenode.DtcDecode.{
  Code, DtcList, max_codes_per_frame, service_read_stored_dtcs_resp, category_letters, hex_digit,
  format_code, parse_response,
}
use telenode.DtcDecode.Spec.{codes_of, parse_response_refines}

-- A trouble code: powertrain, chassis, body or network, and four digits.
pub data Category : Type 0 where
  powertrain chassis body network : Category

pub record Dtc : Type 0 where
  pub category : Category
  pub first : ℕ
  pub second : ℕ
  pub third : ℕ
  pub fourth : ℕ

-- The first digit has two bits, the others four; two zero bytes stand for no code.
pub record IsDtc (d : Dtc) : Type 0 where
  pub first_fits : d.first < 4
  pub second_fits : d.second < 16
  pub third_fits : d.third < 16
  pub fourth_fits : d.fourth < 16

abbrev pub index : Category → ℕ
index powertrain = 0
index chassis = 1
index body = 2
index network = 3

abbrev pub letter : Category → ℕ
letter powertrain = b'P'
letter chassis = b'C'
letter body = b'B'
letter network = b'U'

abbrev pub text : Dtc → Code
text d =
    letter d.category
    ∷ hex_digit d.first
    ∷ hex_digit d.second
    ∷ hex_digit d.third
    ∷ hex_digit d.fourth
    ∷ []

abbrev pub byte0 : Dtc → ℕ
byte0 d = index d.category * 64 + d.first * 16 + d.second

abbrev pub byte1 : Dtc → ℕ
byte1 d = d.third * 16 + d.fourth

abbrev pub IsUsed : Dtc → Type 0
IsUsed d = 0 < byte0 d + byte1 d

-- The bytes of a payload with these codes.
unfoldable pub payload : List Dtc → List ℕ
payload [] = []
payload (d ∷ ds) = byte0 d ∷ byte1 d ∷ payload ds

letter-index : (c : Category) → get_or category_letters (index c) 0 ≡ letter c
letter-index powertrain = refl
letter-index chassis = refl
letter-index body = refl
letter-index network = refl

index-lt : (c : Category) → index c < 4
index-lt powertrain = omega arith
index-lt chassis = omega arith
index-lt body = omega arith
index-lt network = omega arith

code_path :
    {a a' b b' c c' d d' e e' : ℕ}
    → a ≡ a'
    → b ≡ b'
    → c ≡ c'
    → d ≡ d'
    → e ≡ e'
    → ◌≡◌ {A = Code} (a ∷ b ∷ c ∷ d ∷ e ∷ []) (a' ∷ b' ∷ c' ∷ d' ∷ e' ∷ [])
code_path p q r s t = λ i. p i ∷ q i ∷ r i ∷ s i ∷ t i ∷ []

-- The two bytes of a code are printed as its letter and its four digits.
pub format_code-text : (d : Dtc) → IsDtc d → format_code (byte0 d) (byte1 d) ≡ text d
unfolding format_code
format_code-text d v =
    code_path
      (ap (λ k. get_or category_letters k 0)
          (omega (arith, index-lt d.category, v.first_fits, v.second_fits))
        ∙ letter-index d.category)
      (ap hex_digit (omega (arith, v.first_fits, v.second_fits)))
      (ap hex_digit (omega (arith, v.first_fits, v.second_fits)))
      (ap hex_digit (omega (arith, v.third_fits, v.fourth_fits)))
      (ap hex_digit (omega (arith, v.third_fits, v.fourth_fits)))

codes_of-zeros : (n : ℕ) → codes_of (replicate n 0) ≡ []
unfolding codes_of
codes_of-zeros zero = refl
codes_of-zeros (suc zero) = refl
codes_of-zeros (suc (suc n)) = codes_of-zeros n

used-test : (d : Dtc) → IsUsed d → (byte0 d == 0 && byte1 d == 0) ≡ false
used-test d u = ground arith

codes_of-payload :
    (ds : List Dtc) (pad : ℕ)
    → All IsDtc ds
    → All IsUsed ds
    → codes_of (payload ds ++ replicate pad 0) ≡ map text ds
unfolding codes_of payload
codes_of-payload [] pad v u = codes_of-zeros pad
codes_of-payload (d ∷ ds) pad v u =
    rw (used-test d u.0) (ap₂ ◌∷◌ (format_code-text d v.0) (codes_of-payload ds pad v.1 u.1))

length-map-text : (ds : List Dtc) → length (map text ds) ≡ length ds
length-map-text [] = refl
length-map-text (d ∷ ds) = ap suc (length-map-text ds)

-- A Mode 03 response that carries at most three codes, padded with zero bytes to any length, is
-- parsed to the texts of those codes, in order.
pub parse_response-payload :
    (len : ℕ) (ds : List Dtc) (pad : ℕ)
    → All IsDtc ds
    → All IsUsed ds
    → length ds ≤ max_codes_per_frame
    → let frame = len ∷ service_read_stored_dtcs_resp ∷ (payload ds ++ replicate pad 0) in
      parse_response frame (length frame) ≡ ok (map text ds)
parse_response-payload len ds pad v u fits =
    elim (parse_response_refines
      (len ∷ service_read_stored_dtcs_resp ∷ (payload ds ++ replicate pad 0))) [
        | inl (bad, _) ↦
            absurd (elim bad [ inl short ↦ absurd (omega arith) | inr other ↦ other refl ])
        | inr (_, _, e) ↦
            e
            ∙ ap (λ l. ok (take 3 l)) (codes_of-payload ds pad v u)
            ∙ ap ok (take_all 3 (map text ds) (omega (arith, length-map-text ds)))
      ]

-- Reading a text back: the place of the letter, and the value of a digit.
letter_place : ℕ → ℕ
letter_place c = if c == b'P' then 0 else if c == b'C' then 1 else if c == b'B' then 2 else 3

digit_value : ℕ → ℕ
digit_value c = if ltb c b'A' then c - b'0' else c + 10 - b'A'

letter_place-letter : (i : ℕ) → i < 4 → letter_place (get_or category_letters i 0) ≡ i
unfolding letter_place
letter_place-letter zero h = refl
letter_place-letter (suc zero) h = refl
letter_place-letter (suc (suc zero)) h = refl
letter_place-letter (suc (suc (suc zero))) h = refl
letter_place-letter (suc (suc (suc (suc i)))) h = absurd (omega arith)

digit_value-hex_digit : (n : ℕ) → n < 16 → digit_value (hex_digit n) ≡ n
unfolding digit_value
digit_value-hex_digit n h = ground arith

read_byte0 : Code → ℕ
read_byte0 c =
    letter_place (get_or c 0 0) * 64 + digit_value (get_or c 1 0) * 16 + digit_value (get_or c 2 0)

read_byte1 : Code → ℕ
read_byte1 c = digit_value (get_or c 3 0) * 16 + digit_value (get_or c 4 0)

read_byte0-format_code : (a b : ℕ) → a < 256 → read_byte0 (format_code a b) ≡ a
unfolding read_byte0 format_code
read_byte0-format_code a b h = omega (
  arith,
  letter_place-letter (a / 2 ^ 6 % 4) (omega arith),
  digit_value-hex_digit (a / 2 ^ 4 % 4) (omega arith),
  digit_value-hex_digit (a % 16) (omega arith),
)

read_byte1-format_code : (a b : ℕ) → b < 256 → read_byte1 (format_code a b) ≡ b
unfolding read_byte1 format_code
read_byte1-format_code a b h = omega (
  arith,
  digit_value-hex_digit (b / 2 ^ 4 % 16) (omega arith),
  digit_value-hex_digit (b % 16) (omega arith),
)

format_code_injective :
    (a b c d : ℕ)
    → a < 256
    → b < 256
    → c < 256
    → d < 256
    → format_code a b ≡ format_code c d
    → (a ≡ c) × (b ≡ d)
format_code_injective a b c d ha hb hc hd e = (
  sym (read_byte0-format_code a b ha) ∙ ap read_byte0 e ∙ read_byte0-format_code c d hc,
  sym (read_byte1-format_code a b hb) ∙ ap read_byte1 e ∙ read_byte1-format_code c d hd,
)

-- Two codes that differ in a byte are printed differently, so that a caller who compares the texts
-- compares the codes.
pub format_code-ne :
    (a b c d : ℕ)
    → a < 256
    → b < 256
    → c < 256
    → d < 256
    → (a ≢ c) ⊎ (b ≢ d)
    → format_code a b ≢ format_code c d
format_code-ne a b c d ha hb hc hd apart e =
    let (p, q) = format_code_injective a b c d ha hb hc hd e in
    elim apart [ inl n ↦ n p | inr n ↦ n q ]

-- Five characters: with the NUL they fill `DTC_CODE_STRLEN`.
abbrev pub IsCode : Code → Type 0
IsCode c = length c ≡ 5

codes_of-IsCode : (bytes : List ℕ) → All IsCode (codes_of bytes)
unfolding codes_of format_code
codes_of-IsCode [] = tt
codes_of-IsCode (b0 ∷ []) = tt
codes_of-IsCode (b0 ∷ b1 ∷ bytes) = elim (Bool-cases (b0 == 0 && b1 == 0)) [
  | inl unused ↦ rw unused (codes_of-IsCode bytes)
  | inr used ↦ rw used (refl, codes_of-IsCode bytes)
]

-- Whatever the frame, what is parsed fits `struct dtc_list`: three codes at most, each of five
-- characters.
pub parse_response_fits :
    (frame : List ℕ) (out : DtcList)
    → parse_response frame (length frame) ≡ ok out
    → (length out ≤ max_codes_per_frame) × All IsCode out
parse_response_fits frame out h = elim (parse_response_refines frame) [
  | inl (_, e) ↦ cc
  | inr (_, _, e) ↦
      let same : take max_codes_per_frame (codes_of (drop 2 frame)) ≡ out = cc in
      rw (← same) (
        omega (arith, length-take 3 (codes_of (drop 2 frame))),
        All-take IsCode 3 (codes_of (drop 2 frame)) (codes_of-IsCode _),
      )
]
