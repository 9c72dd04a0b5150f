-- ===== src/Sensors/Serial.antt =====
-- `serial_cb` of src/app_sensors.c, which cuts the bytes of the UART into sentences.
use telenode.Prelude.{
  ℕ, ◌-◌, ◌≤◌, ◌<◌, ◌≡◌, ◌≢◌, ◌⊎◌, refl, sym, ap, ap₂, ◌∙◌, subst, Bool, true, false, ◌&&◌, List,
  [], ◌∷◌, ◌++◌, Option, none, some, ltb, ◌==◌, length, take, map, All, if◌then◌else◌, Bool-cases,
  inl, inr, arith, append_assoc, append-nil, length-append, length-take, take-append, take_all,
}
use telenode.Prelude.Texts.{Lacks}

abbrev pub nmea_size : ℕ
nmea_size = 128

-- The sentence for `process_reading`: what `rx_buf` holds up to `rx_buf_pos`, then a newline if it has
-- room, then the NUL.
abbrev pub terminated : List ℕ → List ℕ
terminated rx = if length rx == nmea_size - 1 then rx else rx ++ (b'\n' ∷ [])

-- One byte: the sentence that it ends, and what `rx_buf` holds afterwards.
unfoldable pub serial_byte : List ℕ → ℕ → Option (List ℕ) × List ℕ
serial_byte rx c =
    if c == b'\n' && ltb 0 (length rx)
    then (some (terminated rx), [])
    else if ltb (length rx) (nmea_size - 1)
    then (none, rx ++ (c ∷ []))
    else (none, rx)

abbrev pub prepend : Option (List ℕ) → List (List ℕ) → List (List ℕ)
prepend none sentences = sentences
prepend (some s) sentences = s ∷ sentences

-- The loop of `serial_cb`: the calls of `process_reading`, in order, and `rx_buf` afterwards.
unfoldable pub serial_bytes : List ℕ → List ℕ → List (List ℕ) × List ℕ
serial_bytes rx [] = ([], rx)
serial_bytes rx (c ∷ bytes) =
    let (sentence, rx') = serial_byte rx c in
    let (sentences, rx'') = serial_bytes rx' bytes in (prepend sentence sentences, rx'')

-- `serial_cb`
unfoldable pub serial_cb : Bool → List ℕ → List ℕ → List (List ℕ) × List ℕ
serial_cb updated rx bytes = if updated then serial_bytes rx bytes else ([], rx)

abbrev pub clipped : List ℕ → List ℕ
clipped l = if ltb (length l) 127 then l ++ (b'\n' ∷ []) else take 127 l

-- A line of the receiver, without its newline.
abbrev pub IsLine : List ℕ → Type 0
IsLine l = Lacks b'\n' l × (0 < length l)

abbrev pub stream : List (List ℕ) → List ℕ
stream [] = []
stream (l ∷ lines) = l ++ (b'\n' ∷ stream lines)

byte-room :
    (rx : List ℕ) (c : ℕ) → c ≢ b'\n' → length rx < 127 → serial_byte rx c ≡ (none, rx ++ (c ∷ []))
unfolding serial_byte
byte-room rx c h room = ground arith

byte-full : (rx : List ℕ) (c : ℕ) → c ≢ b'\n' → length rx ≡ 127 → serial_byte rx c ≡ (none, rx)
unfolding serial_byte
byte-full rx c h full = ground arith

byte-newline : (rx : List ℕ) → 0 < length rx → serial_byte rx b'\n' ≡ (some (terminated rx), [])
unfolding serial_byte
byte-newline rx h = ground arith

step-none :
    {rx' : List ℕ} (rx : List ℕ) (c : ℕ) (bytes : List ℕ)
    → serial_byte rx c ≡ (none, rx')
    → serial_bytes rx (c ∷ bytes) ≡ serial_bytes rx' bytes
unfolding serial_bytes
step-none rx c bytes h = rw h refl

step-some :
    {rx' sentence : List ℕ} (rx : List ℕ) (c : ℕ) (bytes : List ℕ)
    → serial_byte rx c ≡ (some sentence, rx')
    → serial_bytes rx (c ∷ bytes)
      ≡ (sentence ∷ (serial_bytes rx' bytes).0, (serial_bytes rx' bytes).1)
unfolding serial_bytes
step-some rx c bytes h = rw h refl

-- The bytes of a line go to the buffer until it holds 127 of them.
body :
    (rx l rest : List ℕ)
    → Lacks b'\n' l
    → length rx ≤ 127
    → serial_bytes rx (l ++ rest) ≡ serial_bytes (take 127 (rx ++ l)) rest
unfolding serial_bytes
body rx [] rest h fits =
    ap (λ r. serial_bytes r rest)
      (sym (
        take_all 127 (rx ++ []) (subst (λ x. length x ≤ 127) (sym (append-nil rx)) fits)
        ∙ append-nil rx))
body rx (c ∷ l) rest h fits = elim (Bool-cases (ltb (length rx) 127)) [
  | inl room ↦
      let k : length rx < 127 = ground arith in
      step-none rx c (l ++ rest) (byte-room rx c h.0 k)
      ∙ body (rx ++ (c ∷ [])) l rest h.1 (omega (arith, length-append rx (c ∷ [])))
      ∙ ap (λ x. serial_bytes (take 127 x) rest) (append_assoc rx (c ∷ []) l)
  | inr full ↦
      let k : length rx ≡ 127 = ground arith in
      step-none rx c (l ++ rest) (byte-full rx c h.0 k)
      ∙ body rx l rest h.1 fits
      ∙ ap (λ x. serial_bytes x rest) (take-append 127 rx l k ∙ sym (take-append 127 rx (c ∷ l) k))
]

terminated-take : (l : List ℕ) → terminated (take 127 l) ≡ clipped l
terminated-take l = elim (Bool-cases (ltb (length l) 127)) [
  | inl short ↦
      let k : take 127 l ≡ l = take_all 127 l (ground arith) in
      let e : (length l == 127) ≡ false = ground arith in rw (k, e, short) refl
  | inr long ↦
      let k : length (take 127 l) ≡ 127 =
        let m = length-take 127 l in let n : 127 ≤ length l = ground arith in omega arith in
      let e : (length (take 127 l) == 127) ≡ true = rw k refl in rw (e, long) refl
]

-- Non-empty lines without newlines, each followed by one, are cut into exactly these lines: `rx_buf` is
-- empty at the end, and a line of fewer than 127 characters keeps its newline, while of a longer one
-- the first 127 characters are kept without it.
pub serial_bytes-stream :
    (lines : List (List ℕ))
    → All IsLine lines
    → serial_bytes [] (stream lines) ≡ (map clipped lines, [])
unfolding serial_bytes
serial_bytes-stream [] h = refl
serial_bytes-stream (l ∷ lines) h =
    let k : 0 < length (take 127 l) = let m = length-take 127 l in let n = h.0.1 in omega arith in
    body [] l (b'\n' ∷ stream lines) h.0.0 (omega arith)
    ∙ step-some (take 127 l) b'\n' (stream lines) (byte-newline (take 127 l) k)
    ∙ ap₂ (λ x y. (x ∷ y.0, y.1)) (terminated-take l) (serial_bytes-stream lines h.1)

first_newline : serial_byte [] b'\n' ≡ (none, b'\n' ∷ [])
unfolding serial_byte
first_newline = refl

-- A blank line is not skipped: its newline stays in the buffer, in front of the next line.
pub serial_bytes-blank :
    (l rest : List ℕ)
    → IsLine l
    → serial_bytes [] (b'\n' ∷ (l ++ (b'\n' ∷ rest)))
      ≡ (clipped (b'\n' ∷ l) ∷ (serial_bytes [] rest).0, (serial_bytes [] rest).1)
serial_bytes-blank l rest h =
    step-none [] b'\n' (l ++ (b'\n' ∷ rest)) first_newline
    ∙ body (b'\n' ∷ []) l (b'\n' ∷ rest) h.0 (omega arith)
    ∙ step-some (take 127 (b'\n' ∷ l)) b'\n' rest
        (byte-newline (take 127 (b'\n' ∷ l)) (omega arith))
    ∙ ap (λ x. (x ∷ (serial_bytes [] rest).0, (serial_bytes [] rest).1))
        (terminated-take (b'\n' ∷ l))

length-terminated : (rx : List ℕ) → length rx < nmea_size → length (terminated rx) < nmea_size
length-terminated rx h = elim (Bool-cases (length rx == nmea_size - 1)) [
  | inl full ↦ rw full h
  | inr room ↦ rw room (
      let e = length-append rx (b'\n' ∷ []) in
      let k : length rx ≢ 127 = ground arith in omega arith)
]

byte-cases :
    (rx : List ℕ) (c : ℕ)
    → length rx < nmea_size
    → ((rx' : List ℕ) × (serial_byte rx c ≡ (none, rx')) × (length rx' < nmea_size))
      ⊎ (serial_byte rx c ≡ (some (terminated rx), []))
unfolding serial_byte
byte-cases rx c h = elim (Bool-cases (c == b'\n' && ltb 0 (length rx))) [
  | inl ends ↦ inr (rw ends refl)
  | inr goes_on ↦ elim (Bool-cases (ltb (length rx) 127)) [
    | inl room ↦ inl (
      rx ++ (c ∷ []),
      rw (goes_on, room) refl,
      let e = length-append rx (c ∷ []) in let k : length rx < 127 = ground arith in omega arith,
    )
    | inr full ↦ inl (rx, rw (goes_on, full) refl, h)
  ]
]

-- Whatever the bytes, no write leaves `rx_buf`: it never holds more than 127 characters, and each
-- sentence, its NUL included, fits its 128.
pub serial_bytes_fits :
    (rx bytes : List ℕ)
    → length rx < nmea_size
    → (length (serial_bytes rx bytes).1 < nmea_size)
      × All (λ s. length s < nmea_size) (serial_bytes rx bytes).0
unfolding serial_bytes
serial_bytes_fits rx [] h = (h, tt)
serial_bytes_fits rx (c ∷ bytes) h = elim (byte-cases rx c h) [
  | inl (rx', e, fits) ↦ rw e (serial_bytes_fits rx' bytes fits)
  | inr e ↦
      let (fits, all) = serial_bytes_fits [] bytes (omega arith) in
      rw e (fits, (length-terminated rx h, all))
]
