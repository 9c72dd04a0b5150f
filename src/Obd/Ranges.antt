-- ===== src/Obd/Ranges.antt =====
-- The ranges of what a round of src/obd_j1979.c stores, when frames hold bytes.
use telenode.Prelude.{
  ℕ, zero, suc, ◌+◌, ◌≤◌, ◌<◌, ◌≡◌, refl, subst, List, [], ◌∷◌, ◌++◌, Option, none, some, leb,
  length, get_or, All, Bool-cases, Option-cases, inl, inr, arith,
}
use telenode.Prelude.Errno.{Result, ok, err, etimedout, Result-cases, Done-cases}
use telenode.DtcDecode.{DtcList, parse_response, max_codes_per_frame}
use telenode.DtcDecode.Codes.{IsCode, parse_response_fits}
use telenode.Obd.{
  Turn, Exchange, request_pid, await_dtcs, request_dtcs, ℤ, pos, negsuc, minus, Round, value_of,
  poll, pid_vehicle_speed, pid_engine_rpm, pid_coolant_temp, response_wait_timeout_ms,
}
use telenode.Obd.Match.{request_pid_iff}

abbrev pub Within {ℓ κ} : {A : Type ℓ} → (A → Type κ) → Option A → Type κ
Within P none = Unit
Within P (some a) = P a

abbrev pub IsBytes : List ℕ → Type 0
IsBytes frame = All (λ b. b < 256) frame

abbrev pub HasBytes : Turn → Type 0
HasBytes turn = Within IsBytes turn.received

-- -40 to 215 degrees
abbrev pub IsCoolant : ℤ → Type 0
IsCoolant (pos n) = n ≤ 215
IsCoolant (negsuc n) = n < 40

abbrev pub FitsDtcList : DtcList → Type 0
FitsDtcList dtcs = (length dtcs ≤ max_codes_per_frame) × All IsCode dtcs

get_or-byte : (frame : List ℕ) (i : ℕ) → IsBytes frame → get_or frame i 0 < 256
get_or-byte [] i h = omega arith
get_or-byte (b ∷ frame) zero h = h.0
get_or-byte (b ∷ frame) (suc i) h = get_or-byte frame i h.1

All-middle {ℓ κ} :
    {A : Type ℓ} (P : A → Type κ) (xs : List A) (y : A) (zs : List A) → All P (xs ++ (y ∷ zs)) → P y
All-middle P [] y zs h = h.0
All-middle P (x ∷ xs) y zs h = All-middle P xs y zs h.1

minus-IsCoolant : (a : ℕ) → a < 256 → IsCoolant (minus a 40)
minus-IsCoolant a h = elim (Bool-cases (leb 40 a)) [
  | inl warm ↦ rw warm (omega arith)
  | inr cold ↦ rw cold (let k : a < 40 = ground arith in omega arith)
]

request_pid-IsBytes :
    (pid : ℕ) (x : Exchange) (frame : List ℕ)
    → All HasBytes x.turns
    → request_pid pid x ≡ ok frame
    → IsBytes frame
request_pid-IsBytes pid x frame h e =
    let r = ((request_pid_iff pid x frame).0 e).1 in
    let k = All-middle HasBytes r.before r.turn r.after (subst (All HasBytes) r.parts h) in
    subst (Within IsBytes) r.arrived k

value_of-Within {ℓ κ} :
    {A : Type ℓ} (P : A → Type κ) (n : ℕ) (f : List ℕ → A) (r : Result (List ℕ))
    → ((resp : List ℕ) → r ≡ ok resp → P (f resp))
    → Within P (value_of n f r)
value_of-Within P n f (err e) h = tt
value_of-Within P n f (ok resp) h = elim (Bool-cases (leb n (length resp))) [
  | inl long ↦ rw long (h resp refl)
  | inr short ↦ rw short tt
]

await_dtcs-fits :
    (deadline : ℕ) (turns : List Turn) (dtcs : DtcList)
    → await_dtcs deadline turns ≡ ok dtcs
    → FitsDtcList dtcs
unfolding await_dtcs
await_dtcs-fits deadline [] dtcs h = cc
await_dtcs-fits deadline (t ∷ turns) dtcs h = elim (Bool-cases (leb deadline t.uptime)) [
  | inl late ↦ let k : await_dtcs deadline (t ∷ turns) ≡ err etimedout = rw late refl in cc
  | inr in_time ↦ elim (Option-cases t.received) [
    | inl silent ↦
        let k : await_dtcs deadline (t ∷ turns) ≡ err etimedout = rw (in_time, silent) refl in cc
    | inr (f, e) ↦ elim (Result-cases (parse_response f (length f))) [
      | inl (found, p) ↦
          let k : await_dtcs deadline (t ∷ turns) ≡ ok found = rw (in_time, e, p) refl in
          let same : found ≡ dtcs = cc in subst FitsDtcList same (parse_response_fits f found p)
      | inr (x, p) ↦
          let k : await_dtcs deadline turns ≡ ok dtcs = rw (← h, in_time, e, p) refl in
          await_dtcs-fits deadline turns dtcs k
    ]
  ]
]

latest_fits :
    (r : Result DtcList)
    → ((dtcs : DtcList) → r ≡ ok dtcs → FitsDtcList dtcs)
    → FitsDtcList (elim r [ ok dtcs ↦ dtcs | err e ↦ [] ])
latest_fits (ok dtcs) h = h dtcs refl
latest_fits (err e) h = (omega arith, tt)

request_dtcs-fits : (x : Exchange) (dtcs : DtcList) → request_dtcs x ≡ ok dtcs → FitsDtcList dtcs
unfolding request_dtcs
request_dtcs-fits x dtcs h = elim (Done-cases x.sent) [
  | inl sent ↦
      await_dtcs-fits (x.started + response_wait_timeout_ms) x.turns dtcs (rw (← h, sent) refl)
  | inr (e, failed) ↦ let k : request_dtcs x ≡ err e = rw (failed, request_dtcs) refl in cc
]

-- Whatever frames of bytes arrive, a stored speed is at most 255 km/h, a stored engine speed below 16384 rpm, a
-- stored coolant temperature between -40 and 215 degrees, and the stored codes fit `struct dtc_list`:
-- three at most, each of five characters.
pub poll_ranges :
    {Float : Type 0} (quotient : ℕ → ℕ → Float) (round : Round)
    → All HasBytes round.speed.turns
    → All HasBytes round.rpm.turns
    → All HasBytes round.coolant.turns
    → let obd = poll quotient round in
      Within (λ v. v ≤ 255) obd.latest_data.vehicle_speed_kph
      × Within (λ v. v < 16384) obd.latest_data.engine_rpm
      × Within IsCoolant obd.latest_data.coolant_temp_c
      × FitsDtcList obd.latest_dtcs
unfolding poll
poll_ranges quotient round s r c = (
  value_of-Within (λ v. v ≤ 255) 4 _ (request_pid pid_vehicle_speed round.speed)
      (λ resp e.
        let b = get_or-byte resp 3 (request_pid-IsBytes pid_vehicle_speed round.speed resp s e) in
        omega arith),
  value_of-Within (λ v. v < 16384) 5 _ (request_pid pid_engine_rpm round.rpm)
      (λ resp e.
        let bytes = request_pid-IsBytes pid_engine_rpm round.rpm resp r e in
        let b = get_or-byte resp 3 bytes in let b' = get_or-byte resp 4 bytes in omega arith),
  value_of-Within IsCoolant 4 _ (request_pid pid_coolant_temp round.coolant) (λ resp e.
      minus-IsCoolant (get_or resp 3 0)
        (get_or-byte resp 3 (request_pid-IsBytes pid_coolant_temp round.coolant resp c e))),
  latest_fits (request_dtcs round.dtcs) (request_dtcs-fits round.dtcs),
)

-- The stored codes fit, whatever arrives.
pub poll-fits :
    {Float : Type 0} (quotient : ℕ → ℕ → Float) (round : Round)
    → FitsDtcList (poll quotient round).latest_dtcs
unfolding poll
poll-fits quotient round = latest_fits (request_dtcs round.dtcs) (request_dtcs-fits round.dtcs)
