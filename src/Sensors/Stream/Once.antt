-- ===== src/Sensors/Stream/Once.antt =====
-- The table of reported trouble codes of src/app_sensors.c: what is in it is not published again.
use telenode.Prelude.{
  suc, ◌+◌, ◌≤◌, ◌<◌, ◌≡◌, refl, sym, ap, subst, true, false, List, [], ◌∷◌, ◌++◌, length, take,
  leb, All, if◌then◌else◌, Bool-cases, inl, inr, arith, length-append, take_all,
}
use telenode.Prelude.Texts.{strcmp_refl}
use telenode.Nvs.{NvsOps}
use telenode.Mqtt.{MqttOps}
use telenode.DtcDecode.{Code, DtcList}
use telenode.DtcDecode.Codes.{IsCode}
use telenode.Sensors.Stream.{
  Names, Streams, already_reported, mark_reported, max_tracked_dtc_codes, report_dtc, report_dtcs,
}

abbrev pub IsReported : List Code → Code → Type 0
IsReported table code = already_reported table code ≡ true

IsReported-append : (t u : List Code) (c : Code) → IsReported t c → IsReported (t ++ u) c
unfolding already_reported
IsReported-append [] u c h = cc
IsReported-append (d ∷ t) u c h = let k = IsReported-append t u c in ground arith

IsReported-last : (t : List Code) (c : Code) → IsReported (t ++ (c ∷ [])) c
unfolding already_reported
IsReported-last [] c = rw (strcmp_refl c) refl
IsReported-last (d ∷ t) c = let k = IsReported-last t c in ground arith

mark_reported-keeps :
    (t : List Code) (d c : Code) → IsReported t c → IsReported (mark_reported t d) c
unfolding mark_reported
mark_reported-keeps t d c h = elim (Bool-cases (leb max_tracked_dtc_codes (length t))) [
  | inl full ↦ rw full h
  | inr room ↦ rw room (IsReported-append t (take 5 d ∷ []) c h)
]

pub mark_reported-IsReported :
    (t : List Code) (c : Code)
    → IsCode c
    → length t < max_tracked_dtc_codes
    → IsReported (mark_reported t c) c
unfolding mark_reported
mark_reported-IsReported t c code h =
    let room : leb max_tracked_dtc_codes (length t) ≡ false = ground arith in
    rw (room, take_all 5 c (omega arith)) (IsReported-last t c)

-- The table never holds more than its 16 codes.
pub length-mark_reported :
    (t : List Code) (c : Code)
    → length t ≤ max_tracked_dtc_codes
    → (length (mark_reported t c) ≤ max_tracked_dtc_codes)
      × (length (mark_reported t c) ≤ suc (length t))
unfolding mark_reported
length-mark_reported t c h = elim (Bool-cases (leb max_tracked_dtc_codes (length t))) [
  | inl full ↦ rw full (h, omega arith)
  | inr room ↦
      let k : length t < 16 = ground arith in
      let e = length-append t (take 5 c ∷ []) in rw room (omega arith, omega arith)
]

module _ {S M : Type 0} (names : Names) (nvs : NvsOps S) (mqtt : MqttOps M) where
  step-old :
      (d : Code) (dtcs : DtcList) (s : Streams S M)
      → IsReported s.reported d
      → report_dtcs names nvs mqtt s (d ∷ dtcs) ≡ report_dtcs names nvs mqtt s dtcs
  unfolding report_dtcs
  step-old d dtcs s h =
      ap (λ x. report_dtcs names nvs mqtt (if x then s else report_dtc names nvs mqtt s d) dtcs) h

  step-fresh :
      (d : Code) (dtcs : DtcList) (s : Streams S M)
      → already_reported s.reported d ≡ false
      → report_dtcs names nvs mqtt s (d ∷ dtcs)
        ≡ report_dtcs names nvs mqtt (report_dtc names nvs mqtt s d) dtcs
  unfolding report_dtcs
  step-fresh d dtcs s h =
      ap (λ x. report_dtcs names nvs mqtt (if x then s else report_dtc names nvs mqtt s d) dtcs) h

  report_dtcs-keeps :
      (dtcs : DtcList) (s : Streams S M) (c : Code)
      → IsReported s.reported c
      → IsReported (report_dtcs names nvs mqtt s dtcs).reported c
  unfolding report_dtcs report_dtc
  report_dtcs-keeps [] s c h = h
  report_dtcs-keeps (d ∷ dtcs) s c h = elim (Bool-cases (already_reported s.reported d)) [
    | inl old ↦ rw (step-old d dtcs s old) (report_dtcs-keeps dtcs s c h)
    | inr fresh ↦ rw (step-fresh d dtcs s fresh) (
        report_dtcs-keeps dtcs (report_dtc names nvs mqtt s d) c
          (mark_reported-keeps s.reported d c h))
  ]

  report_dtcs-IsReported :
      (dtcs : DtcList) (s : Streams S M)
      → All IsCode dtcs
      → length s.reported + length dtcs ≤ max_tracked_dtc_codes
      → All (IsReported (report_dtcs names nvs mqtt s dtcs).reported) dtcs
  unfolding report_dtcs report_dtc
  report_dtcs-IsReported [] s v h = tt
  report_dtcs-IsReported (d ∷ dtcs) s v h = elim (Bool-cases (already_reported s.reported d)) [
    | inl old ↦
        subst (λ x. All (IsReported x.reported) (d ∷ dtcs)) (sym (step-old d dtcs s old))
          (report_dtcs-keeps dtcs s d old, report_dtcs-IsReported dtcs s v.1 (omega arith))
    | inr fresh ↦
        let s' = report_dtc names nvs mqtt s d in
        let room : length s.reported < 16 = omega arith in
        let l = length-mark_reported s.reported d (omega arith) in
        subst (λ x. All (IsReported x.reported) (d ∷ dtcs)) (sym (step-fresh d dtcs s fresh))
          (
            report_dtcs-keeps dtcs s' d (mark_reported-IsReported s.reported d v.0 room),
            report_dtcs-IsReported dtcs s' v.1 (omega arith),
          )
  ]

  -- Codes that are all in the table change nothing: no event is published.
  pub report_dtcs-reported :
      (dtcs : DtcList) (s : Streams S M)
      → All (IsReported s.reported) dtcs
      → report_dtcs names nvs mqtt s dtcs ≡ s
  unfolding report_dtcs
  report_dtcs-reported [] s h = refl
  report_dtcs-reported (d ∷ dtcs) s h = rw h.0 (report_dtcs-reported dtcs s h.1)

  -- While the table has room for the codes of a poll, a poll that finds the same codes again changes
  -- nothing: no event is published or buffered a second time.
  pub report_dtcs_once :
      (dtcs : DtcList) (s : Streams S M)
      → All IsCode dtcs
      → length s.reported + length dtcs ≤ max_tracked_dtc_codes
      → let s' = report_dtcs names nvs mqtt s dtcs in report_dtcs names nvs mqtt s' dtcs ≡ s'
  report_dtcs_once dtcs s v h =
      report_dtcs-reported dtcs (report_dtcs names nvs mqtt s dtcs)
        (report_dtcs-IsReported dtcs s v h)
