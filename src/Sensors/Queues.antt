-- ===== src/Sensors/Queues.antt =====
-- The two message queues of src/app_sensors.c: how long they are, and which frames are in them.
use telenode.Prelude.{
  ℕ, ◌≤◌, ◌<◌, ◌≡◌, refl, ap, subst, true, false, List, [], ◌∷◌, none, some, ltb, length, All,
  All-append, Bool-cases, Option-cases, inl, inr, length-append, arith,
}
use telenode.Sensors.Fixes.{
  Minmea, Settings, Fixes, rmc, gga, unused, msgq_put, is_due, taken, process_reading,
  process_rmc_frame, reading_of, rmc_msgq_len, cat_msgq_len,
}

msgq_put_fits {ℓ} :
    {A : Type ℓ} (n : ℕ) (q : List A) (x : A) → length q ≤ n → length (msgq_put n q x) ≤ n
msgq_put_fits n q x h = elim (Bool-cases (ltb (length q) n)) [
  | inl room ↦
      rw room (let k : length q < n = ground arith in omega (arith, length-append q (x ∷ [])))
  | inr full ↦ rw full h
]

msgq_put-All {ℓ κ} :
    {A : Type ℓ} (P : A → Type κ) (n : ℕ) (q : List A) (x : A)
    → All P q
    → P x
    → All P (msgq_put n q x)
msgq_put-All P n q x h p = elim (Bool-cases (ltb (length q) n)) [
  | inl room ↦ rw room (All-append P q (x ∷ []) h (p, tt))
  | inr full ↦ rw full h
]

-- A frame of the receiver, unless fake coordinates are enabled.
abbrev pub IsGenuine : {R : Type 0} → Minmea R → Settings → R → Type 0
IsGenuine minmea settings r = settings.fake_gps_enabled ≡ false → minmea.valid r ≡ true

module _ {R O : Type 0} (minmea : Minmea R) (settings : Settings) where
  -- The queues are within their lengths, and hold frames of the receiver.
  pub record IsQueued (s : Fixes R O) : Type 0 where
    pub rmc_fits : length s.rmc_msgq ≤ rmc_msgq_len
    pub cat_fits : length s.cat_msgq ≤ cat_msgq_len
    pub rmc_genuine : All (IsGenuine minmea settings) s.rmc_msgq
    pub cat_genuine : All (λ c. IsGenuine minmea settings c.rmc_frame) s.cat_msgq

  taken-IsGenuine :
      (s : Fixes R O) (now : ℕ) (frame r : R)
      → taken minmea settings s now frame ≡ some r
      → IsGenuine minmea settings r
  unfolding taken
  taken-IsGenuine s now frame r h off = elim (Bool-cases (is_due settings s.last_gps now)) [
    | inr early ↦ let k : taken minmea settings s now frame ≡ none = rw early refl in cc
    | inl due ↦ elim (Bool-cases (minmea.valid frame)) [
      | inl v ↦
          let k : taken minmea settings s now frame ≡ some frame = rw (due, v) refl in
          let same : frame ≡ r = cc in subst (λ x. minmea.valid x ≡ true) same v
      | inr v ↦ let k : taken minmea settings s now frame ≡ none = rw (due, v, off) refl in cc
    ]
  ]

  frame-IsQueued :
      (s : Fixes R O) (now : ℕ) (raw : List ℕ) (frame : R)
      → minmea.parse raw ≡ rmc (some frame)
      → IsQueued s
      → IsQueued (process_reading minmea settings s now raw)
  unfolding process_reading
  frame-IsQueued s now raw frame e q = elim (Option-cases (taken minmea settings s now frame)) [
    | inl k ↦ rw (e, process_reading, k) q
    | inr (r, k) ↦
        rw (e, process_reading, k)
          (record {
            rmc_fits = msgq_put_fits rmc_msgq_len s.rmc_msgq r q.rmc_fits;
            cat_fits = q.cat_fits;
            rmc_genuine =
                msgq_put-All (IsGenuine minmea settings) rmc_msgq_len s.rmc_msgq r q.rmc_genuine
                  (taken-IsGenuine s now frame r k);
            cat_genuine = q.cat_genuine;
          })
  ]

  pub process_reading-IsQueued :
      (s : Fixes R O) (now : ℕ) (raw : List ℕ)
      → IsQueued s
      → IsQueued (process_reading minmea settings s now raw)
  unfolding process_reading
  process_reading-IsQueued s now raw q =
      elim (minmea.parse raw)
          as (λ x. minmea.parse raw ≡ x → IsQueued (process_reading minmea settings s now raw)) [
            | rmc none ↦ λ e. rw (e, process_reading) q
            | rmc (some frame) ↦ λ e. frame-IsQueued s now raw frame e q
            | gga none ↦ λ e. rw (e, process_reading) q
            | gga (some quality) ↦ λ e.
                rw (e, process_reading)
                  (record {
                    rmc_fits = q.rmc_fits;
                    cat_fits = q.cat_fits;
                    rmc_genuine = q.rmc_genuine;
                    cat_genuine = q.cat_genuine;
                  })
            | unused ↦ λ e. rw (e, process_reading) q
          ]
        refl

  pub process_rmc_frame-IsQueued :
      (s : Fixes R O) (obd : O) → IsQueued s → IsQueued (process_rmc_frame s obd)
  unfolding process_rmc_frame
  process_rmc_frame-IsQueued s obd q =
      elim s.rmc_msgq as (λ l. s.rmc_msgq ≡ l → IsQueued (process_rmc_frame s obd)) [
        | [] ↦ λ e. rw (e, process_rmc_frame) q
        | frame ∷ rest ↦ λ e.
            let genuine = subst (All (IsGenuine minmea settings)) e q.rmc_genuine in
            rw (e, process_rmc_frame)
              (record {
                rmc_fits = let k = ap length e in let f = q.rmc_fits in omega arith;
                cat_fits =
                    msgq_put_fits cat_msgq_len s.cat_msgq (reading_of frame obd s) q.cat_fits;
                rmc_genuine = genuine.1;
                cat_genuine =
                    msgq_put-All (λ c. IsGenuine minmea settings c.rmc_frame) cat_msgq_len
                      s.cat_msgq (reading_of frame obd s) q.cat_genuine genuine.0;
              })
      ]
        refl
