-- ===== src/Sensors/Rate.antt =====
-- How often `process_reading` of src/app_sensors.c takes a fix: no more than once in the configured
-- delay, whatever comes from the receiver.
use telenode.Prelude.{
  ℕ, suc, ◌+◌, ◌*◌, ◌^◌, ◌≤◌, ◌<◌, ◌≡◌, refl, sym, ap, subst, true, List, [], ◌∷◌, none, some, ltb,
  length, Bool-cases, Option-cases, inl, inr, arith, length-append,
}
use native.Mathlib.Nat.{mul-le-mul_left, mul-suc}
use telenode.Sensors.Fixes.{
  Minmea, Settings, Fixes, Happening, sentence, thread_runs, rmc, gga, unused, msgq_put, is_due,
  taken, process_reading, process_rmc_frame, reading_of, run, rmc_msgq_len, cat_msgq_len,
}

-- Uptimes that do not go back, from `t` on.
abbrev pub InOrder : {O : Type 0} → ℕ → List (Happening O) → Type 0
InOrder t [] = Unit
InOrder t (sentence now raw_nmea ∷ hs) = (t ≤ now) × (now < 2 ^ 63) × InOrder now hs
InOrder t (thread_runs obd ∷ hs) = InOrder t hs

abbrev pub queued : {R O : Type 0} → Fixes R O → ℕ
queued s = length s.rmc_msgq + length s.cat_msgq

length-msgq_put {ℓ} :
    {A : Type ℓ} (n : ℕ) (q : List A) (x : A) → length (msgq_put n q x) ≤ suc (length q)
length-msgq_put n q x = elim (Bool-cases (ltb (length q) n)) [
  | inl room ↦ rw room (omega (arith, length-append q (x ∷ [])))
  | inr full ↦ rw full (omega arith)
]

abbrev pub delay_ms : Settings → ℕ
delay_ms settings = settings.gps_delay_s * 1000

-- A sentence leaves the queues alone, or adds a fix; a fix comes a delay after the one before it.
pub data Step {R O : Type 0} (settings : Settings) (s : Fixes R O) (now : ℕ) (s' : Fixes R O)
    : Type 0 where
  passed_by : queued s' ≤ queued s → s'.last_gps ≡ s.last_gps → Step settings s now s'
  taken_at :
      queued s' ≤ suc (queued s)
      → s'.last_gps ≡ now
      → s.last_gps + delay_ms settings ≤ now
      → Step settings s now s'

is_due-apart :
    (settings : Settings) (last now : ℕ)
    → settings.gps_delay_s < 2 ^ 31
    → last ≤ now
    → now < 2 ^ 63
    → is_due settings last now ≡ true
    → last + delay_ms settings ≤ now
is_due-apart settings last now d le lt h = ground arith

module _ {R O : Type 0} (minmea : Minmea R) (settings : Settings) where
  taken-is_due :
      (s : Fixes R O) (now : ℕ) (frame r : R)
      → taken minmea settings s now frame ≡ some r
      → is_due settings s.last_gps now ≡ true
  unfolding taken
  taken-is_due s now frame r h = elim (Bool-cases (is_due settings s.last_gps now)) [
    | inl due ↦ due
    | inr early ↦ let k : taken minmea settings s now frame ≡ none = rw early refl in cc
  ]

  frame-Step :
      (s : Fixes R O) (now : ℕ) (raw : List ℕ) (frame : R)
      → settings.gps_delay_s < 2 ^ 31
      → s.last_gps ≤ now
      → now < 2 ^ 63
      → minmea.parse raw ≡ rmc (some frame)
      → Step settings s now (process_reading minmea settings s now raw)
  unfolding process_reading
  frame-Step s now raw frame d le lt e = elim (Option-cases (taken minmea settings s now frame)) [
    | inl k ↦ rw (e, process_reading, k) (passed_by (omega arith) refl)
    | inr (r, k) ↦
        rw (e, process_reading, k)
          (taken_at (omega (arith, length-msgq_put rmc_msgq_len s.rmc_msgq r)) refl
            (is_due-apart settings s.last_gps now d le lt (taken-is_due s now frame r k)))
  ]

  process_reading-Step :
      (s : Fixes R O) (now : ℕ) (raw : List ℕ)
      → settings.gps_delay_s < 2 ^ 31
      → s.last_gps ≤ now
      → now < 2 ^ 63
      → Step settings s now (process_reading minmea settings s now raw)
  unfolding process_reading
  process_reading-Step s now raw d le lt =
      elim (minmea.parse raw)
          as (λ x.
            minmea.parse raw ≡ x
            → Step settings s now (process_reading minmea settings s now raw)) [
              | rmc none ↦ λ e. rw (e, process_reading) (passed_by (omega arith) refl)
              | rmc (some frame) ↦ λ e. frame-Step s now raw frame d le lt e
              | gga none ↦ λ e. rw (e, process_reading) (passed_by (omega arith) refl)
              | gga (some q) ↦ λ e. rw (e, process_reading) (passed_by (omega arith) refl)
              | unused ↦ λ e. rw (e, process_reading) (passed_by (omega arith) refl)
            ]
        refl

process_rmc_frame-queued :
    {R O : Type 0} (s : Fixes R O) (obd : O)
    → (queued (process_rmc_frame s obd) ≤ queued s)
      × ((process_rmc_frame s obd).last_gps ≡ s.last_gps)
unfolding process_rmc_frame
process_rmc_frame-queued s obd =
    elim s.rmc_msgq
        as (λ q.
          s.rmc_msgq ≡ q
          → (queued (process_rmc_frame s obd) ≤ queued s)
            × ((process_rmc_frame s obd).last_gps ≡ s.last_gps)) [
              | [] ↦ λ e. rw (e, process_rmc_frame) (omega (arith, ap length e), refl)
              | frame ∷ rest ↦ λ e.
                  rw (e, process_rmc_frame)
                    (
                      omega
                          (arith, length-msgq_put cat_msgq_len s.cat_msgq (reading_of frame obd s)),
                      refl,
                    )
            ]
      refl

-- The two steps of the induction, on numbers.
without_fix :
    (d n m k last last' end : ℕ)
    → d * n + last' ≤ d * m + end
    → m ≤ k
    → last' ≡ last
    → d * n + last ≤ d * k + end
without_fix d n m k last last' end h le e = let p = mul-le-mul_left d le in omega arith

with_fix :
    (d n m k last now end : ℕ)
    → d * n + now ≤ d * m + end
    → m ≤ suc k
    → last + d ≤ now
    → d * n + last ≤ d * k + end
with_fix d n m k last now end h le apart =
    let p = mul-le-mul_left d le in let q = mul-suc d k in omega arith

module _ {R O : Type 0} (minmea : Minmea R) (settings : Settings) where
  -- Over any run of the receiver and the thread, with uptimes that do not go back, the fixes that
  -- wait in the two queues grew by at most one for each delay that has passed between the fix before
  -- the run and the last fix of it.
  pub run-rate :
      (s : Fixes R O) (t : ℕ) (hs : List (Happening O))
      → settings.gps_delay_s < 2 ^ 31
      → s.last_gps ≤ t
      → InOrder t hs
      → let s' = run minmea settings s hs in
        delay_ms settings * queued s' + s.last_gps ≤ delay_ms settings * queued s + s'.last_gps
  unfolding run
  run-rate s t [] d le order = omega arith
  run-rate s t (thread_runs obd ∷ hs) d le order =
      let (q, l) = process_rmc_frame-queued s obd in
      let h = run-rate (process_rmc_frame s obd) t hs d (subst (λ x. x ≤ t) (sym l) le) order in
      without_fix (delay_ms settings) _ _ _ _ _ _ h q l
  run-rate s t (sentence now raw ∷ hs) d le order =
      let s₁ = process_reading minmea settings s now raw in
      elim (process_reading-Step minmea settings s now raw d (omega arith) order.1) [
        | passed_by q l ↦
            let k : s₁.last_gps ≤ now = omega arith in
            without_fix (delay_ms settings) _ _ _ _ _ _ (run-rate s₁ now hs d k order.2) q l
        | taken_at q l apart ↦
            let k : s₁.last_gps ≤ now = omega arith in
            with_fix (delay_ms settings) _ _ _ _ now _
              (subst
                (λ x.
                  delay_ms settings * queued (run minmea settings s₁ hs) + x
                  ≤ delay_ms settings * queued s₁ + (run minmea settings s₁ hs).last_gps)
                l (run-rate s₁ now hs d k order.2))
              q apart
      ]
