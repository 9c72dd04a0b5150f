-- ===== src/Sensors/Fixes.antt =====
-- `process_reading` and `process_rmc_frames_thread` of src/app_sensors.c: which sentences become fixes.
-- minmea, the settings and the OBD-II values are parameters.
use telenode.Prelude.{
  ℕ, ◌+◌, ◌-◌, ◌*◌, ◌%◌, ◌^◌, Bool, List, [], ◌∷◌, ◌++◌, Option, none, some, ltb, leb, length,
  if◌then◌else◌,
}
use telenode.Obd.{ℤ}
use telenode.Sensors.Coord.{MinmeaFloat, coord_to_minmea}

-- What minmea makes of a sentence: an RMC frame or the fix quality of a GGA frame, `none` where it
-- cannot be parsed.
pub data Sentence (R : Type 0) : Type 0 where
  rmc : Option R → Sentence R
  gga : Option ℕ → Sentence R
  unused : Sentence R

-- minmea, with the two coordinates of its frame that `process_reading` overwrites.
pub record Minmea (R : Type 0) : Type 0 where
  pub parse : List ℕ → Sentence R
  pub valid : R → Bool
  pub set_latitude : MinmeaFloat → R → R
  pub set_longitude : MinmeaFloat → R → R

-- What `get_gps_delay_s` and the getters of the fake coordinates, floats, return
pub record Settings : Type 0 where
  pub gps_delay_s : ℕ
  pub fake_gps_enabled : Bool
  pub fake_gps_latitude : ℤ
  pub fake_gps_longitude : ℤ

-- `struct can_asset_tracker_data`
pub record Reading (R O : Type 0) : Type 0 where
  pub rmc_frame : R
  pub obd : O
  pub fix_quality : Option ℕ

-- The statics, with the two message queues; a `g_fix_quality` of -1 is `none`.
pub record Fixes (R O : Type 0) : Type 0 where
  pub last_gps : ℕ
  pub fix_quality : Option ℕ
  pub rmc_msgq : List R
  pub cat_msgq : List (Reading R O)

abbrev pub rmc_msgq_len : ℕ
rmc_msgq_len = 2

abbrev pub cat_msgq_len : ℕ
cat_msgq_len = 64

-- `k_msgq_put` with K_NO_WAIT: a full queue drops the message.
abbrev pub msgq_put {ℓ} : {A : Type ℓ} → ℕ → List A → A → List A
msgq_put max_msgs q x = if ltb (length q) max_msgs then q ++ (x ∷ []) else q

-- `k_uptime_delta(&wait_for) >= get_gps_delay_s() * 1000`, unsigned 64-bit numbers
abbrev pub is_due : Settings → ℕ → ℕ → Bool
is_due settings last_gps now =
    leb (settings.gps_delay_s * 1000 % 2 ^ 64) ((now + 2 ^ 64 - last_gps) % 2 ^ 64)

-- `coord_to_minmea(&frame.latitude, coord)`, whose result is not looked at: a coordinate that is refused
-- leaves the field as it was.
abbrev pub overwrite : {R : Type 0} → (MinmeaFloat → R → R) → ℤ → R → R
overwrite set coord frame = elim (coord_to_minmea coord) [ none ↦ frame | some f ↦ set f frame ]

-- The fake coordinates in place of those of the frame
abbrev pub with_fake_coordinates : {R : Type 0} → Minmea R → Settings → R → R
with_fake_coordinates minmea settings frame =
    overwrite minmea.set_longitude settings.fake_gps_longitude
      (overwrite minmea.set_latitude settings.fake_gps_latitude frame)

module _ {R O : Type 0} (minmea : Minmea R) (settings : Settings) where
  -- The frame that `process_reading` puts into `rmc_msgq`.
  unfoldable pub taken : Fixes R O → ℕ → R → Option R
  taken s now frame =
      if is_due settings s.last_gps now
      then if minmea.valid frame
        then some frame
        else if settings.fake_gps_enabled
        then some (with_fake_coordinates minmea settings frame)
        else none
      else none

  -- `process_reading` at uptime `now`
  unfoldable pub process_reading : Fixes R O → ℕ → List ℕ → Fixes R O
  process_reading s now raw_nmea = elim (minmea.parse raw_nmea) [
    | rmc none ↦ s
    | rmc (some frame) ↦ elim (taken s now frame) [
      | none ↦ s
      | some r ↦ record s { rmc_msgq = msgq_put rmc_msgq_len s.rmc_msgq r; last_gps = now }
    ]
    | gga none ↦ s
    | gga (some quality) ↦ record s { fix_quality = some quality }
    | unused ↦ s
  ]

-- `cat_frame`
abbrev pub reading_of : {R O : Type 0} → R → O → Fixes R O → Reading R O
reading_of frame obd s = record { rmc_frame = frame; obd = obd; fix_quality = s.fix_quality }

-- One round of `process_rmc_frames_thread`, with what `obd_j1979_get_latest` returns; it waits while
-- `rmc_msgq` is empty.
unfoldable pub process_rmc_frame : {R O : Type 0} → Fixes R O → O → Fixes R O
process_rmc_frame s obd = elim s.rmc_msgq [
  | [] ↦ s
  | frame ∷ rest ↦ record s {
    rmc_msgq = rest;
    cat_msgq = msgq_put cat_msgq_len s.cat_msgq (reading_of frame obd s);
  }
]

-- What happens: a sentence comes at an uptime, or the thread runs once.
pub data Happening (O : Type 0) : Type 0 where
  sentence : ℕ → List ℕ → Happening O
  thread_runs : O → Happening O

module _ {R O : Type 0} (minmea : Minmea R) (settings : Settings) where
  abbrev pub happen : Fixes R O → Happening O → Fixes R O
  happen s (sentence now raw_nmea) = process_reading minmea settings s now raw_nmea
  happen s (thread_runs obd) = process_rmc_frame s obd

  unfoldable pub run : Fixes R O → List (Happening O) → Fixes R O
  run s [] = s
  run s (h ∷ hs) = run (happen s h) hs
