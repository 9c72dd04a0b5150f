-- ===== src/HarshDriving.antt =====
-- src/harsh_driving.c and harsh_driving.h: one accelerometer sample against three thresholds. A float is a
-- parameter, with the operations that the code uses.
pub mod Classify
mod Tests
use telenode.Prelude.{ℕ, Bool, true, false, List, if◌then◌else◌}
use telenode.Prelude.Texts.{codes}

-- `enum harsh_driving_event`
pub data Event : Type 0 where
  no_event acceleration braking cornering : Event

-- `le a b` is `a <= b`, false where one of them is not a number; `abs` is fabsf.
pub record Floats (Float : Type 0) : Type 0 where
  pub le : Float → Float → Bool
  pub neg : Float → Float
  pub abs : Float → Float

-- `struct harsh_driving_thresholds`
pub record Thresholds (Float : Type 0) : Type 0 where
  pub harsh_accel_mps2 : Float
  pub harsh_brake_mps2 : Float
  pub harsh_corner_mps2 : Float

-- `harsh_driving_evaluate`
unfoldable pub evaluate : {Float : Type 0} → Floats Float → Float → Float → Thresholds Float → Event
evaluate floats x y th =
    if floats.le th.harsh_accel_mps2 x
    then acceleration
    else if floats.le x (floats.neg th.harsh_brake_mps2)
    then braking
    else if floats.le th.harsh_corner_mps2 (floats.abs y)
    then cornering
    else no_event

-- `harsh_driving_event_name`
abbrev pub event_name : Event → List ℕ
event_name acceleration = codes "acceleration"
event_name braking = codes "braking"
event_name cornering = codes "cornering"
event_name no_event = codes "none"
