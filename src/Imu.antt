-- ===== src/Imu.antt =====
-- src/imu_icm42688.c: a round of the thread that samples the accelerometer and publishes harsh-driving
-- events. The sensor driver is given by what it returns.
pub mod EventLength
mod Tests
use telenode.Prelude.{ℕ, not, Bool, List, [], ◌∷◌, if◌then◌else◌}
use telenode.Prelude.Errno.{Result, ok, err}
use telenode.Prelude.Texts.{codes}
use telenode.Nvs.{NvsOps}
use telenode.Mqtt.{MqttOps}
use telenode.Uplink.{Uplink, is_connected, publish_event}
use telenode.HarshDriving.{
  Event, no_event, acceleration, braking, cornering, Floats, Thresholds, evaluate, event_name,
}
use telenode.Sensors.Stream.{Piece, lit, arg, flag, render, snprintk, Names}

-- HARSH_DRIVING_EVENT_JSON_FMT, with the two numbers as %.2f prints them
abbrev pub harsh_event_pieces : Names → List ℕ → List ℕ → List ℕ → List ℕ → Bool → List Piece
harsh_event_pieces names time type x y connected =
    lit (codes "{\"device_id\":\"")
    ∷ arg names.device_id
    ∷ lit (codes "\",\"timestamp\":\"")
    ∷ arg time
    ∷ lit (codes "\",\"event_type\":\"harsh_driving_detected\",\"detail\":{\"type\":\"")
    ∷ arg type
    ∷ lit (codes "\",\"accel_x_mps2\":")
    ∷ arg x
    ∷ lit (codes ",\"accel_y_mps2\":")
    ∷ arg y
    ∷ lit (codes "},\"buffered\":")
    ∷ flag (not connected)
    ∷ lit (codes "}")
    ∷ []

-- `event_json_buf`
unfoldable pub harsh_event_json : Names → List ℕ → List ℕ → List ℕ → List ℕ → Bool → List ℕ
harsh_event_json names time type x y connected =
    snprintk 192 (render (harsh_event_pieces names time type x y connected))

module _ {Float S M : Type 0} (floats : Floats Float) (f2 : Float → List ℕ) (names : Names)
    (nvs : NvsOps S) (mqtt : MqttOps M) where
  -- What a round does with an event.
  abbrev pub publish_harsh : Uplink S M → List ℕ → Float → Float → Event → Uplink S M
  publish_harsh u time x y no_event = u
  publish_harsh u time x y event =
      (publish_event nvs mqtt u
        (harsh_event_json names time (event_name event) (f2 x) (f2 y) (is_connected u))).1

  -- A round of `imu_thread_fn`: what `sensor_sample_fetch` returns, then `sensor_channel_get` with the two
  -- accelerations; `time` is what `app_sensors_get_last_known_time` returns.
  unfoldable pub imu_round :
      Thresholds Float
      → Uplink S M
      → List ℕ
      → Result (Unit {0})
      → Result (Float × Float)
      → Uplink S M
  imu_round th u time fetched accel = elim fetched [
    | err e ↦ u
    | ok done ↦ elim accel [
      | err e ↦ u
      | ok xy ↦ publish_harsh u time xy.0 xy.1 (evaluate floats xy.0 xy.1 th)
    ]
  ]
