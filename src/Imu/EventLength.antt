-- ===== src/Imu/EventLength.antt =====
-- Which harsh-driving events of src/imu_icm42688.c fit their buffer.
use telenode.Prelude.{
  ℕ, ◌+◌, ◌≤◌, ◌≡◌, ◌↔◌, ap, Bool, not, List, length, take_all, length-take, arith,
}
use telenode.HarshDriving.{Event, event_name}
use telenode.Sensors.Stream.{Names, bool_text, render}
use telenode.Sensors.Stream.EventLength.{length-render}
use telenode.Imu.{harsh_event_pieces, harsh_event_json}

-- The text of a harsh-driving event is whole if and only if its device id, its time, its type, its two
-- numbers and its last truth value have at most 57 characters together; a longer one is cut.
pub harsh_event_json_whole :
    (names : Names) (time : List ℕ) (event : Event) (x y : List ℕ) (connected : Bool)
    → (harsh_event_json names time (event_name event) x y connected
        ≡ render (harsh_event_pieces names time (event_name event) x y connected))
      ↔ (length names.device_id
            + length time
            + length (event_name event)
            + length x
            + length y
            + length (bool_text (not connected))
          ≤ 57)
unfolding harsh_event_json
harsh_event_json_whole names time event x y connected =
    let text = render (harsh_event_pieces names time (event_name event) x y connected) in
    let e = length-render (harsh_event_pieces names time (event_name event) x y connected) in
    (
      λ h. omega (arith, e, length-take 191 text, ap length h),
      λ h. take_all 191 text (omega (arith, e, h)),
    )
