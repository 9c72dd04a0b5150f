-- ===== src/Imu/Tests.antt =====
-- Tests of src/imu_icm42688.c, and the theorem at a concrete event.
use telenode.Prelude.{ℕ, ◌≤◌, ◌≡◌, ◌↔◌, refl, true, [], length, leb}
use telenode.Prelude.Errno.{ok, err, success, eio}
use telenode.Prelude.Texts.{codes}
use telenode.BufferFifo.Memory.{memory}
use telenode.Uplink.Memory.{broker, down}
use telenode.HarshDriving.{braking, Floats, Thresholds, evaluate}
use telenode.Sensors.Stream.{Names, render}
use telenode.Imu.{harsh_event_pieces, harsh_event_json, imu_round}
use telenode.Imu.EventLength.{harsh_event_json_whole}

abbrev names : Names
names = record { device_id = codes "356938035643809"; fw_version = codes "1.0.0" }

-- An event with the time of a fix is cut, with a usual device id.
braking-cut :
    length (
      harsh_event_json names
        (codes "2024-01-02T03:04:05.000Z")
        (codes "braking")
        (codes "-4.12")
        (codes "0.50")
        true)
    ≡ 191
unfolding harsh_event_json render
braking-cut = refl

harsh_event_json_whole_example :
    (harsh_event_json names
        (codes "1970-01-01T00:00:00Z")
        (codes "braking")
        (codes "-4.12")
        (codes "0.50")
        true
      ≡ render (
          harsh_event_pieces names
            (codes "1970-01-01T00:00:00Z")
            (codes "braking")
            (codes "-4.12")
            (codes "0.50")
            true))
    ↔ (56 ≤ 57)
harsh_event_json_whole_example =
    harsh_event_json_whole names (codes "1970-01-01T00:00:00Z") braking (codes "-4.12")
      (codes "0.50") true

-- Numbers without a sign: a sample is harsh from 4 on.
abbrev floats : Floats ℕ
floats = record { le = leb; neg = λ n. 0; abs = λ n. n }

abbrev thresholds : Thresholds ℕ
thresholds = record { harsh_accel_mps2 = 4; harsh_brake_mps2 = 4; harsh_corner_mps2 = 4 }

round-no_sample :
    imu_round floats (λ n. []) names memory broker thresholds down [] (err eio) (ok (5, 0)) ≡ down
unfolding imu_round
round-no_sample = refl

round-quiet :
    imu_round floats (λ n. []) names memory broker thresholds down [] success (ok (3, 3)) ≡ down
unfolding imu_round evaluate
round-quiet = refl
