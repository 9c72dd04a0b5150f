-- ===== src/Sensors/Tests.antt =====
-- Tests of src/app_sensors.c, and the theorems at concrete inputs.
use telenode.Prelude.{
  ℕ, ◌+◌, ◌*◌, ◌/◌, ◌^◌, ◌<◌, ◌≤◌, ◌≡◌, ◌↔◌, refl, true, List, [], ◌∷◌, ◌++◌, some, none, map,
  length, arith, replicate,
}
use telenode.Prelude.Texts.{codes}
use telenode.BufferFifo.Memory.{
  Memory, memory, memory_laws, copies, full_events, full_events-Represents,
}
use telenode.Uplink.Memory.{Broker, broker, down}
use telenode.Obd.{pos}
use telenode.Sensors.Serial.{
  serial_byte, serial_bytes, serial_cb, clipped, stream, serial_bytes-stream, serial_bytes-blank,
}
use telenode.Sensors.Fixes.{
  Minmea, Settings, Fixes, Happening, sentence, thread_runs, rmc, gga, taken, process_reading,
  process_rmc_frame, run,
}
use telenode.AppSettings.{compiled_in}
use telenode.Sensors.Float32.{neg, one, round, exponent, nearest}
use telenode.Sensors.Float32.Sign.{signed}
use telenode.Sensors.Coord.{coord_to_minmea}
use telenode.Sensors.Coord.Degrees.{exact, coord_to_minmea-near}
use telenode.Sensors.Rate.{delay_ms, queued, run-rate}
use telenode.Sensors.Stream.{
  already_reported, Formats, Names, Cat, Streams, dtc_event_json, dtc_event_pieces, render,
  report_dtcs, stream_readings,
}
use telenode.Sensors.Stream.EventLength.{dtc_event_json_whole}
use telenode.Sensors.Stream.Length.{stream_readings-uplink}
use telenode.Sensors.Stream.Lost.{report_dtc_lost}
use telenode.Sensors.Stream.Once.{report_dtcs_once}

-- Two sentences, cut at their newlines; the third line is unfinished.
serial-two :
    serial_cb true [] (codes "$A\r\n$B\r\n$C") ≡ (codes "$A\r\n" ∷ codes "$B\r\n" ∷ [], codes "$C")
unfolding serial_cb serial_bytes serial_byte
serial-two = refl

serial_bytes-stream_example :
    serial_bytes [] (stream (codes "$A" ∷ replicate 130 b'x' ∷ []))
    ≡ (map clipped (codes "$A" ∷ replicate 130 b'x' ∷ []), [])
serial_bytes-stream_example =
    serial_bytes-stream (codes "$A" ∷ replicate 130 b'x' ∷ []) (omega arith)

serial_bytes-blank_example : serial_bytes [] (b'\n' ∷ (codes "$A" ++ (b'\n' ∷ codes "$B"))) ≡ (
  clipped (b'\n' ∷ codes "$A") ∷ (serial_bytes [] (codes "$B")).0,
  (serial_bytes [] (codes "$B")).1,
)
serial_bytes-blank_example = serial_bytes-blank (codes "$A") (codes "$B") (omega arith)

-- A minmea that reads any text but the empty one as a valid frame.
abbrev minmea : Minmea (List ℕ)
minmea = record {
  parse = λ text. elim text [ [] ↦ gga (some 2) | c ∷ rest ↦ rmc (some (c ∷ rest)) ];
  valid = λ frame. true;
  set_latitude = λ x frame. frame;
  set_longitude = λ x frame. frame;
}

abbrev settings : Settings
settings = compiled_in

abbrev started : Fixes (List ℕ) ℕ
started = record { last_gps = 0; fix_quality = none; rmc_msgq = []; cat_msgq = [] }

-- A fix at 3 s, a sentence one second later that is passed by, and the thread.
abbrev happenings : List (Happening ℕ)
happenings =
    sentence 2000 [] ∷ sentence 3000 (codes "$A") ∷ sentence 4000 (codes "$B") ∷ thread_runs 7 ∷ []

run-happenings : run minmea settings started happenings ≡ record {
  last_gps = 3000;
  fix_quality = some 2;
  rmc_msgq = [];
  cat_msgq = record { rmc_frame = codes "$A"; obd = 7; fix_quality = some 2 } ∷ [];
}
unfolding run process_reading taken process_rmc_frame
run-happenings = refl

run-rate_example :
    let s' = run minmea settings started happenings in
    delay_ms settings * queued s' + 0 ≤ delay_ms settings * queued started + s'.last_gps
run-rate_example =
    run-rate minmea settings started 0 happenings (omega arith) (omega arith) (omega arith)

-- The fake longitude -122.400860 is 12224.05182 as a float; it is kept as 12224.05120, a metre beside it.
abbrev longitude : ℕ
longitude = 8021663 * 2 ^ 133

coord-longitude :
    coord_to_minmea compiled_in.fake_gps_longitude
    ≡ some (record { value = neg (pos 1222405120); scaled_by = 100000 })
unfolding coord_to_minmea round exponent nearest
coord-longitude = refl

exact-longitude : exact longitude / one ≡ 1222405181
exact-longitude = refl

coord-latitude :
    coord_to_minmea compiled_in.fake_gps_latitude
    ≡ some (record { value = pos 374739904; scaled_by = 100000 })
unfolding coord_to_minmea round exponent nearest
coord-latitude = refl

coord_to_minmea-near_example :
    (v : ℕ) × (coord_to_minmea (signed true longitude)
      ≡ some (record { value = signed true v; scaled_by = 100000 }))
    × (one * v ≤ exact longitude + 218 * one)
    × (exact longitude < one * (v + 219))
    × (v ≤ 1800000218)
coord_to_minmea-near_example = coord_to_minmea-near true longitude (omega arith)

-- Conversions that print nothing: the shortest texts that there are.
abbrev formats : Formats ℕ ℕ
formats = record {
  d = λ n. [];
  d02 = λ n. [];
  d03 = λ n. [];
  f = λ n. [];
  f1 = λ n. [];
  to_coord = λ n. n;
  to_float = λ n. n;
  knots_to_kmh = λ n. n;
  of_int = λ n. 0;
}

abbrev names : Names
names = record { device_id = codes "356938035643809"; fw_version = codes "1.0.0" }

abbrev reading : Cat ℕ ℕ
reading = record {
  rmc_frame = record {
    valid = true;
    latitude = 0;
    longitude = 0;
    speed = 0;
    course = 0;
    year = pos 24;
    month = pos 1;
    day = pos 2;
    hours = pos 3;
    minutes = pos 4;
    seconds = pos 5;
    microseconds = pos 0;
  };
  obd = record {
    vehicle_speed_kph = some 50;
    engine_rpm = none;
    fuel_level_pct = none;
    coolant_temp_c = none;
    supply_voltage_v = none;
  };
  fix_quality = some 1;
}

abbrev p0301 : List ℕ
p0301 = b'P' ∷ b'0' ∷ b'3' ∷ b'0' ∷ b'1' ∷ []

dtc_event-p0301 :
    dtc_event_json names (codes "1970-01-01T00:00:00Z") p0301 true
    ≡ codes
        "{\"device_id\":\"356938035643809\",\"timestamp\":\"1970-01-01T00:00:00Z\",\"event_type\":\"dtc_detected\",\"detail\":{\"code\":\"P0301\",\"first_seen\":true},\"buffered\":false}"
unfolding dtc_event_json render
dtc_event-p0301 = refl

abbrev streams : Streams Memory Broker
streams = record {
  uplink = record down { connected = true };
  last_known_utc_time = codes "1970-01-01T00:00:00Z";
  reported = [];
}

stream_readings-uplink_example :
    (stream_readings formats names memory broker streams (reading ∷ reading ∷ [])).uplink
    ≡ streams.uplink
stream_readings-uplink_example =
    stream_readings-uplink formats names memory broker (reading ∷ reading ∷ []) streams

report_dtcs_once_example :
    let s' = report_dtcs names memory broker streams (p0301 ∷ []) in
    report_dtcs names memory broker s' (p0301 ∷ []) ≡ s'
report_dtcs_once_example =
    report_dtcs_once names memory broker (p0301 ∷ []) streams (omega arith) (omega arith)

dtc_event_json_whole_example :
    (dtc_event_json names (codes "2024-01-02T03:04:05.000Z") p0301 true
      ≡ render (dtc_event_pieces names (codes "2024-01-02T03:04:05.000Z") p0301 true))
    ↔ (49 ≤ 49)
dtc_event_json_whole_example =
    dtc_event_json_whole names (codes "2024-01-02T03:04:05.000Z") p0301 true

-- With a device id of 16 characters the closing brace is cut.
dtc_event-cut :
    length (
      dtc_event_json
        (record names { device_id = replicate 16 b'x' })
        (codes "2024-01-02T03:04:05.000Z")
        p0301
        true)
    ≡ 159
unfolding dtc_event_json render
dtc_event-cut = refl

-- The uplink is down, 48 events wait, and nothing has been reported.
abbrev crowded : Streams Memory Broker
crowded = record {
  uplink = record down { fifo = full_events };
  last_known_utc_time = [];
  reported = [];
}

report_dtc_lost_example :
    let s' = report_dtcs names memory broker crowded (codes "P0301" ∷ []) in
    (s'.uplink ≡ crowded.uplink)
    × ((t : Streams Memory Broker)
        → t.reported ≡ s'.reported
        → report_dtcs names memory broker t (codes "P0301" ∷ []) ≡ t)
unfolding already_reported
report_dtc_lost_example =
    report_dtc_lost memory_laws broker names crowded (copies 48) (codes "P0301") refl refl
      (omega arith) full_events-Represents (omega arith) refl
