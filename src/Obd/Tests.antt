-- ===== src/Obd/Tests.antt =====
-- Tests of src/obd_j1979.c, and the theorems at a concrete round.
use telenode.Prelude.{ℕ, ◌+◌, ◌≤◌, ◌<◌, ◌≡◌, ◌↔◌, refl, false, List, [], ◌∷◌, some, none, arith}
use telenode.Prelude.Errno.{ok, err, success, etimedout, eio}
use telenode.DtcDecode.{parse_response, format_code}
use telenode.Obd.{
  Turn, Exchange, Round, negsuc, request_pid, request_dtcs, await_pid, await_dtcs, poll,
  bus_responded, pid_engine_rpm, response_wait_timeout_ms,
}
use telenode.Obd.Match.{IsFirst, request_pid_iff}
use telenode.Obd.Ranges.{Within, IsCoolant, FitsDtcList, poll_ranges}

abbrev turn : ℕ → List ℕ → Turn
turn uptime frame = record { uptime = uptime; received = some frame }

-- A request at 1000 ms: two frames arrive, a late answer for the speed and this one.
abbrev answered : List ℕ → Exchange
answered frame = record {
  sent = success;
  started = 1000;
  turns = turn 1000 (3 ∷ 0x41 ∷ 0x0D ∷ 50 ∷ []) ∷ turn 1020 frame ∷ [];
}

abbrev rpm_frame : List ℕ
rpm_frame = 4 ∷ 0x41 ∷ 0x0C ∷ 0x1A ∷ 0xF8 ∷ 0xAA ∷ 0xAA ∷ 0xAA ∷ []

abbrev round : Round
round = record {
  speed = answered [];
  rpm = answered rpm_frame;
  fuel = record { sent = err eio; started = 0; turns = [] };
  coolant = answered (3 ∷ 0x41 ∷ 0x05 ∷ 30 ∷ []);
  voltage = answered (3 ∷ 0x41 ∷ 0x42 ∷ 0x30 ∷ []);
  dtcs = answered (4 ∷ 0x43 ∷ 0x03 ∷ 0x01 ∷ 0 ∷ 0 ∷ 0 ∷ 0 ∷ []);
}

abbrev p0301 : List ℕ
p0301 = b'P' ∷ b'0' ∷ b'3' ∷ b'0' ∷ b'1' ∷ []

-- A speed of 50 km/h, 1726 rpm, no fuel level, -10 degrees, and no voltage, whose frame is too short.
poll-round : poll (λ a b. a) round ≡ record {
  latest_data = record {
    vehicle_speed_kph = some 50;
    engine_rpm = some 1726;
    fuel_level_pct = none;
    coolant_temp_c = some (negsuc 9);
    supply_voltage_v = none;
  };
  latest_dtcs = p0301 ∷ [];
}
unfolding poll request_pid await_pid request_dtcs await_dtcs parse_response format_code
poll-round = refl

late :
    request_pid pid_engine_rpm
      (record { sent = success; started = 0; turns = turn 500 rpm_frame ∷ [] })
    ≡ err etimedout
unfolding request_pid await_pid
late = refl

silent_bus :
    bus_responded {Float = ℕ} (record {
      vehicle_speed_kph = none;
      engine_rpm = none;
      fuel_level_pct = none;
      coolant_temp_c = none;
      supply_voltage_v = none;
    })
    ≡ false
unfolding bus_responded
silent_bus = refl

request_pid_iff_example : (request_pid pid_engine_rpm (answered rpm_frame) ≡ ok rpm_frame) ↔ (
    (success ≡ success)
    × IsFirst pid_engine_rpm
        (1000 + response_wait_timeout_ms)
        (turn 1000 (3 ∷ 0x41 ∷ 0x0D ∷ 50 ∷ []) ∷ turn 1020 rpm_frame ∷ [])
        rpm_frame)
request_pid_iff_example = request_pid_iff pid_engine_rpm (answered rpm_frame) rpm_frame

poll_ranges_example :
    let obd = poll (λ a b. a) round in
    Within (λ v. v ≤ 255) obd.latest_data.vehicle_speed_kph
    × Within (λ v. v < 16384) obd.latest_data.engine_rpm
    × Within IsCoolant obd.latest_data.coolant_temp_c
    × FitsDtcList obd.latest_dtcs
poll_ranges_example = poll_ranges (λ a b. a) round (omega arith) (omega arith) (omega arith)
