-- ===== src/Obd.antt =====
-- src/obd_j1979.c and obd_j1979.h: requests for the Mode 01 PIDs and the trouble codes, and what is made of
-- the responses. The CAN driver is given by what it answers; a float is a parameter.
pub mod Match
pub mod Ranges
mod Tests
use telenode.Prelude.{
  ℕ, zero, suc, ◌+◌, ◌-◌, ◌*◌, ◌/◌, ◌≤◌, ◌<◌, Bool, true, false, ◌&&◌, ◌||◌, List, [], ◌∷◌, Option,
  none, some, ltb, leb, ◌==◌, length, get_or, if◌then◌else◌,
}
use telenode.Prelude.Errno.{Result, ok, err, etimedout}
use telenode.DtcDecode.{DtcList, parse_response}

abbrev pub service_show_current_data_resp : ℕ
service_show_current_data_resp = 0x01 + 0x40

abbrev pub pid_vehicle_speed : ℕ
pid_vehicle_speed = 0x0D

abbrev pub pid_engine_rpm : ℕ
pid_engine_rpm = 0x0C

abbrev pub pid_fuel_level : ℕ
pid_fuel_level = 0x2F

abbrev pub pid_coolant_temp : ℕ
pid_coolant_temp = 0x05

abbrev pub pid_control_module_voltage : ℕ
pid_control_module_voltage = 0x42

abbrev pub response_wait_timeout_ms : ℕ
response_wait_timeout_ms = 500

-- A frame is its data, as many bytes as `can_dlc_to_bytes` says. A turn of a waiting loop: the uptime
-- that it reads, and the frame that `k_msgq_get` then returns, or `none` where it fails.
pub record Turn : Type 0 where
  pub uptime : ℕ
  pub received : Option (List ℕ)

-- A request: what `can_send` returns, the uptime that sets the deadline, and the turns of the loop. With
-- no turn left, `k_msgq_get` fails.
pub record Exchange : Type 0 where
  pub sent : Result (Unit {0})
  pub started : ℕ
  pub turns : List Turn

-- `len >= 3`, the service and the PID
abbrev pub is_response : ℕ → List ℕ → Bool
is_response pid frame =
    leb 3 (length frame)
    && (get_or frame 1 0 == service_show_current_data_resp && get_or frame 2 0 == pid)

-- The loop of `request_pid`
unfoldable pub await_pid : ℕ → ℕ → List Turn → Result (List ℕ)
await_pid pid deadline [] = err etimedout
await_pid pid deadline (turn ∷ turns) =
    let rest = await_pid pid deadline turns in
    if leb deadline turn.uptime then err etimedout else elim turn.received [
      | none ↦ err etimedout
      | some frame ↦ if is_response pid frame then ok frame else rest
    ]

-- `request_pid`
unfoldable pub request_pid : ℕ → Exchange → Result (List ℕ)
request_pid pid x = elim x.sent [
  | err e ↦ err e
  | ok done ↦ await_pid pid (x.started + response_wait_timeout_ms) x.turns
]

-- The loop of `request_dtcs`
unfoldable pub await_dtcs : ℕ → List Turn → Result DtcList
await_dtcs deadline [] = err etimedout
await_dtcs deadline (turn ∷ turns) =
    let rest = await_dtcs deadline turns in
    if leb deadline turn.uptime then err etimedout else elim turn.received [
      | none ↦ err etimedout
      | some frame ↦ elim (parse_response frame (length frame)) [ ok dtcs ↦ ok dtcs | err e ↦ rest ]
    ]

-- `request_dtcs`
unfoldable pub request_dtcs : Exchange → Result DtcList
request_dtcs x = elim x.sent [
  | err e ↦ err e
  | ok done ↦ await_dtcs (x.started + response_wait_timeout_ms) x.turns
]

-- `int`, over the native numbers
pub data ℤ : Type 0 where
  pos negsuc : ℕ → ℤ

abbrev pub minus : ℕ → ℕ → ℤ
minus a b = if leb b a then pos (a - b) else negsuc (b - a - 1)

-- `struct obd_j1979_data`: a value whose `valid` flag is false is `none`.
pub record ObdData (Float : Type 0) : Type 0 where
  pub vehicle_speed_kph : Option ℕ
  pub engine_rpm : Option ℕ
  pub fuel_level_pct : Option Float
  pub coolant_temp_c : Option ℤ
  pub supply_voltage_v : Option Float

abbrev pub is_some {ℓ} : {A : Type ℓ} → Option A → Bool
is_some none = false
is_some (some a) = true

-- `obd_j1979_bus_responded`
unfoldable pub bus_responded : {Float : Type 0} → ObdData Float → Bool
bus_responded d =
    is_some d.vehicle_speed_kph
    || is_some d.engine_rpm
    || is_some d.fuel_level_pct
    || is_some d.coolant_temp_c
    || is_some d.supply_voltage_v

-- A value from a response of at least `n` bytes.
abbrev pub value_of {ℓ} : {A : Type ℓ} → ℕ → (List ℕ → A) → Result (List ℕ) → Option A
value_of n f (err e) = none
value_of n f (ok resp) = if leb n (length resp) then some (f resp) else none

-- The requests of one round.
pub record Round : Type 0 where
  pub speed : Exchange
  pub rpm : Exchange
  pub fuel : Exchange
  pub coolant : Exchange
  pub voltage : Exchange
  pub dtcs : Exchange

-- `latest_data` and `latest_dtcs`
pub record Obd (Float : Type 0) : Type 0 where
  pub latest_data : ObdData Float
  pub latest_dtcs : DtcList

module _ {Float : Type 0} (quotient : ℕ → ℕ → Float) where
  abbrev pub read_data : Round → ObdData Float
  read_data round = record {
    vehicle_speed_kph =
        value_of 4 (λ resp. get_or resp 3 0) (request_pid pid_vehicle_speed round.speed);
    engine_rpm =
        value_of 5 (λ resp. (get_or resp 3 0 * 256 + get_or resp 4 0) / 4)
          (request_pid pid_engine_rpm round.rpm);
    fuel_level_pct =
        value_of 4 (λ resp. quotient (get_or resp 3 0 * 100) 255)
          (request_pid pid_fuel_level round.fuel);
    coolant_temp_c =
        value_of 4 (λ resp. minus (get_or resp 3 0) 40)
          (request_pid pid_coolant_temp round.coolant);
    supply_voltage_v =
        value_of 5 (λ resp. quotient (get_or resp 3 0 * 256 + get_or resp 4 0) 1000)
          (request_pid pid_control_module_voltage round.voltage);
  }

  -- One round of `obd_j1979_thread_fn`; `data_mutex` makes the two assignments one.
  unfoldable pub poll : Round → Obd Float
  poll round = record {
    latest_data = read_data round;
    latest_dtcs = elim (request_dtcs round.dtcs) [ ok dtcs ↦ dtcs | err e ↦ [] ];
  }

-- `obd_j1979_get_latest` and `obd_j1979_get_latest_dtcs`
unfoldable pub get_latest : {Float : Type 0} → Obd Float → ObdData Float
get_latest obd = obd.latest_data

unfoldable pub get_latest_dtcs : {Float : Type 0} → Obd Float → DtcList
get_latest_dtcs obd = obd.latest_dtcs
