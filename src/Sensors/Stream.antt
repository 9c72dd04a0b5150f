-- ===== src/Sensors/Stream.antt =====
-- `app_sensors_read_and_stream` of src/app_sensors.c: the records and the events, as texts, and their
-- publication. printf, the floating-point operations and minmea's conversions are parameters; the
-- battery monitor, an option of another board, is left out.
pub mod Length
pub mod EventLength
pub mod Once
pub mod Lost
use telenode.Prelude.{
  ℕ, ◌+◌, ◌-◌, Bool, true, false, not, List, [], ◌∷◌, ◌++◌, Option, none, some, leb, length, take,
  if◌then◌else◌,
}
use telenode.Prelude.Texts.{codes, strcmp}
use telenode.Nvs.{NvsOps}
use telenode.Mqtt.{MqttOps}
use telenode.Uplink.{Uplink, is_connected, publish_telemetry, publish_event}
use telenode.Obd.{ℤ, pos, negsuc, ObdData, bus_responded}
use telenode.DtcDecode.{Code, DtcList}
use telenode.Sensors.Fixes.{Reading}

-- `struct minmea_sentence_rmc`, as far as it is read
pub record RmcFrame (Coord : Type 0) : Type 0 where
  pub valid : Bool
  pub latitude : Coord
  pub longitude : Coord
  pub speed : Coord
  pub course : Coord
  pub year : ℤ
  pub month : ℤ
  pub day : ℤ
  pub hours : ℤ
  pub minutes : ℤ
  pub seconds : ℤ
  pub microseconds : ℤ

-- The conversions of printf (`d` is %d, `d02` %02d, `f1` %.1f), of minmea and of numbers.
pub record Formats (Coord Float : Type 0) : Type 0 where
  pub d : ℤ → List ℕ
  pub d02 : ℤ → List ℕ
  pub d03 : ℤ → List ℕ
  pub f : Float → List ℕ
  pub f1 : Float → List ℕ
  pub to_coord : Coord → Float
  pub to_float : Coord → Float
  pub knots_to_kmh : Float → Float
  pub of_int : ℤ → Float

-- A part of a format: its text, an argument of it, or a truth value of it.
pub data Piece : Type 0 where
  lit arg : List ℕ → Piece
  flag : Bool → Piece

abbrev pub bool_text : Bool → List ℕ
bool_text true = codes "true"
bool_text false = codes "false"

abbrev pub render_piece : Piece → List ℕ
render_piece (lit text) = text
render_piece (arg text) = text
render_piece (flag b) = bool_text b

unfoldable pub render : List Piece → List ℕ
render [] = []
render (p ∷ ps) = render_piece p ++ render ps

-- `snprintk` into a buffer of this size, as the string that it leaves
abbrev pub snprintk : ℕ → List ℕ → List ℕ
snprintk size text = take (size - 1) text

-- `device_id` and `fw_version_str`
pub record Names : Type 0 where
  pub device_id : List ℕ
  pub fw_version : List ℕ

abbrev pub or_else {ℓ} : {A : Type ℓ} → A → Option A → A
or_else a none = a
or_else a (some x) = x

-- `app_sensors_read_and_stream`'s own state: the uplink, `last_known_utc_time` and `reported_dtc_codes`
-- with its count.
pub record Streams (S M : Type 0) : Type 0 where
  pub uplink : Uplink S M
  pub last_known_utc_time : List ℕ
  pub reported : List Code

abbrev pub max_tracked_dtc_codes : ℕ
max_tracked_dtc_codes = 16

-- `dtc_already_reported`
unfoldable pub already_reported : List Code → Code → Bool
already_reported [] code = false
already_reported (c ∷ table) code = if strcmp c code then true else already_reported table code

-- `dtc_mark_reported`
unfoldable pub mark_reported : List Code → Code → List Code
mark_reported table code =
    if leb max_tracked_dtc_codes (length table) then table else table ++ (take 5 code ∷ [])

-- `struct can_asset_tracker_data`
abbrev pub Cat : Type 0 → Type 0 → Type 0
Cat Coord Float = Reading (RmcFrame Coord) (ObdData Float)

-- DTC_EVENT_JSON_FMT
abbrev pub dtc_event_pieces : Names → List ℕ → Code → Bool → List Piece
dtc_event_pieces names time code connected =
    lit (codes "{\"device_id\":\"")
    ∷ arg names.device_id
    ∷ lit (codes "\",\"timestamp\":\"")
    ∷ arg time
    ∷ lit (codes "\",\"event_type\":\"dtc_detected\",\"detail\":{\"code\":\"")
    ∷ arg code
    ∷ lit (codes "\",\"first_seen\":true},\"buffered\":")
    ∷ flag (not connected)
    ∷ lit (codes "}")
    ∷ []

-- `event_json_buf`
unfoldable pub dtc_event_json : Names → List ℕ → Code → Bool → List ℕ
dtc_event_json names time code connected =
    snprintk 160 (render (dtc_event_pieces names time code connected))

module _ {Coord Float : Type 0} (formats : Formats Coord Float) where
  -- `ts_str`
  unfoldable pub timestamp : RmcFrame Coord → List ℕ
  timestamp r = snprintk 32 (
      render (
        lit (codes "20")
        ∷ arg (formats.d02 r.year)
        ∷ lit (codes "-")
        ∷ arg (formats.d02 r.month)
        ∷ lit (codes "-")
        ∷ arg (formats.d02 r.day)
        ∷ lit (codes "T")
        ∷ arg (formats.d02 r.hours)
        ∷ lit (codes ":")
        ∷ arg (formats.d02 r.minutes)
        ∷ lit (codes ":")
        ∷ arg (formats.d02 r.seconds)
        ∷ lit (codes ".")
        ∷ arg (formats.d03 r.microseconds)
        ∷ lit (codes "Z")
        ∷ []))

  -- What both formats share, from the fields of the position on.
  abbrev pub shared_pieces : Cat Coord Float → Bool → List Piece
  shared_pieces c connected =
      let r = c.rmc_frame in
      let minus_one = formats.of_int (negsuc 0) in
      let number =
        λ (o : Option ℕ). or_else (negsuc 0) (elim o [ none ↦ none | some n ↦ some (pos n) ]) in
      lit (codes "\"location\":{\"lat\":")
      ∷ arg (snprintk 12 (formats.f (formats.to_coord r.latitude)))
      ∷ lit (codes ",\"lng\":")
      ∷ arg (snprintk 12 (formats.f (formats.to_coord r.longitude)))
      ∷ lit (codes ",\"speed_kmh\":")
      ∷ arg (formats.f1 (formats.knots_to_kmh (formats.to_float r.speed)))
      ∷ lit (codes ",\"heading_deg\":")
      ∷ arg (formats.f1 (formats.to_float r.course))
      ∷ lit (codes ",\"fix_quality\":")
      ∷ arg (formats.d (number c.fix_quality))
      ∷ lit (codes ",\"fake\":")
      ∷ flag (not r.valid)
      ∷ lit (codes "},\"obd\":{\"vehicle_speed_kmh\":")
      ∷ arg (formats.f1 (formats.of_int (number c.obd.vehicle_speed_kph)))
      ∷ lit (codes ",\"engine_rpm\":")
      ∷ arg (formats.d (number c.obd.engine_rpm))
      ∷ lit (codes ",\"fuel_level_pct\":")
      ∷ arg (formats.f1 (or_else minus_one c.obd.fuel_level_pct))
      ∷ lit (codes ",\"coolant_temp_c\":")
      ∷ arg (formats.d (or_else (negsuc 998) c.obd.coolant_temp_c))
      ∷ lit (codes "},\"power\":{\"ignition_on\":")
      ∷ flag (bus_responded c.obd)
      ∷ lit (codes ",\"supply_voltage_v\":")
      ∷ arg (formats.f1 (or_else minus_one c.obd.supply_voltage_v))
      ∷ lit (codes "},\"buffered\":")
      ∷ flag (not connected)
      ∷ lit (codes "}")
      ∷ []

abbrev pub name_pieces : Names → List Piece
name_pieces names =
    lit (codes "{\"device_id\":\"")
    ∷ arg names.device_id
    ∷ lit (codes "\",\"fw_version\":\"")
    ∷ arg names.fw_version
    ∷ lit (codes "\",")
    ∷ []

module _ {Coord Float : Type 0} (formats : Formats Coord Float) (names : Names) where
  -- JSON_FMT, or JSON_FMT_FAKE_GPS where the fix is not valid
  abbrev pub json_pieces : Cat Coord Float → Bool → List Piece
  json_pieces c connected =
      name_pieces names
      ++ ((if c.rmc_frame.valid
            then lit (codes "\"timestamp\":\"")
              ∷ arg (timestamp formats c.rmc_frame)
              ∷ lit (codes "\",")
              ∷ []
            else [])
          ++ shared_pieces formats c connected)

  -- `json_buf`
  unfoldable pub telemetry_json : Cat Coord Float → Bool → List ℕ
  telemetry_json c connected = snprintk 512 (render (json_pieces c connected))

module _ {S M : Type 0} (names : Names) (nvs : NvsOps S) (mqtt : MqttOps M) where
  -- The body of the loop over the trouble codes, for a code that was not reported
  unfoldable pub report_dtc : Streams S M → Code → Streams S M
  report_dtc s code = record s {
    uplink =
        (publish_event nvs mqtt s.uplink
          (dtc_event_json names s.last_known_utc_time code (is_connected s.uplink))).1;
    reported = mark_reported s.reported code;
  }

  -- The loop over the trouble codes
  unfoldable pub report_dtcs : Streams S M → DtcList → Streams S M
  report_dtcs s [] = s
  report_dtcs s (code ∷ dtcs) =
      report_dtcs (if already_reported s.reported code then s else report_dtc s code) dtcs

module _ {Coord Float S M : Type 0} (formats : Formats Coord Float) (names : Names) (nvs : NvsOps S)
    (mqtt : MqttOps M) where
  -- The loop over `cat_msgq`, one reading at a time; the result of the publish is not looked at.
  unfoldable pub stream_readings : Streams S M → List (Cat Coord Float) → Streams S M
  stream_readings s [] = s
  stream_readings s (c ∷ readings) =
      let json = telemetry_json formats names c (is_connected s.uplink) in
      let s' = record s {
        uplink = (publish_telemetry nvs mqtt s.uplink json).1;
        last_known_utc_time =
            if c.rmc_frame.valid then timestamp formats c.rmc_frame else s.last_known_utc_time;
      } in
      stream_readings s' readings

  -- `app_sensors_read_and_stream`, with what `cat_msgq` holds and `obd_j1979_get_latest_dtcs` returns
  unfoldable pub read_and_stream : Streams S M → List (Cat Coord Float) → DtcList → Streams S M
  read_and_stream s readings dtcs = report_dtcs names nvs mqtt (stream_readings s readings) dtcs
