-- ===== src/Device.antt =====
-- The firmware as a whole: the threads of src/app_sensors.c, src/obd_j1979.c, src/imu_icm42688.c, src/main.c
-- and src/uplink_mqtt.c over their shared statics, in any interleaving of their steps. A step is a byte of
-- the UART interrupt, a turn of a thread's loop, or what the uplink's thread does between two such turns;
-- an event that is not handed over may be pushed into its ring in the same step, or in a later one
-- (`sample_unsent`, `sample_pushed`, `dtc_unsent`, `dtc_pushed`), since `publish_or_buffer` holds no lock in
-- between; a telemetry record is too long for either. The text of an event, with its `buffered`, is made in
-- the step that tries to publish it. The waits and deadlines of the threads are left open: a
-- step may come at any time.
pub mod Unsent
pub mod Quiet
pub mod Silent
pub mod Limits
pub mod Bounds
pub mod Acks
pub mod Online
pub mod Kept
pub mod Replayed
pub mod History
pub mod Delivered
pub mod AtLeastOnce
pub mod Updates
pub mod Memory
mod Tests
use telenode.Prelude.{
  ℕ, ◌≤◌, ◌≡◌, ◌≢◌, ◌⊎◌, Bool, true, false, List, [], ◌∷◌, Option, none, some, length,
}
use telenode.Prelude.Errno.{Errno, Result, ok, err}
use telenode.Prelude.Texts.{codes}
use telenode.Nvs.{NvsOps}
use telenode.BufferFifo
use telenode.BufferFifo.{Channel, telemetry, events, max_record_len}
use telenode.DtcDecode.{Code, DtcList}
use telenode.Mqtt.{MqttOps, ConnectOps, Evt, Qos, at_most_once, at_least_once}
use telenode.Uplink.{
  Uplink, Topics, publish_raw, publish_status, subscribe_ota_topic, buffer, is_connected,
}
use telenode.Uplink.Events.{handle_event}
use telenode.Uplink.Connect.{next_backoff, reconnect_backoff_base_ms}
use telenode.Uplink.Thread.{online_payload}
use telenode.Obd.{Obd, ObdData, Round, poll, get_latest, get_latest_dtcs}
use telenode.HarshDriving.{Floats, Thresholds, Event, no_event, evaluate, event_name}
use telenode.Imu.{imu_round, harsh_event_json}
use telenode.Sensors.Serial.{serial_byte}
use telenode.Sensors.Fixes.{Minmea, Settings, Fixes, process_reading, process_rmc_frame}
use telenode.Sensors.Stream.{
  RmcFrame, Formats, Names, Cat, Streams, stream_readings, report_dtcs, already_reported,
  mark_reported, dtc_event_json,
}
use telenode.Ota.{OtaOps, OtaConfig}
use telenode.Ota.Delivery.{ota_event}
use telenode.Ota.Finish.{FotaEvt, fota_event}

-- The libraries and the configuration.
pub record Env (S M F Coord Float : Type 0) : Type 0 where
  pub minmea : Minmea (RmcFrame Coord)
  pub settings : Settings
  pub quotient : ℕ → ℕ → Float
  pub floats : Floats Float
  pub thresholds : Thresholds Float
  pub f2 : Float → List ℕ
  pub formats : Formats Coord Float
  pub names : Names
  pub nvs : NvsOps S
  pub mqtt : MqttOps M
  pub conn : ConnectOps M
  pub ota : OtaOps F
  pub ota_config : OtaConfig
  pub handler_set : Bool

-- Where `uplink_thread_fn` stands: before its semaphore, asleep after a failed attempt or about to make one
-- (`trying`), in the loop that waits for the CONNACK, about to publish its status, about to subscribe, at
-- the head of a replay loop, holding a record that it peeked, about to acknowledge it, in the loop that
-- serves the connection, or about to abort it.
pub data Phase : Type 0 where
  waiting trying awaiting greeting subscribing serving aborting : Phase
  peeking acking : Channel → Phase
  sending : Channel → List ℕ → Phase

-- `drain_buffered_records`: what follows the loop of a channel.
abbrev pub after_channel : Channel → Phase
after_channel events = peeking telemetry
after_channel telemetry = serving

abbrev pub channel_topic : Channel → Topics → List ℕ
channel_topic telemetry topics = topics.telemetry_topic
channel_topic events topics = topics.events_topic

abbrev pub channel_qos : Channel → Qos
channel_qos telemetry = at_most_once
channel_qos events = at_least_once

-- The statics of the modules, `scan`, what is left of the main loop's copy of the trouble codes, and of the
-- uplink's thread its place and `backoff_ms`; `imu_holds` and `main_holds` are the payloads that the
-- accelerometer's and the main thread could not hand over and are about to push.
pub record Device (S M F Coord Float : Type 0) : Type 0 where
  pub rx : List ℕ
  pub fixes : Fixes (RmcFrame Coord) (ObdData Float)
  pub obd : Obd Float
  pub streams : Streams S M
  pub scan : DtcList
  pub fota : F
  pub phase : Phase
  pub backoff_ms : ℕ
  pub imu_holds : Option (List ℕ)
  pub main_holds : Option (List ℕ)

module _ {S M F Coord Float : Type 0} where
  abbrev pub uplink : Device S M F Coord Float → Uplink S M
  uplink d = d.streams.uplink

  abbrev pub with_uplink : Device S M F Coord Float → Uplink S M → Device S M F Coord Float
  with_uplink d u = record d { streams = record d.streams { uplink = u } }

  abbrev pub at_phase : Phase → Device S M F Coord Float → Device S M F Coord Float
  at_phase p d = record d { phase = p }

module _ {S M F Coord Float : Type 0} (env : Env S M F Coord Float) where
  -- A turn of the loop of `serial_cb` at an uptime, with `process_reading`
  unfoldable pub uart_byte : Device S M F Coord Float → ℕ → ℕ → Device S M F Coord Float
  uart_byte d now c =
      let (sentence, rx') = serial_byte d.rx c in
      record d {
        rx = rx';
        fixes = elim sentence [
          | none ↦ d.fixes
          | some text ↦ process_reading env.minmea env.settings d.fixes now text
        ];
      }

  -- A round of `process_rmc_frames_thread`
  unfoldable pub rmc_round : Device S M F Coord Float → Device S M F Coord Float
  rmc_round d = record d { fixes = process_rmc_frame d.fixes (get_latest d.obd) }

  -- A turn of the loop of `app_sensors_read_and_stream` over `cat_msgq`
  unfoldable pub stream_one :
      Device S M F Coord Float → Cat Coord Float → List (Cat Coord Float) → Device S M F Coord Float
  stream_one d c rest = record d {
    fixes = record d.fixes { cat_msgq = rest };
    streams = stream_readings env.formats env.names env.nvs env.mqtt d.streams (c ∷ []);
  }

  -- A turn of its loop over the trouble codes
  unfoldable pub report_one : Device S M F Coord Float → List ℕ → DtcList → Device S M F Coord Float
  report_one d code rest = record d {
    scan = rest;
    streams = report_dtcs env.names env.nvs env.mqtt d.streams (code ∷ []);
  }

  -- A round of `imu_thread_fn`
  unfoldable pub harsh_round :
      Device S M F Coord Float
      → Result (Unit {0})
      → Result (Float × Float)
      → Device S M F Coord Float
  harsh_round d fetched accel = with_uplink d (
      imu_round env.floats env.f2 env.names env.nvs env.mqtt env.thresholds (uplink d)
        d.streams.last_known_utc_time fetched accel)

  -- An event that `mqtt_input` passes to `mqtt_event_handler`
  unfoldable pub client_event : Device S M F Coord Float → Evt → Device S M F Coord Float
  client_event d evt =
      record (with_uplink d (handle_event env.mqtt env.handler_set (uplink d) evt).0) {
        fota = ota_event env.mqtt env.ota env.ota_config env.handler_set (uplink d) d.fota evt;
      }

  -- `try_connect_once` up to its loop, where the set-up of the client succeeds
  unfoldable pub begin_connect : Device S M F Coord Float → Device S M F Coord Float
  begin_connect d =
      let (r, m) = env.conn.connect (uplink d).client in
      let d' = with_uplink d (record (uplink d) { client = m; connack_ok = false }) in
      (elim r [
        | ok done ↦ at_phase awaiting d'
        | err e ↦ record d' { phase = trying; backoff_ms = next_backoff d.backoff_ms }
      ])

  abbrev pub abort_client : Uplink S M → Uplink S M
  abort_client u = record u { client = env.conn.abort u.client }

  -- A turn of the loop of `drain_channel`, in its three parts
  unfoldable pub peek_one : Device S M F Coord Float → Channel → Device S M F Coord Float
  peek_one d ch = elim (BufferFifo.peek env.nvs ch (uplink d).fifo max_record_len) [
    | err e ↦ at_phase (after_channel ch) d
    | ok bytes ↦ at_phase (sending ch bytes) d
  ]

  unfoldable pub send_one : Device S M F Coord Float → Channel → List ℕ → Device S M F Coord Float
  send_one d ch bytes =
      let (r, u) =
        publish_raw env.mqtt (uplink d) (channel_topic ch (uplink d).topics) bytes (channel_qos ch)
          false in
      (elim r [
        | err e ↦ at_phase (after_channel ch) (with_uplink d u)
        | ok done ↦ at_phase (acking ch) (with_uplink d u)
      ])

  unfoldable pub ack_one : Device S M F Coord Float → Channel → Device S M F Coord Float
  ack_one d ch = at_phase (peeking ch) (
      with_uplink d
        (record (uplink d) { fifo = (BufferFifo.pop_ack env.nvs ch (uplink d).fifo).1 }))

  -- `event_json_buf` of `imu_thread_fn` and of `app_sensors_read_and_stream`
  abbrev pub harsh_payload : Uplink S M → List ℕ → Float → Float → Event → List ℕ
  harsh_payload u time x y event =
      harsh_event_json env.names time (event_name event) (env.f2 x) (env.f2 y) (is_connected u)

  abbrev pub dtc_payload : Streams S M → Code → List ℕ
  dtc_payload s code = dtc_event_json env.names s.last_known_utc_time code (is_connected s.uplink)

  -- `publish_or_buffer` of an event up to its second `k_mutex_unlock`, where it goes on to the push: the uplink
  -- is not connected, or the publish fails; `u'` is what it leaves.
  abbrev pub IsUnsent : Uplink S M → List ℕ → Uplink S M → Type 0
  IsUnsent u x u' =
      (length x ≤ max_record_len)
      × ((u.connected ≡ false) × (u ≡ u')
          ⊎ (u.connected ≡ true)
            × (e : Errno) × (publish_raw env.mqtt u u.topics.events_topic x at_least_once false
                ≡ (err e, u')))

  -- The push behind it, in `imu_thread_fn`
  unfoldable pub sample_push : Device S M F Coord Float → List ℕ → Device S M F Coord Float
  sample_push d x = record (with_uplink d (buffer env.nvs env.mqtt events (uplink d) x).1) {
    imu_holds = none;
  }

  -- The push behind it, in `app_sensors_read_and_stream`, and the rest of the turn
  unfoldable pub dtc_push :
      Device S M F Coord Float → Code → DtcList → List ℕ → Device S M F Coord Float
  dtc_push d code rest x = record d {
    scan = rest;
    main_holds = none;
    streams = record d.streams {
      uplink = (buffer env.nvs env.mqtt events (uplink d) x).1;
      reported = mark_reported d.streams.reported code;
    };
  }

  pub data Step (d : Device S M F Coord Float) : Device S M F Coord Float → Type 0 where
    byte : (now c : ℕ) → Step d (uart_byte d now c)
    rmc_frame : Step d (rmc_round d)
    polled : (round : Round) → Step d (record d { obd = poll env.quotient round })
    sampled :
        d.imu_holds ≡ none
        → (fetched : Result (Unit {0})) (accel : Result (Float × Float))
        → Step d (harsh_round d fetched accel)
    sample_unsent :
        (x y : Float) (event : Event) (u : Uplink S M)
        → d.imu_holds ≡ none
        → evaluate env.floats x y env.thresholds ≡ event
        → event ≢ no_event
        → IsUnsent (uplink d) (harsh_payload (uplink d) d.streams.last_known_utc_time x y event) u
        → Step d (record (with_uplink d u) {
          imu_holds = some (harsh_payload (uplink d) d.streams.last_known_utc_time x y event);
        })
    sample_pushed : (x : List ℕ) → d.imu_holds ≡ some x → Step d (sample_push d x)
    streamed :
        d.main_holds ≡ none
        → (c : Cat Coord Float) (rest : List (Cat Coord Float)) → d.fixes.cat_msgq ≡ c ∷ rest
        → Step d (stream_one d c rest)
    scanned : d.main_holds ≡ none → d.scan ≡ [] → Step d (record d { scan = get_latest_dtcs d.obd })
    reported :
        d.main_holds ≡ none
        → (code : List ℕ) (rest : DtcList) → d.scan ≡ code ∷ rest
        → Step d (report_one d code rest)
    dtc_unsent :
        (code : List ℕ) (rest : DtcList) (u : Uplink S M)
        → d.main_holds ≡ none
        → d.scan ≡ code ∷ rest
        → already_reported d.streams.reported code ≡ false
        → IsUnsent (uplink d) (dtc_payload d.streams code) u
        → Step d (record (with_uplink d u) { main_holds = some (dtc_payload d.streams code) })
    dtc_pushed :
        (code : List ℕ) (rest : DtcList) (x : List ℕ)
        → d.scan ≡ code ∷ rest
        → d.main_holds ≡ some x
        → Step d (dtc_push d code rest x)
    downloaded : (evt : FotaEvt) → Step d (with_uplink d (fota_event env.mqtt (uplink d) evt).0)
    network_up : d.phase ≡ waiting → Step d (at_phase trying d)
    setup_failed : d.phase ≡ trying → Step d (record d { backoff_ms = next_backoff d.backoff_ms })
    connecting : d.phase ≡ trying → Step d (begin_connect d)
    awaited : (evt : Evt) → d.phase ≡ awaiting → Step d (client_event d evt)
    gave_up :
        d.phase ≡ awaiting
        → Step d (record (with_uplink d (abort_client (uplink d))) {
          phase = trying;
          backoff_ms = next_backoff d.backoff_ms;
        })
    accepted :
        d.phase ≡ awaiting
        → (uplink d).connack_ok ≡ true
        → Step d (record (with_uplink d (record (uplink d) { connected = true })) {
          phase = greeting;
          backoff_ms = reconnect_backoff_base_ms;
        })
    greeted :
        d.phase ≡ greeting
        → Step d (
            at_phase subscribing
              (with_uplink d (publish_status env.mqtt (uplink d) online_payload).1))
    subscribed :
        d.phase ≡ subscribing
        → Step d
            (at_phase (peeking events) (with_uplink d (subscribe_ota_topic env.mqtt (uplink d))))
    peeked : (ch : Channel) → d.phase ≡ peeking ch → Step d (peek_one d ch)
    sent :
        (ch : Channel) (bytes : List ℕ) → d.phase ≡ sending ch bytes → Step d (send_one d ch bytes)
    acked : (ch : Channel) → d.phase ≡ acking ch → Step d (ack_one d ch)
    served : (evt : Evt) → d.phase ≡ serving → Step d (client_event d evt)
    failed :
        d.phase ≡ serving
        → Step d (at_phase aborting (with_uplink d (record (uplink d) { connected = false })))
    dropped : d.phase ≡ serving → (uplink d).connected ≡ false → Step d (at_phase aborting d)
    aborted :
        d.phase ≡ aborting → Step d (at_phase trying (with_uplink d (abort_client (uplink d))))

  pub data Reach (d : Device S M F Coord Float) : Device S M F Coord Float → Type 0 where
    here : Reach d d
    next : {e e' : Device S M F Coord Float} → Reach d e → Step e e' → Reach d e'

-- The statics when the threads start, over the uplink that `uplink_mqtt_init` leaves.
abbrev pub nothing_read : {Float : Type 0} → ObdData Float
nothing_read = record {
  vehicle_speed_kph = none;
  engine_rpm = none;
  fuel_level_pct = none;
  coolant_temp_c = none;
  supply_voltage_v = none;
}

abbrev pub start : {S M F Coord Float : Type 0} → Uplink S M → F → Device S M F Coord Float
start u fota = record {
  rx = [];
  fixes = record { last_gps = 0; fix_quality = none; rmc_msgq = []; cat_msgq = [] };
  obd = record { latest_data = nothing_read; latest_dtcs = [] };
  streams = record {
    uplink = u;
    last_known_utc_time = codes "1970-01-01T00:00:00Z";
    reported = [];
  };
  scan = [];
  fota = fota;
  phase = waiting;
  backoff_ms = reconnect_backoff_base_ms;
  imu_holds = none;
  main_holds = none;
}
