-- ===== src/Device/Limits.antt =====
-- The sizes of the firmware's statics, and the steps that keep them.
use telenode.Prelude.{
  ℕ, ◌≤◌, ◌<◌, ◌≡◌, refl, ap, sym, subst, false, List, [], ◌∷◌, leb, length, take, All, All-append,
  Bool-cases, Option-cases, inl, inr, length-take, arith,
}
use telenode.Prelude.Errno.{Done-cases, Result-cases}
use telenode.BufferFifo
use telenode.BufferFifo.{Channel, max_record_len}
use telenode.DtcDecode.{Code, DtcList}
use telenode.DtcDecode.Codes.{IsCode}
use telenode.Obd.{Obd, ObdData}
use telenode.Sensors.Fixes.{Fixes}
use telenode.Obd.Ranges.{FitsDtcList}
use telenode.Uplink.{publish_raw}
use telenode.Uplink.Connect.{next_backoff, reconnect_backoff_base_ms, reconnect_backoff_max_ms}
use telenode.Sensors.Serial.{serial_byte, serial_bytes, nmea_size, serial_bytes_fits}
use telenode.Sensors.Queues.{IsGenuine, IsQueued, process_reading-IsQueued}
use telenode.Sensors.Stream.{
  RmcFrame, Cat, already_reported, mark_reported, max_tracked_dtc_codes, report_dtc, report_dtcs,
  stream_readings,
}
use telenode.Sensors.Stream.Once.{length-mark_reported}
use telenode.Device.{
  dtc_push, Env, Device, channel_topic, channel_qos, uplink, uart_byte, stream_one, report_one,
  begin_connect, peek_one, send_one,
}

-- The delay of the uplink's thread.
abbrev pub IsDelay : ℕ → Type 0
IsDelay b = (reconnect_backoff_base_ms ≤ b) × (b ≤ reconnect_backoff_max_ms)

pub next_backoff-IsDelay : (b : ℕ) → IsDelay b → IsDelay (next_backoff b)
unfolding next_backoff
next_backoff-IsDelay b h = (omega arith, omega arith)

serial_byte_fits :
    (rx : List ℕ) (c : ℕ) → length rx < nmea_size → length (serial_byte rx c).1 < nmea_size
unfolding serial_bytes
serial_byte_fits rx c h = (serial_bytes_fits rx (c ∷ []) h).0

mark_reported-All :
    (table : List Code) (code : Code)
    → All IsCode table
    → IsCode code
    → All IsCode (mark_reported table code)
unfolding mark_reported
mark_reported-All table code h c = elim (Bool-cases (leb max_tracked_dtc_codes (length table))) [
  | inl full ↦ rw full h
  | inr room ↦
      rw room (All-append IsCode table (take 5 code ∷ []) h (omega (arith, length-take 5 code), tt))
]

module _ {S M F Coord Float : Type 0} (env : Env S M F Coord Float) where
  -- What stays within its array or its queue, and the range of the delay.
  pub record IsBounded (d : Device S M F Coord Float) : Type 0 where
    pub rx : length d.rx < nmea_size
    pub queues : IsQueued env.minmea env.settings d.fixes
    pub latest : FitsDtcList d.obd.latest_dtcs
    pub scan : FitsDtcList d.scan
    pub table : length d.streams.reported ≤ max_tracked_dtc_codes
    pub codes : All IsCode d.streams.reported
    pub delay : IsDelay d.backoff_ms

  -- What a step of the uplink leaves alone.
  abbrev pub data_of :
      Device S M F Coord Float
      → List ℕ × Fixes (RmcFrame Coord) (ObdData Float) × Obd Float × DtcList × List Code
  data_of d = (d.rx, d.fixes, d.obd, d.scan, d.streams.reported)

  pub same-IsBounded :
      (d e : Device S M F Coord Float)
      → data_of e ≡ data_of d
      → IsDelay e.backoff_ms
      → IsBounded d
      → IsBounded e
  same-IsBounded d e s delay b = record {
    rx = subst (λ x. length x < nmea_size) (sym (ap (λ x. x.0) s)) b.rx;
    queues = subst (IsQueued env.minmea env.settings) (sym (ap (λ x. x.1) s)) b.queues;
    latest = subst (λ x. FitsDtcList x.latest_dtcs) (sym (ap (λ x. x.2) s)) b.latest;
    scan = subst FitsDtcList (sym (ap (λ x. x.3) s)) b.scan;
    table = subst (λ x. length x ≤ max_tracked_dtc_codes) (sym (ap (λ x. x.4) s)) b.table;
    codes = subst (All IsCode) (sym (ap (λ x. x.4) s)) b.codes;
    delay = delay;
  }

  pub uart_byte-IsBounded :
      (d : Device S M F Coord Float) (now c : ℕ) → IsBounded d → IsBounded (uart_byte env d now c)
  unfolding uart_byte
  uart_byte-IsBounded d now c b = record {
    rx = serial_byte_fits d.rx c b.rx;
    queues = elim (Option-cases (serial_byte d.rx c).0) [
      | inl e ↦ rw (e, uart_byte) b.queues
      | inr (text, e) ↦
          rw (e, uart_byte)
            (process_reading-IsQueued env.minmea env.settings d.fixes now text b.queues)
    ];
    latest = b.latest;
    scan = b.scan;
    table = b.table;
    codes = b.codes;
    delay = b.delay;
  }

  pub report_one-IsBounded :
      (d : Device S M F Coord Float) (code : List ℕ) (rest : DtcList)
      → d.scan ≡ code ∷ rest
      → IsBounded d
      → IsBounded (report_one env d code rest)
  unfolding report_one report_dtcs report_dtc
  report_one-IsBounded d code rest e b =
      let scan = subst FitsDtcList e b.scan in
      let fits : FitsDtcList rest = (omega (arith, scan.0), scan.1.1) in
      elim (Bool-cases (already_reported d.streams.reported code)) [
        | inl old ↦ rw old (record {
          rx = b.rx;
          queues = b.queues;
          latest = b.latest;
          scan = fits;
          table = b.table;
          codes = b.codes;
          delay = b.delay;
        })
        | inr fresh ↦ rw fresh (record {
          rx = b.rx;
          queues = b.queues;
          latest = b.latest;
          scan = fits;
          table = (length-mark_reported d.streams.reported code b.table).0;
          codes = mark_reported-All d.streams.reported code b.codes scan.1.0;
          delay = b.delay;
        })
      ]

  pub dtc_push-IsBounded :
      (d : Device S M F Coord Float) (code : List ℕ) (rest : DtcList) (x : List ℕ)
      → d.scan ≡ code ∷ rest
      → IsBounded d
      → IsBounded (dtc_push env d code rest x)
  unfolding dtc_push
  dtc_push-IsBounded d code rest x e b =
      let scan = subst FitsDtcList e b.scan in
      record {
        rx = b.rx;
        queues = b.queues;
        latest = b.latest;
        scan = (omega (arith, scan.0), scan.1.1);
        table = (length-mark_reported d.streams.reported code b.table).0;
        codes = mark_reported-All d.streams.reported code b.codes scan.1.0;
        delay = b.delay;
      }

  pub stream_one-IsBounded :
      (d : Device S M F Coord Float) (c : Cat Coord Float) (rest : List (Cat Coord Float))
      → d.fixes.cat_msgq ≡ c ∷ rest
      → IsBounded d
      → IsBounded (stream_one env d c rest)
  unfolding stream_one stream_readings
  stream_one-IsBounded d c rest e b =
      let genuine =
        subst (All (λ x. IsGenuine env.minmea env.settings x.rmc_frame)) e b.queues.cat_genuine in
      record {
        rx = b.rx;
        queues = record {
          rmc_fits = b.queues.rmc_fits;
          cat_fits = let k = ap length e in let f = b.queues.cat_fits in omega arith;
          rmc_genuine = b.queues.rmc_genuine;
          cat_genuine = genuine.1;
        };
        latest = b.latest;
        scan = b.scan;
        table = b.table;
        codes = b.codes;
        delay = b.delay;
      }

  -- The parts of a connection change neither the data nor the delay, but for a failed attempt.
  pub begin_connect-IsBounded :
      (d : Device S M F Coord Float) → IsBounded d → IsBounded (begin_connect env d)
  unfolding begin_connect
  begin_connect-IsBounded d b = elim (Done-cases (env.conn.connect (uplink d).client).0) [
    | inl x ↦ rw (x, begin_connect) (same-IsBounded d _ refl b.delay b)
    | inr (e, x) ↦
        rw (x, begin_connect)
          (same-IsBounded d _ refl (next_backoff-IsDelay d.backoff_ms b.delay) b)
  ]

  pub peek_one-IsBounded :
      (d : Device S M F Coord Float) (ch : Channel) → IsBounded d → IsBounded (peek_one env d ch)
  unfolding peek_one
  peek_one-IsBounded d ch b =
      elim (Result-cases (BufferFifo.peek env.nvs ch (uplink d).fifo max_record_len)) [
        | inl (bytes, x) ↦ rw (x, peek_one) (same-IsBounded d _ refl b.delay b)
        | inr (e, x) ↦ rw (x, peek_one) (same-IsBounded d _ refl b.delay b)
      ]

  pub send_one-IsBounded :
      (d : Device S M F Coord Float) (ch : Channel) (bytes : List ℕ)
      → IsBounded d
      → IsBounded (send_one env d ch bytes)
  unfolding send_one
  send_one-IsBounded d ch bytes b =
      let topic = channel_topic ch (uplink d).topics in
      elim (Done-cases (publish_raw env.mqtt (uplink d) topic bytes (channel_qos ch) false).0) [
        | inl x ↦ rw (x, send_one) (same-IsBounded d _ refl b.delay b)
        | inr (e, x) ↦ rw (x, send_one) (same-IsBounded d _ refl b.delay b)
      ]
