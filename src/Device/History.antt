-- ===== src/Device/History.antt =====
-- The events that a run of the firmware has answered for, by `uplink_mqtt_publish_event` of
-- src/uplink_mqtt.c.
use telenode.Prelude.{ℕ, ◌+◌, ◌^◌, ◌<◌, List, [], ◌++◌, if◌then◌else◌}
use telenode.Prelude.Errno.{Result, ok, err}
use telenode.BufferFifo.{events, meta_of}
use telenode.BufferFifo.Queue.{Item}
use telenode.DtcDecode.{Code}
use telenode.Uplink.{Uplink, publish_event, buffer}
use telenode.HarshDriving.{Event, no_event, evaluate}
use telenode.Sensors.Stream.{Streams, already_reported}
use telenode.Device.Kept.{answered}
use telenode.Device.{
  harsh_payload, dtc_payload, Env, Device, uplink, Step, sampled, sample_pushed, reported,
  dtc_pushed, Reach, here, next,
}

module _ {S M F Coord Float : Type 0} (env : Env S M F Coord Float) where
  -- The payload of an event, where the call that publishes it answers 0.
  abbrev pub answered_event : Uplink S M → Item → List Item
  answered_event u x = answered (publish_event env.nvs env.mqtt u x).0 x

  abbrev pub answered_harsh : Uplink S M → List ℕ → Float → Float → Event → List Item
  answered_harsh u time x y no_event = []
  answered_harsh u time x y event = answered_event u (harsh_payload env u time x y event)

  abbrev pub answered_sample :
      Uplink S M → List ℕ → Result (Unit {0}) → Result (Float × Float) → List Item
  answered_sample u time (err e) accel = []
  answered_sample u time (ok done) (err e) = []
  answered_sample u time (ok done) (ok xy) =
      answered_harsh u time xy.0 xy.1 (evaluate env.floats xy.0 xy.1 env.thresholds)

  abbrev pub answered_dtc : Streams S M → Code → List Item
  answered_dtc s code =
      if already_reported s.reported code
      then []
      else answered_event s.uplink (dtc_payload env s code)

  -- The event that a step has answered 0 for, if it published one.
  abbrev pub answered_by : {d e : Device S M F Coord Float} → Step env d e → List Item
  answered_by {d} (sampled idle fetched accel) =
      answered_sample (uplink d) d.streams.last_known_utc_time fetched accel
  answered_by {d} (reported idle code rest q) = answered_dtc d.streams code
  answered_by {d} (sample_pushed x e) = answered (buffer env.nvs env.mqtt events (uplink d) x).0 x
  answered_by {d} (dtc_pushed code rest x q e) =
      answered (buffer env.nvs env.mqtt events (uplink d) x).0 x
  answered_by _ = []

  -- The events answered 0 in a run, newest first, with those that its start has found in the ring.
  abbrev pub history : List Item → {d e : Device S M F Coord Float} → Reach env d e → List Item
  history first here = first
  history first (next r st) = answered_by st ++ history first r

  -- No step of the run meets a head cursor that is about to wrap.
  abbrev pub IsLow : {d e : Device S M F Coord Float} → Reach env d e → Type 0
  IsLow here = Unit
  IsLow (next {e} r st) = IsLow r × ((meta_of events (uplink e).fifo).head + 1 < 2 ^ 32)
