-- ===== src/Device/Online.antt =====
-- When the firmware counts as connected: between the CONNACK that the thread of src/uplink_mqtt.c has seen
-- and its call of `mqtt_abort`.
use telenode.Prelude.{ℕ, ◌≡◌, subst, true, false, List, [], ◌∷◌, Bool-cases, inl, inr}
use telenode.Prelude.Errno.{Result, ok, err, Done-cases, Result-cases}
use telenode.BufferFifo
use telenode.BufferFifo.{Channel, telemetry, events, max_record_len}
use telenode.DtcDecode.{Code}
use telenode.Mqtt.{at_least_once, Evt}
use telenode.HarshDriving.{Event, no_event, acceleration, braking, cornering}
use telenode.Imu.{imu_round, publish_harsh}
use telenode.Ota.Finish.{FotaEvt, progress, finished, error, unhandled, fota_event}
use telenode.Uplink.{Uplink, publish_raw, buffer}
use telenode.Uplink.Raises.{
  IsNoRise, publish_raw-IsNoRise, publish_status-IsNoRise, publish_event-IsNoRise,
  handle_event-IsNoRise,
}
use telenode.Sensors.Stream.{Streams, already_reported, report_dtc, report_dtcs}
use telenode.Sensors.Stream.Length.{stream_readings-uplink}
use telenode.Device.Acks.{IsOnline, IsAcknowledged, Reach-IsTracked}
use telenode.Device.Unsent.{IsUnsent-keeps}
use telenode.Device.{
  IsUnsent, Env, Device, trying, after_channel, channel_topic, channel_qos, uplink, uart_byte,
  rmc_round, stream_one, report_one, harsh_round, client_event, begin_connect, peek_one, send_one,
  ack_one, Step, byte, rmc_frame, polled, sampled, sample_unsent, sample_pushed, dtc_unsent,
  dtc_pushed, sample_push, dtc_push, streamed, scanned, reported, downloaded, network_up,
  setup_failed, connecting, awaited, gave_up, accepted, greeted, subscribed, peeked, sent, acked,
  served, failed, dropped, aborted, Reach, here, next, start,
}

after_channel-IsOnline : (ch : Channel) → IsOnline (after_channel ch)
after_channel-IsOnline telemetry = tt
after_channel-IsOnline events = tt

module _ {S M F Coord Float : Type 0} (env : Env S M F Coord Float) where
  -- The flag is set only in such a place of the thread.
  abbrev pub IsHonest : Device S M F Coord Float → Type 0
  IsHonest d = (uplink d).connected ≡ true → IsOnline d.phase

  report_dtc-IsNoRise :
      (s : Streams S M) (code : Code)
      → IsNoRise s.uplink (report_dtcs env.names env.nvs env.mqtt s (code ∷ [])).uplink
  unfolding report_dtcs report_dtc
  report_dtc-IsNoRise s code = elim (Bool-cases (already_reported s.reported code)) [
    | inl old ↦ rw old (λ c. c)
    | inr fresh ↦ rw fresh (publish_event-IsNoRise env.nvs env.mqtt s.uplink _)
  ]

  publish_harsh-IsNoRise :
      (u : Uplink S M) (time : List ℕ) (x y : Float) (event : Event)
      → IsNoRise u (publish_harsh env.floats env.f2 env.names env.nvs env.mqtt u time x y event)
  publish_harsh-IsNoRise u time x y no_event = λ c. c
  publish_harsh-IsNoRise u time x y acceleration = publish_event-IsNoRise env.nvs env.mqtt u _
  publish_harsh-IsNoRise u time x y braking = publish_event-IsNoRise env.nvs env.mqtt u _
  publish_harsh-IsNoRise u time x y cornering = publish_event-IsNoRise env.nvs env.mqtt u _

  imu_round-IsNoRise :
      (u : Uplink S M) (time : List ℕ) (fetched : Result (Unit {0}))
      (accel : Result (Float × Float))
      → IsNoRise u (
          imu_round env.floats env.f2 env.names env.nvs env.mqtt env.thresholds u time fetched
            accel)
  unfolding imu_round
  imu_round-IsNoRise u time (err e) accel = λ c. c
  imu_round-IsNoRise u time (ok done) (err e) = λ c. c
  imu_round-IsNoRise u time (ok done) (ok xy) = publish_harsh-IsNoRise u time xy.0 xy.1 _

  unsent-IsNoRise : (u u' : Uplink S M) (x : List ℕ) → IsUnsent env u x u' → IsNoRise u u'
  unsent-IsNoRise u u' x h =
      IsUnsent-keeps env (IsNoRise u) u u' x h (λ c. c)
        (publish_raw-IsNoRise env.mqtt u u.topics.events_topic x at_least_once false)

  fota_event-IsNoRise : (u : Uplink S M) (evt : FotaEvt) → IsNoRise u (fota_event env.mqtt u evt).0
  unfolding fota_event
  fota_event-IsNoRise u (progress percent) = λ c. c
  fota_event-IsNoRise u finished = publish_status-IsNoRise env.mqtt u _
  fota_event-IsNoRise u (error cause) = λ c. c
  fota_event-IsNoRise u unhandled = λ c. c

  client_event-IsHonest :
      (d : Device S M F Coord Float) (evt : Evt) → IsHonest d → IsHonest (client_event env d evt)
  unfolding client_event
  client_event-IsHonest d evt h =
      λ c. h (handle_event-IsNoRise env.mqtt (uplink d) env.handler_set evt c)

  begin_connect-IsHonest :
      (d : Device S M F Coord Float)
      → d.phase ≡ trying
      → IsHonest d
      → IsHonest (begin_connect env d)
  unfolding begin_connect
  begin_connect-IsHonest d p h =
      let down : (uplink d).connected ≡ true → ⊥ = λ c. subst IsOnline p (h c) in
      elim (Done-cases (env.conn.connect (uplink d).client).0) [
        | inl x ↦ rw (x, begin_connect) (λ c. absurd (down c))
        | inr (e, x) ↦ rw (x, begin_connect) (λ c. absurd (down c))
      ]

  peek_one-IsHonest : (d : Device S M F Coord Float) (ch : Channel) → IsHonest (peek_one env d ch)
  unfolding peek_one
  peek_one-IsHonest d ch =
      elim (Result-cases (BufferFifo.peek env.nvs ch (uplink d).fifo max_record_len)) [
        | inl (bytes, x) ↦ rw (x, peek_one) (λ c. tt)
        | inr (e, x) ↦ rw (x, peek_one) (λ c. after_channel-IsOnline ch)
      ]

  send_one-IsHonest :
      (d : Device S M F Coord Float) (ch : Channel) (bytes : List ℕ)
      → IsHonest (send_one env d ch bytes)
  unfolding send_one
  send_one-IsHonest d ch bytes =
      let topic = channel_topic ch (uplink d).topics in
      elim (Done-cases (publish_raw env.mqtt (uplink d) topic bytes (channel_qos ch) false).0) [
        | inl x ↦ rw (x, send_one) (λ c. tt)
        | inr (e, x) ↦ rw (x, send_one) (λ c. after_channel-IsOnline ch)
      ]

  Step-IsHonest : {d e : Device S M F Coord Float} → Step env d e → IsHonest d → IsHonest e
  unfolding uart_byte rmc_round stream_one report_one harsh_round ack_one sample_push dtc_push
      buffer
  Step-IsHonest (byte now c) h = h
  Step-IsHonest rmc_frame h = h
  Step-IsHonest (polled round) h = h
  Step-IsHonest {d} (sampled idle fetched accel) h =
      λ c. h (imu_round-IsNoRise (uplink d) d.streams.last_known_utc_time fetched accel c)
  Step-IsHonest {d} (streamed idle c rest q) h =
      rw (stream_readings-uplink env.formats env.names env.nvs env.mqtt (c ∷ []) d.streams) h
  Step-IsHonest (scanned idle q) h = h
  Step-IsHonest {d} (reported idle code rest q) h = λ c. h (report_dtc-IsNoRise d.streams code c)
  Step-IsHonest {d} (sample_unsent x y event u idle same harsh unsent) h =
      λ c. h (unsent-IsNoRise (uplink d) u _ unsent c)
  Step-IsHonest (sample_pushed x e) h = h
  Step-IsHonest {d} (dtc_unsent code rest u idle q fresh unsent) h =
      λ c. h (unsent-IsNoRise (uplink d) u _ unsent c)
  Step-IsHonest (dtc_pushed code rest x q e) h = h
  Step-IsHonest {d} (downloaded evt) h = λ c. h (fota_event-IsNoRise (uplink d) evt c)
  Step-IsHonest (network_up p) h = λ c. subst IsOnline p (h c)
  Step-IsHonest (setup_failed p) h = h
  Step-IsHonest {d} (connecting p) h = begin_connect-IsHonest d p h
  Step-IsHonest {d} (awaited evt p) h = client_event-IsHonest d evt h
  Step-IsHonest (gave_up p) h = λ c. subst IsOnline p (h c)
  Step-IsHonest (accepted p q) h = λ c. tt
  Step-IsHonest (greeted p) h = λ c. tt
  Step-IsHonest (subscribed p) h = λ c. tt
  Step-IsHonest {d} (peeked ch p) h = peek_one-IsHonest d ch
  Step-IsHonest {d} (sent ch bytes p) h = send_one-IsHonest d ch bytes
  Step-IsHonest (acked ch p) h = λ c. tt
  Step-IsHonest {d} (served evt p) h = client_event-IsHonest d evt h
  Step-IsHonest (failed p) h = λ c. cc
  Step-IsHonest (dropped p q) h = λ c. cc
  Step-IsHonest (aborted p) h = λ c. subst IsOnline p (h c)

  online :
      (u : Uplink S M) (fota : F) (d : Device S M F Coord Float)
      → u.connected ≡ false
      → Reach env (start u fota) d
      → IsHonest d
  online u fota d down here c = cc
  online u fota d down (next r st) c = Step-IsHonest st (online u fota _ down r) c

  -- From a start without a connection on, and in any interleaving of the threads: while the firmware counts
  -- as connected, the thread of the uplink stands behind its wait for the CONNACK and before its call of
  -- `mqtt_abort`, and of the CONNACKs that came during the wait, since the last call of `mqtt_connect`, the
  -- last has result 0.
  pub connected_honest :
      (u : Uplink S M) (fota : F) (d : Device S M F Coord Float) (r : Reach env (start u fota) d)
      → u.connected ≡ false
      → (uplink d).connected ≡ true
      → IsOnline d.phase × IsAcknowledged env r
  connected_honest u fota d r down c =
      let o = online u fota d down r c in (o, (Reach-IsTracked env u fota d r).1 o)
