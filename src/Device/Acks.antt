-- ===== src/Device/Acks.antt =====
-- Whether the CONNACK that src/uplink_mqtt.c counts as an acceptance has come, in a run of the firmware.
use telenode.Prelude.{
  ℕ, ◌≡◌, ◌==◌, if◌then◌else◌, sym, ap, ◌∙◌, arith, refl, subst, true, false, List, [], ◌∷◌, Bool,
  Bool-cases, inl, inr,
}
use telenode.Prelude.Errno.{Result, ok, err, Done-cases}
use telenode.DtcDecode.{Code}
use telenode.Mqtt.{at_least_once, Evt, connack, disconnect, puback, publish, pingresp, unhandled}
use telenode.HarshDriving.{Event, no_event, acceleration, braking, cornering}
use telenode.Imu.{imu_round, publish_harsh}
use telenode.Ota.Finish
use telenode.Ota.Finish.{FotaEvt, progress, finished, error, fota_event}
use telenode.Uplink.{Uplink, buffer}
use telenode.Uplink.Raises.{
  IsSameAck, publish_raw-IsSameAck, publish_status-IsSameAck, publish_event-IsSameAck,
  handle_publish-IsSameAck,
}
use telenode.Uplink.Events.{handle_event}
use telenode.Sensors.Stream.{Streams, already_reported, report_dtc, report_dtcs}
use telenode.Sensors.Stream.Length.{stream_readings-uplink}
use telenode.Device.Unsent.{IsUnsent-keeps}
use telenode.Device.{
  IsUnsent, Env, Device, Phase, waiting, trying, awaiting, greeting, subscribing, serving, aborting,
  peeking, acking, sending, uplink, uart_byte, rmc_round, stream_one, report_one, harsh_round,
  client_event, begin_connect, Step, byte, rmc_frame, polled, sampled, sample_unsent, sample_pushed,
  dtc_unsent, dtc_pushed, sample_push, dtc_push, streamed, scanned, reported, downloaded,
  network_up, setup_failed, connecting, awaited, gave_up, accepted, greeted, subscribed, peeked,
  sent, acked, served, failed, dropped, aborted, Reach, here, next, start,
}

-- After the CONNACK, and before `mqtt_abort` is due.
abbrev pub IsOnline : Phase → Type 0
IsOnline waiting = ⊥
IsOnline trying = ⊥
IsOnline awaiting = ⊥
IsOnline aborting = ⊥
IsOnline greeting = Unit
IsOnline subscribing = Unit
IsOnline serving = Unit
IsOnline (peeking ch) = Unit
IsOnline (acking ch) = Unit
IsOnline (sending ch bytes) = Unit

-- What an event says of the attempt to connect: a CONNACK decides, the last one counts, and any other event
-- leaves what was known.
abbrev pub AcknowledgedBy : Evt → Type 0 → Type 0
AcknowledgedBy (connack result) before = result ≡ 0
AcknowledgedBy disconnect before = before
AcknowledgedBy (puback result) before = before
AcknowledgedBy (publish message) before = before
AcknowledgedBy pingresp before = before
AcknowledgedBy unhandled before = before

zero_of : (n : ℕ) → (if n == 0 then true else false) ≡ true → n ≡ 0
zero_of n h = ground arith

module _ {S M F Coord Float : Type 0} (env : Env S M F Coord Float) where
  -- What a step says of it: a new call of `mqtt_connect` forgets what was known.
  abbrev pub AfterStep : {d e : Device S M F Coord Float} → Step env d e → Type 0 → Type 0
  AfterStep (connecting p) before = ⊥
  AfterStep (awaited evt p) before = AcknowledgedBy evt before
  AfterStep _ before = before

  -- Since the last call of `mqtt_connect` in the run, the thread has been waiting for a CONNACK when one came,
  -- and the last that came then has result 0.
  pub IsAcknowledged : {d e : Device S M F Coord Float} → Reach env d e → Type 0
  IsAcknowledged here = ⊥
  IsAcknowledged (next r st) = AfterStep st (IsAcknowledged r)

  report_dtc-IsSameAck :
      (s : Streams S M) (code : Code)
      → IsSameAck s.uplink (report_dtcs env.names env.nvs env.mqtt s (code ∷ [])).uplink
  unfolding report_dtcs report_dtc
  report_dtc-IsSameAck s code = elim (Bool-cases (already_reported s.reported code)) [
    | inl old ↦ rw old refl
    | inr fresh ↦ rw fresh (publish_event-IsSameAck env.nvs env.mqtt s.uplink _)
  ]

  publish_harsh-IsSameAck :
      (u : Uplink S M) (time : List ℕ) (x y : Float) (event : Event)
      → IsSameAck u (publish_harsh env.floats env.f2 env.names env.nvs env.mqtt u time x y event)
  publish_harsh-IsSameAck u time x y no_event = refl
  publish_harsh-IsSameAck u time x y acceleration = publish_event-IsSameAck env.nvs env.mqtt u _
  publish_harsh-IsSameAck u time x y braking = publish_event-IsSameAck env.nvs env.mqtt u _
  publish_harsh-IsSameAck u time x y cornering = publish_event-IsSameAck env.nvs env.mqtt u _

  imu_round-IsSameAck :
      (u : Uplink S M) (time : List ℕ) (fetched : Result (Unit {0}))
      (accel : Result (Float × Float))
      → IsSameAck u (
          imu_round env.floats env.f2 env.names env.nvs env.mqtt env.thresholds u time fetched
            accel)
  unfolding imu_round
  imu_round-IsSameAck u time (err e) accel = refl
  imu_round-IsSameAck u time (ok done) (err e) = refl
  imu_round-IsSameAck u time (ok done) (ok xy) = publish_harsh-IsSameAck u time xy.0 xy.1 _

  unsent-IsSameAck : (u u' : Uplink S M) (x : List ℕ) → IsUnsent env u x u' → IsSameAck u u'
  unsent-IsSameAck u u' x h =
      IsUnsent-keeps env (IsSameAck u) u u' x h refl
        (publish_raw-IsSameAck env.mqtt u u.topics.events_topic x at_least_once false)

  fota_event-IsSameAck :
      (u : Uplink S M) (evt : FotaEvt) → IsSameAck u (fota_event env.mqtt u evt).0
  unfolding fota_event
  fota_event-IsSameAck u (progress percent) = refl
  fota_event-IsSameAck u finished = publish_status-IsSameAck env.mqtt u _
  fota_event-IsSameAck u (error cause) = refl
  fota_event-IsSameAck u Finish.unhandled = refl

  -- `before` holds where the thread has seen the CONNACK, or is about to.
  abbrev IsTracked : Device S M F Coord Float → Type 0 → Type 0
  IsTracked d before =
      (d.phase ≡ awaiting → (uplink d).connack_ok ≡ true → before) × (IsOnline d.phase → before)

  -- A change of the uplink that leaves `mqtt_connack_ok` alone
  same-IsTracked :
      (d : Device S M F Coord Float) (ack : Bool) (before : Type 0)
      → ack ≡ (uplink d).connack_ok
      → IsTracked d before
      → (d.phase ≡ awaiting → ack ≡ true → before) × (IsOnline d.phase → before)
  same-IsTracked d ack before same h = (λ q c. h.0 q (sym same ∙ c), h.1)

  awaited-IsTracked :
      (d : Device S M F Coord Float) (evt : Evt) (before : Type 0)
      → d.phase ≡ awaiting
      → IsTracked d before
      → IsTracked (client_event env d evt) (AcknowledgedBy evt before)
  unfolding client_event handle_event
  awaited-IsTracked d (connack result) before p h =
      (λ q c. zero_of result c, λ o. absurd (subst IsOnline p o))
  awaited-IsTracked d disconnect before p h = h
  awaited-IsTracked d (puback result) before p h = h
  awaited-IsTracked d (publish message) before p h =
      same-IsTracked d _ before
        (handle_publish-IsSameAck env.mqtt (uplink d) env.handler_set message) h
  awaited-IsTracked d pingresp before p h = h
  awaited-IsTracked d unhandled before p h = h

  begin_connect-IsTracked :
      (d : Device S M F Coord Float) (before : Type 0) → IsTracked (begin_connect env d) before
  unfolding begin_connect
  begin_connect-IsTracked d before = elim (Done-cases (env.conn.connect (uplink d).client).0) [
    | inl x ↦ rw (x, begin_connect) (λ q c. cc, λ o. absurd o)
    | inr (e, x) ↦ rw (x, begin_connect) (λ q c. cc, λ o. absurd o)
  ]

  Step-IsTracked :
      {d e : Device S M F Coord Float} (before : Type 0) (st : Step env d e)
      → IsTracked d before
      → IsTracked e (AfterStep st before)
  unfolding uart_byte rmc_round stream_one report_one harsh_round sample_push dtc_push buffer
  Step-IsTracked before (byte now c) h = h
  Step-IsTracked before rmc_frame h = h
  Step-IsTracked before (polled round) h = h
  Step-IsTracked {d} before (sampled idle fetched accel) h =
      same-IsTracked d _ before
        (imu_round-IsSameAck (uplink d) d.streams.last_known_utc_time fetched accel) h
  Step-IsTracked {d} before (streamed idle c rest q) h =
      same-IsTracked d _ before
        (ap (λ u. u.connack_ok)
          (stream_readings-uplink env.formats env.names env.nvs env.mqtt (c ∷ []) d.streams))
        h
  Step-IsTracked before (scanned idle q) h = h
  Step-IsTracked {d} before (reported idle code rest q) h =
      same-IsTracked d _ before (report_dtc-IsSameAck d.streams code) h
  Step-IsTracked {d} before (sample_unsent x y event u idle same harsh unsent) h =
      same-IsTracked d _ before (unsent-IsSameAck (uplink d) u _ unsent) h
  Step-IsTracked before (sample_pushed x e) h = h
  Step-IsTracked {d} before (dtc_unsent code rest u idle q fresh unsent) h =
      same-IsTracked d _ before (unsent-IsSameAck (uplink d) u _ unsent) h
  Step-IsTracked before (dtc_pushed code rest x q e) h = h
  Step-IsTracked {d} before (downloaded evt) h =
      same-IsTracked d _ before (fota_event-IsSameAck (uplink d) evt) h
  Step-IsTracked before (network_up p) h = (λ q c. cc, λ o. absurd o)
  Step-IsTracked before (setup_failed p) h = h
  Step-IsTracked {d} before (connecting p) h = begin_connect-IsTracked d ⊥
  Step-IsTracked {d} before (awaited evt p) h = awaited-IsTracked d evt before p h
  Step-IsTracked before (gave_up p) h = (λ q c. cc, λ o. absurd o)
  Step-IsTracked before (accepted p q) h = (λ r c. h.0 p q, λ o. h.0 p q)
  Step-IsTracked before (greeted p) h =
      let a = h.1 (subst IsOnline (sym p) tt) in (λ r c. a, λ o. a)
  Step-IsTracked before (subscribed p) h =
      let a = h.1 (subst IsOnline (sym p) tt) in (λ r c. a, λ o. a)
  Step-IsTracked before (peeked ch p) h =
      let a = h.1 (subst IsOnline (sym p) tt) in (λ r c. a, λ o. a)
  Step-IsTracked before (sent ch bytes p) h =
      let a = h.1 (subst IsOnline (sym p) tt) in (λ r c. a, λ o. a)
  Step-IsTracked before (acked ch p) h =
      let a = h.1 (subst IsOnline (sym p) tt) in (λ r c. a, λ o. a)
  Step-IsTracked before (served evt p) h =
      let a = h.1 (subst IsOnline (sym p) tt) in (λ r c. a, λ o. a)
  Step-IsTracked before (failed p) h = let a = h.1 (subst IsOnline (sym p) tt) in (λ r c. a, λ o. a)
  Step-IsTracked before (dropped p q) h =
      let a = h.1 (subst IsOnline (sym p) tt) in (λ r c. a, λ o. a)
  Step-IsTracked before (aborted p) h = (λ q c. cc, λ o. absurd o)

  pub Reach-IsTracked :
      (u : Uplink S M) (fota : F) (d : Device S M F Coord Float) (r : Reach env (start u fota) d)
      → IsTracked d (IsAcknowledged r)
  unfolding IsAcknowledged
  Reach-IsTracked u fota d here = (λ q c. cc, λ o. absurd o)
  Reach-IsTracked u fota d (next r st) =
      Step-IsTracked (IsAcknowledged r) st (Reach-IsTracked u fota _ r)
