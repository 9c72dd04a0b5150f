-- ===== src/Device/Delivered.antt =====
-- Each step of the firmware keeps the events that src/uplink_mqtt.c has answered 0 for.
use telenode.Prelude.{
  ℕ, ◌+◌, ◌^◌, ◌<◌, ◌≡◌, refl, sym, subst, ◌∙◌, false, List, [], ◌∷◌, ◌++◌, append-nil, Bool-cases,
  inl, inr,
}
use telenode.Prelude.Errno.{Result, ok, err, Done-cases, Result-cases}
use telenode.Nvs.{NvsLaws}
use telenode.BufferFifo
use telenode.BufferFifo.{Channel, telemetry, events, meta_of, max_record_len}
use telenode.BufferFifo.Queue.{Item, Queue}
use telenode.DtcDecode.{Code}
use telenode.Mqtt.{WireLaws, PublishParam, at_least_once, at_most_once}
use telenode.Uplink.{Uplink, publish_raw}
use telenode.Uplink.Extends.{
  AnyMessage, Extends, Extends-refl, publish_raw-Extends, publish_status-Extends,
}
use telenode.HarshDriving.{Event, no_event, acceleration, braking, cornering}
use telenode.Imu.{imu_round, publish_harsh}
use telenode.Ota.Finish.{FotaEvt, progress, finished, error, unhandled, fota_event}
use telenode.Sensors.Stream.{Streams, already_reported, report_dtc, report_dtcs}
use telenode.Device.History.{answered_harsh, answered_sample, answered_dtc}
use telenode.Device.Replayed.{peeked-Keeps, sent-Keeps, acked-Keeps, acked_telemetry-Keeps}
use telenode.Device.Kept.{IsPlaced, Keeps, Extends-Keeps, phase-Keeps, publish_event-Keeps}
use telenode.Device.Unsent.{IsUnsent-keeps}
use telenode.Device.{
  IsUnsent, Env, Device, Phase, trying, awaiting, serving, peeking, acking, sending, uplink,
  begin_connect, peek_one, send_one, ack_one,
}

module _ {S M F Coord Float : Type 0} (env : Env S M F Coord Float) (laws : NvsLaws env.nvs)
    (wire : WireLaws env.mqtt env.conn) where
  abbrev pub KeepsAt : Uplink S M → List Item → Phase → Uplink S M → Type 0
  KeepsAt first = Keeps laws wire first.topics

  module _ (first : Uplink S M) (h : List Item) where
    harsh-Keeps :
        (p : Phase) (u : Uplink S M) (time : List ℕ) (x y : Float) (event : Event)
        → KeepsAt first h p u
        → (meta_of events u.fifo).head + 1 < 2 ^ 32
        → KeepsAt first
            (answered_harsh env u time x y event ++ h)
            p
            (publish_harsh env.floats env.f2 env.names env.nvs env.mqtt u time x y event)
    harsh-Keeps p u time x y no_event k low = k
    harsh-Keeps p u time x y acceleration k low =
        publish_event-Keeps laws wire first.topics h p u _ k low
    harsh-Keeps p u time x y braking k low =
        publish_event-Keeps laws wire first.topics h p u _ k low
    harsh-Keeps p u time x y cornering k low =
        publish_event-Keeps laws wire first.topics h p u _ k low

    pub sample-Keeps :
        (p : Phase) (u : Uplink S M) (time : List ℕ) (fetched : Result (Unit {0}))
        (accel : Result (Float × Float))
        → KeepsAt first h p u
        → (meta_of events u.fifo).head + 1 < 2 ^ 32
        → KeepsAt first (answered_sample env u time fetched accel ++ h) p (
            imu_round env.floats env.f2 env.names env.nvs env.mqtt env.thresholds u time fetched
              accel)
    unfolding imu_round
    sample-Keeps p u time (err e) accel k low = k
    sample-Keeps p u time (ok done) (err e) k low = k
    sample-Keeps p u time (ok done) (ok xy) k low = harsh-Keeps p u time xy.0 xy.1 _ k low

    pub dtc-Keeps :
        (p : Phase) (s : Streams S M) (code : Code)
        → KeepsAt first h p s.uplink
        → (meta_of events s.uplink.fifo).head + 1 < 2 ^ 32
        → KeepsAt first
            (answered_dtc env s code ++ h)
            p
            (report_dtcs env.names env.nvs env.mqtt s (code ∷ [])).uplink
    unfolding report_dtcs report_dtc
    dtc-Keeps p s code k low = elim (Bool-cases (already_reported s.reported code)) [
      | inl old ↦ rw old k
      | inr fresh ↦ rw fresh (publish_event-Keeps laws wire first.topics h p s.uplink _ k low)
    ]

    pub unsent-Keeps :
        (p : Phase) (u u' : Uplink S M) (x : List ℕ)
        → IsUnsent env u x u'
        → KeepsAt first h p u
        → KeepsAt first h p u'
    unsent-Keeps p u u' x unsent k = IsUnsent-keeps env (KeepsAt first h p) u u' x unsent k (
        Extends-Keeps laws wire first.topics h p u _ k (
          publish_raw-Extends env.nvs wire AnyMessage u u.topics.events_topic x at_least_once false
            tt))

    pub fota-Keeps :
        (p : Phase) (u : Uplink S M) (evt : FotaEvt)
        → KeepsAt first h p u
        → KeepsAt first h p (fota_event env.mqtt u evt).0
    unfolding fota_event
    fota-Keeps p u (progress percent) k = k
    fota-Keeps p u finished k =
        Extends-Keeps laws wire first.topics h p u _ k
          (publish_status-Extends env.nvs wire AnyMessage u _ (λ p e. tt))
    fota-Keeps p u (error cause) k = k
    fota-Keeps p u unhandled k = k

    -- A call that only adds to what was handed over, and then another place of the thread
    pub moved-Keeps :
        (p p' : Phase) (u u' : Uplink S M)
        → ((q : Queue) (sent : List PublishParam) → IsPlaced laws wire first.topics p' q sent)
        → Extends env.nvs wire AnyMessage u u'
        → KeepsAt first h p u
        → KeepsAt first h p' u'
    moved-Keeps p p' u u' free e k =
        phase-Keeps laws wire first.topics h p p' u' free
          (Extends-Keeps laws wire first.topics h p u u' k e)

    pub begin_connect-Keeps :
        (d : Device S M F Coord Float)
        → KeepsAt first h d.phase (uplink d)
        → let d' = begin_connect env d in KeepsAt first h d'.phase (uplink d')
    unfolding begin_connect
    begin_connect-Keeps d k =
        let u' : Uplink S M = record (uplink d) {
          client = (env.conn.connect (uplink d).client).1;
          connack_ok = false;
        } in
        let e : Extends env.nvs wire AnyMessage (uplink d) u' = record {
          fifo = refl;
          topics = refl;
          more = [];
          all = tt;
          sent = wire.connect_sent (uplink d).client ∙ sym (append-nil _);
        } in
        elim (Done-cases (env.conn.connect (uplink d).client).0) [
          | inl x ↦
              rw (x, begin_connect) (moved-Keeps d.phase awaiting (uplink d) u' (λ q s. tt) e k)
          | inr (x', x) ↦
              rw (x, begin_connect) (moved-Keeps d.phase trying (uplink d) u' (λ q s. tt) e k)
        ]

    pub peek_one-Keeps :
        (d : Device S M F Coord Float) (ch : Channel)
        → d.phase ≡ peeking ch
        → KeepsAt first h d.phase (uplink d)
        → let d' = peek_one env d ch in KeepsAt first h d'.phase (uplink d')
    unfolding peek_one
    peek_one-Keeps d telemetry p k =
        elim (Result-cases (BufferFifo.peek env.nvs telemetry (uplink d).fifo max_record_len)) [
          | inl (bytes, x) ↦
              rw (x, peek_one)
                (moved-Keeps d.phase (sending telemetry bytes) (uplink d) (uplink d) (λ q s. tt)
                  (Extends-refl env.nvs wire AnyMessage (uplink d)) k)
          | inr (e, x) ↦
              rw (x, peek_one)
                (moved-Keeps d.phase serving (uplink d) (uplink d) (λ q s. tt)
                  (Extends-refl env.nvs wire AnyMessage (uplink d)) k)
        ]
    peek_one-Keeps d events p k =
        elim (Result-cases (BufferFifo.peek env.nvs events (uplink d).fifo max_record_len)) [
          | inl (bytes, x) ↦
              rw (x, peek_one)
                (peeked-Keeps laws wire first.topics h (uplink d) bytes x
                  (subst (λ z. KeepsAt first h z (uplink d)) p k))
          | inr (e, x) ↦
              rw (x, peek_one)
                (moved-Keeps d.phase (peeking telemetry) (uplink d) (uplink d) (λ q s. tt)
                  (Extends-refl env.nvs wire AnyMessage (uplink d)) k)
        ]

    pub send_one-Keeps :
        (d : Device S M F Coord Float) (ch : Channel) (bytes : List ℕ)
        → d.phase ≡ sending ch bytes
        → KeepsAt first h d.phase (uplink d)
        → let d' = send_one env d ch bytes in KeepsAt first h d'.phase (uplink d')
    unfolding send_one
    send_one-Keeps d telemetry bytes p k =
        let topic = (uplink d).topics.telemetry_topic in
        let e =
          publish_raw-Extends env.nvs wire AnyMessage (uplink d) topic bytes at_most_once false
            tt in
        elim (Done-cases (publish_raw env.mqtt (uplink d) topic bytes at_most_once false).0) [
          | inl x ↦
              rw (x, send_one) (moved-Keeps d.phase (acking telemetry) (uplink d) _ (λ q s. tt) e k)
          | inr (x', x) ↦
              rw (x, send_one) (moved-Keeps d.phase serving (uplink d) _ (λ q s. tt) e k)
        ]
    send_one-Keeps d events bytes p k =
        let topic = (uplink d).topics.events_topic in
        let e =
          publish_raw-Extends env.nvs wire AnyMessage (uplink d) topic bytes at_least_once false
            tt in
        elim (Done-cases (publish_raw env.mqtt (uplink d) topic bytes at_least_once false).0) [
          | inl x ↦
              rw (x, send_one)
                (sent-Keeps laws wire first.topics h (uplink d) bytes x
                  (subst (λ z. KeepsAt first h z (uplink d)) p k))
          | inr (x', x) ↦
              rw (x, send_one)
                (moved-Keeps d.phase (peeking telemetry) (uplink d) _ (λ q s. tt) e k)
        ]

    pub ack_one-Keeps :
        (d : Device S M F Coord Float) (ch : Channel)
        → d.phase ≡ acking ch
        → KeepsAt first h d.phase (uplink d)
        → let d' = ack_one env d ch in KeepsAt first h d'.phase (uplink d')
    unfolding ack_one
    ack_one-Keeps d telemetry p k =
        acked_telemetry-Keeps laws wire first.topics h (uplink d)
          (subst (λ z. KeepsAt first h z (uplink d)) p k)
    ack_one-Keeps d events p k =
        acked-Keeps laws wire first.topics h (uplink d)
          (subst (λ z. KeepsAt first h z (uplink d)) p k)
