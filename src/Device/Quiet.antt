-- ===== src/Device/Quiet.antt =====
-- The steps of the firmware that leave the telemetry ring empty and send no telemetry.
use telenode.Prelude.{
  ℕ, ◌≡◌, refl, subst, Bool, true, false, List, [], ◌∷◌, inl, inr, Bool-cases, ◌==◌, ==_iff,
}
use telenode.Prelude.Errno.{Result, ok, err, Done-cases, Result-cases, enoent, eio}
use telenode.Nvs.{NvsOps, NvsLaws}
use telenode.BufferFifo
use telenode.BufferFifo.{Channel, telemetry, events, Fifo, meta_of, max_record_len}
use telenode.DtcDecode.{Code}
use telenode.Mqtt.{WireLaws, Evt, at_least_once}
use telenode.Uplink.{Uplink, Topics, publish_raw}
use telenode.Uplink.Silent.{
  IsAllowed, IsSilent, publish_raw-IsSilent, publish_status-IsSilent, publish_event-IsSilent,
  pop_ack-IsSilent, Extends-IsSilent,
}
use telenode.Uplink.Extends.{client-Extends, handle_event-Extends}
use telenode.HarshDriving.{Event, no_event, acceleration, braking, cornering}
use telenode.Imu.{imu_round, publish_harsh}
use telenode.Sensors.Stream.{Streams, already_reported, report_dtc, report_dtcs}
use telenode.Ota.Finish.{FotaEvt, progress, finished, error, unhandled, fota_event}
use telenode.Device.Unsent.{IsUnsent-keeps}
use telenode.Device.{
  IsUnsent, Env, Device, after_channel, Phase, trying, acking, sending, uplink, client_event,
  begin_connect, peek_one, send_one, ack_one,
}

-- The thread of the uplink holds no telemetry record.
abbrev pub IsQuiet : Phase → Type 0
IsQuiet (acking telemetry) = ⊥
IsQuiet (sending telemetry bytes) = ⊥
IsQuiet _ = Unit

module _ {S : Type 0} (nvs : NvsOps S) where
  peek_empty :
      (s : Fifo S) (bytes : List ℕ)
      → (meta_of telemetry s).head ≡ (meta_of telemetry s).tail
      → BufferFifo.peek nvs telemetry s max_record_len ≡ ok bytes
      → ⊥
  unfolding BufferFifo.peek
  peek_empty s bytes h e =
      let k : ((meta_of telemetry s).head == (meta_of telemetry s).tail) ≡ true =
        (==_iff _ _).1 h in
      elim (Bool-cases s.mounted) [
        | inl on ↦
            let j : BufferFifo.peek nvs telemetry s max_record_len ≡ err enoent = rw (on, k) refl in
            cc
        | inr off ↦
            let j : BufferFifo.peek nvs telemetry s max_record_len ≡ err eio = rw off refl in cc
      ]

module _ {S M F Coord Float : Type 0} (env : Env S M F Coord Float) (laws : NvsLaws env.nvs)
    (wire : WireLaws env.mqtt env.conn) (topics : Topics) where
  -- The uplink of the device is silent, and so is its thread.
  pub record IsSilentDevice (d : Device S M F Coord Float) : Type 0 where
    pub silent : IsSilent laws wire topics (uplink d)
    pub quiet : IsQuiet d.phase

  pub report_dtc-IsSilent :
      (s : Streams S M) (code : Code)
      → IsSilent laws wire topics s.uplink
      → IsSilent laws wire topics (report_dtcs env.names env.nvs env.mqtt s (code ∷ [])).uplink
  unfolding report_dtcs report_dtc
  report_dtc-IsSilent s code h = elim (Bool-cases (already_reported s.reported code)) [
    | inl old ↦ rw old h
    | inr fresh ↦ rw fresh (publish_event-IsSilent laws wire topics s.uplink _ h)
  ]

  publish_harsh-IsSilent :
      (u : Uplink S M) (time : List ℕ) (x y : Float) (event : Event)
      → IsSilent laws wire topics u
      → IsSilent laws wire topics
          (publish_harsh env.floats env.f2 env.names env.nvs env.mqtt u time x y event)
  publish_harsh-IsSilent u time x y no_event h = h
  publish_harsh-IsSilent u time x y acceleration h = publish_event-IsSilent laws wire topics u _ h
  publish_harsh-IsSilent u time x y braking h = publish_event-IsSilent laws wire topics u _ h
  publish_harsh-IsSilent u time x y cornering h = publish_event-IsSilent laws wire topics u _ h

  pub imu_round-IsSilent :
      (u : Uplink S M) (time : List ℕ) (fetched : Result (Unit {0}))
      (accel : Result (Float × Float))
      → IsSilent laws wire topics u
      → IsSilent laws wire topics (
          imu_round env.floats env.f2 env.names env.nvs env.mqtt env.thresholds u time fetched
            accel)
  unfolding imu_round
  imu_round-IsSilent u time (err e) accel h = h
  imu_round-IsSilent u time (ok done) (err e) h = h
  imu_round-IsSilent u time (ok done) (ok xy) h = publish_harsh-IsSilent u time xy.0 xy.1 _ h

  pub unsent-IsSilent :
      (u u' : Uplink S M) (x : List ℕ)
      → IsUnsent env u x u'
      → IsSilent laws wire topics u
      → IsSilent laws wire topics u'
  unsent-IsSilent u u' x h s =
      IsUnsent-keeps env (IsSilent laws wire topics) u u' x h s
        (publish_raw-IsSilent laws wire topics u x s)

  pub fota_event-IsSilent :
      (u : Uplink S M) (evt : FotaEvt)
      → IsSilent laws wire topics u
      → IsSilent laws wire topics (fota_event env.mqtt u evt).0
  unfolding fota_event
  fota_event-IsSilent u (progress percent) h = h
  fota_event-IsSilent u finished h = publish_status-IsSilent laws wire topics u _ h
  fota_event-IsSilent u (error cause) h = h
  fota_event-IsSilent u unhandled h = h

  after_channel-IsQuiet : (ch : Channel) → IsQuiet (after_channel ch)
  after_channel-IsQuiet telemetry = tt
  after_channel-IsQuiet events = tt

  pub peek_one-IsSilent :
      (d : Device S M F Coord Float) (ch : Channel)
      → IsSilentDevice d
      → IsSilentDevice (peek_one env d ch)
  unfolding peek_one
  peek_one-IsSilent d telemetry h =
      elim (Result-cases (BufferFifo.peek env.nvs telemetry (uplink d).fifo max_record_len)) [
        | inr (e, x) ↦ rw (x, peek_one) (record { silent = h.silent; quiet = tt })
        | inl (bytes, x) ↦ absurd (peek_empty env.nvs (uplink d).fifo bytes h.silent.empty x)
      ]
  peek_one-IsSilent d events h =
      elim (Result-cases (BufferFifo.peek env.nvs events (uplink d).fifo max_record_len)) [
        | inr (e, x) ↦ rw (x, peek_one) (record { silent = h.silent; quiet = tt })
        | inl (bytes, x) ↦ rw (x, peek_one) (record { silent = h.silent; quiet = tt })
      ]

  pub send_one-IsSilent :
      (d : Device S M F Coord Float) (ch : Channel) (bytes : List ℕ)
      → d.phase ≡ sending ch bytes
      → IsSilentDevice d
      → IsSilentDevice (send_one env d ch bytes)
  unfolding send_one
  send_one-IsSilent d telemetry bytes p h = absurd (subst IsQuiet p h.quiet)
  send_one-IsSilent d events bytes p h =
      let topic = (uplink d).topics.events_topic in
      let k = publish_raw-IsSilent laws wire topics (uplink d) bytes h.silent in
      elim (Done-cases (publish_raw env.mqtt (uplink d) topic bytes at_least_once false).0) [
        | inl x ↦ rw (x, send_one) (record { silent = k; quiet = tt })
        | inr (e, x) ↦ rw (x, send_one) (record { silent = k; quiet = tt })
      ]

  pub ack_one-IsSilent :
      (d : Device S M F Coord Float) (ch : Channel)
      → d.phase ≡ acking ch
      → IsSilentDevice d
      → IsSilentDevice (ack_one env d ch)
  unfolding ack_one
  ack_one-IsSilent d telemetry p h = absurd (subst IsQuiet p h.quiet)
  ack_one-IsSilent d events p h = record {
    silent = pop_ack-IsSilent laws wire topics (uplink d) h.silent;
    quiet = tt;
  }

  pub begin_connect-IsSilent :
      (d : Device S M F Coord Float)
      → IsSilentDevice d
      → d.phase ≡ trying
      → IsSilentDevice (begin_connect env d)
  unfolding begin_connect
  begin_connect-IsSilent d h p =
      let u = record (uplink d) {
        client = (env.conn.connect (uplink d).client).1;
        connack_ok = false;
      } in
      let k : IsSilent laws wire topics u = record {
        same_topics = h.silent.same_topics;
        empty = h.silent.empty;
        allowed = rw (wire.connect_sent (uplink d).client) h.silent.allowed;
      } in
      elim (Done-cases (env.conn.connect (uplink d).client).0) [
        | inl x ↦ rw (x, begin_connect) (record { silent = k; quiet = tt })
        | inr (e, x) ↦ rw (x, begin_connect) (record { silent = k; quiet = tt })
      ]

  pub with_connected-IsSilent :
      (u : Uplink S M) (b : Bool)
      → IsSilent laws wire topics u
      → IsSilent laws wire topics (record u { connected = b })
  with_connected-IsSilent u b h = record {
    same_topics = h.same_topics;
    empty = h.empty;
    allowed = h.allowed;
  }

  pub abort-IsSilent :
      (d : Device S M F Coord Float)
      → IsSilentDevice d
      → IsSilent laws wire topics (record (uplink d) { client = env.conn.abort (uplink d).client })
  abort-IsSilent d h =
      Extends-IsSilent laws wire topics (uplink d) _
        (client-Extends env.nvs wire (IsAllowed topics) (uplink d) _
          (wire.abort_sent (uplink d).client))
        h.silent

  pub client_event-IsSilent :
      (d : Device S M F Coord Float) (evt : Evt)
      → IsSilentDevice d
      → IsSilentDevice (client_event env d evt)
  unfolding client_event
  client_event-IsSilent d evt h = record {
    silent =
        Extends-IsSilent laws wire topics (uplink d) _
          (handle_event-Extends env.nvs wire (IsAllowed topics) (uplink d) env.handler_set evt)
          h.silent;
    quiet = h.quiet;
  }
