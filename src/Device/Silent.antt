-- ===== src/Device/Silent.antt =====
-- The telemetry of the whole firmware: none leaves the device, and none is buffered.
use telenode.Prelude.{ℕ, ◌≡◌, ◌≢◌, refl, sym, subst, ◌∙◌, true, false, List, [], ◌∷◌, All, inl, inr}
use telenode.Nvs.{NvsLaws}
use telenode.BufferFifo.{telemetry, meta_of}
use telenode.Mqtt.{WireLaws, PublishParam}
use telenode.Uplink.{Uplink, Topics}
use telenode.Uplink.Silent.{
  buffer-IsSilent, IsAllowed, IsSilent, publish_status-IsSilent, Extends-IsSilent,
}
use telenode.Uplink.Extends.{subscribe_ota_topic-Extends}
use telenode.Uplink.Address.{IsAddressed}
use telenode.Uplink.Thread.{online_payload}
use telenode.Sensors.Stream.Length.{stream_readings-uplink}
use telenode.Device.{
  sample_push, dtc_push, Env, Device, byte, rmc_frame, polled, sampled, sample_unsent,
  sample_pushed, dtc_unsent, dtc_pushed, sample_push, dtc_push, streamed, scanned, reported,
  downloaded, network_up, setup_failed, connecting, awaited, gave_up, accepted, greeted, subscribed,
  peeked, sent, acked, served, failed, dropped, aborted, here, next, uplink, uart_byte, rmc_round,
  stream_one, report_one, harsh_round, Step, Reach, start,
}
use telenode.Device.Quiet.{
  unsent-IsSilent, IsSilentDevice, report_dtc-IsSilent, imu_round-IsSilent, fota_event-IsSilent,
  peek_one-IsSilent, send_one-IsSilent, ack_one-IsSilent, begin_connect-IsSilent,
  with_connected-IsSilent, abort-IsSilent, client_event-IsSilent,
}

module _ {S M F Coord Float : Type 0} (env : Env S M F Coord Float) (laws : NvsLaws env.nvs)
    (wire : WireLaws env.mqtt env.conn) (topics : Topics) where
  pub Step-IsSilent :
      {d e : Device S M F Coord Float}
      → Step env d e
      → IsSilentDevice env laws wire topics d
      → IsSilentDevice env laws wire topics e
  unfolding uart_byte rmc_round stream_one report_one harsh_round sample_push dtc_push
  Step-IsSilent (byte now c) h = record { silent = h.silent; quiet = h.quiet }
  Step-IsSilent rmc_frame h = record { silent = h.silent; quiet = h.quiet }
  Step-IsSilent (polled round) h = record { silent = h.silent; quiet = h.quiet }
  Step-IsSilent {d} (sampled idle fetched accel) h = record {
    silent =
        imu_round-IsSilent env laws wire topics (uplink d) d.streams.last_known_utc_time fetched
          accel h.silent;
    quiet = h.quiet;
  }
  Step-IsSilent {d} (streamed idle c rest q) h = record {
    silent =
        rw (stream_readings-uplink env.formats env.names env.nvs env.mqtt (c ∷ []) d.streams)
          h.silent;
    quiet = h.quiet;
  }
  Step-IsSilent (scanned idle q) h = record { silent = h.silent; quiet = h.quiet }
  Step-IsSilent {d} (reported idle code rest q) h = record {
    silent = report_dtc-IsSilent env laws wire topics d.streams code h.silent;
    quiet = h.quiet;
  }
  Step-IsSilent {d} (sample_unsent x y event u idle same harsh unsent) h = record {
    silent = unsent-IsSilent env laws wire topics (uplink d) u _ unsent h.silent;
    quiet = h.quiet;
  }
  Step-IsSilent {d} (sample_pushed x e) h = record {
    silent = buffer-IsSilent laws wire topics (uplink d) x h.silent;
    quiet = h.quiet;
  }
  Step-IsSilent {d} (dtc_unsent code rest u idle q fresh unsent) h = record {
    silent = unsent-IsSilent env laws wire topics (uplink d) u _ unsent h.silent;
    quiet = h.quiet;
  }
  Step-IsSilent {d} (dtc_pushed code rest x q e) h = record {
    silent = buffer-IsSilent laws wire topics (uplink d) x h.silent;
    quiet = h.quiet;
  }
  Step-IsSilent {d} (downloaded evt) h = record {
    silent = fota_event-IsSilent env laws wire topics (uplink d) evt h.silent;
    quiet = h.quiet;
  }
  Step-IsSilent (network_up p) h = record { silent = h.silent; quiet = tt }
  Step-IsSilent (setup_failed p) h = record { silent = h.silent; quiet = h.quiet }
  Step-IsSilent {d} (connecting p) h = begin_connect-IsSilent env laws wire topics d h p
  Step-IsSilent {d} (awaited evt p) h = client_event-IsSilent env laws wire topics d evt h
  Step-IsSilent {d} (gave_up p) h = record {
    silent = abort-IsSilent env laws wire topics d h;
    quiet = tt;
  }
  Step-IsSilent {d} (accepted p q) h = record {
    silent = with_connected-IsSilent env laws wire topics (uplink d) true h.silent;
    quiet = tt;
  }
  Step-IsSilent {d} (greeted p) h = record {
    silent = publish_status-IsSilent laws wire topics (uplink d) online_payload h.silent;
    quiet = tt;
  }
  Step-IsSilent {d} (subscribed p) h = record {
    silent =
        Extends-IsSilent laws wire topics (uplink d) _
          (subscribe_ota_topic-Extends env.nvs wire (IsAllowed topics) (uplink d)) h.silent;
    quiet = tt;
  }
  Step-IsSilent {d} (peeked ch p) h = peek_one-IsSilent env laws wire topics d ch h
  Step-IsSilent {d} (sent ch bytes p) h = send_one-IsSilent env laws wire topics d ch bytes p h
  Step-IsSilent {d} (acked ch p) h = ack_one-IsSilent env laws wire topics d ch p h
  Step-IsSilent {d} (served evt p) h = client_event-IsSilent env laws wire topics d evt h
  Step-IsSilent {d} (failed p) h = record {
    silent = with_connected-IsSilent env laws wire topics (uplink d) false h.silent;
    quiet = tt;
  }
  Step-IsSilent (dropped p q) h = record { silent = h.silent; quiet = tt }
  Step-IsSilent {d} (aborted p) h = record {
    silent = abort-IsSilent env laws wire topics d h;
    quiet = tt;
  }

  Reach-IsSilent :
      {d e : Device S M F Coord Float}
      → IsSilentDevice env laws wire topics d
      → Reach env d e
      → IsSilentDevice env laws wire topics e
  Reach-IsSilent h here = h
  Reach-IsSilent h (next r st) = Step-IsSilent st (Reach-IsSilent h r)

  IsAllowed-apart :
      (id : List ℕ) (p : PublishParam)
      → IsAddressed id topics
      → IsAllowed topics p
      → p.topic ≢ topics.telemetry_topic
  IsAllowed-apart id p a (inl e) same = a.telemetry_events (sym same ∙ e)
  IsAllowed-apart id p a (inr e) same = a.telemetry_status (sym same ∙ e)

  All-apart :
      (id : List ℕ) (ps : List PublishParam)
      → IsAddressed id topics
      → All (IsAllowed topics) ps
      → All (λ p. p.topic ≢ topics.telemetry_topic) ps
  All-apart id [] a h = tt
  All-apart id (p ∷ ps) a h = (IsAllowed-apart id p a h.0, All-apart id ps a h.1)

module _ {S M F Coord Float : Type 0} (env : Env S M F Coord Float) (laws : NvsLaws env.nvs)
    (wire : WireLaws env.mqtt env.conn) where
  -- The firmware sends no telemetry. It starts with topics that `build_topics` made, an empty telemetry ring, and
  -- a client that has handed over nothing: then, whatever its threads, the receiver, the vehicle, flash and
  -- the network do, and in any order, the telemetry ring stays empty, and no message that the client has
  -- handed over to the broker is on the telemetry topic.
  pub telemetry_silent :
      (id : List ℕ) (u : Uplink S M) (fota : F) (d : Device S M F Coord Float)
      → IsAddressed id u.topics
      → (meta_of telemetry u.fifo).head ≡ (meta_of telemetry u.fifo).tail
      → wire.base.sent u.client ≡ []
      → Reach env (start u fota) d
      → let topic = u.topics.telemetry_topic in
        ((meta_of telemetry (uplink d).fifo).head ≡ (meta_of telemetry (uplink d).fifo).tail)
        × All (λ p. p.topic ≢ topic) (wire.base.sent (uplink d).client)
  telemetry_silent id u fota d a empty unsent r =
      let first : IsSilent laws wire u.topics u = record {
        same_topics = refl;
        empty = empty;
        allowed = subst (All (IsAllowed u.topics)) (sym unsent) tt;
      } in
      let k = Reach-IsSilent env laws wire u.topics (record { silent = first; quiet = tt }) r in
      (k.silent.empty, All-apart env laws wire u.topics id _ a k.silent.allowed)
