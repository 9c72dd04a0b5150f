-- ===== src/Device/AtLeastOnce.antt =====
-- The events of the whole firmware: one for which src/uplink_mqtt.c has answered 0 is not lost, in any
-- interleaving of the threads with the replay.
use telenode.Prelude.{
  ◌+◌, ◌^◌, ◌<◌, ◌≡◌, refl, sym, Bool, true, false, List, [], ◌∷◌, ◌++◌, All, Any, All-map,
  append-nil, inl, inr,
}
use telenode.Nvs.{NvsLaws}
use telenode.BufferFifo.{events, meta_of}
use telenode.BufferFifo.Queue.{Item, Queue}
use telenode.BufferFifo.View.{Represents}
use telenode.Mqtt.{WireLaws, Evt}
use telenode.Uplink.{Uplink}
use telenode.Uplink.Thread.{online_payload}
use telenode.Uplink.Extends.{
  AnyMessage, Extends, Extends-refl, client-Extends, publish_status-Extends,
  subscribe_ota_topic-Extends, handle_event-Extends,
}
use telenode.Sensors.Stream.Length.{stream_readings-uplink}
use telenode.Device.History.{answered_by, history, IsLow}
use telenode.Device.Delivered.{
  unsent-Keeps, KeepsAt, sample-Keeps, dtc-Keeps, fota-Keeps, moved-Keeps, begin_connect-Keeps,
  peek_one-Keeps, send_one-Keeps, ack_one-Keeps,
}
use telenode.Device.Kept.{buffer-Keeps, IsSafe, Extends-Keeps}
use telenode.Device.{
  sample_unsent, sample_pushed, dtc_unsent, dtc_pushed, sample_push, dtc_push, Env, Device, trying,
  greeting, subscribing, aborting, peeking, uplink, uart_byte, rmc_round, stream_one, report_one,
  harsh_round, client_event, Step, byte, rmc_frame, polled, sampled, streamed, scanned, reported,
  downloaded, network_up, setup_failed, connecting, awaited, gave_up, accepted, greeted, subscribed,
  peeked, sent, acked, served, failed, dropped, aborted, Reach, here, next, start,
}

module _ {S M F Coord Float : Type 0} (env : Env S M F Coord Float) (laws : NvsLaws env.nvs)
    (wire : WireLaws env.mqtt env.conn) where
  flag-Extends :
      (u : Uplink S M) (b : Bool) → Extends env.nvs wire AnyMessage u (record u { connected = b })
  flag-Extends u b = record {
    fifo = refl;
    topics = refl;
    more = [];
    all = tt;
    sent = sym (append-nil _);
  }

  abort-Extends :
      (u : Uplink S M)
      → Extends env.nvs wire AnyMessage u (record u { client = env.conn.abort u.client })
  abort-Extends u = client-Extends env.nvs wire AnyMessage u _ (wire.abort_sent u.client)

  client_event-Keeps :
      (first : Uplink S M) (h : List Item) (d : Device S M F Coord Float) (evt : Evt)
      → KeepsAt env laws wire first h d.phase (uplink d)
      → let e = client_event env d evt in KeepsAt env laws wire first h e.phase (uplink e)
  unfolding client_event
  client_event-Keeps first h d evt k =
      Extends-Keeps laws wire first.topics h d.phase (uplink d) _ k
        (handle_event-Extends env.nvs wire AnyMessage (uplink d) env.handler_set evt)

  Step-Keeps :
      (first : Uplink S M) (h : List Item) {d e : Device S M F Coord Float} (st : Step env d e)
      → KeepsAt env laws wire first h d.phase (uplink d)
      → (meta_of events (uplink d).fifo).head + 1 < 2 ^ 32
      → KeepsAt env laws wire first (answered_by env st ++ h) e.phase (uplink e)
  unfolding uart_byte rmc_round stream_one report_one harsh_round sample_push dtc_push
  Step-Keeps first h (byte now c) k low = k
  Step-Keeps first h rmc_frame k low = k
  Step-Keeps first h (polled round) k low = k
  Step-Keeps first h {d} (sampled idle fetched accel) k low =
      sample-Keeps env laws wire first h d.phase (uplink d) d.streams.last_known_utc_time fetched
        accel k low
  Step-Keeps first h {d} (streamed idle c rest q) k low =
      rw (stream_readings-uplink env.formats env.names env.nvs env.mqtt (c ∷ []) d.streams) k
  Step-Keeps first h (scanned idle q) k low = k
  Step-Keeps first h {d} (reported idle code rest q) k low =
      dtc-Keeps env laws wire first h d.phase d.streams code k low
  Step-Keeps first h {d} (sample_unsent x y event u idle same harsh unsent) k low =
      unsent-Keeps env laws wire first h d.phase (uplink d) u _ unsent k
  Step-Keeps first h {d} (sample_pushed x e) k low =
      buffer-Keeps laws wire first.topics h d.phase (uplink d) x k low
  Step-Keeps first h {d} (dtc_unsent code rest u idle q fresh unsent) k low =
      unsent-Keeps env laws wire first h d.phase (uplink d) u _ unsent k
  Step-Keeps first h {d} (dtc_pushed code rest x q e) k low =
      buffer-Keeps laws wire first.topics h d.phase (uplink d) x k low
  Step-Keeps first h {d} (downloaded evt) k low =
      fota-Keeps env laws wire first h d.phase (uplink d) evt k
  Step-Keeps first h {d} (network_up p) k low =
      moved-Keeps env laws wire first h d.phase trying (uplink d) (uplink d) (λ q s. tt)
        (Extends-refl env.nvs wire AnyMessage (uplink d)) k
  Step-Keeps first h (setup_failed p) k low = k
  Step-Keeps first h {d} (connecting p) k low = begin_connect-Keeps env laws wire first h d k
  Step-Keeps first h {d} (awaited evt p) k low = client_event-Keeps first h d evt k
  Step-Keeps first h {d} (gave_up p) k low =
      moved-Keeps env laws wire first h d.phase trying (uplink d) _ (λ q s. tt)
        (abort-Extends (uplink d)) k
  Step-Keeps first h {d} (accepted p q) k low =
      moved-Keeps env laws wire first h d.phase greeting (uplink d) _ (λ q s. tt)
        (flag-Extends (uplink d) true) k
  Step-Keeps first h {d} (greeted p) k low =
      moved-Keeps env laws wire first h d.phase subscribing (uplink d) _ (λ q s. tt)
        (publish_status-Extends env.nvs wire AnyMessage (uplink d) online_payload (λ p e. tt)) k
  Step-Keeps first h {d} (subscribed p) k low =
      moved-Keeps env laws wire first h d.phase (peeking events) (uplink d) _ (λ q s. tt)
        (subscribe_ota_topic-Extends env.nvs wire AnyMessage (uplink d)) k
  Step-Keeps first h {d} (peeked ch p) k low = peek_one-Keeps env laws wire first h d ch p k
  Step-Keeps first h {d} (sent ch bytes p) k low =
      send_one-Keeps env laws wire first h d ch bytes p k
  Step-Keeps first h {d} (acked ch p) k low = ack_one-Keeps env laws wire first h d ch p k
  Step-Keeps first h {d} (served evt p) k low = client_event-Keeps first h d evt k
  Step-Keeps first h {d} (failed p) k low =
      moved-Keeps env laws wire first h d.phase aborting (uplink d) _ (λ q s. tt)
        (flag-Extends (uplink d) false) k
  Step-Keeps first h {d} (dropped p q) k low =
      moved-Keeps env laws wire first h d.phase aborting (uplink d) (uplink d) (λ q s. tt)
        (Extends-refl env.nvs wire AnyMessage (uplink d)) k
  Step-Keeps first h {d} (aborted p) k low =
      moved-Keeps env laws wire first h d.phase trying (uplink d) _ (λ q s. tt)
        (abort-Extends (uplink d)) k

  self : (q : Queue) → All (λ x. Any (λ y. x ≡ y) q) q
  self [] = tt
  self (x ∷ q) = (inl refl, All-map _ _ q (λ y h. inr h) (self q))

  run-Keeps :
      (u : Uplink S M) (fota : F) (q : Queue) {d : Device S M F Coord Float}
      → Represents laws events u.fifo q
      → (r : Reach env (start u fota) d) → IsLow env r
      → KeepsAt env laws wire u (history env q r) d.phase (uplink d)
  run-Keeps u fota q rep here low = record {
    queue = q;
    represents = rep;
    same_topics = refl;
    safe = All-map _ _ q (λ x h. inr h) (self q);
    placed = tt;
  }
  run-Keeps u fota q rep (next r st) low =
      Step-Keeps u (history env q r) st (run-Keeps u fota q rep r low.0) low.1

  -- No event is lost while the firmware runs. It starts with the events ring holding a queue, over an NVS and
  -- a client that may fail at any call. Then, in any interleaving of its threads, and while the head
  -- cursor of the ring is not about to wrap, the ring holds a queue such that each event that was in the
  -- ring at the start, or for which `uplink_mqtt_publish_event` has answered 0 since, has been handed over
  -- to the broker on the topic of the events or is in that queue.
  pub events_kept :
      (u : Uplink S M) (fota : F) (first : Queue) {d : Device S M F Coord Float}
      → Represents laws events u.fifo first
      → (r : Reach env (start u fota) d) → IsLow env r
      → (q : Queue) × Represents laws events (uplink d).fifo q
        × All (IsSafe laws wire u.topics (wire.base.sent (uplink d).client) q) (history env first r)
  events_kept u fota first rep r low =
      let k = run-Keeps u fota first rep r low in (k.queue, k.represents, k.safe)
