-- ===== src/Device/Updates.antt =====
-- The firmware downloads of a whole run, by src/ota_update.c.
use telenode.Prelude.{ℕ, ◌≡◌, refl, sym, subst, Bool, true, false, List, inl, inr}
use telenode.Mqtt.{Evt}
use telenode.Ota.{OtaOps, OtaConfig, Download}
use telenode.Ota.Accept.{IsAccepted}
use telenode.Ota.Delivery.{ota_event_safe}
use telenode.BufferFifo
use telenode.BufferFifo.{Channel, max_record_len}
use telenode.Prelude.Errno.{Done-cases, Result-cases}
use telenode.Uplink.{Uplink, publish_raw}
use telenode.Device.{
  sample_push, dtc_push, Env, Device, channel_topic, channel_qos, uplink, uart_byte, rmc_round,
  stream_one, report_one, harsh_round, client_event, begin_connect, peek_one, send_one, ack_one,
  Step, byte, rmc_frame, polled, sampled, sample_unsent, sample_pushed, dtc_unsent, dtc_pushed,
  streamed, scanned, reported, downloaded, network_up, setup_failed, connecting, awaited, gave_up,
  accepted, greeted, subscribed, peeked, sent, acked, served, failed, dropped, aborted, Reach, here,
  next, start,
}

-- A state of the FOTA library that downloads lead to from `f`: each was asked for by a message that
-- `on_ota_message` accepts for it, while the handler was set.
pub data DownloadedFrom {F : Type 0} (ops : OtaOps F) (config : OtaConfig) (handler_set : Bool)
    (f : F) : F → Type 0 where
  untouched : DownloadedFrom ops config handler_set f f
  one_more :
      {g : F} (payload : List ℕ) (download : Download)
      → DownloadedFrom ops config handler_set f g
      → handler_set ≡ true
      → IsAccepted ops config payload download
      → DownloadedFrom ops config handler_set f (ops.download_start g download).1

module _ {S M F Coord Float : Type 0} (env : Env S M F Coord Float) where
  client_event-downloads :
      (f : F) (d : Device S M F Coord Float) (evt : Evt)
      → DownloadedFrom env.ota env.ota_config env.handler_set f d.fota
      → DownloadedFrom env.ota env.ota_config env.handler_set f (client_event env d evt).fota
  unfolding client_event
  client_event-downloads f d evt h =
      elim (ota_event_safe env.mqtt env.ota env.ota_config env.handler_set (uplink d) d.fota evt) [
        | inl quiet ↦ subst (DownloadedFrom env.ota env.ota_config env.handler_set f) (sym quiet) h
        | inr s ↦
            subst (DownloadedFrom env.ota env.ota_config env.handler_set f) (sym s.started)
              (one_more s.payload s.download h s.set s.accepted)
      ]

  begin_connect-fota : (d : Device S M F Coord Float) → (begin_connect env d).fota ≡ d.fota
  unfolding begin_connect
  begin_connect-fota d = elim (Done-cases (env.conn.connect (uplink d).client).0) [
    | inl x ↦ rw (x, begin_connect) refl
    | inr (e, x) ↦ rw (x, begin_connect) refl
  ]

  peek_one-fota : (d : Device S M F Coord Float) (ch : Channel) → (peek_one env d ch).fota ≡ d.fota
  unfolding peek_one
  peek_one-fota d ch =
      elim (Result-cases (BufferFifo.peek env.nvs ch (uplink d).fifo max_record_len)) [
        | inl (bytes, x) ↦ rw (x, peek_one) refl
        | inr (e, x) ↦ rw (x, peek_one) refl
      ]

  send_one-fota :
      (d : Device S M F Coord Float) (ch : Channel) (bytes : List ℕ)
      → (send_one env d ch bytes).fota ≡ d.fota
  unfolding send_one
  send_one-fota d ch bytes =
      let topic = channel_topic ch (uplink d).topics in
      elim (Done-cases (publish_raw env.mqtt (uplink d) topic bytes (channel_qos ch) false).0) [
        | inl x ↦ rw (x, send_one) refl
        | inr (e, x) ↦ rw (x, send_one) refl
      ]

  Step-downloads :
      {d e : Device S M F Coord Float} (f : F)
      → Step env d e
      → DownloadedFrom env.ota env.ota_config env.handler_set f d.fota
      → DownloadedFrom env.ota env.ota_config env.handler_set f e.fota
  unfolding uart_byte rmc_round stream_one report_one harsh_round ack_one sample_push dtc_push
  Step-downloads {d} f (awaited evt p) h = client_event-downloads f d evt h
  Step-downloads {d} f (served evt p) h = client_event-downloads f d evt h
  Step-downloads {d} f (connecting p) h = rw (begin_connect-fota d) h
  Step-downloads {d} f (peeked ch p) h = rw (peek_one-fota d ch) h
  Step-downloads {d} f (sent ch bytes p) h = rw (send_one-fota d ch bytes) h
  Step-downloads f (byte now c) h = h
  Step-downloads f rmc_frame h = h
  Step-downloads f (polled round) h = h
  Step-downloads f (sampled idle fetched accel) h = h
  Step-downloads f (streamed idle c rest q) h = h
  Step-downloads f (scanned idle q) h = h
  Step-downloads f (reported idle code rest q) h = h
  Step-downloads f (sample_unsent x y event u idle same harsh unsent) h = h
  Step-downloads f (sample_pushed x e) h = h
  Step-downloads f (dtc_unsent code rest u idle q fresh unsent) h = h
  Step-downloads f (dtc_pushed code rest x q e) h = h
  Step-downloads f (downloaded evt) h = h
  Step-downloads f (network_up p) h = h
  Step-downloads f (setup_failed p) h = h
  Step-downloads f (gave_up p) h = h
  Step-downloads f (accepted p q) h = h
  Step-downloads f (greeted p) h = h
  Step-downloads f (subscribed p) h = h
  Step-downloads f (acked ch p) h = h
  Step-downloads f (failed p) h = h
  Step-downloads f (dropped p q) h = h
  Step-downloads f (aborted p) h = h

  -- Whatever a run of the firmware comes to, the FOTA library has only been asked for downloads that
  -- `on_ota_message` accepts for some payload, from the configured host where one is configured; and for
  -- none where the handler was never set.
  pub device_downloads :
      (u : Uplink S M) (fota : F) (d : Device S M F Coord Float)
      → Reach env (start u fota) d
      → DownloadedFrom env.ota env.ota_config env.handler_set fota d.fota
  device_downloads u fota d here = untouched
  device_downloads u fota d (next r st) = Step-downloads fota st (device_downloads u fota _ r)
