-- ===== src/Device/Tests.antt =====
-- A run of the firmware as a whole, and its theorems at this run.
use telenode.Prelude.{ℕ, ◌≡◌, ◌≢◌, refl, true, List, [], ◌∷◌, ◌++◌, All, none, arith}
use telenode.Prelude.Errno.{ok, success}
use telenode.Prelude.Texts.{codes}
use telenode.BufferFifo.{telemetry, events, meta_of}
use telenode.BufferFifo.Memory.{Memory, memory_laws}
use telenode.DtcDecode.{parse_response, format_code}
use telenode.Mqtt.{connack}
use telenode.Obd.{poll, get_latest, get_latest_dtcs, request_dtcs, await_dtcs}
use telenode.Uplink.{publish_status, subscribe_ota_topic, publish_raw}
use telenode.Uplink.Memory.{Broker}
use telenode.Uplink.Address.{build_topics-IsAddressed}
use telenode.Uplink.Events.{handle_event}
use telenode.Uplink.Thread.{online_payload}
use telenode.Uplink.Connect.{reconnect_backoff_base_ms}
use telenode.Ota.{Download}
use telenode.Sensors.Serial.{serial_byte}
use telenode.Sensors.Fixes.{process_reading, taken, process_rmc_frame}
use telenode.Sensors.Stream.{Cat}
use telenode.Device.{
  sampled, harsh_round, Device, Reach, here, next, byte, rmc_frame, polled, streamed, scanned,
  reported, network_up, connecting, awaited, accepted, greeted, subscribed, start, uplink,
  nothing_read, uart_byte, rmc_round, stream_one, report_one, begin_connect, client_event, at_phase,
  with_uplink, trying, greeting, subscribing, peeking,
}
use telenode.Device.Silent.{telemetry_silent}
use telenode.Device.Limits.{IsBounded}
use telenode.Device.Bounds.{device-IsBounded}
use telenode.Device.Updates.{DownloadedFrom, device_downloads}
use telenode.Device.Acks.{IsOnline, IsAcknowledged}
use telenode.Device.Online.{connected_honest}
use telenode.Device.AtLeastOnce.{events_kept}
use telenode.Device.History.{answered_by}
use telenode.Device.Kept.{IsSafe}
use telenode.BufferFifo.Queue.{Queue}
use telenode.BufferFifo.View.{Represents}
use telenode.Device.Memory.{device_id, env, fresh, round, wire, frame}

abbrev D : Type 0
D = Device Memory Broker (List Download) ℕ ℕ

abbrev first : D
first = start fresh []

-- A sentence, and the fix that it becomes
abbrev with_fix : D
with_fix = rmc_round env (uart_byte env (uart_byte env first 4000 b'$') 4001 b'\n')

abbrev reading : Cat ℕ ℕ
reading = record { rmc_frame = frame; obd = nothing_read; fix_quality = none }

with_fix-queue : with_fix.fixes.cat_msgq ≡ reading ∷ []
unfolding uart_byte rmc_round serial_byte process_reading taken process_rmc_frame get_latest
with_fix-queue = refl

-- Its record, and a round of the OBD-II thread that finds a trouble code
abbrev with_data : D
with_data = record (stream_one env with_fix reading []) { obd = poll env.quotient round }

abbrev with_codes : D
with_codes = record with_data { scan = get_latest_dtcs with_data.obd }

with_codes-scan : with_codes.scan ≡ codes "P0133" ∷ []
unfolding poll get_latest_dtcs request_dtcs await_dtcs parse_response format_code
with_codes-scan = refl

abbrev with_event : D
with_event = report_one env with_codes (codes "P0133") []

-- The thread of the uplink connects.
abbrev on_line : D
on_line =
    let d = client_event env (begin_connect env (at_phase trying with_event)) (connack 0) in
    record (with_uplink d (record (uplink d) { connected = true })) {
      phase = greeting;
      backoff_ms = reconnect_backoff_base_ms;
    }

abbrev replaying : D
replaying =
    let d =
      at_phase subscribing
        (with_uplink on_line (publish_status env.mqtt (uplink on_line) online_payload).1) in
    at_phase (peeking events) (with_uplink d (subscribe_ota_topic env.mqtt (uplink d)))

to_event : Reach env first with_event
unfolding stream_one uart_byte rmc_round
to_event =
    next
      (next
        (next
          (next (next (next (next here (byte 4000 b'$')) (byte 4001 b'\n')) rmc_frame)
            (streamed refl reading [] with_fix-queue))
          (polled round))
        (scanned refl refl))
      (reported refl (codes "P0133") [] with_codes-scan)

to_replay : Reach env first replaying
unfolding report_one stream_one uart_byte rmc_round begin_connect client_event handle_event
to_replay =
    next
      (next
        (next
          (next (next (next to_event (network_up refl)) (connecting refl))
            (awaited (connack 0) refl))
          (accepted refl refl))
        (greeted refl))
      (subscribed refl)

telemetry_silent_example :
    ((meta_of telemetry (uplink replaying).fifo).head
      ≡ (meta_of telemetry (uplink replaying).fifo).tail)
    × All (λ p. p.topic ≢ fresh.topics.telemetry_topic) (uplink replaying).client
telemetry_silent_example =
    telemetry_silent env memory_laws wire device_id fresh [] replaying
      (build_topics-IsAddressed [] (ok (codes "356938035643809"))).1 refl refl to_replay

device-IsBounded_example : IsBounded env replaying
device-IsBounded_example = device-IsBounded env fresh [] replaying to_replay

device_downloads_example : DownloadedFrom env.ota env.ota_config true [] replaying.fota
device_downloads_example = device_downloads env fresh [] replaying to_replay

replaying-connected : (uplink replaying).connected ≡ true
unfolding publish_status publish_raw subscribe_ota_topic
replaying-connected = refl

connected_honest_example : IsOnline replaying.phase × IsAcknowledged env to_replay
connected_honest_example =
    connected_honest env fresh [] replaying to_replay refl replaying-connected

fresh-Represents : Represents memory_laws events fresh.fifo []
fresh-Represents = record {
  mounted = refl;
  cursors = refl;
  no_wrap = omega arith;
  fits = omega arith;
  items = tt;
  holds = tt;
}

-- The thread connects, and a hard acceleration follows.
abbrev awaiting_connack : D
awaiting_connack = begin_connect env (at_phase trying first)

abbrev answered_connack : D
answered_connack = client_event env awaiting_connack (connack 0)

abbrev connected_now : D
connected_now =
    record (with_uplink answered_connack (record (uplink answered_connack) { connected = true })) {
      phase = greeting;
      backoff_ms = reconnect_backoff_base_ms;
    }

abbrev accelerated : D
accelerated = harsh_round env connected_now success (ok (5, 0))

connected_now-idle : connected_now.imu_holds ≡ none
unfolding begin_connect client_event
connected_now-idle = refl

events_kept_example :
    (q : Queue) × Represents memory_laws events (uplink accelerated).fifo q
    × All
        (IsSafe memory_laws wire fresh.topics (uplink accelerated).client q)
        (answered_by env {d = connected_now} (sampled connected_now-idle success (ok (5, 0))) ++ [])
unfolding begin_connect client_event handle_event
events_kept_example =
    events_kept env memory_laws wire fresh [] [] fresh-Represents
      (next
        (next
          (next (next (next here (network_up refl)) (connecting refl)) (awaited (connack 0) refl))
          (accepted refl refl))
        (sampled connected_now-idle success (ok (5, 0))))
      (((((tt, omega arith), omega arith), omega arith), omega arith), omega arith)
