-- ===== src/Uplink/LinkTests.antt =====
-- Tests of the events, the connection and the topics of src/uplink_mqtt.c, and the theorems on them at
-- concrete inputs.
use telenode.Prelude.{ℕ, ◌+◌, ◌≡◌, ◌↔◌, refl, map, true, false, List, [], ◌∷◌, some, none, Option}
use telenode.Prelude.Errno.{Result, enoent, ok, err, success, etimedout}
use telenode.Prelude.Texts.{codes}
use telenode.Mqtt.{
  MqttOps, ConnectOps, PublishEvt, PublishParam, connack, disconnect, publish, at_least_once,
}
use telenode.Uplink.{Uplink, publish_raw}
use telenode.BufferFifo
use telenode.BufferFifo.Memory.{Memory, full}
use telenode.Uplink.Memory.{Broker, broker, down}
use telenode.Uplink.Setup.{Address, BrokerConfig, attempt, attempt-unresolved, mqtt_broker_resolve}
use telenode.Uplink.Events.{handle_event, handle_publish, IsDelivered, handle_event_iff}
use telenode.Uplink.Connect.{
  PollTurn, nothing, ready, handle_events, await_connack, try_connect_once, connack_wait_timeout_ms,
  next_backoff, delays,
}
use telenode.Uplink.Accepted.{IsAnswered, try_connect_once_sound}

-- A client whose messages carry "{}".
abbrev reader : MqttOps Broker
reader = record broker { read_payload = λ m n. (ok (codes "{}"), m) }

abbrev message : PublishEvt
message = record { topic = b'o' ∷ []; payload_len = 2; qos = at_least_once; message_id = 7 }

handle-message : (handle_event reader true down (publish message)).1 ≡ some (codes "{}")
unfolding handle_event handle_publish
handle-message = refl

handle-large :
    (handle_event reader true down (publish (record message { payload_len = 256 }))).1 ≡ none
unfolding handle_event handle_publish
handle-large = refl

handle-disconnect :
    (handle_event reader true (record down { connected = true }) disconnect).0.connected ≡ false
unfolding handle_event
handle-disconnect = refl

handle_event_iff_example :
    ((handle_event reader true down (publish message)).1 ≡ some (codes "{}"))
    ↔ ((true ≡ true) × IsDelivered reader down (publish message) (codes "{}"))
handle_event_iff_example = handle_event_iff reader true down (publish message) (codes "{}")

abbrev conn : ConnectOps Broker
conn = record { connect = λ m. (success, m); abort = λ m. m }

-- Nothing at first, then the CONNACK.
abbrev turns : List PollTurn
turns =
    record { uptime = 100; polled = nothing }
    ∷ record { uptime = 200; polled = ready (some (connack 0 ∷ [])) false }
    ∷ []

connect-turns : (try_connect_once broker true conn success 0 turns down).0 ≡ success
unfolding try_connect_once await_connack handle_events handle_event
connect-turns = refl

connect-refused :
    (try_connect_once broker true conn success 0
      (record { uptime = 100; polled = ready (some (connack 5 ∷ [])) true } ∷ turns)
      down).0
    ≡ err etimedout
unfolding try_connect_once await_connack handle_events handle_event
connect-refused = refl

try_connect_once_sound_example :
    (success ≡ success) × (success ≡ success) × IsAnswered (0 + connack_wait_timeout_ms) turns
try_connect_once_sound_example =
    try_connect_once_sound broker true conn success 0 turns down connect-turns

delays-eight : delays 8 1000 ≡ 1000 ∷ 2000 ∷ 4000 ∷ 8000 ∷ 16000 ∷ 32000 ∷ 60000 ∷ 60000 ∷ []
unfolding delays next_backoff
delays-eight = refl

-- No ring is mounted, and nothing was sent.
abbrev idle : Uplink Memory Broker
idle = record down { fifo = record full { mounted = false } }

abbrev online : PublishParam
online = record {
  topic = b's' ∷ [];
  payload = codes "{\"state\":\"online\"}";
  qos = at_least_once;
  message_id = 1;
  retain = true;
}

-- After a session that sends the status and is hung up.
abbrev ended : Uplink Memory Broker × ℕ × Option ℕ
ended = (record idle { client = online ∷ []; connack_ok = true; next_message_id = 3 }, 1000, none)

abbrev broker_config : BrokerConfig
broker_config = record { hostname = codes "mqtt.example.com"; sec_tag = 24 }

abbrev found : Result (Option Address)
found = ok (some (record { ip = 7; port = 8883 }))

attempt-no_address :
    attempt broker true conn broker_config (codes "truck-7") (ok none) 0 [] down
    ≡ (err enoent, down)
unfolding mqtt_broker_resolve
attempt-no_address =
    attempt-unresolved broker true conn broker_config (codes "truck-7") (ok none) 0 [] down enoent
      refl

abbrev up : Uplink Memory Broker
up = record down { connected = true }

-- The number behind 65535 is 0, which MQTT allows for no message of this quality of service.
message_id-wraps :
    let u =
      (publish_raw broker (record up { next_message_id = 65535 }) [] [] at_least_once false).1 in
    map (λ p. p.message_id) (publish_raw broker u [] [] at_least_once false).1.client
    ≡ 65535 ∷ 0 ∷ []
unfolding publish_raw
message_id-wraps = refl
