-- ===== src/Uplink.antt =====
-- src/uplink_mqtt.c and uplink_mqtt.h: publishing to the broker, and buffering in the rings of
-- src/buffer_fifo.c what cannot be published. `publish_lock` makes each publish a single step.
pub mod Publish
pub mod Delivery
pub mod Drain
pub mod Replay
pub mod Events
pub mod Connect
pub mod Backoff
pub mod Accepted
pub mod Address
pub mod Thread
pub mod Idle
pub mod Silent
pub mod Raises
pub mod Extends
pub mod Setup
pub mod Memory
mod Tests
mod LinkTests
use telenode.Prelude.{
  ℕ, zero, suc, ◌+◌, ◌%◌, ◌^◌, Bool, true, false, not, List, Option, none, some, ltb, if◌then◌else◌,
  length,
}
use telenode.Prelude.Errno.{Result, ok, err, emsgsize, enotconn}
use telenode.Nvs.{NvsOps}
use telenode.Mqtt.{MqttOps, Sent, PublishParam, Qos, at_most_once, at_least_once, exactly_once}
use telenode.BufferFifo
use telenode.BufferFifo.{Channel, telemetry, events, Fifo, max_record_len}

-- `topic_telemetry`, `topic_events`, `topic_status` and `topic_ota`
pub record Topics : Type 0 where
  pub telemetry_topic : List ℕ
  pub events_topic : List ℕ
  pub status_topic : List ℕ
  pub ota_topic : List ℕ

-- The statics of the module, those of the rings included.
pub record Uplink (S M : Type 0) : Type 0 where
  pub client : M
  pub fifo : Fifo S
  pub topics : Topics
  pub connected : Bool
  pub connack_ok : Bool
  pub next_message_id : ℕ

abbrev pub is_qos0 : Qos → Bool
is_qos0 at_most_once = true
is_qos0 at_least_once = false
is_qos0 exactly_once = false

module _ {S M : Type 0} where
  -- `next_message_id++`, a uint16_t
  abbrev pub bump_id : Uplink S M → Uplink S M
  bump_id u = record u { next_message_id = (u.next_message_id + 1) % 2 ^ 16 }

  -- What a call of the client leaves: MQTT_EVT_DISCONNECT clears `uplink_connected`.
  abbrev pub after_call : Uplink S M → Sent M → Uplink S M
  after_call u r = record u {
    client = r.client;
    connected = if r.dropped then false else u.connected;
  }

  abbrev pub publish_param : Uplink S M → List ℕ → List ℕ → Qos → Bool → PublishParam
  publish_param u topic payload qos retain = record {
    topic = topic;
    payload = payload;
    qos = qos;
    message_id = if is_qos0 qos then 0 else u.next_message_id;
    retain = retain;
  }

  -- `uplink_mqtt_is_connected`
  pub is_connected : Uplink S M → Bool
  is_connected u = u.connected

module _ {S M : Type 0} (mqtt : MqttOps M) where
  unfoldable pub publish_raw :
      Uplink S M → List ℕ → List ℕ → Qos → Bool → Result (Unit {0}) × Uplink S M
  publish_raw u topic payload qos retain =
      let r = mqtt.publish u.client (publish_param u topic payload qos retain) in
      (r.result, after_call (if is_qos0 qos then u else bump_id u) r)

  -- `uplink_mqtt_publish_status`, with `publish_status_locked`
  unfoldable pub publish_status : Uplink S M → List ℕ → Result (Unit {0}) × Uplink S M
  publish_status u payload =
      if not u.connected
      then (err enotconn, u)
      else publish_raw u u.topics.status_topic payload at_least_once true

  -- `subscribe_ota_topic`; a failure is only logged
  unfoldable pub subscribe_ota_topic : Uplink S M → Uplink S M
  subscribe_ota_topic u =
      after_call (bump_id u) (mqtt.subscribe u.client u.topics.ota_topic u.next_message_id)

module _ {S M : Type 0} (nvs : NvsOps S) (mqtt : MqttOps M) where
  -- `return buffer_fifo_push(channel, payload, len)`
  unfoldable pub buffer : Channel → Uplink S M → List ℕ → Result (Unit {0}) × Uplink S M
  buffer ch u payload =
      let (r, f) = BufferFifo.push nvs ch u.fifo payload in (r, record u { fifo = f })

  -- The branch of `publish_or_buffer` under `if (uplink_connected)`.
  unfoldable pub publish_or_fall_back :
      Channel → Uplink S M → List ℕ → Qos → List ℕ → Result (Unit {0}) × Uplink S M
  publish_or_fall_back ch u topic qos payload =
      let (r, u') = publish_raw mqtt u topic payload qos false in
      elim r [ ok done ↦ (ok tt, u') | err e ↦ buffer ch u' payload ]

  unfoldable pub publish_or_buffer :
      Channel → Uplink S M → List ℕ → Qos → List ℕ → Result (Unit {0}) × Uplink S M
  publish_or_buffer ch u topic qos payload =
      if ltb max_record_len (length payload)
      then (err emsgsize, u)
      else if u.connected
      then publish_or_fall_back ch u topic qos payload
      else buffer ch u payload

  -- `uplink_mqtt_publish_telemetry`
  unfoldable pub publish_telemetry : Uplink S M → List ℕ → Result (Unit {0}) × Uplink S M
  publish_telemetry u payload =
      publish_or_buffer telemetry u u.topics.telemetry_topic at_most_once payload

  -- `uplink_mqtt_publish_event`
  unfoldable pub publish_event : Uplink S M → List ℕ → Result (Unit {0}) × Uplink S M
  publish_event u payload = publish_or_buffer events u u.topics.events_topic at_least_once payload

  -- `drain_channel`: publish the oldest record, acknowledge it, and go on; the result of
  -- `buffer_fifo_pop_ack` is not looked at. `none`: the fuel ran out.
  unfoldable pub drain_channel : ℕ → Channel → List ℕ → Qos → Uplink S M → Option (Uplink S M)
  drain_channel zero ch topic qos u = none
  drain_channel (suc fuel) ch topic qos u = elim (BufferFifo.peek nvs ch u.fifo max_record_len) [
    | err e ↦ some u
    | ok bytes ↦
        let (r, u') = publish_raw mqtt u topic bytes qos false in
        (elim r [
          | err e ↦ some u'
          | ok done ↦
              drain_channel fuel ch topic qos
                (record u' { fifo = (BufferFifo.pop_ack nvs ch u'.fifo).1 })
        ])
  ]

  -- `drain_buffered_records`: events, then telemetry
  unfoldable pub drain_buffered_records : ℕ → Uplink S M → Option (Uplink S M)
  drain_buffered_records fuel u =
      elim (drain_channel fuel events u.topics.events_topic at_least_once u) [
        | none ↦ none
        | some u' ↦ drain_channel fuel telemetry u'.topics.telemetry_topic at_most_once u'
      ]
