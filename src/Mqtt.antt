-- ===== src/Mqtt.antt =====
-- Zephyr's MQTT client (zephyr/net/mqtt.h), which src/uplink_mqtt.c drives: a parameter of the model.
-- `MqttOps` holds the calls that move messages, `MqttLaws` the documented behaviour of a publish.
use telenode.Prelude.{ℕ, Bool, List, [], ◌∷◌, ◌++◌, ◌≡◌}
use telenode.Prelude.Errno.{Errno, Result, ok, err}

-- `enum mqtt_qos`
pub data Qos : Type 0 where
  at_most_once at_least_once exactly_once : Qos

-- `struct mqtt_publish_param`; `dup_flag` is always 0.
pub record PublishParam : Type 0 where
  pub topic : List ℕ
  pub payload : List ℕ
  pub qos : Qos
  pub message_id : ℕ
  pub retain : Bool

-- The part of an incoming PUBLISH that comes with its event; the payload is read by a call.
pub record PublishEvt : Type 0 where
  pub topic : List ℕ
  pub payload_len : ℕ
  pub qos : Qos
  pub message_id : ℕ

-- `struct mqtt_evt`, with the result code where the handler looks at it (only whether it is 0).
pub data Evt : Type 0 where
  connack : ℕ → Evt
  disconnect : Evt
  puback : ℕ → Evt
  publish : PublishEvt → Evt
  pingresp : Evt
  unhandled : Evt

-- What a call that writes to the socket comes to: its result, whether the client closed the
-- connection on the way and told so by MQTT_EVT_DISCONNECT, and the client afterwards.
pub record Sent (M : Type 0) : Type 0 where
  pub result : Result (Unit {0})
  pub dropped : Bool
  pub client : M

pub record MqttOps (M : Type 0) : Type 0 where
  pub publish : M → PublishParam → Sent M
  pub subscribe : M → List ℕ → ℕ → Sent M
  pub read_payload : M → ℕ → Result (List ℕ) × M
  pub qos1_ack : M → ℕ → M

-- The calls that open and close a connection. `mqtt_connect` returns before the broker has answered.
pub record ConnectOps (M : Type 0) : Type 0 where
  pub connect : M → Result (Unit {0}) × M
  pub abort : M → M

module _ {M : Type 0} where
  -- `sent m` are the messages that the client has handed over, first to last: one more for a
  -- publish that returns 0, and the same for one that returns an errno.
  pub record MqttLaws (mqtt : MqttOps M) : Type 0 where
    pub sent : M → List PublishParam
    pub publish_ok :
        (m : M) (p : PublishParam)
        → (mqtt.publish m p).result ≡ ok tt
        → sent (mqtt.publish m p).client ≡ sent m ++ (p ∷ [])
    pub publish_err :
        (m : M) (p : PublishParam) (e : Errno)
        → (mqtt.publish m p).result ≡ err e
        → sent (mqtt.publish m p).client ≡ sent m

-- The other calls of the client hand over no message.
pub record WireLaws {M : Type 0} (mqtt : MqttOps M) (conn : ConnectOps M) : Type 0 where
  pub base : MqttLaws mqtt
  pub subscribe_sent :
      (m : M) (topic : List ℕ) (id : ℕ) → base.sent (mqtt.subscribe m topic id).client ≡ base.sent m
  pub read_sent : (m : M) (n : ℕ) → base.sent (mqtt.read_payload m n).1 ≡ base.sent m
  pub ack_sent : (m : M) (id : ℕ) → base.sent (mqtt.qos1_ack m id) ≡ base.sent m
  pub connect_sent : (m : M) → base.sent (conn.connect m).1 ≡ base.sent m
  pub abort_sent : (m : M) → base.sent (conn.abort m) ≡ base.sent m
