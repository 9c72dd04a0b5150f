-- ===== src/Uplink/Memory.antt =====
-- Test data for src/uplink_mqtt.c: a broker in memory that takes every message, and an uplink over it.
use telenode.Prelude.{refl, false, List, [], ◌∷◌, ◌++◌}
use telenode.Prelude.Errno.{ok, success-ne-err}
use telenode.Mqtt.{MqttOps, MqttLaws, PublishParam}
use telenode.BufferFifo.Memory.{Memory, full}
use telenode.Uplink.{Uplink, Topics}

abbrev pub Broker : Type 0
Broker = List PublishParam

-- A broker that takes every message.
abbrev pub broker : MqttOps Broker
broker = record {
  publish = λ m p. record { result = ok tt; dropped = false; client = m ++ (p ∷ []) };
  subscribe = λ m topic id. record { result = ok tt; dropped = false; client = m };
  read_payload = λ m n. (ok [], m);
  qos1_ack = λ m id. m;
}

abbrev pub broker_laws : MqttLaws broker
broker_laws = record {
  sent = λ m. m;
  publish_ok = λ m p h. refl;
  publish_err = λ m p e h. absurd (success-ne-err h);
}

abbrev pub topics : Topics
topics = record {
  telemetry_topic = b't' ∷ [];
  events_topic = b'e' ∷ [];
  status_topic = b's' ∷ [];
  ota_topic = b'o' ∷ [];
}

-- The uplink is down, and the telemetry ring is full.
abbrev pub down : Uplink Memory Broker
down = record {
  client = [];
  fifo = full;
  topics = topics;
  connected = false;
  connack_ok = false;
  next_message_id = 1;
}
