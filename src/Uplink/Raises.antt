-- ===== src/Uplink/Raises.antt =====
-- No call of src/uplink_mqtt.c but the thread's own sets `uplink_connected`: publishes, the subscription and
-- the events of the client only ever clear it. And none but a CONNACK changes `mqtt_connack_ok`.
use telenode.Prelude.{
  ℕ, ◌≡◌, refl, Bool, true, false, List, if◌then◌else◌, ltb, leb, length, Bool-cases, inl, inr,
}
use telenode.Nvs.{NvsOps}
use telenode.Prelude.Errno.{Done-cases}
use telenode.BufferFifo
use telenode.BufferFifo.{Channel, max_record_len}
use telenode.Mqtt.{
  MqttOps, PublishEvt, Qos, at_most_once, at_least_once, exactly_once, Evt, connack, disconnect,
  puback, publish, pingresp, unhandled,
}
use telenode.Uplink.{
  Uplink, publish_raw, publish_status, buffer, publish_or_fall_back, publish_or_buffer,
  publish_event,
}
use telenode.Uplink.Events.{handle_event, handle_publish, is_qos1, ota_payload_max_len}

-- Connected afterwards only if connected before.
abbrev pub IsNoRise : {S M : Type 0} → Uplink S M → Uplink S M → Type 0
IsNoRise u u' = u'.connected ≡ true → u.connected ≡ true

kept : (dropped b : Bool) → (if dropped then false else b) ≡ true → b ≡ true
kept true b h = cc
kept false b h = h

module _ {S M : Type 0} (mqtt : MqttOps M) where
  pub publish_raw-IsNoRise :
      (u : Uplink S M) (topic payload : List ℕ) (qos : Qos) (retain : Bool)
      → IsNoRise u (publish_raw mqtt u topic payload qos retain).1
  unfolding publish_raw
  publish_raw-IsNoRise u topic payload at_most_once retain = kept _ u.connected
  publish_raw-IsNoRise u topic payload at_least_once retain = kept _ u.connected
  publish_raw-IsNoRise u topic payload exactly_once retain = kept _ u.connected

  pub publish_status-IsNoRise :
      (u : Uplink S M) (payload : List ℕ) → IsNoRise u (publish_status mqtt u payload).1
  unfolding publish_status
  publish_status-IsNoRise u payload h = elim (Bool-cases u.connected) [
    | inl up ↦ up
    | inr down ↦ let k : (publish_status mqtt u payload).1.connected ≡ false = simp down refl in cc
  ]

  handle_publish-IsNoRise :
      (u : Uplink S M) (handler_set : Bool) (message : PublishEvt)
      → IsNoRise u (handle_publish mqtt handler_set u message).0
  unfolding handle_publish
  handle_publish-IsNoRise u handler_set message h =
      elim (Bool-cases (leb ota_payload_max_len message.payload_len)) [
        | inl l ↦ elim (Bool-cases (is_qos1 message.qos)) [
          | inl q ↦ rw (← h, q, l) refl
          | inr q ↦ rw (← h, q, l) refl
        ]
        | inr l ↦ elim (Bool-cases (is_qos1 message.qos)) [
          | inl q ↦ rw (← h, q, l) refl
          | inr q ↦ rw (← h, q, l) refl
        ]
      ]

  pub handle_event-IsNoRise :
      (u : Uplink S M) (handler_set : Bool) (evt : Evt)
      → IsNoRise u (handle_event mqtt handler_set u evt).0
  unfolding handle_event
  handle_event-IsNoRise u handler_set (connack result) h = h
  handle_event-IsNoRise u handler_set disconnect h = cc
  handle_event-IsNoRise u handler_set (puback result) h = h
  handle_event-IsNoRise u handler_set (publish message) h =
      handle_publish-IsNoRise u handler_set message h
  handle_event-IsNoRise u handler_set pingresp h = h
  handle_event-IsNoRise u handler_set unhandled h = h

module _ {S M : Type 0} (nvs : NvsOps S) (mqtt : MqttOps M) where
  pub publish_event-IsNoRise :
      (u : Uplink S M) (payload : List ℕ) → IsNoRise u (publish_event nvs mqtt u payload).1
  unfolding publish_event publish_or_buffer buffer
  publish_event-IsNoRise u payload h = elim (Bool-cases u.connected) [
    | inl up ↦ up
    | inr down ↦ elim (Bool-cases (ltb max_record_len (length payload))) [
      | inl long ↦
          let k : (publish_event nvs mqtt u payload).1.connected ≡ false = simp (long, down) refl in
          cc
      | inr fits ↦
          let k : (publish_event nvs mqtt u payload).1.connected ≡ false = simp (fits, down) refl in
          cc
    ]
  ]

-- `mqtt_connack_ok` is what it was.
abbrev pub IsSameAck : {S M : Type 0} → Uplink S M → Uplink S M → Type 0
IsSameAck u u' = u'.connack_ok ≡ u.connack_ok

module _ {S M : Type 0} (mqtt : MqttOps M) where
  pub publish_raw-IsSameAck :
      (u : Uplink S M) (topic payload : List ℕ) (qos : Qos) (retain : Bool)
      → IsSameAck u (publish_raw mqtt u topic payload qos retain).1
  unfolding publish_raw
  publish_raw-IsSameAck u topic payload at_most_once retain = refl
  publish_raw-IsSameAck u topic payload at_least_once retain = refl
  publish_raw-IsSameAck u topic payload exactly_once retain = refl

  pub publish_status-IsSameAck :
      (u : Uplink S M) (payload : List ℕ) → IsSameAck u (publish_status mqtt u payload).1
  unfolding publish_status
  publish_status-IsSameAck u payload = elim (Bool-cases u.connected) [
    | inl up ↦ simp up (publish_raw-IsSameAck u u.topics.status_topic payload at_least_once true)
    | inr down ↦ simp down refl
  ]

  pub handle_publish-IsSameAck :
      (u : Uplink S M) (handler_set : Bool) (message : PublishEvt)
      → IsSameAck u (handle_publish mqtt handler_set u message).0
  unfolding handle_publish
  handle_publish-IsSameAck u handler_set message =
      elim (Bool-cases (leb ota_payload_max_len message.payload_len)) [
        | inl l ↦ elim (Bool-cases (is_qos1 message.qos)) [
          | inl q ↦ rw (q, l) refl
          | inr q ↦ rw (q, l) refl
        ]
        | inr l ↦ elim (Bool-cases (is_qos1 message.qos)) [
          | inl q ↦ rw (q, l) refl
          | inr q ↦ rw (q, l) refl
        ]
      ]

module _ {S M : Type 0} (nvs : NvsOps S) (mqtt : MqttOps M) where
  fall_back-IsSameAck :
      (ch : Channel) (u : Uplink S M) (topic : List ℕ) (qos : Qos) (payload : List ℕ)
      → IsSameAck u (publish_or_fall_back nvs mqtt ch u topic qos payload).1
  unfolding publish_or_fall_back buffer
  fall_back-IsSameAck ch u topic qos payload =
      let same = publish_raw-IsSameAck mqtt u topic payload qos false in
      elim (Done-cases (publish_raw mqtt u topic payload qos false).0) [
        | inl done ↦ rw (done, publish_or_fall_back) same
        | inr (e, fails) ↦ rw (fails, publish_or_fall_back) same
      ]

  pub publish_event-IsSameAck :
      (u : Uplink S M) (payload : List ℕ) → IsSameAck u (publish_event nvs mqtt u payload).1
  unfolding publish_event publish_or_buffer buffer
  publish_event-IsSameAck u payload = elim (Bool-cases (ltb max_record_len (length payload))) [
    | inl long ↦ rw long refl
    | inr fits ↦ elim (Bool-cases u.connected) [
      | inr down ↦ simp (fits, down) refl
      | inl up ↦
          simp (fits, up)
            (fall_back-IsSameAck BufferFifo.events u u.topics.events_topic at_least_once payload)
    ]
  ]
