-- ===== src/Uplink/Extends.antt =====
-- The calls of src/uplink_mqtt.c that leave the rings alone and at most add to what has been handed over.
use telenode.Prelude.{
  ℕ, ◌≡◌, refl, sym, ◌∙◌, Bool, true, List, [], ◌∷◌, ◌++◌, append-nil, All, leb, Bool-cases, inl,
  inr,
}
use telenode.Prelude.Errno.{Done-cases}
use telenode.Nvs.{NvsOps}
use telenode.Mqtt.{
  WireLaws, MqttOps, ConnectOps, PublishParam, PublishEvt, Qos, at_least_once, Evt, connack,
  disconnect, puback, publish, pingresp, unhandled,
}
use telenode.Uplink.{Uplink, publish_param, publish_raw, publish_status, subscribe_ota_topic}
use telenode.Uplink.Publish.{
  publish_raw-fifo, publish_raw-topics, publish_raw-sent, publish_raw-unsent,
}
use telenode.Uplink.Events.{handle_event, handle_publish, is_qos1, ota_payload_max_len}

abbrev pub AnyMessage : PublishParam → Type 0
AnyMessage p = Unit

module _ {S M : Type 0} (nvs : NvsOps S) {mqtt : MqttOps M} {conn : ConnectOps M}
    (wire : WireLaws mqtt conn) (P : PublishParam → Type 0) where
  -- The same rings and topics, and the messages handed over, perhaps with more behind them for which `P`
  -- holds.
  pub record Extends (u u' : Uplink S M) : Type 0 where
    pub fifo : u'.fifo ≡ u.fifo
    pub topics : u'.topics ≡ u.topics
    pub more : List PublishParam
    pub all : All P more
    pub sent : wire.base.sent u'.client ≡ wire.base.sent u.client ++ more

  pub Extends-refl : (u : Uplink S M) → Extends u u
  Extends-refl u = record {
    fifo = refl;
    topics = refl;
    more = [];
    all = tt;
    sent = sym (append-nil _);
  }

  -- A new state of the client in which nothing more was handed over.
  pub client-Extends :
      (u : Uplink S M) (m : M)
      → wire.base.sent m ≡ wire.base.sent u.client
      → Extends u (record u { client = m })
  client-Extends u m e = record {
    fifo = refl;
    topics = refl;
    more = [];
    all = tt;
    sent = e ∙ sym (append-nil _);
  }

  pub publish_raw-Extends :
      (u : Uplink S M) (topic payload : List ℕ) (qos : Qos) (retain : Bool)
      → P (publish_param u topic payload qos retain)
      → Extends u (publish_raw mqtt u topic payload qos retain).1
  publish_raw-Extends u topic payload qos retain p =
      let fifo = publish_raw-fifo nvs wire.base u topic payload qos retain in
      let topics = publish_raw-topics nvs wire.base u topic payload qos retain in
      elim (Done-cases (publish_raw mqtt u topic payload qos retain).0) [
        | inl done ↦ record {
          fifo = fifo;
          topics = topics;
          more = publish_param u topic payload qos retain ∷ [];
          all = (p, tt);
          sent = publish_raw-sent nvs wire.base u topic payload qos retain done;
        }
        | inr (e, fails) ↦ record {
          fifo = fifo;
          topics = topics;
          more = [];
          all = tt;
          sent =
              publish_raw-unsent nvs wire.base u topic payload qos retain e fails
              ∙ sym (append-nil _);
        }
      ]

  pub publish_status-Extends :
      (u : Uplink S M) (payload : List ℕ)
      → ((p : PublishParam) → p.topic ≡ u.topics.status_topic → P p)
      → Extends u (publish_status mqtt u payload).1
  unfolding publish_status
  publish_status-Extends u payload p = elim (Bool-cases u.connected) [
    | inr down ↦ simp down (Extends-refl u)
    | inl up ↦
        simp up (publish_raw-Extends u u.topics.status_topic payload at_least_once true (p _ refl))
  ]

  pub subscribe_ota_topic-Extends : (u : Uplink S M) → Extends u (subscribe_ota_topic mqtt u)
  unfolding subscribe_ota_topic
  subscribe_ota_topic-Extends u = record {
    fifo = refl;
    topics = refl;
    more = [];
    all = tt;
    sent = wire.subscribe_sent u.client u.topics.ota_topic u.next_message_id ∙ sym (append-nil _);
  }

  handle_publish-Extends :
      (u : Uplink S M) (handler_set : Bool) (message : PublishEvt)
      → Extends u (handle_publish mqtt handler_set u message).0
  unfolding handle_publish
  handle_publish-Extends u handler_set message =
      let large = wire.read_sent u.client ota_payload_max_len in
      let whole = wire.read_sent u.client message.payload_len in
      elim (Bool-cases (leb ota_payload_max_len message.payload_len)) [
        | inl l ↦ elim (Bool-cases (is_qos1 message.qos)) [
          | inl q ↦ simp (q, l) (client-Extends u _ (wire.ack_sent _ message.message_id ∙ large))
          | inr q ↦ simp (q, l) (client-Extends u _ large)
        ]
        | inr l ↦ elim (Bool-cases (is_qos1 message.qos)) [
          | inl q ↦ simp (q, l) (client-Extends u _ (wire.ack_sent _ message.message_id ∙ whole))
          | inr q ↦ simp (q, l) (client-Extends u _ whole)
        ]
      ]

  pub handle_event-Extends :
      (u : Uplink S M) (handler_set : Bool) (evt : Evt)
      → Extends u (handle_event mqtt handler_set u evt).0
  unfolding handle_event
  handle_event-Extends u handler_set (connack result) = record {
    fifo = refl;
    topics = refl;
    more = [];
    all = tt;
    sent = sym (append-nil _);
  }
  handle_event-Extends u handler_set disconnect = record {
    fifo = refl;
    topics = refl;
    more = [];
    all = tt;
    sent = sym (append-nil _);
  }
  handle_event-Extends u handler_set (puback result) = Extends-refl u
  handle_event-Extends u handler_set (publish message) =
      handle_publish-Extends u handler_set message
  handle_event-Extends u handler_set pingresp = Extends-refl u
  handle_event-Extends u handler_set unhandled = Extends-refl u
