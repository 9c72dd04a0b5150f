-- ===== src/Uplink/Setup.antt =====
-- `mqtt_broker_resolve` and `mqtt_client_setup` of src/uplink_mqtt.c: what the client is told before it
-- connects. The resolver is given by what it answers; buffers and protocol version are left out.
use telenode.Prelude.{
  ℕ, ◌≡◌, refl, sym, ap, subst, ◌∙◌, inl, inr, Bool-cases, Bool, true, List, [], ◌∷◌, ◌++◌, Option,
  none, some,
}
use telenode.Prelude.Errno.{
  Errno, Result, ok, err, success, discard, eio, enoent, enotconn, Result-cases,
}
use telenode.Prelude.Texts.{codes}
use telenode.Nvs.{NvsOps}
use telenode.Mqtt.{MqttOps, MqttLaws, ConnectOps, PublishParam, Qos, at_least_once}
use telenode.Uplink.{Uplink, Topics, publish_param, publish_raw, publish_status}
use telenode.Uplink.Publish.{publish_raw-sent}
use telenode.Uplink.Connect.{PollTurn, try_connect_once}

-- `struct sockaddr_in`
pub record Address : Type 0 where
  pub ip : ℕ
  pub port : ℕ

-- `mqtt_broker_resolve`, by what `zsock_getaddrinfo` returns: an error, or the first address if any
unfoldable pub mqtt_broker_resolve : Result (Option Address) → Result Address
mqtt_broker_resolve (err e) = err eio
mqtt_broker_resolve (ok none) = err enoent
mqtt_broker_resolve (ok (some address)) = ok address

-- CONFIG_UPLINK_MQTT_BROKER_HOSTNAME and CONFIG_UPLINK_MQTT_SEC_TAG
pub record BrokerConfig : Type 0 where
  pub hostname : List ℕ
  pub sec_tag : ℕ

-- The fields of `struct mqtt_client` that the set-up fills, with the will that it points to.
pub record ClientSetup : Type 0 where
  pub broker : Address
  pub client_id : List ℕ
  pub will_topic : List ℕ
  pub will_message : List ℕ
  pub will_qos : Qos
  pub will_retain : Bool
  pub verify_peer : Bool
  pub sec_tags : List ℕ
  pub hostname : List ℕ

-- `will_payload`
abbrev pub will_payload : List ℕ
will_payload = codes "{\"state\":\"offline\"}"

-- What it fills in, for a resolved address
abbrev pub prepared : BrokerConfig → List ℕ → Topics → Address → ClientSetup
prepared config device_id topics address = record {
  broker = address;
  client_id = device_id;
  will_topic = topics.status_topic;
  will_message = will_payload;
  will_qos = at_least_once;
  will_retain = true;
  verify_peer = true;
  sec_tags = config.sec_tag ∷ [];
  hostname = config.hostname;
}

-- `mqtt_client_setup` for a device id and its topics
unfoldable pub mqtt_client_setup :
    BrokerConfig → List ℕ → Topics → Result (Option Address) → Result ClientSetup
mqtt_client_setup config device_id topics found = elim (mqtt_broker_resolve found) [
  | err e ↦ err e
  | ok address ↦ ok (prepared config device_id topics address)
]

-- `try_connect_once`, its set-up included
unfoldable pub attempt :
    {S M : Type 0}
    → MqttOps M
    → Bool
    → ConnectOps M
    → BrokerConfig
    → List ℕ
    → Result (Option Address)
    → ℕ
    → List PollTurn
    → Uplink S M
    → Result (Unit {0}) × Uplink S M
attempt mqtt handler_set conn config device_id found started turns u =
    try_connect_once mqtt handler_set conn
      (discard (mqtt_client_setup config device_id u.topics found)) started turns u

-- Which errno of the resolver becomes which, and that the uplink then stays as it was.
pub attempt-unresolved :
    {S M : Type 0} (mqtt : MqttOps M) (handler_set : Bool) (conn : ConnectOps M)
    (config : BrokerConfig) (device_id : List ℕ) (found : Result (Option Address)) (started : ℕ)
    (turns : List PollTurn) (u : Uplink S M) (e : Errno)
    → mqtt_broker_resolve found ≡ err e
    → attempt mqtt handler_set conn config device_id found started turns u ≡ (err e, u)
unfolding attempt mqtt_client_setup try_connect_once
attempt-unresolved mqtt handler_set conn config device_id found started turns u e h =
    rw (h, mqtt_client_setup) refl

module _ {S M : Type 0} (nvs : NvsOps S) {mqtt : MqttOps M} (laws : MqttLaws mqtt) where
  -- A status that the client has handed over, against the will of the same client.
  pub record IsAnswer (u u' : Uplink S M) (c : ClientSetup) (payload : List ℕ) : Type 0 where
    pub message : PublishParam
    pub handed_over : laws.sent u'.client ≡ laws.sent u.client ++ (message ∷ [])
    pub carries : message.payload ≡ payload
    pub topic : message.topic ≡ c.will_topic
    pub qos : message.qos ≡ c.will_qos
    pub retain : message.retain ≡ c.will_retain

  prepared-IsAnswer :
      (config : BrokerConfig) (device_id : List ℕ) (u : Uplink S M) (address : Address)
      (payload : List ℕ)
      → (publish_status mqtt u payload).0 ≡ success
      → IsAnswer u
          (publish_status mqtt u payload).1
          (prepared config device_id u.topics address)
          payload
  unfolding publish_status
  prepared-IsAnswer config device_id u address payload sent = elim (Bool-cases u.connected) [
    | inr down ↦ let k : (publish_status mqtt u payload).0 ≡ err enotconn = rw down refl in cc
    | inl up ↦
        let topic = u.topics.status_topic in
        let k : publish_status mqtt u payload
            ≡ publish_raw mqtt u topic payload at_least_once true =
          simp up refl in
        let done : (publish_raw mqtt u topic payload at_least_once true).0 ≡ success =
          ap (λ r. r.0) (sym k) ∙ sent in
        record {
          message = publish_param u topic payload at_least_once true;
          handed_over =
              ap (λ r. laws.sent r.1.client) k
              ∙ publish_raw-sent nvs laws u topic payload at_least_once true done;
          carries = refl;
          topic = refl;
          qos = refl;
          retain = refl;
        }
  ]

  -- A client that the set-up has prepared announces its loss by a will on the very topic, with the quality of
  -- service and the retain flag, of the statuses that the device publishes: each status that is handed
  -- over replaces what the broker retains of the will, and the other way round.
  pub status_answers_will :
      (config : BrokerConfig) (device_id : List ℕ) (found : Result (Option Address))
      (u : Uplink S M) (c : ClientSetup) (payload : List ℕ)
      → mqtt_client_setup config device_id u.topics found ≡ ok c
      → (publish_status mqtt u payload).0 ≡ success
      → IsAnswer u (publish_status mqtt u payload).1 c payload
  unfolding mqtt_client_setup
  status_answers_will config device_id found u c payload set sent =
      elim (Result-cases (mqtt_broker_resolve found)) [
        | inr (e, x) ↦
            let k : mqtt_client_setup config device_id u.topics found ≡ err e =
              rw (x, mqtt_client_setup) refl in
            cc
        | inl (address, x) ↦
            let k : mqtt_client_setup config device_id u.topics found
                ≡ ok (prepared config device_id u.topics address) =
              rw (x, mqtt_client_setup) refl in
            let same : prepared config device_id u.topics address ≡ c = cc in
            subst (λ y. IsAnswer u (publish_status mqtt u payload).1 y payload) same
              (prepared-IsAnswer config device_id u address payload sent)
      ]
