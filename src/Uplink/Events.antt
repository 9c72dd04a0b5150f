-- ===== src/Uplink/Events.antt =====
-- `mqtt_event_handler` of src/uplink_mqtt.c: what the events of the MQTT client do, and which payloads
-- reach the OTA handler.
use telenode.Prelude.{
  ℕ, ◌<◌, ◌≡◌, ◌↔◌, refl, sym, ap, ◌∙◌, Bool, true, false, ◌&&◌, List, [], Option, none, some, ltb,
  leb, ◌==◌, length, if◌then◌else◌, Bool-cases, ltb→lt, inl, inr, arith,
}
use telenode.Prelude.Errno.{Result, ok, err}
use telenode.Prelude.Texts.{strcmp, strcmp-same, strcmp_refl}
use telenode.Mqtt.{
  MqttOps, Qos, at_most_once, at_least_once, exactly_once, PublishEvt, Evt, connack, disconnect,
  puback, publish, pingresp, unhandled,
}
use telenode.Uplink.{Uplink}

abbrev pub ota_payload_max_len : ℕ
ota_payload_max_len = 256

-- `ota_handler` is set or not; a call of it is its payload.
abbrev pub Call : Type 0
Call = Option (List ℕ)

abbrev pub is_qos1 : Qos → Bool
is_qos1 at_most_once = false
is_qos1 at_least_once = true
is_qos1 exactly_once = false

-- The payload as it is left in `ota_payload_buf`, with `payload_len` 0, the empty list, where it was too
-- large or could not be read whole.
abbrev pub kept_payload : ℕ → Result (List ℕ) → List ℕ
kept_payload len (err e) = []
kept_payload len (ok bytes) = if length bytes == len then bytes else []

call_some :
    (b : Bool) (p q : List ℕ)
    → ◌≡◌ {A = Call} (if b then some p else none) (some q)
    → (b ≡ true) × (p ≡ q)
call_some true p q h = (refl, cc)
call_some false p q h = cc

all_true : (a b c : Bool) → (a && (b && c)) ≡ true → (a ≡ true) × (b ≡ true) × (c ≡ true)
all_true true true true h = (refl, refl, refl)
all_true true true false h = cc
all_true true false c h = cc
all_true false b c h = cc

kept_payload_sound :
    (n : ℕ) (r : Result (List ℕ)) (payload : List ℕ)
    → kept_payload n r ≡ payload
    → 0 < length payload
    → (r ≡ ok payload) × (length payload ≡ n)
kept_payload_sound n (err e) payload h full = absurd (omega (arith, ap length h))
kept_payload_sound n (ok bytes) payload h full = elim (Bool-cases (length bytes == n)) [
  | inl whole ↦
      let same : bytes ≡ payload = rw (← h, whole) refl in
      (ap ok same, ap length (sym same) ∙ ground arith)
  | inr short ↦
      let none_kept : [] ≡ payload = rw (← h, short) refl in
      absurd (omega (arith, ap length none_kept))
]

call_complete :
    (a b c : Bool) (p q : List ℕ)
    → a ≡ true
    → b ≡ true
    → c ≡ true
    → p ≡ q
    → ◌≡◌ {A = Call} (if a && (b && c) then some p else none) (some q)
call_complete a b c p q ha hb hc e = rw (ha, hb, hc, e) refl

module _ {S M : Type 0} (mqtt : MqttOps M) where
  -- The read, which takes no more than the buffer holds.
  abbrev pub read_publish : Uplink S M → PublishEvt → List ℕ × Uplink S M
  read_publish u pub_evt =
      if leb ota_payload_max_len pub_evt.payload_len
      then ([], record u { client = (mqtt.read_payload u.client ota_payload_max_len).1 })
      else (
        kept_payload pub_evt.payload_len (mqtt.read_payload u.client pub_evt.payload_len).0,
        record u { client = (mqtt.read_payload u.client pub_evt.payload_len).1 },
      )

  -- The case MQTT_EVT_PUBLISH
  unfoldable pub handle_publish : Bool → Uplink S M → PublishEvt → Uplink S M × Call
  handle_publish handler_set u pub_evt =
      let (payload, u') = read_publish u pub_evt in
      (
        if is_qos1 pub_evt.qos
            then record u' { client = mqtt.qos1_ack u'.client pub_evt.message_id }
            else u',
        if strcmp pub_evt.topic u.topics.ota_topic && (ltb 0 (length payload) && handler_set)
            then some payload
            else none,
      )

  -- `mqtt_event_handler`
  unfoldable pub handle_event : Bool → Uplink S M → Evt → Uplink S M × Call
  handle_event handler_set u (connack result) =
      (record u { connack_ok = if result == 0 then true else false }, none)
  handle_event handler_set u disconnect = (record u { connected = false }, none)
  handle_event handler_set u (puback result) = (u, none)
  handle_event handler_set u (publish pub_evt) = handle_publish handler_set u pub_evt
  handle_event handler_set u pingresp = (u, none)
  handle_event handler_set u unhandled = (u, none)

  -- A message that the OTA handler is called for.
  pub record IsDelivered (u : Uplink S M) (evt : Evt) (payload : List ℕ) : Type 0 where
    pub message : PublishEvt
    pub is_publish : evt ≡ publish message
    pub topic : message.topic ≡ u.topics.ota_topic
    pub fits : message.payload_len < ota_payload_max_len
    pub not_empty : 0 < message.payload_len
    pub read : (mqtt.read_payload u.client message.payload_len).0 ≡ ok payload
    pub whole : length payload ≡ message.payload_len

  read_publish_sound :
      (u : Uplink S M) (message : PublishEvt) (payload : List ℕ)
      → (read_publish u message).0 ≡ payload
      → 0 < length payload
      → (message.payload_len < ota_payload_max_len)
        × ((mqtt.read_payload u.client message.payload_len).0 ≡ ok payload)
        × (length payload ≡ message.payload_len)
  read_publish_sound u message payload h full =
      elim (Bool-cases (leb ota_payload_max_len message.payload_len)) [
        | inl large ↦
            let none_kept : [] ≡ payload = rw (← h, large) refl in
            absurd (omega (arith, ap length none_kept))
        | inr fits ↦
            let kept : kept_payload message.payload_len
                  (mqtt.read_payload u.client message.payload_len).0
                ≡ payload =
              rw (← h, fits) refl in
            let (read, whole) = kept_payload_sound message.payload_len _ payload kept full in
            (ground arith, read, whole)
      ]

  handle_publish_sound :
      (handler_set : Bool) (u : Uplink S M) (message : PublishEvt) (payload : List ℕ)
      → (handle_publish handler_set u message).1 ≡ some payload
      → (handler_set ≡ true) × IsDelivered u (publish message) payload
  unfolding handle_publish
  handle_publish_sound handler_set u message payload h =
      let kept = (read_publish u message).0 in
      let (test, same) =
        call_some (strcmp message.topic u.topics.ota_topic && (ltb 0 (length kept) && handler_set))
          kept payload h in
      let (topic, full, set) =
        all_true (strcmp message.topic u.topics.ota_topic) (ltb 0 (length kept)) handler_set test in
      let not_empty : 0 < length payload = rw (← same) (ltb→lt 0 (length kept) full) in
      let (fits, read, whole) = read_publish_sound u message payload same not_empty in
      (
        set,
        record {
          message = message;
          is_publish = refl;
          topic = strcmp-same message.topic u.topics.ota_topic topic;
          fits = fits;
          not_empty = omega arith;
          read = read;
          whole = whole;
        },
      )

  read_publish_complete :
      (u : Uplink S M) (message : PublishEvt) (payload : List ℕ)
      → message.payload_len < ota_payload_max_len
      → (mqtt.read_payload u.client message.payload_len).0 ≡ ok payload
      → length payload ≡ message.payload_len
      → (read_publish u message).0 ≡ payload
  read_publish_complete u message payload fits read whole =
      let short : leb ota_payload_max_len message.payload_len ≡ false = ground arith in
      let all : (length payload == message.payload_len) ≡ true = ground arith in
      rw (short, read, all) refl

  handle_publish_complete :
      (handler_set : Bool) (u : Uplink S M) (message : PublishEvt) (payload : List ℕ)
      → handler_set ≡ true
      → IsDelivered u (publish message) payload
      → (handle_publish handler_set u message).1 ≡ some payload
  unfolding handle_publish
  handle_publish_complete handler_set u message payload set d =
      let same : d.message ≡ message = cc in
      let topic : message.topic ≡ u.topics.ota_topic = ap (λ m. m.topic) (sym same) ∙ d.topic in
      let len : message.payload_len ≡ d.message.payload_len = ap (λ m. m.payload_len) (sym same) in
      let kept =
        read_publish_complete u message payload (rw len d.fits) (rw len d.read)
          (d.whole ∙ sym len) in
      let full : ltb 0 (length (read_publish u message).0) ≡ true =
        rw kept (let n = d.not_empty in let w = d.whole in ground arith) in
      call_complete (strcmp message.topic u.topics.ota_topic) _ handler_set
        (read_publish u message).0 payload (rw topic (strcmp_refl u.topics.ota_topic)) full set kept

  -- The OTA handler is called for exactly the messages on the OTA topic whose payload is not empty,
  -- shorter than 256 bytes and read whole, if a handler is set; it is given this payload.
  pub handle_event_iff :
      (handler_set : Bool) (u : Uplink S M) (evt : Evt) (payload : List ℕ)
      → ((handle_event handler_set u evt).1 ≡ some payload)
        ↔ ((handler_set ≡ true) × IsDelivered u evt payload)
  unfolding handle_event
  handle_event_iff handler_set u (connack result) payload =
      (λ h. cc, λ h. absurd (let e = h.1.is_publish in cc))
  handle_event_iff handler_set u disconnect payload =
      (λ h. cc, λ h. absurd (let e = h.1.is_publish in cc))
  handle_event_iff handler_set u (puback result) payload =
      (λ h. cc, λ h. absurd (let e = h.1.is_publish in cc))
  handle_event_iff handler_set u (publish message) payload = (
    handle_publish_sound handler_set u message payload,
    λ h. handle_publish_complete handler_set u message payload h.0 h.1,
  )
  handle_event_iff handler_set u pingresp payload =
      (λ h. cc, λ h. absurd (let e = h.1.is_publish in cc))
  handle_event_iff handler_set u unhandled payload =
      (λ h. cc, λ h. absurd (let e = h.1.is_publish in cc))
