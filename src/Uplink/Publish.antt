-- ===== src/Uplink/Publish.antt =====
-- What becomes of a payload given to src/uplink_mqtt.c: handed over to the broker, put in its ring, or
-- refused with an errno.
use telenode.Prelude.{
  ℕ, ◌<◌, ◌≤◌, ◌≡◌, refl, ap, Bool, true, false, List, [], ◌∷◌, ◌++◌, ltb, length, ◌⊎◌, inl, inr,
  Bool-cases, arith,
}
use telenode.Prelude.Errno.{Errno, Result, err, success, Done-cases, emsgsize}
use telenode.Nvs.{NvsOps}
use telenode.Mqtt.{MqttOps, MqttLaws, Qos, at_most_once, at_least_once, exactly_once}
use telenode.BufferFifo
use telenode.BufferFifo.{Channel, telemetry, events, Fifo, max_record_len, meta_of}
use telenode.Uplink.{
  Uplink, publish_param, publish_raw, publish_or_buffer, buffer, publish_or_fall_back,
}

module _ {S M : Type 0} (nvs : NvsOps S) {mqtt : MqttOps M} (laws : MqttLaws mqtt) where
  -- What a publish of the client leaves of the rings: all.
  pub publish_raw-fifo :
      (u : Uplink S M) (topic payload : List ℕ) (qos : Qos) (retain : Bool)
      → (publish_raw mqtt u topic payload qos retain).1.fifo ≡ u.fifo
  unfolding publish_raw
  publish_raw-fifo u topic payload at_most_once retain = refl
  publish_raw-fifo u topic payload at_least_once retain = refl
  publish_raw-fifo u topic payload exactly_once retain = refl

  pub publish_raw-topics :
      (u : Uplink S M) (topic payload : List ℕ) (qos : Qos) (retain : Bool)
      → (publish_raw mqtt u topic payload qos retain).1.topics ≡ u.topics
  unfolding publish_raw
  publish_raw-topics u topic payload at_most_once retain = refl
  publish_raw-topics u topic payload at_least_once retain = refl
  publish_raw-topics u topic payload exactly_once retain = refl

  refused_by :
      (u : Uplink S M) (topic payload : List ℕ) (qos : Qos) (x : Errno)
      → (publish_raw mqtt u topic payload qos false).0 ≡ err x
      → (mqtt.publish u.client (publish_param u topic payload qos false)).result ≡ err x
  unfolding publish_raw
  refused_by u topic payload qos x e = e

  pub publish_raw-sent :
      (u : Uplink S M) (topic payload : List ℕ) (qos : Qos) (retain : Bool)
      → (publish_raw mqtt u topic payload qos retain).0 ≡ success
      → laws.sent (publish_raw mqtt u topic payload qos retain).1.client
        ≡ laws.sent u.client ++ (publish_param u topic payload qos retain ∷ [])
  unfolding publish_raw
  publish_raw-sent u topic payload qos retain e = laws.publish_ok _ _ e

  pub publish_raw-unsent :
      (u : Uplink S M) (topic payload : List ℕ) (qos : Qos) (retain : Bool) (x : Errno)
      → (publish_raw mqtt u topic payload qos retain).0 ≡ err x
      → laws.sent (publish_raw mqtt u topic payload qos retain).1.client ≡ laws.sent u.client
  unfolding publish_raw
  publish_raw-unsent u topic payload qos retain x e = laws.publish_err _ _ x e

  -- The three ways of a publish: too long, and nothing changes; handed over, and the rings do not
  -- change; or, disconnected or refused by the client, given to the ring of its channel, whose answer is
  -- returned, with nothing handed over.
  pub data Outcome (ch : Channel) (u : Uplink S M) (topic : List ℕ) (qos : Qos) (payload : List ℕ)
      (out : Result (Unit {0}) × Uplink S M) : Type 0 where
    too_long :
        max_record_len < length payload
        → out ≡ (err emsgsize, u)
        → Outcome ch u topic qos payload out
    handed_over :
        length payload ≤ max_record_len
        → u.connected ≡ true
        → out.0 ≡ success
        → out.1.fifo ≡ u.fifo
        → laws.sent out.1.client
          ≡ laws.sent u.client ++ (publish_param u topic payload qos false ∷ [])
        → Outcome ch u topic qos payload out
    buffered :
        length payload ≤ max_record_len
        → (u.connected ≡ false)
          ⊎ ((e : Errno) × ((mqtt.publish u.client (publish_param u topic payload qos false)).result
                ≡ err e))
        → out.0 ≡ (BufferFifo.push nvs ch u.fifo payload).0
        → out.1.fifo ≡ (BufferFifo.push nvs ch u.fifo payload).1
        → laws.sent out.1.client ≡ laws.sent u.client
        → Outcome ch u topic qos payload out

  fall_back-Outcome :
      (ch : Channel) (u : Uplink S M) (topic : List ℕ) (qos : Qos) (payload : List ℕ)
      → length payload ≤ max_record_len
      → u.connected ≡ true
      → Outcome ch u topic qos payload (publish_or_fall_back nvs mqtt ch u topic qos payload)
  unfolding publish_or_fall_back buffer
  fall_back-Outcome ch u topic qos payload fits up =
      elim (Done-cases (publish_raw mqtt u topic payload qos false).0) [
        | inl e ↦
            rw (e, publish_or_fall_back)
              (handed_over fits up refl (publish_raw-fifo u topic payload qos false)
                (publish_raw-sent u topic payload qos false e))
        | inr (x, e) ↦
            rw (e, publish_or_fall_back)
              (buffered fits (inr (x, refused_by u topic payload qos x e))
                (ap (λ f. (BufferFifo.push nvs ch f payload).0)
                  (publish_raw-fifo u topic payload qos false))
                (ap (λ f. (BufferFifo.push nvs ch f payload).1)
                  (publish_raw-fifo u topic payload qos false))
                (publish_raw-unsent u topic payload qos false x e))
      ]

  -- A publish of more than 256 bytes is refused with -EMSGSIZE and changes nothing. Any other is handed over
  -- while connected, the rings unchanged; or, if the uplink is disconnected or the client refuses this very
  -- message, it is given to the ring of its channel, whose answer is returned, with nothing handed over.
  pub publish_or_buffer-Outcome :
      (ch : Channel) (u : Uplink S M) (topic : List ℕ) (qos : Qos) (payload : List ℕ)
      → Outcome ch u topic qos payload (publish_or_buffer nvs mqtt ch u topic qos payload)
  unfolding publish_or_buffer buffer
  publish_or_buffer-Outcome ch u topic qos payload =
      elim (Bool-cases (ltb max_record_len (length payload))) [
        | inl long ↦ too_long (ground arith) (rw long refl)
        | inr fits ↦ elim (Bool-cases u.connected) [
          | inr down ↦ simp (fits, down) (buffered (ground arith) (inl down) refl refl refl)
          | inl up ↦ simp (fits, up) (fall_back-Outcome ch u topic qos payload (ground arith) up)
        ]
      ]
