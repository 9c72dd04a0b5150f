-- ===== src/Uplink/Silent.antt =====
-- What src/uplink_mqtt.c puts on the wire and into its rings when it is only given events and statuses:
-- nothing on the topic of the telemetry, and nothing in the telemetry ring.
use telenode.Prelude.{
  ℕ, ◌≡◌, ◌⊎◌, ap, ◌∙◌, false, List, ltb, length, All, All-append, inl, inr, Bool-cases,
}
use telenode.Prelude.Errno.{Done-cases}
use telenode.Nvs.{NvsOps, NvsLaws}
use telenode.BufferFifo
use telenode.BufferFifo.{telemetry, events, meta_of, max_record_len}
use telenode.BufferFifo.Apart.{push-Unseen, pop_ack-Unseen}
use telenode.Mqtt.{MqttOps, WireLaws, ConnectOps, PublishParam, at_least_once}
use telenode.Uplink.{
  Uplink, Topics, publish_raw, publish_status, buffer, publish_or_fall_back, publish_or_buffer,
  publish_event,
}
use telenode.Uplink.Extends.{Extends, publish_raw-Extends, publish_status-Extends}

-- A message on one of the other two topics that the device publishes on.
abbrev pub IsAllowed : Topics → PublishParam → Type 0
IsAllowed topics p = (p.topic ≡ topics.events_topic) ⊎ (p.topic ≡ topics.status_topic)

module _ {S M : Type 0} {nvs : NvsOps S} {mqtt : MqttOps M} {conn : ConnectOps M}
    (laws : NvsLaws nvs) (wire : WireLaws mqtt conn) (topics : Topics) where
  -- The telemetry ring is empty, and no telemetry has been handed over.
  pub record IsSilent (u : Uplink S M) : Type 0 where
    pub same_topics : u.topics ≡ topics
    pub empty : (meta_of telemetry u.fifo).head ≡ (meta_of telemetry u.fifo).tail
    pub allowed : All (IsAllowed topics) (wire.base.sent u.client)

  pub Extends-IsSilent :
      (u u' : Uplink S M) → Extends nvs wire (IsAllowed topics) u u' → IsSilent u → IsSilent u'
  Extends-IsSilent u u' e s = record {
    same_topics = e.topics ∙ s.same_topics;
    empty = rw e.fifo s.empty;
    allowed =
        rw e.sent (All-append (IsAllowed topics) (wire.base.sent u.client) e.more s.allowed e.all);
  }

  status-IsAllowed :
      (u : Uplink S M)
      → IsSilent u
      → (p : PublishParam) → p.topic ≡ u.topics.status_topic
      → IsAllowed topics p
  status-IsAllowed u s p e = inr (e ∙ ap (λ t. t.status_topic) s.same_topics)

  pub publish_raw-IsSilent :
      (u : Uplink S M) (payload : List ℕ)
      → IsSilent u
      → IsSilent (publish_raw mqtt u u.topics.events_topic payload at_least_once false).1
  publish_raw-IsSilent u payload s =
      Extends-IsSilent u _
        (publish_raw-Extends nvs wire (IsAllowed topics) u u.topics.events_topic payload
          at_least_once false (inl (ap (λ t. t.events_topic) s.same_topics)))
        s

  pub publish_status-IsSilent :
      (u : Uplink S M) (payload : List ℕ) → IsSilent u → IsSilent (publish_status mqtt u payload).1
  publish_status-IsSilent u payload s =
      Extends-IsSilent u _
        (publish_status-Extends nvs wire (IsAllowed topics) u payload (status-IsAllowed u s)) s

  pub buffer-IsSilent :
      (u : Uplink S M) (payload : List ℕ)
      → IsSilent u
      → IsSilent (buffer nvs mqtt events u payload).1
  unfolding buffer
  buffer-IsSilent u payload s =
      let same = (push-Unseen laws events u.fifo payload).cursors in
      record { same_topics = s.same_topics; empty = rw same s.empty; allowed = s.allowed }

  fall_back-IsSilent :
      (u : Uplink S M) (payload : List ℕ)
      → IsSilent u
      → IsSilent
          (publish_or_fall_back nvs mqtt events u u.topics.events_topic at_least_once payload).1
  unfolding publish_or_fall_back
  fall_back-IsSilent u payload s =
      let topic = u.topics.events_topic in
      let k = publish_raw-IsSilent u payload s in
      elim (Done-cases (publish_raw mqtt u topic payload at_least_once false).0) [
        | inl sends ↦ rw (sends, publish_or_fall_back) k
        | inr (e, fails) ↦ rw (fails, publish_or_fall_back) (buffer-IsSilent _ payload k)
      ]

  pub publish_event-IsSilent :
      (u : Uplink S M) (payload : List ℕ)
      → IsSilent u
      → IsSilent (publish_event nvs mqtt u payload).1
  unfolding publish_event publish_or_buffer
  publish_event-IsSilent u payload s = elim (Bool-cases (ltb max_record_len (length payload))) [
    | inl long ↦ rw long s
    | inr fits ↦ elim (Bool-cases u.connected) [
      | inr down ↦ simp (fits, down) (buffer-IsSilent u payload s)
      | inl up ↦ simp (fits, up) (fall_back-IsSilent u payload s)
    ]
  ]

  -- Acknowledging an event leaves the telemetry ring alone.
  pub pop_ack-IsSilent :
      (u : Uplink S M)
      → IsSilent u
      → IsSilent (record u { fifo = (BufferFifo.pop_ack nvs events u.fifo).1 })
  pop_ack-IsSilent u s =
      let same = (pop_ack-Unseen laws events u.fifo).cursors in
      record { same_topics = s.same_topics; empty = rw same s.empty; allowed = s.allowed }
