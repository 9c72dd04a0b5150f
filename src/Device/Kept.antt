-- ===== src/Device/Kept.antt =====
-- Where an event of the firmware is after src/uplink_mqtt.c has answered 0 for it: handed over to the broker,
-- or in the events ring.
use telenode.Prelude.{
  ℕ, ◌+◌, ◌^◌, ◌<◌, ◌≡◌, ◌⊎◌, inl, inr, refl, sym, ap, ◌∙◌, false, List, [], ◌∷◌, ◌++◌, All, Any,
  All-map, Any-append_left, Any-append_right, append-nil, ltb, length, Bool-cases,
}
use telenode.Prelude.Errno.{Result, ok, err, Done-cases}
use telenode.Nvs.{NvsOps, NvsLaws}
use telenode.BufferFifo.{telemetry, events, meta_of, max_record_len}
use telenode.BufferFifo.Queue.{Item, Queue}
use telenode.BufferFifo.View.{Represents}
use telenode.Mqtt.{WireLaws, MqttOps, ConnectOps, PublishParam, at_least_once}
use telenode.Uplink.{
  Uplink, Topics, publish_raw, publish_event, publish_or_buffer, publish_or_fall_back, buffer,
}
use telenode.Uplink.Delivery.{
  on_the_wire, queued, failed, publish_event_outcome, buffered_outcome, EventOutcome,
}
use telenode.Uplink.Extends.{AnyMessage, Extends}
use telenode.Uplink.Publish.{publish_raw-topics}
use telenode.Device.{
  Phase, waiting, trying, awaiting, greeting, subscribing, serving, aborting, peeking, acking,
  sending,
}

-- A payload that was answered 0, as a list of none or one.
abbrev pub answered : Result (Unit {0}) → Item → List Item
answered (ok done) x = x ∷ []
answered (err e) x = []

module _ {S M : Type 0} {nvs : NvsOps S} {mqtt : MqttOps M} {conn : ConnectOps M}
    (laws : NvsLaws nvs) (wire : WireLaws mqtt conn) (topics : Topics) where
  -- A message that carries the payload on the topic of the events.
  abbrev pub IsCarried : Item → PublishParam → Type 0
  IsCarried x p = (p.topic ≡ topics.events_topic) × (p.payload ≡ x)

  -- Handed over, or in the queue of the events ring.
  abbrev pub IsSafe : List PublishParam → Queue → Item → Type 0
  IsSafe sent q x = Any (IsCarried x) sent ⊎ Any (λ y. x ≡ y) q

  -- What the place of the thread says of the queue: the record that it holds is the oldest one, and before an
  -- acknowledgement the oldest one has been handed over.
  abbrev pub IsPlaced : Phase → Queue → List PublishParam → Type 0
  IsPlaced (sending events b) [] sent = ⊥
  IsPlaced (sending events b) (y ∷ q) sent = y ≡ b
  IsPlaced (acking events) [] sent = ⊥
  IsPlaced (acking events) (y ∷ q) sent = Any (IsCarried y) sent
  IsPlaced _ q sent = Unit

  pub record Keeps (history : List Item) (p : Phase) (u : Uplink S M) : Type 0 where
    pub queue : Queue
    pub represents : Represents laws events u.fifo queue
    pub same_topics : u.topics ≡ topics
    pub safe : All (IsSafe (wire.base.sent u.client) queue) history
    pub placed : IsPlaced p queue (wire.base.sent u.client)

  pub IsSafe-more :
      (sent more : List PublishParam) (q q' : Queue) (x : Item)
      → IsSafe sent q x
      → IsSafe (sent ++ more) (q ++ q') x
  IsSafe-more sent more q q' x (inl h) = inl (Any-append_left (IsCarried x) sent more h)
  IsSafe-more sent more q q' x (inr h) = inr (Any-append_left (λ y. x ≡ y) q q' h)

  IsPlaced-more :
      (p : Phase) (sent more : List PublishParam) (q q' : Queue)
      → IsPlaced p q sent
      → IsPlaced p (q ++ q') (sent ++ more)
  IsPlaced-more (sending events b) sent more (y ∷ q) q' h = h
  IsPlaced-more (sending events b) sent more [] q' h = absurd h
  IsPlaced-more (acking events) sent more (y ∷ q) q' h = Any-append_left (IsCarried y) sent more h
  IsPlaced-more (acking events) sent more [] q' h = absurd h
  IsPlaced-more (sending telemetry b) sent more q q' h = tt
  IsPlaced-more (acking telemetry) sent more q q' h = tt
  IsPlaced-more waiting sent more q q' h = tt
  IsPlaced-more trying sent more q q' h = tt
  IsPlaced-more awaiting sent more q q' h = tt
  IsPlaced-more greeting sent more q q' h = tt
  IsPlaced-more subscribing sent more q q' h = tt
  IsPlaced-more serving sent more q q' h = tt
  IsPlaced-more aborting sent more q q' h = tt
  IsPlaced-more (peeking ch) sent more q q' h = tt

  -- More handed over, and more behind the queue
  grow :
      (history : List Item) (p : Phase) (u u' : Uplink S M) (more : List PublishParam) (q : Queue)
      (k : Keeps history p u)
      → u'.topics ≡ u.topics
      → wire.base.sent u'.client ≡ wire.base.sent u.client ++ more
      → Represents laws events u'.fifo (k.queue ++ q)
      → Keeps history p u'
  grow history p u u' more q k t e r = record {
    queue = k.queue ++ q;
    represents = r;
    same_topics = t ∙ k.same_topics;
    safe = rw e (
        All-map (IsSafe (wire.base.sent u.client) k.queue) _ history
          (λ x h. IsSafe-more (wire.base.sent u.client) more k.queue q x h) k.safe);
    placed = rw e (IsPlaced-more p (wire.base.sent u.client) more k.queue q k.placed);
  }

  pub Extends-Keeps :
      (history : List Item) (p : Phase) (u u' : Uplink S M)
      → Keeps history p u
      → Extends nvs wire AnyMessage u u'
      → Keeps history p u'
  Extends-Keeps history p u u' k e =
      grow history p u u' e.more [] k e.topics e.sent (rw (e.fifo, append-nil k.queue) k.represents)

  -- To a place that says nothing of the queue
  pub phase-Keeps :
      (history : List Item) (p p' : Phase) (u : Uplink S M)
      → ((q : Queue) (sent : List PublishParam) → IsPlaced p' q sent)
      → Keeps history p u
      → Keeps history p' u
  phase-Keeps history p p' u free k = record {
    queue = k.queue;
    represents = k.represents;
    same_topics = k.same_topics;
    safe = k.safe;
    placed = free k.queue (wire.base.sent u.client);
  }

  one_more :
      (history : List Item) (p : Phase) (u : Uplink S M) (x : Item) (k : Keeps history p u)
      → IsSafe (wire.base.sent u.client) k.queue x
      → Keeps (x ∷ history) p u
  one_more history p u x k s = record {
    queue = k.queue;
    represents = k.represents;
    same_topics = k.same_topics;
    safe = (s, k.safe);
    placed = k.placed;
  }

  fall_back-topics :
      (u : Uplink S M) (x topic : List ℕ)
      → (publish_or_fall_back nvs mqtt events u topic at_least_once x).1.topics ≡ u.topics
  unfolding publish_or_fall_back buffer
  fall_back-topics u x topic =
      let t = publish_raw-topics nvs wire.base u topic x at_least_once false in
      elim (Done-cases (publish_raw mqtt u topic x at_least_once false).0) [
        | inl done ↦ rw (done, publish_or_fall_back) t
        | inr (e, fails) ↦ rw (fails, publish_or_fall_back) t
      ]

  publish_event-topics :
      (u : Uplink S M) (x : Item) → (publish_event nvs mqtt u x).1.topics ≡ u.topics
  unfolding publish_event publish_or_buffer buffer
  publish_event-topics u x = elim (Bool-cases (ltb max_record_len (length x))) [
    | inl long ↦ rw long refl
    | inr fits ↦ elim (Bool-cases u.connected) [
      | inr down ↦ simp (fits, down) refl
      | inl up ↦ simp (fits, up) (fall_back-topics u x u.topics.events_topic)
    ]
  ]

  -- An event that comes to one of the outcomes keeps what was answered before, and its own payload where it is
  -- answered 0.
  outcome-Keeps :
      (history : List Item) (p : Phase) (u : Uplink S M) (x : Item)
      (out : Result (Unit {0}) × Uplink S M) (k : Keeps history p u)
      → out.1.topics ≡ u.topics
      → EventOutcome laws wire.base u k.queue x out
      → Keeps (answered out.0 x ++ history) p out.1
  unfolding grow
  outcome-Keeps history p u x out k t outcome =
      let sent = wire.base.sent u.client in
      elim outcome [
        | on_the_wire done e r ↦ rw done (
            one_more history p out.1 x
              (grow history p u out.1 _ [] k t e (rw (append-nil k.queue) r))
              (inl (
                rw e (
                  Any-append_right (IsCarried x) sent _
                    (inl (ap (λ y. y.events_topic) k.same_topics, refl))))))
        | queued done e r ↦ rw done (
            one_more history p out.1 x
              (grow history p u out.1 [] (x ∷ []) k t (e ∙ sym (append-nil sent)) r)
              (inr (Any-append_right (λ y. x ≡ y) k.queue (x ∷ []) (inl refl))))
        | failed x' done e (inl r) ↦ rw done (
            grow history p u out.1 [] [] k t (e ∙ sym (append-nil sent))
              (rw (append-nil k.queue) r))
        | failed x' done e (inr r) ↦
            rw done (grow history p u out.1 [] (x ∷ []) k t (e ∙ sym (append-nil sent)) r)
      ]

  -- A call of `uplink_mqtt_publish_event`
  pub publish_event-Keeps :
      (history : List Item) (p : Phase) (u : Uplink S M) (x : Item)
      → Keeps history p u
      → (meta_of events u.fifo).head + 1 < 2 ^ 32
      → Keeps
          (answered (publish_event nvs mqtt u x).0 x ++ history)
          p
          (publish_event nvs mqtt u x).1
  publish_event-Keeps history p u x k low =
      outcome-Keeps history p u x (publish_event nvs mqtt u x) k (publish_event-topics u x)
        (publish_event_outcome laws wire.base u k.queue x k.represents low)

  -- The push of an event that was not handed over
  pub buffer-Keeps :
      (history : List Item) (p : Phase) (u : Uplink S M) (x : Item)
      → Keeps history p u
      → (meta_of events u.fifo).head + 1 < 2 ^ 32
      → Keeps
          (answered (buffer nvs mqtt events u x).0 x ++ history)
          p
          (buffer nvs mqtt events u x).1
  unfolding buffer
  buffer-Keeps history p u x k low =
      outcome-Keeps history p u x (buffer nvs mqtt events u x) k refl
        (buffered_outcome laws wire.base u k.queue x _ k.represents low refl refl refl)
