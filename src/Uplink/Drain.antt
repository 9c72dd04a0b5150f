-- ===== src/Uplink/Drain.antt =====
-- The replay of src/uplink_mqtt.c on a reconnect: `drain_channel` sends the queue from its oldest
-- record on, each record once, and takes from the queue what it sent.
use telenode.Prelude.{
  ℕ, zero, suc, ◌<◌, ◌≡◌, ◌⊎◌, refl, sym, ap, ◌∙◌, false, List, [], ◌∷◌, ◌++◌, append_assoc,
  append-nil, length, take, drop, inl, inr, arith, some,
}
use telenode.Prelude.Errno.{Errno, Result, ok, err, success, Done-cases, enoent}
use telenode.Nvs.{NvsOps, NvsLaws}
use telenode.Mqtt.{MqttOps, MqttLaws, PublishParam, Qos}
use telenode.BufferFifo
use telenode.BufferFifo.{Channel, telemetry, events, Fifo, meta_of, max_record_len}
use telenode.BufferFifo.Queue
use telenode.BufferFifo.Queue.{Item, Queue, IsItem}
use telenode.BufferFifo.View.{Represents}
use telenode.BufferFifo.Write.{Written, stored, not_written, not_persisted}
use telenode.BufferFifo.Refine.{peek_refines, pop_ack-Written}
use telenode.Uplink.{Uplink, publish_param, publish_raw, drain_channel}
use telenode.Uplink.Publish.{publish_raw-fifo, publish_raw-sent, publish_raw-unsent}

-- Topic and payload of the messages.
abbrev pub letters : List PublishParam → List (List ℕ × List ℕ)
letters [] = []
letters (p ∷ ps) = (p.topic, p.payload) ∷ letters ps

abbrev pub addressed : List ℕ → Queue → List (List ℕ × List ℕ)
addressed topic [] = []
addressed topic (x ∷ q) = (topic, x) ∷ addressed topic q

pub letters-append : (ps qs : List PublishParam) → letters (ps ++ qs) ≡ letters ps ++ letters qs
letters-append [] qs = refl
letters-append (p ∷ ps) qs = ap (λ l. (p.topic, p.payload) ∷ l) (letters-append ps qs)

module _ {S M : Type 0} {nvs : NvsOps S} {mqtt : MqttOps M} (laws : NvsLaws nvs)
    (broker : MqttLaws mqtt) where
  pub peek_oldest :
      (ch : Channel) (s : Fifo S) (x : Item) (q : Queue)
      → Represents laws ch s (x ∷ q)
      → BufferFifo.peek nvs ch s max_record_len ≡ ok x
  unfolding Queue.peek
  peek_oldest ch s x q r =
      peek_refines laws ch s (x ∷ q) max_record_len r ∙ ground (arith, r.items.0)

  pub peek_none :
      (ch : Channel) (s : Fifo S)
      → Represents laws ch s []
      → BufferFifo.peek nvs ch s max_record_len ≡ err enoent
  unfolding Queue.peek
  peek_none ch s r = peek_refines laws ch s [] max_record_len r

  pub Written-same :
      (ch : Channel) (q : Queue) {out : Result (Unit {0}) × Fifo S}
      → Written laws ch q q out
      → Represents laws ch out.1 q
  Written-same ch q (stored e r p) = r
  Written-same ch q (not_written y e r) = r
  Written-same ch q (not_persisted y e r) = r

  -- The client, in a state in which it has been handed over the first `k` records behind what was `before`,
  -- refuses the next record of the queue on its topic.
  pub record Refused (topic : List ℕ) (q : Queue) (k : ℕ) (before : List (List ℕ × List ℕ))
      : Type 0 where
    pub client : M
    pub message : PublishParam
    pub next : Item
    pub behind : Queue
    pub why : Errno
    pub left : drop k q ≡ next ∷ behind
    pub on_topic : message.topic ≡ topic
    pub carries : message.payload ≡ next
    pub handed_over : letters (broker.sent client) ≡ before ++ addressed topic (take k q)
    pub refuses : (mqtt.publish client message).result ≡ err why

  -- How far a replay of `q` got from `u` to `u'`: the first `k` records were sent to the topic, in
  -- order and behind all that was sent before, and the others are the queue. Less than all of them
  -- only where the client refused the next one.
  pub record Replayed (ch : Channel) (topic : List ℕ) (q : Queue) (u u' : Uplink S M) : Type 0 where
    pub k : ℕ
    pub sent :
        letters (broker.sent u'.client)
        ≡ letters (broker.sent u.client) ++ addressed topic (take k q)
    pub rest : Represents laws ch u'.fifo (drop k q)
    pub complete : (k ≡ length q) ⊎ Refused topic q k (letters (broker.sent u.client))

  pub drain_empty :
      (fuel : ℕ) (ch : Channel) (topic : List ℕ) (qos : Qos) (u : Uplink S M) (e : Errno)
      → BufferFifo.peek nvs ch u.fifo max_record_len ≡ err e
      → drain_channel nvs mqtt (suc fuel) ch topic qos u ≡ some u
  unfolding drain_channel
  drain_empty fuel ch topic qos u e h = rw (h, drain_channel) refl

  drain_failed :
      (fuel : ℕ) (ch : Channel) (topic : List ℕ) (qos : Qos) (u : Uplink S M) (x : Item) (e : Errno)
      → BufferFifo.peek nvs ch u.fifo max_record_len ≡ ok x
      → (publish_raw mqtt u topic x qos false).0 ≡ err e
      → drain_channel nvs mqtt (suc fuel) ch topic qos u
        ≡ some (publish_raw mqtt u topic x qos false).1
  unfolding drain_channel
  drain_failed fuel ch topic qos u x e h k = rw (h, drain_channel) (rw (k, drain_channel) refl)

  -- The state after a record was sent and acknowledged.
  abbrev after_ack : Channel → List ℕ → Qos → Uplink S M → Item → Uplink S M
  after_ack ch topic qos u x =
      let u' = (publish_raw mqtt u topic x qos false).1 in
      record u' { fifo = (BufferFifo.pop_ack nvs ch u'.fifo).1 }

  drain_next :
      (fuel : ℕ) (ch : Channel) (topic : List ℕ) (qos : Qos) (u : Uplink S M) (x : Item)
      → BufferFifo.peek nvs ch u.fifo max_record_len ≡ ok x
      → (publish_raw mqtt u topic x qos false).0 ≡ success
      → drain_channel nvs mqtt (suc fuel) ch topic qos u
        ≡ drain_channel nvs mqtt fuel ch topic qos (after_ack ch topic qos u x)
  unfolding drain_channel
  drain_next fuel ch topic qos u x h k = rw (h, drain_channel) (rw (k, drain_channel) refl)

  after_ack-Represents :
      (ch : Channel) (topic : List ℕ) (qos : Qos) (u : Uplink S M) (x : Item) (q : Queue)
      → Represents laws ch u.fifo (x ∷ q)
      → Represents laws ch (after_ack ch topic qos u x).fifo q
  after_ack-Represents ch topic qos u x q r =
      rw (publish_raw-fifo nvs broker u topic x qos false)
        (Written-same ch q (pop_ack-Written laws ch u.fifo x q r))

  Refused-first :
      (u : Uplink S M) (topic x : List ℕ) (qos : Qos) (q : Queue) (e : Errno)
      → (publish_raw mqtt u topic x qos false).0 ≡ err e
      → Refused topic (x ∷ q) 0 (letters (broker.sent u.client))
  unfolding publish_raw
  Refused-first u topic x qos q e h = record {
    client = u.client;
    message = publish_param u topic x qos false;
    next = x;
    behind = q;
    why = e;
    left = refl;
    on_topic = refl;
    carries = refl;
    handed_over = sym (append-nil _);
    refuses = h;
  }

  -- What was sent behind the record at the front was sent behind what came before that record.
  sent_behind :
      (ch : Channel) (topic : List ℕ) (qos : Qos) (u : Uplink S M) (x : Item) (q : Queue) (k : ℕ)
      (l : List (List ℕ × List ℕ))
      → (publish_raw mqtt u topic x qos false).0 ≡ success
      → l ≡ letters (broker.sent (after_ack ch topic qos u x).client) ++ addressed topic (take k q)
      → l ≡ letters (broker.sent u.client) ++ addressed topic (take (suc k) (x ∷ q))
  sent_behind ch topic qos u x q k l e h =
      h
      ∙ ap (λ l. letters l ++ addressed topic (take k q))
          (publish_raw-sent nvs broker u topic x qos false e)
      ∙ ap (λ l. l ++ addressed topic (take k q)) (letters-append (broker.sent u.client) _)
      ∙ append_assoc (letters (broker.sent u.client)) _ _

  Refused-cons :
      (ch : Channel) (topic : List ℕ) (qos : Qos) (u : Uplink S M) (x : Item) (q : Queue) (k : ℕ)
      → (publish_raw mqtt u topic x qos false).0 ≡ success
      → Refused topic q k (letters (broker.sent (after_ack ch topic qos u x).client))
      → Refused topic (x ∷ q) (suc k) (letters (broker.sent u.client))
  Refused-cons ch topic qos u x q k e f = record {
    client = f.client;
    message = f.message;
    next = f.next;
    behind = f.behind;
    why = f.why;
    left = f.left;
    on_topic = f.on_topic;
    carries = f.carries;
    handed_over = sent_behind ch topic qos u x q k _ e f.handed_over;
    refuses = f.refuses;
  }

  -- A replay that went on after the record at the front.
  Replayed-cons :
      (ch : Channel) (topic : List ℕ) (qos : Qos) (u u' : Uplink S M) (x : Item) (q : Queue)
      → (publish_raw mqtt u topic x qos false).0 ≡ success
      → Replayed ch topic q (after_ack ch topic qos u x) u'
      → Replayed ch topic (x ∷ q) u u'
  Replayed-cons ch topic qos u u' x q e r = record {
    k = suc r.k;
    sent = sent_behind ch topic qos u x q r.k _ e r.sent;
    rest = r.rest;
    complete = elim r.complete [
      | inl all ↦ inl (ap suc all)
      | inr f ↦ inr (Refused-cons ch topic qos u x q r.k e f)
    ];
  }

  -- With more fuel than records the replay of a channel ends. It has sent the first `k` records of the queue
  -- to the topic, each once, in order and behind all that was sent before, and the others are the queue;
  -- `k` is less than all of them only if the client, having been handed over just these, refuses the next.
  pub drain_channel_total :
      (fuel : ℕ) (ch : Channel) (topic : List ℕ) (qos : Qos) (u : Uplink S M) (q : Queue)
      → Represents laws ch u.fifo q
      → length q < fuel
      → (u' : Uplink S M) × (drain_channel nvs mqtt fuel ch topic qos u ≡ some u')
        × Replayed ch topic q u u'
  drain_channel_total zero ch topic qos u q r h = absurd (omega arith)
  drain_channel_total (suc fuel) ch topic qos u [] r h = (
    u,
    drain_empty fuel ch topic qos u enoent (peek_none ch u.fifo r),
    record { k = 0; sent = sym (append-nil _); rest = r; complete = inl (omega arith) },
  )
  drain_channel_total (suc fuel) ch topic qos u (x ∷ q) r h =
      elim (Done-cases (publish_raw mqtt u topic x qos false).0) [
        | inr (e, bad) ↦ (
          (publish_raw mqtt u topic x qos false).1,
          drain_failed fuel ch topic qos u x e (peek_oldest ch u.fifo x q r) bad,
          record {
            k = 0;
            sent =
                ap letters (publish_raw-unsent nvs broker u topic x qos false e bad)
                ∙ sym (append-nil _);
            rest = rw (publish_raw-fifo nvs broker u topic x qos false) r;
            complete = inr (Refused-first u topic x qos q e bad);
          },
        )
        | inl good ↦
            let (u', ends, replay) =
              drain_channel_total fuel ch topic qos (after_ack ch topic qos u x) q
                (after_ack-Represents ch topic qos u x q r) (omega arith) in
            (
              u',
              drain_next fuel ch topic qos u x (peek_oldest ch u.fifo x q r) good ∙ ends,
              Replayed-cons ch topic qos u u' x q good replay,
            )
      ]
