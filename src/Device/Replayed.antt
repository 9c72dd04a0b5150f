-- ===== src/Device/Replayed.antt =====
-- The steps of a replay keep what Device/Kept.antt says of the events.
use telenode.Prelude.{
  ◌≡◌, inl, inr, refl, sym, ap, subst, ◌∙◌, false, List, [], ◌∷◌, ◌++◌, All, Any, All-map,
  Any-append_right, append-nil,
}
use telenode.Prelude.Errno.{ok, success}
use telenode.Nvs.{NvsOps, NvsLaws}
use telenode.BufferFifo
use telenode.BufferFifo.{Channel, telemetry, events, meta_of, max_record_len}
use telenode.BufferFifo.Apart.{pop_ack-Unseen, Represents-Unseen}
use telenode.BufferFifo.Queue.{Item, Queue}
use telenode.BufferFifo.Refine.{pop_ack-Written}
use telenode.BufferFifo.View.{Represents}
use telenode.Mqtt.{WireLaws, MqttOps, ConnectOps, PublishParam, at_least_once}
use telenode.Uplink.{Uplink, Topics, publish_raw, publish_param}
use telenode.Uplink.Drain.{peek_oldest, peek_none, Written-same}
use telenode.Uplink.Publish.{publish_raw-topics, publish_raw-fifo, publish_raw-sent}
use telenode.Device.{peeking, acking, sending}
use telenode.Device.Kept.{IsCarried, IsSafe, IsPlaced, Keeps, IsSafe-more}

module _ {S M : Type 0} {nvs : NvsOps S} {mqtt : MqttOps M} {conn : ConnectOps M}
    (laws : NvsLaws nvs) (wire : WireLaws mqtt conn) (topics : Topics) where
  -- The record that `drain_channel` peeks is the oldest one.
  pub peeked-Keeps :
      (history : List Item) (u : Uplink S M) (bytes : Item)
      → BufferFifo.peek nvs events u.fifo max_record_len ≡ ok bytes
      → Keeps laws wire topics history (peeking events) u
      → Keeps laws wire topics history (sending events bytes) u
  peeked-Keeps history u bytes e k =
      elim k.queue as (λ q. k.queue ≡ q → Keeps laws wire topics history (sending events bytes) u) [
        | [] ↦ λ x.
            let none_left =
              peek_none laws wire.base events u.fifo
                (subst (Represents laws events u.fifo) x k.represents) in
            cc
        | y ∷ q ↦ λ x.
            let oldest =
              peek_oldest laws wire.base events u.fifo y q
                (subst (Represents laws events u.fifo) x k.represents) in
            record {
              queue = k.queue;
              represents = k.represents;
              same_topics = k.same_topics;
              safe = k.safe;
              placed = rw x cc;
            }
      ]
        refl

  carried :
      (q : Queue) (bytes : Item) (sent more : List PublishParam)
      → IsPlaced laws wire topics (sending events bytes) q sent
      → Any (IsCarried laws wire topics bytes) more
      → IsPlaced laws wire topics (acking events) q (sent ++ more)
  carried [] bytes sent more h c = h
  carried (y ∷ q) bytes sent more h c =
      Any-append_right (IsCarried laws wire topics y) sent more
        (subst (λ x. Any (IsCarried laws wire topics x) more) (sym h) c)

  -- A record that was handed over may be acknowledged.
  pub sent-Keeps :
      (history : List Item) (u : Uplink S M) (bytes : Item)
      → (publish_raw mqtt u u.topics.events_topic bytes at_least_once false).0 ≡ success
      → Keeps laws wire topics history (sending events bytes) u
      → Keeps laws wire topics history
          (acking events)
          (publish_raw mqtt u u.topics.events_topic bytes at_least_once false).1
  sent-Keeps history u bytes done k =
      let topic = u.topics.events_topic in
      let sent = wire.base.sent u.client in
      let e = publish_raw-sent nvs wire.base u topic bytes at_least_once false done in
      let fifo = publish_raw-fifo nvs wire.base u topic bytes at_least_once false in
      let t = publish_raw-topics nvs wire.base u topic bytes at_least_once false in
      let more : List PublishParam = publish_param u topic bytes at_least_once false ∷ [] in
      record {
        queue = k.queue;
        represents = rw fifo k.represents;
        same_topics = t ∙ k.same_topics;
        safe = rw e (
            All-map (IsSafe laws wire topics sent k.queue) _ history
              (λ x h.
                subst (λ q. IsSafe laws wire topics (sent ++ more) q x) (append-nil k.queue)
                  (IsSafe-more laws wire topics sent more k.queue [] x h))
              k.safe);
        placed = rw e (
            carried k.queue bytes sent more k.placed
              (inl (ap (λ y. y.events_topic) k.same_topics, refl)));
      }

  -- What is safe with the oldest record handed over is safe without it in the queue.
  IsSafe-rest :
      (sent : List PublishParam) (x : Item) (q : Queue) (y : Item)
      → Any (IsCarried laws wire topics x) sent
      → IsSafe laws wire topics sent (x ∷ q) y
      → IsSafe laws wire topics sent q y
  IsSafe-rest sent x q y c (inl h) = inl h
  IsSafe-rest sent x q y c (inr (inl e)) =
      inl (subst (λ z. Any (IsCarried laws wire topics z) sent) (sym e) c)
  IsSafe-rest sent x q y c (inr (inr h)) = inr h

  pub acked-Keeps :
      (history : List Item) (u : Uplink S M)
      → Keeps laws wire topics history (acking events) u
      → Keeps laws wire topics history
          (peeking events)
          (record u { fifo = (BufferFifo.pop_ack nvs events u.fifo).1 })
  acked-Keeps history u k =
      elim k.queue
          as (λ q.
            k.queue ≡ q
            → Keeps laws wire topics history (peeking events)
                (record u { fifo = (BufferFifo.pop_ack nvs events u.fifo).1 })) [
                  | [] ↦ λ e. absurd (
                      subst
                        (λ q. IsPlaced laws wire topics (acking events) q (wire.base.sent u.client))
                        e k.placed)
                  | x ∷ q ↦ λ e.
                      let sent = wire.base.sent u.client in
                      let c =
                        subst (λ z. IsPlaced laws wire topics (acking events) z sent) e k.placed in
                      record {
                        queue = q;
                        represents = Written-same laws wire.base events q (
                            pop_ack-Written laws events u.fifo x q
                              (subst (Represents laws events u.fifo) e k.represents));
                        same_topics = k.same_topics;
                        safe =
                            All-map (IsSafe laws wire topics sent (x ∷ q))
                              (IsSafe laws wire topics sent q) history
                              (λ y h. IsSafe-rest sent x q y c h)
                              (subst (λ z. All (IsSafe laws wire topics sent z) history) e k.safe);
                        placed = tt;
                      }
                ]
        refl

  -- An acknowledgement of telemetry leaves the events alone.
  pub acked_telemetry-Keeps :
      (history : List Item) (u : Uplink S M)
      → Keeps laws wire topics history (acking telemetry) u
      → Keeps laws wire topics history
          (peeking telemetry)
          (record u { fifo = (BufferFifo.pop_ack nvs telemetry u.fifo).1 })
  acked_telemetry-Keeps history u k = record {
    queue = k.queue;
    represents =
        Represents-Unseen laws telemetry u.fifo _ k.queue (pop_ack-Unseen laws telemetry u.fifo)
          k.represents;
    same_topics = k.same_topics;
    safe = k.safe;
    placed = tt;
  }
