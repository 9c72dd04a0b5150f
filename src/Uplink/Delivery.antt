-- ===== src/Uplink/Delivery.antt =====
-- What src/uplink_mqtt.c promises of an event: `uplink_mqtt_publish_event` never loses one that it
-- answers 0 for.
use telenode.Prelude.{
  ◌+◌, ◌^◌, ◌<◌, ◌≡◌, ◌⊎◌, refl, sym, ap, ◌∙◌, subst, false, [], ◌∷◌, ◌++◌, inl, inr, arith,
}
use telenode.Prelude.Errno.{Errno, Result, err, success, emsgsize}
use telenode.Nvs.{NvsOps, NvsLaws}
use telenode.Mqtt.{MqttOps, MqttLaws, at_least_once}
use telenode.BufferFifo
use telenode.BufferFifo.{events, Fifo, meta_of, max_record_len}
use telenode.BufferFifo.Queue
use telenode.BufferFifo.Queue.{Item, Queue, IsItem}
use telenode.BufferFifo.View.{Represents}
use telenode.BufferFifo.Write.{stored, not_written, not_persisted}
use telenode.BufferFifo.Refine.{push_refines}
use telenode.Uplink.{Uplink, publish_param, publish_event}
use telenode.Uplink.Publish.{too_long, handed_over, buffered, publish_or_buffer-Outcome}

-- A record that the queue of events takes stands at its end.
queue_of_push :
    (q q' : Queue) (x : Item) → Queue.push events q x ≡ (success, q') → q' ≡ q ++ (x ∷ [])
unfolding Queue.push
queue_of_push q q' x h = ground arith

module _ {S M : Type 0} {nvs : NvsOps S} {mqtt : MqttOps M} (laws : NvsLaws nvs)
    (broker : MqttLaws mqtt) where
  -- Where an event is after the call. On the wire: handed over after all that was sent before, the
  -- queue as it was. Queued: nothing sent, and the event last in the queue. Failed: an errno,
  -- nothing sent, and the queue as it was but perhaps for the event at its end.
  pub data EventOutcome (u : Uplink S M) (q : Queue) (payload : Item)
      (out : Result (Unit {0}) × Uplink S M) : Type 0 where
    on_the_wire :
        out.0 ≡ success
        → broker.sent out.1.client
          ≡ broker.sent u.client
            ++ (publish_param u u.topics.events_topic payload at_least_once false ∷ [])
        → Represents laws events out.1.fifo q
        → EventOutcome u q payload out
    queued :
        out.0 ≡ success
        → broker.sent out.1.client ≡ broker.sent u.client
        → Represents laws events out.1.fifo (q ++ (payload ∷ []))
        → EventOutcome u q payload out
    failed :
        (e : Errno)
        → out.0 ≡ err e
        → broker.sent out.1.client ≡ broker.sent u.client
        → Represents laws events out.1.fifo q
          ⊎ Represents laws events out.1.fifo (q ++ (payload ∷ []))
        → EventOutcome u q payload out

  pub buffered_outcome :
      (u : Uplink S M) (q : Queue) (payload : Item) (out : Result (Unit {0}) × Uplink S M)
      → Represents laws events u.fifo q
      → (meta_of events u.fifo).head + 1 < 2 ^ 32
      → out.0 ≡ (BufferFifo.push nvs events u.fifo payload).0
      → out.1.fifo ≡ (BufferFifo.push nvs events u.fifo payload).1
      → broker.sent out.1.client ≡ broker.sent u.client
      → EventOutcome u q payload out
  buffered_outcome u q payload out r low code fifo same =
      elim (push_refines laws events u.fifo q payload r low) [
        | inl (e, _, refused) ↦
            failed e (code ∙ ap (λ p. p.0) refused) same
              (inl (subst (λ f. Represents laws events f q) (sym (fifo ∙ ap (λ p. p.1) refused)) r))
        | inr (q', spec, stored done r' p) ↦
            queued (code ∙ done) same (rw (fifo, ← queue_of_push q q' payload spec) r')
        | inr (q', spec, not_written e f r') ↦ failed e (code ∙ f) same (inl (rw fifo r'))
        | inr (q', spec, not_persisted e f r') ↦
            failed e (code ∙ f) same (inr (rw (fifo, ← queue_of_push q q' payload spec) r'))
      ]

  -- With the events ring holding a queue, and its head cursor below its wrap, `uplink_mqtt_publish_event`
  -- answers 0 and has handed the event over after all that was sent before, or answers 0 and has put it
  -- last in the queue, or answers an errno with nothing sent and nothing queued but perhaps the event.
  pub publish_event_outcome :
      (u : Uplink S M) (q : Queue) (payload : Item)
      → Represents laws events u.fifo q
      → (meta_of events u.fifo).head + 1 < 2 ^ 32
      → EventOutcome u q payload (publish_event nvs mqtt u payload)
  unfolding publish_event
  publish_event_outcome u q payload r low =
      elim (publish_or_buffer-Outcome nvs broker events u u.topics.events_topic at_least_once
        payload) [
          | too_long long e ↦ rw e (failed emsgsize refl refl (inl r))
          | handed_over fits up done fifo sent ↦ on_the_wire done sent (rw fifo r)
          | buffered fits why code fifo same ↦ buffered_outcome u q payload _ r low code fifo same
        ]
