-- ===== src/Uplink/Replay.antt =====
-- `drain_buffered_records` of src/uplink_mqtt.c: on a reconnect the queued events go out before the
-- queued telemetry.
use telenode.Prelude.{
  ℕ, zero, suc, ◌<◌, ◌≡◌, refl, ap, ap₂, ◌∙◌, subst, false, List, ◌++◌, length, take, drop, ◌⊎◌,
  inl, inr, some,
}
use telenode.Prelude.Errno.{Done-cases, Result-cases}
use telenode.Nvs.{NvsOps, NvsLaws}
use telenode.Mqtt.{MqttOps, MqttLaws, Qos, at_most_once, at_least_once}
use telenode.BufferFifo
use telenode.BufferFifo.{Channel, telemetry, events, Fifo, meta_of, max_record_len}
use telenode.BufferFifo.Queue.{Item, Queue}
use telenode.BufferFifo.Slots.{other}
use telenode.BufferFifo.View.{Represents}
use telenode.BufferFifo.Apart.{pop_ack-Unseen, Represents-Unseen}
use telenode.Uplink.{Uplink, publish_raw, drain_channel, drain_buffered_records}
use telenode.Uplink.Publish.{publish_raw-fifo, publish_raw-topics}
use telenode.Uplink.Drain.{letters, addressed, Refused, drain_channel_total}

module _ {S M : Type 0} {nvs : NvsOps S} {mqtt : MqttOps M} (laws : NvsLaws nvs)
    (broker : MqttLaws mqtt) where
  -- What a publish and an acknowledgement keep, a replay keeps.
  drain_keeps :
      (P : Uplink S M → Type 0) (ch : Channel) (topic : List ℕ) (qos : Qos)
      → ((u : Uplink S M) (x : Item) → P u → P (publish_raw mqtt u topic x qos false).1)
      → ((u : Uplink S M) → P u → P (record u { fifo = (BufferFifo.pop_ack nvs ch u.fifo).1 }))
      → (fuel : ℕ) (u u' : Uplink S M) → P u
      → drain_channel nvs mqtt fuel ch topic qos u ≡ some u'
      → P u'
  unfolding drain_channel
  drain_keeps P ch topic qos sends acks zero u u' p h = cc
  drain_keeps P ch topic qos sends acks (suc fuel) u u' p h =
      elim (Result-cases (BufferFifo.peek nvs ch u.fifo max_record_len)) [
        | inr (e, k) ↦ let same : u ≡ u' = cc (rw (k, drain_channel) at h) in subst P same p
        | inl (x, k) ↦ elim (Done-cases (publish_raw mqtt u topic x qos false).0) [
          | inr (e, bad) ↦
              let same : (publish_raw mqtt u topic x qos false).1 ≡ u' =
                cc (rw (bad, drain_channel) at (rw (k, drain_channel) at h)) in
              subst P same (sends u x p)
          | inl good ↦
              drain_keeps P ch topic qos sends acks fuel _ u' (acks _ (sends u x p))
                (rw (good, drain_channel) at (rw (k, drain_channel) at h))
        ]
      ]

  drain_apart :
      (ch : Channel) (topic : List ℕ) (qos : Qos) (fuel : ℕ) (u u' : Uplink S M) (q : Queue)
      → Represents laws (other ch) u.fifo q
      → drain_channel nvs mqtt fuel ch topic qos u ≡ some u'
      → Represents laws (other ch) u'.fifo q
  drain_apart ch topic qos fuel u u' q =
      drain_keeps (λ v. Represents laws (other ch) v.fifo q) ch topic qos
        (λ v x r. rw (publish_raw-fifo nvs broker v topic x qos false) r)
        (λ v r. Represents-Unseen laws ch v.fifo _ q (pop_ack-Unseen laws ch v.fifo) r) fuel u u'

  drain_topics :
      (ch : Channel) (topic : List ℕ) (qos : Qos) (fuel : ℕ) (u u' : Uplink S M)
      → drain_channel nvs mqtt fuel ch topic qos u ≡ some u'
      → u'.topics ≡ u.topics
  drain_topics ch topic qos fuel u u' =
      drain_keeps (λ v. v.topics ≡ u.topics) ch topic qos
        (λ v x e. publish_raw-topics nvs broker v topic x qos false ∙ e) (λ v e. e) fuel u u' refl

  -- With more fuel than records in either queue, the replay on a reconnect ends. It has sent the
  -- first `k` events and then the first `j` telemetry records, each in order and to its topic, and
  -- what it has not sent is what the queues still hold. `k` and `j` are all the records of their queues,
  -- unless the client, having been handed over just the records before it, refuses the next one.
  pub drain_buffered_records_total :
      (fuel : ℕ) (u : Uplink S M) (qe qt : Queue)
      → Represents laws events u.fifo qe
      → Represents laws telemetry u.fifo qt
      → length qe < fuel
      → length qt < fuel
      → (u' : Uplink S M) × (k : ℕ) × (j : ℕ) × (drain_buffered_records nvs mqtt fuel u ≡ some u')
        × (letters (broker.sent u'.client)
            ≡ (letters (broker.sent u.client) ++ addressed u.topics.events_topic (take k qe))
              ++ addressed u.topics.telemetry_topic (take j qt))
        × ((k ≡ length qe)
            ⊎ Refused laws broker u.topics.events_topic qe k (letters (broker.sent u.client)))
        × ((j ≡ length qt)
            ⊎ Refused laws broker u.topics.telemetry_topic qt j
                (letters (broker.sent u.client) ++ addressed u.topics.events_topic (take k qe)))
        × Represents laws events u'.fifo (drop k qe)
        × Represents laws telemetry u'.fifo (drop j qt)
  unfolding drain_buffered_records
  drain_buffered_records_total fuel u qe qt re rt he ht =
      let (v, first, a) =
        drain_channel_total laws broker fuel events u.topics.events_topic at_least_once u qe re
          he in
      let same = drain_topics events _ _ fuel u v first in
      let rt' = drain_apart events _ _ fuel u v qt rt first in
      let (w, second, b) =
        drain_channel_total laws broker fuel telemetry v.topics.telemetry_topic at_most_once v qt
          rt' ht in
      (
        w,
        a.k,
        b.k,
        rw (first, drain_buffered_records) second,
        b.sent
            ∙ ap₂ (λ l t. l ++ addressed t (take b.k qt)) a.sent (ap (λ t. t.telemetry_topic) same),
        a.complete,
        subst
            (λ t.
              (b.k ≡ length qt)
              ⊎ Refused laws broker t qt b.k
                  (letters (broker.sent u.client) ++ addressed u.topics.events_topic (take a.k qe)))
            (ap (λ t. t.telemetry_topic) same)
            (subst (λ l. (b.k ≡ length qt) ⊎ Refused laws broker v.topics.telemetry_topic qt b.k l)
              a.sent b.complete),
        drain_apart telemetry _ _ fuel v w _ a.rest second,
        b.rest,
      )
