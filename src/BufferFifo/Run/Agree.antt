-- ===== src/BufferFifo/Run/Agree.antt =====
-- Any sequence of calls of src/buffer_fifo.c against two bounded queues, while NVS takes every write.
use telenode.Prelude.{
  ap₂, ltb, ◌||◌, ◌+◌, ◌^◌, ◌<◌, ◌≡◌, refl, ap, ◌∙◌, false, List, [], ◌∷◌, arith, length, ◌==◌, inl,
  inr, Bool-cases,
}
use telenode.Prelude.Errno.{Result, success}
use telenode.Nvs.{NvsOps, NvsLaws}
use telenode.BufferFifo.{
  max_record_len, Channel, telemetry, events, Fifo, meta_of, put, advance_tail, push, pop_ack,
}
use telenode.BufferFifo.Queue
use telenode.BufferFifo.Queue.{Item, Queue, IsItem, capacity, make_room, refuses}
use telenode.BufferFifo.View.{Represents, Persisted}
use telenode.BufferFifo.Write.{Written, stored, not_written, not_persisted}
use telenode.BufferFifo.Refine.{
  count-eq-length, is_empty-eq, peek_refines, push_writes, pop_ack_takes, push_refines,
  pop_ack_refines,
}
use telenode.BufferFifo.Apart.{Unseen, Unseen-refl, push-Unseen, pop_ack-Unseen, Represents-Unseen}
use telenode.BufferFifo.Run.{
  Call, push_call, peek_call, pop_ack_call, count_call, is_empty_call, Reply, bytes, number, flag,
  Queues, step_queues, run_queues, step, run, Faultless,
}
use telenode.BufferFifo.Run.Growth.{step-Grows, meta_persist-success, write_record-success}

module _ {S : Type 0} {nvs : NvsOps S} (laws : NvsLaws nvs) where
  -- Both channels hold their queues, in memory and in NVS.
  pub record Holding (s : Fifo S) (qs : Queues) : Type 0 where
    pub queue : (ch : Channel) → Represents laws ch s (qs ch)
    pub persisted : (ch : Channel) → Persisted laws ch s

  Holding-put :
      (ch : Channel) (s s' : Fifo S) (qs : Queues) (q : Queue)
      → Unseen laws ch s s'
      → Represents laws ch s' q
      → Persisted laws ch s'
      → Holding s qs
      → Holding s' (put qs ch q)
  Holding-put telemetry s s' qs q u r p h = record {
    queue = elim [
      | telemetry ↦ r
      | events ↦ Represents-Unseen laws telemetry s s' _ u (h.queue events)
    ];
    persisted = elim [ telemetry ↦ p | events ↦ rw u.cursors (u.stored ∙ h.persisted events) ];
  }
  Holding-put events s s' qs q u r p h = record {
    queue = elim [
      | events ↦ r
      | telemetry ↦ Represents-Unseen laws events s s' _ u (h.queue telemetry)
    ];
    persisted = elim [ events ↦ p | telemetry ↦ rw u.cursors (u.stored ∙ h.persisted telemetry) ];
  }

  Written-stored :
      (ch : Channel) (q q' : Queue) {out : Result (Unit {0}) × Fifo S}
      → Written laws ch q q' out
      → out.0 ≡ success
      → Represents laws ch out.1 q' × Persisted laws ch out.1
  Written-stored ch q q' (stored e r p) h = (r, p)
  Written-stored ch q q' (not_written y e r) h = cc
  Written-stored ch q q' (not_persisted y e r) h = cc

  push_taken :
      (ch : Channel) (q q' : Queue) (x : Item)
      → Queue.push ch q x ≡ (success, q')
      → IsItem x × (refuses ch q ≡ false)
  unfolding Queue.push
  push_taken ch q q' x h = elim (Bool-cases (length x == 0 || ltb max_record_len (length x))) [
    | inl bad ↦ cc (rw (bad, Queue.push) at h)
    | inr good ↦ elim (Bool-cases (refuses ch q)) [
      | inl full ↦ cc (rw (good, full, Queue.push) at h)
      | inr room ↦ (ground arith, room)
    ]
  ]

  push-success :
      (ch : Channel) (s : Fifo S) (q q' : Queue) (x : Item)
      → Faultless nvs
      → Represents laws ch s q
      → Queue.push ch q x ≡ (success, q')
      → (push nvs ch s x).0 ≡ success
  push-success ch s q q' x f r h =
      let (item, takes) = push_taken ch q q' x h in
      elim (push_writes laws ch s q x r item takes) [
        | inl e ↦ rw e (write_record-success nvs f ch s x)
        | inr e ↦ rw e (write_record-success nvs f ch (advance_tail ch s) x)
      ]

  pop_ack-success :
      (ch : Channel) (s : Fifo S) (q q' : Queue)
      → Faultless nvs
      → Represents laws ch s q
      → Queue.pop q ≡ (success, q')
      → (pop_ack nvs ch s).0 ≡ success
  unfolding Queue.pop
  pop_ack-success ch s [] q' f r h = cc
  pop_ack-success ch s (x ∷ q) q' f r h =
      rw (pop_ack_takes laws ch s x q r) (meta_persist-success nvs f ch (advance_tail ch s))

  -- The replies agree, and the queues hold afterwards.
  abbrev Agree : Reply × Fifo S → Reply × Queues → Type 0
  Agree out spec = (out.0 ≡ spec.0) × Holding out.1 spec.1

  push_agrees :
      (ch : Channel) (s : Fifo S) (qs : Queues) (x : Item)
      → Faultless nvs
      → Holding s qs
      → (meta_of ch s).head + 1 < 2 ^ 32
      → Agree (step nvs s (push_call ch x)) (step_queues qs (push_call ch x))
  unfolding step step_queues
  push_agrees ch s qs x f h low = elim (push_refines laws ch s (qs ch) x (h.queue ch) low) [
    | inl (e, spec, code) ↦
        rw (spec, code)
          (
            refl,
            Holding-put ch s s qs (qs ch) (Unseen-refl laws ch s) (h.queue ch) (h.persisted ch) h,
          )
    | inr (q', spec, w) ↦
        let e = push-success ch s (qs ch) q' x f (h.queue ch) spec in
        let (r, p) = Written-stored ch _ q' w e in
        rw (spec, e) (refl, Holding-put ch s _ qs q' (push-Unseen laws ch s x) r p h)
  ]

  pop_ack_agrees :
      (ch : Channel) (s : Fifo S) (qs : Queues)
      → Faultless nvs
      → Holding s qs
      → Agree (step nvs s (pop_ack_call ch)) (step_queues qs (pop_ack_call ch))
  unfolding step step_queues
  pop_ack_agrees ch s qs f h = elim (pop_ack_refines laws ch s (qs ch) (h.queue ch)) [
    | inl (spec, code) ↦
        rw (spec, code)
          (
            refl,
            Holding-put ch s s qs (qs ch) (Unseen-refl laws ch s) (h.queue ch) (h.persisted ch) h,
          )
    | inr (q', spec, w) ↦
        let e = pop_ack-success ch s (qs ch) q' f (h.queue ch) spec in
        let (r, p) = Written-stored ch _ q' w e in
        rw (spec, e) (refl, Holding-put ch s _ qs q' (pop_ack-Unseen laws ch s) r p h)
  ]

  step_agrees :
      (s : Fifo S) (qs : Queues) (c : Call)
      → Faultless nvs
      → Holding s qs
      → ((ch : Channel) → (meta_of ch s).head + 1 < 2 ^ 32)
      → Agree (step nvs s c) (step_queues qs c)
  unfolding step step_queues
  step_agrees s qs (push_call ch x) f h low = push_agrees ch s qs x f h (low ch)
  step_agrees s qs (pop_ack_call ch) f h low = pop_ack_agrees ch s qs f h
  step_agrees s qs (peek_call ch n) f h low =
      (ap bytes (peek_refines laws ch s (qs ch) n (h.queue ch)), h)
  step_agrees s qs (count_call ch) f h low =
      (ap number (count-eq-length laws ch s (qs ch) (h.queue ch)), h)
  step_agrees s qs (is_empty_call ch) f h low =
      (ap flag (is_empty-eq laws ch s (qs ch) (h.queue ch)), h)

  -- While NVS takes every write and no head cursor reaches 2 ^ 32, no sequence of calls on the two
  -- channels tells the module from two bounded queues, and it ends holding them, in NVS too.
  pub run_refines :
      (cs : List Call) (s : Fifo S) (qs : Queues)
      → Faultless nvs
      → Holding s qs
      → ((ch : Channel) → (meta_of ch s).head + length cs < 2 ^ 32)
      → ((run nvs s cs).0 ≡ (run_queues qs cs).0) × Holding (run nvs s cs).1 (run_queues qs cs).1
  unfolding run run_queues
  run_refines [] s qs f h low = (refl, h)
  run_refines (c ∷ cs) s qs f h low =
      let (e, h') = step_agrees s qs c f h (λ ch. omega (arith, low ch)) in
      let (es, h'') =
        run_refines cs (step nvs s c).1 (step_queues qs c).1 f h'
          (λ ch. omega (arith, low ch, step-Grows nvs s c ch)) in
      (ap₂ ◌∷◌ e es, h'')
