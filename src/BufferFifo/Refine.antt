-- ===== src/BufferFifo/Refine.antt =====
-- Each call of src/buffer_fifo.c against the bounded queue of `Queue`.
use telenode.Prelude.{
  refl, ◌||◌, ◌==◌, ltb, ℕ, ◌+◌, ◌^◌, ◌<◌, ◌≤◌, ◌≡◌, ◌⊎◌, true, false, [], ◌∷◌, ◌++◌, arith, length,
  leb, ◌==◌, take_all, inl, inr, Bool-cases, leb→le,
}
use telenode.Prelude.Errno.{Errno, success, err, enospc, enoent, einval}
use telenode.Nvs.{NvsOps, NvsLaws}
use telenode.BufferFifo.{
  Channel, telemetry, events, Fifo, meta_of, slot_id, advance_tail, max_record_len, count, is_empty,
  push, peek, peek_read, pop_ack, write_record, meta_persist,
}
use telenode.BufferFifo.Queue
use telenode.BufferFifo.Queue.{Item, Queue, IsItem, capacity, make_room, refuses}
use telenode.BufferFifo.View.{Represents}
use telenode.BufferFifo.Write.{
  Written, meta_persist-Written, advance_tail-Represents, write_record-Written,
}

module _ {S : Type 0} {nvs : NvsOps S} (laws : NvsLaws nvs) where
  -- `buffer_fifo_count` is the length of the queue.
  pub count-eq-length :
      (ch : Channel) (s : Fifo S) (q : Queue) → Represents laws ch s q → count ch s ≡ length q
  unfolding count
  count-eq-length ch s q r = omega (arith, r.cursors, r.no_wrap)

  -- `buffer_fifo_is_empty` tells the empty queue.
  pub is_empty-eq :
      (ch : Channel) (s : Fifo S) (q : Queue)
      → Represents laws ch s q
      → is_empty ch s ≡ (length q == 0)
  unfolding is_empty
  is_empty-eq ch s q r = ground (arith, r.cursors)

  -- `buffer_fifo_peek` returns the oldest record and no other, and says when the buffer is small.
  pub peek_refines :
      (ch : Channel) (s : Fifo S) (q : Queue) (n : ℕ)
      → Represents laws ch s q
      → peek nvs ch s n ≡ Queue.peek q n
  unfolding peek peek_read Queue.peek
  peek_refines ch s [] n r = ground (arith, r.cursors)
  peek_refines ch s (x ∷ q) n r = ground (
    arith,
    r.cursors,
    r.mounted,
    laws.read_entry s.fs (slot_id ch (meta_of ch s).tail) n x r.holds.0,
    take_all n x,
  )

  pub pop_ack_takes :
      (ch : Channel) (s : Fifo S) (x : Item) (q : Queue)
      → Represents laws ch s (x ∷ q)
      → pop_ack nvs ch s ≡ meta_persist nvs ch (advance_tail ch s)
  unfolding pop_ack
  pop_ack_takes ch s x q r = ground (arith, r.mounted, r.cursors)

  -- `buffer_fifo_pop_ack` removes the oldest record, in memory even where NVS fails.
  pub pop_ack-Written :
      (ch : Channel) (s : Fifo S) (x : Item) (q : Queue)
      → Represents laws ch s (x ∷ q)
      → Written laws ch q q (pop_ack nvs ch s)
  pop_ack-Written ch s x q r =
      rw (pop_ack_takes ch s x q r)
        (meta_persist-Written laws ch _ q q (advance_tail-Represents laws ch s q x r))

  pub pop_ack-empty :
      (ch : Channel) (s : Fifo S) → Represents laws ch s [] → pop_ack nvs ch s ≡ (err enoent, s)
  unfolding pop_ack
  pop_ack-empty ch s r = ground (arith, r.mounted, r.cursors)

  push_room :
      (ch : Channel) (s : Fifo S) (q : Queue) (x : Item)
      → Represents laws ch s q
      → IsItem x
      → length q < capacity ch
      → push nvs ch s x ≡ write_record nvs ch s x
  unfolding push
  push_room ch s q x r item room = ground (arith, r.mounted, count-eq-length ch s q r)

  push_full :
      (s : Fifo S) (q : Queue) (x : Item)
      → Represents laws telemetry s q
      → IsItem x
      → capacity telemetry ≤ length q
      → push nvs telemetry s x ≡ write_record nvs telemetry (advance_tail telemetry s) x
  unfolding push
  push_full s q x r item full = ground (arith, r.mounted, count-eq-length telemetry s q r)

  pub push_refused :
      (ch : Channel) (s : Fifo S) (q : Queue) (x : Item)
      → Represents laws ch s q
      → IsItem x
      → refuses ch q ≡ true
      → push nvs ch s x ≡ (err enospc, s)
  unfolding push
  push_refused telemetry s q x r item full = cc
  push_refused events s q x r item full = ground (arith, r.mounted, count-eq-length events s q r)

  pub push_bad_length :
      (ch : Channel) (s : Fifo S) (q : Queue) (x : Item)
      → Represents laws ch s q
      → (length x ≡ 0) ⊎ (max_record_len < length x)
      → push nvs ch s x ≡ (err einval, s)
  unfolding push
  push_bad_length ch s q x r bad = ground (arith, r.mounted)

  push_telemetry :
      (s : Fifo S) (q : Queue) (x : Item)
      → Represents laws telemetry s q
      → (meta_of telemetry s).head + 1 < 2 ^ 32
      → IsItem x
      → Written laws telemetry
          (make_room telemetry q)
          (make_room telemetry q ++ (x ∷ []))
          (push nvs telemetry s x)
  push_telemetry s [] x r low item =
      rw (push_room telemetry s [] x r item (omega arith))
        (write_record-Written laws telemetry s [] x (omega arith) low item r)
  push_telemetry s (y ∷ q) x r low item =
      elim (Bool-cases (leb (capacity telemetry) (length (y ∷ q)))) [
        | inl full ↦
            rw (full, push_full s (y ∷ q) x r item (leb→le _ _ full))
              (write_record-Written laws telemetry (advance_tail telemetry s) q x
                (omega (arith, r.fits)) low item (advance_tail-Represents laws telemetry s q y r))
        | inr room ↦
            rw (room, push_room telemetry s (y ∷ q) x r item (ground arith))
              (write_record-Written laws telemetry s (y ∷ q) x (ground arith) low item r)
      ]

  -- Where the channel takes the record, the call ends in a write, with room made or not.
  pub push_writes :
      (ch : Channel) (s : Fifo S) (q : Queue) (x : Item)
      → Represents laws ch s q
      → IsItem x
      → refuses ch q ≡ false
      → (push nvs ch s x ≡ write_record nvs ch s x)
        ⊎ (push nvs ch s x ≡ write_record nvs ch (advance_tail ch s) x)
  push_writes telemetry s q x r item takes =
      elim (Bool-cases (leb (capacity telemetry) (length q))) [
        | inl full ↦ inr (push_full s q x r item (leb→le _ _ full))
        | inr room ↦ inl (push_room telemetry s q x r item (ground arith))
      ]
  push_writes events s q x r item takes = inl (push_room events s q x r item (ground arith))

  -- A push that the channel takes: the queue with room made and the record at its end, or the
  -- driver's errno.
  pub push-Written :
      (ch : Channel) (s : Fifo S) (q : Queue) (x : Item)
      → Represents laws ch s q
      → (meta_of ch s).head + 1 < 2 ^ 32
      → IsItem x
      → refuses ch q ≡ false
      → Written laws ch (make_room ch q) (make_room ch q ++ (x ∷ [])) (push nvs ch s x)
  push-Written telemetry s q x r low item takes = push_telemetry s q x r low item
  push-Written events s q x r low item takes =
      let room : length q < capacity events = ground arith in
      rw (push_room events s q x r item room)
        (write_record-Written laws events s q x room low item r)

  -- `buffer_fifo_push` in all its cases. Where the queue refuses the record, the call returns the
  -- queue's errno and changes nothing. Where the queue takes it, the call has made room for the
  -- record and ends in one of the three ways of `Written`.
  pub push_refines :
      (ch : Channel) (s : Fifo S) (q : Queue) (x : Item)
      → Represents laws ch s q
      → (meta_of ch s).head + 1 < 2 ^ 32
      → ((e : Errno) × (Queue.push ch q x ≡ (err e, q)) × (push nvs ch s x ≡ (err e, s)))
        ⊎ ((q' : Queue) × (Queue.push ch q x ≡ (success, q'))
            × Written laws ch (make_room ch q) q' (push nvs ch s x))
  unfolding Queue.push
  push_refines ch s q x r low = elim (Bool-cases (length x == 0 || ltb max_record_len (length x))) [
    | inl bad ↦ inl (einval, rw bad, push_bad_length ch s q x r (ground arith))
    | inr good ↦ elim (Bool-cases (refuses ch q)) [
      | inl full ↦ inl (enospc, rw (good, full), push_refused ch s q x r (ground arith) full)
      | inr room ↦ inr (
        make_room ch q ++ (x ∷ []),
        rw (good, room),
        push-Written ch s q x r low (ground arith) room,
      )
    ]
  ]

  -- `buffer_fifo_pop_ack` in all its cases: `-ENOENT` and nothing changed on an empty queue, else
  -- the oldest record is gone, and where the metadata could not be written an errno says so.
  pub pop_ack_refines :
      (ch : Channel) (s : Fifo S) (q : Queue)
      → Represents laws ch s q
      → ((Queue.pop q ≡ (err enoent, q)) × (pop_ack nvs ch s ≡ (err enoent, s)))
        ⊎ ((q' : Queue) × (Queue.pop q ≡ (success, q')) × Written laws ch q' q' (pop_ack nvs ch s))
  unfolding Queue.pop
  pop_ack_refines ch s [] r = inl (refl, pop_ack-empty ch s r)
  pop_ack_refines ch s (x ∷ q) r = inr (q, refl, pop_ack-Written ch s x q r)
