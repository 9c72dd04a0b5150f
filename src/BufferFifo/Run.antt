-- ===== src/BufferFifo/Run.antt =====
-- A caller's calls of src/buffer_fifo.c, in sequence and on both channels, and what it gets back; and
-- the same calls on two bounded queues.
pub mod Growth
pub mod Agree
use telenode.Prelude.{
  ap₂, ltb, ◌||◌, ℕ, ◌+◌, ◌^◌, ◌<◌, ◌≤◌, ◌≡◌, refl, ap, ◌∙◌, Bool, false, List, [], ◌∷◌, arith,
  length, ◌==◌, inl, inr, Bool-cases,
}
use telenode.Prelude.Errno.{Result, ok, success, discard, Result-cases}
use telenode.Nvs.{NvsOps, NvsLaws}
use telenode.BufferFifo.{
  max_record_len, Channel, telemetry, events, Fifo, meta_of, put, channel_config, slot_id,
  meta_bytes, meta_persist, write_record, advance_tail, advance_head, push, peek, pop_ack, count,
  is_empty,
}
use telenode.BufferFifo.Queue
use telenode.BufferFifo.Queue.{Item, Queue, IsItem, capacity, make_room, refuses}
use telenode.BufferFifo.View.{Represents, Persisted}
use telenode.BufferFifo.Write.{Written, stored, not_written, not_persisted}
use telenode.BufferFifo.Refine.{
  count-eq-length, is_empty-eq, peek_refines, push_writes, pop_ack_takes, push_refines,
  pop_ack_refines,
}
use telenode.BufferFifo.Keeps.{push_keeps, pop_ack_keeps}
use telenode.BufferFifo.Apart.{Unseen, Unseen-refl, push-Unseen, pop_ack-Unseen, Represents-Unseen}

-- A caller's call, and what it gets back.
pub data Call : Type 0 where
  push_call : Channel → Item → Call
  peek_call : Channel → ℕ → Call
  pop_ack_call : Channel → Call
  count_call : Channel → Call
  is_empty_call : Channel → Call

pub data Reply : Type 0 where
  status : Result (Unit {0}) → Reply
  bytes : Result Item → Reply
  number : ℕ → Reply
  flag : Bool → Reply

abbrev pub Queues : Type 0
Queues = Channel → Queue

-- The calls on the two queues.
pub step_queues : Queues → Call → Reply × Queues
step_queues qs (push_call ch x) = let (r, q) = Queue.push ch (qs ch) x in (status r, put qs ch q)
step_queues qs (peek_call ch n) = (bytes (Queue.peek (qs ch) n), qs)
step_queues qs (pop_ack_call ch) = let (r, q) = Queue.pop (qs ch) in (status r, put qs ch q)
step_queues qs (count_call ch) = (number (length (qs ch)), qs)
step_queues qs (is_empty_call ch) = (flag (length (qs ch) == 0), qs)

pub run_queues : Queues → List Call → List Reply × Queues
run_queues qs [] = ([], qs)
run_queues qs (c ∷ cs) =
    let (r, qs') = step_queues qs c in let (rs, qs'') = run_queues qs' cs in (r ∷ rs, qs'')

module _ {S : Type 0} (nvs : NvsOps S) where
  pub step : Fifo S → Call → Reply × Fifo S
  step s (push_call ch x) = let (r, s') = push nvs ch s x in (status r, s')
  step s (peek_call ch n) = (bytes (peek nvs ch s n), s)
  step s (pop_ack_call ch) = let (r, s') = pop_ack nvs ch s in (status r, s')
  step s (count_call ch) = (number (count ch s), s)
  step s (is_empty_call ch) = (flag (is_empty ch s), s)

  pub run : Fifo S → List Call → List Reply × Fifo S
  run s [] = ([], s)
  run s (c ∷ cs) = let (r, s') = step s c in let (rs, s'') = run s' cs in (r ∷ rs, s'')

  -- NVS takes every write.
  abbrev pub Faultless : Type 0
  Faultless = (s : S) (id : ℕ) (d : List ℕ) → (n : ℕ) × ((nvs.write s id d).0 ≡ ok n)
