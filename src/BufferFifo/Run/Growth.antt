-- ===== src/BufferFifo/Run/Growth.antt =====
-- Cursors and results of the calls of src/buffer_fifo.c: a call moves a head by one at most, and where
-- NVS takes every write, a call that the queue allows succeeds.
use telenode.Prelude.{◌+◌, ◌≤◌, ◌≡◌, refl, ap, arith, inl, inr}
use telenode.Prelude.Errno.{success, discard, Result-cases}
use telenode.Nvs.{NvsOps}
use telenode.BufferFifo.{
  Channel, telemetry, events, Fifo, meta_of, channel_config, slot_id, meta_bytes, meta_persist,
  write_record, advance_tail, advance_head, push, pop_ack,
}
use telenode.BufferFifo.Queue.{Item}
use telenode.BufferFifo.Keeps.{push_keeps, pop_ack_keeps}
use telenode.BufferFifo.Run.{
  Call, push_call, peek_call, pop_ack_call, count_call, is_empty_call, step, Faultless,
}

module _ {S : Type 0} (nvs : NvsOps S) where
  -- A call moves a head cursor on by one at most.
  abbrev pub Grows : (s s' : Fifo S) → Type 0
  Grows s s' = (c : Channel) → (meta_of c s').head ≤ (meta_of c s).head + 1

  pub advance_head-Grows :
      (ch : Channel) (s s' : Fifo S)
      → ((c : Channel) → (meta_of c s').head ≡ (meta_of c s).head)
      → Grows s (advance_head ch s')
  advance_head-Grows telemetry s s' e telemetry = omega (arith, e telemetry)
  advance_head-Grows telemetry s s' e events = omega (arith, e events)
  advance_head-Grows events s s' e telemetry = omega (arith, e telemetry)
  advance_head-Grows events s s' e events = omega (arith, e events)

  advance_tail-head :
      (ch : Channel) (s : Fifo S) (c : Channel)
      → (meta_of c (advance_tail ch s)).head ≡ (meta_of c s).head
  advance_tail-head telemetry s telemetry = refl
  advance_tail-head telemetry s events = refl
  advance_tail-head events s telemetry = refl
  advance_tail-head events s events = refl

  write_record-Grows :
      (ch : Channel) (s s' : Fifo S) (x : Item)
      → ((c : Channel) → (meta_of c s').head ≡ (meta_of c s).head)
      → Grows s (write_record nvs ch s' x).1
  unfolding write_record meta_persist
  write_record-Grows ch s s' x e =
      elim (Result-cases (nvs.write s'.fs (slot_id ch (meta_of ch s').head) x).0) [
        | inl (n, h) ↦
            rw (h, write_record)
              (advance_head-Grows ch s
                (record s' { fs = (nvs.write s'.fs (slot_id ch (meta_of ch s').head) x).1 }) e)
        | inr (y, h) ↦ rw (h, write_record) (λ c. omega (arith, e c))
      ]

  push-Grows : (ch : Channel) (s : Fifo S) (x : Item) → Grows s (push nvs ch s x).1
  push-Grows ch s x =
      push_keeps nvs (Grows s) ch s x (λ c. omega arith) (write_record-Grows ch s s x (λ c. refl))
        (write_record-Grows ch s (advance_tail ch s) x (advance_tail-head ch s))

  pop_ack-Grows : (ch : Channel) (s : Fifo S) → Grows s (pop_ack nvs ch s).1
  unfolding meta_persist
  pop_ack-Grows ch s =
      pop_ack_keeps nvs (Grows s) ch s (λ c. omega arith)
        (λ c. omega (arith, advance_tail-head ch s c))

  pub step-Grows : (s : Fifo S) (c : Call) → Grows s (step nvs s c).1
  unfolding step
  step-Grows s (push_call ch x) = push-Grows ch s x
  step-Grows s (pop_ack_call ch) = pop_ack-Grows ch s
  step-Grows s (peek_call ch n) = λ c. omega arith
  step-Grows s (count_call ch) = λ c. omega arith
  step-Grows s (is_empty_call ch) = λ c. omega arith

  pub meta_persist-success :
      Faultless nvs → (ch : Channel) (s : Fifo S) → (meta_persist nvs ch s).0 ≡ success
  unfolding meta_persist
  meta_persist-success f ch s =
      ap discard (f s.fs (channel_config ch).meta_id (meta_bytes (meta_of ch s))).1

  pub write_record-success :
      Faultless nvs → (ch : Channel) (s : Fifo S) (x : Item) → (write_record nvs ch s x).0 ≡ success
  unfolding write_record
  write_record-success f ch s x =
      rw ((f s.fs (slot_id ch (meta_of ch s).head) x).1, write_record) (meta_persist-success f ch _)
