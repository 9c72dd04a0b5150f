-- ===== src/BufferFifo/Keeps.antt =====
-- How to prove that a property of the statics of src/buffer_fifo.c survives a call: by way of the
-- writes that the call may end in.
use telenode.Prelude.{Bool, true, false, not, ◌||◌, leb, ltb, ◌==◌, if◌then◌else◌, length}
use telenode.Prelude.Errno.{Result, err, eio, einval, enospc, enoent}
use telenode.Nvs.{NvsOps}
use telenode.BufferFifo.{
  Channel, Fifo, meta_of, channel_config, advance_tail, meta_persist, write_record, push, pop_ack,
  count, max_record_len,
}
use telenode.BufferFifo.Queue.{Item}

module _ {S : Type 0} (nvs : NvsOps S) (P : Fifo S → Type 0) where
  either_keeps :
      (b : Bool) (x y : Result (Unit {0}) × Fifo S) → P x.1 → P y.1 → P (if b then x else y).1
  either_keeps true x y h k = h
  either_keeps false x y h k = k

  pub push_keeps :
      (ch : Channel) (s : Fifo S) (x : Item)
      → P s
      → P (write_record nvs ch s x).1
      → P (write_record nvs ch (advance_tail ch s) x).1
      → P (push nvs ch s x).1
  unfolding push
  push_keeps ch s x h k d =
      either_keeps (not s.mounted) (err eio, s) _ h
        (either_keeps (length x == 0 || ltb max_record_len (length x)) (err einval, s) _ h
          (either_keeps (leb (channel_config ch).capacity (count ch s)) _ (write_record nvs ch s x)
            (either_keeps (not (channel_config ch).drop_oldest) (err enospc, s)
              (write_record nvs ch (advance_tail ch s) x) h d)
            k))

  pub pop_ack_keeps :
      (ch : Channel) (s : Fifo S)
      → P s
      → P (meta_persist nvs ch (advance_tail ch s)).1
      → P (pop_ack nvs ch s).1
  unfolding pop_ack
  pop_ack_keeps ch s h k =
      either_keeps (not s.mounted) (err eio, s) _ h
        (either_keeps ((meta_of ch s).head == (meta_of ch s).tail) (err enoent, s)
          (meta_persist nvs ch (advance_tail ch s)) h k)
