-- ===== src/BufferFifo/Write.antt =====
-- The writes of src/buffer_fifo.c to NVS and what they leave of the queues: the slot, then the
-- metadata, each of which may fail.
use telenode.Prelude.{
  ℕ, ◌+◌, ◌^◌, ◌<◌, ◌≤◌, ◌≡◌, refl, sym, ap, true, ◌∙◌, subst, [], ◌∷◌, ◌++◌, arith, length, All,
  All-append, length-append, inl, inr,
}
use telenode.Prelude.Errno.{Errno, Result, ok, err, success, Done-cases, Result-cases, discard-ok}
use telenode.Nvs.{NvsOps, NvsLaws}
use telenode.BufferFifo.{
  Channel, telemetry, events, Fifo, Meta, meta_of, with_meta, put, advance_head, advance_tail,
  channel_config, slot_id, meta_bytes, meta_persist, write_record,
}
use telenode.BufferFifo.Queue.{Item, Queue, IsItem, capacity}
use telenode.BufferFifo.Slots.{slot-ne, slot-ne-meta}
use telenode.BufferFifo.View.{Holds, Holds-same, Holds-append, Represents, Persisted}

pub put_self {ℓ} : {A : Type ℓ} (f : Channel → A) (ch : Channel) (m : A) → put f ch m ch ≡ m
put_self f telemetry m = refl
put_self f events m = refl

module _ {S : Type 0} {nvs : NvsOps S} (laws : NvsLaws nvs) where
  -- Another file system that reads alike at the slots of the queue.
  pub Represents-fs :
      (ch : Channel) (s : Fifo S) (fs : S) (q : Queue)
      → ((i : ℕ)
          → i < length q
          → laws.entry fs (slot_id ch ((meta_of ch s).tail + i))
            ≡ laws.entry s.fs (slot_id ch ((meta_of ch s).tail + i)))
      → Represents laws ch s q
      → Represents laws ch (record s { fs = fs }) q
  Represents-fs ch s fs q same r = record {
    mounted = r.mounted;
    cursors = r.cursors;
    no_wrap = r.no_wrap;
    fits = r.fits;
    items = r.items;
    holds = Holds-same laws ch s.fs fs (meta_of ch s).tail q same r.holds;
  }

  -- Writing the metadata leaves the queues of both channels.
  pub meta_persist-Represents :
      (ch c : Channel) (s : Fifo S) (q : Queue)
      → Represents laws c s q
      → Represents laws c (meta_persist nvs ch s).1 q
  unfolding meta_persist
  meta_persist-Represents ch c s q r =
      Represents-fs c s _ q (λ i h. laws.write_apart _ _ _ _ (λ e. slot-ne-meta c ch _ (sym e))) r

  pub meta_persist-Persisted :
      (ch : Channel) (s : Fifo S)
      → (meta_persist nvs ch s).0 ≡ success
      → Persisted laws ch (meta_persist nvs ch s).1
  unfolding meta_persist
  meta_persist-Persisted ch s h =
      let (n, e) =
        discard-ok (nvs.write s.fs (channel_config ch).meta_id (meta_bytes (meta_of ch s))).0 h in
      laws.write_stores _ _ n _ e

  -- What a write to a channel that held `q` comes to: the new queue `q'`, in memory and in NVS; or
  -- an errno and the old queue; or an errno and the new queue, in memory alone.
  pub data Written (ch : Channel) (q q' : Queue) (out : Result (Unit {0}) × Fifo S) : Type 0 where
    stored :
        out.0 ≡ success
        → Represents laws ch out.1 q'
        → Persisted laws ch out.1
        → Written ch q q' out
    not_written : (e : Errno) → out.0 ≡ err e → Represents laws ch out.1 q → Written ch q q' out
    not_persisted : (e : Errno) → out.0 ≡ err e → Represents laws ch out.1 q' → Written ch q q' out

  pub meta_persist-Written :
      (ch : Channel) (s : Fifo S) (q q' : Queue)
      → Represents laws ch s q'
      → Written ch q q' (meta_persist nvs ch s)
  meta_persist-Written ch s q q' r = elim (Done-cases (meta_persist nvs ch s).0) [
    | inl e ↦ stored e (meta_persist-Represents ch ch s q' r) (meta_persist-Persisted ch s e)
    | inr (x, e) ↦ not_persisted x e (meta_persist-Represents ch ch s q' r)
  ]

  -- The queue after the cursors of its channel have become `m`.
  pub Represents-with_meta :
      (ch : Channel) (s : Fifo S) (m : Meta) (q : Queue)
      → s.mounted ≡ true
      → m.head ≡ m.tail + length q
      → m.head < 2 ^ 32
      → length q ≤ capacity ch
      → All IsItem q
      → Holds laws ch s.fs m.tail q
      → Represents laws ch (with_meta ch s m) q
  Represents-with_meta ch s m q mounted cursors no_wrap fits items holds = record {
    mounted = mounted;
    cursors = rw (put_self s.channel_meta ch m) cursors;
    no_wrap = rw (put_self s.channel_meta ch m) no_wrap;
    fits = fits;
    items = items;
    holds = rw (put_self s.channel_meta ch m) holds;
  }

  -- `meta->head++`, over a slot that holds the new record.
  pub advance_head-Represents :
      (ch : Channel) (s : Fifo S) (q : Queue) (x : Item)
      → length q < capacity ch
      → (meta_of ch s).head + 1 < 2 ^ 32
      → IsItem x
      → laws.entry s.fs (slot_id ch (meta_of ch s).head) ≡ ok x
      → Represents laws ch s q
      → Represents laws ch (advance_head ch s) (q ++ (x ∷ []))
  advance_head-Represents ch s q x room low item e r =
      Represents-with_meta ch s _ (q ++ (x ∷ [])) r.mounted
        (omega (arith, length-append q (x ∷ []), r.cursors)) (omega arith)
        (omega (arith, length-append q (x ∷ []))) (All-append IsItem q (x ∷ []) r.items (item, tt))
        (Holds-append laws ch s.fs (meta_of ch s).tail q x r.holds
          (subst (λ k. laws.entry s.fs (slot_id ch k) ≡ ok x) r.cursors e))

  -- `meta->tail++`: the oldest record is gone.
  pub advance_tail-Represents :
      (ch : Channel) (s : Fifo S) (q : Queue) (x : Item)
      → Represents laws ch s (x ∷ q)
      → Represents laws ch (advance_tail ch s) q
  advance_tail-Represents ch s q x r =
      Represents-with_meta ch s _ q r.mounted (omega (arith, r.cursors, r.no_wrap)) r.no_wrap
        (omega (arith, r.fits)) r.items.1
        (subst (λ t. Holds laws ch s.fs t q) (omega (arith, r.cursors, r.no_wrap)) r.holds.1)

  -- Writing the slot at the head leaves a queue that is not full.
  pub write_slot-Represents :
      (ch : Channel) (s : Fifo S) (q : Queue) (x : Item)
      → length q < capacity ch
      → Represents laws ch s q
      → Represents laws ch
          (record s { fs = (nvs.write s.fs (slot_id ch (meta_of ch s).head) x).1 })
          q
  write_slot-Represents ch s q x room r =
      Represents-fs ch s _ q
        (λ i h. laws.write_apart _ _ _ _ (λ e.
          slot-ne ch (meta_of ch s).tail i (length q) h room (sym e ∙ ap (slot_id ch) r.cursors)))
        r

  -- The end of `buffer_fifo_push`, with a slot free.
  pub write_record-Written :
      (ch : Channel) (s : Fifo S) (q : Queue) (x : Item)
      → length q < capacity ch
      → (meta_of ch s).head + 1 < 2 ^ 32
      → IsItem x
      → Represents laws ch s q
      → Written ch q (q ++ (x ∷ [])) (write_record nvs ch s x)
  unfolding write_record
  write_record-Written ch s q x room low item r =
      elim (Result-cases (nvs.write s.fs (slot_id ch (meta_of ch s).head) x).0) [
        | inl (n, e) ↦
            rw (e, write_record)
              (meta_persist-Written ch _ q (q ++ (x ∷ [])) (
                advance_head-Represents ch
                  (record s { fs = (nvs.write s.fs (slot_id ch (meta_of ch s).head) x).1 }) q x room
                  low item (laws.write_stores _ _ n _ e) (write_slot-Represents ch s q x room r)))
        | inr (y, e) ↦
            rw (e, write_record) (not_written y refl (write_slot-Represents ch s q x room r))
      ]
