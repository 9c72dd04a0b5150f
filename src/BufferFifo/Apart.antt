-- ===== src/BufferFifo/Apart.antt =====
-- The two rings of src/buffer_fifo.c are independent: no call on one channel touches the other.
use telenode.Prelude.{ℕ, ◌≡◌, refl, sym, ◌∙◌, inl, inr}
use telenode.Prelude.Errno.{Result-cases}
use telenode.Nvs.{NvsOps, NvsLaws}
use telenode.BufferFifo.{
  Channel, telemetry, events, Fifo, Meta, meta_of, put, with_meta, channel_config, slot_id,
  meta_persist, write_record, push, pop_ack,
}
use telenode.BufferFifo.Queue.{Item, Queue}
use telenode.BufferFifo.Slots.{other, slot-ne-other, slot-ne-meta, meta-ne-other}
use telenode.BufferFifo.Keeps.{push_keeps, pop_ack_keeps}
use telenode.BufferFifo.View.{Holds-same, Represents, Persisted}

pub put-other {ℓ} :
    {A : Type ℓ} (f : Channel → A) (ch : Channel) (m : A) → put f ch m (other ch) ≡ f (other ch)
put-other f telemetry m = refl
put-other f events m = refl

module _ {S : Type 0} {nvs : NvsOps S} (laws : NvsLaws nvs) where
  -- What the other channel of `ch` sees of a change of the statics: its cursors are the same, and
  -- its slots and its metadata read as before.
  pub record Unseen (ch : Channel) (s s' : Fifo S) : Type 0 where
    pub mounted : s'.mounted ≡ s.mounted
    pub cursors : meta_of (other ch) s' ≡ meta_of (other ch) s
    pub slots :
        (t : ℕ) → laws.entry s'.fs (slot_id (other ch) t) ≡ laws.entry s.fs (slot_id (other ch) t)
    pub stored :
        laws.entry s'.fs (channel_config (other ch)).meta_id
        ≡ laws.entry s.fs (channel_config (other ch)).meta_id

  pub Unseen-refl : (ch : Channel) (s : Fifo S) → Unseen ch s s
  Unseen-refl ch s = record { mounted = refl; cursors = refl; slots = λ t. refl; stored = refl }

  Unseen-trans : (ch : Channel) {s t u : Fifo S} → Unseen ch s t → Unseen ch t u → Unseen ch s u
  Unseen-trans ch a b = record {
    mounted = b.mounted ∙ a.mounted;
    cursors = b.cursors ∙ a.cursors;
    slots = λ t. b.slots t ∙ a.slots t;
    stored = b.stored ∙ a.stored;
  }

  with_meta-Unseen : (ch : Channel) (s : Fifo S) (m : Meta) → Unseen ch s (with_meta ch s m)
  with_meta-Unseen ch s m = record {
    mounted = refl;
    cursors = put-other s.channel_meta ch m;
    slots = λ t. refl;
    stored = refl;
  }

  meta_persist-Unseen : (ch : Channel) (s : Fifo S) → Unseen ch s (meta_persist nvs ch s).1
  unfolding meta_persist
  meta_persist-Unseen ch s = record {
    mounted = refl;
    cursors = refl;
    slots = λ t. laws.write_apart _ _ _ _ (λ e. slot-ne-meta (other ch) ch t (sym e));
    stored = laws.write_apart _ _ _ _ (meta-ne-other ch);
  }

  write_slot-Unseen :
      (ch : Channel) (s : Fifo S) (t : ℕ) (x : Item)
      → Unseen ch s (record s { fs = (nvs.write s.fs (slot_id ch t) x).1 })
  write_slot-Unseen ch s t x = record {
    mounted = refl;
    cursors = refl;
    slots = λ u. laws.write_apart _ _ _ _ (slot-ne-other ch t u);
    stored = laws.write_apart _ _ _ _ (slot-ne-meta ch (other ch) t);
  }

  write_record-Unseen :
      (ch : Channel) (s : Fifo S) (x : Item) → Unseen ch s (write_record nvs ch s x).1
  unfolding write_record
  write_record-Unseen ch s x =
      elim (Result-cases (nvs.write s.fs (slot_id ch (meta_of ch s).head) x).0) [
        | inl (n, e) ↦
            rw (e, write_record)
              (Unseen-trans ch (write_slot-Unseen ch s (meta_of ch s).head x)
                (Unseen-trans ch (with_meta-Unseen ch _ _) (meta_persist-Unseen ch _)))
        | inr (y, e) ↦ rw (e, write_record) (write_slot-Unseen ch s (meta_of ch s).head x)
      ]

  pub push-Unseen : (ch : Channel) (s : Fifo S) (x : Item) → Unseen ch s (push nvs ch s x).1
  push-Unseen ch s x =
      push_keeps nvs (Unseen ch s) ch s x (Unseen-refl ch s) (write_record-Unseen ch s x)
        (Unseen-trans ch (with_meta-Unseen ch s _) (write_record-Unseen ch _ x))

  pub pop_ack-Unseen : (ch : Channel) (s : Fifo S) → Unseen ch s (pop_ack nvs ch s).1
  pop_ack-Unseen ch s =
      pop_ack_keeps nvs (Unseen ch s) ch s (Unseen-refl ch s)
        (Unseen-trans ch (with_meta-Unseen ch s _) (meta_persist-Unseen ch _))

  pub Represents-Unseen :
      (ch : Channel) (s s' : Fifo S) (q : Queue)
      → Unseen ch s s'
      → Represents laws (other ch) s q
      → Represents laws (other ch) s' q
  Represents-Unseen ch s s' q u r = record {
    mounted = u.mounted ∙ r.mounted;
    cursors = rw u.cursors r.cursors;
    no_wrap = rw u.cursors r.no_wrap;
    fits = r.fits;
    items = r.items;
    holds = rw u.cursors (
        Holds-same laws (other ch) s.fs s'.fs (meta_of (other ch) s).tail q (λ i h. u.slots _)
          r.holds);
  }

  -- Whatever a push or an acknowledgement on one channel does, failures of NVS included, the queue
  -- of the other channel stays, and so does its metadata in NVS.
  pub channels_apart :
      (ch : Channel) (s : Fifo S) (x : Item) (q : Queue)
      → Represents laws (other ch) s q
      → Persisted laws (other ch) s
      → Represents laws (other ch) (push nvs ch s x).1 q
        × Persisted laws (other ch) (push nvs ch s x).1
        × Represents laws (other ch) (pop_ack nvs ch s).1 q
        × Persisted laws (other ch) (pop_ack nvs ch s).1
  channels_apart ch s x q r p =
      let u = push-Unseen ch s x in
      let v = pop_ack-Unseen ch s in
      (
        Represents-Unseen ch s _ q u r,
        rw u.cursors (u.stored ∙ p),
        Represents-Unseen ch s _ q v r,
        rw v.cursors (v.stored ∙ p),
      )
