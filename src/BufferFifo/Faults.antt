-- ===== src/BufferFifo/Faults.antt =====
-- Where src/buffer_fifo.c falls short of a queue: a power loss between the two writes of a push, and
-- the wrap of the uint32_t cursors.
use telenode.Prelude.{
  ℕ, zero, suc, ◌+◌, ◌-◌, ◌^◌, ◌<◌, ◌≤◌, ◌≡◌, ◌≢◌, refl, sym, ap, ◌∙◌, subst, true, ◌∷◌, arith,
  length, take_all,
}
use telenode.Prelude.Errno.{ok}
use telenode.Prelude.Bytes.{add32}
use telenode.Nvs.{NvsOps, NvsLaws}
use telenode.BufferFifo.{
  Channel, telemetry, events, Fifo, Meta, Flash, meta_of, slot_id, init, push, peek, peek_read,
  write_record, meta_persist, advance_head, advance_tail, count,
}
use telenode.BufferFifo.Queue.{Item, Queue, IsItem, capacity}
use telenode.BufferFifo.Slots.{slot-ne, slot-capacity, slot-ne-meta, slot_wraps}
use telenode.BufferFifo.View.{Holds-same, Represents, Persisted}
use telenode.BufferFifo.Write.{put_self}
use telenode.BufferFifo.Reboot.{Works, init-Works, load-Represents}

full_push :
    {S : Type 0} (nvs : NvsOps S) (s : Fifo S) (x : Item)
    → s.mounted ≡ true
    → (meta_of telemetry s).head ≡ (meta_of telemetry s).tail + 24
    → (meta_of telemetry s).head < 2 ^ 32
    → IsItem x
    → push nvs telemetry s x ≡ write_record nvs telemetry (advance_tail telemetry s) x
unfolding push count
full_push nvs s x mounted cursors no_wrap item = ground arith

module _ {S : Type 0} {nvs : NvsOps S} (laws : NvsLaws nvs) where
  -- The file system after the first write of a push, that of the slot.
  abbrev pub after_slot : Channel → Fifo S → Item → S
  after_slot ch s x = (nvs.write s.fs (slot_id ch (meta_of ch s).head) x).1

  slot_only :
      {flash : Flash S} (s blank : Fifo S) (x y : Item) (q : Queue) (n : ℕ)
      → Works flash blank.fs (after_slot telemetry s x)
      → Represents laws telemetry s (y ∷ q)
      → Persisted laws telemetry s
      → length (y ∷ q) ≡ capacity telemetry
      → IsItem x
      → (nvs.write s.fs (slot_id telemetry (meta_of telemetry s).head) x).0 ≡ ok n
      → Represents laws telemetry (init nvs flash blank).1 (x ∷ q)
  slot_only s blank x y q n w r p full item e = rw (init-Works laws blank _ w) (
      load-Represents laws telemetry blank _ (meta_of telemetry s) (x ∷ q)
        (laws.write_apart _ _ _ _ (slot-ne-meta telemetry telemetry _) ∙ p) r.cursors r.no_wrap
        r.fits (item, r.items.1)
        (
          subst (λ k. laws.entry (after_slot telemetry s x) k ≡ ok x) same_slot
              (laws.write_stores _ _ n _ e),
          Holds-same laws telemetry s.fs _ ((meta_of telemetry s).tail + 1) q
              (λ i h. laws.write_apart _ _ _ _ (λ k. omega (arith, r.cursors, full, k))) r.holds.1,
        ))
    where
      same_slot :
          slot_id telemetry (meta_of telemetry s).head
          ≡ slot_id telemetry (meta_of telemetry s).tail
      same_slot =
          ap (slot_id telemetry) (r.cursors ∙ ap (λ k. (meta_of telemetry s).tail + k) full)
          ∙ slot-capacity telemetry (meta_of telemetry s).tail

  -- NVS under a power supply that fails: after so many more writes, none reaches flash.
  abbrev pub power_cut : NvsOps (ℕ × S)
  power_cut = record {
    write = λ s id d. elim s.0 [
      | zero ↦ (ok (length d), s)
      | suc left ↦ let (rc, fs) = nvs.write s.1 id d in (rc, (left, fs))
    ];
    read = λ s id n. nvs.read s.1 id n;
  }

  -- The statics, with power for `writes` more writes
  abbrev pub with_power : ℕ → Fifo S → Fifo (ℕ × S)
  with_power writes s = record {
    fs = (writes, s.fs);
    channel_meta = s.channel_meta;
    mounted = s.mounted;
  }

  -- What flash holds when `buffer_fifo_push` has run with power for `writes` writes
  abbrev pub flash_after_push : ℕ → Fifo S → Item → S
  flash_after_push writes s x = (push power_cut telemetry (with_power writes s) x).1.fs.1

  one_write :
      (s : Fifo S) (x y : Item) (q : Queue) (n : ℕ)
      → Represents laws telemetry s (y ∷ q)
      → length (y ∷ q) ≡ capacity telemetry
      → IsItem x
      → (nvs.write s.fs (slot_id telemetry (meta_of telemetry s).head) x).0 ≡ ok n
      → flash_after_push 1 s x ≡ after_slot telemetry s x
  unfolding write_record meta_persist
  one_write s x y q n r full item e =
      ap (λ out. out.1.fs.1)
        (full_push power_cut (with_power 1 s) x r.mounted
          (r.cursors ∙ ap (λ k. (meta_of telemetry s).tail + k) full) r.no_wrap item)
      ∙ rw (e, write_record) refl

  -- Power fails in a `buffer_fifo_push` onto the full telemetry ring when one of its writes to flash has been
  -- done: the reboot finds the new record in place of the oldest one, at the front of the queue instead of
  -- the end.
  pub power_loss_full :
      {flash : Flash S} (s blank : Fifo S) (x y : Item) (q : Queue) (n : ℕ)
      → Works flash blank.fs (flash_after_push 1 s x)
      → Represents laws telemetry s (y ∷ q)
      → Persisted laws telemetry s
      → length (y ∷ q) ≡ capacity telemetry
      → IsItem x
      → (nvs.write s.fs (slot_id telemetry (meta_of telemetry s).head) x).0 ≡ ok n
      → Represents laws telemetry (init nvs flash blank).1 (x ∷ q)
  power_loss_full {flash} s blank x y q n w r p full item e =
      slot_only s blank x y q n (subst (Works flash blank.fs) (one_write s x y q n r full item e) w)
        r p full item e

  -- Power fails there with a slot free: the reboot finds the queue as it was.
  power_loss_room :
      (ch : Channel) {flash : Flash S} (s blank : Fifo S) (x : Item) (q : Queue)
      → Works flash blank.fs (after_slot ch s x)
      → Represents laws ch s q
      → Persisted laws ch s
      → length q < capacity ch
      → Represents laws ch (init nvs flash blank).1 q
  power_loss_room ch s blank x q w r p room = rw (init-Works laws blank _ w) (
      load-Represents laws ch blank _ (meta_of ch s) q
        (laws.write_apart _ _ _ _ (slot-ne-meta ch ch _) ∙ p) r.cursors r.no_wrap r.fits r.items
        (Holds-same laws ch s.fs _ (meta_of ch s).tail q
          (λ i h. laws.write_apart _ _ _ _ (λ e.
            slot-ne ch (meta_of ch s).tail i (length q) h room (sym e ∙ ap (slot_id ch) r.cursors)))
          r.holds))

  write_record_ok :
      (ch : Channel) (s : Fifo S) (x : Item) (n : ℕ)
      → (nvs.write s.fs (slot_id ch (meta_of ch s).head) x).0 ≡ ok n
      → write_record nvs ch s x
        ≡ meta_persist nvs ch (advance_head ch (record s { fs = after_slot ch s x }))
  unfolding write_record
  write_record_ok ch s x n e = rw (e, write_record) refl

  wrapped_push :
      (ch : Channel) (s : Fifo S) (x : Item) (i : ℕ)
      → i < 16
      → (meta_of ch s).head ≡ i
      → (meta_of ch s).tail ≡ 2 ^ 32 - 16 + i
      → s.mounted ≡ true
      → IsItem x
      → push nvs ch s x ≡ write_record nvs ch s x
  unfolding push count
  wrapped_push telemetry s x i low head tail mounted item = ground arith
  wrapped_push events s x i low head tail mounted item = ground arith

  peek_at :
      (ch : Channel) (s : Fifo S) (x : Item) (h t m : ℕ)
      → s.mounted ≡ true
      → (meta_of ch s).head ≡ h
      → (meta_of ch s).tail ≡ t
      → h ≢ t
      → length x ≤ m
      → laws.entry s.fs (slot_id ch t) ≡ ok x
      → peek nvs ch s m ≡ ok x
  unfolding peek peek_read
  peek_at ch s x h t m mounted head tail ne fits e =
      ground (arith, laws.read_entry s.fs (slot_id ch (meta_of ch s).tail) m x, take_all m x, e)

  -- What `buffer_fifo_peek` sees after a push that wrote its slot, the metadata written or not.
  wrapped_peek :
      (ch : Channel) (s : Fifo S) (x : Item) (i n m : ℕ)
      → i < 16
      → (meta_of ch s).head ≡ i
      → (meta_of ch s).tail ≡ 2 ^ 32 - 16 + i
      → s.mounted ≡ true
      → length x ≤ m
      → (nvs.write s.fs (slot_id ch (meta_of ch s).head) x).0 ≡ ok n
      → peek nvs ch
          (meta_persist nvs ch (advance_head ch (record s { fs = after_slot ch s x }))).1
          m
        ≡ ok x
  unfolding meta_persist
  wrapped_peek ch s x i n m low head tail mounted fits e =
      peek_at ch _ x (add32 i 1) (2 ^ 32 - 16 + i) m mounted
        (ap (λ (k : Meta). k.head) (put_self s.channel_meta ch _) ∙ ap (λ k. add32 k 1) head)
        (ap (λ (k : Meta). k.tail) (put_self s.channel_meta ch _) ∙ tail) (omega arith) fits
        (laws.write_apart _ _ _ _ (λ k. slot-ne-meta ch ch _ (sym k))
          ∙ subst (λ k. laws.entry (after_slot ch s x) k ≡ ok x)
              (ap (slot_id ch) head ∙ (slot_wraps ch i low).0) (laws.write_stores _ _ n _ e))

  -- Once the head cursor has wrapped while the tail has not, with 16 records queued: for each of
  -- the 16 positions of the cursors, a push that writes its slot overwrites the oldest record, so
  -- that the next peek returns the newest.
  pub push_wrapped :
      (ch : Channel) (s : Fifo S) (x : Item) (i n m : ℕ)
      → i < 16
      → (meta_of ch s).head ≡ i
      → (meta_of ch s).tail ≡ 2 ^ 32 - 16 + i
      → s.mounted ≡ true
      → IsItem x
      → length x ≤ m
      → (nvs.write s.fs (slot_id ch (meta_of ch s).head) x).0 ≡ ok n
      → (count ch s ≡ 16) × (16 < capacity ch) × (peek nvs ch (push nvs ch s x).1 m ≡ ok x)
  unfolding count
  push_wrapped ch s x i n m low head tail mounted item fits e = (
    omega arith,
    (slot_wraps ch i low).2,
    rw (wrapped_push ch s x i low head tail mounted item, write_record_ok ch s x n e)
        (wrapped_peek ch s x i n m low head tail mounted fits e),
  )
