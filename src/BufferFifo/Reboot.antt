-- ===== src/BufferFifo/Reboot.antt =====
-- `buffer_fifo_init` of src/buffer_fifo.c: what a reboot finds of the queues, and what is left of the
-- module where flash or the mount fails.
use telenode.Prelude.{
  ℕ, ◌+◌, ◌/◌, ◌^◌, ◌<◌, ◌≤◌, ◌≡◌, ◌⊎◌, refl, ap, ◌∙◌, true, false, ◌==◌, [], arith, length, take,
  All, inl, inr, Bool-cases,
}
use telenode.Prelude.Bytes.{of_le32-le32, sub32}
use telenode.Prelude.Errno.{Errno, Result, ok, err, success, Done-cases, Result-cases, eio, enodev}
use telenode.Nvs.{NvsOps, NvsLaws}
use telenode.BufferFifo.{
  Channel, telemetry, events, Fifo, Meta, Flash, meta_of, channel_config, meta_bytes, meta_of_read,
  empty_meta, load_meta, load_channels, init, init_area, init_pages, push, peek, pop_ack, count,
  is_empty,
}
use telenode.BufferFifo.Queue.{Item, Queue, IsItem, capacity}
use telenode.BufferFifo.View.{Holds, Holds-same, Represents, Persisted}

-- The metadata comes back from its eight bytes.
pub meta_of_read-meta_bytes :
    (m : Meta)
    → m.head < 2 ^ 32
    → m.tail < 2 ^ 32
    → meta_of_read (ok (length (meta_bytes m), take 8 (meta_bytes m))) ≡ m
unfolding meta_of_read meta_bytes
meta_of_read-meta_bytes m h t =
    λ i. record { head = of_le32-le32 m.head h i; tail = of_le32-le32 m.tail t i }

-- Flash and NVS come up, and the mount makes `fs` of what was `fs` before.
pub record Works {S : Type 0} (flash : Flash S) (before fs : S) : Type 0 where
  pub area_size : ℕ
  pub page_size : ℕ
  pub opens : flash.area_open ≡ ok area_size
  pub ready : flash.device_ready ≡ true
  pub pages : flash.page_info ≡ ok page_size
  pub mounts :
      flash.mount (flash.set_sectors page_size (area_size / page_size) (flash.set_device before))
      ≡ (success, fs)

module _ {S : Type 0} {nvs : NvsOps S} (laws : NvsLaws nvs) where
  pub init-Works :
      {flash : Flash S} (s : Fifo S) (fs : S)
      → Works flash s.fs fs
      → init nvs flash s ≡ load_channels nvs (record s { fs = fs })
  unfolding init init_area init_pages
  init-Works s fs w =
      rw (w.opens, init)
        (rw (w.ready, init_area)
          (rw (w.pages, init_area)
            (ap
              (λ (out : Result (Unit {0}) × S). elim out.0 as (λ x. Result (Unit {0}) × Fifo S) [
                | ok done ↦ load_channels nvs (record s { fs = out.1 })
                | err e ↦ (err e, record s { fs = out.1 })
              ])
              w.mounts)))

  loaded_meta :
      (ch : Channel) (s : Fifo S) (fs : S)
      → meta_of ch (load_channels nvs (record s { fs = fs })).1
        ≡ meta_of_read (nvs.read fs (channel_config ch).meta_id 8)
  unfolding load_channels load_meta
  loaded_meta telemetry s fs = refl
  loaded_meta events s fs = refl

  loaded_fs : (s : Fifo S) (fs : S) → (load_channels nvs (record s { fs = fs })).1.fs ≡ fs
  unfolding load_channels load_meta
  loaded_fs s fs = refl

  loaded_mounted :
      (s : Fifo S) (fs : S) → (load_channels nvs (record s { fs = fs })).1.mounted ≡ true
  unfolding load_channels load_meta
  loaded_mounted s fs = refl

  loaded_success : (s : Fifo S) (fs : S) → (load_channels nvs (record s { fs = fs })).0 ≡ success
  unfolding load_channels
  loaded_success s fs = refl

  -- What a channel is after the load from `fs`, where the metadata `m` is stored.
  pub load-Represents :
      (ch : Channel) (s : Fifo S) (fs : S) (m : Meta) (q : Queue)
      → laws.entry fs (channel_config ch).meta_id ≡ ok (meta_bytes m)
      → m.head ≡ m.tail + length q
      → m.head < 2 ^ 32
      → length q ≤ capacity ch
      → All IsItem q
      → Holds laws ch fs m.tail q
      → Represents laws ch (load_channels nvs (record s { fs = fs })).1 q
  load-Represents ch s fs m q stored cursors no_wrap fits items holds =
      let e : meta_of ch (load_channels nvs (record s { fs = fs })).1 ≡ m =
        loaded_meta ch s fs
        ∙ ap meta_of_read (laws.read_entry fs _ 8 _ stored)
        ∙ meta_of_read-meta_bytes m no_wrap (omega arith) in
      record {
        mounted = loaded_mounted s fs;
        cursors = rw e cursors;
        no_wrap = rw e no_wrap;
        fits = fits;
        items = items;
        holds = rw (e, loaded_fs) holds;
      }

  -- A reboot, with a mount that finds the entries as they were, brings back the queue of each
  -- channel whose metadata was stored.
  pub init_recovers :
      (ch : Channel) {flash : Flash S} (s before : Fifo S) (fs : S) (q : Queue)
      → Works flash s.fs fs
      → ((id : ℕ) → laws.entry fs id ≡ laws.entry before.fs id)
      → Represents laws ch before q
      → Persisted laws ch before
      → ((init nvs flash s).0 ≡ success) × Represents laws ch (init nvs flash s).1 q
  init_recovers ch s before fs q w same r p = rw (init-Works s fs w) (
    loaded_success s fs,
    load-Represents ch s fs (meta_of ch before) q (same _ ∙ p) r.cursors r.no_wrap r.fits r.items
        (Holds-same laws ch before.fs fs (meta_of ch before).tail q (λ i h. same _) r.holds),
  )

  -- On fresh flash, with no metadata stored, each channel starts empty.
  pub init_fresh :
      (ch : Channel) {flash : Flash S} (s : Fifo S) (fs : S) (e : Errno)
      → Works flash s.fs fs
      → laws.entry fs (channel_config ch).meta_id ≡ err e
      → ((init nvs flash s).0 ≡ success) × Represents laws ch (init nvs flash s).1 []
  unfolding meta_of_read
  init_fresh ch s fs e w missing = rw (init-Works s fs w) (
    loaded_success s fs,
    let z : meta_of ch (load_channels nvs (record s { fs = fs })).1 ≡ empty_meta =
          loaded_meta ch s fs ∙ ap meta_of_read (laws.read_missing fs _ 8 e missing) in
        record {
          mounted = loaded_mounted s fs;
          cursors = rw z (omega arith);
          no_wrap = rw z (omega arith);
          fits = omega arith;
          items = tt;
          holds = tt;
        },
  )

module _ {S : Type 0} (nvs : NvsOps S) where
  -- What a failed `buffer_fifo_init` leaves: only `fs` may have changed.
  abbrev IsFailed : Fifo S → Result (Unit {0}) × Fifo S → Type 0
  IsFailed s out =
      (e : Errno) × (out.0 ≡ err e)
      × (out.1.mounted ≡ s.mounted)
      × (out.1.channel_meta ≡ s.channel_meta)

  abbrev IsMounted : Result (Unit {0}) × Fifo S → Type 0
  IsMounted out = (out.0 ≡ success) × (out.1.mounted ≡ true)

  init_pages_outcome :
      (flash : Flash S) (s : Fifo S) (a p : ℕ)
      → IsMounted (init_pages nvs flash s a p) ⊎ IsFailed s (init_pages nvs flash s a p)
  unfolding init_pages load_channels
  init_pages_outcome flash s a p =
      elim (Done-cases (flash.mount (flash.set_sectors p (a / p) s.fs)).0) [
        | inl e ↦ inl (rw (e, init_pages) (refl, refl))
        | inr (x, e) ↦ inr (rw (e, init_pages) (x, refl, refl, refl))
      ]

  init_area_outcome :
      (flash : Flash S) (s : Fifo S) (a : ℕ)
      → IsMounted (init_area nvs flash s a) ⊎ IsFailed s (init_area nvs flash s a)
  unfolding init_area
  init_area_outcome flash s a = elim (Bool-cases flash.device_ready) [
    | inr off ↦ inr (rw (off, init_area) (enodev, refl, refl, refl))
    | inl ready ↦ elim (Result-cases flash.page_info) [
      | inl (p, e) ↦
          rw (ready, e, init_area)
            (init_pages_outcome flash (record s { fs = flash.set_device s.fs }) a p)
      | inr (x, e) ↦ inr (rw (ready, e, init_area) (x, refl, refl, refl))
    ]
  ]

  init_either :
      (flash : Flash S) (s : Fifo S) → IsMounted (init nvs flash s) ⊎ IsFailed s (init nvs flash s)
  unfolding init
  init_either flash s = elim (Result-cases flash.area_open) [
    | inl (a, h) ↦ rw (h, init) (init_area_outcome flash s a)
    | inr (e, h) ↦ inr (rw (h, init) (e, refl, refl, refl))
  ]

  push_unmounted :
      (ch : Channel) (s : Fifo S) (x : Item) → s.mounted ≡ false → push nvs ch s x ≡ (err eio, s)
  unfolding push
  push_unmounted ch s x off = rw off

  peek_unmounted :
      (ch : Channel) (s : Fifo S) (n : ℕ) → s.mounted ≡ false → peek nvs ch s n ≡ err eio
  unfolding peek
  peek_unmounted ch s n off = rw off

  pop_ack_unmounted :
      (ch : Channel) (s : Fifo S) → s.mounted ≡ false → pop_ack nvs ch s ≡ (err eio, s)
  unfolding pop_ack
  pop_ack_unmounted ch s off = rw off

  -- `buffer_fifo_init`, of a module that is not mounted, either succeeds and leaves it mounted, or returns an
  -- errno and leaves it not mounted, with the cursors as they were: then every push, peek and
  -- acknowledgement returns `-EIO` and changes nothing, and the counts and `buffer_fifo_is_empty`, which do
  -- not look at `mounted`, answer as before the call.
  pub init_outcome :
      (flash : Flash S) (s : Fifo S)
      → s.mounted ≡ false
      → let out = init nvs flash s in
        (out.0 ≡ success) × (out.1.mounted ≡ true)
        ⊎ ((e : Errno) × (out.0 ≡ err e)
            × (out.1.mounted ≡ false)
            × ((ch : Channel) (x : Item) → push nvs ch out.1 x ≡ (err eio, out.1))
            × ((ch : Channel) (n : ℕ) → peek nvs ch out.1 n ≡ err eio)
            × ((ch : Channel) → pop_ack nvs ch out.1 ≡ (err eio, out.1))
            × ((ch : Channel) → count ch out.1 ≡ count ch s)
            × ((ch : Channel) → is_empty ch out.1 ≡ is_empty ch s))
  unfolding count is_empty
  init_outcome flash s off =
      let out = init nvs flash s in
      elim (init_either flash s) [
        | inl up ↦ inl up
        | inr (e, down, same, cursors) ↦
            let unmounted : out.1.mounted ≡ false = same ∙ off in
            inr (
              e,
              down,
              unmounted,
              λ ch x. push_unmounted ch out.1 x unmounted,
              λ ch n. peek_unmounted ch out.1 n unmounted,
              λ ch. pop_ack_unmounted ch out.1 unmounted,
              λ ch. ap (λ f. sub32 (f ch).head (f ch).tail) cursors,
              λ ch. ap (λ f. (f ch).head == (f ch).tail) cursors,
            )
      ]
