-- ===== src/BufferFifo.antt =====
-- src/buffer_fifo.c and buffer_fifo.h: two rings of records in one NVS file system, one for
-- telemetry, which drops its oldest record when full, and one for events, which refuses a new one.
-- Each function returns its result and the new statics; the mutex makes each a single step.
pub mod Queue
pub mod Slots
pub mod View
pub mod Write
pub mod Refine
pub mod Keeps
pub mod Apart
pub mod Run
pub mod Memory
mod Tests
mod FaultTests
pub mod Reboot
pub mod Faults
use telenode.Prelude.{
  ℕ, ◌+◌, ◌/◌, ◌%◌, ◌^◌, Bool, true, false, not, ◌||◌, List, [], ◌∷◌, ◌++◌, ltb, leb, ◌==◌,
  if◌then◌else◌, length,
}
use telenode.Prelude.Bytes.{add32, sub32, le32, of_le32}
use telenode.Prelude.Errno.{
  Result, ok, err, success, discard, eio, einval, enospc, enoent, enomem, enodev,
}
use telenode.Nvs.{NvsOps}

-- `enum buffer_fifo_channel`
pub data Channel : Type 0 where
  telemetry events : Channel

abbrev pub max_record_len : ℕ
max_record_len = 256

-- `struct fifo_meta`; both cursors are uint32_t and only grow, modulo 2 ^ 32
pub record Meta : Type 0 where
  pub head : ℕ
  pub tail : ℕ

-- `struct channel_config`, without the name that the log prints
pub record ChannelConfig : Type 0 where
  pub meta_id : ℕ
  pub slot_base : ℕ
  pub capacity : ℕ
  pub drop_oldest : Bool

abbrev pub channel_config : Channel → ChannelConfig
channel_config telemetry = record { meta_id = 1; slot_base = 2; capacity = 24; drop_oldest = true }
channel_config events = record {
  meta_id = 2 + 24;
  slot_base = 2 + 24 + 1;
  capacity = 48;
  drop_oldest = false;
}

-- The NVS id, a uint16_t, of the slot that a cursor stands at.
abbrev pub slot_id : Channel → ℕ → ℕ
slot_id ch cursor = ((channel_config ch).slot_base + cursor % (channel_config ch).capacity) % 2 ^ 16

-- `&channel_meta[ch]` written: the entries of the other channels stay.
abbrev pub put {ℓ} : {A : Type ℓ} → (Channel → A) → Channel → A → Channel → A
put f telemetry m telemetry = m
put f telemetry m events = f events
put f events m telemetry = f telemetry
put f events m events = m

-- The statics `fs`, `channel_meta[]` and `mounted`.
pub record Fifo (S : Type 0) : Type 0 where
  pub fs : S
  pub channel_meta : Channel → Meta
  pub mounted : Bool

-- `meta` as it lies in memory, `sizeof(struct fifo_meta)` = 8 bytes
pub meta_bytes : Meta → List ℕ
unfolding le32
meta_bytes m = le32 m.head ++ le32 m.tail

abbrev pub empty_meta : Meta
empty_meta = record { head = 0; tail = 0 }

-- What `nvs_read` leaves in `channel_meta[i]`, and the reset when it did not fill it.
pub meta_of_read : Result (ℕ × List ℕ) → Meta
unfolding of_le32
meta_of_read (ok (n, a ∷ b ∷ c ∷ d ∷ e ∷ f ∷ g ∷ h ∷ [])) =
    if n == 8 then record { head = of_le32 a b c d; tail = of_le32 e f g h } else empty_meta
meta_of_read _ = empty_meta

module _ {S : Type 0} where
  abbrev pub meta_of : Channel → Fifo S → Meta
  meta_of ch s = s.channel_meta ch

  abbrev pub with_meta : Channel → Fifo S → Meta → Fifo S
  with_meta ch s m = record s { channel_meta = put s.channel_meta ch m }

  -- `buffer_fifo_is_empty`
  pub is_empty : Channel → Fifo S → Bool
  is_empty ch s = (meta_of ch s).head == (meta_of ch s).tail

  -- `buffer_fifo_count`
  unfoldable pub count : Channel → Fifo S → ℕ
  count ch s = sub32 (meta_of ch s).head (meta_of ch s).tail

  -- `meta->tail++`, `meta->head++`
  abbrev pub advance_tail : Channel → Fifo S → Fifo S
  advance_tail ch s =
      with_meta ch s (record { head = (meta_of ch s).head; tail = add32 (meta_of ch s).tail 1 })

  abbrev pub advance_head : Channel → Fifo S → Fifo S
  advance_head ch s =
      with_meta ch s (record { head = add32 (meta_of ch s).head 1; tail = (meta_of ch s).tail })

-- What `buffer_fifo_init` asks of flash and NVS, and what it writes into `fs`, in order: the partition with
-- its size, `fs.flash_device` with `fs.offset`, whether the device is ready, the page size,
-- `fs.sector_size` with `fs.sector_count`, and the mount, which may fail and changes `fs`.
pub record Flash (S : Type 0) : Type 0 where
  pub area_open : Result ℕ
  pub set_device : S → S
  pub device_ready : Bool
  pub page_info : Result ℕ
  pub set_sectors : ℕ → ℕ → S → S
  pub mount : S → Result (Unit {0}) × S

module _ {S : Type 0} (nvs : NvsOps S) where
  unfoldable pub meta_persist : Channel → Fifo S → Result (Unit {0}) × Fifo S
  meta_persist ch s =
      let (rc, fs) = nvs.write s.fs (channel_config ch).meta_id (meta_bytes (meta_of ch s)) in
      (discard rc, record s { fs = fs })

  pub load_meta : Channel → Fifo S → Fifo S
  load_meta ch s = with_meta ch s (meta_of_read (nvs.read s.fs (channel_config ch).meta_id 8))

  -- The loop over `channel_configs`, after a mount.
  pub load_channels : Fifo S → Result (Unit {0}) × Fifo S
  load_channels s =
      let loaded = load_meta events (load_meta telemetry s) in
      (success, record loaded { mounted = true })

  pub init_pages : Flash S → Fifo S → ℕ → ℕ → Result (Unit {0}) × Fifo S
  init_pages flash s area_size page_size =
      let (rc, fs) = flash.mount (flash.set_sectors page_size (area_size / page_size) s.fs) in
      let s' = record s { fs = fs } in
      (elim rc [ ok done ↦ load_channels s' | err e ↦ (err e, s') ])

  pub init_area : Flash S → Fifo S → ℕ → Result (Unit {0}) × Fifo S
  init_area flash s area_size =
      let s' = record s { fs = flash.set_device s.fs } in
      if not flash.device_ready then (err enodev, s') else (elim flash.page_info [
        | ok page_size ↦ init_pages flash s' area_size page_size
        | err e ↦ (err e, s')
      ])

  -- `buffer_fifo_init`
  pub init : Flash S → Fifo S → Result (Unit {0}) × Fifo S
  init flash s = elim flash.area_open [
    | ok area_size ↦ init_area flash s area_size
    | err e ↦ (err e, s)
  ]

  -- The end of `buffer_fifo_push`: the slot, the cursor, the metadata.
  unfoldable pub write_record : Channel → Fifo S → List ℕ → Result (Unit {0}) × Fifo S
  write_record ch s record_bytes =
      let (rc, fs) = nvs.write s.fs (slot_id ch (meta_of ch s).head) record_bytes in
      let s' = record s { fs = fs } in
      (elim rc [ ok n ↦ meta_persist ch (advance_head ch s') | err e ↦ (err e, s') ])

  -- `buffer_fifo_push`
  unfoldable pub push : Channel → Fifo S → List ℕ → Result (Unit {0}) × Fifo S
  push ch s record_bytes =
      if not s.mounted
      then (err eio, s)
      else if length record_bytes == 0 || ltb max_record_len (length record_bytes)
      then (err einval, s)
      else if leb (channel_config ch).capacity (count ch s)
      then if not (channel_config ch).drop_oldest
        then (err enospc, s)
        else write_record ch (advance_tail ch s) record_bytes
      else write_record ch s record_bytes

  -- `buffer_fifo_peek`: what goes into `buf[0..*out_len)`. It changes no static.
  pub peek_read : Result (ℕ × List ℕ) → ℕ → Result (List ℕ)
  peek_read (err e) buf_size = err e
  peek_read (ok (n, bytes)) buf_size = if ltb buf_size n then err enomem else ok bytes

  unfoldable pub peek : Channel → Fifo S → ℕ → Result (List ℕ)
  peek ch s buf_size =
      if not s.mounted
      then err eio
      else if (meta_of ch s).head == (meta_of ch s).tail
      then err enoent
      else peek_read (nvs.read s.fs (slot_id ch (meta_of ch s).tail) buf_size) buf_size

  -- `buffer_fifo_pop_ack`
  pub pop_ack : Channel → Fifo S → Result (Unit {0}) × Fifo S
  pop_ack ch s =
      if not s.mounted
      then (err eio, s)
      else if (meta_of ch s).head == (meta_of ch s).tail
      then (err enoent, s)
      else meta_persist ch (advance_tail ch s)
