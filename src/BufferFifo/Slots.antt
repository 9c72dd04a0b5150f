-- ===== src/BufferFifo/Slots.antt =====
-- The NVS ids of src/buffer_fifo.c: which cursors share a slot, and that the ids of the two
-- channels and of their metadata stay apart.
use telenode.Prelude.{ℕ, ◌+◌, ◌-◌, ◌<◌, ◌^◌, ◌≡◌, ◌≢◌, arith}
use telenode.Prelude.Bytes.{add32}
use telenode.BufferFifo.{Channel, telemetry, events, channel_config, slot_id}
use telenode.BufferFifo.Queue.{capacity}

-- The other channel.
abbrev pub other : Channel → Channel
other telemetry = events
other events = telemetry

-- Less than `capacity` steps from a cursor there is no second cursor with its slot.
pub slot-ne :
    (ch : Channel) (t i n : ℕ) → i < n → n < capacity ch → slot_id ch (t + i) ≢ slot_id ch (t + n)
slot-ne telemetry t i n h k = omega arith
slot-ne events t i n h k = omega arith

pub slot-capacity : (ch : Channel) (t : ℕ) → slot_id ch (t + capacity ch) ≡ slot_id ch t
slot-capacity telemetry t = omega arith
slot-capacity events t = omega arith

pub slot-ne-meta : (ch c : Channel) (t : ℕ) → slot_id ch t ≢ (channel_config c).meta_id
slot-ne-meta telemetry telemetry t = omega arith
slot-ne-meta telemetry events t = omega arith
slot-ne-meta events telemetry t = omega arith
slot-ne-meta events events t = omega arith

pub slot-ne-other : (ch : Channel) (t u : ℕ) → slot_id ch t ≢ slot_id (other ch) u
slot-ne-other telemetry t u = omega arith
slot-ne-other events t u = omega arith

pub meta-ne-other :
    (ch : Channel) → (channel_config ch).meta_id ≢ (channel_config (other ch)).meta_id
meta-ne-other telemetry = omega arith
meta-ne-other events = omega arith

-- When the uint32_t cursors wrap, the slots do not: on each channel the cursor `i` after the wrap
-- has the slot of the cursor `2 ^ 32 - 16 + i` before it, which is only 16 steps older, while
-- both channels may hold more than 16 records.
pub slot_wraps :
    (ch : Channel) (i : ℕ)
    → i < 16
    → (slot_id ch i ≡ slot_id ch (2 ^ 32 - 16 + i))
      × (add32 (2 ^ 32 - 16 + i) 16 ≡ i)
      × (16 < capacity ch)
slot_wraps telemetry i h = omega arith
slot_wraps events i h = omega arith
