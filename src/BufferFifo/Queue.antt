-- ===== src/BufferFifo/Queue.antt =====
-- What src/buffer_fifo.h promises of one channel: a bounded queue of records, oldest first. A full
-- telemetry queue drops its oldest record, a full event queue refuses the new one.
use telenode.Prelude.{
  ℕ, Bool, false, List, [], ◌∷◌, ◌++◌, ◌||◌, leb, ltb, ◌==◌, if◌then◌else◌, length, drop, ◌≤◌, ◌<◌,
}
use telenode.Prelude.Errno.{Result, ok, err, success, enospc, enoent, einval, enomem}
use telenode.BufferFifo.{Channel, telemetry, events, channel_config, max_record_len}

abbrev pub Item : Type 0
Item = List ℕ

abbrev pub Queue : Type 0
Queue = List Item

-- The lengths of a record that `buffer_fifo_push` takes.
abbrev pub IsItem : Item → Type 0
IsItem x = (0 < length x) × (length x ≤ max_record_len)

abbrev pub capacity : Channel → ℕ
capacity ch = (channel_config ch).capacity

-- The queue without its oldest record, on the channel that drops, when it is full.
abbrev pub make_room : Channel → Queue → Queue
make_room telemetry q = if leb (capacity telemetry) (length q) then drop 1 q else q
make_room events q = q

abbrev pub refuses : Channel → Queue → Bool
refuses telemetry q = false
refuses events q = leb (capacity events) (length q)

unfoldable pub push : Channel → Queue → Item → Result (Unit {0}) × Queue
push ch q x =
    if length x == 0 || ltb max_record_len (length x)
    then (err einval, q)
    else if refuses ch q
    then (err enospc, q)
    else (success, make_room ch q ++ (x ∷ []))

-- The oldest record, for a buffer of `n` bytes.
unfoldable pub peek : Queue → ℕ → Result Item
peek [] n = err enoent
peek (x ∷ q) n = if ltb n (length x) then err enomem else ok x

unfoldable pub pop : Queue → Result (Unit {0}) × Queue
pop [] = (err enoent, [])
pop (x ∷ q) = (success, q)
