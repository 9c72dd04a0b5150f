-- ===== src/Uplink/Tests.antt =====
-- The theorems on src/uplink_mqtt.c at concrete states, over a broker in memory.
use telenode.Prelude.{ℕ, ◌≡◌, ◌⊎◌, refl, [], ◌∷◌, ◌++◌, take, drop, some, arith}
use telenode.Mqtt.{at_most_once}
use telenode.BufferFifo.{telemetry, events}
use telenode.BufferFifo.View.{Represents}
use telenode.BufferFifo.Memory.{Memory, memory, memory_laws, item, copies, full, full-Represents}
use telenode.Uplink.{Uplink, publish_or_buffer, drain_channel, drain_buffered_records}
use telenode.Uplink.Memory.{Broker, broker, broker_laws, down}
use telenode.Uplink.Publish.{Outcome, publish_or_buffer-Outcome}
use telenode.Uplink.Drain.{letters, addressed, Refused, Replayed, drain_channel_total}
use telenode.Uplink.Replay.{drain_buffered_records_total}

none-Represents : Represents memory_laws events full []
none-Represents = record {
  mounted = refl;
  cursors = refl;
  no_wrap = omega arith;
  fits = omega arith;
  items = tt;
  holds = tt;
}

publish_or_buffer-Outcome_example :
    Outcome memory broker_laws telemetry down
      (b't' ∷ [])
      at_most_once
      item
      (publish_or_buffer memory broker telemetry down (b't' ∷ []) at_most_once item)
publish_or_buffer-Outcome_example =
    publish_or_buffer-Outcome memory broker_laws telemetry down (b't' ∷ []) at_most_once item

drain_channel_total_example :
    (u : Uplink Memory Broker) × (drain_channel memory broker 25 telemetry
        (b't' ∷ [])
        at_most_once
        down
      ≡ some u)
    × Replayed memory_laws broker_laws telemetry (b't' ∷ []) (copies 24) down u
drain_channel_total_example =
    drain_channel_total memory_laws broker_laws 25 telemetry (b't' ∷ []) at_most_once down
      (copies 24) full-Represents (omega arith)

drain_buffered_records_total_example :
    (u : Uplink Memory Broker) × (k : ℕ) × (j : ℕ) × (drain_buffered_records memory broker 25 down
      ≡ some u)
    × (letters u.client
        ≡ addressed (b'e' ∷ []) (take k []) ++ addressed (b't' ∷ []) (take j (copies 24)))
    × ((k ≡ 0) ⊎ Refused memory_laws broker_laws (b'e' ∷ []) [] k [])
    × ((j ≡ 24)
        ⊎ Refused memory_laws broker_laws
            (b't' ∷ [])
            (copies 24)
            j
            (addressed (b'e' ∷ []) (take k [])))
    × Represents memory_laws events u.fifo (drop k [])
    × Represents memory_laws telemetry u.fifo (drop j (copies 24))
drain_buffered_records_total_example =
    drain_buffered_records_total memory_laws broker_laws 25 down [] (copies 24) none-Represents
      full-Represents (omega arith) (omega arith)
