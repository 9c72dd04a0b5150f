-- ===== src/BufferFifo/Memory.antt =====
-- An NVS in memory that never fails, at which src/buffer_fifo.c can be run, and a full telemetry ring
-- in it.
use telenode.Prelude.{
  ℕ, zero, suc, ◌+◌, ◌≡◌, ◌≢◌, refl, true, List, [], ◌∷◌, take, length, All, ◌==◌, if◌then◌else◌,
  arith,
}
use telenode.Prelude.Errno.{Errno, Result, ok, err}
use telenode.Nvs.{NvsOps, NvsLaws}
use telenode.BufferFifo.{Channel, telemetry, events, Fifo, Meta, slot_id, meta_bytes}
use telenode.BufferFifo.Queue.{Item, Queue, IsItem}
use telenode.BufferFifo.Slots.{slot-ne-meta}
use telenode.BufferFifo.View.{Holds, Represents}

-- An NVS that never fails: a function from ids to entries.
abbrev pub Memory : Type 0
Memory = ℕ → Result (List ℕ)

abbrev pub memory_write : Memory → ℕ → List ℕ → Result ℕ × Memory
memory_write s id d = (ok (length d), λ j. if id == j then ok d else s j)

abbrev pub read_of : Result (List ℕ) → ℕ → Result (ℕ × List ℕ)
read_of (ok d) n = ok (length d, take n d)
read_of (err e) n = err e

abbrev pub memory : NvsOps Memory
memory = record { write = memory_write; read = λ s id n. read_of (s id) n }

pub memory_read_entry :
    (s : Memory) (id n : ℕ) (d : List ℕ) → s id ≡ ok d → read_of (s id) n ≡ ok (length d, take n d)
memory_read_entry s id n d h = rw h

pub memory_read_missing :
    (s : Memory) (id n : ℕ) (e : Errno) → s id ≡ err e → read_of (s id) n ≡ err e
memory_read_missing s id n e h = rw h

pub memory_stores : (s : Memory) (id n : ℕ) (d : List ℕ) → (if id == id then ok d else s id) ≡ ok d
memory_stores s id n d = ground arith

pub memory_apart :
    (s : Memory) (id j : ℕ) (d : List ℕ) → id ≢ j → (if id == j then ok d else s j) ≡ s j
memory_apart s id j d h = ground arith

pub ok-ne-err : {A : Type 0} {a : A} {e : Errno} → ok a ≡ err e → ⊥
ok-ne-err h = cc

abbrev pub memory_laws : NvsLaws memory
memory_laws = record {
  entry = λ s id. s id;
  read_entry = memory_read_entry;
  read_missing = memory_read_missing;
  write_stores = λ s id n d h. memory_stores s id n d;
  write_fails = λ s id d e h. absurd (ok-ne-err h);
  write_apart = memory_apart;
}

abbrev pub item : Item
item = 7 ∷ []

abbrev pub copies : ℕ → Queue
copies zero = []
copies (suc n) = item ∷ copies n

abbrev pub full_meta : Meta
full_meta = record { head = 24; tail = 0 }

abbrev pub no_meta : Meta
no_meta = record { head = 0; tail = 0 }

-- Every slot holds `item`, and the metadata says that 24 telemetry records are queued.
abbrev pub full_entries : Memory
full_entries id =
    if id == 1
    then ok (meta_bytes full_meta)
    else if id == 26
    then ok (meta_bytes no_meta)
    else ok item

full-slot : (ch : Channel) (t : ℕ) → full_entries (slot_id ch t) ≡ ok item
full-slot ch t = ground (arith, slot-ne-meta ch telemetry t, slot-ne-meta ch events t)

full-Holds : (ch : Channel) (n t : ℕ) → Holds memory_laws ch full_entries t (copies n)
full-Holds ch zero t = tt
full-Holds ch (suc n) t = (full-slot ch t, full-Holds ch n (t + 1))

copies-All : (n : ℕ) → All IsItem (copies n)
copies-All zero = tt
copies-All (suc n) = (omega arith, copies-All n)

abbrev pub metas : Meta → Channel → Meta
metas m telemetry = m
metas m events = no_meta

abbrev pub full : Fifo Memory
full = record { fs = full_entries; channel_meta = metas full_meta; mounted = true }

pub full-Represents : Represents memory_laws telemetry full (copies 24)
full-Represents = record {
  mounted = refl;
  cursors = refl;
  no_wrap = omega arith;
  fits = omega arith;
  items = copies-All 24;
  holds = full-Holds telemetry 24 0;
}

-- The same slots, with 48 events queued
abbrev pub event_metas : Channel → Meta
event_metas telemetry = no_meta
event_metas events = record { head = 48; tail = 0 }

abbrev pub full_events : Fifo Memory
full_events = record { fs = full_entries; channel_meta = event_metas; mounted = true }

pub full_events-Represents : Represents memory_laws events full_events (copies 48)
full_events-Represents = record {
  mounted = refl;
  cursors = refl;
  no_wrap = omega arith;
  fits = omega arith;
  items = copies-All 48;
  holds = full-Holds events 48 0;
}
