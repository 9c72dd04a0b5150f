-- ===== src/BufferFifo/Tests.antt =====
-- Tests of src/buffer_fifo.c over an NVS in memory, and the theorems at concrete states.
use telenode.Prelude.{
  ℕ, ◌≡◌, ◌⊎◌, refl, true, false, List, [], ◌∷◌, length, ◌==◌, if◌then◌else◌, arith,
}
use telenode.Prelude.Errno.{Errno, ok, err, success, enoent, eio}
use telenode.BufferFifo.{
  Channel, telemetry, events, Fifo, Meta, Flash, meta_bytes, push, peek, pop_ack, init, count,
  is_empty,
}
use telenode.BufferFifo.Queue
use telenode.BufferFifo.Queue.{Item, Queue, make_room, capacity}
use telenode.BufferFifo.View.{Represents, Persisted}
use telenode.BufferFifo.Write.{Written}
use telenode.BufferFifo.Refine.{push_refines}
use telenode.BufferFifo.Apart.{channels_apart}
use telenode.BufferFifo.Reboot.{Works, init_recovers, init_outcome}
use telenode.BufferFifo.Run.{
  Call, push_call, peek_call, pop_ack_call, count_call, is_empty_call, Queues, run, run_queues,
  Faultless,
}
use telenode.BufferFifo.Run.Agree.{Holding, run_refines}
use telenode.BufferFifo.Memory.{Memory, memory, memory_laws}

-- Two telemetry records, the second cursor from the last slot to the first.
abbrev two_queued : Queue
two_queued = (1 ∷ 2 ∷ []) ∷ (3 ∷ []) ∷ []

abbrev telemetry_meta : Meta
telemetry_meta = record { head = 25; tail = 23 }

abbrev no_meta : Meta
no_meta = record { head = 0; tail = 0 }

abbrev metas : Channel → Meta
metas telemetry = telemetry_meta
metas events = no_meta

abbrev stored_bytes : Memory
stored_bytes id =
    if id == 1
    then ok (meta_bytes telemetry_meta)
    else if id == 26
    then ok (meta_bytes no_meta)
    else if id == 25
    then ok (1 ∷ 2 ∷ [])
    else if id == 2
    then ok (3 ∷ [])
    else err enoent

abbrev two : Fifo Memory
two = record { fs = stored_bytes; channel_meta = metas; mounted = true }

abbrev queues : Queues
queues telemetry = two_queued
queues events = []

two-Represents : Represents memory_laws telemetry two two_queued
two-Represents = record {
  mounted = refl;
  cursors = refl;
  no_wrap = omega arith;
  fits = omega arith;
  items = omega arith;
  holds = (refl, (refl, tt));
}

none-Represents : Represents memory_laws events two []
none-Represents = record {
  mounted = refl;
  cursors = refl;
  no_wrap = omega arith;
  fits = omega arith;
  items = tt;
  holds = tt;
}

two-Holding : Holding memory_laws two queues
two-Holding = record {
  queue = elim [ telemetry ↦ two-Represents | events ↦ none-Represents ];
  persisted = elim [ telemetry ↦ refl | events ↦ refl ];
}

memory-Faultless : Faultless memory
memory-Faultless s id d = (length d, refl)

-- What these calls return: the third record goes behind the two, and the first two come back.
abbrev script : List Call
script =
    push_call telemetry (9 ∷ [])
    ∷ pop_ack_call telemetry
    ∷ peek_call telemetry 256
    ∷ push_call events []
    ∷ pop_ack_call events
    ∷ count_call telemetry
    ∷ is_empty_call events
    ∷ []

push_refines_example :
    ((e : Errno) × (Queue.push telemetry two_queued (9 ∷ []) ≡ (err e, two_queued))
      × (push memory telemetry two (9 ∷ []) ≡ (err e, two)))
    ⊎ ((q' : Queue) × (Queue.push telemetry two_queued (9 ∷ []) ≡ (success, q'))
        × Written memory_laws telemetry
            (make_room telemetry two_queued)
            q'
            (push memory telemetry two (9 ∷ [])))
push_refines_example =
    push_refines memory_laws telemetry two two_queued (9 ∷ []) two-Represents (omega arith)

channels_apart_example :
    Represents memory_laws telemetry (push memory events two (5 ∷ [])).1 two_queued
    × Persisted memory_laws telemetry (push memory events two (5 ∷ [])).1
    × Represents memory_laws telemetry (pop_ack memory events two).1 two_queued
    × Persisted memory_laws telemetry (pop_ack memory events two).1
channels_apart_example =
    channels_apart memory_laws events two (5 ∷ []) two_queued two-Represents refl

run_refines_example :
    ((run memory two script).0 ≡ (run_queues queues script).0)
    × Holding memory_laws (run memory two script).1 (run_queues queues script).1
run_refines_example =
    run_refines memory_laws script two queues memory-Faultless two-Holding
      (elim [ telemetry ↦ omega arith | events ↦ omega arith ])

-- Flash of 32 KiB in pages of 4 KiB, whose mount gives `fs`.
abbrev flash_with : Memory → Flash Memory
flash_with fs = record {
  area_open = ok 32768;
  set_device = λ s. s;
  device_ready = true;
  page_info = ok 4096;
  set_sectors = λ size sectors s. s;
  mount = λ s. (success, fs);
}

abbrev blank : Fifo Memory
blank = record { fs = λ id. err enoent; channel_meta = λ ch. no_meta; mounted = false }

flash-Works : (fs : Memory) → Works (flash_with fs) blank.fs fs
flash-Works fs = record {
  area_size = 32768;
  page_size = 4096;
  opens = refl;
  ready = refl;
  pages = refl;
  mounts = refl;
}

init_recovers_example :
    ((init memory (flash_with stored_bytes) blank).0 ≡ success)
    × Represents memory_laws telemetry (init memory (flash_with stored_bytes) blank).1 two_queued
init_recovers_example =
    init_recovers memory_laws telemetry blank two stored_bytes two_queued (flash-Works stored_bytes)
      (λ id. refl) two-Represents refl

init_outcome_example :
    let out = init memory (flash_with stored_bytes) blank in
    (out.0 ≡ success) × (out.1.mounted ≡ true)
    ⊎ ((e : Errno) × (out.0 ≡ err e)
        × (out.1.mounted ≡ false)
        × ((ch : Channel) (x : Item) → push memory ch out.1 x ≡ (err eio, out.1))
        × ((ch : Channel) (n : ℕ) → peek memory ch out.1 n ≡ err eio)
        × ((ch : Channel) → pop_ack memory ch out.1 ≡ (err eio, out.1))
        × ((ch : Channel) → count ch out.1 ≡ count ch blank)
        × ((ch : Channel) → is_empty ch out.1 ≡ is_empty ch blank))
init_outcome_example = init_outcome memory (flash_with stored_bytes) blank refl
