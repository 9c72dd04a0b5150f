-- ===== src/BufferFifo/FaultTests.antt =====
-- The faults of src/buffer_fifo.c at concrete states, over an NVS in memory.
use telenode.Prelude.{◌-◌, ◌^◌, ◌<◌, ◌≡◌, refl, true, false, [], ◌∷◌, arith}
use telenode.Prelude.Errno.{ok, err, success, enoent}
use telenode.BufferFifo.{telemetry, events, Fifo, Flash, push, peek, init, count}
use telenode.BufferFifo.Queue.{capacity}
use telenode.BufferFifo.View.{Represents}
use telenode.BufferFifo.Reboot.{Works}
use telenode.BufferFifo.Faults.{flash_after_push, power_loss_full, push_wrapped}
use telenode.BufferFifo.Memory.{
  Memory, memory, memory_laws, item, copies, no_meta, metas, full, full-Represents,
}

abbrev flash_with : Memory → Flash Memory
flash_with fs = record {
  area_open = ok 32768;
  set_device = λ s. s;
  device_ready = true;
  page_info = ok 4096;
  set_sectors = λ size sectors s. s;
  mount = λ s. (success, fs);
}

abbrev blank : Fifo Memory
blank = record { fs = λ id. err enoent; channel_meta = metas no_meta; mounted = false }

flash-Works : (fs : Memory) → Works (flash_with fs) blank.fs fs
flash-Works fs = record {
  area_size = 32768;
  page_size = 4096;
  opens = refl;
  ready = refl;
  pages = refl;
  mounts = refl;
}

abbrev cut : Memory
cut = flash_after_push memory_laws 1 full (1 ∷ 2 ∷ [])

power_loss_full_example :
    Represents memory_laws telemetry
      (init memory (flash_with cut) blank).1
      ((1 ∷ 2 ∷ []) ∷ copies 23)
power_loss_full_example =
    power_loss_full memory_laws full blank (1 ∷ 2 ∷ []) item (copies 23) 2 (flash-Works cut)
      full-Represents refl refl (omega arith) refl

none-Represents : Represents memory_laws events full []
none-Represents = record {
  mounted = refl;
  cursors = refl;
  no_wrap = omega arith;
  fits = omega arith;
  items = tt;
  holds = tt;
}

-- The head has just wrapped, and 16 records are queued.
abbrev wrapped : Fifo Memory
wrapped = record full { channel_meta = metas (record { head = 3; tail = 2 ^ 32 - 13 }) }

push_wrapped_example :
    (count telemetry wrapped ≡ 16)
    × (16 < capacity telemetry)
    × (peek memory telemetry (push memory telemetry wrapped (8 ∷ [])).1 256 ≡ ok (8 ∷ []))
push_wrapped_example =
    push_wrapped memory_laws telemetry wrapped (8 ∷ []) 3 1 256 (omega arith) refl refl refl
      (omega arith) (omega arith) refl
