-- ===== src/Device/Bounds.antt =====
-- The statics of the firmware stay within their sizes, in every interleaving.
use telenode.Prelude.{refl, arith}
use telenode.Obd.{get_latest, get_latest_dtcs}
use telenode.Obd.Ranges.{poll-fits}
use telenode.Uplink.{Uplink}
use telenode.Sensors.Queues.{process_rmc_frame-IsQueued}
use telenode.Device.{
  sample_unsent, sample_pushed, dtc_unsent, dtc_pushed, sample_push, Env, Device, rmc_round,
  harsh_round, client_event, ack_one, Step, byte, rmc_frame, polled, sampled, streamed, scanned,
  reported, downloaded, network_up, setup_failed, connecting, awaited, gave_up, accepted, greeted,
  subscribed, peeked, sent, acked, served, failed, dropped, aborted, Reach, here, next, start,
}
use telenode.Device.Limits.{
  next_backoff-IsDelay, IsBounded, same-IsBounded, uart_byte-IsBounded, report_one-IsBounded,
  dtc_push-IsBounded, stream_one-IsBounded, begin_connect-IsBounded, peek_one-IsBounded,
  send_one-IsBounded,
}

module _ {S M F Coord Float : Type 0} (env : Env S M F Coord Float) where
  Step-IsBounded :
      {d e : Device S M F Coord Float} → Step env d e → IsBounded env d → IsBounded env e
  unfolding rmc_round harsh_round client_event ack_one sample_push get_latest_dtcs
  Step-IsBounded {d} (byte now c) b = uart_byte-IsBounded env d now c b
  Step-IsBounded {d} rmc_frame b = record {
    rx = b.rx;
    queues = process_rmc_frame-IsQueued env.minmea env.settings d.fixes (get_latest d.obd) b.queues;
    latest = b.latest;
    scan = b.scan;
    table = b.table;
    codes = b.codes;
    delay = b.delay;
  }
  Step-IsBounded (polled round) b = record {
    rx = b.rx;
    queues = b.queues;
    latest = poll-fits env.quotient round;
    scan = b.scan;
    table = b.table;
    codes = b.codes;
    delay = b.delay;
  }
  Step-IsBounded {d} (streamed idle c rest q) b = stream_one-IsBounded env d c rest q b
  Step-IsBounded {d} (scanned idle q) b = record {
    rx = b.rx;
    queues = b.queues;
    latest = b.latest;
    scan = b.latest;
    table = b.table;
    codes = b.codes;
    delay = b.delay;
  }
  Step-IsBounded {d} (reported idle code rest q) b = report_one-IsBounded env d code rest q b
  Step-IsBounded {d} (connecting p) b = begin_connect-IsBounded env d b
  Step-IsBounded {d} (peeked ch p) b = peek_one-IsBounded env d ch b
  Step-IsBounded {d} (sent ch bytes p) b = send_one-IsBounded env d ch bytes b
  Step-IsBounded {d} (sampled idle fetched accel) b = same-IsBounded env d _ refl b.delay b
  Step-IsBounded {d} (sample_unsent x y event u idle same harsh unsent) b =
      same-IsBounded env d _ refl b.delay b
  Step-IsBounded {d} (sample_pushed x e) b = same-IsBounded env d _ refl b.delay b
  Step-IsBounded {d} (dtc_unsent code rest u idle q fresh unsent) b =
      same-IsBounded env d _ refl b.delay b
  Step-IsBounded {d} (dtc_pushed code rest x q e) b = dtc_push-IsBounded env d code rest x q b
  Step-IsBounded {d} (downloaded evt) b = same-IsBounded env d _ refl b.delay b
  Step-IsBounded {d} (network_up p) b = same-IsBounded env d _ refl b.delay b
  Step-IsBounded {d} (setup_failed p) b =
      same-IsBounded env d _ refl (next_backoff-IsDelay d.backoff_ms b.delay) b
  Step-IsBounded {d} (awaited evt p) b = same-IsBounded env d _ refl b.delay b
  Step-IsBounded {d} (gave_up p) b =
      same-IsBounded env d _ refl (next_backoff-IsDelay d.backoff_ms b.delay) b
  Step-IsBounded {d} (accepted p q) b = same-IsBounded env d _ refl (omega arith, omega arith) b
  Step-IsBounded {d} (greeted p) b = same-IsBounded env d _ refl b.delay b
  Step-IsBounded {d} (subscribed p) b = same-IsBounded env d _ refl b.delay b
  Step-IsBounded {d} (acked ch p) b = same-IsBounded env d _ refl b.delay b
  Step-IsBounded {d} (served evt p) b = same-IsBounded env d _ refl b.delay b
  Step-IsBounded {d} (failed p) b = same-IsBounded env d _ refl b.delay b
  Step-IsBounded {d} (dropped p q) b = same-IsBounded env d _ refl b.delay b
  Step-IsBounded {d} (aborted p) b = same-IsBounded env d _ refl b.delay b

  Reach-IsBounded :
      {d e : Device S M F Coord Float} → IsBounded env d → Reach env d e → IsBounded env e
  Reach-IsBounded b here = b
  Reach-IsBounded b (next r st) = Step-IsBounded st (Reach-IsBounded b r)

  -- The firmware stays within its arrays. From its start on, whatever the receiver, the vehicle, flash and the
  -- network do, and in any interleaving of its threads: the UART buffer has room for its NUL, the two
  -- queues hold at most 2 and 64 messages, each a valid fix of the receiver unless fake coordinates are
  -- enabled, the lists of trouble codes fit, the table of reported codes holds at most 16, each of five
  -- characters, and the delay before an attempt to connect is between 1 and 60 seconds.
  pub device-IsBounded :
      (u : Uplink S M) (fota : F) (d : Device S M F Coord Float)
      → Reach env (start u fota) d
      → IsBounded env d
  device-IsBounded u fota d r =
      Reach-IsBounded
        (record {
          rx = omega arith;
          queues = record {
            rmc_fits = omega arith;
            cat_fits = omega arith;
            rmc_genuine = tt;
            cat_genuine = tt;
          };
          latest = (omega arith, tt);
          scan = (omega arith, tt);
          table = omega arith;
          codes = tt;
          delay = (omega arith, omega arith);
        })
        r
