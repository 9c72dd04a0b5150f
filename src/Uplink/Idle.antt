-- ===== src/Uplink/Idle.antt =====
-- Between the rounds of the thread of src/uplink_mqtt.c the uplink counts as disconnected, so that publishers
-- buffer.
use telenode.Prelude.{ℕ, ◌*◌, ◌%◌, ◌^◌, min, ◌≡◌, Bool, false, Option, none, some}
use telenode.Prelude.Errno.{Errno, Result, err, success}
use telenode.Nvs.{NvsOps}
use telenode.Mqtt.{MqttOps, ConnectOps}
use telenode.Uplink.{Uplink}

module _ {S M : Type 0} (nvs : NvsOps S) (mqtt : MqttOps M) (conn : ConnectOps M)
    (handler_set : Bool) where
  -- How a round ends, by what the attempt to connect returned. It failed: the thread sleeps for the delay,
  -- and the next one is doubled, up to a minute. Or it succeeded: there is no sleep, and the delay is the
  -- first one again.
  pub data Ended (attempt : Result (Unit {0})) (backoff_ms : ℕ) (out : Uplink S M × ℕ × Option ℕ)
      : Type 0 where
    retried :
        (e : Errno)
        → attempt ≡ err e
        → out.0.connected ≡ false
        → out.1 ≡ min (backoff_ms * 2 % 2 ^ 32) 60000
        → out.2 ≡ some backoff_ms
        → Ended attempt backoff_ms out
    served :
        attempt ≡ success
        → out.0.connected ≡ false
        → out.1 ≡ 1000
        → out.2 ≡ none
        → Ended attempt backoff_ms out
