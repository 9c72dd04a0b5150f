-- ===== src/Uplink/Thread.antt =====
-- A round of `uplink_thread_fn` of src/uplink_mqtt.c: an attempt to connect, and if it succeeds the status,
-- the subscription, the replay, and the loop that serves the connection. The client's own state changes in
-- `mqtt_input` only by what the handler calls, and not in `mqtt_live`; the timeout of the poll is left out.
use telenode.Prelude.{ℕ, Bool, true, false, not, List, [], ◌∷◌, Option, none, some, if◌then◌else◌}
use telenode.Prelude.Errno.{Result, ok, err}
use telenode.Prelude.Texts.{codes}
use telenode.Nvs.{NvsOps}
use telenode.Mqtt.{MqttOps, ConnectOps, Evt}
use telenode.Uplink.{Uplink, publish_status, subscribe_ota_topic, drain_buffered_records}
use telenode.Uplink.Connect.{
  PollTurn, handle_events, try_connect_once, next_backoff, reconnect_backoff_base_ms,
}

-- A turn while connected, by the result of `poll_socket`: negative; 0, and then what `mqtt_live` returns;
-- or positive, with POLLIN, and then the events of `mqtt_input` and its result, and with POLLHUP or
-- POLLERR.
pub data Served : Type 0 where
  poll_failed : Served
  timed_out : Result (Unit {0}) → Served
  readable : Option (List Evt × Result (Unit {0})) → Bool → Served

-- `online_payload`
abbrev pub online_payload : List ℕ
online_payload = codes "{\"state\":\"online\"}"

module _ {S M : Type 0} (mqtt : MqttOps M) (handler_set : Bool) where
  -- What a turn leaves, and whether the loop goes on to its test.
  unfoldable pub serve_turn : Uplink S M → Served → Uplink S M × Bool
  serve_turn u poll_failed = (u, true)
  serve_turn u (timed_out (ok done)) = (u, true)
  serve_turn u (timed_out (err e)) = (record u { connected = false }, false)
  serve_turn u (readable none hangup) =
      if hangup then (record u { connected = false }, false) else (u, true)
  serve_turn u (readable (some (evts, err e)) hangup) =
      (record (handle_events mqtt handler_set u evts) { connected = false }, false)
  serve_turn u (readable (some (evts, ok done)) hangup) =
      let u' = handle_events mqtt handler_set u evts in
      if hangup then (record u' { connected = false }, false) else (u', true)

  -- `while (uplink_connected)`; `none` when the turns are over and the loop is not.
  unfoldable pub serve : Uplink S M → List Served → Option (Uplink S M)
  serve u [] = if u.connected then none else some u
  serve u (turn ∷ turns) =
      let (u', goes_on) = serve_turn u turn in
      let rest = serve u' turns in
      if not u.connected then some u else if goes_on then rest else some u'

module _ {S M : Type 0} (nvs : NvsOps S) (mqtt : MqttOps M) (conn : ConnectOps M)
    (handler_set : Bool) where
  -- A connection, from `uplink_connected = true` to `mqtt_abort`; `fuel` is that of the replay.
  unfoldable pub session : ℕ → List Served → Uplink S M → Option (Uplink S M)
  session fuel turns u =
      let online = (publish_status mqtt (record u { connected = true }) online_payload).1 in
      elim (drain_buffered_records nvs mqtt fuel (subscribe_ota_topic mqtt online)) [
        | none ↦ none
        | some drained ↦ elim (serve mqtt handler_set drained turns) [
          | none ↦ none
          | some u' ↦ some (record u' { client = conn.abort u'.client })
        ]
      ]

  -- A round: the uplink, the next `backoff_ms`, and the time slept.
  unfoldable pub thread_round :
      Result (Unit {0})
      → ℕ
      → List PollTurn
      → ℕ
      → List Served
      → Uplink S M × ℕ
      → Option (Uplink S M × ℕ × Option ℕ)
  thread_round setup started polls fuel turns s =
      let (r, u') = try_connect_once mqtt handler_set conn setup started polls s.0 in
      elim r [
        | err e ↦ some (u', next_backoff s.1, some s.1)
        | ok done ↦ elim (session fuel turns u') [
          | none ↦ none
          | some u'' ↦ some (u'', reconnect_backoff_base_ms, none)
        ]
      ]
