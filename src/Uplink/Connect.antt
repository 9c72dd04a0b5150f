-- ===== src/Uplink/Connect.antt =====
-- `try_connect_once` of src/uplink_mqtt.c, and the delays between its calls in `uplink_thread_fn`. What the
-- socket does is given as a list of turns.
use telenode.Prelude.{
  ℕ, zero, suc, ◌+◌, ◌*◌, ◌%◌, ◌^◌, Bool, false, List, [], ◌∷◌, Option, none, some, min, leb,
  if◌then◌else◌,
}
use telenode.Prelude.Errno.{Result, ok, err, success, etimedout}
use telenode.Mqtt.{MqttOps, ConnectOps, Evt}
use telenode.Uplink.{Uplink}
use telenode.Uplink.Events.{handle_event}

abbrev pub reconnect_backoff_base_ms : ℕ
reconnect_backoff_base_ms = 1000

abbrev pub reconnect_backoff_max_ms : ℕ
reconnect_backoff_max_ms = 60000

abbrev pub connack_wait_timeout_ms : ℕ
connack_wait_timeout_ms = 5000

-- `poll_socket`: nothing to do, or an answer with POLLIN, and then the events that `mqtt_input` passes to
-- the handler, and with POLLHUP or POLLERR.
pub data Polled : Type 0 where
  nothing : Polled
  ready : Option (List Evt) → Bool → Polled

-- A turn of the loop that waits for the CONNACK: the uptime that it reads, and what it polls.
pub record PollTurn : Type 0 where
  pub uptime : ℕ
  pub polled : Polled

module _ {S M : Type 0} (mqtt : MqttOps M) (handler_set : Bool) where
  -- The events of one `mqtt_input`.
  unfoldable pub handle_events : Uplink S M → List Evt → Uplink S M
  handle_events u [] = u
  handle_events u (evt ∷ evts) = handle_events (handle_event mqtt handler_set u evt).0 evts

  -- The loop of `try_connect_once`. With no turn left, the deadline passes.
  unfoldable pub await_connack : ℕ → Uplink S M → List PollTurn → Result (Unit {0}) × Uplink S M
  await_connack deadline u [] = (err etimedout, u)
  await_connack deadline u (turn ∷ turns) =
      if leb deadline turn.uptime then (err etimedout, u) else elim turn.polled [
        | nothing ↦ await_connack deadline u turns
        | ready none hangup ↦
            let rest = await_connack deadline u turns in if hangup then (err etimedout, u) else rest
        | ready (some evts) hangup ↦
            let u' = handle_events u evts in
            let rest = await_connack deadline u' turns in
            if u'.connack_ok then (success, u') else if hangup then (err etimedout, u') else rest
      ]

  -- `try_connect_once`: `setup` is what `mqtt_client_setup` returns, `started` the uptime that sets the
  -- deadline.
  unfoldable pub try_connect_once :
      ConnectOps M
      → Result (Unit {0})
      → ℕ
      → List PollTurn
      → Uplink S M
      → Result (Unit {0}) × Uplink S M
  try_connect_once conn setup started turns u =
      let (r, m) = conn.connect u.client in
      let u' = record u { client = m; connack_ok = false } in
      let (r', u'') = await_connack (started + connack_wait_timeout_ms) u' turns in
      elim setup [
        | err e ↦ (err e, u)
        | ok done ↦ elim r [
          | err e ↦ (err e, u')
          | ok done ↦ elim r' [
            | ok done ↦ (success, u'')
            | err e ↦ (err e, record u'' { client = conn.abort u''.client })
          ]
        ]
      ]

-- `backoff_ms = MIN(backoff_ms * 2, RECONNECT_BACKOFF_MAX_MS)`, a uint32_t
unfoldable pub next_backoff : ℕ → ℕ
next_backoff backoff_ms = min (backoff_ms * 2 % 2 ^ 32) reconnect_backoff_max_ms

-- The delays before `uplink_thread_fn` tries again, from a first one on, for as many attempts in a row
-- that fail.
unfoldable pub delays : ℕ → ℕ → List ℕ
delays zero backoff_ms = []
delays (suc failures) backoff_ms = backoff_ms ∷ delays failures (next_backoff backoff_ms)

-- 1 s, 2 s, 4 s, and so on, 60 s at most
unfoldable pub doubled : ℕ → ℕ → List ℕ
doubled zero k = []
doubled (suc failures) k =
    min (reconnect_backoff_base_ms * 2 ^ k) reconnect_backoff_max_ms ∷ doubled failures (suc k)
