-- ===== src/Uplink/Accepted.antt =====
-- An attempt of src/uplink_mqtt.c to connect succeeds only if the broker accepts it, in time.
use telenode.Prelude.{
  ℕ, ◌+◌, ◌<◌, ◌≡◌, refl, sym, ap, ◌∙◌, Bool, true, false, ◌||◌, List, [], ◌∷◌, ◌++◌, none, some,
  leb, ◌==◌, if◌then◌else◌, Bool-cases, inl, inr, arith,
}
use telenode.Prelude.Errno.{Errno, Result, err, success, etimedout, Done-cases, success-ne-err}
use telenode.Mqtt.{
  MqttOps, ConnectOps, PublishEvt, Evt, connack, disconnect, puback, publish, pingresp, unhandled,
}
use telenode.Uplink.{Uplink}
use telenode.Uplink.Events.{handle_event, handle_publish, is_qos1, ota_payload_max_len}
use telenode.Uplink.Connect.{
  PollTurn, nothing, ready, handle_events, await_connack, try_connect_once, connack_wait_timeout_ms,
}

-- A CONNACK with result 0 among the events of a turn
abbrev pub is_accept : Evt → Bool
is_accept (connack result) = if result == 0 then true else false
is_accept disconnect = false
is_accept (puback result) = false
is_accept (publish message) = false
is_accept pingresp = false
is_accept unhandled = false

abbrev pub has_accept : List Evt → Bool
has_accept [] = false
has_accept (evt ∷ evts) = is_accept evt || has_accept evts

-- A turn before the deadline in which the broker accepts the connection.
pub record IsAnswered (deadline : ℕ) (turns : List PollTurn) : Type 0 where
  pub before : List PollTurn
  pub turn : PollTurn
  pub after : List PollTurn
  pub evts : List Evt
  pub hangup : Bool
  pub parts : turns ≡ before ++ (turn ∷ after)
  pub in_time : turn.uptime < deadline
  pub input : turn.polled ≡ ready (some evts) hangup
  pub accepts : has_accept evts ≡ true

later :
    (deadline : ℕ) (t : PollTurn) (turns : List PollTurn)
    → IsAnswered deadline turns
    → IsAnswered deadline (t ∷ turns)
later deadline t turns a = record {
  before = t ∷ a.before;
  turn = a.turn;
  after = a.after;
  evts = a.evts;
  hangup = a.hangup;
  parts = ap (λ l. t ∷ l) a.parts;
  in_time = a.in_time;
  input = a.input;
  accepts = a.accepts;
}

no_success : (x : Errno) (r : Result (Unit {0})) → r ≡ err x → r ≡ success → ⊥
no_success x r e k = success-ne-err (sym k ∙ e)

module _ {S M : Type 0} (mqtt : MqttOps M) (handler_set : Bool) where
  handle_publish-connack_ok :
      (u : Uplink S M) (message : PublishEvt)
      → (handle_publish mqtt handler_set u message).0.connack_ok ≡ u.connack_ok
  unfolding handle_publish
  handle_publish-connack_ok u message =
      elim (Bool-cases (leb ota_payload_max_len message.payload_len)) [
        | inl large ↦ elim (Bool-cases (is_qos1 message.qos)) [
          | inl q ↦ rw (q, large) refl
          | inr q ↦ rw (q, large) refl
        ]
        | inr fits ↦ elim (Bool-cases (is_qos1 message.qos)) [
          | inl q ↦ rw (q, fits) refl
          | inr q ↦ rw (q, fits) refl
        ]
      ]

  handle_event-connack_ok :
      (u : Uplink S M) (evt : Evt)
      → u.connack_ok ≡ false
      → is_accept evt ≡ false
      → (handle_event mqtt handler_set u evt).0.connack_ok ≡ false
  unfolding handle_event
  handle_event-connack_ok u (connack result) h k = k
  handle_event-connack_ok u disconnect h k = h
  handle_event-connack_ok u (puback result) h k = h
  handle_event-connack_ok u (publish message) h k = handle_publish-connack_ok u message ∙ h
  handle_event-connack_ok u pingresp h k = h
  handle_event-connack_ok u unhandled h k = h

  handle_events-connack_ok :
      (evts : List Evt) (u : Uplink S M)
      → u.connack_ok ≡ false
      → (handle_events mqtt handler_set u evts).connack_ok ≡ true
      → has_accept evts ≡ true
  unfolding handle_events
  handle_events-connack_ok [] u h k = cc
  handle_events-connack_ok (evt ∷ evts) u h k = elim (Bool-cases (is_accept evt)) [
    | inl accepts ↦ rw accepts refl
    | inr other ↦
        rw other (handle_events-connack_ok evts _ (handle_event-connack_ok u evt h other) k)
  ]

  await_connack_sound :
      (deadline : ℕ) (turns : List PollTurn) (u : Uplink S M)
      → u.connack_ok ≡ false
      → (await_connack mqtt handler_set deadline u turns).0 ≡ success
      → IsAnswered deadline turns
  unfolding await_connack
  await_connack_sound deadline [] u h k = absurd (success-ne-err (sym k))
  await_connack_sound deadline (t ∷ turns) u h k = elim (Bool-cases (leb deadline t.uptime)) [
    | inl late ↦ absurd (
        no_success etimedout (await_connack mqtt handler_set deadline u (t ∷ turns)).0
          (rw late refl) k)
    | inr in_time ↦
        elim t.polled as (λ x. t.polled ≡ x → IsAnswered deadline (t ∷ turns)) [
          | nothing ↦ λ e.
              later deadline t turns
                (await_connack_sound deadline turns u h (rw (← k, in_time, e) refl))
          | ready none true ↦ λ e. absurd (
              no_success etimedout (await_connack mqtt handler_set deadline u (t ∷ turns)).0
                (rw (in_time, e) refl) k)
          | ready none false ↦ λ e.
              later deadline t turns
                (await_connack_sound deadline turns u h (rw (← k, in_time, e) refl))
          | ready (some evts) hangup ↦ λ e.
              let u' = handle_events mqtt handler_set u evts in
              elim (Bool-cases u'.connack_ok) [
                | inl accepted ↦ record {
                  before = [];
                  turn = t;
                  after = turns;
                  evts = evts;
                  hangup = hangup;
                  parts = refl;
                  in_time = ground arith;
                  input = e;
                  accepts = handle_events-connack_ok evts u h accepted;
                }
                | inr not_yet ↦ elim (Bool-cases hangup) [
                  | inl hung ↦ absurd (
                      no_success etimedout (await_connack mqtt handler_set deadline u (t ∷ turns)).0
                        (rw (in_time, e, not_yet, hung) refl) k)
                  | inr up ↦ later deadline t turns (
                      await_connack_sound deadline turns u' not_yet
                        (rw (← k, in_time, e, not_yet, up) refl))
                ]
              ]
        ]
          refl
  ]

  -- An attempt to connect succeeds only if the client is set up and the connection opened, and only if
  -- the broker sends a CONNACK with result 0 within 5000 ms of it: one of an earlier attempt does not
  -- count.
  pub try_connect_once_sound :
      (conn : ConnectOps M) (setup : Result (Unit {0})) (started : ℕ) (turns : List PollTurn)
      (u : Uplink S M)
      → (try_connect_once mqtt handler_set conn setup started turns u).0 ≡ success
      → (setup ≡ success)
        × ((conn.connect u.client).0 ≡ success)
        × IsAnswered (started + connack_wait_timeout_ms) turns
  unfolding try_connect_once
  try_connect_once_sound conn setup started turns u k =
      let u' : Uplink S M = record u { client = (conn.connect u.client).1; connack_ok = false } in
      let r = await_connack mqtt handler_set (started + connack_wait_timeout_ms) u' turns in
      let all = try_connect_once mqtt handler_set conn setup started turns u in
      elim (Done-cases setup) [
        | inr (x, e) ↦ absurd (no_success x all.0 (rw e refl) k)
        | inl set ↦ elim (Done-cases (conn.connect u.client).0) [
          | inr (x, e) ↦ absurd (no_success x all.0 (rw (set, e) refl) k)
          | inl opened ↦ elim (Done-cases r.0) [
            | inr (x, e) ↦ absurd (no_success x all.0 (rw (set, opened, e) refl) k)
            | inl accepted ↦ (
              set,
              opened,
              await_connack_sound (started + connack_wait_timeout_ms) turns u' refl accepted,
            )
          ]
        ]
      ]
