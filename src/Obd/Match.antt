-- ===== src/Obd/Match.antt =====
-- Which response `request_pid` of src/obd_j1979.c returns, and the ranges of the decoded values.
use telenode.Prelude.{
  ℕ, ◌+◌, ◌<◌, ◌≡◌, ◌↔◌, refl, ap, ◌∙◌, subst, true, false, List, [], ◌∷◌, ◌++◌, some, leb, All,
  Bool-cases, Option-cases, inl, inr, arith,
}
use telenode.Prelude.Errno.{ok, err, success, etimedout, Done-cases}
use telenode.Obd.{Turn, Exchange, is_response, await_pid, request_pid, response_wait_timeout_ms}

-- A turn that goes on, past a frame that does not answer the request.
pub record IsPassed (pid deadline : ℕ) (turn : Turn) : Type 0 where
  pub frame : List ℕ
  pub in_time : turn.uptime < deadline
  pub arrived : turn.received ≡ some frame
  pub other : is_response pid frame ≡ false

-- The first frame that answers the request arrives before the deadline, every turn before it passed by
-- another frame.
pub record IsFirst (pid deadline : ℕ) (turns : List Turn) (frame : List ℕ) : Type 0 where
  pub before : List Turn
  pub turn : Turn
  pub after : List Turn
  pub parts : turns ≡ before ++ (turn ∷ after)
  pub passed : All (IsPassed pid deadline) before
  pub in_time : turn.uptime < deadline
  pub arrived : turn.received ≡ some frame
  pub answers : is_response pid frame ≡ true

await_pid-passed :
    (pid deadline : ℕ) (before turns : List Turn)
    → All (IsPassed pid deadline) before
    → await_pid pid deadline (before ++ turns) ≡ await_pid pid deadline turns
unfolding await_pid
await_pid-passed pid deadline [] turns h = refl
await_pid-passed pid deadline (t ∷ before) turns h =
    let in_time : leb deadline t.uptime ≡ false = let k = h.0.in_time in ground arith in
    rw (in_time, h.0.arrived, h.0.other) (await_pid-passed pid deadline before turns h.1)

await_pid_sound :
    (pid deadline : ℕ) (turns : List Turn) (frame : List ℕ)
    → await_pid pid deadline turns ≡ ok frame
    → IsFirst pid deadline turns frame
unfolding await_pid
await_pid_sound pid deadline [] frame h = cc
await_pid_sound pid deadline (t ∷ turns) frame h = elim (Bool-cases (leb deadline t.uptime)) [
  | inl late ↦ let k : await_pid pid deadline (t ∷ turns) ≡ err etimedout = rw late refl in cc
  | inr in_time ↦ elim (Option-cases t.received) [
    | inl silent ↦
        let k : await_pid pid deadline (t ∷ turns) ≡ err etimedout = rw (in_time, silent) refl in cc
    | inr (f, e) ↦ elim (Bool-cases (is_response pid f)) [
      | inl answers ↦
          let k : await_pid pid deadline (t ∷ turns) ≡ ok f = rw (in_time, e, answers) refl in
          let same : f ≡ frame = cc in
          record {
            before = [];
            turn = t;
            after = turns;
            parts = refl;
            passed = tt;
            in_time = ground arith;
            arrived = e ∙ ap some same;
            answers = subst (λ x. is_response pid x ≡ true) same answers;
          }
      | inr other ↦
          let k : await_pid pid deadline turns ≡ ok frame = rw (← h, in_time, e, other) refl in
          let r = await_pid_sound pid deadline turns frame k in
          record {
            before = t ∷ r.before;
            turn = r.turn;
            after = r.after;
            parts = ap (λ l. t ∷ l) r.parts;
            passed = (
              record { frame = f; in_time = ground arith; arrived = e; other = other },
              r.passed,
            );
            in_time = r.in_time;
            arrived = r.arrived;
            answers = r.answers;
          }
    ]
  ]
]

await_pid_complete :
    (pid deadline : ℕ) (turns : List Turn) (frame : List ℕ)
    → IsFirst pid deadline turns frame
    → await_pid pid deadline turns ≡ ok frame
unfolding await_pid
await_pid_complete pid deadline turns frame r =
    let in_time : leb deadline r.turn.uptime ≡ false = let k = r.in_time in ground arith in
    ap (await_pid pid deadline) r.parts
    ∙ await_pid-passed pid deadline r.before (r.turn ∷ r.after) r.passed
    ∙ rw (in_time, r.arrived, r.answers) refl

-- `request_pid` succeeds if and only if the request is sent and a frame that answers it arrives within
-- 500 ms; it returns the first such frame, past any number of other frames.
pub request_pid_iff :
    (pid : ℕ) (x : Exchange) (frame : List ℕ)
    → (request_pid pid x ≡ ok frame)
      ↔ ((x.sent ≡ success) × IsFirst pid (x.started + response_wait_timeout_ms) x.turns frame)
unfolding request_pid
request_pid_iff pid x frame = elim (Done-cases x.sent) [
  | inl sent ↦ (
    λ h. (
      sent,
      await_pid_sound pid (x.started + response_wait_timeout_ms) x.turns frame
          (rw (← h, sent) refl),
    ),
    λ h. rw (sent, request_pid) (await_pid_complete pid (x.started + 500) x.turns frame h.1),
  )
  | inr (e, failed) ↦
      (λ h. let k : request_pid pid x ≡ err e = rw (failed, request_pid) refl in cc, λ h. cc)
]
