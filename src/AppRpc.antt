-- ===== src/AppRpc.antt =====
-- src/app_rpc.c: the countdown before a reboot, which no command starts at present. Its other functions, and
-- those of src/app_state.c, do nothing.
use telenode.Prelude.{ℕ, zero, suc, ◌+◌, ◌≡◌, subst, List, [], ◌∷◌, ◌++◌, arith}

-- What the handler does: a log line "Rebooting in %d seconds...", a sleep of a second, the flush of the
-- logs, and the reboot.
pub data Action : Type 0 where
  log : ℕ → Action
  sleep panic reboot : Action

-- The loop, from a value of `i` on
unfoldable pub countdown : ℕ → List Action
countdown zero = sleep ∷ []
countdown (suc i) = log (suc i) ∷ sleep ∷ countdown i

-- `reboot_work_handler`
unfoldable pub reboot_work_handler : List Action
reboot_work_handler = countdown 5 ++ (panic ∷ reboot ∷ [])

-- The seconds slept.
abbrev pub seconds : List Action → ℕ
seconds [] = 0
seconds (log n ∷ actions) = seconds actions
seconds (sleep ∷ actions) = suc (seconds actions)
seconds (panic ∷ actions) = seconds actions
seconds (reboot ∷ actions) = seconds actions

seconds-countdown :
    (i : ℕ) (rest : List Action) → seconds (countdown i ++ rest) ≡ suc i + seconds rest
unfolding countdown
seconds-countdown zero rest = omega arith
seconds-countdown (suc i) rest = omega (arith, seconds-countdown i rest)

-- A line that announces `n` seconds stands `n + 1` seconds before the reboot.
pub countdown_late :
    (i n : ℕ) (before after : List Action)
    → countdown i ++ (panic ∷ reboot ∷ []) ≡ before ++ (log n ∷ after)
    → seconds after ≡ suc n
unfolding countdown
countdown_late zero n [] after h = cc
countdown_late zero n (a ∷ []) after h = cc
countdown_late zero n (a ∷ b ∷ []) after h = cc
countdown_late zero n (a ∷ b ∷ c ∷ []) after h = cc
countdown_late zero n (a ∷ b ∷ c ∷ d ∷ before) after h = cc
countdown_late (suc i) n [] after h =
    let rest = countdown i ++ (panic ∷ reboot ∷ []) in
    let same : sleep ∷ rest ≡ after = cc in
    let k : suc i ≡ n = cc in
    subst (λ x. seconds x ≡ suc n) same (omega (arith, seconds-countdown i (panic ∷ reboot ∷ [])))
countdown_late (suc i) n (a ∷ []) after h = cc
countdown_late (suc i) n (a ∷ b ∷ before) after h = countdown_late i n before after cc
