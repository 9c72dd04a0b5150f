-- ===== src/Boot/Registration.antt =====
-- `lte_handler` of src/main.c and `uplink_mqtt_start` of src/uplink_mqtt.c under any sequence of events.
use telenode.Prelude.{
  ◌≡◌, refl, ◌∙◌, ap, true, false, List, [], ◌∷◌, Any, Bool-cases, ◌⊎◌, inl, inr,
}
use telenode.Boot.{
  nw_reg_status, registered_home, registered_roaming, unregistered, other_evt, Starter, LteEvt,
  is_registered, uplink_mqtt_start, lte_handler,
}

-- The events, in their order.
unfoldable pub lte_events : Starter → List LteEvt → Starter
lte_events s [] = s
lte_events s (evt ∷ evts) = lte_events (lte_handler s evt) evts

-- A registration, at home or roaming
abbrev pub IsRegistration : LteEvt → Type 0
IsRegistration evt =
    (evt ≡ nw_reg_status registered_home) ⊎ (evt ≡ nw_reg_status registered_roaming)

-- The statics when the firmware starts.
abbrev pub idle : Starter
idle = record { thread_started = false; threads = 0; network_up_sem = 0 }

-- The one thread is created and may pass its semaphore.
abbrev pub running : Starter
running = record { thread_started = true; threads = 1; network_up_sem = 1 }

lte_handler_started : (s : Starter) (evt : LteEvt) → s.thread_started ≡ true → lte_handler s evt ≡ s
unfolding lte_handler uplink_mqtt_start
lte_handler_started s evt h = elim (Bool-cases (is_registered evt)) [
  | inl up ↦ rw (up, h) refl
  | inr down ↦ rw down refl
]

lte_events_started :
    (s : Starter) (evts : List LteEvt) → s.thread_started ≡ true → lte_events s evts ≡ s
unfolding lte_events
lte_events_started s [] h = refl
lte_events_started s (evt ∷ evts) h =
    ap (λ x. lte_events x evts) (lte_handler_started s evt h) ∙ lte_events_started s evts h

IsRegistration-cases :
    (evt : LteEvt)
    → IsRegistration evt × (lte_handler idle evt ≡ running)
      ⊎ (IsRegistration evt → ⊥) × (lte_handler idle evt ≡ idle)
unfolding lte_handler uplink_mqtt_start
IsRegistration-cases (nw_reg_status registered_home) = inl (inl refl, refl)
IsRegistration-cases (nw_reg_status registered_roaming) = inl (inr refl, refl)
IsRegistration-cases (nw_reg_status unregistered) =
    inr (λ h. elim h [ inl e ↦ cc | inr e ↦ cc ], refl)
IsRegistration-cases other_evt = inr (λ h. elim h [ inl e ↦ cc | inr e ↦ cc ], refl)

-- Whatever events the modem reports after the firmware starts: either one of them is a registration, at home
-- or roaming, and the thread of the uplink has been created once, however many follow, and its semaphore
-- is given; or none is, and no thread has been created.
pub lte_events_once :
    (evts : List LteEvt)
    → Any IsRegistration evts × (lte_events idle evts ≡ running)
      ⊎ (Any IsRegistration evts → ⊥) × (lte_events idle evts ≡ idle)
unfolding lte_events
lte_events_once [] = inr (λ h. h, refl)
lte_events_once (evt ∷ evts) = elim (IsRegistration-cases evt) [
  | inl (r, e) ↦ inl (inl r, ap (λ s. lte_events s evts) e ∙ lte_events_started running evts refl)
  | inr (other, e) ↦ elim (lte_events_once evts) [
    | inl (a, k) ↦ inl (inr a, ap (λ s. lte_events s evts) e ∙ k)
    | inr (a, k) ↦
        inr (λ h. elim h [ inl r ↦ other r | inr b ↦ a b ], ap (λ s. lte_events s evts) e ∙ k)
  ]
]
