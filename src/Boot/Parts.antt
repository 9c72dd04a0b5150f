-- ===== src/Boot/Parts.antt =====
-- Which failures the start-up in src/main.c survives, and what runs afterwards.
use telenode.Prelude.{
  ℕ, ◌≡◌, ◌↔◌, refl, ap, ◌∙◌, ◌&&◌, Bool, true, false, List, none, Bool-cases, inl, inr,
}
use telenode.Prelude.Errno.{Result, ok, err, success, Done-cases, Result-cases}
use telenode.Nvs.{NvsOps}
use telenode.BufferFifo.{Flash}
use telenode.Uplink.{Uplink}
use telenode.Uplink.Address.{
  IsDeviceId, build_device_id-IsDeviceId, IsAddressed, build_topics-IsAddressed,
}
use telenode.Ota.{OtaPointer, Download}
use telenode.Boot.{
  Credentials, ModemOps, Drivers, Started, app_sensors_init, obd_init, imu_init, nothing_started,
  setup_button, uplink_mqtt_init, boot,
}

abbrev pub is_ok {ℓ} : {A : Type ℓ} → Result A → Bool
is_ok (ok a) = true
is_ok (err e) = false

-- What runs: the GPS parts always, the OBD-II thread where the CAN controller is ready and takes the
-- filter, the accelerometer's thread where its device is ready.
abbrev pub expected_parts : Drivers → Started
expected_parts drivers = record {
  uart_rx = true;
  rmc_thread = true;
  obd_thread = drivers.can_ready && is_ok drivers.can_filter;
  imu_thread = drivers.imu_ready;
}

-- The main thread goes on where the button can be set up.
abbrev pub HasButton : Drivers → Type 0
HasButton drivers = (drivers.button_pin ≡ success) × (drivers.button_interrupt ≡ success)

obd_init-parts :
    (drivers : Drivers) (s : Started)
    → s.obd_thread ≡ false
    → obd_init drivers s ≡ record s { obd_thread = drivers.can_ready && is_ok drivers.can_filter }
unfolding obd_init
obd_init-parts drivers s h = elim (Bool-cases drivers.can_ready) [
  | inr off ↦ simp off (ap (λ b. record s { obd_thread = b }) h)
  | inl on ↦ elim (Result-cases drivers.can_filter) [
    | inl (id, e) ↦ simp (on, e) refl
    | inr (x, e) ↦ simp (on, e) (ap (λ b. record s { obd_thread = b }) h)
  ]
]

imu_init-parts :
    (drivers : Drivers) (s : Started)
    → s.imu_thread ≡ false
    → imu_init drivers s ≡ record s { imu_thread = drivers.imu_ready }
unfolding imu_init
imu_init-parts drivers s h = elim (Bool-cases drivers.imu_ready) [
  | inl on ↦ simp on refl
  | inr off ↦ simp off (ap (λ b. record s { imu_thread = b }) h)
]

parts :
    (drivers : Drivers)
    → imu_init drivers (obd_init drivers (app_sensors_init drivers nothing_started))
      ≡ expected_parts drivers
unfolding app_sensors_init
parts drivers =
    ap (imu_init drivers) (obd_init-parts drivers (app_sensors_init drivers nothing_started) refl)
    ∙ imu_init-parts drivers _ refl

setup_button_iff : (drivers : Drivers) → (setup_button drivers ≡ none) ↔ HasButton drivers
unfolding setup_button
setup_button_iff drivers = elim (Done-cases drivers.button_pin) [
  | inr (e, x) ↦ rw x (λ h. cc, λ h. let k = h.0 in cc)
  | inl x ↦ elim (Done-cases drivers.button_interrupt) [
    | inl y ↦ rw (x, setup_button, y) (λ h. (refl, refl), λ h. refl)
    | inr (e, y) ↦ rw (x, setup_button, y) (λ h. cc, λ h. let k = h.1 in cc)
  ]
]

module _ {S M W : Type 0} (nvs : NvsOps S) (modem : ModemOps W) (creds : Credentials)
    (json_parse : List ℕ → Result OtaPointer)
    (download_start : W → Download → Result (Unit {0}) × W) where
  -- Whatever flash, the modem and the libraries answer: after the start-up the GPS parts run, the OBD-II
  -- thread runs where the CAN controller is ready and takes its filter, and the accelerometer's thread
  -- where its device is ready; the device id is the first 31 characters of the configured id, or where
  -- that is empty of the IMEI, or the placeholder; no topic that is made of this device id is cut, and no
  -- two are the same; and the main thread goes on to its loop exactly if the button can be set up.
  pub boot_parts :
      (flash : Flash S) (config_id : List ℕ) (imei : Result (List ℕ)) (drivers : Drivers)
      (u : Uplink S M) (w : W)
      → let b = boot nvs modem creds json_parse download_start flash config_id imei drivers u w in
        (b.started ≡ expected_parts drivers)
        × IsDeviceId config_id imei b.device_id
        × IsAddressed b.device_id b.uplink.topics
        × ((b.returned ≡ none) ↔ HasButton drivers)
  unfolding boot uplink_mqtt_init
  boot_parts flash config_id imei drivers u w =
      let addressed = build_topics-IsAddressed config_id imei in
      (
        parts drivers,
        build_device_id-IsDeviceId config_id imei,
        addressed.1,
        setup_button_iff drivers,
      )
