-- ===== src/Boot/Tests.antt =====
-- Tests of src/main.c, and the theorems at concrete start-ups and events.
use telenode.Prelude.{ℕ, ◌≡◌, ◌↔◌, refl, true, false, List, [], ◌∷◌, some, none, arith, Any, ◌⊎◌}
use telenode.Prelude.Errno.{Result, ok, err, success, eio, enoent}
use telenode.Prelude.Texts.{codes}
use telenode.BufferFifo.Memory.{Memory, memory}
use telenode.Uplink.Memory.{Broker, down}
use telenode.Uplink.Address.{IsDeviceId, IsAddressed}
use telenode.Ota
use telenode.Ota.{OtaPointer, Download}
use telenode.Ota.Accept.{pointer}
use telenode.Boot.{
  Booted, Drivers, LteEvt, ca_chain, boot, uplink_mqtt_init, provision_uplink, provision_fota,
  app_sensors_init, obd_init, imu_init, setup_button, nw_reg_status, registered_home,
  registered_roaming, unregistered, other_evt, uplink_mqtt_start, lte_handler,
}
use telenode.Boot.Provision.{IsBooted, boot-IsBooted}
use telenode.Boot.Parts.{expected_parts, HasButton, boot_parts}
use telenode.Boot.Registration.{lte_events, IsRegistration, idle, running, lte_events_once}
use telenode.Boot.Memory.{Modem, modem, modem_laws, blank, creds, drivers, flash}

abbrev parser : List ℕ → Result OtaPointer
parser payload = ok (pointer (codes "1.2") payload)

abbrev starter : Modem → Download → Result (Unit {0}) × Modem
starter m d = (success, m)

abbrev imei : Result (List ℕ)
imei = ok (codes "356938035643809")

abbrev booted : Drivers → Modem → Booted Memory Broker Modem
booted d m = boot memory modem creds parser starter flash [] imei d down m

booted-handler : (booted drivers blank).handler_set ≡ true
unfolding boot uplink_mqtt_init provision_uplink Ota.init provision_fota
booted-handler = refl

booted-fota_key : (booted drivers blank).modem.entries 25 ca_chain ≡ some (codes "FOTA")
unfolding boot uplink_mqtt_init provision_uplink Ota.init provision_fota
booted-fota_key = refl

-- With the link up, each of the two parts has its first write refused.
booted-late : (booted drivers (record blank { active = true })).modem.refused ≡ 2
unfolding boot uplink_mqtt_init provision_uplink Ota.init provision_fota
booted-late = refl

booted-no_button : (booted (record drivers { button_pin = err eio }) blank).returned ≡ some eio
unfolding boot setup_button
booted-no_button = refl

-- The CAN controller is ready and takes no filter.
booted-no_filter :
    (booted (record drivers { can_filter = err enoent }) blank).started.obd_thread ≡ false
unfolding boot app_sensors_init obd_init imu_init
booted-no_filter = refl

-- A search, two registrations, a loss, and a third registration
abbrev registrations : List LteEvt
registrations =
    nw_reg_status unregistered
    ∷ nw_reg_status registered_roaming
    ∷ nw_reg_status registered_home
    ∷ other_evt
    ∷ nw_reg_status unregistered
    ∷ nw_reg_status registered_home
    ∷ []

registrations-threads : (lte_events idle registrations).threads ≡ 1
unfolding lte_events lte_handler uplink_mqtt_start
registrations-threads = refl

lte_events_once_example :
    Any IsRegistration registrations × (lte_events idle registrations ≡ running)
    ⊎ (Any IsRegistration registrations → ⊥) × (lte_events idle registrations ≡ idle)
lte_events_once_example = lte_events_once registrations

boot-IsBooted_example :
    IsBooted memory modem modem_laws creds parser starter blank (booted drivers blank)
boot-IsBooted_example =
    boot-IsBooted memory modem modem_laws creds parser starter flash [] imei drivers down blank refl
      (omega arith)

boot_parts_example :
    let b = booted drivers blank in
    (b.started ≡ expected_parts drivers)
    × IsDeviceId [] imei b.device_id
    × IsAddressed b.device_id b.uplink.topics
    × ((b.returned ≡ none) ↔ HasButton drivers)
boot_parts_example = boot_parts memory modem creds parser starter flash [] imei drivers down blank
