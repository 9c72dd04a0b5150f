-- ===== src/Boot.antt =====
-- src/main.c, and what its start-up calls in src/app_sensors.c, src/obd_j1979.c, src/imu_icm42688.c,
-- src/uplink_mqtt.c and src/ota_update.c. The drivers are given by what they answer, the modem library is
-- a parameter; logging, the LED and the thread that the button wakes are left out.

pub mod Registration
pub mod Provision
pub mod Parts
pub mod Memory
mod Tests
use telenode.Prelude.{
  ℕ, Bool, true, false, not, List, [], ◌∷◌, Option, none, some, min, ◌+◌, if◌then◌else◌,
}
use telenode.Prelude.Errno.{Errno, Result, ok, err, success}
use telenode.Nvs.{NvsOps}
use telenode.BufferFifo
use telenode.BufferFifo.{Flash}
use telenode.Uplink.{Uplink}
use telenode.Uplink.Address.{build_device_id, build_topics}
use telenode.Ota
use telenode.Ota.{OtaOps, OtaPointer, Download}

-- `enum modem_key_mgmt_cred_type`
pub data CredType : Type 0 where
  ca_chain public_cert private_cert : CredType

-- CONFIG_UPLINK_MQTT_SEC_TAG and CONFIG_FOTA_UPDATE_SEC_TAG, with the four texts of the headers
-- uplink_mqtt_certs.h and ota_update_certs.h
pub record Credentials : Type 0 where
  pub uplink_sec_tag : ℕ
  pub uplink_ca : List ℕ
  pub client_certificate : List ℕ
  pub private_key : List ℕ
  pub fota_sec_tag : ℕ
  pub fota_ca : List ℕ

-- The calls of nRF Connect's libraries: `modem_key_mgmt_write`, `fota_download_init` and
-- `lte_lc_connect_async`.
pub record ModemOps (W : Type 0) : Type 0 where
  pub key_write : W → ℕ → CredType → List ℕ → Result (Unit {0}) × W
  pub download_init : W → Result (Unit {0}) × W
  pub connect_async : W → W

-- What the drivers answer: `gpio_pin_configure_dt` for the GNSS pin, `device_is_ready` for the UART, the
-- CAN controller and the accelerometer, `can_start`, `can_add_rx_filter_msgq`, and the two calls for the
-- button.
pub record Drivers : Type 0 where
  pub gnss_sel : Result (Unit {0})
  pub uart_ready : Bool
  pub can_ready : Bool
  pub can_start : Result (Unit {0})
  pub can_filter : Result ℕ
  pub imu_ready : Bool
  pub button_pin : Result (Unit {0})
  pub button_interrupt : Result (Unit {0})

-- What start-up has enabled or created: the UART's interrupt and the threads.
pub record Started : Type 0 where
  pub uart_rx : Bool
  pub rmc_thread : Bool
  pub obd_thread : Bool
  pub imu_thread : Bool

abbrev pub nothing_started : Started
nothing_started = record {
  uart_rx = false;
  rmc_thread = false;
  obd_thread = false;
  imu_thread = false;
}

-- `app_sensors_init`: what the pin and the UART answer is only logged.
unfoldable pub app_sensors_init : Drivers → Started → Started
app_sensors_init drivers s = record s { uart_rx = true; rmc_thread = true }

-- `obd_j1979_init`: an error of `can_start` is only logged.
unfoldable pub obd_init : Drivers → Started → Started
obd_init drivers s =
    if not drivers.can_ready
    then s
    else elim drivers.can_filter [ err e ↦ s | ok filter_id ↦ record s { obd_thread = true } ]

-- `imu_icm42688_init`
unfoldable pub imu_init : Drivers → Started → Started
imu_init drivers s = if not drivers.imu_ready then s else record s { imu_thread = true }

module _ {W : Type 0} (modem : ModemOps W) (creds : Credentials) where
  -- `provision_credentials` of src/uplink_mqtt.c: it stops at the first failure.
  unfoldable pub provision_uplink : W → Result (Unit {0}) × W
  provision_uplink w =
      let (r, w') = modem.key_write w creds.uplink_sec_tag ca_chain creds.uplink_ca in
      let (r', w'') =
        modem.key_write w' creds.uplink_sec_tag public_cert creds.client_certificate in
      let (r'', w''') = modem.key_write w'' creds.uplink_sec_tag private_cert creds.private_key in
      elim r [
        | err e ↦ (err e, w')
        | ok done ↦ elim r' [
          | err e ↦ (err e, w'')
          | ok done ↦ elim r'' [ err e ↦ (err e, w''') | ok done ↦ (success, w''') ]
        ]
      ]

  -- `provision_credentials` of src/ota_update.c
  unfoldable pub provision_fota : W → Result (Unit {0}) × W
  provision_fota w = modem.key_write w creds.fota_sec_tag ca_chain creds.fota_ca

  -- What `ota_update_init` calls.
  abbrev pub ota_ops :
      (List ℕ → Result OtaPointer) → (W → Download → Result (Unit {0}) × W) → OtaOps W
  ota_ops json_parse download_start = record {
    json_parse = json_parse;
    provision = provision_fota;
    download_init = modem.download_init;
    download_start = download_start;
  }

-- `uplink_mqtt_init`, with CONFIG_UPLINK_MQTT_DEVICE_ID and what `modem_info_string_get` returns: its
-- result, `device_id`, the statics and the modem. A failure of `buffer_fifo_init` is only logged.
unfoldable pub uplink_mqtt_init :
    {S M W : Type 0}
    → NvsOps S
    → Flash S
    → ModemOps W
    → Credentials
    → List ℕ
    → Result (List ℕ)
    → Uplink S M
    → W
    → Result (Unit {0}) × List ℕ × Uplink S M × W
uplink_mqtt_init nvs flash modem creds config_id imei u w =
    let fifo = (BufferFifo.init nvs flash u.fifo).1 in
    let id = build_device_id config_id imei in
    let (r, w') = provision_uplink modem creds w in
    (r, id, record u { fifo = fifo; topics = build_topics id }, w')

-- What is there when `main` has started everything, with what the two initialisations returned and
-- whether the OTA handler is set. `returned` is the errno with which `main` ends, `none` where it goes on
-- to its loop.
pub record Booted (S M W : Type 0) : Type 0 where
  pub started : Started
  pub uplink_result : Result (Unit {0})
  pub ota_result : Result (Unit {0})
  pub handler_set : Bool
  pub device_id : List ℕ
  pub uplink : Uplink S M
  pub modem : W
  pub returned : Option Errno

-- The set-up of the button, after which `main` may return.
unfoldable pub setup_button : Drivers → Option Errno
setup_button drivers = elim drivers.button_pin [
  | err e ↦ some e
  | ok done ↦ elim drivers.button_interrupt [ err e ↦ some e | ok done ↦ none ]
]

module _ {S M W : Type 0} (nvs : NvsOps S) (modem : ModemOps W) (creds : Credentials)
    (json_parse : List ℕ → Result OtaPointer)
    (download_start : W → Download → Result (Unit {0}) × W) where
  -- `main` up to its loop, from the sensors on
  unfoldable pub boot : Flash S → List ℕ → Result (List ℕ) → Drivers → Uplink S M → W → Booted S M W
  boot flash config_id imei drivers u w =
      let started =
        imu_init drivers (obd_init drivers (app_sensors_init drivers nothing_started)) in
      let (r, id, u', w') = uplink_mqtt_init nvs flash modem creds config_id imei u w in
      let (r', w'', handler_set) = Ota.init (ota_ops modem creds json_parse download_start) w' in
      record {
        started = started;
        uplink_result = r;
        ota_result = r';
        handler_set = handler_set;
        device_id = id;
        uplink = u';
        modem = modem.connect_async w'';
        returned = setup_button drivers;
      }

-- `nw_reg_status` of an LTE event; `unregistered` stands for the other values.
pub data RegStatus : Type 0 where
  registered_home registered_roaming unregistered : RegStatus

-- `struct lte_lc_evt`
pub data LteEvt : Type 0 where
  nw_reg_status : RegStatus → LteEvt
  other_evt : LteEvt

-- `thread_started`, the calls of `k_thread_create` for the uplink's thread, and the count of
-- `network_up_sem`
pub record Starter : Type 0 where
  pub thread_started : Bool
  pub threads : ℕ
  pub network_up_sem : ℕ

-- `uplink_mqtt_start`; the semaphore counts to 1.
unfoldable pub uplink_mqtt_start : Starter → Starter
uplink_mqtt_start s = if s.thread_started then s else record {
  thread_started = true;
  threads = s.threads + 1;
  network_up_sem = min 1 (s.network_up_sem + 1);
}

abbrev pub is_registered : LteEvt → Bool
is_registered (nw_reg_status registered_home) = true
is_registered (nw_reg_status registered_roaming) = true
is_registered (nw_reg_status unregistered) = false
is_registered other_evt = false

-- `lte_handler`
unfoldable pub lte_handler : Starter → LteEvt → Starter
lte_handler s evt = if is_registered evt then uplink_mqtt_start s else s
