-- ===== src/Boot/Memory.antt =====
-- Test data for src/main.c: a modem in memory that keeps its credentials, drivers that all answer, and an
-- empty flash.
use telenode.Prelude.{
  ℕ, ◌+◌, ◌≡◌, ◌≢◌, ◌⊎◌, refl, Bool, true, false, ◌&&◌, List, Option, none, some, ◌==◌,
  if◌then◌else◌, Bool-cases, inl, inr, ==_iff,
}
use telenode.Prelude.Errno.{Result, ok, err, success, enoent}
use telenode.Prelude.Texts.{codes}
use telenode.BufferFifo.{Flash}
use telenode.BufferFifo.Memory.{Memory}
use telenode.Boot.{CredType, ca_chain, public_cert, private_cert, Credentials, ModemOps, Drivers}
use telenode.Boot.Provision.{ModemLaws, eperm}

pub record Modem : Type 0 where
  pub active : Bool
  pub refused : ℕ
  pub entries : ℕ → CredType → Option (List ℕ)

abbrev same_type : CredType → CredType → Bool
same_type ca_chain ca_chain = true
same_type public_cert public_cert = true
same_type private_cert private_cert = true
same_type _ _ = false

abbrev stored : Modem → ℕ → CredType → List ℕ → ℕ → CredType → Option (List ℕ)
stored m tag type text tag' type' =
    if (tag' == tag) && same_type type' type then some text else m.entries tag' type'

abbrev key_write : Modem → ℕ → CredType → List ℕ → Result (Unit {0}) × Modem
key_write m tag type text = (
  if m.active then err eperm else success,
  record {
    active = m.active;
    refused = if m.active then m.refused + 1 else m.refused;
    entries = if m.active then m.entries else stored m tag type text;
  },
)

abbrev pub modem : ModemOps Modem
modem = record {
  key_write = key_write;
  download_init = λ m. (success, m);
  connect_async = λ m. record m { active = true };
}

same_type_refl : (type : CredType) → same_type type type ≡ true
same_type_refl ca_chain = refl
same_type_refl public_cert = refl
same_type_refl private_cert = refl

same_type-eq : (type type' : CredType) → same_type type' type ≡ true → type' ≡ type
same_type-eq ca_chain ca_chain h = refl
same_type-eq ca_chain public_cert h = cc
same_type-eq ca_chain private_cert h = cc
same_type-eq public_cert ca_chain h = cc
same_type-eq public_cert public_cert h = refl
same_type-eq public_cert private_cert h = cc
same_type-eq private_cert ca_chain h = cc
same_type-eq private_cert public_cert h = cc
same_type-eq private_cert private_cert h = refl

stored-same :
    (m : Modem) (tag : ℕ) (type : CredType) (text : List ℕ)
    → stored m tag type text tag type ≡ some text
stored-same m tag type text =
    let k : (tag == tag) ≡ true = (==_iff tag tag).1 refl in rw (k, same_type_refl type) refl

stored-other :
    (m : Modem) (tag tag' : ℕ) (type type' : CredType) (text : List ℕ)
    → (tag' ≢ tag) ⊎ (type' ≢ type)
    → stored m tag type text tag' type' ≡ m.entries tag' type'
stored-other m tag tag' type type' text h = elim (Bool-cases (tag' == tag)) [
  | inr apart ↦ rw apart refl
  | inl same ↦ elim (Bool-cases (same_type type' type)) [
    | inr apart ↦ rw (same, apart) refl
    | inl alike ↦ elim h [
      | inl ne ↦ absurd (ne ((==_iff tag' tag).0 same))
      | inr ne ↦ absurd (ne (same_type-eq type type' alike))
    ]
  ]
]

pub write_stores :
    (m : Modem) (tag : ℕ) (type : CredType) (text : List ℕ)
    → (key_write m tag type text).0 ≡ success
    → (key_write m tag type text).1.entries tag type ≡ some text
write_stores m tag type text h = elim (Bool-cases m.active) [
  | inl up ↦ let k : (key_write m tag type text).0 ≡ err eperm = rw up refl in cc
  | inr down ↦ rw down (stored-same m tag type text)
]

pub write_apart :
    (m : Modem) (tag tag' : ℕ) (type type' : CredType) (text : List ℕ)
    → (tag' ≢ tag) ⊎ (type' ≢ type)
    → (key_write m tag type text).1.entries tag' type' ≡ m.entries tag' type'
write_apart m tag tag' type type' text h = elim (Bool-cases m.active) [
  | inl up ↦ rw up refl
  | inr down ↦ rw down (stored-other m tag tag' type type' text h)
]

abbrev pub modem_laws : ModemLaws modem
modem_laws = record {
  link_active = λ m. m.active;
  refusals = λ m. m.refused;
  entry = λ m. m.entries;
  write_stores = write_stores;
  write_apart = write_apart;
  write_refused = λ m tag type text h. rw h refl;
  write_counted = λ m tag type text h. rw h refl;
  write_link = λ m tag type text. refl;
  init_link = λ m. refl;
  init_refusals = λ m. refl;
  init_entry = λ m tag type. refl;
  connect_link = λ m. refl;
  connect_refusals = λ m. refl;
  connect_entry = λ m tag type. refl;
}

abbrev pub blank : Modem
blank = record { active = false; refused = 0; entries = λ tag type. none }

abbrev pub creds : Credentials
creds = record {
  uplink_sec_tag = 24;
  uplink_ca = codes "CA";
  client_certificate = codes "CERT";
  private_key = codes "KEY";
  fota_sec_tag = 25;
  fota_ca = codes "FOTA";
}

abbrev pub drivers : Drivers
drivers = record {
  gnss_sel = success;
  uart_ready = true;
  can_ready = true;
  can_start = success;
  can_filter = ok 0;
  imu_ready = false;
  button_pin = success;
  button_interrupt = success;
}

-- A partition of eight pages in which nothing is stored.
abbrev pub flash : Flash Memory
flash = record {
  area_open = ok 32768;
  set_device = λ s. s;
  device_ready = true;
  page_info = ok 4096;
  set_sectors = λ size count s. s;
  mount = λ s. (success, λ id. err enoent);
}
