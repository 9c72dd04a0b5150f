-- ===== src/Boot/Provision.antt =====
-- The order of the start-up in src/main.c: the modem refuses a credential once its link is active, so all of
-- them are written before the link is asked for.
use telenode.Prelude.{ℕ, ◌≡◌, ◌≢◌, ◌⊎◌, refl, ◌∙◌, Bool, true, false, List, Option, some, inl, inr}
use telenode.Prelude.Errno.{Errno, Result, err, success, other, Done-cases}
use telenode.Nvs.{NvsOps}
use telenode.BufferFifo.{Flash}
use telenode.Uplink.{Uplink}
use telenode.Ota
use telenode.Ota.{OtaPointer, Download}
use telenode.Boot.{
  CredType, ca_chain, public_cert, private_cert, Credentials, ModemOps, Drivers, Booted,
  provision_uplink, provision_fota, ota_ops, uplink_mqtt_init, boot,
}

abbrev pub eperm : Errno
eperm = other 1

-- The documented behaviour of the modem's libraries. `entry w tag type` is the credential under a tag and
-- a type, `refusals w` how many writes were answered with -EPERM because the link was active. A write
-- that succeeds stores its text and touches no other, and only `connect_async` activates the link.
pub record ModemLaws {W : Type 0} (modem : ModemOps W) : Type 0 where
  pub link_active : W → Bool
  pub refusals : W → ℕ
  pub entry : W → ℕ → CredType → Option (List ℕ)
  pub write_stores :
      (w : W) (tag : ℕ) (type : CredType) (text : List ℕ)
      → (modem.key_write w tag type text).0 ≡ success
      → entry (modem.key_write w tag type text).1 tag type ≡ some text
  pub write_apart :
      (w : W) (tag tag' : ℕ) (type type' : CredType) (text : List ℕ)
      → (tag' ≢ tag) ⊎ (type' ≢ type)
      → entry (modem.key_write w tag type text).1 tag' type' ≡ entry w tag' type'
  pub write_refused :
      (w : W) (tag : ℕ) (type : CredType) (text : List ℕ)
      → link_active w ≡ true
      → (modem.key_write w tag type text).0 ≡ err eperm
  pub write_counted :
      (w : W) (tag : ℕ) (type : CredType) (text : List ℕ)
      → link_active w ≡ false
      → refusals (modem.key_write w tag type text).1 ≡ refusals w
  pub write_link :
      (w : W) (tag : ℕ) (type : CredType) (text : List ℕ)
      → link_active (modem.key_write w tag type text).1 ≡ link_active w
  pub init_link : (w : W) → link_active (modem.download_init w).1 ≡ link_active w
  pub init_refusals : (w : W) → refusals (modem.download_init w).1 ≡ refusals w
  pub init_entry :
      (w : W) (tag : ℕ) (type : CredType)
      → entry (modem.download_init w).1 tag type ≡ entry w tag type
  pub connect_link : (w : W) → link_active (modem.connect_async w) ≡ true
  pub connect_refusals : (w : W) → refusals (modem.connect_async w) ≡ refusals w
  pub connect_entry :
      (w : W) (tag : ℕ) (type : CredType)
      → entry (modem.connect_async w) tag type ≡ entry w tag type

module _ {W : Type 0} {modem : ModemOps W} (laws : ModemLaws modem) (creds : Credentials) where
  -- With the link down, a piece of the start-up leaves it down and meets no refusal.
  pub record IsCalm (w w' : W) : Type 0 where
    pub down : laws.link_active w' ≡ false
    pub refused : laws.refusals w' ≡ laws.refusals w

  write-IsCalm :
      (w v : W) (tag : ℕ) (type : CredType) (text : List ℕ)
      → IsCalm w v
      → IsCalm w (modem.key_write v tag type text).1
  write-IsCalm w v tag type text c = record {
    down = laws.write_link v tag type text ∙ c.down;
    refused = laws.write_counted v tag type text c.down ∙ c.refused;
  }

  abbrev after_ca : W → Result (Unit {0}) × W
  after_ca w = modem.key_write w creds.uplink_sec_tag ca_chain creds.uplink_ca

  abbrev after_cert : W → Result (Unit {0}) × W
  after_cert w =
      modem.key_write (after_ca w).1 creds.uplink_sec_tag public_cert creds.client_certificate

  abbrev after_key : W → Result (Unit {0}) × W
  after_key w = modem.key_write (after_cert w).1 creds.uplink_sec_tag private_cert creds.private_key

  provision_uplink-IsCalm :
      (w : W) → laws.link_active w ≡ false → IsCalm w (provision_uplink modem creds w).1
  unfolding provision_uplink
  provision_uplink-IsCalm w h =
      let a =
        write-IsCalm w w creds.uplink_sec_tag ca_chain creds.uplink_ca
          (record { down = h; refused = refl }) in
      let b =
        write-IsCalm w (after_ca w).1 creds.uplink_sec_tag public_cert creds.client_certificate a in
      let c =
        write-IsCalm w (after_cert w).1 creds.uplink_sec_tag private_cert creds.private_key b in
      elim (Done-cases (after_ca w).0) [
        | inr (e, x) ↦ rw (x, provision_uplink) a
        | inl x ↦ elim (Done-cases (after_cert w).0) [
          | inr (e, y) ↦ rw (x, provision_uplink, y) b
          | inl y ↦ elim (Done-cases (after_key w).0) [
            | inr (e, z) ↦ rw (x, provision_uplink, y, z) c
            | inl z ↦ rw (x, provision_uplink, y, z) c
          ]
        ]
      ]

  -- The three credentials of the uplink.
  pub record HasUplinkKeys (w : W) : Type 0 where
    pub ca : laws.entry w creds.uplink_sec_tag ca_chain ≡ some creds.uplink_ca
    pub cert : laws.entry w creds.uplink_sec_tag public_cert ≡ some creds.client_certificate
    pub key : laws.entry w creds.uplink_sec_tag private_cert ≡ some creds.private_key

  ca-ne-cert : ca_chain ≢ public_cert
  ca-ne-cert h = cc

  ca-ne-key : ca_chain ≢ private_cert
  ca-ne-key h = cc

  cert-ne-key : public_cert ≢ private_cert
  cert-ne-key h = cc

  provision_uplink-HasUplinkKeys :
      (w : W)
      → (provision_uplink modem creds w).0 ≡ success
      → HasUplinkKeys (provision_uplink modem creds w).1
  unfolding provision_uplink
  provision_uplink-HasUplinkKeys w h = elim (Done-cases (after_ca w).0) [
    | inr (e, x) ↦
        let k : (provision_uplink modem creds w).0 ≡ err e = rw (x, provision_uplink) refl in cc
    | inl x ↦ elim (Done-cases (after_cert w).0) [
      | inr (e, y) ↦
          let k : (provision_uplink modem creds w).0 ≡ err e = rw (x, provision_uplink, y) refl in
          cc
      | inl y ↦ elim (Done-cases (after_key w).0) [
        | inr (e, z) ↦
            let k : (provision_uplink modem creds w).0 ≡ err e =
              rw (x, provision_uplink, y, z) refl in
            cc
        | inl z ↦
            rw (x, provision_uplink, y, z)
              (record {
                ca =
                    laws.write_apart _ _ _ _ _ _ (inr ca-ne-key)
                    ∙ laws.write_apart _ _ _ _ _ _ (inr ca-ne-cert)
                    ∙ laws.write_stores _ _ _ _ x;
                cert = laws.write_apart _ _ _ _ _ _ (inr cert-ne-key) ∙ laws.write_stores _ _ _ _ y;
                key = laws.write_stores _ _ _ _ z;
              })
      ]
    ]
  ]

module _ {W : Type 0} {modem : ModemOps W} (laws : ModemLaws modem) (creds : Credentials)
    (json_parse : List ℕ → Result OtaPointer)
    (download_start : W → Download → Result (Unit {0}) × W) where
  -- What `ota_update_init` comes to, called at `v` in a start-up that began at `w`.
  record IsOtaReady (w v : W) (out : Result (Unit {0}) × W × Bool) : Type 0 where
    calm : IsCalm laws creds w out.1
    others :
        (tag : ℕ) (type : CredType)
        → tag ≢ creds.fota_sec_tag
        → laws.entry out.1 tag type ≡ laws.entry v tag type
    fota_key : out.0 ≡ success → laws.entry out.1 creds.fota_sec_tag ca_chain ≡ some creds.fota_ca
    handler : out.2 ≡ true → out.0 ≡ success

  init-IsOtaReady :
      (w v : W)
      → IsCalm laws creds w v
      → IsOtaReady w v (Ota.init (ota_ops modem creds json_parse download_start) v)
  unfolding Ota.init provision_fota
  init-IsOtaReady w v c =
      let tag = creds.fota_sec_tag in
      let v' = (modem.key_write v tag ca_chain creds.fota_ca).1 in
      let k = write-IsCalm laws creds w v tag ca_chain creds.fota_ca c in
      let k' : IsCalm laws creds w (modem.download_init v').1 = record {
        down = laws.init_link v' ∙ k.down;
        refused = laws.init_refusals v' ∙ k.refused;
      } in
      let kept = λ (t : ℕ) (type : CredType) (ne : t ≢ tag).
        laws.write_apart v tag t ca_chain type creds.fota_ca (inl ne) in
      let kept' =
        λ (t : ℕ) (type : CredType) (ne : t ≢ tag). laws.init_entry v' t type ∙ kept t type ne in
      elim (Done-cases (modem.key_write v tag ca_chain creds.fota_ca).0) [
        | inr (e, x) ↦
            rw (x, Ota.init)
              (record { calm = k; others = kept; fota_key = λ y. cc; handler = λ y. cc })
        | inl x ↦ elim (Done-cases (modem.download_init v').0) [
          | inr (e, y) ↦
              rw (x, Ota.init, y)
                (record { calm = k'; others = kept'; fota_key = λ z. cc; handler = λ z. cc })
          | inl y ↦
              rw (x, Ota.init, y)
                (record {
                  calm = k';
                  others = kept';
                  fota_key = λ z.
                      laws.init_entry v' tag ca_chain
                      ∙ laws.write_stores v tag ca_chain creds.fota_ca x;
                  handler = λ z. refl;
                })
        ]
      ]

module _ {S W : Type 0} (nvs : NvsOps S) (modem : ModemOps W) (laws : ModemLaws modem)
    (creds : Credentials) (json_parse : List ℕ → Result OtaPointer)
    (download_start : W → Download → Result (Unit {0}) × W) where
  -- What a start-up at `w` leaves: the link is asked for, and no write was refused; the credentials of a
  -- part whose initialisation succeeded are in the modem, and the OTA handler is set only with its own.
  pub record IsBooted {M : Type 0} (w : W) (b : Booted S M W) : Type 0 where
    pub active : laws.link_active b.modem ≡ true
    pub refused : laws.refusals b.modem ≡ laws.refusals w
    pub uplink_keys : b.uplink_result ≡ success → HasUplinkKeys laws creds b.modem
    pub fota_key :
        b.ota_result ≡ success → laws.entry b.modem creds.fota_sec_tag ca_chain ≡ some creds.fota_ca
    pub handler : b.handler_set ≡ true → b.ota_result ≡ success

  -- Whatever the drivers, flash, NVS and the libraries answer, and with two different tags: a start-up of the
  -- firmware with the link down asks for the link, and the modem has refused no write because of an
  -- active link. If the initialisation of the uplink succeeded, its three credentials are in the modem; if
  -- that of the updates did, theirs is; and the OTA handler is set only then.
  pub boot-IsBooted :
      {M : Type 0} (flash : Flash S) (config_id : List ℕ) (imei : Result (List ℕ))
      (drivers : Drivers) (u : Uplink S M) (w : W)
      → laws.link_active w ≡ false
      → creds.uplink_sec_tag ≢ creds.fota_sec_tag
      → IsBooted w (boot nvs modem creds json_parse download_start flash config_id imei drivers u w)
  unfolding boot uplink_mqtt_init
  boot-IsBooted flash config_id imei drivers u w h apart =
      let v = (provision_uplink modem creds w).1 in
      let ops = ota_ops modem creds json_parse download_start in
      let x = (Ota.init ops v).1 in
      let r =
        init-IsOtaReady laws creds json_parse download_start w v
          (provision_uplink-IsCalm laws creds w h) in
      let kept = λ (type : CredType).
        laws.connect_entry x creds.uplink_sec_tag type ∙ r.others creds.uplink_sec_tag type apart in
      record {
        active = laws.connect_link x;
        refused = laws.connect_refusals x ∙ r.calm.refused;
        uplink_keys = λ y.
            let k = provision_uplink-HasUplinkKeys laws creds w y in
            record {
              ca = kept ca_chain ∙ k.ca;
              cert = kept public_cert ∙ k.cert;
              key = kept private_cert ∙ k.key;
            };
        fota_key = λ y. laws.connect_entry x creds.fota_sec_tag ca_chain ∙ r.fota_key y;
        handler = r.handler;
      }
