-- ===== src/Ota/Delivery.antt =====
-- From the broker to the download: src/uplink_mqtt.c passes a message on the OTA topic to the handler that
-- `ota_update_init` of src/ota_update.c has set.
use telenode.Prelude.{ℕ, ◌≡◌, ◌⊎◌, refl, Bool, true, List, none, some, Option-cases, inl, inr}
use telenode.Mqtt.{MqttOps, Evt}
use telenode.Uplink.{Uplink}
use telenode.Uplink.Events.{handle_event, IsDelivered, handle_event_iff}
use telenode.Ota.{OtaOps, OtaConfig, Download, on_ota_message}
use telenode.Ota.Accept.{IsAccepted, on_ota_message_safe}

module _ {S M F : Type 0} (mqtt : MqttOps M) (ops : OtaOps F) (config : OtaConfig) where
  -- What an event does to the FOTA library, with `ota_handler` set to `on_ota_message` or not.
  unfoldable pub ota_event : Bool → Uplink S M → F → Evt → F
  ota_event handler_set u f evt = elim (handle_event mqtt handler_set u evt).1 [
    | none ↦ f
    | some payload ↦ on_ota_message ops config f payload
  ]

  -- A download that an event starts.
  pub record IsStarted (handler_set : Bool) (u : Uplink S M) (f : F) (evt : Evt) : Type 0 where
    pub payload : List ℕ
    pub download : Download
    pub set : handler_set ≡ true
    pub delivered : IsDelivered mqtt u evt payload
    pub accepted : IsAccepted ops config payload download
    pub started : ota_event handler_set u f evt ≡ (ops.download_start f download).1

  -- An event of the MQTT client leaves the FOTA library alone, or it is a whole message on the OTA topic
  -- that is accepted, with the handler set, and starts the one download that it is accepted for: from
  -- the configured host, where one is configured.
  pub ota_event_safe :
      (handler_set : Bool) (u : Uplink S M) (f : F) (evt : Evt)
      → (ota_event handler_set u f evt ≡ f) ⊎ IsStarted handler_set u f evt
  unfolding ota_event
  ota_event_safe handler_set u f evt = elim (Option-cases (handle_event mqtt handler_set u evt).1) [
    | inl quiet ↦ inl (rw (quiet, ota_event) refl)
    | inr (payload, e) ↦
        let (set, delivered) = (handle_event_iff mqtt handler_set u evt payload).0 e in
        elim (on_ota_message_safe ops config f payload) [
          | inl refused ↦ inl (rw (e, ota_event) refused)
          | inr (d, accepted, started) ↦ inr (record {
            payload = payload;
            download = d;
            set = set;
            delivered = delivered;
            accepted = accepted;
            started = rw (e, ota_event) started;
          })
        ]
  ]
