-- ===== src/Ota/Finish.antt =====
-- `fota_download_event_handler` of src/ota_update.c: the end of a download.
use telenode.Prelude.{ℕ, Bool, true, false, List}
use telenode.Prelude.Texts.{codes}
use telenode.Mqtt.{MqttOps}
use telenode.Uplink.{Uplink, publish_status}

-- `struct fota_download_evt`, with the events that are only logged or ignored as `unhandled`
pub data FotaEvt : Type 0 where
  progress : ℕ → FotaEvt
  finished : FotaEvt
  error : ℕ → FotaEvt
  unhandled : FotaEvt

-- `status_payload`
abbrev pub ready_payload : List ℕ
ready_payload = codes "{\"state\":\"ota_ready_reboot\"}"

-- The uplink afterwards, and whether the device reboots; the result of the publish is not looked at.
unfoldable pub fota_event : {S M : Type 0} → MqttOps M → Uplink S M → FotaEvt → Uplink S M × Bool
fota_event mqtt u (progress percent) = (u, false)
fota_event mqtt u finished = ((publish_status mqtt u ready_payload).1, true)
fota_event mqtt u (error cause) = (u, false)
fota_event mqtt u unhandled = (u, false)
