-- ===== src/Ota/Tests.antt =====
-- Tests of src/ota_update.c, and the theorems at concrete messages. The parser of the tests reads the
-- payload as the URL of version 1.2.
use telenode.Prelude.{
  ℕ, ◌≡◌, ◌↔◌, ◌⊎◌, refl, true, false, List, [], ◌∷◌, ◌++◌, some, none, replicate,
}
use telenode.Prelude.Errno.{ok, err, success, enomem}
use telenode.Prelude.Texts.{codes}
use telenode.Mqtt.{MqttOps, Evt, publish, at_least_once}
use telenode.Uplink.{publish_status}
use telenode.Uplink.Memory.{Broker, broker, down}
use telenode.Uplink.Events.{handle_event, handle_publish}
use telenode.Ota
use telenode.Ota.{
  OtaOps, OtaConfig, OtaPointer, Split, Download, split_url, accept_message, on_ota_message,
}
use telenode.Ota.Url.{IsUrl, split_url_iff}
use telenode.Ota.Delivery.{ota_event, IsStarted, ota_event_safe}
use telenode.Ota.Finish.{fota_event, finished}
use telenode.Ota.Accept.{IsAccepted, pointer, accept_message_iff}

-- The FOTA library of the tests keeps the downloads that it was asked for.
abbrev fota : OtaOps (List Download)
fota = record {
  json_parse = λ payload. ok (pointer (codes "1.2") payload);
  provision = λ f. (success, f);
  download_init = λ f. (success, f);
  download_start = λ f d. (success, d ∷ f);
}

abbrev config : OtaConfig
config = record { server_hostname = codes "fw.example.com"; sec_tag = 25 }

abbrev message : List ℕ
message = codes "https://fw.example.com/a.bin"

abbrev download : Download
download = record { host = codes "fw.example.com"; file = codes "/a.bin"; sec_tag = some 25 }

abbrev parts : Split
parts = record { use_tls = true; host = codes "fw.example.com"; file = codes "/a.bin" }

split_url-no_path : split_url (codes "http://fw.example.com") ≡ none
unfolding split_url
split_url-no_path = refl

split_url-long_host : split_url (codes "http://" ++ (replicate 128 b'a' ++ codes "/")) ≡ none
unfolding split_url
split_url-long_host = refl

split_url-message : split_url message ≡ some parts
unfolding split_url
split_url-message = refl

accept-message : accept_message fota config message ≡ some download
unfolding accept_message split_url
accept-message = refl

refuse-other_host : accept_message fota config (codes "https://evil.example.com/a.bin") ≡ none
unfolding accept_message split_url
refuse-other_host = refl

start-message : on_ota_message fota config [] message ≡ download ∷ []
unfolding on_ota_message accept_message split_url
start-message = refl

init-provision_fails :
    Ota.init (record fota { provision = λ f. (err enomem, f) }) [] ≡ (err enomem, [], false)
unfolding Ota.init
init-provision_fails = refl

init-success : Ota.init fota [] ≡ (success, [], true)
unfolding Ota.init
init-success = refl

split_url_iff_example : (split_url message ≡ some parts) ↔ IsUrl message parts
split_url_iff_example = split_url_iff message parts

accept_message_iff_example :
    (accept_message fota config message ≡ some download) ↔ IsAccepted fota config message download
accept_message_iff_example = accept_message_iff fota config message download

abbrev ota_message : Evt
ota_message =
    publish (record { topic = b'o' ∷ []; payload_len = 28; qos = at_least_once; message_id = 7 })

-- A client whose messages carry the URL.
abbrev reader : MqttOps Broker
reader = record broker { read_payload = λ m n. (ok message, m) }

ota_event-message : ota_event reader fota config true down [] ota_message ≡ download ∷ []
unfolding ota_event handle_event handle_publish on_ota_message accept_message split_url
ota_event-message = refl

ota_event_safe_example :
    (ota_event reader fota config true down [] ota_message ≡ [])
    ⊎ IsStarted reader fota config true down [] ota_message
ota_event_safe_example = ota_event_safe reader fota config true down [] ota_message

fota_event-down : fota_event broker down finished ≡ (down, true)
unfolding fota_event publish_status
fota_event-down = refl
