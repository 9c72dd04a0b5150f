-- ===== src/Uplink/Address.antt =====
-- `build_device_id_and_topics` of src/uplink_mqtt.c. The configured id and the IMEI, with what
-- `modem_info_string_get` returns, are arguments.
use telenode.Prelude.{
  ℕ, ◌-◌, ◌≤◌, ◌<◌, ◌≡◌, ◌≢◌, refl, sym, ◌∙◌, List, [], ◌∷◌, ◌++◌, ltb, length, take, take_all,
  length-take, length-append, if◌then◌else◌, true, false, arith,
}
use telenode.Prelude.Errno.{Errno, Result, ok, err}
use telenode.Prelude.Texts.{codes, strcmp, strcmp_refl}
use telenode.Uplink.{Topics}

abbrev pub device_id_max_len : ℕ
device_id_max_len = 32

abbrev pub topic_max_len : ℕ
topic_max_len = 64

-- `device_id`
unfoldable pub build_device_id : List ℕ → Result (List ℕ) → List ℕ
build_device_id config imei = take (device_id_max_len - 1) (
    if ltb 0 (length config)
    then config
    else elim imei [ ok text ↦ text | err e ↦ codes "unknown-device" ])

-- `snprintk(topic, sizeof(topic), "trackers/%s/...", device_id)`
unfoldable pub build_topic : List ℕ → List ℕ → List ℕ
build_topic id suffix = take (topic_max_len - 1) (codes "trackers/" ++ (id ++ suffix))

-- The four topics of an id.
unfoldable pub build_topics : List ℕ → Topics
build_topics id = record {
  telemetry_topic = build_topic id (codes "/telemetry");
  events_topic = build_topic id (codes "/events");
  status_topic = build_topic id (codes "/status");
  ota_topic = build_topic id (codes "/ota");
}

-- What is asked of the device id: 31 characters at most, of the configured id where there is one, else of the
-- IMEI, and the placeholder where there is neither.
pub record IsDeviceId (config : List ℕ) (imei : Result (List ℕ)) (id : List ℕ) : Type 0 where
  pub configured : config ≢ [] → id ≡ take 31 config
  pub from_imei : (text : List ℕ) → config ≡ [] → imei ≡ ok text → id ≡ take 31 text
  pub placeholder : (e : Errno) → config ≡ [] → imei ≡ err e → id ≡ codes "unknown-device"

configured_id :
    (config : List ℕ) (imei : Result (List ℕ))
    → config ≢ []
    → build_device_id config imei ≡ take 31 config
unfolding build_device_id
configured_id [] imei h = absurd (h refl)
configured_id (c ∷ config) imei h =
    let k : ltb 0 (length (c ∷ config)) ≡ true = ground arith in rw k refl

pub build_device_id-IsDeviceId :
    (config : List ℕ) (imei : Result (List ℕ))
    → IsDeviceId config imei (build_device_id config imei)
unfolding build_device_id
build_device_id-IsDeviceId config imei = record {
  configured = configured_id config imei;
  from_imei = λ text c i. rw (c, i) refl;
  placeholder = λ e c i. rw (c, i) refl;
}

length-build_device_id :
    (config : List ℕ) (imei : Result (List ℕ))
    → length (build_device_id config imei) < device_id_max_len
unfolding build_device_id
length-build_device_id config imei = omega (
  arith,
  length-take 31 (
      if ltb 0 (length config)
      then config
      else elim imei [ ok text ↦ text | err e ↦ codes "unknown-device" ]),
)

build_topic-whole :
    (id suffix : List ℕ)
    → length id < device_id_max_len
    → length suffix ≤ 10
    → build_topic id suffix ≡ codes "trackers/" ++ (id ++ suffix)
unfolding build_topic
build_topic-whole id suffix h k =
    take_all 63 (codes "trackers/" ++ (id ++ suffix)) (omega (arith, length-append id suffix))

append_cancel : (s t u : List ℕ) → s ++ t ≡ s ++ u → t ≡ u
append_cancel [] t u h = h
append_cancel (c ∷ s) t u h = append_cancel s t u cc

build_topic-ne :
    (id s t : List ℕ)
    → length id < device_id_max_len
    → length s ≤ 10
    → length t ≤ 10
    → strcmp s t ≡ false
    → build_topic id s ≢ build_topic id t
build_topic-ne id s t h k l apart e =
    let same : s ≡ t = append_cancel id s t (
      append_cancel (codes "trackers/") (id ++ s) (id ++ t)
        (sym (build_topic-whole id s h k) ∙ e ∙ build_topic-whole id t h l)) in
    let k : strcmp s t ≡ true = rw same (strcmp_refl t) in cc

-- What is asked of the topics of an id: none is cut by its buffer, and no two are the same.
pub record IsAddressed (id : List ℕ) (topics : Topics) : Type 0 where
  pub telemetry_whole : topics.telemetry_topic ≡ codes "trackers/" ++ (id ++ codes "/telemetry")
  pub events_whole : topics.events_topic ≡ codes "trackers/" ++ (id ++ codes "/events")
  pub status_whole : topics.status_topic ≡ codes "trackers/" ++ (id ++ codes "/status")
  pub ota_whole : topics.ota_topic ≡ codes "trackers/" ++ (id ++ codes "/ota")
  pub telemetry_events : topics.telemetry_topic ≢ topics.events_topic
  pub telemetry_status : topics.telemetry_topic ≢ topics.status_topic
  pub telemetry_ota : topics.telemetry_topic ≢ topics.ota_topic
  pub events_status : topics.events_topic ≢ topics.status_topic
  pub events_ota : topics.events_topic ≢ topics.ota_topic
  pub status_ota : topics.status_topic ≢ topics.ota_topic

-- Whatever the configured id and the IMEI, the device id fits its buffer, its four topics fit theirs
-- without being cut, and they differ from each other.
pub build_topics-IsAddressed :
    (config : List ℕ) (imei : Result (List ℕ))
    → let id = build_device_id config imei in
      (length id < device_id_max_len) × IsAddressed id (build_topics id)
unfolding build_topics
build_topics-IsAddressed config imei =
    let id = build_device_id config imei in
    let h = length-build_device_id config imei in
    (
      h,
      record {
        telemetry_whole = build_topic-whole id (codes "/telemetry") h (omega arith);
        events_whole = build_topic-whole id (codes "/events") h (omega arith);
        status_whole = build_topic-whole id (codes "/status") h (omega arith);
        ota_whole = build_topic-whole id (codes "/ota") h (omega arith);
        telemetry_events =
            build_topic-ne id (codes "/telemetry") (codes "/events") h (omega arith) (omega arith)
              refl;
        telemetry_status =
            build_topic-ne id (codes "/telemetry") (codes "/status") h (omega arith) (omega arith)
              refl;
        telemetry_ota =
            build_topic-ne id (codes "/telemetry") (codes "/ota") h (omega arith) (omega arith)
              refl;
        events_status =
            build_topic-ne id (codes "/events") (codes "/status") h (omega arith) (omega arith)
              refl;
        events_ota =
            build_topic-ne id (codes "/events") (codes "/ota") h (omega arith) (omega arith) refl;
        status_ota =
            build_topic-ne id (codes "/status") (codes "/ota") h (omega arith) (omega arith) refl;
      },
    )
