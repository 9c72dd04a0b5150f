-- ===== src/Sensors/Stream/Lost.antt =====
-- A trouble code of src/app_sensors.c whose event finds no room: `dtc_mark_reported` is called whatever
-- `uplink_mqtt_publish_event` answers.
use telenode.Prelude.{
  ℕ, ◌≤◌, ◌<◌, ◌≡◌, sym, ap, subst, ◌∙◌, false, List, [], ◌∷◌, ltb, length, Bool-cases, inl, inr,
  arith, length-take,
}
use telenode.Prelude.Errno.{Errno, err, enospc, einval}
use telenode.Nvs.{NvsOps, NvsLaws}
use telenode.BufferFifo
use telenode.BufferFifo.{events, Fifo, max_record_len}
use telenode.BufferFifo.Queue.{Item, Queue, capacity}
use telenode.BufferFifo.View.{Represents}
use telenode.BufferFifo.Refine.{push_refused, push_bad_length}
use telenode.DtcDecode.{Code}
use telenode.DtcDecode.Codes.{IsCode}
use telenode.Mqtt.{MqttOps}
use telenode.Uplink.{Uplink, is_connected, publish_event, publish_or_buffer, buffer}
use telenode.Sensors.Stream.{
  Names, Streams, already_reported, max_tracked_dtc_codes, report_dtc, report_dtcs, dtc_event_json,
  dtc_event_pieces, render,
}
use telenode.Sensors.Stream.Once.{IsReported, mark_reported-IsReported, report_dtcs-reported}

length-dtc_event_json :
    (names : Names) (time : List ℕ) (code : Code) (connected : _)
    → length (dtc_event_json names time code connected) ≤ 159
unfolding dtc_event_json
length-dtc_event_json names time code connected =
    omega (arith, length-take 159 (render (dtc_event_pieces names time code connected)))

module _ {S M : Type 0} {nvs : NvsOps S} (laws : NvsLaws nvs) (mqtt : MqttOps M) where
  push_full :
      (s : Fifo S) (q : Queue) (x : Item)
      → Represents laws events s q
      → capacity events ≤ length q
      → length x ≤ max_record_len
      → (e : Errno) × (BufferFifo.push nvs events s x ≡ (err e, s))
  push_full s q x r full fits = elim (Bool-cases (ltb 0 (length x))) [
    | inl some_bytes ↦ (enospc, push_refused laws events s q x r (ground arith) (ground arith))
    | inr no_bytes ↦ (einval, push_bad_length laws events s q x r (inl (ground arith)))
  ]

  offline-publish_event :
      (u : Uplink S M) (x : Item)
      → u.connected ≡ false
      → length x ≤ max_record_len
      → publish_event nvs mqtt u x ≡ buffer nvs mqtt events u x
  unfolding publish_event publish_or_buffer
  offline-publish_event u x down fits = simp down (ground arith)

  publish_event_full :
      (u : Uplink S M) (q : Queue) (x : Item)
      → Represents laws events u.fifo q
      → capacity events ≤ length q
      → u.connected ≡ false
      → length x ≤ max_record_len
      → (publish_event nvs mqtt u x).1 ≡ u
  unfolding buffer
  publish_event_full u q x r full down fits =
      let (e, refused) = push_full u.fifo q x r full fits in
      ap (λ p. p.1) (offline-publish_event u x down fits)
      ∙ ap (λ p. record u { fifo = p.1 }) refused

  -- With the uplink down, a full events ring and room in the table of reported codes: a new trouble code is
  -- not published and not buffered, for the uplink stays as it was; and it counts as reported, so that a
  -- later turn of the loop that finds it, with whatever connection and rings, does nothing.
  pub report_dtc_lost :
      (names : Names) (s : Streams S M) (q : Queue) (code : Code)
      → IsCode code
      → already_reported s.reported code ≡ false
      → length s.reported < max_tracked_dtc_codes
      → Represents laws events s.uplink.fifo q
      → capacity events ≤ length q
      → s.uplink.connected ≡ false
      → let s' = report_dtcs names nvs mqtt s (code ∷ []) in
        (s'.uplink ≡ s.uplink)
        × ((t : Streams S M)
            → t.reported ≡ s'.reported
            → report_dtcs names nvs mqtt t (code ∷ []) ≡ t)
  unfolding report_dtcs report_dtc
  report_dtc_lost names s q code c fresh room r full down =
      let json = dtc_event_json names s.last_known_utc_time code (is_connected s.uplink) in
      let fits : length json ≤ max_record_len =
        omega
          (arith, length-dtc_event_json names s.last_known_utc_time code (is_connected s.uplink)) in
      rw fresh (
        publish_event_full s.uplink q json r full down fits,
        λ t e. report_dtcs-reported names nvs mqtt (code ∷ []) t (
          subst (λ l. IsReported l code) (sym e) (mark_reported-IsReported s.reported code c room),
          tt,
        ),
      )
