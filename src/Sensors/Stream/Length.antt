-- ===== src/Sensors/Stream/Length.antt =====
-- The lengths of the texts of src/app_sensors.c against the longest record that src/uplink_mqtt.c takes.
use telenode.Prelude.{
  ℕ, ◌+◌, ◌≤◌, ◌<◌, ◌≡◌, refl, ap, ◌∙◌, Bool, true, false, List, [], ◌∷◌, length, Bool-cases, inl,
  inr, arith, length-append, length-take, lt→ltb,
}
use telenode.Prelude.Errno.{err, emsgsize}
use telenode.Nvs.{NvsOps}
use telenode.Mqtt.{MqttOps}
use telenode.BufferFifo.{max_record_len}
use telenode.Uplink.{Uplink, publish_or_buffer, publish_telemetry, is_connected}
use telenode.Sensors.Stream.{
  Formats, Names, Cat, Piece, lit, arg, flag, bool_text, render, json_pieces, telemetry_json,
  Streams, stream_readings,
}

-- What a format prints at least, whatever its arguments.
abbrev pub min_length : List Piece → ℕ
min_length [] = 0
min_length (lit text ∷ ps) = length text + min_length ps
min_length (arg text ∷ ps) = min_length ps
min_length (flag b ∷ ps) = 4 + min_length ps

length-bool_text : (b : Bool) → 4 ≤ length (bool_text b)
length-bool_text true = omega arith
length-bool_text false = omega arith

length-render : (ps : List Piece) → min_length ps ≤ length (render ps)
unfolding render
length-render [] = omega arith
length-render (lit text ∷ ps) = omega (arith, length-append text (render ps), length-render ps)
length-render (arg text ∷ ps) = omega (arith, length-append text (render ps), length-render ps)
length-render (flag b ∷ ps) =
    omega (arith, length-append (bool_text b) (render ps), length-bool_text b, length-render ps)

module _ {Coord Float : Type 0} (formats : Formats Coord Float) (names : Names) where
  min_length-json :
      (c : Cat Coord Float) (connected : Bool)
      → 257 ≤ min_length (json_pieces formats names c connected)
  min_length-json c connected = elim (Bool-cases c.rmc_frame.valid) [
    | inl valid ↦ rw valid (omega arith)
    | inr fake ↦ rw fake (omega arith)
  ]

  -- Every telemetry record is longer than a record may be, whatever the reading, the names and the
  -- conversions of printf.
  telemetry_json_too_long :
      (c : Cat Coord Float) (connected : Bool)
      → max_record_len < length (telemetry_json formats names c connected)
  unfolding telemetry_json
  telemetry_json_too_long c connected = omega (
    arith,
    min_length-json c connected,
    length-render (json_pieces formats names c connected),
    length-take 511 (render (json_pieces formats names c connected)),
  )

module _ {Coord Float S M : Type 0} (formats : Formats Coord Float) (names : Names) (nvs : NvsOps S)
    (mqtt : MqttOps M) where
  publish_telemetry-too_long :
      (u : Uplink S M) (payload : List ℕ)
      → max_record_len < length payload
      → publish_telemetry nvs mqtt u payload ≡ (err emsgsize, u)
  unfolding publish_telemetry publish_or_buffer
  publish_telemetry-too_long u payload h = rw (lt→ltb max_record_len (length payload) h) refl

  -- No reading is ever published or buffered: the loop over the readings leaves the uplink, with its
  -- connection and its rings, as it was.
  pub stream_readings-uplink :
      (readings : List (Cat Coord Float)) (s : Streams S M)
      → (stream_readings formats names nvs mqtt s readings).uplink ≡ s.uplink
  unfolding stream_readings
  stream_readings-uplink [] s = refl
  stream_readings-uplink (c ∷ readings) s =
      stream_readings-uplink readings _
      ∙ ap (λ p. p.1)
          (publish_telemetry-too_long s.uplink _
            (telemetry_json_too_long formats names c (is_connected s.uplink)))
