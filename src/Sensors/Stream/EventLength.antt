-- ===== src/Sensors/Stream/EventLength.antt =====
-- Which trouble-code events of src/app_sensors.c fit their buffer.
use telenode.Prelude.{
  ℕ, ◌+◌, ◌≤◌, ◌≡◌, ◌↔◌, refl, ap, Bool, not, List, [], ◌∷◌, length, take_all, arith, length-append,
  length-take,
}
use telenode.DtcDecode.{Code}
use telenode.Sensors.Stream.{
  Names, Piece, lit, arg, flag, bool_text, render, dtc_event_pieces, dtc_event_json,
}

abbrev pub printed_length : List Piece → ℕ
printed_length [] = 0
printed_length (lit text ∷ ps) = length text + printed_length ps
printed_length (arg text ∷ ps) = length text + printed_length ps
printed_length (flag b ∷ ps) = length (bool_text b) + printed_length ps

pub length-render : (ps : List Piece) → length (render ps) ≡ printed_length ps
unfolding render
length-render [] = refl
length-render (lit text ∷ ps) = omega (arith, length-append text (render ps), length-render ps)
length-render (arg text ∷ ps) = omega (arith, length-append text (render ps), length-render ps)
length-render (flag b ∷ ps) =
    omega (arith, length-append (bool_text b) (render ps), length-render ps)

-- The text of an event is whole if and only if its device id, its time, its code and its last truth value
-- have at most 49 characters together; a longer one is cut.
pub dtc_event_json_whole :
    (names : Names) (time : List ℕ) (code : Code) (connected : Bool)
    → (dtc_event_json names time code connected
        ≡ render (dtc_event_pieces names time code connected))
      ↔ (length names.device_id + length time + length code + length (bool_text (not connected))
          ≤ 49)
unfolding dtc_event_json
dtc_event_json_whole names time code connected =
    let text = render (dtc_event_pieces names time code connected) in
    let e = length-render (dtc_event_pieces names time code connected) in
    (
      λ h. omega (arith, e, length-take 159 text, ap length h),
      λ h. take_all 159 text (omega (arith, e, h)),
    )
