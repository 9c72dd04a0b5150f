-- ===== src/HarshDriving/Classify.antt =====
-- When src/harsh_driving.c reports which event, for thresholds of which acceleration and braking exclude each
-- other, as all positive ones do.
use telenode.Prelude.{◌≡◌, ◌↔◌, refl, ap, Bool, true, false, if◌then◌else◌}
use telenode.HarshDriving.{
  Event, no_event, acceleration, braking, cornering, Floats, Thresholds, evaluate,
}

-- What the comparisons of IEEE 754 satisfy, those with NaN included.
pub record FloatLaws {Float : Type 0} (floats : Floats Float) : Type 0 where
  pub le_trans :
      (a b c : Float) → floats.le a b ≡ true → floats.le b c ≡ true → floats.le a c ≡ true
  pub abs_neg : (a : Float) → floats.abs (floats.neg a) ≡ floats.abs a

module _ {Float : Type 0} (floats : Floats Float) where
  -- Acceleration and braking are reported whenever their threshold is reached, cornering when neither is
  -- and its own is; a turn to the left counts as one to the right.
  pub record IsClassified (x y : Float) (th : Thresholds Float) : Type 0 where
    pub acceleration_iff :
        (evaluate floats x y th ≡ acceleration) ↔ (floats.le th.harsh_accel_mps2 x ≡ true)
    pub braking_iff :
        (evaluate floats x y th ≡ braking) ↔ (floats.le x (floats.neg th.harsh_brake_mps2) ≡ true)
    pub cornering_iff : (evaluate floats x y th ≡ cornering) ↔ (
        (floats.le th.harsh_accel_mps2 x ≡ false)
        × (floats.le x (floats.neg th.harsh_brake_mps2) ≡ false)
        × (floats.le th.harsh_corner_mps2 (floats.abs y) ≡ true))
    pub mirrored : evaluate floats x (floats.neg y) th ≡ evaluate floats x y th

-- `evaluate` as a function of its three tests
abbrev by_tests : Bool → Bool → Bool → Event
by_tests a b c =
    if a then acceleration else if b then braking else if c then cornering else no_event

acceleration_test : (a b c : Bool) → (by_tests a b c ≡ acceleration) ↔ (a ≡ true)
acceleration_test true b c = (λ h. refl, λ h. refl)
acceleration_test false true c = (λ h. cc, λ h. cc)
acceleration_test false false true = (λ h. cc, λ h. cc)
acceleration_test false false false = (λ h. cc, λ h. cc)

braking_test : (a b c : Bool) → (a ≡ true → b ≡ true → ⊥) → (by_tests a b c ≡ braking) ↔ (b ≡ true)
braking_test true b c h = (λ k. cc, λ k. absurd (h refl k))
braking_test false true c h = (λ k. refl, λ k. refl)
braking_test false false true h = (λ k. cc, λ k. cc)
braking_test false false false h = (λ k. cc, λ k. cc)

cornering_test :
    (a b c : Bool) → (by_tests a b c ≡ cornering) ↔ ((a ≡ false) × (b ≡ false) × (c ≡ true))
cornering_test true b c = (λ h. cc, λ h. cc)
cornering_test false true c = (λ h. cc, λ h. cc)
cornering_test false false true = (λ h. (refl, refl, refl), λ h. refl)
cornering_test false false false = (λ h. cc, λ h. cc)

module _ {Float : Type 0} {floats : Floats Float} (laws : FloatLaws floats) where
  -- If the threshold of acceleration is not at most the negated one of braking, as with positive
  -- thresholds, then acceleration and braking are each reported if and only if the sample reaches the
  -- threshold, whatever the order of the tests; cornering if and only if it alone is reached; and a
  -- sample and its mirror image give the same event.
  pub evaluate-IsClassified :
      (x y : Float) (th : Thresholds Float)
      → floats.le th.harsh_accel_mps2 (floats.neg th.harsh_brake_mps2) ≡ false
      → IsClassified floats x y th
  unfolding evaluate
  evaluate-IsClassified x y th positive =
      let a = floats.le th.harsh_accel_mps2 x in
      let b = floats.le x (floats.neg th.harsh_brake_mps2) in
      let c = floats.le th.harsh_corner_mps2 (floats.abs y) in
      let apart : a ≡ true → b ≡ true → ⊥ = λ p q.
        let k = laws.le_trans th.harsh_accel_mps2 x (floats.neg th.harsh_brake_mps2) p q in
        absurd cc in
      record {
        acceleration_iff = acceleration_test a b c;
        braking_iff = braking_test a b c apart;
        cornering_iff = cornering_test a b c;
        mirrored = ap (λ v. by_tests a b (floats.le th.harsh_corner_mps2 v)) (laws.abs_neg y);
      }
