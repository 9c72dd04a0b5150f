-- ===== src/HarshDriving/Tests.antt =====
-- Tests of src/harsh_driving.c, in hundredths of m/s², and the theorem at the default thresholds.
use telenode.Prelude.{zero, suc, ◌≡◌, refl, Bool, true, false, leb, arith}
use telenode.Obd.{ℤ, pos, negsuc}
use telenode.HarshDriving.{braking, cornering, Floats, Thresholds, evaluate}
use telenode.HarshDriving.Classify.{FloatLaws, IsClassified, evaluate-IsClassified}

abbrev le : ℤ → ℤ → Bool
le (pos a) (pos b) = leb a b
le (pos a) (negsuc b) = false
le (negsuc a) (pos b) = true
le (negsuc a) (negsuc b) = leb b a

abbrev neg : ℤ → ℤ
neg (pos zero) = pos 0
neg (pos (suc a)) = negsuc a
neg (negsuc a) = pos (suc a)

abbrev abs : ℤ → ℤ
abs (pos a) = pos a
abs (negsuc a) = pos (suc a)

abbrev hundredths : Floats ℤ
hundredths = record { le = le; neg = neg; abs = abs }

le_trans : (a b c : ℤ) → le a b ≡ true → le b c ≡ true → le a c ≡ true
le_trans (pos a) (pos b) (pos c) h k = ground arith
le_trans (pos a) (pos b) (negsuc c) h k = k
le_trans (pos a) (negsuc b) c h k = cc
le_trans (negsuc a) b (pos c) h k = refl
le_trans (negsuc a) (pos b) (negsuc c) h k = cc
le_trans (negsuc a) (negsuc b) (negsuc c) h k = ground arith

abs-neg : (a : ℤ) → abs (neg a) ≡ abs a
abs-neg (pos zero) = refl
abs-neg (pos (suc a)) = refl
abs-neg (negsuc a) = refl

abbrev laws : FloatLaws hundredths
laws = record { le_trans = le_trans; abs_neg = abs-neg }

-- HARSH_DRIVING_DEFAULT_THRESHOLDS
abbrev thresholds : Thresholds ℤ
thresholds = record {
  harsh_accel_mps2 = pos 350;
  harsh_brake_mps2 = pos 400;
  harsh_corner_mps2 = pos 400;
}

evaluate-brake_and_corner : evaluate hundredths (negsuc 399) (pos 500) thresholds ≡ braking
unfolding evaluate
evaluate-brake_and_corner = refl

evaluate-left : evaluate hundredths (pos 349) (negsuc 399) thresholds ≡ cornering
unfolding evaluate
evaluate-left = refl

evaluate-IsClassified_example : IsClassified hundredths (pos 349) (negsuc 399) thresholds
evaluate-IsClassified_example = evaluate-IsClassified laws (pos 349) (negsuc 399) thresholds refl
