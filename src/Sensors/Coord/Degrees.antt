-- ===== src/Sensors/Coord/Degrees.antt =====
-- What `coord_to_minmea` of src/app_sensors.c makes of a coordinate that the settings allow.
use native.Mathlib.Nat.{div-add-mod, mod-lt, mul_comm}
use telenode.Prelude.{
  ℕ, zero, suc, ◌||◌, ◌+◌, ◌-◌, ◌*◌, ◌/◌, ◌%◌, ◌≤◌, ◌<◌, ◌≡◌, refl, Bool, true, false, some, arith,
}
use telenode.Obd.{pos, negsuc}
use telenode.Sensors.Float32.{one, round, exponent, nearest, less, of_int, to_int, sub, add, scale}
use telenode.Sensors.Float32.Rounding.{round_within, round_exact}
use telenode.Sensors.Float32.Sign.{
  signed, times-signed, quotient-signed, rounded-signed, add-signed, sub-signed,
}
use telenode.Sensors.Coord.{coord_to_minmea}

-- The steps on the magnitudes: the minutes, and the sum
abbrev minutes_of : ℕ → ℕ
minutes_of r = round (100000 * round (60 * round r))

abbrev sum_of : ℕ → ℕ → ℕ
sum_of degrees r = round (round degrees + minutes_of r)

minutes_near :
    (u r : ℕ) → r < u → (minutes_of r ≤ 6000000 * r + 2 * u) × (6000000 * r ≤ minutes_of r + 2 * u)
minutes_near u r h =
    let a = round_within r in
    let b = round_within (60 * round r) in
    let c = round_within (100000 * round (60 * round r)) in ((omega arith), (omega arith))

sum_near :
    (u degrees r : ℕ)
    → r < u
    → degrees + 6000000 * r ≤ 1800000000 * u
    → (sum_of degrees r ≤ degrees + 6000000 * r + 218 * u)
      × (degrees + 6000000 * r ≤ sum_of degrees r + 218 * u)
sum_near u degrees r h small =
    let m = minutes_near u r h in
    let a = round_within degrees in
    let b = round_within (round degrees + minutes_of r) in ((omega arith), (omega arith))

-- The operations of floats on numbers of one sign
of_int-signed : (s : Bool) (n : ℕ) → of_int (signed s n) ≡ signed s (round (one * n))
of_int-signed s n = rw (times-signed s one n) (rounded-signed s (one * n))

scale-signed : (s : Bool) (n c : ℕ) → scale (signed s n) c ≡ signed s (round (c * n))
scale-signed s n c = rw (times-signed s c n) (rounded-signed s (c * n))

float_add-signed : (s : Bool) (m n : ℕ) → add (signed s m) (signed s n) ≡ signed s (round (m + n))
float_add-signed s m n = rw (add-signed s m n) (rounded-signed s (m + n))

float_sub-signed :
    (s : Bool) (m n : ℕ) → n ≤ m → sub (signed s m) (signed s n) ≡ signed s (round (m - n))
float_sub-signed s m n h = rw (sub-signed s m n h) (rounded-signed s (m - n))

to_int-signed : (s : Bool) (n : ℕ) → to_int (signed s n) ≡ signed s (n / one)
to_int-signed s n = quotient-signed s n one (omega arith)

-- A number of either sign below 2 ^ 31 passes the test for -ERANGE.
in_range :
    (s : Bool) (n : ℕ)
    → n ≤ 2147483648 * one
    → (less (signed s n) (of_int (negsuc 2147483647))
        || less (of_int (pos 2147483646)) (signed s n))
      ≡ false
unfolding round exponent nearest
in_range true zero h = refl
in_range true (suc n) h = ground arith
in_range false n h = ground arith

-- The coordinate in 1 / 100000 of a minute with the degrees in front, exactly, in the units of a float
abbrev pub exact : ℕ → ℕ
exact n = 10000000 * (one * (n / one)) + 6000000 * (n % one)

-- What the function keeps of the magnitude
abbrev kept : ℕ → ℕ
kept n = sum_of (one * (100000 * (100 * (n / one)))) (n % one) / one

coord_to_minmea-signed :
    (s : Bool) (n : ℕ)
    → n ≤ 180 * one
    → coord_to_minmea (signed s n) ≡ some (record { value = signed s (kept n); scaled_by = 100000 })
unfolding coord_to_minmea
coord_to_minmea-signed s n h =
    let d = n / one in
    let whole : one * d + n % one ≡ n = div-add-mod n one in
    let below = mod-lt n {m = one} (omega arith) in
    let few : d < 16777216 = omega arith in
    let held : round (one * d) ≡ one * d = rw (mul_comm one d) (round_exact d 149 few) in
    let rest : n - one * d ≡ n % one = omega arith in
    let near = minutes_near one (n % one) below in
    let fits = in_range s (minutes_of (n % one)) (omega arith) in
    rw (
      to_int-signed s n,
      of_int-signed s d,
      held,
      float_sub-signed s n (one * d) (omega arith),
      rest,
      scale-signed s (round (n % one)) 60,
      scale-signed s (round (60 * round (n % one))) 100000,
      times-signed s 100 d,
      times-signed s 100000 (100 * d),
      of_int-signed s (100000 * (100 * d)),
      fits,
      float_add-signed s (round (one * (100000 * (100 * d)))) (minutes_of (n % one)),
      to_int-signed s (sum_of (one * (100000 * (100 * d))) (n % one)),
    )

-- A coordinate of at most 180 degrees, as the settings allow, is never out of range: what the function keeps is
-- the coordinate in 1 / 100000 of a minute with the degrees in front, within 219 of them, and at most
-- 1800000218, so that it fits into 32 bits. The arithmetic is that of single-precision floats.
pub coord_to_minmea-near :
    (s : Bool) (n : ℕ)
    → n ≤ 180 * one
    → (v : ℕ) × (coord_to_minmea (signed s n)
        ≡ some (record { value = signed s v; scaled_by = 100000 }))
      × (one * v ≤ exact n + 218 * one)
      × (exact n < one * (v + 219))
      × (v ≤ 1800000218)
coord_to_minmea-near s n h =
    let d = n / one in
    let r = n % one in
    let whole : one * d + r ≡ n = div-add-mod n one in
    let below = mod-lt n {m = one} (omega arith) in
    let degrees : one * (100000 * (100 * d)) ≡ 10000000 * (one * d) = omega arith in
    let close = sum_near one (one * (100000 * (100 * d))) r below (omega arith) in
    (kept n, coord_to_minmea-signed s n h, (omega arith), (omega arith), (omega arith))
