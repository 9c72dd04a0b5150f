-- ===== src/Sensors/Float32.antt =====
-- The single-precision numbers of src/app_sensors.c (`float`), rounded to the nearest, ties to the even one.
-- A number is the integer that counts its units of 2 ^ -149, the smallest that a float tells from 0; there
-- is no infinity here, since `coord_to_minmea` stays below 2 ^ 34.
pub mod Rounding
pub mod Sign
use telenode.Prelude.{
  ℕ, zero, suc, ◌+◌, ◌-◌, ◌*◌, ◌/◌, ◌%◌, ◌^◌, ◌≤◌, ◌<◌, ◌≡◌, ◌⊎◌, inl, inr, refl, Bool, true, false,
  ltb, leb, if◌then◌else◌, arith, tests, Bool-cases,
}
use telenode.Obd.{ℤ, pos, negsuc, minus}

-- `1.0`
abbrev pub one : ℕ
one = 2 ^ 149

-- The integers of C, whose type the caller has to respect
abbrev pub neg : ℤ → ℤ
neg (pos zero) = pos zero
neg (pos (suc n)) = negsuc n
neg (negsuc n) = pos (suc n)

infixl 60 ◌+ℤ◌
abbrev pub ◌+ℤ◌ : ℤ → ℤ → ℤ
pos m +ℤ pos n = pos (m + n)
pos m +ℤ negsuc n = minus m (suc n)
negsuc m +ℤ pos n = minus n (suc m)
negsuc m +ℤ negsuc n = negsuc (suc (m + n))

-- A product with a constant that is not negative
abbrev pub times : ℕ → ℤ → ℤ
times c (pos n) = pos (c * n)
times c (negsuc n) = neg (pos (c * suc n))

-- A quotient, rounded towards 0
abbrev pub quotient : ℤ → ℕ → ℤ
quotient (pos n) c = pos (n / c)
quotient (negsuc n) c = neg (pos (suc n / c))

abbrev pub less : ℤ → ℤ → Bool
less (pos m) (pos n) = ltb m n
less (pos m) (negsuc n) = false
less (negsuc m) (pos n) = true
less (negsuc m) (negsuc n) = ltb n m

-- How many binary digits of `n` do not fit into the 24 of a float. 256 are enough, since a
-- float is less than 2 ^ 277 units.
unfoldable pub exponent : ℕ → ℕ → ℕ
exponent zero n = 0
exponent (suc fuel) n = let rest = exponent fuel (n / 2) in if ltb n 16777216 then 0 else suc rest

-- What `n` rounds to where the digits below `quantum` are lost.
unfoldable pub nearest : ℕ → ℕ → ℕ
nearest quantum n =
    if ltb (2 * (n % quantum)) quantum
    then quantum * (n / quantum)
    else if ltb quantum (2 * (n % quantum))
    then quantum * (n / quantum + 1)
    else quantum * (n / quantum + n / quantum % 2)

unfoldable pub round : ℕ → ℕ
round n = nearest (2 ^ exponent 256 n) n

abbrev pub rounded : ℤ → ℤ
rounded (pos n) = pos (round n)
rounded (negsuc n) = neg (pos (round (suc n)))

-- `(float)i`
abbrev pub of_int : ℤ → ℤ
of_int i = rounded (times one i)

-- `(int32_t)x`, where it is one
abbrev pub to_int : ℤ → ℤ
to_int x = quotient x one

-- `x + y`, `x - y` and, for a constant that a float holds, `x * c`
abbrev pub add : ℤ → ℤ → ℤ
add x y = rounded (x +ℤ y)

abbrev pub sub : ℤ → ℤ → ℤ
sub x y = rounded (x +ℤ neg y)

abbrev pub scale : ℤ → ℕ → ℤ
scale x c = rounded (times c x)
