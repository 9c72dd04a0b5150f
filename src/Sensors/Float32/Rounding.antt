-- ===== src/Sensors/Float32/Rounding.antt =====
-- How far `round` of Sensors/Float32.antt is from the number itself, and which numbers it keeps.
use native.Mathlib.Nat.{
  pow-suc, pow-le-pow_right, one-le-pow, zero-add, one-mul, two-pow-succ, mul_assoc, add-mul,
  mul-mod_left, mul-le-mul_right, sub-add_cancel, div-lt_iff_lt-mul,
}
use telenode.Prelude.{
  ℕ, zero, suc, ◌+◌, ◌-◌, ◌*◌, ◌/◌, ◌%◌, ◌^◌, ◌≤◌, ◌<◌, ◌≡◌, sym, subst, leb, leb→le, ◌⊎◌, inl, inr,
  refl, ltb, ltb→lt, arith, Bool-cases,
}
use telenode.Sensors.Float32.{exponent, nearest, round}

exponent_low : (fuel n : ℕ) → (exponent fuel n ≡ 0) ⊎ (8388608 * 2 ^ exponent fuel n ≤ n)
unfolding exponent
exponent_low zero n = inl refl
exponent_low (suc fuel) n = elim (Bool-cases (ltb n 16777216)) [
  | inl small ↦ inl (rw small refl)
  | inr large ↦ inr (
      rw large (
        rw (pow-suc 2 (exponent fuel (n / 2))) (elim (exponent_low fuel (n / 2)) [
          | inl e ↦ rw e (ground arith)
          | inr low ↦ omega arith
        ])))
]

-- Enough fuel leaves 24 digits.
exponent_enough : (fuel n : ℕ) → n < 16777216 * 2 ^ fuel → n < 16777216 * 2 ^ exponent fuel n
unfolding exponent
exponent_enough zero n h = h
exponent_enough (suc fuel) n h = elim (Bool-cases (ltb n 16777216)) [
  | inl small ↦ rw small (ltb→lt n 16777216 small)
  | inr large ↦ rw large (
      let up : n < 16777216 * (2 ^ fuel * 2) = subst (λ x. n < 16777216 * x) (pow-suc 2 fuel) h in
      let rest = exponent_enough fuel (n / 2) (omega arith) in
      rw (pow-suc 2 (exponent fuel (n / 2))) (omega arith))
]

-- Whatever the digit, the multiple of `q` is the one below or the one above.
nearest_within : (q n : ℕ) → 0 < q → (2 * nearest q n ≤ 2 * n + q) × (2 * n ≤ 2 * nearest q n + q)
unfolding nearest
nearest_within q n h = ground arith

nearest_exact : (q n : ℕ) → 0 < q → n % q ≡ 0 → nearest q n ≡ n
unfolding nearest
nearest_exact q n h e = ground arith

pow_positive : (e : ℕ) → 0 < 2 ^ e
pow_positive e = one-le-pow e 2 (omega arith)

pow_split : (j e : ℕ) → 2 ^ (j + e) ≡ 2 ^ j * 2 ^ e
pow_split zero e = rw (zero-add e) (sym (one-mul (2 ^ e)))
pow_split (suc j) e =
    let step : suc j + e ≡ suc (j + e) = omega arith in
    let product : (2 ^ j + 2 ^ j) * 2 ^ e ≡ 2 ^ j * 2 ^ e + 2 ^ j * 2 ^ e =
      add-mul (2 ^ j) (2 ^ j) (2 ^ e) in
    rw step (rw (two-pow-succ (j + e)) (rw (two-pow-succ j) (rw (pow_split j e) (sym product))))

-- Off by half a unit of the last digit at most
pub round_within :
    (n : ℕ) → (16777216 * round n ≤ 16777217 * n) × (16777215 * n ≤ 16777216 * round n)
unfolding round
round_within n =
    let near = nearest_within (2 ^ exponent 256 n) n (pow_positive (exponent 256 n)) in
    elim (exponent_low 256 n) [
      | inl e ↦
          rw e (rw (nearest_exact 1 n (omega arith) (omega arith)) ((omega arith), (omega arith)))
      | inr low ↦ ((omega arith), (omega arith))
    ]

exponent_small : (d k : ℕ) → d < 16777216 → exponent 256 (d * 2 ^ k) ≤ k
exponent_small d k h = elim (exponent_low 256 (d * 2 ^ k)) [
  | inl e ↦ rw e (omega arith)
  | inr low ↦ elim (Bool-cases (leb (exponent 256 (d * 2 ^ k)) k)) [
    | inl le ↦ leb→le (exponent 256 (d * 2 ^ k)) k le
    | inr gt ↦
        let more : 2 ^ suc k ≤ 2 ^ exponent 256 (d * 2 ^ k) =
          pow-le-pow_right (omega arith) (ground arith) in
        let twice = two-pow-succ k in
        let large : d * 2 ^ k ≤ 16777215 * 2 ^ k = mul-le-mul_right (2 ^ k) (omega arith) in
        let some_unit = pow_positive k in omega arith
  ]
]

-- A float holds the integers of 24 digits.
pub round_exact : (d k : ℕ) → d < 16777216 → round (d * 2 ^ k) ≡ d * 2 ^ k
unfolding round
round_exact d k h =
    let e = exponent 256 (d * 2 ^ k) in
    nearest_exact (2 ^ e) (d * 2 ^ k) (pow_positive e) (
      subst (λ x. d * 2 ^ x % 2 ^ e ≡ 0) (sub-add_cancel (exponent_small d k h))
        (rw (pow_split (k - e) e)
          (rw (sym (mul_assoc d (2 ^ (k - e)) (2 ^ e))) (mul-mod_left (d * 2 ^ (k - e)) (2 ^ e)))))

nearest_multiple : (q n : ℕ) → (m : ℕ) × (m ≤ n / q + 1) × (nearest q n ≡ q * m)
unfolding nearest
nearest_multiple q n = elim (Bool-cases (ltb (2 * (n % q)) q)) [
  | inl down ↦ (n / q, (omega arith), rw down)
  | inr ge ↦ elim (Bool-cases (ltb q (2 * (n % q)))) [
    | inl up ↦ (n / q + 1, (omega arith), rw (ge, up))
    | inr tie ↦ (n / q + n / q % 2, (omega arith), rw (ge, tie))
  ]
]

-- What a number rounds to is a float: 24 digits, and zeros behind them.
pub round-IsFloat :
    (n : ℕ) → n < 16777216 * 2 ^ 256 → (m : ℕ) × (m ≤ 16777216) × (round n ≡ 2 ^ exponent 256 n * m)
unfolding round
round-IsFloat n h =
    let e = exponent 256 n in
    let digits : n / 2 ^ e < 16777216 =
      (div-lt_iff_lt-mul (pow_positive e)).1 (exponent_enough 256 n h) in
    let found = nearest_multiple (2 ^ e) n in (found.0, (omega arith), found.2)
