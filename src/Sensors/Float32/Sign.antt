-- ===== src/Sensors/Float32/Sign.antt =====
-- The operations of Sensors/Float32.antt on numbers of one sign, as operations on their magnitudes.
use native.Mathlib.Nat.{mul-zero, zero-div}
use telenode.Prelude.{
  ℕ, zero, suc, ◌+◌, ◌-◌, ◌*◌, ◌/◌, ◌≤◌, ◌<◌, ◌≡◌, refl, sym, ap, ◌∙◌, inl, inr, Bool-cases, Bool,
  true, false, arith, leb,
}
use telenode.Obd.{ℤ, pos, negsuc, minus}
use telenode.Sensors.Float32.{neg, ◌+ℤ◌, times, quotient, rounded, round, exponent, nearest}

-- A magnitude with its sign; `true` is the minus.
abbrev pub signed : Bool → ℕ → ℤ
signed true n = neg (pos n)
signed false n = pos n

neg-suc : (n m : ℕ) → n ≡ suc m → neg (pos n) ≡ negsuc m
neg-suc n m e = rw e refl

minus_below : (a b : ℕ) → a ≤ b → minus a b ≡ neg (pos (b - a))
minus_below a b h = elim (Bool-cases (leb b a)) [
  | inl le ↦ let e : b ≡ a = ground arith in rw e (ground arith)
  | inr gt ↦ rw gt (sym (neg-suc (b - a) (b - a - 1) (ground arith)))
]

minus_above : (a b : ℕ) → b ≤ a → minus a b ≡ pos (a - b)
minus_above a b h = ground arith

pub times-signed : (s : Bool) (c n : ℕ) → times c (signed s n) ≡ signed s (c * n)
times-signed true c zero = rw (mul-zero c) refl
times-signed true c (suc n) = refl
times-signed false c n = refl

pub quotient-signed : (s : Bool) (n c : ℕ) → 0 < c → quotient (signed s n) c ≡ signed s (n / c)
quotient-signed true zero c h = rw (zero-div c) refl
quotient-signed true (suc n) c h = refl
quotient-signed false n c h = refl

pub rounded-signed : (s : Bool) (n : ℕ) → rounded (signed s n) ≡ signed s (round n)
unfolding round exponent nearest
rounded-signed true zero = refl
rounded-signed true (suc n) = refl
rounded-signed false n = refl

pub add-signed : (s : Bool) (m n : ℕ) → signed s m +ℤ signed s n ≡ signed s (m + n)
add-signed true zero zero = refl
add-signed true zero (suc n) =
    minus_below 0 (suc n) (omega arith) ∙ ap (λ k. neg (pos k)) (omega arith)
add-signed true (suc m) zero =
    minus_below 0 (suc m) (omega arith) ∙ ap (λ k. neg (pos k)) (omega arith)
add-signed true (suc m) (suc n) = sym (neg-suc (suc m + suc n) (suc (m + n)) (omega arith))
add-signed false m n = refl

pub sub-signed : (s : Bool) (m n : ℕ) → n ≤ m → signed s m +ℤ neg (signed s n) ≡ signed s (m - n)
sub-signed true zero zero h = refl
sub-signed true zero (suc n) h = absurd (omega arith)
sub-signed true (suc m) zero h = minus_below 0 (suc m) (omega arith)
sub-signed true (suc m) (suc n) h = minus_below (suc n) (suc m) h
sub-signed false m zero h = ap pos (omega arith)
sub-signed false m (suc n) h = minus_above m (suc n) h
