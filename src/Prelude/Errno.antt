-- ===== src/Prelude/Errno.antt =====
-- The errno codes, and what a C function returns that answers 0 (with what goes through its output
-- parameters) or a negative errno.
use Prim.Native.Nat.{ℕ}
use mathlib.Core.Path.{◌≡◌, refl}
use mathlib.Core.Logic.{◌⊎◌, inl, inr}

-- `other n` is an errno that the sources never name, passed on from a library.
pub data Errno : Type 0 where
  eio einval enospc enoent enomem emsgsize enotconn etimedout enodev erange ealready : Errno
  other : ℕ → Errno

pub data Result {ℓ} (A : Type ℓ) : Type ℓ where
  ok : A → Result A
  err : Errno → Result A

-- `return 0`
abbrev pub success : Result (Unit {0})
success = ok tt

-- `rc < 0 ? rc : 0`
abbrev pub discard {ℓ} : {A : Type ℓ} → Result A → Result (Unit {0})
discard (ok a) = ok tt
discard (err e) = err e

pub Result-cases {ℓ} :
    {A : Type ℓ} (r : Result A) → ((a : A) × (r ≡ ok a)) ⊎ ((e : Errno) × (r ≡ err e))
Result-cases (ok a) = inl (a, refl)
Result-cases (err e) = inr (e, refl)

pub Done-cases : (r : Result (Unit {0})) → (r ≡ success) ⊎ ((e : Errno) × (r ≡ err e))
Done-cases (ok a) = inl refl
Done-cases (err e) = inr (e, refl)

pub success-ne-err : {e : Errno} → success ≡ err e → ⊥
success-ne-err h = cc

pub discard-ok {ℓ} : {A : Type ℓ} (r : Result A) → discard r ≡ success → (a : A) × (r ≡ ok a)
discard-ok (ok a) h = (a, refl)
discard-ok (err e) h = cc
