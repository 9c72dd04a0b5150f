-- ===== src/Prelude/Texts.antt =====
-- C strings: lists of character codes, without the terminating NUL. The functions of string.h that
-- the sources call on them.
use Prim.Native.Nat.{ℕ}
use Prim.Native.Char.{code}
use Prim.Native.String.{String}
use mathlib.Core.Path.{◌≡◌, ◌∙◌, refl, ap, ap₂}
use mathlib.Core.Logic.{◌≢◌, inl, inr}
use mathlib.Core.List.{List, [], ◌∷◌, ◌++◌}
use mathlib.Core.Option.{Option, none, some}
use mathlib.Core.Bool.{Bool, true, false, ◌&&◌}
use native.Mathlib.Omega.{arith}
use telenode.Prelude.Tests.{◌==◌, if◌then◌else◌, Bool-cases, Option-cases}

abbrev pub codes : String → List ℕ
codes String.[] = []
codes (String.◌∷◌ c s) = code c ∷ codes s

-- `strcmp(s, t) == 0`
abbrev pub strcmp : List ℕ → List ℕ → Bool
strcmp [] [] = true
strcmp [] (d ∷ t) = false
strcmp (c ∷ s) [] = false
strcmp (c ∷ s) (d ∷ t) = c == d && strcmp s t

-- `strncmp(s, prefix, strlen(prefix)) == 0`, with what follows the prefix
abbrev pub strip_prefix : List ℕ → List ℕ → Option (List ℕ)
strip_prefix [] s = some s
strip_prefix (p ∷ prefix) [] = none
strip_prefix (p ∷ prefix) (c ∷ s) = if p == c then strip_prefix prefix s else none

-- `strchr(s, c)`: what precedes the first `c`, and the text from there
abbrev pub strchr : ℕ → List ℕ → Option (List ℕ × List ℕ)
strchr c [] = none
strchr c (d ∷ s) =
    if d == c
    then some ([], d ∷ s)
    else elim (strchr c s) [ none ↦ none | some p ↦ some (d ∷ p.0, p.1) ]

abbrev pub Lacks : ℕ → List ℕ → Type 0
Lacks c [] = Unit
Lacks c (d ∷ s) = (d ≢ c) × Lacks c s

pub strcmp-same : (s t : List ℕ) → strcmp s t ≡ true → s ≡ t
strcmp-same [] [] h = refl
strcmp-same [] (d ∷ t) h = cc
strcmp-same (c ∷ s) [] h = cc
strcmp-same (c ∷ s) (d ∷ t) h =
    let (p, q) : (c ≡ d) × (strcmp s t ≡ true) = ground arith in ap₂ ◌∷◌ p (strcmp-same s t q)

pub strcmp_refl : (s : List ℕ) → strcmp s s ≡ true
strcmp_refl [] = refl
strcmp_refl (c ∷ s) = let h = strcmp_refl s in ground arith

pub strip_prefix-append : (prefix s : List ℕ) → strip_prefix prefix (prefix ++ s) ≡ some s
strip_prefix-append [] s = refl
strip_prefix-append (p ∷ prefix) s = let h = strip_prefix-append prefix s in ground arith

pub strip_prefix-some :
    (prefix s rest : List ℕ) → strip_prefix prefix s ≡ some rest → s ≡ prefix ++ rest
strip_prefix-some [] s rest h = cc
strip_prefix-some (p ∷ prefix) [] rest h = cc
strip_prefix-some (p ∷ prefix) (c ∷ s) rest h =
    let (e, k) : (c ≡ p) × (strip_prefix prefix s ≡ some rest) = ground arith in
    ap₂ ◌∷◌ e (strip_prefix-some prefix s rest k)

pub strchr-append : (c : ℕ) (s t : List ℕ) → Lacks c s → strchr c (s ++ (c ∷ t)) ≡ some (s, c ∷ t)
strchr-append c [] t h = ground arith
strchr-append c (d ∷ s) t h = let k = strchr-append c s t h.1 in ground arith

strchr-here : (c d : ℕ) (s : List ℕ) → (d == c) ≡ true → strchr c (d ∷ s) ≡ some ([], d ∷ s)
strchr-here c d s h = rw h refl

strchr-later :
    (c d : ℕ) (s : List ℕ) (p : List ℕ × List ℕ)
    → (d == c) ≡ false
    → strchr c s ≡ some p
    → strchr c (d ∷ s) ≡ some (d ∷ p.0, p.1)
strchr-later c d s p h e = rw (h, e) refl

strchr-never :
    {p : List ℕ × List ℕ} (c d : ℕ) (s : List ℕ)
    → (d == c) ≡ false
    → strchr c s ≡ none
    → strchr c (d ∷ s) ≡ some p
    → ⊥
strchr-never c d s h e k = let z : strchr c (d ∷ s) ≡ none = rw (h, e) refl in cc

-- What `strchr` finds: a text that starts with the character, behind one that lacks it.
pub record Found (c : ℕ) (s before from : List ℕ) : Type 0 where
  pub rest : List ℕ
  pub from_starts : from ≡ c ∷ rest
  pub parts : s ≡ before ++ from
  pub before_lacks : Lacks c before

pub strchr-Found :
    (c : ℕ) (s before from : List ℕ) → strchr c s ≡ some (before, from) → Found c s before from
strchr-Found c [] before from h = cc
strchr-Found c (d ∷ s) before from h = elim (Bool-cases (d == c)) [
  | inl here ↦
      let e = strchr-here c d s here in
      let p : before ≡ [] = cc in
      let q : from ≡ d ∷ s = cc in
      record {
        rest = s;
        from_starts = q ∙ ap (λ x. x ∷ s) (ground arith);
        parts = rw (p, q) refl;
        before_lacks = rw p tt;
      }
  | inr apart ↦ elim (Option-cases (strchr c s)) [
    | inl missing ↦ absurd (strchr-never c d s apart missing h)
    | inr (found, e) ↦
        let k = strchr-later c d s found apart e in
        let p : before ≡ d ∷ found.0 = cc in
        let q : from ≡ found.1 = cc in
        let r = strchr-Found c s found.0 found.1 e in
        record {
          rest = r.rest;
          from_starts = q ∙ r.from_starts;
          parts = rw (p, q) (ap (λ l. d ∷ l) r.parts);
          before_lacks = rw p (ground arith, r.before_lacks);
        }
  ]
]
