-- ===== src/Prelude/Texts/Strip.antt =====
-- `str.strip` leaves what it has stripped.
use mathlib.Core.Path.{◌≡◌, refl, ap, sym, ◌∙◌}
use mathlib.Core.Bool.{false}
use mathlib.Core.List.{[], ◌∷◌, ◌++◌}
use mathlib.Core.Logic.{inl, inr}
use Prim.Native.Nat.{ℕ, ◌≤◌}
use native.Mathlib.Omega.{arith}
use magic_ai_router.Prelude.Tests.{Bool-cases}
use magic_ai_router.Prelude.Lists.{length}
use magic_ai_router.Prelude.Keys.{Text}
use magic_ai_router.Prelude.Texts.{is_space, lstrip, rstrip_cons, rstrip, strip}

lstrip-lstrip : (s : Text) → lstrip (lstrip s) ≡ lstrip s
unfolding lstrip
lstrip-lstrip [] = refl
lstrip-lstrip (c ∷ s) = elim (Bool-cases (is_space c)) [
  | inl blank ↦ rw blank (lstrip-lstrip s)
  | inr mark ↦ rw (mark, lstrip) (rw mark refl)
]

-- A character before a text that is its own `rstrip`.
rstrip_cons-fixed : (c : ℕ) (t : Text) → rstrip t ≡ t → rstrip (rstrip_cons c t) ≡ rstrip_cons c t
unfolding rstrip rstrip_cons
rstrip_cons-fixed c [] h = elim (Bool-cases (is_space c)) [
  | inl blank ↦ rw blank refl
  | inr mark ↦ rw mark (rw mark refl)
]
rstrip_cons-fixed c (d ∷ t) h = rw h refl

rstrip_cons-tail : (c : ℕ) (t s : Text) → rstrip_cons c t ≡ c ∷ s → t ≡ s
unfolding rstrip_cons
rstrip_cons-tail c [] s h = ground arith
rstrip_cons-tail c (d ∷ t) s h = cc

rstrip-rstrip : (s : Text) → rstrip (rstrip s) ≡ rstrip s
unfolding rstrip rstrip_cons
rstrip-rstrip [] = refl
rstrip-rstrip (c ∷ s) = rstrip_cons-fixed c (rstrip s) (rstrip-rstrip s)

rstrip-lstrip : (s : Text) → rstrip s ≡ s → rstrip (lstrip s) ≡ lstrip s
unfolding lstrip rstrip
rstrip-lstrip [] h = refl
rstrip-lstrip (c ∷ s) h = elim (Bool-cases (is_space c)) [
  | inl blank ↦ rw blank (rstrip-lstrip s (rstrip_cons-tail c (rstrip s) s h))
  | inr mark ↦ rw mark h
]

pub strip-strip : (s : Text) → strip (strip s) ≡ strip s
unfolding strip
strip-strip s = rw (rstrip-lstrip (rstrip s) (rstrip-rstrip s)) (lstrip-lstrip (rstrip s))

-- A text whose last character is no blank ends as it is.
rstrip-append : (s : Text) (d : ℕ) → is_space d ≡ false → rstrip (s ++ d ∷ []) ≡ s ++ d ∷ []
unfolding rstrip rstrip_cons
rstrip-append [] d h = rw h refl
rstrip-append (x ∷ []) d h = rw h refl
rstrip-append (x ∷ y ∷ s) d h = rw (rstrip-append (y ∷ s) d h) refl

length-lstrip-le : (s : Text) → length (lstrip s) ≤ length s
unfolding lstrip
length-lstrip-le [] = omega arith
length-lstrip-le (c ∷ s) = elim (Bool-cases (is_space c)) [
  | inl blank ↦ rw blank (let rest = length-lstrip-le s in omega arith)
  | inr mark ↦ rw mark (omega arith)
]

lstrip-first : (c : ℕ) (s : Text) → lstrip (c ∷ s) ≡ c ∷ s → is_space c ≡ false
unfolding lstrip
lstrip-first c s = elim (Bool-cases (is_space c)) [
  | inl blank ↦
      rw blank (λ h. let short = length-lstrip-le s in absurd (omega (arith, ap (length {0}) h)))
  | inr mark ↦ λ h. mark
]

-- The first character of a text that is its own `strip` is no blank.
pub strip-first : (c : ℕ) (s : Text) → strip (c ∷ s) ≡ c ∷ s → is_space c ≡ false
unfolding strip
strip-first c s h = lstrip-first c s (ap lstrip (sym h) ∙ lstrip-lstrip (rstrip (c ∷ s)) ∙ h)

pub strip-marked :
    (c : ℕ) (s : Text) (d : ℕ)
    → is_space c ≡ false
    → is_space d ≡ false
    → strip ((c ∷ s) ++ d ∷ []) ≡ (c ∷ s) ++ d ∷ []
unfolding strip lstrip
strip-marked c s d h k = rw (rstrip-append (c ∷ s) d k) (rw h refl)
