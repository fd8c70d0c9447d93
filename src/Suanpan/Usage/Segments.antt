-- ===== src/Suanpan/Usage/Segments.antt =====
-- How the bytes of an event stream are divided into chunks does not matter to the frames that
-- suanpan/usage_extractor.py finds.
use magic_ai_router.Prelude.{
  ℕ, zero, suc, ◌≤◌, ◌≡◌, refl, Bool, true, false, none, some, List, [], ◌∷◌, ◌++◌, Text,
  starts_with, length, arith, ◌⊎◌, inl, inr, Option-cases,
}
use magic_ai_router.Suanpan.Usage.Events.{
  Separator, separator_at, Cut, put_before, put_event, cut_from, split_events,
}

-- A cut of some bytes, continued with more of them.
abbrev pub continued : Cut → Text → Cut
continued (events, rest) b = let (later, end) = split_events (rest ++ b) in (events ++ later, end)

abbrev is_nil : List (Separator × Text) → Bool
is_nil [] = true
is_nil (_ ∷ _) = false

separator_at-append :
    (a b : Text) (sep : Separator) (more : ℕ)
    → separator_at a ≡ some (sep, more)
    → separator_at (a ++ b) ≡ some (sep, more)
unfolding separator_at starts_with
separator_at-append [] b sep more h = ground arith
separator_at-append (c ∷ []) b sep more h = ground arith
separator_at-append (c ∷ d ∷ []) b sep more h = ground arith
separator_at-append (c ∷ d ∷ e ∷ []) b sep more h = ground arith
separator_at-append (c ∷ d ∷ e ∷ f ∷ a) b sep more h = ground arith

separator_at-length :
    (c : ℕ) (s : Text) (sep : Separator) (more : ℕ)
    → separator_at (c ∷ s) ≡ some (sep, more)
    → more ≤ length s
unfolding separator_at starts_with
separator_at-length c [] sep more h = ground arith
separator_at-length c (d ∷ []) sep more h = ground arith
separator_at-length c (d ∷ e ∷ []) sep more h = ground arith
separator_at-length c (d ∷ e ∷ f ∷ a) sep more h = ground arith

-- A separator that only further bytes complete has no other one in its beginning.
separator_at-open :
    (c : ℕ) (s b : Text) (sep : Separator) (more : ℕ)
    → separator_at (c ∷ s) ≡ none
    → separator_at (c ∷ s ++ b) ≡ some (sep, more)
    → (cut_from 0 s).0 ≡ []
unfolding separator_at starts_with cut_from
separator_at-open c [] b sep more h k = refl
separator_at-open c (d ∷ []) b sep more h k = ground arith
separator_at-open c (d ∷ e ∷ []) b sep more h k = ground arith
separator_at-open c (d ∷ e ∷ f ∷ a) b sep more h k = ground arith

put_before-empty : (c : ℕ) (cut : Cut) → (put_before c cut).0 ≡ [] → cut.0 ≡ []
put_before-empty c ([], rest) h = refl
put_before-empty c ((sep, frame) ∷ events, rest) h = cc

-- Bytes without a separator are left as they are.
cut_from-none : (s : Text) → (cut_from 0 s).0 ≡ [] → cut_from 0 s ≡ ([], s)
unfolding cut_from
cut_from-none [] h = refl
cut_from-none (c ∷ s) h = elim (Option-cases (separator_at (c ∷ s))) [
  | inr ((sep, more), e) ↦ ground arith
  | inl e ↦
      let before = rw (e, cut_from) at h in
      let same = cut_from-none s (put_before-empty c (cut_from 0 s) before) in
      rw (e, cut_from, same) refl
]

continued-put_before :
    (c : ℕ) (cut : Cut) (b : Text)
    → is_nil cut.0 ≡ false
    → put_before c (continued cut b) ≡ continued (put_before c cut) b
continued-put_before c ([], rest) b h = ground arith
continued-put_before c ((sep, frame) ∷ events, rest) b h = refl

continued-put_event :
    (sep : Separator) (cut : Cut) (b : Text)
    → put_event sep (continued cut b) ≡ continued (put_event sep cut) b
continued-put_event sep (events, rest) b = refl

is_nil-cases : (events : List (Separator × Text)) → (events ≡ []) ⊎ (is_nil events ≡ false)
is_nil-cases [] = inl refl
is_nil-cases (_ ∷ _) = inr refl

cut_from-append :
    (skip : ℕ) (a b : Text)
    → skip ≤ length a
    → cut_from skip (a ++ b) ≡ continued (cut_from skip a) b
unfolding cut_from split_events
cut_from-append zero [] b h = refl
cut_from-append (suc skip) [] b h = ground arith
cut_from-append (suc skip) (c ∷ s) b h = cut_from-append skip s b (omega arith)
cut_from-append zero (c ∷ s) b h = elim (Option-cases (separator_at (c ∷ s))) [
  | inr ((sep, more), e) ↦
      let later = separator_at-append (c ∷ s) b sep more e in
      let rest = cut_from-append more s b (separator_at-length c s sep more e) in
      rw (e, later, cut_from, rest) (continued-put_event sep (cut_from more s) b)
  | inl e ↦ elim (is_nil-cases (cut_from 0 s).0) [
    | inl empty ↦ rw (e, cut_from, cut_from-none s empty) refl
    | inr some_event ↦ elim (Option-cases (separator_at (c ∷ s ++ b))) [
      | inr ((sep, more), k) ↦ let empty = separator_at-open c s b sep more e k in ground arith
      | inl k ↦
          rw (e, k, cut_from, cut_from-append 0 s b (omega arith))
            (continued-put_before c (cut_from 0 s) b some_event)
    ]
  ]
]

-- The frames of two chunks are those of the first, and those of its rest with the second.
pub split_events-append : (a b : Text) → split_events (a ++ b) ≡ continued (split_events a) b
unfolding split_events
split_events-append a b = cut_from-append 0 a b (omega arith)
