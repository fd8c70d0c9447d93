-- ===== src/Shared/Netloc/Decimal.antt =====
-- The decimal digits of a number, as `str` writes them and `int` reads them.
use magic_ai_router.Prelude.{
  ℕ, zero, suc, ◌+◌, ◌-◌, ◌*◌, ◌/◌, ◌%◌, ◌<◌, ◌≡◌, refl, ◌∙◌, Bool, true, ◌&&◌, [], ◌∷◌, ◌++◌, Text,
  leb, ltb, All, All-append, Bool-cases, inl, inr, ltb→lt, arith, if◌then◌else◌,
}

abbrev pub is_digit : ℕ → Bool
is_digit c = leb b'0' c && leb c b'9'

abbrev pub all_digits : Text → Bool
all_digits [] = true
all_digits (c ∷ s) = is_digit c && all_digits s

unfoldable pub digits_value : ℕ → Text → ℕ
digits_value value [] = value
digits_value value (c ∷ s) = digits_value (value * 10 + (c - b'0')) s

-- The fuel is above the number of digits.
unfoldable pub decimal_from : ℕ → ℕ → Text
decimal_from zero n = []
decimal_from (suc fuel) n =
    let rest = decimal_from fuel (n / 10) in
    if ltb n 10 then (n + b'0') ∷ [] else rest ++ (n % 10 + b'0') ∷ []

unfoldable pub decimal : ℕ → Text
unfolding decimal_from
decimal n = decimal_from (suc n) n

digits_value-append :
    (v : ℕ) (s : Text) (c : ℕ) → digits_value v (s ++ c ∷ []) ≡ digits_value v s * 10 + (c - b'0')
unfolding digits_value
digits_value-append v [] c = refl
digits_value-append v (d ∷ s) c = digits_value-append (v * 10 + (d - b'0')) s c

decimal_from-value : (fuel n : ℕ) → n < fuel → digits_value 0 (decimal_from fuel n) ≡ n
unfolding decimal_from digits_value
decimal_from-value zero n h = elim h [ ]
decimal_from-value (suc fuel) n h = elim (Bool-cases (ltb n 10)) [
  | inl small ↦ rw small (omega arith)
  | inr large ↦ rw large (
      digits_value-append 0 (decimal_from fuel (n / 10)) (n % 10 + b'0')
      ∙ rw (decimal_from-value fuel (n / 10) (ground arith)) (omega arith))
]

pub decimal-value : (n : ℕ) → digits_value 0 (decimal n) ≡ n
unfolding decimal
decimal-value n = decimal_from-value (suc n) n (omega arith)

-- What holds of each of the ten digits holds of every character of a number.
module _ {ℓ} (P : ℕ → Type ℓ) (each : (d : ℕ) → d < 10 → P (d + b'0')) where
  All-decimal_from : (fuel n : ℕ) → All P (decimal_from fuel n)
  unfolding decimal_from
  All-decimal_from zero n = tt
  All-decimal_from (suc fuel) n = elim (Bool-cases (ltb n 10)) [
    | inl small ↦ rw small (each n (ltb→lt n 10 small), tt)
    | inr large ↦ rw large (
        All-append P (decimal_from fuel (n / 10)) ((n % 10 + b'0') ∷ [])
          (All-decimal_from fuel (n / 10)) (each (n % 10) (omega arith), tt))
  ]

  pub All-decimal : (n : ℕ) → All P (decimal n)
  unfolding decimal
  All-decimal n = All-decimal_from (suc n) n

-- A number has a last digit.
pub decimal-last : (n : ℕ) → (s : Text) × (d : ℕ) × (d < 10) × (decimal n ≡ s ++ (d + b'0') ∷ [])
unfolding decimal decimal_from
decimal-last n = elim (Bool-cases (ltb n 10)) [
  | inl small ↦ ([], n, ltb→lt n 10 small, rw small refl)
  | inr large ↦ (decimal_from n (n / 10), n % 10, omega arith, rw large refl)
]
