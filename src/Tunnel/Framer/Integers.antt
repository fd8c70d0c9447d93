-- ===== src/Tunnel/Framer/Integers.antt =====
-- Python's `int(text, base)` on a text of code points up to 255 that has no blank at its ends, for
-- the bases 10 and 16.
use magic_ai_router.Prelude.{
  ℕ, zero, suc, ◌+◌, ◌-◌, ◌*◌, Bool, true, false, ◌&&◌, ◌||◌, Option, none, some, [], ◌∷◌, Text,
  codes, leb, ltb, nat_beq, drop, starts_with, lower_char, if◌then◌else◌,
}
use magic_ai_router.Json.{ℤ, pos, negsuc}

abbrev digit_of : ℕ → Option ℕ
digit_of c =
    if leb b'0' c && leb c b'9'
    then some (c - b'0')
    else if leb b'a' c && leb c b'f'
    then some (c - b'a' + 10)
    else none

abbrev digit : ℕ → ℕ → Option ℕ
digit base c = elim (digit_of (lower_char c)) [
  | none ↦ none
  | some d ↦ if ltb d base then some d else none
]

-- The digits behind a value, with single underscores between them; `open_` says that a digit must
-- follow.
digits : ℕ → ℕ → Bool → Text → Option ℕ
digits base value open_ [] = if open_ then none else some value
digits base value open_ (c ∷ s) =
    let marked = digits base value true s in
    if nat_beq c b'_'
    then (if open_ then none else marked)
    else (elim (digit base c) [ none ↦ none | some d ↦ digits base (value * base + d) false s ])

-- The digits of a decimal text, which has at most 4300.
abbrev count_digits : Text → ℕ
count_digits [] = 0
count_digits (c ∷ s) = if nat_beq c b'_' then count_digits s else count_digits s + 1

after_prefix : Text → Option ℕ
unfolding digits
after_prefix (c ∷ s) = if nat_beq c b'_' then digits 16 0 true s else digits 16 0 true (c ∷ s)
after_prefix [] = none

unsigned : ℕ → Text → Option ℕ
unfolding digits after_prefix
unsigned base s =
    if nat_beq base 16 && (starts_with s (codes "0x") || starts_with s (codes "0X"))
    then after_prefix (drop 2 s)
    else if nat_beq base 10 && ltb 4300 (count_digits s)
    then none
    else digits base 0 true s

abbrev pub negated : ℕ → ℤ
negated zero = pos 0
negated (suc n) = negsuc n

unfoldable pub parse_int : ℕ → Text → Option ℤ
unfolding unsigned
parse_int base s =
    let rest = unsigned base (drop 1 s) in
    if starts_with s (codes "-")
    then (elim rest [ none ↦ none | some n ↦ some (negated n) ])
    else if starts_with s (codes "+")
    then (elim rest [ none ↦ none | some n ↦ some (pos n) ])
    else (elim (unsigned base s) [ none ↦ none | some n ↦ some (pos n) ])
