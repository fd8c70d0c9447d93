-- ===== src/Prelude/Texts.antt =====
-- The methods of Python's `str` that the program uses, over the code points of a text.
pub mod Strip
use Prim.Native.Nat.{ℕ, ◌+◌}
use Prim.Native.Char.{code}
use Prim.Native.String.{String}
use mathlib.Core.Bool.{Bool, true, false, ◌&&◌, ◌||◌}
use mathlib.Core.List.{List, [], ◌∷◌, ◌++◌, map}
use mathlib.Core.Logic.{inl, inr}
use magic_ai_router.Prelude.Tests.{leb, nat_beq, if◌then◌else◌, Bool-cases}
use magic_ai_router.Prelude.Lists.{All}
use magic_ai_router.Prelude.Keys.{Text}

abbrev pub codes : String → Text
codes String.[] = []
codes (String.◌∷◌ c s) = code c ∷ codes s

-- `text.startswith(prefix)`
unfoldable pub starts_with : Text → Text → Bool
starts_with text [] = true
starts_with [] (_ ∷ _) = false
starts_with (c ∷ text) (p ∷ prefix) = nat_beq c p && starts_with text prefix

-- `c in text` for one character
unfoldable pub has_char : ℕ → Text → Bool
has_char c [] = false
has_char c (x ∷ xs) = nat_beq x c || has_char c xs

-- `text.partition(sep)` for one character, less its middle part
unfoldable pub partition : ℕ → Text → Text × Text
partition sep [] = ([], [])
partition sep (x ∷ xs) =
    let (before, after) = partition sep xs in
    if nat_beq x sep then ([], xs) else (x ∷ before, after)

-- The characters that `str.strip` and `str.isspace` take for white space.
unfoldable pub is_space : ℕ → Bool
is_space c =
    (leb 9 c && leb c 13)
    || (leb 28 c && leb c 32)
    || nat_beq c 133
    || nat_beq c 160
    || nat_beq c 5760
    || (leb 8192 c && leb c 8202)
    || nat_beq c 8232
    || nat_beq c 8233
    || nat_beq c 8239
    || nat_beq c 8287
    || nat_beq c 12288

unfoldable pub lstrip : Text → Text
unfolding is_space
lstrip [] = []
lstrip (c ∷ s) = let rest = lstrip s in if is_space c then rest else c ∷ s

-- One character before what is left of the text behind it.
rstrip_cons : ℕ → Text → Text
unfolding is_space
rstrip_cons c [] = if is_space c then [] else c ∷ []
rstrip_cons c (d ∷ s) = c ∷ d ∷ s

unfoldable pub rstrip : Text → Text
unfolding rstrip_cons
rstrip [] = []
rstrip (c ∷ s) = rstrip_cons c (rstrip s)

unfoldable pub strip : Text → Text
unfolding lstrip rstrip
strip s = lstrip (rstrip s)

-- `"\n".join(parts)`
abbrev pub join_lines : List Text → Text
join_lines [] = []
join_lines (part ∷ []) = part
join_lines (part ∷ next ∷ rest) = part ++ (10 ∷ join_lines (next ∷ rest))

-- `str.lower` on the ASCII letters; the program lowers header names and values, whose bytes above
-- 127 it only compares with ASCII texts.
abbrev pub lower_char : ℕ → ℕ
lower_char c = if leb 65 c && leb c 90 then c + 32 else c

abbrev pub lower : Text → Text
lower = map lower_char

-- What holds of every character of a text holds of those that are left of it.
module _ {ℓ} (P : ℕ → Type ℓ) where
  All-lstrip : (s : Text) → All P s → All P (lstrip s)
  unfolding lstrip
  All-lstrip [] h = h
  All-lstrip (c ∷ s) (p, h) = elim (Bool-cases (is_space c)) [
    | inl blank ↦ rw blank (All-lstrip s h)
    | inr mark ↦ rw mark (p, h)
  ]

  All-rstrip_cons : (c : ℕ) (s : Text) → P c → All P s → All P (rstrip_cons c s)
  unfolding rstrip_cons
  All-rstrip_cons c [] p h = elim (Bool-cases (is_space c)) [
    | inl blank ↦ rw blank tt
    | inr mark ↦ rw mark (p, tt)
  ]
  All-rstrip_cons c (d ∷ s) p h = (p, h)

  All-rstrip : (s : Text) → All P s → All P (rstrip s)
  unfolding rstrip
  All-rstrip [] h = h
  All-rstrip (c ∷ s) (p, h) = All-rstrip_cons c _ p (All-rstrip s h)

  pub All-strip : (s : Text) → All P s → All P (strip s)
  unfolding strip
  All-strip s h = All-lstrip _ (All-rstrip s h)
