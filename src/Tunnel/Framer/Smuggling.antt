-- ===== src/Tunnel/Framer/Smuggling.antt =====
-- What `parse_framing` of tunnel/http_framer.py accepts has one framing.
use magic_ai_router.Prelude.{
  ℕ, suc, ◌+◌, ◌≤◌, ◌≡◌, Bool, true, ◌&&◌, some, List, [], ◌∷◌, Text, codes, nat_beq, has_char,
  partition, strip, lower, arith, inl, inr, Bool-cases, Option-cases, if◌then◌else◌, text_key, ◌==◌,
  is_some,
}
use magic_ai_router.Tunnel.Framer.Integers.{parse_int}
use magic_ai_router.Tunnel.Framer.{
  Framing, Parsing, parse_field, parse_line, parse_lines, unframed, parse_framing,
}

-- The line is a Content-Length header.
abbrev pub is_length : Text → Bool
is_length raw =
    has_char b':' raw && (lower (strip (partition b':' raw).0) == codes "content-length")

abbrev pub count_lengths : List Text → ℕ
count_lengths [] = 0
count_lengths (raw ∷ lines) =
    if is_length raw then suc (count_lengths lines) else count_lengths lines

abbrev pub seen : Parsing → ℕ
seen p = if p.saw_cl then 1 else 0

-- A length is kept exactly where one was seen.
abbrev Kept : Parsing → Type 0
Kept p = is_some p.framing.content_length ≡ p.saw_cl

abbrev Counts : Bool → Parsing → Parsing → Type 0
Counts b p q = (seen q ≡ (if b then suc (seen p) else seen p)) × (Kept p → Kept q)

parse_field-Counts :
    (n v : Text) (p q : Parsing)
    → parse_field n v p ≡ some q
    → Counts (n == codes "content-length") p q
unfolding parse_field
parse_field-Counts n v p q h = elim (Bool-cases (n == codes "content-length")) [
  | inl named ↦ elim (Option-cases (parse_int 10 v)) [
    | inl bad ↦ ground arith
    | inr (m, good) ↦ ground arith
  ]
  | inr other ↦ ground arith
]

parse_line-Counts :
    (raw : Text) (p q : Parsing) → parse_line raw p ≡ some q → Counts (is_length raw) p q
unfolding parse_line
parse_line-Counts raw p q h = elim (Bool-cases (has_char b':' raw)) [
  | inr none_ ↦ ground arith
  | inl colon ↦ ground (
    arith,
    parse_field-Counts (lower (strip (partition b':' raw).0)) (strip (partition b':' raw).1) p q,
  )
]

parse_lines-Counts :
    (lines : List Text) (p q : Parsing)
    → parse_lines lines p ≡ some q
    → (seen q ≡ seen p + count_lengths lines) × (Kept p → Kept q)
unfolding parse_lines
parse_lines-Counts [] p q h = ground arith
parse_lines-Counts (raw ∷ lines) p q h = elim (Option-cases (parse_line raw p)) [
  | inl bad ↦ ground arith
  | inr (r, good) ↦ ground (arith, parse_line-Counts raw p r, parse_lines-Counts lines r q)
]

-- Header lines that are accepted have at most one Content-Length; the framing has a length exactly
-- if they have one, and then it is not chunked.
pub parse_framing_lem :
    (lines : List Text) (f : Framing)
    → parse_framing lines ≡ some f
    → (count_lengths lines ≤ 1)
      × (is_some f.content_length ≡ nat_beq (count_lengths lines) 1)
      × (f.chunked ≡ true → count_lengths lines ≡ 0)
unfolding parse_framing
parse_framing_lem lines f h = elim (Option-cases (parse_lines lines unframed)) [
  | inl bad ↦ ground arith
  | inr (p, good) ↦ ground (arith, parse_lines-Counts lines unframed p)
]
