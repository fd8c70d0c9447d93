-- ===== src/Suanpan/Usage/Events.antt =====
-- The frames of an event stream, as suanpan/usage_extractor.py cuts them: each ends at the first of
-- the three separators.
use magic_ai_router.Prelude.{
  ℕ, zero, suc, Option, none, some, List, [], ◌∷◌, Text, codes, starts_with, if◌then◌else◌,
}

pub data Separator : Type 0 where
  lf crlf cr : Separator

-- The separator at the beginning of the bytes, and how many bytes it has after its first.
unfoldable pub separator_at : Text → Option (Separator × ℕ)
separator_at s =
    if starts_with s (codes "\n\n")
    then some (lf, 1)
    else if starts_with s (codes "\r\n\r\n")
    then some (crlf, 3)
    else if starts_with s (codes "\r\r")
    then some (cr, 1)
    else none

abbrev pub Cut : Type 0
Cut = List (Separator × Text) × Text

-- A byte before the first separator, if there is one.
abbrev pub put_before : ℕ → Cut → Cut
put_before c ([], rest) = ([], c ∷ rest)
put_before c ((sep, frame) ∷ events, rest) = ((sep, c ∷ frame) ∷ events, rest)

abbrev pub put_event : Separator → Cut → Cut
put_event sep (events, rest) = ((sep, []) ∷ events, rest)

-- The loop of `_consume_sse`, where `skip` bytes of a separator are still to be passed.
unfoldable pub cut_from : ℕ → Text → Cut
cut_from skip [] = ([], [])
cut_from (suc skip) (c ∷ s) = cut_from skip s
cut_from zero (c ∷ s) = elim (separator_at (c ∷ s)) [
  | none ↦ put_before c (cut_from 0 s)
  | some (sep, more) ↦ put_event sep (cut_from more s)
]

-- The frames, each with its separator, and the bytes behind the last of them.
unfoldable pub split_events : Text → Cut
split_events s = cut_from 0 s
