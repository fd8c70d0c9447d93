-- ===== src/Suanpan/Compat/Lines.antt =====
-- suanpan/compat.py: the lines of the stream that `OpenAIChatToAnthropicSSE.feed` reads.
use magic_ai_router.Prelude.{
  ℕ, Bool, ◌&&◌, ◌||◌, Option, none, some, List, [], ◌∷◌, ◌++◌, Text, codes, nat_beq, leb, drop,
  starts_with, text_key, ◌==◌, if◌then◌else◌,
}

-- What `bytes.strip` takes for a blank
abbrev pub is_blank : ℕ → Bool
is_blank c = (leb 9 c && leb c 13) || nat_beq c b' '

abbrev pub drop_start : (ℕ → Bool) → Text → Text
drop_start p [] = []
drop_start p (c ∷ s) = let rest = drop_start p s in if p c then rest else c ∷ s

abbrev pub end_with : (ℕ → Bool) → ℕ → Text → Text
end_with p c [] = if p c then [] else c ∷ []
end_with p c (d ∷ s) = c ∷ d ∷ s

abbrev pub drop_end : (ℕ → Bool) → Text → Text
drop_end p [] = []
drop_end p (c ∷ s) = end_with p c (drop_end p s)

abbrev pub is_cr : ℕ → Bool
is_cr c = nat_beq c b'\r'

-- What stands behind `data:` and one blank
abbrev pub data_of : Text → Option Text
data_of line =
    if starts_with line (codes "data:")
    then some (let rest = drop 5 line in if starts_with rest (codes " ") then drop 1 rest else rest)
    else none

abbrev pub is_done : Text → Bool
is_done payload = drop_start is_blank (drop_end is_blank payload) == codes "[DONE]"

abbrev pub Lines : Type 0
Lines = List Text × Text

abbrev pub before_lines : ℕ → Lines → Lines
before_lines c ([], rest) = ([], c ∷ rest)
before_lines c (line ∷ lines, rest) = ((c ∷ line) ∷ lines, rest)

abbrev pub end_line : Lines → Lines
end_line (lines, rest) = ([] ∷ lines, rest)

-- The complete lines of some bytes, and what stands behind the last of them.
unfoldable pub cut_lines : Text → Lines
cut_lines [] = ([], [])
cut_lines (c ∷ s) =
    let cut = cut_lines s in if nat_beq c b'\n' then end_line cut else before_lines c cut

abbrev pub unread : List Text → Text → Text
unread [] rest = rest
unread (line ∷ lines) rest = line ++ 10 ∷ unread lines rest
