-- ===== src/Suanpan/Router/Marker.antt =====
-- suanpan/router.py: the system prompt, and the `<SUBAGENT-MODEL>` marker in it.
use mathlib.Core.Option
use magic_ai_router.Prelude.{
  ℕ, zero, suc, ◌+◌, ◌-◌, Option, none, some, List, [], ◌∷◌, Text, codes, starts_with, join_lines,
  length, drop, ◌==◌, text_key, if◌then◌else◌,
}
use magic_ai_router.Json.{Json, Fields, Items, str, arr, obj, nil, cons, end, field, get, items}

abbrev pub open_tag : Text
open_tag = codes "<SUBAGENT-MODEL>"

abbrev pub close_tag : Text
close_tag = codes "</SUBAGENT-MODEL>"

-- `item.get("text")`, where it is a string
abbrev text_of : Fields → Option Text
text_of fs = elim (get (codes "text") fs) [ some (str t) ↦ some t | _ ↦ none ]

-- The text of a block `{"type": "text", "text": …}`.
abbrev text_block : Json → Option Text
text_block (obj fs) = elim (get (codes "type") fs) [
  | some (str kind) ↦ if kind == codes "text" then text_of fs else none
  | _ ↦ none
]
text_block _ = none

abbrev text_blocks : List Json → List Text
text_blocks [] = []
text_blocks (item ∷ rest) =
    let parts = text_blocks rest in elim (text_block item) [ none ↦ parts | some t ↦ t ∷ parts ]

abbrev system_text : Option Json → Text
system_text (some (str s)) = s
system_text (some (arr xs)) = join_lines (text_blocks (items xs))
system_text _ = []

unfoldable pub extract_system_text : Fields → Text
extract_system_text body = system_text (get (codes "system") body)

-- The part of a text before its first closing tag, which `(.*?)</SUBAGENT-MODEL>` matches.
unfoldable pub until_close : Text → Option Text
until_close [] = none
until_close (c ∷ s) =
    let rest = until_close s in
    if starts_with (c ∷ s) close_tag then some [] else Option.map (λ g. c ∷ g) rest

-- `SUBAGENT_RE` matched at the beginning of a text: its group.
unfoldable pub match_marker : Text → Option Text
match_marker s = if starts_with s open_tag then until_close (drop (length open_tag) s) else none

-- `SUBAGENT_RE.search(text).group(1)`
unfoldable pub search_marker : Text → Option Text
search_marker [] = none
search_marker (c ∷ s) = elim (match_marker (c ∷ s)) [ some g ↦ some g | none ↦ search_marker s ]

-- `SUBAGENT_RE.sub("", text)`; `skip` characters of the match that began last are still to be
-- dropped
sub_from : ℕ → Text → Text
sub_from skip [] = []
sub_from (suc skip) (c ∷ s) = sub_from skip s
sub_from zero (c ∷ s) = elim (match_marker (c ∷ s)) [
  | some g ↦ sub_from (length open_tag + length g + length close_tag - 1) s
  | none ↦ c ∷ sub_from zero s
]

unfoldable pub sub_marker : Text → Text
unfolding sub_from
sub_marker s = sub_from 0 s

-- `item["text"] = SUBAGENT_RE.sub("", item["text"])`, where it is a string
strip_text : Fields → Fields
strip_text end = end
strip_text (field k (str s) fs) =
    if k == codes "text" then field k (str (sub_marker s)) fs else field k (str s) (strip_text fs)
strip_text (field k v fs) = if k == codes "text" then field k v fs else field k v (strip_text fs)

strip_items : Items → Items
unfolding strip_text
strip_items nil = nil
strip_items (cons (obj fs) xs) = cons (obj (strip_text fs)) (strip_items xs)
strip_items (cons v xs) = cons v (strip_items xs)

strip_system : Json → Json
unfolding strip_items
strip_system (str s) = str (sub_marker s)
strip_system (arr xs) = arr (strip_items xs)
strip_system v = v

-- `strip_marker`, in place
unfoldable pub strip_marker : Fields → Fields
unfolding strip_system
strip_marker end = end
strip_marker (field k v fs) =
    if k == codes "system" then field k (strip_system v) fs else field k v (strip_marker fs)
