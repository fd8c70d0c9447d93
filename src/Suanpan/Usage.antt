-- ===== src/Suanpan/Usage.antt =====
-- suanpan/usage_extractor.py, `UsageExtractor`: the token counts of a response, read from its bytes
-- as they pass. Bytes are numbers below 256; `loads` is `json.loads` of bytes, `none` where it
-- raises `ValueError`. A call of `.get` on a value that is no dictionary raises: `none`.
pub mod Events
pub mod Segments
pub mod Feed
pub mod Counts
use magic_ai_router.Prelude.{
  ℕ, ◌<◌, max, Bool, true, false, ◌||◌, ◌&&◌, nat_beq, Option, none, some, List, [], ◌∷◌, ◌++◌,
  Text, codes, ltb, length, drop, starts_with, text_key, ◌==◌, if◌then◌else◌,
}
use magic_ai_router.Json.{Json, bool, int, obj, str, Fields, end, pos, negsuc, get, truthy, as_obj}
use magic_ai_router.Suanpan.Usage.Events.{Separator, lf, crlf, cr, split_events}

pub data Wire : Type 0 where
  anthropic openai_chat responses : Wire

pub record Tally : Type 0 where
  pub input_tokens : ℕ
  pub output_tokens : ℕ
  pub cache_read_tokens : ℕ
  pub cache_creation_tokens : ℕ

pub record UsageExtractor : Type 0 where
  pub tally : Tally
  pub truncated : Bool
  pub json_mode : Bool
  pub wire : Wire
  pub buffer : Text

abbrev pub max_event_bytes : ℕ
max_event_bytes = 4194304

abbrev pub max_json_doc_bytes : ℕ
max_json_doc_bytes = 8388608

unfoldable pub init : Bool → Wire → UsageExtractor
init json_mode wire = record {
  tally = record {
    input_tokens = 0;
    output_tokens = 0;
    cache_read_tokens = 0;
    cache_creation_tokens = 0;
  };
  truncated = false;
  json_mode = json_mode;
  wire = wire;
  buffer = [];
}

-- `max(count, value)` where `isinstance(value, int)`, which holds of a Boolean too
unfoldable pub raise_to : Option Json → ℕ → ℕ
raise_to (some (int (pos n))) count = max count n
raise_to (some (int (negsuc n))) count = count
raise_to (some (bool true)) count = max count 1
raise_to _ count = count

unfoldable pub merge : Fields → Tally → Tally
merge usage t = record {
  input_tokens = raise_to (get (codes "input_tokens") usage) t.input_tokens;
  output_tokens = raise_to (get (codes "output_tokens") usage) t.output_tokens;
  cache_read_tokens = raise_to (get (codes "cache_read_input_tokens") usage) t.cache_read_tokens;
  cache_creation_tokens =
      raise_to (get (codes "cache_creation_input_tokens") usage) t.cache_creation_tokens;
}

-- The `cached_tokens` of a details object, where there is one.
abbrev merge_cached : Option Json → Tally → Tally
merge_cached (some (obj details)) t = record t {
  cache_read_tokens = raise_to (get (codes "cached_tokens") details) t.cache_read_tokens;
}
merge_cached _ t = t

unfoldable pub merge_responses : Fields → Tally → Tally
merge_responses usage t = merge_cached (get (codes "input_tokens_details") usage) (merge usage t)

unfoldable pub merge_openai : Fields → Tally → Tally
merge_openai usage t = merge_cached (get (codes "prompt_tokens_details") usage) (record t {
  input_tokens = raise_to (get (codes "prompt_tokens") usage) t.input_tokens;
  output_tokens = raise_to (get (codes "completion_tokens") usage) t.output_tokens;
})

unfoldable pub merge_wire : Wire → Fields → Tally → Tally
merge_wire openai_chat usage t = merge_openai usage t
merge_wire responses usage t = merge_responses usage t
merge_wire anthropic usage t = merge usage t

-- `(value or {})` with a method of a dictionary called on it
unfoldable pub or_empty : Option Json → Option Fields
or_empty none = some end
or_empty (some v) = if truthy v then as_obj v else some end

-- `isinstance(usage, dict)`, and the merge of it
abbrev merge_if : (Fields → Tally → Tally) → Option Json → Tally → Tally
merge_if m (some (obj usage)) t = m usage t
merge_if m _ t = t

abbrev merge_found : Option Fields → Tally → Option Tally
merge_found none t = none
merge_found (some usage) t = some (merge usage t)

abbrev response_usage : Option Json → Option Json
response_usage (some (obj resp)) = get (codes "usage") resp
response_usage _ = none

abbrev message_usage : Option Fields → Option Fields
message_usage none = none
message_usage (some message) = or_empty (get (codes "usage") message)

abbrev is_text : Option Json → Text → Bool
is_text (some (str s)) text = s == text
is_text _ text = false

-- The payload of one `data:` line, a dictionary.
unfoldable pub consume_data : Wire → Fields → Tally → Option Tally
consume_data openai_chat fs t = some (merge_if merge_openai (get (codes "usage") fs) t)
consume_data responses fs t =
    let kind = get (codes "type") fs in
    if is_text kind (codes "response.completed") || is_text kind (codes "response.incomplete")
    then some (merge_if merge_responses (response_usage (get (codes "response") fs)) t)
    else some t
consume_data anthropic fs t =
    let kind = get (codes "type") fs in
    if is_text kind (codes "message_start")
    then merge_found (message_usage (or_empty (get (codes "message") fs))) t
    else if is_text kind (codes "message_delta")
    then merge_found (or_empty (get (codes "usage") fs)) t
    else some t

-- `data:` and at most one blank after it; `none` for every other line
unfoldable pub payload : Text → Option Text
payload line =
    if starts_with line (codes "data:")
    then some (let rest = drop 5 line in if starts_with rest (codes " ") then drop 1 rest else rest)
    else none

abbrev first_line : Text → List Text → List Text
first_line c [] = c ∷ []
first_line c (line ∷ lines) = (c ++ line) ∷ lines

-- `event.split(b"\n")`
unfoldable pub split_lines : Text → List Text
split_lines [] = [] ∷ []
split_lines (c ∷ s) =
    let rest = split_lines s in if nat_beq c 10 then [] ∷ rest else first_line (c ∷ []) rest

-- `replace(b"\r\n", b"\n")` and `replace(b"\r\r", b"\n")`: each pair from the left
replace_pair : ℕ → ℕ → Text → Text
replace_pair a b [] = []
replace_pair a b (c ∷ []) = c ∷ []
replace_pair a b (c ∷ d ∷ s) =
    let rest = replace_pair a b s in
    let next = replace_pair a b (d ∷ s) in
    if nat_beq c a && nat_beq d b then 10 ∷ rest else c ∷ next

unfoldable pub normalized : Separator × Text → Text
unfolding replace_pair
normalized (lf, frame) = frame
normalized (crlf, frame) = replace_pair 13 10 frame
normalized (cr, frame) = replace_pair 13 13 frame

-- What `_consume_sse` does with the bytes behind the last separator.
abbrev pub keep_rest : UsageExtractor → Text → Option Tally → Option UsageExtractor
keep_rest e rest none = none
keep_rest e rest (some t) =
    if ltb max_event_bytes (length rest)
    then some (record e { tally = t; truncated = true; buffer = [] })
    else some (record e { tally = t; buffer = rest })

unfoldable pub parse_doc : UsageExtractor → Option Json → Option UsageExtractor
parse_doc e none = some e
parse_doc e (some (obj fs)) = elim (or_empty (get (codes "usage") fs)) [
  | none ↦ none
  | some usage ↦ some (record e { tally = merge_wire e.wire usage e.tally; buffer = [] })
]
parse_doc e (some _) = some (record e { buffer = [] })

module _ (loads : Text → Option Json) where
  consume_loaded : Wire → Option Json → Tally → Option Tally
  consume_loaded wire (some (obj fs)) t = consume_data wire fs t
  consume_loaded wire _ t = some t

  consume_line : Wire → Text → Tally → Option Tally
  unfolding consume_loaded
  consume_line wire line t = elim (payload line) [
    | none ↦ some t
    | some text ↦ consume_loaded wire (loads text) t
  ]

  consume_lines : Wire → List Text → Tally → Option Tally
  unfolding consume_line
  consume_lines wire [] t = some t
  consume_lines wire (line ∷ lines) t = elim (consume_line wire line t) [
    | none ↦ none
    | some t1 ↦ consume_lines wire lines t1
  ]

  unfoldable pub consume : Wire → Text → Tally → Option Tally
  unfolding consume_lines
  consume wire event t = consume_lines wire (split_lines event) t

  unfoldable pub consume_all : Wire → List (Separator × Text) → Tally → Option Tally
  consume_all wire [] t = some t
  consume_all wire (event ∷ events) t = elim (consume wire (normalized event) t) [
    | none ↦ none
    | some t1 ↦ consume_all wire events t1
  ]

  unfoldable pub consume_sse : UsageExtractor → Option UsageExtractor
  consume_sse e =
      let (events, rest) = split_events e.buffer in
      keep_rest e rest (consume_all e.wire events e.tally)

  unfoldable pub feed : Text → UsageExtractor → Option UsageExtractor
  unfolding parse_doc
  feed chunk e =
      let e1 = record e { buffer = e.buffer ++ chunk } in
      if e.truncated
      then some e
      else if e.json_mode
      then (if ltb max_json_doc_bytes (length e1.buffer)
          then some (record e { truncated = true; buffer = [] })
          else parse_doc e1 (loads e1.buffer))
      else consume_sse e1
