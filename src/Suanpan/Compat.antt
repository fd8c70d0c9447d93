-- ===== src/Suanpan/Compat.antt =====
-- suanpan/compat.py, `OpenAIChatToAnthropicSSE`: the event stream of a chat completion, translated
-- into that of a message. Bytes are numbers below 256; `loads` is `json.loads` of bytes, `none`
-- where it raises `ValueError`, and `show` is `str` of a value that is no text. What is given out
-- are the events, before `_sse_event` writes them. `none` stands for a call that raises.
pub mod Lines
pub mod Translate
pub mod Protocol
pub mod Steps
pub mod Returns
pub mod Valid
pub mod Normalize
pub mod Request
pub mod Options
pub mod Ordered
use magic_ai_router.Prelude.{
  ℕ, ◌+◌, ◌-◌, Bool, true, false, ◌&&◌, ◌||◌, Option, none, some, List, [], ◌∷◌, ◌++◌, Text, codes,
  Dict, lookup, insert, nat_beq, leb, drop, starts_with, text_key, ◌==◌, if◌then◌else◌,
}
use magic_ai_router.Json.{
  ℤ, pos, Json, null, bool, int, real, str, arr, obj, Items, nil, cons, Fields, end, field, get,
  items, truthy,
}
use magic_ai_router.Mpconf.Validate.Ports.{int_key}
use magic_ai_router.Suanpan.Usage.{or_empty}

pub data Kind : Type 0 where
  text tool_use : Kind

-- A text block, or the id and the name of a tool's call
pub data Block : Type 0 where
  text_block : Block
  tool_block : Text → Text → Block

pub record Usage : Type 0 where
  pub input_tokens : Json
  pub output_tokens : Json
  pub cache_read_input_tokens : Json

pub data StreamEvent : Type 0 where
  message_start : StreamEvent
  content_block_start : ℕ → Block → StreamEvent
  text_delta input_json_delta : ℕ → Text → StreamEvent
  content_block_stop : ℕ → StreamEvent
  message_delta : Text → Usage → StreamEvent
  message_stop : StreamEvent
  error : Text → Text → StreamEvent

-- `blocks` is one more than `_block_index`.
pub record Translator : Type 0 where
  pub buffer : Text
  pub started : Bool
  pub blocks : ℕ
  pub block_type : Option Kind
  pub tool_block_for : Dict ℤ ℕ
  pub finish_reason : Option Json
  pub usage : Option Fields
  pub done : Bool

abbrev pub new_translator : Translator
new_translator = record {
  buffer = [];
  started = false;
  blocks = 0;
  block_type = none;
  tool_block_for = [];
  finish_reason = none;
  usage = none;
  done = false;
}

abbrev pub Out : Type 0
Out = List StreamEvent × Translator

abbrev pub after : Out → (Translator → Out) → Out
after (es, t) f = let (fs, u) = f t in (es ++ fs, u)

abbrev or_zero : Option Json → Json
or_zero none = int (pos 0)
or_zero (some v) = if truthy v then v else int (pos 0)

abbrev cached_tokens : Option Json → Json
cached_tokens (some (obj details)) = or_zero (get (codes "cached_tokens") details)
cached_tokens _ = int (pos 0)

abbrev usage_or_empty : Option Fields → Fields
usage_or_empty none = end
usage_or_empty (some fs) = fs

unfoldable pub usage_from_openai : Option Fields → Usage
usage_from_openai usage =
    let fs = usage_or_empty usage in
    record {
      input_tokens = or_zero (get (codes "prompt_tokens") fs);
      output_tokens = or_zero (get (codes "completion_tokens") fs);
      cache_read_input_tokens = cached_tokens (get (codes "prompt_tokens_details") fs);
    }

abbrev finish_to_stop : Dict Text Text
finish_to_stop =
    (codes "stop", codes "end_turn")
    ∷ (codes "length", codes "max_tokens")
    ∷ (codes "tool_calls", codes "tool_use")
    ∷ (codes "function_call", codes "tool_use")
    ∷ (codes "content_filter", codes "refusal")
    ∷ []

abbrev or_end_turn : Option Text → Text
or_end_turn none = codes "end_turn"
or_end_turn (some stop) = stop

-- A list or a dictionary is no key: the lookup raises.
unfoldable pub stop_reason : Option Json → Option Text
stop_reason (some (str reason)) = some (or_end_turn (lookup reason finish_to_stop))
stop_reason (some (arr _)) = none
stop_reason (some (obj _)) = none
stop_reason _ = some (codes "end_turn")

abbrev pub start_message : Translator → Out
start_message t = if t.started then ([], t) else (message_start ∷ [], record t { started = true })

abbrev pub stop_block : Option Kind → Translator → Out
stop_block none t = ([], t)
stop_block (some _) t = (content_block_stop (t.blocks - 1) ∷ [], record t { block_type = none })

unfoldable pub close_block : Translator → Out
close_block t = stop_block t.block_type t

abbrev pub closing : Option Text → Out → Option Out
closing none o = none
closing (some stop) (es, t) =
    some (es ++ message_delta stop (usage_from_openai t.usage) ∷ message_stop ∷ [], t)

unfoldable pub close : Translator → Option Out
close t =
    closing (stop_reason t.finish_reason)
      (after (start_message (record t { done = true })) close_block)

abbrev pub is_text : Option Kind → Bool
is_text (some text) = true
is_text _ = false

abbrev pub open_text : Translator → Out
open_text t = (
  content_block_start t.blocks text_block ∷ [],
  record t { blocks = t.blocks + 1; block_type = some text },
)

abbrev pub ensure_text : Translator → Out
ensure_text t = if is_text t.block_type then ([], t) else after (close_block t) open_text

abbrev pub send_text : Text → Translator → Out
send_text s t = (text_delta (t.blocks - 1) s ∷ [], t)

unfoldable pub on_text : Option Json → Translator → Out
on_text (some (str (c ∷ s))) t = after (ensure_text t) (send_text (c ∷ s))
on_text _ t = ([], t)

abbrev pub tool_index : Option Json → ℤ
tool_index (some (int n)) = n
tool_index _ = pos 0

abbrev pub open_tool : ℤ → Text → Text → Translator → Out
open_tool idx id name t = (
  content_block_start t.blocks (tool_block id name) ∷ [],
  record t {
    blocks = t.blocks + 1;
    block_type = some tool_use;
    tool_block_for = insert idx t.blocks t.tool_block_for;
  },
)

abbrev pub ensure_tool : ℤ → Text → Text → Option ℕ → Translator → Out
ensure_tool idx id name (some _) t = ([], t)
ensure_tool idx id name none t = after (close_block t) (open_tool idx id name)

abbrev pub send_found : Text → Option ℕ → Translator → Out
send_found s none t = ([], t)
send_found s (some i) t = (input_json_delta i s ∷ [], t)

abbrev pub send_arguments : ℤ → Option Json → Translator → Out
send_arguments idx (some (str (c ∷ s))) t = send_found (c ∷ s) (lookup idx t.tool_block_for) t
send_arguments idx _ t = ([], t)

-- `delta.get("tool_calls") or []`, as a loop goes through it: the keys of a dictionary and the
-- characters of a text are no dictionaries.
unfoldable pub tool_calls : Option Json → Option (List Json)
tool_calls none = some []
tool_calls (some (arr xs)) = some (items xs)
tool_calls (some (obj _)) = some []
tool_calls (some (str _)) = some []
tool_calls (some v) = if truthy v then none else some []

abbrev pub joined : Out → Option Out → Option Out
joined o none = none
joined (es, t) (some (fs, u)) = some (es ++ fs, u)
