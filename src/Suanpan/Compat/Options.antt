-- ===== src/Suanpan/Compat/Options.antt =====
-- suanpan/compat.py, `anthropic_to_openai_request`: the keys beside the messages, with
-- `openai_max_tokens_field` of shared/provider_auth.py. `show` is `str` of a value that is no text;
-- no character beyond ASCII counts as one of a word. `none` for a key that is not set.
use magic_ai_router.Prelude.{
  ℕ, Bool, true, false, not, ◌&&◌, ◌||◌, Option, none, some, List, [], ◌∷◌, Text, codes, leb,
  nat_beq, take, map, starts_with, text_key, if◌then◌else◌,
}
use magic_ai_router.Json.{Json, bool, int, real, str, arr, obj, Fields, get, items, truthy}
use magic_ai_router.Suanpan.Compat.Request.{
  ChatMessage, chat_messages, blocks_of, is_type, str_or, input_of, or_default,
}

pub record Tool : Type 0 where
  pub name : Text
  pub parameters : Json
  pub description : Option Text

pub data ToolChoice : Type 0 where
  auto required : ToolChoice
  function : Text → ToolChoice

pub record ChatRequest : Type 0 where
  pub model : Json
  pub messages : List ChatMessage
  pub max_tokens : Option (Text × Json)
  pub stop : Option (List Text)
  pub temperature : Option Json
  pub top_p : Option Json
  pub stream : Bool
  pub tools : Option (List Tool)
  pub tool_choice : Option ToolChoice

abbrev is_word : ℕ → Bool
is_word c =
    (leb b'0' c && leb c b'9')
    || (leb b'A' c && leb c b'Z')
    || (leb b'a' c && leb c b'z')
    || nat_beq c b'_'

abbrev ends_word : Text → Bool
ends_word [] = true
ends_word (c ∷ s) = not (is_word c)

abbrev is_reasoning : Text → Bool
is_reasoning (c ∷ d ∷ s) =
    nat_beq c b'o' && (nat_beq d b'1' || nat_beq d b'3' || nat_beq d b'4') && ends_word s
is_reasoning _ = false

unfoldable pub openai_max_tokens_field : Text → Text
openai_max_tokens_field model =
    if starts_with model (codes "gpt-5") || is_reasoning model
    then codes "max_completion_tokens"
    else codes "max_tokens"

-- `isinstance(value, int)`, which holds of a Boolean too
abbrev as_int : Option Json → Option Json
as_int (some (int n)) = some (int n)
as_int (some (bool b)) = some (bool b)
as_int _ = none

abbrev as_number : Option Json → Option Json
as_number (some (real m e)) = some (real m e)
as_number v = as_int v

abbrev is_true : Option Json → Bool
is_true none = false
is_true (some v) = truthy v

abbrev as_text : Option Json → Option Text
as_text (some (str s)) = some s
as_text _ = none

abbrev any_tools : List Tool → Option (List Tool)
any_tools [] = none
any_tools (t ∷ ts) = some (t ∷ ts)

module _ (show dumps : Json → Text) where
  abbrev max_tokens_of : Json → Option Json → Option (Text × Json)
  max_tokens_of model none = none
  max_tokens_of model (some v) =
      some (openai_max_tokens_field (str_or show dumps [] (some model)), v)

  abbrev strings : List Json → List Text
  strings [] = []
  strings (v ∷ vs) = str_or show dumps [] (some v) ∷ strings vs

  abbrev stop_of : Option Json → Option (List Text)
  stop_of (some (arr xs)) = elim (items xs) [
    | [] ↦ none
    | v ∷ vs ↦ some (strings (take 4 (v ∷ vs)))
  ]
  stop_of _ = none

  abbrev tool_of : Fields → Tool
  tool_of t = record {
    name = str_or show dumps [] (get (codes "name") t);
    parameters = input_of show dumps (get (codes "input_schema") t);
    description = as_text (get (codes "description") t);
  }

  abbrev tools_of : Option Json → Option (List Tool)
  tools_of (some (arr xs)) = any_tools (map tool_of (blocks_of (items xs)))
  tools_of _ = none

  abbrev tool_choice_of : Option Json → Option ToolChoice
  tool_choice_of (some (obj tc)) =
      if is_type (codes "auto") tc
      then some auto
      else if is_type (codes "any") tc
      then some required
      else if is_type (codes "tool") tc
      then some (function (str_or show dumps [] (get (codes "name") tc)))
      else none
  tool_choice_of _ = none

  abbrev pub with_messages : Fields → Option (List ChatMessage) → Option ChatRequest
  with_messages body none = none
  with_messages body (some messages) =
      let model = or_default (str []) (get (codes "model") body) in
      some record {
        model = model;
        messages = messages;
        max_tokens = max_tokens_of model (as_int (get (codes "max_tokens") body));
        stop = stop_of (get (codes "stop_sequences") body);
        temperature = as_number (get (codes "temperature") body);
        top_p = as_number (get (codes "top_p") body);
        stream = is_true (get (codes "stream") body);
        tools = tools_of (get (codes "tools") body);
        tool_choice = tool_choice_of (get (codes "tool_choice") body);
      }

  unfoldable pub anthropic_to_openai_request : Fields → Option ChatRequest
  anthropic_to_openai_request body = with_messages body (chat_messages show dumps body)
