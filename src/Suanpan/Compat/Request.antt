-- ===== src/Suanpan/Compat/Request.antt =====
-- suanpan/compat.py, `anthropic_to_openai_request`: a request for a message becomes one for a chat
-- completion. `show` is `str` of a value that is no text, and `dumps` is `json.dumps`. `none`
-- stands for a call that raises. In `openai_max_tokens_field` no character beyond ASCII counts as
-- one of a word.
pub mod Calls
use magic_ai_router.Prelude.{
  ℕ, Bool, true, false, not, ◌&&◌, ◌||◌, Option, none, some, List, [], ◌∷◌, ◌++◌, Text, codes, leb,
  nat_beq, drop, take, map, starts_with, join_lines, text_key, ◌==◌, if◌then◌else◌,
}
use magic_ai_router.Json.{
  Json, bool, int, real, str, arr, obj, cons, Fields, end, get, items, truthy,
}
use magic_ai_router.Suanpan.Router.Marker.{extract_system_text}

pub data Part : Type 0 where
  text_part image_url : Json → Part

pub record ToolCall : Type 0 where
  pub id : Text
  pub name : Text
  pub arguments : Text

pub data ChatMessage : Type 0 where
  system_message : Text → ChatMessage
  user_text : Json → ChatMessage
  user_parts : List Part → ChatMessage
  tool_message : Text → Text → ChatMessage
  assistant_message : Option Text → List ToolCall → ChatMessage

abbrev pub is_type : Text → Fields → Bool
is_type kind block = elim (get (codes "type") block) [ some (str s) ↦ s == kind | _ ↦ false ]

abbrev pub or_default : Json → Option Json → Json
or_default default none = default
or_default default (some v) = v

abbrev texts_of : List Json → List Text
texts_of [] = []
texts_of (str s ∷ bs) = s ∷ texts_of bs
texts_of (obj b ∷ bs) =
    let rest = texts_of bs in
    if is_type (codes "text") b
    then elim (get (codes "text") b) [ some (str s) ↦ s ∷ rest | _ ↦ rest ]
    else rest
texts_of (_ ∷ bs) = texts_of bs

unfoldable pub block_text : List Json → Text
block_text blocks = join_lines (texts_of blocks)

abbrev result_text : Option Json → Text
result_text (some (str s)) = s
result_text (some (arr xs)) = block_text (items xs)
result_text _ = []

-- `value or []` as a loop goes through it
unfoldable pub messages_of : Option Json → Option (List Json)
messages_of none = some []
messages_of (some (arr xs)) = some (items xs)
messages_of (some (obj _)) = some []
messages_of (some (str _)) = some []
messages_of (some v) = if truthy v then none else some []

-- The fields of the blocks that are dictionaries
abbrev pub blocks_of : List Json → List Fields
blocks_of [] = []
blocks_of (obj b ∷ bs) = b ∷ blocks_of bs
blocks_of (_ ∷ bs) = blocks_of bs

abbrev pub some_parts : List Part → List ChatMessage
some_parts [] = []
some_parts (text_part v ∷ []) = user_text v ∷ []
some_parts parts = user_parts parts ∷ []

module _ (show dumps : Json → Text) where
  abbrev pub str_or : Text → Option Json → Text
  str_or default none = default
  str_or default (some (str s)) = s
  str_or default (some v) = show v

  abbrev image_source : Fields → Option Json
  image_source source =
      if is_type (codes "base64") source
      then some (
          str (
            codes "data:"
            ++ str_or (codes "image/png") (get (codes "media_type") source)
            ++ codes ";base64,"
            ++ str_or [] (get (codes "data") source)))
      else if is_type (codes "url") source
      then some (or_default (str []) (get (codes "url") source))
      else none

  abbrev image_part : Fields → Option Json
  image_part block = elim (get (codes "source") block) [
    | some (obj source) ↦ image_source source
    | _ ↦ none
  ]

  abbrev pub user_parts_of : List Fields → List Part
  user_parts_of [] = []
  user_parts_of (b ∷ bs) =
      let rest = user_parts_of bs in
      if is_type (codes "text") b
      then text_part (or_default (str []) (get (codes "text") b)) ∷ rest
      else if is_type (codes "image") b
      then (elim (image_part b) [ none ↦ rest | some url ↦ image_url url ∷ rest ])
      else rest

  abbrev pub tool_messages : List Fields → List ChatMessage
  tool_messages [] = []
  tool_messages (b ∷ bs) =
      let rest = tool_messages bs in
      if is_type (codes "tool_result") b
      then tool_message (str_or [] (get (codes "tool_use_id") b))
          (result_text (get (codes "content") b))
        ∷ rest
      else rest

  abbrev pub without_results : List Fields → List Fields
  without_results [] = []
  without_results (b ∷ bs) =
      let rest = without_results bs in if is_type (codes "tool_result") b then rest else b ∷ rest

  unfoldable pub user_message : Option Json → List ChatMessage
  user_message (some (str [])) = []
  user_message (some (str (c ∷ s))) = user_text (str (c ∷ s)) ∷ []
  user_message (some (arr xs)) =
      let blocks = blocks_of (items xs) in
      tool_messages blocks ++ some_parts (user_parts_of (without_results blocks))
  user_message _ = []

  abbrev pub input_of : Option Json → Json
  input_of none = obj end
  input_of (some v) = if truthy v then v else obj end

  abbrev pub call_of : Fields → ToolCall
  call_of b = record {
    id = str_or [] (get (codes "id") b);
    name = str_or [] (get (codes "name") b);
    arguments = dumps (input_of (get (codes "input") b));
  }

  abbrev text_in : Fields → Option Text
  text_in b =
      if is_type (codes "text") b
      then (elim (get (codes "text") b) [ some (str s) ↦ some s | _ ↦ none ])
      else none

  abbrev pub said : List Fields → List Text
  said [] = []
  said (b ∷ bs) = let rest = said bs in elim (text_in b) [ none ↦ rest | some s ↦ s ∷ rest ]

  abbrev pub calls : List Fields → List ToolCall
  calls [] = []
  calls (b ∷ bs) =
      let rest = calls bs in if is_type (codes "tool_use") b then call_of b ∷ rest else rest

  abbrev pub content_of : List ToolCall → List Text → Option Text
  content_of (_ ∷ _) [] = none
  content_of _ texts = some (join_lines texts)

  unfoldable pub assistant_of : Option Json → ChatMessage
  assistant_of (some (str s)) = assistant_message (some s) []
  assistant_of (some (arr xs)) =
      let blocks = blocks_of (items xs) in
      assistant_message (content_of (calls blocks) (said blocks)) (calls blocks)
  assistant_of _ = assistant_message (some []) []

  abbrev pub is_assistant : Fields → Bool
  is_assistant msg = elim (get (codes "role") msg) [
    | some (str s) ↦ s == codes "assistant"
    | _ ↦ false
  ]

  abbrev pub converted : Fields → List ChatMessage
  converted msg =
      if is_assistant msg
      then assistant_of (get (codes "content") msg) ∷ []
      else user_message (get (codes "content") msg)

  unfoldable pub convert_all : List Fields → List ChatMessage
  convert_all [] = []
  convert_all (msg ∷ msgs) = converted msg ++ convert_all msgs

  abbrev pub system_messages : Text → List ChatMessage
  system_messages [] = []
  system_messages (c ∷ s) = system_message (c ∷ s) ∷ []

  abbrev pub with_system : Text → Option (List Json) → Option (List ChatMessage)
  with_system system none = none
  with_system system (some msgs) = some (system_messages system ++ convert_all (blocks_of msgs))

  -- `out["messages"]`
  unfoldable pub chat_messages : Fields → Option (List ChatMessage)
  chat_messages body =
      with_system (extract_system_text body) (messages_of (get (codes "messages") body))
