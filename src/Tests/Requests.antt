-- ===== src/Tests/Requests.antt =====
-- Runs of the conversions of requests in suanpan/compat.py.
use magic_ai_router.Prelude.{
  ◌≡◌, refl, true, false, Option, none, some, List, [], ◌∷◌, Text, codes, starts_with, text_key,
}
use magic_ai_router.Json.{
  int, pos, items, Json, bool, str, arr, obj, Items, cons, nil, Fields, end, field, get,
}
use magic_ai_router.Suanpan.Router.Marker.{extract_system_text}
use magic_ai_router.Suanpan.Compat.Normalize.{
  flatten_system, is_document, placeholder, strip_document_blocks, strip_beta_tool_fields,
  normalize_body,
}
use magic_ai_router.Suanpan.Compat.Normalize.Clean.{is_clean}
use magic_ai_router.Suanpan.Compat.Normalize.Whole.{normalize_body_lem}
use magic_ai_router.Suanpan.Compat.Request.{
  ChatMessage, system_message, user_text, tool_message, assistant_message, blocks_of, block_text,
  messages_of, user_message, assistant_of, convert_all, chat_messages,
}
use magic_ai_router.Suanpan.Compat.Request.Calls.{marks, given}
use magic_ai_router.Suanpan.Compat.Options.{
  ChatRequest, openai_max_tokens_field, anthropic_to_openai_request,
}
use magic_ai_router.Suanpan.Compat.Ordered.{request-marks}

requests : Unit {0}
unfolding extract_system_text flatten_system is_document strip_document_blocks
    strip_beta_tool_fields normalize_body starts_with block_text messages_of user_message
    assistant_of convert_all chat_messages openai_max_tokens_field anthropic_to_openai_request
requests = tt

abbrev one : Text → Json → Fields
one key v = field key v end

abbrev system : Json → Fields → Fields
system v rest = field (codes "system") v rest

abbrev block : Text → Json
block kind = obj (one (codes "type") (str kind))

abbrev messages : Items → Fields
messages content =
    one (codes "messages") (arr (cons (obj (one (codes "content") (arr content))) nil))

abbrev text_item : Json
text_item = obj (field (codes "type") (str (codes "text")) (one (codes "text") (str (codes "a"))))

abbrev tool : Json
tool = obj (field (codes "name") (str (codes "f")) (one (codes "defer_loading") (bool true)))

normalize_body_tests :
    (normalize_body false (system (arr (cons text_item nil)) end) ≡ system (str (codes "a")) end)
    × (normalize_body true (system (arr (cons text_item nil)) end)
        ≡ system (arr (cons text_item nil)) end)
    × (normalize_body false (messages (cons (block (codes "document")) (cons text_item nil)))
        ≡ messages (cons text_item nil))
    × (normalize_body false (messages (cons (block (codes "document")) nil))
        ≡ messages (cons placeholder nil))
    × (normalize_body false (messages nil) ≡ messages nil)
    × (normalize_body false (one (codes "tools") (arr (cons tool nil)))
        ≡ one (codes "tools") (arr (cons (obj (one (codes "name") (str (codes "f")))) nil)))
unfolding requests
normalize_body_tests = (refl, refl, refl, refl, refl, refl)

abbrev request : Fields
request = system (arr (cons text_item nil)) (messages (cons (block (codes "document")) nil))

normalize_body_lem_example :
    (is_clean (normalize_body false request) ≡ true)
    × (normalize_body false (normalize_body false request) ≡ normalize_body false request)
    × (get (codes "model") (normalize_body false request) ≡ get (codes "model") request)
normalize_body_lem_example = normalize_body_lem request (codes "model") refl refl refl

abbrev show : Json → Text
show v = codes "?"

abbrev message : Text → Items → Json
message role content = obj (field (codes "role") (str role) (one (codes "content") (arr content)))

abbrev use_block : Json
use_block = obj (
    field (codes "type") (str (codes "tool_use"))
      (field (codes "id") (str (codes "t1")) (one (codes "name") (str (codes "f")))))

abbrev result_block : Json
result_block = obj (
    field (codes "type") (str (codes "tool_result"))
      (field (codes "tool_use_id") (str (codes "t1")) (one (codes "content") (str (codes "ok")))))

abbrev turns : Items
turns =
    cons (message (codes "assistant") (cons text_item (cons use_block nil)))
      (cons (message (codes "user") (cons text_item (cons result_block nil))) nil)

abbrev talk : Fields
talk = field (codes "model") (str (codes "o3-mini")) (
    system (str (codes "s"))
      (field (codes "max_tokens") (int (pos 9)) (one (codes "messages") (arr turns))))

abbrev messages_made : Option ChatRequest → List ChatMessage
messages_made none = []
messages_made (some r) = r.messages

request_tests :
    (messages_made (anthropic_to_openai_request show show talk)
      ≡ system_message (codes "s")
        ∷ assistant_message
            (some (codes "a"))
            (record { id = codes "t1"; name = codes "f"; arguments = codes "?" } ∷ [])
        ∷ tool_message (codes "t1") (codes "ok")
        ∷ user_text (str (codes "a"))
        ∷ [])
    × (openai_max_tokens_field (codes "o3-mini") ≡ codes "max_completion_tokens")
    × (openai_max_tokens_field (codes "o3") ≡ codes "max_completion_tokens")
    × (openai_max_tokens_field (codes "o30") ≡ codes "max_tokens")
    × (openai_max_tokens_field (codes "gpt-5.1") ≡ codes "max_completion_tokens")
unfolding requests
request_tests = (refl, refl, refl, refl, refl)

request-marks_example :
    (out : ChatRequest) × (anthropic_to_openai_request show show talk ≡ some out)
    × (marks out.messages ≡ given show show (blocks_of (items turns)))
unfolding requests
request-marks_example = request-marks show show talk (items turns) refl
