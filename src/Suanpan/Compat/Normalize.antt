-- ===== src/Suanpan/Compat/Normalize.antt =====
-- suanpan/compat.py, `normalize_body`: the fields of a request that other providers do not take are
-- removed, in place.
pub mod Clean
pub mod Whole
use magic_ai_router.Prelude.{
  ℕ, ◌+◌, Bool, true, false, not, ◌&&◌, ◌||◌, Option, none, some, Text, codes, nat_beq, text_key,
  ◌==◌, [], if◌then◌else◌,
}
use magic_ai_router.Json.{Json, str, arr, obj, Items, nil, cons, Fields, end, field, get}
use magic_ai_router.Suanpan.Router.Marker.{extract_system_text}

-- The value of a key, where there is one, replaced by what is made of it.
abbrev pub update : Text → (Json → Json) → Fields → Fields
update key f end = end
update key f (field k v fs) = if k == key then field k (f v) fs else field k v (update key f fs)

-- `d.pop(key, None)`
abbrev pub pop : Text → Fields → Fields
pop key end = end
pop key (field k v fs) = let rest = pop key fs in if k == key then rest else field k v rest

abbrev pub map_items : (Json → Json) → Items → Items
map_items f nil = nil
map_items f (cons v vs) = cons (f v) (map_items f vs)

abbrev pub flatten : Text → Json → Json
flatten text (arr _) = str text
flatten text v = v

unfoldable pub flatten_system : Fields → Fields
flatten_system body = update (codes "system") (flatten (extract_system_text body)) body

abbrev pub is_text : Option Json → Text → Bool
is_text (some (str s)) text = s == text
is_text _ text = false

unfoldable pub is_document : Json → Bool
is_document (obj fs) = is_text (get (codes "type") fs) (codes "document")
is_document _ = false

abbrev pub without_documents : Items → Items
without_documents nil = nil
without_documents (cons b bs) =
    let rest = without_documents bs in if is_document b then rest else cons b rest

abbrev pub size : Items → ℕ
size nil = 0
size (cons _ bs) = size bs + 1

abbrev pub placeholder : Json
placeholder = obj (field (codes "type") (str (codes "text")) (field (codes "text") (str []) end))

abbrev pub or_placeholder : Items → Items
or_placeholder nil = cons placeholder nil
or_placeholder (cons b bs) = cons b bs

abbrev pub strip_content : Json → Json
strip_content (arr content) =
    let filtered = without_documents content in
    if nat_beq (size filtered) (size content) then arr content else arr (or_placeholder filtered)
strip_content v = v

abbrev pub strip_message : Json → Json
strip_message (obj msg) = obj (update (codes "content") strip_content msg)
strip_message v = v

abbrev pub strip_messages : Json → Json
strip_messages (arr messages) = arr (map_items strip_message messages)
strip_messages v = v

unfoldable pub strip_document_blocks : Fields → Fields
strip_document_blocks body = update (codes "messages") strip_messages body

abbrev pub strip_tool : Json → Json
strip_tool (obj tool) = obj (pop (codes "eager_input_streaming") (pop (codes "defer_loading") tool))
strip_tool v = v

abbrev pub strip_tools : Json → Json
strip_tools (arr tools) = arr (map_items strip_tool tools)
strip_tools v = v

unfoldable pub strip_beta_tool_fields : Fields → Fields
strip_beta_tool_fields body = update (codes "tools") strip_tools body

unfoldable pub normalize_body : Bool → Fields → Fields
normalize_body anthropic_native body =
    if anthropic_native
    then body
    else strip_beta_tool_fields (strip_document_blocks (flatten_system body))
