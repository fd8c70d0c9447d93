-- ===== src/Suanpan/Compat/Normalize/Whole.antt =====
-- suanpan/compat.py: `normalize_body` over a whole request.
use magic_ai_router.Prelude.{
  ◌≡◌, refl, ap, ◌∙◌, inl, inr, Bool, true, false, Option, none, some, Text, codes, text_key, ◌==◌,
  Bool-cases, arith,
}
use mathlib.Core.Option
use magic_ai_router.Json.{Json, arr, obj, null, Items, nil, cons, Fields, end, field, get}
use magic_ai_router.Suanpan.Router.Marker.{extract_system_text}
use magic_ai_router.Suanpan.Compat.Normalize.{
  update, pop, map_items, flatten, flatten_system, strip_content, strip_message, strip_messages,
  strip_document_blocks, strip_tool, strip_tools, strip_beta_tool_fields, normalize_body,
}
use magic_ai_router.Suanpan.Compat.Normalize.Clean.{
  update-update, update-other, get-update, get-update_other, strip_content-again,
  strip_content-clean, clean_content, clean_message, has_none, clean_tool, all_items, all_of,
  is_flat, is_clean,
}

get-pop : (k : Text) (fs : Fields) → get k (pop k fs) ≡ none
get-pop k end = refl
get-pop k (field j v fs) = ground (arith, get-pop k fs)

get-pop_other : (k j : Text) (fs : Fields) → (j == k) ≡ false → get k (pop j fs) ≡ get k fs
get-pop_other k j end h = refl
get-pop_other k j (field i v fs) h = ground (
  arith,
  text_key.same_key_iff i k,
  text_key.same_key_iff i j,
  text_key.same_key_iff j k,
  get-pop_other k j fs h,
)

pop-absent : (k : Text) (fs : Fields) → get k fs ≡ none → pop k fs ≡ fs
pop-absent k end h = refl
pop-absent k (field j v fs) h = elim (Bool-cases (j == k)) [
  | inl same ↦ let h2 = rw same at h in cc
  | inr other ↦ let h2 = rw other at h in rw other (ap (field j v) (pop-absent k fs h2))
]

no_defer :
    (tool : Fields)
    → get
        (codes "defer_loading")
        (pop (codes "eager_input_streaming") (pop (codes "defer_loading") tool))
      ≡ none
no_defer tool =
    get-pop_other (codes "defer_loading") (codes "eager_input_streaming")
      (pop (codes "defer_loading") tool) refl
    ∙ get-pop (codes "defer_loading") tool

no_eager :
    (tool : Fields)
    → get
        (codes "eager_input_streaming")
        (pop (codes "eager_input_streaming") (pop (codes "defer_loading") tool))
      ≡ none
no_eager tool = get-pop (codes "eager_input_streaming") (pop (codes "defer_loading") tool)

strip_tool-again : (v : Json) → strip_tool (strip_tool v) ≡ strip_tool v
strip_tool-again (obj tool) =
    let first = pop (codes "eager_input_streaming") (pop (codes "defer_loading") tool) in
    ap (λ fs. obj (pop (codes "eager_input_streaming") fs))
      (pop-absent (codes "defer_loading") first (no_defer tool))
    ∙ ap obj (pop-absent (codes "eager_input_streaming") first (no_eager tool))
strip_tool-again null = refl
strip_tool-again _ = refl

strip_tool-clean : (v : Json) → clean_tool (strip_tool v) ≡ true
strip_tool-clean (obj tool) =
    ground (arith, ap has_none (no_defer tool), ap has_none (no_eager tool))
strip_tool-clean null = refl
strip_tool-clean _ = refl

strip_message-again : (v : Json) → strip_message (strip_message v) ≡ strip_message v
strip_message-again (obj msg) =
    ap obj (update-update (codes "content") strip_content strip_content msg strip_content-again)
strip_message-again null = refl
strip_message-again _ = refl

strip_message-clean : (v : Json) → clean_message (strip_message v) ≡ true
strip_message-clean (obj msg) =
    ap clean_content (get-update (codes "content") strip_content msg)
    ∙ go (get (codes "content") msg)
  where
    go : (o : Option Json) → clean_content (Option.map strip_content o) ≡ true
    go none = refl
    go (some v) = strip_content-clean v
strip_message-clean null = refl
strip_message-clean _ = refl

map_items-again :
    (f : Json → Json) (vs : Items)
    → ((v : Json) → f (f v) ≡ f v)
    → map_items f (map_items f vs) ≡ map_items f vs
map_items-again f nil h = refl
map_items-again f (cons v vs) h =
    ap (λ x. cons x (map_items f (map_items f vs))) (h v) ∙ ap (cons (f v)) (map_items-again f vs h)

map_items-clean :
    (p : Json → Bool) (f : Json → Json) (vs : Items)
    → ((v : Json) → p (f v) ≡ true)
    → all_items p (map_items f vs) ≡ true
map_items-clean p f nil h = refl
map_items-clean p f (cons v vs) h = rw (h v) (map_items-clean p f vs h)

strip_messages-again : (v : Json) → strip_messages (strip_messages v) ≡ strip_messages v
strip_messages-again (arr vs) = ap arr (map_items-again strip_message vs strip_message-again)
strip_messages-again null = refl
strip_messages-again _ = refl

strip_tools-again : (v : Json) → strip_tools (strip_tools v) ≡ strip_tools v
strip_tools-again (arr vs) = ap arr (map_items-again strip_tool vs strip_tool-again)
strip_tools-again null = refl
strip_tools-again _ = refl

flatten-again : (s t : Text) (v : Json) → flatten s (flatten t v) ≡ flatten t v
flatten-again s t (arr vs) = refl
flatten-again s t null = refl
flatten-again s t _ = refl

flat : (t : Text) (o : Option Json) → is_flat (Option.map (flatten t) o) ≡ true
flat t none = refl
flat t (some (arr vs)) = refl
flat t (some null) = refl
flat t (some _) = refl

messages-clean : (o : Option Json) → all_of clean_message (Option.map strip_messages o) ≡ true
messages-clean none = refl
messages-clean (some (arr vs)) = map_items-clean clean_message strip_message vs strip_message-clean
messages-clean (some null) = refl
messages-clean (some _) = refl

tools-clean : (o : Option Json) → all_of clean_tool (Option.map strip_tools o) ≡ true
tools-clean none = refl
tools-clean (some (arr vs)) = map_items-clean clean_tool strip_tool vs strip_tool-clean
tools-clean (some null) = refl
tools-clean (some _) = refl

module _ (body : Fields) where
  abbrev flattened : Fields
  flattened = update (codes "system") (flatten (extract_system_text body)) body

  abbrev stripped : Fields
  stripped = update (codes "messages") strip_messages flattened

  abbrev normal : Fields
  normal = update (codes "tools") strip_tools stripped

  flatten-normal : (t : Text) → update (codes "system") (flatten t) normal ≡ normal
  flatten-normal t =
      update-other (codes "system") (codes "tools") (flatten t) strip_tools stripped refl
      ∙ ap (update (codes "tools") strip_tools) (
          update-other (codes "system") (codes "messages") (flatten t) strip_messages flattened refl
          ∙ ap (update (codes "messages") strip_messages) (
              update-update (codes "system") (flatten (extract_system_text body)) (flatten t) body
                (flatten-again t (extract_system_text body))))

  strip-normal : update (codes "messages") strip_messages normal ≡ normal
  strip-normal =
      update-other (codes "messages") (codes "tools") strip_messages strip_tools stripped refl
      ∙ ap (update (codes "tools") strip_tools) (
          update-update (codes "messages") strip_messages strip_messages flattened
            strip_messages-again)

  normal-clean : is_clean normal ≡ true
  normal-clean =
      let system : is_flat (get (codes "system") normal) ≡ true =
        ap is_flat (
          get-update_other (codes "system") (codes "tools") strip_tools stripped refl
          ∙ get-update_other (codes "system") (codes "messages") strip_messages flattened refl
          ∙ get-update (codes "system") (flatten (extract_system_text body)) body)
        ∙ flat (extract_system_text body) (get (codes "system") body) in
      let messages : all_of clean_message (get (codes "messages") normal) ≡ true =
        ap (all_of clean_message) (
          get-update_other (codes "messages") (codes "tools") strip_tools stripped refl
          ∙ get-update (codes "messages") strip_messages flattened)
        ∙ messages-clean (get (codes "messages") flattened) in
      let tools : all_of clean_tool (get (codes "tools") normal) ≡ true =
        ap (all_of clean_tool) (get-update (codes "tools") strip_tools stripped)
        ∙ tools-clean (get (codes "tools") stripped) in
      rw system (rw messages tools)

-- Of a request to a provider that is not native, normalize_body leaves a system prompt that is no
-- list, messages without documents, and tools without the two fields; what it leaves it does not
-- change any more; and the value of any key but these three is what it was.
pub normalize_body_lem :
    (body : Fields) (k : Text)
    → (codes "system" == k) ≡ false
    → (codes "messages" == k) ≡ false
    → (codes "tools" == k) ≡ false
    → (is_clean (normalize_body false body) ≡ true)
      × (normalize_body false (normalize_body false body) ≡ normalize_body false body)
      × (get k (normalize_body false body) ≡ get k body)
unfolding normalize_body flatten_system strip_document_blocks strip_beta_tool_fields
normalize_body_lem body k system messages tools = (
  normal-clean body,
  ap (λ x. update (codes "tools") strip_tools (update (codes "messages") strip_messages x))
        (flatten-normal body (extract_system_text (normal body)))
      ∙ ap (update (codes "tools") strip_tools) (strip-normal body)
      ∙ update-update (codes "tools") strip_tools strip_tools (stripped body) strip_tools-again,
  get-update_other k (codes "tools") strip_tools (stripped body) tools
      ∙ get-update_other k (codes "messages") strip_messages (flattened body) messages
      ∙ get-update_other k (codes "system") (flatten (extract_system_text body)) body system,
)
