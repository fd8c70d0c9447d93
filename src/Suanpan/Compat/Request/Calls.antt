-- ===== src/Suanpan/Compat/Request/Calls.antt =====
-- suanpan/compat.py: a converted request has the calls of tools and their results in the same
-- order.
use magic_ai_router.Prelude.{
  ◌≡◌, refl, sym, ap, ◌∙◌, inl, inr, Option, none, some, List, [], ◌∷◌, ◌++◌, Text, codes, text_key,
  Bool-cases, append-nil_right, if◌then◌else◌,
}
use magic_ai_router.Json.{Json, str, arr, Fields, get, items}
use magic_ai_router.Suanpan.Router.Marker.{extract_system_text}
use magic_ai_router.Suanpan.Compat.Request.{
  Part, text_part, image_url, ToolCall, ChatMessage, tool_message, assistant_message, is_type,
  messages_of, blocks_of, some_parts, str_or, user_parts_of, without_results, tool_messages,
  user_message, calls, assistant_of, is_assistant, converted, convert_all, system_messages,
  with_system, chat_messages,
}

-- The call of a tool, or its result, by the id
pub data Mark : Type 0 where
  used answered : Text → Mark

abbrev used_by : List ToolCall → List Mark
used_by [] = []
used_by (c ∷ cs) = used c.id ∷ used_by cs

abbrev marks_in : ChatMessage → List Mark
marks_in (tool_message id _) = answered id ∷ []
marks_in (assistant_message _ cs) = used_by cs
marks_in _ = []

abbrev pub marks : List ChatMessage → List Mark
marks [] = []
marks (m ∷ ms) = marks_in m ++ marks ms

abbrev content_blocks : Option Json → List Fields
content_blocks (some (arr xs)) = blocks_of (items xs)
content_blocks _ = []

assoc : (a b c : List Mark) → (a ++ b) ++ c ≡ a ++ (b ++ c)
assoc [] b c = refl
assoc (x ∷ a) b c = ap (λ s. x ∷ s) (assoc a b c)

marks-append : (a b : List ChatMessage) → marks (a ++ b) ≡ marks a ++ marks b
marks-append [] b = refl
marks-append (m ∷ a) b =
    ap (λ s. marks_in m ++ s) (marks-append a b) ∙ sym (assoc (marks_in m) (marks a) (marks b))

some_parts-marks : (parts : List Part) → marks (some_parts parts) ≡ []
some_parts-marks [] = refl
some_parts-marks (text_part v ∷ []) = refl
some_parts-marks (image_url v ∷ []) = refl
some_parts-marks (text_part v ∷ q ∷ parts) = refl
some_parts-marks (image_url v ∷ q ∷ parts) = refl

module _ (show dumps : Json → Text) where
  -- The ids of the blocks of one kind, as the request has them
  abbrev pub ids : Text → Text → (Text → Mark) → List Fields → List Mark
  ids kind key mark [] = []
  ids kind key mark (b ∷ bs) =
      let rest = ids kind key mark bs in
      if is_type kind b then mark (str_or show dumps [] (get key b)) ∷ rest else rest

  abbrev pub given_in : Fields → List Mark
  given_in msg =
      let blocks = content_blocks (get (codes "content") msg) in
      if is_assistant show dumps msg
      then ids (codes "tool_use") (codes "id") used blocks
      else ids (codes "tool_result") (codes "tool_use_id") answered blocks

  -- The calls that the assistant's messages have and the results that the others have, in their
  -- order
  abbrev pub given : List Fields → List Mark
  given [] = []
  given (msg ∷ msgs) = given_in msg ++ given msgs

  tool_messages-marks :
      (bs : List Fields)
      → marks (tool_messages show dumps bs)
        ≡ ids (codes "tool_result") (codes "tool_use_id") answered bs
  tool_messages-marks [] = refl
  tool_messages-marks (b ∷ bs) = elim (Bool-cases (is_type (codes "tool_result") b)) [
    | inl result ↦ rw result (
        ap (λ s. answered (str_or show dumps [] (get (codes "tool_use_id") b)) ∷ s)
          (tool_messages-marks bs))
    | inr other ↦ rw other (tool_messages-marks bs)
  ]

  calls-marks :
      (bs : List Fields)
      → used_by (calls show dumps bs) ≡ ids (codes "tool_use") (codes "id") used bs
  calls-marks [] = refl
  calls-marks (b ∷ bs) = elim (Bool-cases (is_type (codes "tool_use") b)) [
    | inl call ↦
        rw call (ap (λ s. used (str_or show dumps [] (get (codes "id") b)) ∷ s) (calls-marks bs))
    | inr other ↦ rw other (calls-marks bs)
  ]

  user_message-marks :
      (v : Option Json)
      → marks (user_message show dumps v)
        ≡ ids (codes "tool_result") (codes "tool_use_id") answered (content_blocks v)
  unfolding user_message
  user_message-marks (some (arr xs)) =
      let blocks = blocks_of (items xs) in
      let parts = user_parts_of show dumps (without_results show dumps blocks) in
      marks-append (tool_messages show dumps blocks) (some_parts parts)
      ∙ ap (λ s. marks (tool_messages show dumps blocks) ++ s) (some_parts-marks parts)
      ∙ append-nil_right (marks (tool_messages show dumps blocks))
      ∙ tool_messages-marks blocks
  user_message-marks (some (str [])) = refl
  user_message-marks (some (str (c ∷ s))) = refl
  user_message-marks none = refl
  user_message-marks (some _) = refl

  assistant_of-marks :
      (v : Option Json)
      → marks_in (assistant_of show dumps v)
        ≡ ids (codes "tool_use") (codes "id") used (content_blocks v)
  unfolding assistant_of
  assistant_of-marks (some (arr xs)) = calls-marks (blocks_of (items xs))
  assistant_of-marks (some (str s)) = refl
  assistant_of-marks none = refl
  assistant_of-marks (some _) = refl

  converted-marks : (msg : Fields) → marks (converted show dumps msg) ≡ given_in msg
  converted-marks msg = elim (Bool-cases (is_assistant show dumps msg)) [
    | inl own ↦ rw own (
        append-nil_right (marks_in (assistant_of show dumps (get (codes "content") msg)))
        ∙ assistant_of-marks (get (codes "content") msg))
    | inr other ↦ rw other (user_message-marks (get (codes "content") msg))
  ]

  convert_all-marks : (msgs : List Fields) → marks (convert_all show dumps msgs) ≡ given msgs
  unfolding convert_all
  convert_all-marks [] = refl
  convert_all-marks (msg ∷ msgs) =
      marks-append (converted show dumps msg) (convert_all show dumps msgs)
      ∙ ap (λ s. s ++ marks (convert_all show dumps msgs)) (converted-marks msg)
      ∙ ap (λ s. given_in msg ++ s) (convert_all-marks msgs)

  system-marks :
      (s : Text) (ms : List ChatMessage) → marks (system_messages show dumps s ++ ms) ≡ marks ms
  system-marks [] ms = refl
  system-marks (c ∷ s) ms = refl

  pub chat_messages-marks :
      (body : Fields) (msgs : List Json)
      → messages_of (get (codes "messages") body) ≡ some msgs
      → (out : List ChatMessage) × (chat_messages show dumps body ≡ some out)
        × (marks out ≡ given (blocks_of msgs))
  unfolding chat_messages
  chat_messages-marks body msgs h =
      let system = extract_system_text body in
      (
        system_messages show dumps system ++ convert_all show dumps (blocks_of msgs),
        ap (with_system show dumps system) h,
        system-marks system (convert_all show dumps (blocks_of msgs))
            ∙ convert_all-marks (blocks_of msgs),
      )
