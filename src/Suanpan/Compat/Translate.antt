-- ===== src/Suanpan/Compat/Translate.antt =====
-- suanpan/compat.py, `OpenAIChatToAnthropicSSE`: `_on_chunk`, `feed` and `finish`.
use magic_ai_router.Prelude.{
  true, Option, none, some, List, [], ◌∷◌, ◌++◌, Text, codes, lookup, if◌then◌else◌,
}
use magic_ai_router.Json.{Json, str, arr, obj, cons, Fields, field, get, truthy}
use magic_ai_router.Mpconf.Validate.Ports.{int_key}
use magic_ai_router.Suanpan.Usage.{or_empty}
use magic_ai_router.Suanpan.Compat.{
  Translator, Out, error, after, start_message, close, on_text, tool_index, ensure_tool,
  send_arguments, tool_calls, joined,
}
use magic_ai_router.Suanpan.Compat.Lines.{data_of, drop_end, is_cr, is_done, unread, cut_lines}

abbrev pub error_of : Option Json → Option Fields
error_of (some (obj err)) = some err
error_of _ = none

-- The first of the choices, where it is a dictionary
abbrev pub first_choice : Option Json → Option Fields
first_choice (some (arr (cons (obj choice) _))) = some choice
first_choice _ = none

abbrev pub usage_of : Option Json → Option Fields → Option Fields
usage_of (some (obj (field k v fs))) old = some (field k v fs)
usage_of _ old = old

abbrev pub or_last : Option Json → Option Json → Option Json
or_last none last = last
or_last (some v) last = if truthy v then some v else last

module _ (show : Json → Text) where
  abbrev pub str_or : Text → Option Json → Text
  str_or default none = default
  str_or default (some (str s)) = s
  str_or default (some v) = show v

  abbrev pub on_tool : Fields → Fields → Translator → Out
  on_tool tc fn t =
      let idx = tool_index (get (codes "index") tc) in
      after
        (ensure_tool idx (str_or [] (get (codes "id") tc)) (str_or [] (get (codes "name") fn))
          (lookup idx t.tool_block_for) t)
        (send_arguments idx (get (codes "arguments") fn))

  unfoldable pub on_tools : List Json → Translator → Option Out
  on_tools [] t = some ([], t)
  on_tools (obj tc ∷ tcs) t = elim (or_empty (get (codes "function") tc)) [
    | none ↦ none
    | some fn ↦ joined (on_tool tc fn t) (on_tools tcs (on_tool tc fn t).1)
  ]
  on_tools (_ ∷ tcs) t = on_tools tcs t

  abbrev pub on_calls : Out → Option (List Json) → Option Out
  on_calls (es, t) none = none
  on_calls (es, t) (some tcs) = joined (es, t) (on_tools tcs t)

  unfoldable pub on_delta : Option Json → Out → Option Out
  on_delta (some (obj delta)) o =
      on_calls (after o (on_text (get (codes "content") delta)))
        (tool_calls (get (codes "tool_calls") delta))
  on_delta _ o = some o

  abbrev pub on_choice : Option Fields → Translator → Option Out
  on_choice none t = some ([], t)
  on_choice (some choice) t = on_delta (get (codes "delta") choice) (
      start_message
        (record t { finish_reason = or_last (get (codes "finish_reason") choice) t.finish_reason }))

  abbrev pub send_error : Fields → Translator → Out
  send_error err t = (
    error (str_or (codes "api_error") (get (codes "type") err))
          (str_or [] (get (codes "message") err))
        ∷ [],
    record t { done = true },
  )

  -- An error sets `_done`, at which the loop of `feed` does not look.
  unfoldable pub on_chunk : Fields → Translator → Option Out
  on_chunk evt t = elim (error_of (get (codes "error") evt)) [
    | some err ↦ some (send_error err t)
    | none ↦
        on_choice (first_choice (get (codes "choices") evt))
          (record t { usage = usage_of (get (codes "usage") evt) t.usage })
  ]

  module _ (loads : Text → Option Json) where
    abbrev pub on_loaded : Option Json → Translator → Option Out
    on_loaded (some (obj evt)) t = on_chunk evt t
    on_loaded _ t = some ([], t)

    -- The loop of `feed` over the complete lines. What stands behind the end mark stays in the
    -- buffer.
    unfoldable pub read_lines : List Text → Text → Translator → Option Out
    read_lines [] rest t = some ([], record t { buffer = rest })
    read_lines (line ∷ lines) rest t = elim (data_of (drop_end is_cr line)) [
      | none ↦ read_lines lines rest t
      | some payload ↦
          if is_done payload
          then close (record t { buffer = unread lines rest })
          else elim (on_loaded (loads payload) t) [
            | none ↦ none
            | some o ↦ joined o (read_lines lines rest o.1)
          ]
    ]

    unfoldable pub feed : Text → Translator → Option Out
    feed chunk t =
        let (lines, rest) = cut_lines (t.buffer ++ chunk) in
        if t.done then some ([], t) else read_lines lines rest t

    unfoldable pub finish : Translator → Option Out
    finish t = if t.done then some ([], t) else close (record t { buffer = [] })

    -- A whole response: its chunks, and its end.
    unfoldable pub transcribe : List Text → Translator → Option Out
    transcribe [] t = finish t
    transcribe (chunk ∷ chunks) t = elim (feed chunk t) [
      | none ↦ none
      | some o ↦ joined o (transcribe chunks o.1)
    ]
