-- ===== src/Tests/Streams.antt =====
-- Runs of the translator of suanpan/compat.py.
use magic_ai_router.Prelude.{
  arith, ◌≡◌, refl, true, Option, none, some, List, [], ◌∷◌, Text, codes, starts_with, text_key,
  ◌==◌, if◌then◌else◌,
}
use magic_ai_router.Json.{Json, int, pos, str, arr, obj, cons, nil, Fields, end, field}
use magic_ai_router.Suanpan.Usage.{or_empty}
use magic_ai_router.Suanpan.Compat.{
  StreamEvent, message_start, content_block_start, text_delta, input_json_delta, content_block_stop,
  message_delta, message_stop, error, text_block, tool_block, new_translator, usage_from_openai,
  stop_reason, close_block, close, on_text, tool_calls, Out,
}
use magic_ai_router.Suanpan.Compat.Lines.{cut_lines}
use magic_ai_router.Suanpan.Compat.Translate.{
  on_tools, on_delta, on_chunk, read_lines, feed, finish, transcribe,
}
use magic_ai_router.Suanpan.Compat.Protocol.{before, accept, accepts}
use magic_ai_router.Suanpan.Compat.Valid.{transcribe_lem}
use magic_ai_router.Suanpan.Compat.Steps.{IsOver}
use magic_ai_router.Suanpan.Compat.Returns.{is_chunk}

streams : Unit {0}
unfolding starts_with or_empty usage_from_openai stop_reason close_block close on_text tool_calls
    cut_lines on_tools on_delta on_chunk read_lines feed finish transcribe accept accepts
streams = tt

abbrev show : Json → Text
show v = codes "?"

abbrev one : Text → Json → Fields
one key v = field key v end

abbrev delta : Fields → Option Json
delta fs = some (obj (one (codes "choices") (arr (cons (obj (one (codes "delta") (obj fs))) nil))))

abbrev call : Json → Option Json
call idx = delta (
    one (codes "tool_calls") (
      arr (
        cons
          (obj (
            field (codes "index") idx
              (one (codes "function") (obj (one (codes "arguments") (str (codes "{}")))))))
          nil)))

-- Four events of a stream, by a letter each.
abbrev loads : Text → Option Json
loads s =
    if s == codes "t"
    then delta (one (codes "content") (str (codes "hi")))
    else if s == codes "0"
    then call (int (pos 0))
    else if s == codes "1"
    then call (int (pos 1))
    else if s == codes "e"
    then some (obj (one (codes "error") (obj end)))
    else none

abbrev events_of : Option Out → List StreamEvent
events_of none = []
events_of (some o) = o.0

abbrev replies : List Text → List StreamEvent
replies chunks = events_of (transcribe show loads chunks new_translator)

abbrev tail : List StreamEvent
tail = message_delta (codes "end_turn") (usage_from_openai none) ∷ message_stop ∷ []

-- The third shows that a call which is taken up again has its arguments sent to a block that has
-- ended, and the last that events follow an error which stands in one chunk with others.
stream_tests :
    (replies [] ≡ message_start ∷ tail)
    × (replies (codes "data: t\r\nda" ∷ codes "ta:t\n\ndata: [DONE]\ndata: t\n" ∷ [])
        ≡ message_start
          ∷ content_block_start 0 text_block
          ∷ text_delta 0 (codes "hi")
          ∷ text_delta 0 (codes "hi")
          ∷ content_block_stop 0
          ∷ tail)
    × (replies (codes "data: 0\ndata: 1\ndata: 0\n" ∷ [])
        ≡ message_start
          ∷ content_block_start 0 (tool_block [] [])
          ∷ input_json_delta 0 (codes "{}")
          ∷ content_block_stop 0
          ∷ content_block_start 1 (tool_block [] [])
          ∷ input_json_delta 1 (codes "{}")
          ∷ input_json_delta 0 (codes "{}")
          ∷ content_block_stop 1
          ∷ tail)
    × (replies (codes "data: e\n" ∷ codes "data: [DONE]\n" ∷ [])
        ≡ error (codes "api_error") [] ∷ [])
    × (replies (codes "data: e\ndata: [DONE]\n" ∷ [])
        ≡ error (codes "api_error") [] ∷ message_start ∷ tail)
unfolding streams
stream_tests = (refl, refl, refl, refl, refl)

loads-is_chunk : (s : Text) → is_chunk (loads s) ≡ true
unfolding streams
loads-is_chunk s = ground arith

transcribe_lem_example :
    (o : Out) × (transcribe show loads (codes "data: 0\nda" ∷ codes "ta: t\n" ∷ []) new_translator
      ≡ some o)
    × IsOver (accepts o.0 before)
transcribe_lem_example =
    transcribe_lem show loads (codes "data: 0\nda" ∷ codes "ta: t\n" ∷ []) loads-is_chunk
