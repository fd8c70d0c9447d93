-- ===== src/Tests/Usage.antt =====
-- Responses that suanpan/usage_extractor.py scans.
use magic_ai_router.Prelude.{
  ◌≡◌, refl, false, Option, none, some, [], ◌++◌, Text, codes, starts_with, has_char, if◌then◌else◌,
  text_key, ◌==◌,
}
use magic_ai_router.Json.{Json, int, pos, str, obj, field, end}
use magic_ai_router.Suanpan.Usage.Events.{separator_at, cut_from, split_events}
use magic_ai_router.Suanpan.Usage.{
  anthropic, Tally, UsageExtractor, init, raise_to, merge, merge_responses, merge_openai,
  merge_wire, or_empty, consume_data, payload, split_lines, normalized, consume, consume_all,
  consume_sse, feed, parse_doc,
}
use magic_ai_router.Suanpan.Usage.Segments.{continued, split_events-append}
use magic_ai_router.Suanpan.Usage.Feed.{feed-append}

usage : Unit {0}
unfolding separator_at cut_from split_events init raise_to merge merge_responses merge_openai
    merge_wire or_empty consume_data payload split_lines normalized consume consume_all consume_sse
    feed parse_doc starts_with has_char
usage = tt

-- `json.loads` of the payload "7", of which a provider's count of seven is made.
abbrev loads : Text → Option Json
loads text =
    if text == codes "7"
    then some (
        obj (
          field (codes "type") (str (codes "message_delta"))
            (field (codes "usage") (obj (field (codes "output_tokens") (int (pos 7)) end)) end)))
    else none

abbrev fresh : UsageExtractor
fresh = record {
  tally = record {
    input_tokens = 0;
    output_tokens = 0;
    cache_read_tokens = 0;
    cache_creation_tokens = 0;
  };
  truncated = false;
  json_mode = false;
  wire = anthropic;
  buffer = [];
}

abbrev seven : Tally
seven = record {
  input_tokens = 0;
  output_tokens = 7;
  cache_read_tokens = 0;
  cache_creation_tokens = 0;
}

feed_tests :
    (feed loads (codes "event: a\ndata: 7\n\nda") fresh
      ≡ some (record fresh { tally = seven; buffer = codes "da" }))
    × (feed loads (codes "event: a\r\ndata:7\r\n\r\n") fresh
        ≡ some (record fresh { tally = seven }))
    × (feed loads (codes "event: a\rdata: 7\r\r") fresh ≡ some fresh)
    × (feed loads (codes "data: 7\r\n\r") fresh
        ≡ some (record fresh { buffer = codes "data: 7\r\n\r" }))
unfolding usage
feed_tests = (refl, refl, refl, refl)

split_events-append_example :
    split_events (codes "a\r\n\r" ++ codes "\nb")
    ≡ continued (split_events (codes "a\r\n\r")) (codes "\nb")
split_events-append_example = split_events-append (codes "a\r\n\r") (codes "\nb")

feed-append_example :
    feed loads (codes "7\n\n") (record fresh { buffer = codes "data:" })
    ≡ feed loads (codes "data:" ++ codes "7\n\n") fresh
unfolding usage
feed-append_example =
    feed-append loads fresh (record fresh { buffer = codes "data:" }) (codes "data:")
      (codes "7\n\n") refl refl refl refl
