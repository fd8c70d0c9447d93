-- ===== src/Suanpan/Compat/Ordered.antt =====
-- suanpan/compat.py: the calls of tools and their results in a request that
-- `anthropic_to_openai_request` has made.
use magic_ai_router.Prelude.{◌≡◌, ap, some, List, Text, codes, text_key}
use magic_ai_router.Json.{Json, Fields, get}
use magic_ai_router.Suanpan.Compat.Request.{messages_of, blocks_of}
use magic_ai_router.Suanpan.Compat.Request.Calls.{marks, given, chat_messages-marks}
use magic_ai_router.Suanpan.Compat.Options.{ChatRequest, with_messages, anthropic_to_openai_request}

-- Of a request whose messages a loop can go through, the conversion does not raise; and the new
-- messages have the ids of the assistant's calls of tools and of the results in the other messages,
-- all of them and in the order in which the request has them.
pub request-marks :
    (show dumps : Json → Text) (body : Fields) (msgs : List Json)
    → messages_of (get (codes "messages") body) ≡ some msgs
    → (out : ChatRequest) × (anthropic_to_openai_request show dumps body ≡ some out)
      × (marks out.messages ≡ given show dumps (blocks_of msgs))
unfolding anthropic_to_openai_request
request-marks show dumps body msgs h =
    let (messages, made, same) = chat_messages-marks show dumps body msgs h in
    (_, ap (with_messages show dumps body) made, same)
