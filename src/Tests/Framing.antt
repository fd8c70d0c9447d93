-- ===== src/Tests/Framing.antt =====
-- Messages whose ends tunnel/http_framer.py finds.
use magic_ai_router.Prelude.{
  ◌≡◌, ◌≤◌, refl, true, false, none, some, [], ◌∷◌, Text, codes, has_char, partition, starts_with,
  strip, lstrip, rstrip, nat_beq, is_some,
}
use magic_ai_router.Json.{pos, negsuc}
use magic_ai_router.Tunnel.Framer.Stream.{Pipe, line_length}
use magic_ai_router.Tunnel.Framer.Integers.{parse_int}
use magic_ai_router.Tunnel.Framer.{
  Framing, has_text, parse_field, parse_line, parse_lines, parse_framing, relayed, truncated,
  relay_for, relay_fixed, chunk_head, relay_trailer, relay_chunks, relay_chunked, relay_all,
  relay_until_eof, head, mid_headers, over_limit, read_headers, read_head,
}
use magic_ai_router.Tunnel.Framer.Fixed.{IsCopied, relay_fixed-IsCopied}
use magic_ai_router.Tunnel.Framer.Chunked.{IsSame, arriving, relay_chunked-IsSame}
use magic_ai_router.Tunnel.Framer.Smuggling.{count_lengths, parse_framing_lem}

framing : Unit {0}
unfolding line_length parse_int has_text parse_field parse_line parse_lines parse_framing relay_for
    relay_fixed chunk_head relay_trailer relay_chunks relay_chunked relay_all relay_until_eof
    read_headers read_head has_char partition starts_with strip lstrip rstrip
framing = tt

parse_int_tests :
    (parse_int 10 (codes "1_0") ≡ some (pos 10))
    × (parse_int 10 (codes "-5") ≡ some (negsuc 4))
    × (parse_int 16 (codes "0x1F") ≡ some (pos 31))
    × (parse_int 16 (codes "1__0") ≡ none)
    × (parse_int 16 [] ≡ none)
unfolding framing
parse_int_tests = (refl, refl, refl, refl, refl)

abbrev ten : Framing
ten = record { content_length = some (pos 10); chunked = false; conn_close = false }

abbrev header : Text
header = codes "Content-Length: 10\r\n"

parse_framing_tests :
    (parse_framing (header ∷ []) ≡ some ten)
    × (parse_framing (header ∷ header ∷ []) ≡ none)
    × (parse_framing (header ∷ codes "Transfer-Encoding: Chunked\r\n" ∷ []) ≡ none)
unfolding framing
parse_framing_tests = (refl, refl, refl)

abbrev body : Pipe
body = record { left = codes "3\r\nabc\r\n0\r\n\r\nGET"; grain = 1 ∷ 0 ∷ []; written = [] }

relay_tests :
    ((relay_chunked body).0 ≡ relayed)
    × ((relay_chunked body).1.left ≡ codes "GET")
    × ((relay_fixed (pos 3) body).1.written ≡ codes "3\r\n")
    × ((relay_fixed (pos 99) body).0 ≡ truncated)
    × ((relay_until_eof body).1.left ≡ [])
unfolding framing
relay_tests = (refl, refl, refl, refl, refl)

read_head_tests :
    (read_head none 99 (codes "GET\na: b\n\nrest")
      ≡ (head (codes "GET\n") (codes "a: b\n" ∷ []), codes "rest"))
    × (read_head none 99 (codes "GET\na: b\n") ≡ (mid_headers, []))
    × (read_head none 5 (codes "GET\na: b\n") ≡ (over_limit, []))
unfolding framing
read_head_tests = (refl, refl, refl)

parse_framing_example :
    (count_lengths (header ∷ []) ≤ 1)
    × (is_some ten.content_length ≡ nat_beq (count_lengths (header ∷ [])) 1)
    × (ten.chunked ≡ true → count_lengths (header ∷ []) ≡ 0)
unfolding framing
parse_framing_example = parse_framing_lem (header ∷ []) ten refl

relay_fixed-IsCopied_example : IsCopied 3 body (relay_fixed (pos 3) body)
relay_fixed-IsCopied_example = relay_fixed-IsCopied 3 body

relay_chunked-IsSame_example : IsSame (relay_chunked (arriving [] body)) (relay_chunked body)
relay_chunked-IsSame_example = relay_chunked-IsSame [] body
