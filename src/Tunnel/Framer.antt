-- ===== src/Tunnel/Framer.antt =====
-- tunnel/http_framer.py: where a message of the local proxy ends, and the copying of its body. A
-- line or a body is a list of bytes; decoding iso-8859-1 leaves the numbers as they are.
pub mod Stream
pub mod Integers
pub mod Fixed
pub mod Chunked
pub mod Smuggling
pub mod Heads
use magic_ai_router.Prelude.{
  ℕ, zero, suc, ◌+◌, ◌-◌, min, Bool, true, false, not, ◌&&◌, ◌||◌, Option, none, some, List, [],
  ◌∷◌, ◌++◌, Text, codes, leb, ltb, nat_beq, length, take, drop, has_char, partition, starts_with,
  strip, lower, text_key, ◌==◌, if◌then◌else◌,
}
use magic_ai_router.Json.{ℤ, pos, negsuc}
use magic_ai_router.Tunnel.Framer.Stream.{Pipe, move, line_length, amount, later}
use magic_ai_router.Tunnel.Framer.Integers.{parse_int}

abbrev pub chunk_size : ℕ
chunk_size = 65536

pub record Framing : Type 0 where
  pub content_length : Option ℤ
  pub chunked : Bool
  pub conn_close : Bool

-- The framing so far, and whether a Content-Length was seen.
pub record Parsing : Type 0 where
  pub framing : Framing
  pub saw_cl : Bool

-- `part in text`
unfoldable pub has_text : Text → Text → Bool
has_text part [] = starts_with [] part
has_text part (c ∷ s) = starts_with (c ∷ s) part || has_text part s

-- One header line, from its name and value; `none` is a `ValueError`.
unfoldable pub parse_field : Text → Text → Parsing → Option Parsing
parse_field n v p =
    if n == codes "content-length"
    then (if p.saw_cl then none else (elim (parse_int 10 v) [
      | none ↦ none
      | some length ↦
          some
            (record { framing = record p.framing { content_length = some length }; saw_cl = true })
    ]))
    else if n == codes "transfer-encoding" && has_text (codes "chunked") (lower v)
    then some (record p { framing = record p.framing { chunked = true } })
    else if n == codes "connection" && has_text (codes "close") (lower v)
    then some (record p { framing = record p.framing { conn_close = true } })
    else some p

unfoldable pub parse_line : Text → Parsing → Option Parsing
parse_line raw p =
    let (name, value) = partition b':' raw in
    if has_char b':' raw then parse_field (lower (strip name)) (strip value) p else some p

unfoldable pub parse_lines : List Text → Parsing → Option Parsing
parse_lines [] p = some p
parse_lines (raw ∷ lines) p = elim (parse_line raw p) [ none ↦ none | some q ↦ parse_lines lines q ]

abbrev pub not_both : Parsing → Option Framing
not_both p = if p.saw_cl && p.framing.chunked then none else some p.framing

abbrev pub unframed : Parsing
unframed = record {
  framing = record { content_length = none; chunked = false; conn_close = false };
  saw_cl = false;
}

unfoldable pub parse_framing : List Text → Option Framing
parse_framing lines = elim (parse_lines lines unframed) [ none ↦ none | some p ↦ not_both p ]

-- How a copy ends: all is copied; the source ended; or the fuel did.
pub data Relay : Type 0 where
  relayed truncated stuck : Relay

-- The loop of `relay_fixed`; each round copies at least one byte.
unfoldable pub relay_for : ℕ → ℕ → Pipe → Relay × Pipe
relay_for zero remaining p = (stuck, p)
relay_for (suc fuel) remaining p =
    let n = length (take (amount (min chunk_size remaining) p) p.left) in
    let rest = relay_for fuel (remaining - n) (record (move n p) { grain = later p.grain }) in
    if nat_beq remaining 0 then (relayed, p) else if nat_beq n 0 then (truncated, p) else rest

-- A length below zero copies nothing.
unfoldable pub relay_fixed : ℤ → Pipe → Relay × Pipe
relay_fixed (pos n) p = relay_for (n + 1) n p
relay_fixed (negsuc n) p = (relayed, p)

-- `bytes.strip`
abbrev is_blank : ℕ → Bool
is_blank c = (leb 9 c && leb c 13) || nat_beq c 32

abbrev lstrip_bytes : Text → Text
lstrip_bytes [] = []
lstrip_bytes (c ∷ s) = let rest = lstrip_bytes s in if is_blank c then rest else c ∷ s

abbrev rstrip_bytes : Text → Text
rstrip_bytes [] = []
rstrip_bytes (c ∷ s) = elim (rstrip_bytes s) [
  | [] ↦ if is_blank c then [] else c ∷ []
  | d ∷ r ↦ c ∷ d ∷ r
]

-- The size at the head of a chunk: the line up to the first ";".
unfoldable pub chunk_head : Text → Option ℤ
chunk_head line = parse_int 16 (lstrip_bytes (rstrip_bytes (partition b';' line).0))

-- The trailer lines up to an empty one.
unfoldable pub relay_trailer : ℕ → Pipe → Relay × Pipe
relay_trailer zero p = (stuck, p)
relay_trailer (suc fuel) p =
    let line = take (line_length p.left) p.left in
    let q = move (line_length p.left) p in
    let rest = relay_trailer fuel q in
    if nat_beq (length line) 0
    then (truncated, p)
    else if line == codes "\r\n" || line == codes "\n"
    then (relayed, q)
    else rest

-- The line end behind a chunk's data, where the data is copied.
abbrev pub relay_crlf : Relay × Pipe → Relay × Pipe
relay_crlf (relayed, p) =
    if nat_beq (line_length p.left) 0
    then (truncated, p)
    else (relayed, move (line_length p.left) p)
relay_crlf (outcome, p) = (outcome, p)

-- What follows a copy that is complete.
abbrev pub on_relayed : (Pipe → Relay × Pipe) → Relay × Pipe → Relay × Pipe
on_relayed next (relayed, p) = next p
on_relayed next (outcome, p) = (outcome, p)

-- A chunk behind its head: the last one has a trailer, the others data; `next` is the loop.
abbrev pub relay_chunk : (Pipe → Relay × Pipe) → Option ℤ → Pipe → Relay × Pipe
relay_chunk next none p = (truncated, p)
relay_chunk next (some (pos zero)) p = relay_trailer (length p.left + 1) p
relay_chunk next (some (pos (suc n))) p = on_relayed next (relay_crlf (relay_fixed (pos (suc n)) p))
relay_chunk next (some (negsuc n)) p = on_relayed next (relay_crlf (relay_fixed (negsuc n) p))

-- `truncated` is the result `False`: the source ended, or a size is no number.
unfoldable pub relay_chunks : ℕ → Pipe → Relay × Pipe
relay_chunks zero p = (stuck, p)
relay_chunks (suc fuel) p =
    let line = take (line_length p.left) p.left in
    let rest = relay_chunk (relay_chunks fuel) (chunk_head line) (move (line_length p.left) p) in
    if nat_beq (length line) 0 then (truncated, p) else rest

-- Each round reads a line, so that the bytes that are left are enough fuel.
unfoldable pub relay_chunked : Pipe → Relay × Pipe
relay_chunked p = relay_chunks (length p.left + 1) p

-- `split_header`: the lowered name and the value, or no name.
abbrev pub split_header : Text → Option Text × Text
split_header raw =
    let (name, value) = partition b':' raw in
    if has_char b':' raw then (some (lower (strip name)), strip value) else (none, [])

-- The loop of `relay_until_eof`; a round without bytes is the end.
unfoldable pub relay_all : ℕ → Pipe → Relay × Pipe
relay_all zero p = (stuck, p)
relay_all (suc fuel) p =
    let n = length (take (amount chunk_size p) p.left) in
    let rest = relay_all fuel (record (move n p) { grain = later p.grain }) in
    if nat_beq n 0 then (relayed, p) else rest

unfoldable pub relay_until_eof : Pipe → Relay × Pipe
relay_until_eof p = relay_all (length p.left + 1) p

-- How reading a head ends: the peer has finished, the head is there, it is too long, or it is
-- cut off; that the fuel ends before it is excluded.
pub data Head : Type 0 where
  no_message over_limit mid_headers out_of_fuel : Head
  head : Text → List Text → Head

abbrev pub with_header : Text → Head × Text → Head × Text
with_header line (head start headers, rest) = (head start (line ∷ headers), rest)
with_header line (other, rest) = (other, rest)

-- The loop of `read_head` over the bytes that the reader will deliver, and what is left of them.
unfoldable pub read_headers : ℕ → ℕ → ℕ → Text → Text → Head × Text
read_headers zero max_bytes total start left = (out_of_fuel, left)
read_headers (suc fuel) max_bytes total start left =
    let line = take (line_length left) left in
    let rest = drop (line_length left) left in
    let more = read_headers fuel max_bytes (total + length line) start rest in
    if ltb max_bytes (total + length line)
    then (over_limit, rest)
    else if nat_beq (length line) 0
    then (mid_headers, rest)
    else if line == codes "\r\n" || line == codes "\n"
    then (head start [], rest)
    else with_header line more

-- Every line that is kept has a byte, so that the limit is enough fuel.
unfoldable pub read_head : Option Text → ℕ → Text → Head × Text
read_head (some start) max_bytes left =
    if nat_beq (length start) 0
    then (no_message, left)
    else read_headers (max_bytes + 2) max_bytes (length start) start left
read_head none max_bytes left =
    let start = take (line_length left) left in
    let rest = drop (line_length left) left in
    if nat_beq (length start) 0
    then (no_message, rest)
    else read_headers (max_bytes + 2) max_bytes (length start) start rest
