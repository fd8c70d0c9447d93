-- ===== src/Shared/Netloc.antt =====
-- shared/netloc.py: the "host:port" format of listen addresses. The digits of a port are the ASCII
-- ones; none is a ValueError.
pub mod Ipv6
pub mod Decimal
pub mod RoundTrip
use magic_ai_router.Prelude.{
  ℕ, ◌+◌, Bool, true, false, not, ◌&&◌, ◌||◌, Option, none, some, List, [], ◌∷◌, ◌++◌, Text, codes,
  contains, has_char, leb, partition, starts_with, strip, drop, text_key, if◌then◌else◌,
}
use magic_ai_router.Shared.Netloc.Ipv6.{is_ipv6}
use magic_ai_router.Shared.Netloc.Decimal.{decimal, digits_value, all_digits}

abbrev pub is_empty : Text → Bool
is_empty [] = true
is_empty (_ ∷ _) = false

-- `text.rpartition(":")`, less its middle part
unfoldable pub rpartition : Text → Text × Text
rpartition [] = ([], [])
rpartition (c ∷ s) =
    let (host, port) = rpartition s in
    if has_char b':' s
    then (c ∷ host, port)
    else (if has_char b':' (c ∷ []) then ([], s) else ([], c ∷ s))

-- `text.isdigit()`, then `int(text)`
abbrev pub port_of : Text → Option ℕ
port_of s = if not (is_empty s) && all_digits s then some (digits_value 0 s) else none

abbrev pub loopback_or : Text → Text
loopback_or [] = codes "127.0.0.1"
loopback_or (c ∷ s) = c ∷ s

-- The end of `parse_listen`: an empty host is the loopback, and the port has its range.
abbrev pub checked : Text → Option ℕ → Option (Text × ℕ)
checked host none = none
checked host (some port) =
    if leb 1 port && leb port 65535 then some (loopback_or host, port) else none

-- What stands behind the bracket.
abbrev pub bracket_port : Text → Option ℕ → Option ℕ
bracket_port [] default_port = default_port
bracket_port (c ∷ rest) default_port = if has_char b':' (c ∷ []) then port_of rest else none

unfoldable pub parse_bracketed : Text → Option ℕ → Option (Text × ℕ)
parse_bracketed text default_port =
    let (before, rest) = partition b']' text in
    if has_char b']' text
    then checked (strip (drop 1 before)) (bracket_port rest default_port)
    else none

abbrev pub with_default : Text → Option ℕ → Text
with_default text none = text
with_default text (some port) = if has_char b':' text then text else text ++ (b':' ∷ decimal port)

unfoldable pub parse_plain : Text → Option (Text × ℕ)
parse_plain text =
    let (before, port) = rpartition text in
    let host = strip before in if has_char b':' host then none else checked host (port_of port)

-- A bare IPv6 address is a host alone.
abbrev pub bare : Text → Option ℕ → Option (Text × ℕ)
bare text none = none
bare text (some port) = some (text, port)

abbrev pub parse_stripped : Text → Option ℕ → Option (Text × ℕ)
parse_stripped text default_port =
    if starts_with text (codes "[")
    then parse_bracketed text default_port
    else (if is_ipv6 text
        then bare text default_port
        else parse_plain (with_default text default_port))

unfoldable pub parse_listen : Text → Option ℕ → Option (Text × ℕ)
parse_listen text default_port = parse_stripped (strip text) default_port

abbrev loopback_hosts : List Text
loopback_hosts = codes "127.0.0.1" ∷ codes "::1" ∷ codes "localhost" ∷ []

unfoldable pub require_loopback : Text → Bool
require_loopback host = contains host loopback_hosts

unfoldable pub format_listen : Text → ℕ → Text
format_listen host port =
    if has_char b':' host
    then b'[' ∷ (host ++ (b']' ∷ b':' ∷ decimal port))
    else host ++ (b':' ∷ decimal port)
