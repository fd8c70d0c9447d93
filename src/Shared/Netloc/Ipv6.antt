-- ===== src/Shared/Netloc/Ipv6.antt =====
-- Which texts `ipaddress.IPv6Address` takes, for shared/netloc.py.
use magic_ai_router.Prelude.{
  ℕ, ◌+◌, Bool, true, false, not, ◌&&◌, ◌||◌, Option, none, some, List, [], ◌∷◌, Text, codes,
  has_char, leb, nat_beq, partition, length, if◌then◌else◌,
}
use magic_ai_router.Shared.Netloc.Decimal.{digits_value, all_digits}

abbrev pub prepend : ℕ → List Text → List Text
prepend c [] = (c ∷ []) ∷ []
prepend c (part ∷ parts) = (c ∷ part) ∷ parts

-- `text.split(sep)` for one character
unfoldable pub split : ℕ → Text → List Text
split sep [] = [] ∷ []
split sep (c ∷ s) = let rest = split sep s in if nat_beq c sep then [] ∷ rest else prepend c rest

abbrev is_hex : ℕ → Bool
is_hex c = (leb b'0' c && leb c b'9') || (leb b'a' c && leb c b'f') || (leb b'A' c && leb c b'F')

abbrev all_hex : Text → Bool
all_hex [] = true
all_hex (c ∷ s) = is_hex c && all_hex s

abbrev is_hextet : Text → Bool
is_hextet s = not (nat_beq (length s) 0) && leb (length s) 4 && all_hex s

abbrev all_hextets : List Text → Bool
all_hextets [] = true
all_hextets (part ∷ parts) = is_hextet part && all_hextets parts

-- No leading zero but in "0".
abbrev is_octet : Text → Bool
is_octet [] = false
is_octet (c ∷ []) = all_digits (c ∷ [])
is_octet (c ∷ d ∷ s) =
    all_digits (c ∷ d ∷ s)
    && leb (length s) 1
    && not (nat_beq c b'0')
    && leb (digits_value 0 (c ∷ d ∷ s)) 255

abbrev all_octets : List Text → Bool
all_octets [] = true
all_octets (part ∷ parts) = is_octet part && all_octets parts

is_ipv4 : Text → Bool
unfolding split
is_ipv4 s = let parts = split b'.' s in nat_beq (length parts) 4 && all_octets parts

-- A dotted end counts as two hextets.
abbrev expanded : List Text → Option (List Text)
expanded [] = none
expanded (part ∷ []) =
    if has_char b'.' part
    then (if is_ipv4 part then some (codes "0" ∷ codes "0" ∷ []) else none)
    else some (part ∷ [])
expanded (part ∷ next ∷ parts) = elim (expanded (next ∷ parts)) [
  | none ↦ none
  | some rest ↦ some (part ∷ rest)
]

abbrev is_blank : Text → Bool
is_blank [] = true
is_blank (_ ∷ _) = false

-- The parts before the first empty one that is neither first nor last, and those behind it.
abbrev skip : List Text → Option (List Text × List Text)
skip [] = none
skip (part ∷ []) = none
skip (part ∷ next ∷ parts) =
    let later = skip (next ∷ parts) in
    if is_blank part
    then some ([], next ∷ parts)
    else (elim later [ none ↦ none | some (before, after) ↦ some (part ∷ before, after) ])

abbrev inner_skip : List Text → Option (List Text × List Text)
inner_skip [] = none
inner_skip (part ∷ parts) = elim (skip parts) [
  | none ↦ none
  | some (before, after) ↦ some (part ∷ before, after)
]

-- An empty part at an outer end is allowed only beside the skipped ones.
abbrev high : List Text → Option (List Text)
high (([]) ∷ []) = some []
high parts = if all_hextets parts then some parts else none

abbrev low : List Text → Option (List Text)
low (([]) ∷ []) = some []
low parts = if all_hextets parts then some parts else none

abbrev fits : Option (List Text) → Option (List Text) → Bool
fits (some before) (some after) = leb (length before + length after) 7
fits _ _ = false

abbrev is_address : List Text → Bool
is_address parts = elim (inner_skip parts) [
  | none ↦ nat_beq (length parts) 8 && all_hextets parts
  | some (before, after) ↦ fits (high before) (low after)
]

abbrev is_parts : Option (List Text) → Bool
is_parts none = false
is_parts (some parts) = leb (length parts) 9 && is_address parts

abbrev good_scope : Text → Bool
good_scope text =
    let (address, scope) = partition b'%' text in
    not (has_char b'%' text) || (not (is_blank scope) && not (has_char b'%' scope))

unfoldable pub is_ipv6 : Text → Bool
unfolding split is_ipv4
is_ipv6 text =
    let (address, scope) = partition b'%' text in
    let parts = split b':' address in
    not (has_char b'/' text) && good_scope text && leb 3 (length parts) && is_parts (expanded parts)
