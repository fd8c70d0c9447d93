-- ===== src/Tunnel/Framer/Heads.antt =====
-- `read_head` of tunnel/http_framer.py takes the bytes of the head, and no more than its limit.
use magic_ai_router.Prelude.{
  ℕ, zero, suc, ◌+◌, ◌≤◌, ◌<◌, ◌≡◌, ◌||◌, refl, ap, ◌∙◌, sym, true, some, List, [], ◌∷◌, ◌++◌, Text,
  codes, ltb, nat_beq, length, take, drop, append_assoc, length-append, take-append-drop, arith,
  inl, inr, Bool-cases, text_key, ◌==◌,
}
use magic_ai_router.Tunnel.Framer.Stream.{line_length}
use magic_ai_router.Tunnel.Framer.{
  Head, no_message, over_limit, mid_headers, out_of_fuel, head, with_header, read_headers,
  read_head,
}

abbrev pub joined : List Text → Text
joined [] = []
joined (line ∷ lines) = line ++ joined lines

-- The header lines, a blank one and the rest make up the bytes; all lines together keep the limit.
pub record IsHead (max_bytes total : ℕ) (headers : List Text) (left rest : Text) : Type 0 where
  pub blank : Text
  pub is_blank : (blank == codes "\r\n" || blank == codes "\n") ≡ true
  pub parts : joined headers ++ (blank ++ rest) ≡ left
  pub within : total + length (joined headers ++ blank) ≤ max_bytes

abbrev Reads : ℕ → ℕ → Text → Text → Head × Text → Type 0
Reads max_bytes total start left (head s headers, rest) =
    (s ≡ start) × IsHead max_bytes total headers left rest
Reads max_bytes total start left (out_of_fuel, rest) = ⊥
Reads max_bytes total start left (_, rest) = Unit

Reads-with_header :
    (max_bytes total : ℕ) (start left line next : Text) (r : Head × Text)
    → line ++ next ≡ left
    → Reads max_bytes (total + length line) start next r
    → Reads max_bytes total start left (with_header line r)
Reads-with_header max_bytes total start left line next (no_message, rest) h k = tt
Reads-with_header max_bytes total start left line next (over_limit, rest) h k = tt
Reads-with_header max_bytes total start left line next (mid_headers, rest) h k = tt
Reads-with_header max_bytes total start left line next (out_of_fuel, rest) h k = k
Reads-with_header max_bytes total start left line next (head s headers, rest) h k =
    let got = k.1 in
    (
      k.0,
      record {
        blank = got.blank;
        is_blank = got.is_blank;
        parts =
            sym (append_assoc line (joined headers) (got.blank ++ rest))
            ∙ ap (λ x. line ++ x) got.parts
            ∙ h;
        within =
            let bound = got.within in
            let outer = length-append (line ++ joined headers) got.blank in
            let inner = length-append line (joined headers) in
            let tail = length-append (joined headers) got.blank in omega arith;
      },
    )

read_headers-Reads :
    (fuel max_bytes total : ℕ) (start left : Text)
    → 0 < fuel
    → max_bytes + 1 < total + fuel
    → Reads max_bytes total start left (read_headers fuel max_bytes total start left)
unfolding read_headers
read_headers-Reads zero max_bytes total start left f h = ground arith
read_headers-Reads (suc fuel) max_bytes total start left f h =
    let line = take (line_length left) left in
    let rest = drop (line_length left) left in
    let parts = take-append-drop (line_length left) left in
    elim (Bool-cases (ltb max_bytes (total + length line))) [
      | inl over ↦ rw over tt
      | inr within ↦ elim (Bool-cases (nat_beq (length line) 0)) [
        | inl ended ↦ rw (within, ended) tt
        | inr more ↦ elim (Bool-cases (line == codes "\r\n" || line == codes "\n")) [
          | inl blank ↦
              rw (within, more, blank)
                (
                  refl,
                  record { blank = line; is_blank = blank; parts = parts; within = ground arith },
                )
          | inr field ↦
              rw (within, more, field)
                (Reads-with_header max_bytes total start left line rest _ parts (
                  read_headers-Reads fuel max_bytes (total + length line) start rest (ground arith)
                    (ground arith)))
        ]
      ]
    ]

abbrev pub Starts : ℕ → Text → Text → Head × Text → Type 0
Starts max_bytes start left (head s headers, rest) =
    (s ≡ start) × IsHead max_bytes (length start) headers left rest
Starts max_bytes start left (out_of_fuel, rest) = ⊥
Starts max_bytes start left (_, rest) = Unit

Starts-of_Reads :
    (max_bytes : ℕ) (start left : Text) (r : Head × Text)
    → Reads max_bytes (length start) start left r
    → Starts max_bytes start left r
Starts-of_Reads max_bytes start left (head s headers, rest) h = h
Starts-of_Reads max_bytes start left (no_message, rest) h = tt
Starts-of_Reads max_bytes start left (over_limit, rest) h = tt
Starts-of_Reads max_bytes start left (mid_headers, rest) h = tt
Starts-of_Reads max_bytes start left (out_of_fuel, rest) h = h

-- Behind a start line that is given, a head that is read is made of whole lines up to the first
-- blank one, what is left is what stands behind it, and all its lines keep the limit; and the fuel
-- is enough.
pub read_head-Starts :
    (start : Text) (max_bytes : ℕ) (left : Text)
    → Starts max_bytes start left (read_head (some start) max_bytes left)
unfolding read_head
read_head-Starts start max_bytes left = elim (Bool-cases (nat_beq (length start) 0)) [
  | inl none_ ↦ rw none_ tt
  | inr some_ ↦ rw some_ (
      Starts-of_Reads max_bytes start left _ (
        read_headers-Reads (max_bytes + 2) max_bytes (length start) start left (omega arith)
          (ground arith)))
]
