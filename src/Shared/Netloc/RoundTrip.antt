-- ===== src/Shared/Netloc/RoundTrip.antt =====
-- shared/netloc.py: what `format_listen` writes, `parse_listen` reads.
use magic_ai_router.Prelude.{
  ℕ, suc, ◌+◌, ◌≤◌, ◌<◌, ◌≡◌, refl, sym, ap, ◌∙◌, inl, inr, true, false, ◌||◌, none, some, List, [],
  ◌∷◌, ◌++◌, Text, codes, All, has_char, is_space, strip, strip-first, strip-marked, append_assoc,
  nat_beq, nat_beq_iff, partition, starts_with, length, Bool-cases, arith,
}
use magic_ai_router.Shared.Netloc.Decimal.{
  is_digit, all_digits, decimal, decimal-value, All-decimal, decimal-last,
}
use magic_ai_router.Shared.Netloc.Ipv6.{prepend, split, is_ipv6}
use magic_ai_router.Shared.Netloc.{
  is_empty, rpartition, port_of, checked, bracket_port, parse_bracketed, parse_plain,
  parse_stripped, parse_listen, format_listen,
}

-- A character that a text does not have.
abbrev Lacks : ℕ → Text → Type 0
Lacks c s = has_char c s ≡ false

has_char-append : (c : ℕ) (s t : Text) → has_char c (s ++ t) ≡ (has_char c s || has_char c t)
unfolding has_char
has_char-append c [] t = refl
has_char-append c (x ∷ s) t = ground (arith, has_char-append c s t)

All-Lacks : (c : ℕ) (s : Text) → All (λ x. nat_beq x c ≡ false) s → Lacks c s
unfolding has_char
All-Lacks c [] h = refl
All-Lacks c (x ∷ s) h = ground (arith, h.0, All-Lacks c s h.1)

Lacks-decimal : (c n : ℕ) → is_digit c ≡ false → Lacks c (decimal n)
Lacks-decimal c n h =
    All-Lacks c (decimal n) (All-decimal (λ x. nat_beq x c ≡ false) (λ d k. ground arith) n)

All-digits : (s : Text) → All (λ x. is_digit x ≡ true) s → all_digits s ≡ true
All-digits [] h = refl
All-digits (x ∷ s) h = ground (arith, h.0, All-digits s h.1)

all_digits-decimal : (n : ℕ) → all_digits (decimal n) ≡ true
all_digits-decimal n =
    All-digits (decimal n) (All-decimal (λ x. is_digit x ≡ true) (λ d k. ground arith) n)

has-middle : (c : ℕ) (s t : Text) → has_char c (s ++ (c ∷ t)) ≡ true
unfolding has_char
has-middle c [] t = rw ((nat_beq_iff c c).1 refl) refl
has-middle c (x ∷ s) t = ground (arith, has-middle c s t)

rpartition-last : (s t : Text) → Lacks b':' t → rpartition (s ++ (b':' ∷ t)) ≡ (s, t)
unfolding rpartition has_char
rpartition-last [] t h = rw h refl
rpartition-last (x ∷ s) t h = rw (rpartition-last s t h) (rw (has-middle b':' s t) refl)

partition-first : (sep : ℕ) (s t : Text) → Lacks sep s → partition sep (s ++ (sep ∷ t)) ≡ (s, t)
unfolding partition has_char
partition-first sep [] t h = rw ((nat_beq_iff sep sep).1 refl) refl
partition-first sep (x ∷ s) t h = ground (arith, partition-first sep s t)

length-prepend :
    (c n : ℕ) (parts : List Text) → length parts ≡ suc n → length (prepend c parts) ≡ suc n
length-prepend c n [] h = absurd (omega arith)
length-prepend c n (part ∷ parts) h = h

split-whole : (t : Text) → Lacks b':' t → length (split b':' t) ≡ 1
unfolding split has_char
split-whole [] h = refl
split-whole (x ∷ t) h = ground (arith, split-whole t, length-prepend x 0 (split b':' t))

split-two : (s t : Text) → Lacks b':' s → Lacks b':' t → length (split b':' (s ++ (b':' ∷ t))) ≡ 2
unfolding split has_char
split-two [] t h k = ap suc (split-whole t k)
split-two (x ∷ s) t h k =
    ground (arith, split-two s t, length-prepend x 1 (split b':' (s ++ (b':' ∷ t))))

split-some : (s : Text) → 1 ≤ length (split b':' s)
unfolding split
split-some [] = omega arith
split-some (x ∷ s) = elim (Bool-cases (nat_beq x b':')) [
  | inl same ↦ rw same (omega arith)
  | inr other ↦ rw other (prepend-some x (split b':' s))
]
  where
    prepend-some : (c : ℕ) (parts : List Text) → 1 ≤ length (prepend c parts)
    prepend-some c [] = omega arith
    prepend-some c (part ∷ parts) = omega arith

prepend_mono :
    (c : ℕ) (ps qs : List Text)
    → 1 ≤ length qs
    → length ps ≤ length qs
    → length (prepend c ps) ≤ length (prepend c qs)
prepend_mono c [] [] h k = omega arith
prepend_mono c [] (q ∷ qs) h k = omega arith
prepend_mono c (p ∷ ps) [] h k = absurd (omega arith)
prepend_mono c (p ∷ ps) (q ∷ qs) h k = k

-- What stands before a separator has no more parts.
split-partition :
    (sep : ℕ) (s : Text) → length (split b':' (partition sep s).0) ≤ length (split b':' s)
unfolding split partition
split-partition sep [] = omega arith
split-partition sep (x ∷ s) = elim (Bool-cases (nat_beq x sep)) [
  | inl cut ↦ rw cut (split-some (x ∷ s))
  | inr on ↦ rw on (elim (Bool-cases (nat_beq x b':')) [
    | inl same ↦ rw same (let rest = split-partition sep s in omega arith)
    | inr other ↦ rw other (
        prepend_mono x (split b':' (partition sep s).0) (split b':' s) (split-some s)
          (split-partition sep s))
  ])
]

few-is_ipv6 : (s : Text) → length (split b':' s) ≤ 2 → is_ipv6 s ≡ false
unfolding is_ipv6
few-is_ipv6 s h = ground (arith, split-partition b'%' s)

port_of-decimal : (n : ℕ) → port_of (decimal n) ≡ some n
port_of-decimal n =
    let (s, d, below, e) = decimal-last n in
    rw (nonempty s (d + b'0') (decimal n) e) (rw (all_digits-decimal n) (rw (decimal-value n) refl))
  where
    nonempty : (s : Text) (c : ℕ) (t : Text) → t ≡ s ++ c ∷ [] → is_empty t ≡ false
    nonempty [] c t e = rw e refl
    nonempty (x ∷ s) c t e = rw e refl

digit-mark : (d : ℕ) → d < 10 → is_space (d + b'0') ≡ false
unfolding is_space
digit-mark d h = ground arith

-- A text that ends with a number, and begins with no blank.
strip-numbered :
    (c : ℕ) (s : Text) (n : ℕ)
    → is_space c ≡ false
    → strip ((c ∷ s) ++ decimal n) ≡ (c ∷ s) ++ decimal n
strip-numbered c s n h =
    let (t, d, below, e) = decimal-last n in
    let same : (c ∷ s) ++ decimal n ≡ (c ∷ (s ++ t)) ++ (d + b'0') ∷ [] =
      ap (λ u. (c ∷ s) ++ u) e ∙ append_assoc (c ∷ s) t ((d + b'0') ∷ []) in
    ap strip same ∙ strip-marked c (s ++ t) (d + b'0') h (digit-mark d below) ∙ sym same

checked-range :
    (c : ℕ) (host : Text) (port : ℕ)
    → 1 ≤ port
    → port ≤ 65535
    → checked (c ∷ host) (some port) ≡ some (c ∷ host, port)
checked-range c host port low high = ground arith

parse_stripped-plain :
    (text : Text)
    → starts_with text (codes "[") ≡ false
    → is_ipv6 text ≡ false
    → parse_stripped text none ≡ parse_plain text
parse_stripped-plain text h k = rw (h, parse_stripped) (rw k refl)

starts-plain : (c : ℕ) (s : Text) → nat_beq c b'[' ≡ false → starts_with (c ∷ s) (codes "[") ≡ false
unfolding starts_with
starts-plain c s h = rw h refl

Lacks-cons : (c : ℕ) (s : Text) → Lacks b']' s → Lacks b']' (b'[' ∷ s)
unfolding has_char
Lacks-cons c s h = h

parse_stripped-bracketed :
    (t : Text) → parse_stripped (b'[' ∷ t) none ≡ parse_bracketed (b'[' ∷ t) none
unfolding starts_with
parse_stripped-bracketed t = refl

-- What stands before the number belongs to the front.
strip-front :
    (c : ℕ) (s m digits : Text)
    → strip ((c ∷ (s ++ m)) ++ digits) ≡ (c ∷ (s ++ m)) ++ digits
    → strip ((c ∷ s) ++ (m ++ digits)) ≡ (c ∷ s) ++ (m ++ digits)
strip-front c s m digits e =
    let same : (c ∷ s) ++ (m ++ digits) ≡ (c ∷ (s ++ m)) ++ digits =
      append_assoc (c ∷ s) m digits in
    ap strip same ∙ e ∙ sym same

bracket-mark : is_space b'[' ≡ false
unfolding is_space
bracket-mark = refl

colon-port : (port : ℕ) → bracket_port (b':' ∷ decimal port) none ≡ some port
unfolding has_char
colon-port port = port_of-decimal port

module _ (c : ℕ) (s : Text) (port : ℕ) (low : 1 ≤ port) (high : port ≤ 65535) where
  parse_plain-numbered :
      strip (c ∷ s) ≡ c ∷ s
      → Lacks b':' (c ∷ s)
      → parse_plain ((c ∷ s) ++ (b':' ∷ decimal port)) ≡ some (c ∷ s, port)
  unfolding parse_plain
  parse_plain-numbered trimmed no_colon =
      rw (rpartition-last (c ∷ s) (decimal port) (Lacks-decimal b':' port refl))
        (rw trimmed (rw no_colon (rw (port_of-decimal port) (checked-range c s port low high))))

  parse-plain :
      strip (c ∷ s) ≡ c ∷ s
      → Lacks b':' (c ∷ s)
      → nat_beq c b'[' ≡ false
      → parse_listen ((c ∷ s) ++ (b':' ∷ decimal port)) none ≡ some (c ∷ s, port)
  unfolding parse_listen
  parse-plain trimmed no_colon no_bracket =
      ap (λ t. parse_stripped t none)
        (strip-front c s (b':' ∷ []) (decimal port)
          (strip-numbered c (s ++ b':' ∷ []) port (strip-first c s trimmed)))
      ∙ parse_stripped-plain ((c ∷ s) ++ (b':' ∷ decimal port))
          (starts-plain c (s ++ (b':' ∷ decimal port)) no_bracket)
          (few-is_ipv6 ((c ∷ s) ++ (b':' ∷ decimal port)) (
            omega
              (arith, split-two (c ∷ s) (decimal port) no_colon (Lacks-decimal b':' port refl))))
      ∙ parse_plain-numbered trimmed no_colon

  parse_bracketed-numbered :
      strip (c ∷ s) ≡ c ∷ s
      → Lacks b']' (c ∷ s)
      → parse_bracketed (b'[' ∷ ((c ∷ s) ++ (b']' ∷ b':' ∷ decimal port))) none ≡ some (c ∷ s, port)
  unfolding parse_bracketed
  parse_bracketed-numbered trimmed no_end =
      rw
        (partition-first b']' (b'[' ∷ c ∷ s) (b':' ∷ decimal port) (Lacks-cons b'[' (c ∷ s) no_end))
        (rw (has-middle b']' (b'[' ∷ c ∷ s) (b':' ∷ decimal port))
          (rw trimmed (rw (colon-port port) (checked-range c s port low high))))

  parse-bracketed :
      strip (c ∷ s) ≡ c ∷ s
      → Lacks b']' (c ∷ s)
      → parse_listen (b'[' ∷ ((c ∷ s) ++ (b']' ∷ b':' ∷ decimal port))) none ≡ some (c ∷ s, port)
  unfolding parse_listen
  parse-bracketed trimmed no_end =
      ap (λ t. parse_stripped t none)
        (strip-front b'[' (c ∷ s) (b']' ∷ b':' ∷ []) (decimal port)
          (strip-numbered b'[' ((c ∷ s) ++ (b']' ∷ b':' ∷ [])) port bracket-mark))
      ∙ parse_stripped-bracketed ((c ∷ s) ++ (b']' ∷ b':' ∷ decimal port))
      ∙ parse_bracketed-numbered trimmed no_end

  pub parse_listen-format_listen :
      strip (c ∷ s) ≡ c ∷ s
      → has_char b']' (c ∷ s) ≡ false
      → nat_beq c b'[' ≡ false
      → parse_listen (format_listen (c ∷ s) port) none ≡ some (c ∷ s, port)
  unfolding format_listen
  parse_listen-format_listen trimmed no_end no_bracket = elim (Bool-cases (has_char b':' (c ∷ s))) [
    | inl colon ↦ rw colon (parse-bracketed trimmed no_end)
    | inr none_ ↦ rw none_ (parse-plain trimmed none_ no_bracket)
  ]
