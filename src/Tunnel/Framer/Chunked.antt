-- ===== src/Tunnel/Framer/Chunked.antt =====
-- `relay_chunked` of tunnel/http_framer.py: it ends, it loses and invents no byte, and how the
-- bytes arrive does not matter.
use magic_ai_router.Prelude.{
  ℕ, zero, suc, ◌+◌, ◌-◌, ◌≤◌, ◌<◌, ◌≡◌, ◌≢◌, ◌||◌, refl, ap, ◌∙◌, sym, subst, Bool, true, false,
  Option, none, some, List, [], ◌∷◌, ◌++◌, codes, text_key, ◌==◌, nat_beq, length, take,
  length-take, length-drop, arith, inl, inr, Bool-cases, if◌then◌else◌, append-nil_right, Text,
}
use magic_ai_router.Json.{ℤ, pos, negsuc}
use magic_ai_router.Tunnel.Framer.Stream.{
  Pipe, line_length, move, IsMoved, IsMoved-move, IsMoved-trans, IsMoved-conserved,
}
use magic_ai_router.Tunnel.Framer.{
  Relay, relayed, truncated, stuck, relay_fixed, relay_trailer, relay_crlf, on_relayed, relay_chunk,
  relay_chunks, relay_chunked, chunk_head,
}
use magic_ai_router.Tunnel.Framer.Fixed.{relay_fixed-IsCopied}

-- The result of a copy that has ended and has moved some bytes from the one end to the other.
pub record IsFaithful (p : Pipe) (r : Relay × Pipe) : Type 0 where
  pub ended : r.0 ≢ stuck
  pub count : ℕ
  pub moved : IsMoved count p r.1

IsMoved-none : (p : Pipe) → IsMoved 0 p p
IsMoved-none p = record { left_is = refl; written_is = sym (append-nil_right p.written) }

IsFaithful-here : (p : Pipe) → IsFaithful p (truncated, p)
IsFaithful-here p = record { ended = λ e. cc; count = 0; moved = IsMoved-none p }

IsFaithful-line : (n : ℕ) (p : Pipe) → IsFaithful p (relayed, move n p)
IsFaithful-line n p = record { ended = λ e. cc; count = n; moved = IsMoved-move n p }

IsFaithful-later :
    (n : ℕ) (p q : Pipe) (r : Relay × Pipe) → IsMoved n p q → IsFaithful q r → IsFaithful p r
IsFaithful-later n p q r h f = record {
  ended = f.ended;
  count = n + f.count;
  moved = IsMoved-trans n f.count p q r.1 h f.moved;
}

line_length-le : (s : Text) → line_length s ≤ length s
unfolding line_length
line_length-le [] = omega arith
line_length-le (c ∷ s) = ground (arith, line_length-le s)

length-line : (p : Pipe) → length (take (line_length p.left) p.left) ≡ line_length p.left
length-line p =
    let le = line_length-le p.left in
    let all = length-take (line_length p.left) p.left in omega arith

-- Behind a line there is less than before.
left-move :
    (p : Pipe) → length (move (line_length p.left) p).left ≡ length p.left - line_length p.left
left-move p = length-drop (line_length p.left) p.left

relay_trailer-IsFaithful :
    (fuel : ℕ) (p : Pipe) → length p.left < fuel → IsFaithful p (relay_trailer fuel p)
unfolding relay_trailer
relay_trailer-IsFaithful zero p h = ground arith
relay_trailer-IsFaithful (suc fuel) p h =
    let line = take (line_length p.left) p.left in
    let size = length-line p in
    let shorter = left-move p in
    let le = line_length-le p.left in
    elim (Bool-cases (nat_beq (length line) 0)) [
      | inl ended ↦ rw ended (IsFaithful-here p)
      | inr more ↦ elim (Bool-cases (line == codes "\r\n" || line == codes "\n")) [
        | inl blank ↦ rw (more, blank) (IsFaithful-line (line_length p.left) p)
        | inr field ↦
            rw (more, field)
              (IsFaithful-later (line_length p.left) p _ _ (IsMoved-move (line_length p.left) p)
                (relay_trailer-IsFaithful fuel (move (line_length p.left) p) (ground arith)))
      ]
    ]

relay_crlf-IsFaithful : (p : Pipe) (r : Relay × Pipe) → IsFaithful p r → IsFaithful p (relay_crlf r)
relay_crlf-IsFaithful p (relayed, q) f = elim (Bool-cases (nat_beq (line_length q.left) 0)) [
  | inl ended ↦ rw ended (record { ended = λ e. cc; count = f.count; moved = f.moved })
  | inr more ↦
      rw more (IsFaithful-later f.count p q _ f.moved (IsFaithful-line (line_length q.left) q))
]
relay_crlf-IsFaithful p (truncated, q) f = f
relay_crlf-IsFaithful p (stuck, q) f = f

IsMoved-le : (n : ℕ) (p q : Pipe) → IsMoved n p q → length q.left ≤ length p.left
IsMoved-le n p q h =
    let rest = length-drop n p.left in let same = ap length h.left_is in omega arith

on_relayed-IsFaithful :
    (next : Pipe → Relay × Pipe) (p : Pipe) (r : Relay × Pipe)
    → IsFaithful p r
    → ((q : Pipe) → length q.left ≤ length p.left → IsFaithful q (next q))
    → IsFaithful p (on_relayed next r)
on_relayed-IsFaithful next p (relayed, q) f h =
    IsFaithful-later f.count p q _ f.moved (h q (IsMoved-le f.count p q f.moved))
on_relayed-IsFaithful next p (truncated, q) f h = f
on_relayed-IsFaithful next p (stuck, q) f h = f

copied-ne-stuck : (b : Bool) → (if b then relayed else truncated) ≢ stuck
copied-ne-stuck true e = cc
copied-ne-stuck false e = cc

relay_fixed-IsFaithful : (n : ℤ) (p : Pipe) → IsFaithful p (relay_fixed n p)
unfolding relay_fixed
relay_fixed-IsFaithful (negsuc n) p = record { ended = λ e. cc; count = 0; moved = IsMoved-none p }
relay_fixed-IsFaithful (pos n) p =
    let copied = relay_fixed-IsCopied n p in
    record {
      ended = λ e. copied-ne-stuck _ (sym copied.outcome ∙ e);
      count = n;
      moved = copied.moved;
    }

relay_chunk-IsFaithful :
    (next : Pipe → Relay × Pipe) (size : Option ℤ) (p : Pipe)
    → ((q : Pipe) → length q.left ≤ length p.left → IsFaithful q (next q))
    → IsFaithful p (relay_chunk next size p)
relay_chunk-IsFaithful next none p h = IsFaithful-here p
relay_chunk-IsFaithful next (some (pos zero)) p h =
    relay_trailer-IsFaithful (length p.left + 1) p (omega arith)
relay_chunk-IsFaithful next (some (pos (suc n))) p h =
    on_relayed-IsFaithful next p _
      (relay_crlf-IsFaithful p _ (relay_fixed-IsFaithful (pos (suc n)) p)) h
relay_chunk-IsFaithful next (some (negsuc n)) p h =
    on_relayed-IsFaithful next p _ (relay_crlf-IsFaithful p _ (relay_fixed-IsFaithful (negsuc n) p))
      h

relay_chunks-IsFaithful :
    (fuel : ℕ) (p : Pipe) → length p.left < fuel → IsFaithful p (relay_chunks fuel p)
unfolding relay_chunks
relay_chunks-IsFaithful zero p h = ground arith
relay_chunks-IsFaithful (suc fuel) p h =
    let line = take (line_length p.left) p.left in
    let size = length-line p in
    let shorter = left-move p in
    let le = line_length-le p.left in
    elim (Bool-cases (nat_beq (length line) 0)) [
      | inl ended ↦ rw ended (IsFaithful-here p)
      | inr more ↦ rw more (
          IsFaithful-later (line_length p.left) p _ _ (IsMoved-move (line_length p.left) p) (
            relay_chunk-IsFaithful (relay_chunks fuel) (chunk_head line)
              (move (line_length p.left) p)
              (λ q fits. relay_chunks-IsFaithful fuel q (ground arith))))
    ]

-- The copy of a chunked body ends, and whatever its outcome the bytes that are written and those
-- that are left are, in their order, the bytes that were there.
pub relay_chunked-conserved :
    (p : Pipe)
    → ((relay_chunked p).0 ≢ stuck)
      × ((relay_chunked p).1.written ++ (relay_chunked p).1.left ≡ p.written ++ p.left)
unfolding relay_chunked
relay_chunked-conserved p =
    let f = relay_chunks-IsFaithful (length p.left + 1) p (omega arith) in
    (f.ended, IsMoved-conserved f.count p _ f.moved)

-- Two pipes that differ at most in how their bytes arrive.
record IsAlike (p q : Pipe) : Type 0 where
  same_left : p.left ≡ q.left
  same_written : p.written ≡ q.written

pub record IsSame (r t : Relay × Pipe) : Type 0 where
  pub outcome : r.0 ≡ t.0
  pub left : r.1.left ≡ t.1.left
  pub written : r.1.written ≡ t.1.written

abbrev pub arriving : List ℕ → Pipe → Pipe
arriving grain p = record p { grain = grain }

alike_is : (p q : Pipe) → IsAlike p q → p ≡ arriving p.grain q
alike_is p q h =
    ap (λ s. record p { left = s }) h.same_left
    ∙ ap (λ s. record p { left = q.left; written = s }) h.same_written

relay_fixed-IsAlike :
    (n : ℤ) (grain : List ℕ) (p : Pipe)
    → IsSame (relay_fixed n (arriving grain p)) (relay_fixed n p)
unfolding relay_fixed
relay_fixed-IsAlike (negsuc n) grain p = record { outcome = refl; left = refl; written = refl }
relay_fixed-IsAlike (pos n) grain p =
    let a = relay_fixed-IsCopied n (arriving grain p) in
    let b = relay_fixed-IsCopied n p in
    record {
      outcome = a.outcome ∙ sym b.outcome;
      left = a.moved.left_is ∙ sym b.moved.left_is;
      written = a.moved.written_is ∙ sym b.moved.written_is;
    }

relay_trailer-IsSame :
    (fuel : ℕ) (grain : List ℕ) (p : Pipe)
    → IsSame (relay_trailer fuel (arriving grain p)) (relay_trailer fuel p)
unfolding relay_trailer
relay_trailer-IsSame zero grain p = record { outcome = refl; left = refl; written = refl }
relay_trailer-IsSame (suc fuel) grain p =
    let line = take (line_length p.left) p.left in
    elim (Bool-cases (nat_beq (length line) 0)) [
      | inl ended ↦ rw ended (record { outcome = refl; left = refl; written = refl })
      | inr more ↦ elim (Bool-cases (line == codes "\r\n" || line == codes "\n")) [
        | inl blank ↦ rw (more, blank) (record { outcome = refl; left = refl; written = refl })
        | inr field ↦
            rw (more, field) (relay_trailer-IsSame fuel grain (move (line_length p.left) p))
      ]
    ]

-- What does not depend on how the bytes arrive does not for any two equal results.
IsSame-then :
    (f : Relay × Pipe → Relay × Pipe) (r t : Relay × Pipe)
    → ((o : Relay) (grain : List ℕ) (p : Pipe) → IsSame (f (o, arriving grain p)) (f (o, p)))
    → IsSame r t
    → IsSame (f r) (f t)
IsSame-then f r t h k =
    let alike = alike_is r.1 t.1 (record { same_left = k.left; same_written = k.written }) in
    let r_is : r ≡ (t.0, arriving r.1.grain t.1) =
      ap (λ o. (o, r.1)) k.outcome ∙ ap (λ p. (t.0, p)) alike in
    subst (λ x. IsSame (f x) (f t)) (sym r_is) (h t.0 r.1.grain t.1)

relay_crlf-IsSame :
    (o : Relay) (grain : List ℕ) (p : Pipe)
    → IsSame (relay_crlf (o, arriving grain p)) (relay_crlf (o, p))
relay_crlf-IsSame relayed grain p = elim (Bool-cases (nat_beq (line_length p.left) 0)) [
  | inl ended ↦ rw ended (record { outcome = refl; left = refl; written = refl })
  | inr more ↦ rw more (record { outcome = refl; left = refl; written = refl })
]
relay_crlf-IsSame truncated grain p = record { outcome = refl; left = refl; written = refl }
relay_crlf-IsSame stuck grain p = record { outcome = refl; left = refl; written = refl }

on_relayed-IsSame :
    (next : Pipe → Relay × Pipe)
    → ((grain : List ℕ) (p : Pipe) → IsSame (next (arriving grain p)) (next p))
    → (o : Relay) (grain : List ℕ) (p : Pipe)
    → IsSame (on_relayed next (o, arriving grain p)) (on_relayed next (o, p))
on_relayed-IsSame next h relayed grain p = h grain p
on_relayed-IsSame next h truncated grain p = record { outcome = refl; left = refl; written = refl }
on_relayed-IsSame next h stuck grain p = record { outcome = refl; left = refl; written = refl }

data_chunk-IsSame :
    (next : Pipe → Relay × Pipe) (n : ℤ) (grain : List ℕ) (p : Pipe)
    → ((grain : List ℕ) (p : Pipe) → IsSame (next (arriving grain p)) (next p))
    → IsSame
        (on_relayed next (relay_crlf (relay_fixed n (arriving grain p))))
        (on_relayed next (relay_crlf (relay_fixed n p)))
data_chunk-IsSame next n grain p h =
    IsSame-then (on_relayed next) _ _ (on_relayed-IsSame next h)
      (IsSame-then relay_crlf _ _ relay_crlf-IsSame (relay_fixed-IsAlike n grain p))

relay_chunk-IsSame :
    (next : Pipe → Relay × Pipe) (size : Option ℤ) (grain : List ℕ) (p : Pipe)
    → ((grain : List ℕ) (p : Pipe) → IsSame (next (arriving grain p)) (next p))
    → IsSame (relay_chunk next size (arriving grain p)) (relay_chunk next size p)
relay_chunk-IsSame next none grain p h = record { outcome = refl; left = refl; written = refl }
relay_chunk-IsSame next (some (pos zero)) grain p h =
    relay_trailer-IsSame (length p.left + 1) grain p
relay_chunk-IsSame next (some (pos (suc n))) grain p h =
    data_chunk-IsSame next (pos (suc n)) grain p h
relay_chunk-IsSame next (some (negsuc n)) grain p h = data_chunk-IsSame next (negsuc n) grain p h

relay_chunks-IsSame :
    (fuel : ℕ) (grain : List ℕ) (p : Pipe)
    → IsSame (relay_chunks fuel (arriving grain p)) (relay_chunks fuel p)
unfolding relay_chunks
relay_chunks-IsSame zero grain p = record { outcome = refl; left = refl; written = refl }
relay_chunks-IsSame (suc fuel) grain p =
    let line = take (line_length p.left) p.left in
    elim (Bool-cases (nat_beq (length line) 0)) [
      | inl ended ↦ rw ended (record { outcome = refl; left = refl; written = refl })
      | inr more ↦ rw more (
          relay_chunk-IsSame (relay_chunks fuel) (chunk_head line) grain
            (move (line_length p.left) p) (relay_chunks-IsSame fuel))
    ]

-- However the bytes of a chunked body arrive, the copy has the same outcome, writes the same bytes
-- and leaves the same ones for the next message.
pub relay_chunked-IsSame :
    (grain : List ℕ) (p : Pipe) → IsSame (relay_chunked (arriving grain p)) (relay_chunked p)
unfolding relay_chunked
relay_chunked-IsSame grain p = relay_chunks-IsSame (length p.left + 1) grain p
