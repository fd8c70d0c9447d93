-- ===== src/Tunnel/Framer/Fixed.antt =====
-- `relay_fixed` of tunnel/http_framer.py copies exactly the announced bytes, however they arrive.
use magic_ai_router.Prelude.{
  ℕ, zero, suc, ◌+◌, ◌-◌, ◌≤◌, ◌<◌, ◌≡◌, min, refl, ap, ◌∙◌, sym, ◌≢◌, List, [], ◌∷◌, ◌++◌, leb,
  nat_beq, nat_beq_iff, length, take, drop, take-nil, drop-nil, subst, length-take, length-drop,
  arith, inl, inr, Bool-cases, if◌then◌else◌, append-nil_right,
}
use magic_ai_router.Json.{pos}
use magic_ai_router.Tunnel.Framer.Stream.{Pipe, amount, later, move, IsMoved, IsMoved-trans}
use magic_ai_router.Tunnel.Framer.{Relay, relayed, truncated, chunk_size, relay_for, relay_fixed}

abbrev round : ℕ → Pipe → ℕ
round remaining p = length (take (amount (min chunk_size remaining) p) p.left)

-- The pipe behind one read.
abbrev step : ℕ → Pipe → Pipe
step remaining p = record (move (round remaining p) p) { grain = later p.grain }

amount-le : (n : ℕ) (p : Pipe) → n ≢ 0 → (amount n p ≤ n) × (amount n p ≢ 0)
amount-le n p h = go p.grain
  where
    go :
        (gs : List ℕ)
        → ((elim gs [ [] ↦ n | g ∷ _ ↦ min n (g + 1) ]) ≤ n)
          × ((elim gs [ [] ↦ n | g ∷ _ ↦ min n (g + 1) ]) ≢ 0)
    go [] = (omega arith, h)
    go (g ∷ gs) = (omega arith, omega arith)

round-le :
    (n : ℕ) (p : Pipe)
    → n ≢ 0
    → (round n p ≤ n) × (round n p ≤ length p.left) × (round n p ≡ 0 → length p.left ≡ 0)
round-le n p h =
    let size = amount-le (min chunk_size n) p (omega arith) in
    let full = length-take (amount (min chunk_size n) p) p.left in
    let le = size.0 in let pos_ = size.1 in (omega arith, omega arith, λ none_. omega arith)

-- What a copy of `n` bytes comes to: the next `n` bytes, or all that there are.
pub record IsCopied (n : ℕ) (p : Pipe) (r : Relay × Pipe) : Type 0 where
  pub outcome : r.0 ≡ (if leb n (length p.left) then relayed else truncated)
  pub moved : IsMoved n p r.1

nothing_left : (xs : List ℕ) → length xs ≡ 0 → xs ≡ []
nothing_left [] h = refl
nothing_left (x ∷ xs) h = ground arith

IsMoved-empty : (n : ℕ) (p : Pipe) → length p.left ≡ 0 → IsMoved n p p
IsMoved-empty n p h =
    let empty = nothing_left p.left h in
    record {
      left_is = empty ∙ sym (drop-nil n) ∙ ap (drop n) (sym empty);
      written_is =
          sym (append-nil_right p.written)
          ∙ ap (λ s. p.written ++ s) (sym (take-nil n) ∙ ap (take n) (sym empty));
    }

IsMoved-zero : (n : ℕ) (p : Pipe) → n ≡ 0 → IsMoved n p p
IsMoved-zero n p h = rw h (record { left_is = refl; written_is = sym (append-nil_right p.written) })

leb-drop :
    (n k : ℕ) (xs : List ℕ)
    → k ≤ n
    → k ≤ length xs
    → leb (n - k) (length (drop k xs)) ≡ leb n (length xs)
leb-drop n k xs h g = let rest = length-drop k xs in ground arith

IsCopied-later :
    (n k : ℕ) (p q : Pipe) (r : Relay × Pipe)
    → k ≤ n
    → k ≤ length p.left
    → IsMoved k p q
    → IsCopied (n - k) q r
    → IsCopied n p r
IsCopied-later n k p q r le room h c = record {
  outcome =
      c.outcome
      ∙ ap (λ s. if leb (n - k) (length s) then relayed else truncated) h.left_is
      ∙ ap (λ b. if b then relayed else truncated) (leb-drop n k p.left le room);
  moved = subst (λ m. IsMoved m p r.1) (omega arith) (IsMoved-trans k (n - k) p q r.1 h c.moved);
}

relay_for-IsCopied : (fuel n : ℕ) (p : Pipe) → n < fuel → IsCopied n p (relay_for fuel n p)
unfolding relay_for
relay_for-IsCopied zero n p h = ground arith
relay_for-IsCopied (suc fuel) n p h = elim (Bool-cases (nat_beq n 0)) [
  | inl done ↦
      rw done
        (record { outcome = ground arith; moved = IsMoved-zero n p ((nat_beq_iff n 0).0 done) })
  | inr open_ ↦
      let fact = round-le n p (ground arith) in
      let le = fact.0 in
      elim (Bool-cases (nat_beq (round n p) 0)) [
        | inl ended ↦
            let empty = fact.2 ((nat_beq_iff (round n p) 0).0 ended) in
            rw (open_, ended) (record { outcome = ground arith; moved = IsMoved-empty n p empty })
        | inr more ↦
            rw (open_, more)
              (IsCopied-later n (round n p) p (step n p) _ fact.0 fact.1
                (record { left_is = refl; written_is = refl })
                (relay_for-IsCopied fuel (n - round n p) (step n p) (ground arith)))
      ]
]

-- Of an announced length the next bytes are copied, that many or all there are, in their order and
-- with nothing of the next message; the copy fails exactly when there are fewer.
pub relay_fixed-IsCopied : (n : ℕ) (p : Pipe) → IsCopied n p (relay_fixed (pos n) p)
unfolding relay_fixed
relay_fixed-IsCopied n p = relay_for-IsCopied (n + 1) n p (omega arith)
