-- ===== src/Tunnel/Framer/Stream.antt =====
-- The two ends of a copy in tunnel/http_framer.py: what a `StreamReader` will still deliver, and
-- what was written. How much of it one `read` finds is an input.
use magic_ai_router.Prelude.{
  ℕ, suc, ◌+◌, ◌≡◌, min, refl, List, [], ◌∷◌, ◌++◌, ap, ◌∙◌, sym, Text, nat_beq, append_assoc, take,
  drop, drop-drop, take-drop, take-append-drop, if◌then◌else◌,
}

-- `grain` is, for each read to come, one less than the bytes that have arrived; past its end all
-- have.
pub record Pipe : Type 0 where
  pub left : Text
  pub grain : List ℕ
  pub written : Text

-- How many bytes `read(n)` asks of those that are left.
abbrev pub amount : ℕ → Pipe → ℕ
amount n p = elim p.grain [ [] ↦ n | g ∷ _ ↦ min n (g + 1) ]

-- The grain after a read.
abbrev pub later : List ℕ → List ℕ
later [] = []
later (_ ∷ gs) = gs

-- The next `n` bytes are read and written.
abbrev pub move : ℕ → Pipe → Pipe
move n p = record p { left = drop n p.left; written = p.written ++ take n p.left }

-- `readline`: the bytes up to and with the first line feed, or all.
unfoldable pub line_length : Text → ℕ
line_length [] = 0
line_length (c ∷ s) = let rest = line_length s in if nat_beq c 10 then 1 else suc rest

-- From a pipe to another by `n` bytes.
pub record IsMoved (n : ℕ) (p q : Pipe) : Type 0 where
  pub left_is : q.left ≡ drop n p.left
  pub written_is : q.written ≡ p.written ++ take n p.left

pub IsMoved-move : (n : ℕ) (p : Pipe) → IsMoved n p (move n p)
IsMoved-move n p = record { left_is = refl; written_is = refl }

pub IsMoved-trans : (m n : ℕ) (p q r : Pipe) → IsMoved m p q → IsMoved n q r → IsMoved (m + n) p r
IsMoved-trans m n p q r h k = record {
  left_is = k.left_is ∙ ap (drop n) h.left_is ∙ drop-drop m n p.left;
  written_is =
      k.written_is
      ∙ ap (λ s. q.written ++ take n s) h.left_is
      ∙ ap (λ s. s ++ take n (drop m p.left)) h.written_is
      ∙ sym (append_assoc p.written (take m p.left) (take n (drop m p.left)))
      ∙ ap (λ s. p.written ++ s) (take-drop m n p.left);
}

-- What was written, and what is left, are what was there.
pub IsMoved-conserved :
    (n : ℕ) (p q : Pipe) → IsMoved n p q → q.written ++ q.left ≡ p.written ++ p.left
IsMoved-conserved n p q h =
    ap (λ s. q.written ++ s) h.left_is
    ∙ ap (λ s. s ++ drop n p.left) h.written_is
    ∙ sym (append_assoc p.written (take n p.left) (drop n p.left))
    ∙ ap (λ s. p.written ++ s) (take-append-drop n p.left)
