-- ===== src/Mpconf/Servers/Ids.antt =====
-- mpconf/config.py, `assign_stable_ids`: servers without an id get one from their identity. `ident`
-- and `basis` are the two texts that the source writes of user, host and port.
use magic_ai_router.Prelude.{
  ℕ, ◌+◌, ◌≡◌, refl, subst, inl, inr, Bool, true, false, Option, none, some, List, [], ◌∷◌, ◌++◌,
  Text, codes, contains, text_key, ◌==◌, All, Bool-cases, arith, if◌then◌else◌,
}

pub record Row : Type 0 where
  pub id : Text
  pub ident : Text
  pub basis : Text

abbrev pub set_id : Text → Row → Row
set_id new r = record r { id = new }

-- Two texts are the same id, whatever stands behind.
abbrev pub is_blank : Text → Bool
is_blank [] = true
is_blank (_ ∷ _) = false

abbrev pub suffix : Bool → Text
suffix true = codes "#2"
suffix false = []

abbrev pub counted : ℕ → Row → Option (List Row × ℕ) → Option (List Row × ℕ)
counted n r none = none
counted n r (some (rows, k)) = some (r ∷ rows, n + k)

-- `stable_server_id` of a basis is `t-` and ten digits of its SHA-1.
module _ (stable_id : Text → Text) where
  abbrev pub new_id : List Text → Row → Text
  new_id idents r = stable_id r.basis ++ suffix (contains r.ident idents)

  -- The rows and how many were given an id; none is an IdentityMigrationError.
  unfoldable pub assign : List Text → List Text → List Row → Option (List Row × ℕ)
  assign ids idents [] = some ([], 0)
  assign ids idents (r ∷ rs) =
      let id = if is_blank r.id then new_id idents r else r.id in
      let rest = assign (id ∷ ids) (r.ident ∷ idents) rs in
      if contains id ids then none else counted (if is_blank r.id then 1 else 0) (set_id id r) rest

  unfoldable pub assign_stable_ids : List Row → Option (List Row × ℕ)
  assign_stable_ids rows = assign [] [] rows

-- No id stands twice.
abbrev pub DistinctIds : List Row → Type 0
DistinctIds [] = Unit
DistinctIds (r ∷ rs) = All (λ q. (r.id == q.id) ≡ false) rs × DistinctIds rs

-- The same servers in their order, and an id that was there is kept.
abbrev pub Kept : List Row → List Row → Type 0
Kept [] [] = Unit
Kept [] (_ ∷ _) = ⊥
Kept (_ ∷ _) [] = ⊥
Kept (r ∷ rs) (q ∷ qs) = (q.ident ≡ r.ident) × (is_blank r.id ≡ false → q.id ≡ r.id) × Kept rs qs

Unseen : List Text → List Row → Type 0
Unseen ids = All (λ r. contains r.id ids ≡ false)

Unseen-tail :
    (id : Text) (ids : List Text) (rs : List Row)
    → Unseen (id ∷ ids) rs
    → Unseen ids rs × All (λ q. (id == q.id) ≡ false) rs
unfolding Unseen
Unseen-tail id ids [] h = (tt, tt)
Unseen-tail id ids (r ∷ rs) h =
    let rest = Unseen-tail id ids rs h.1 in
    let apart : ((id == r.id) ≡ false) × (contains r.id ids ≡ false) = ground (arith, h.0) in
    ((apart.1, rest.0), (apart.0, rest.1))

abbrev IsAssigned : List Text → List Row → Option (List Row × ℕ) → Type 0
IsAssigned ids rs none = Unit
IsAssigned ids rs (some (out, k)) = Unseen ids out × DistinctIds out × Kept rs out

counted-IsAssigned :
    (n : ℕ) (id : Text) (ids : List Text) (r : Row) (rs : List Row) (o : Option (List Row × ℕ))
    → contains id ids ≡ false
    → (is_blank r.id ≡ false → id ≡ r.id)
    → IsAssigned (id ∷ ids) rs o
    → IsAssigned ids (r ∷ rs) (counted n (set_id id r) o)
unfolding Unseen
counted-IsAssigned n id ids r rs none new same h = tt
counted-IsAssigned n id ids r rs (some (out, k)) new same h =
    let (old, apart) = Unseen-tail id ids out h.0 in ((new, old), (apart, h.1), (refl, same, h.2))

if-kept : (b : Bool) (new old : Text) → b ≡ false → (if b then new else old) ≡ old
if-kept true new old h = cc
if-kept false new old h = refl

module _ (stable_id : Text → Text) where
  assign-IsAssigned :
      (ids idents : List Text) (rs : List Row) → IsAssigned ids rs (assign stable_id ids idents rs)
  unfolding assign Unseen
  assign-IsAssigned ids idents [] = (tt, tt, tt)
  assign-IsAssigned ids idents (r ∷ rs) =
      let new = new_id stable_id idents r in
      let id = if is_blank r.id then new else r.id in
      elim (Bool-cases (contains id ids)) [
        | inl seen ↦ rw (seen, IsAssigned) tt
        | inr fresh ↦
            rw (fresh, IsAssigned)
              (counted-IsAssigned (if is_blank r.id then 1 else 0) id ids r rs
                (assign stable_id (id ∷ ids) (r.ident ∷ idents) rs) fresh
                (if-kept (is_blank r.id) new r.id)
                (assign-IsAssigned (id ∷ ids) (r.ident ∷ idents) rs))
      ]

  pub assign_stable_ids_lem :
      (rows out : List Row) (k : ℕ)
      → assign_stable_ids stable_id rows ≡ some (out, k)
      → DistinctIds out × Kept rows out
  unfolding assign_stable_ids
  assign_stable_ids_lem rows out k h =
      let result : IsAssigned [] rows (some (out, k)) =
        subst (IsAssigned [] rows) h (assign-IsAssigned [] [] rows) in
      (result.1, result.2)

  same_text : (s : Text) → (s == s) ≡ true
  same_text s = (text_key.same_key_iff s s).1 refl

  pub third_twin_refused :
      (basis ident : Text) (rows : List Row)
      → assign_stable_ids stable_id (
          record { id = []; ident = ident; basis = basis }
          ∷ record { id = []; ident = ident; basis = basis }
          ∷ record { id = []; ident = ident; basis = basis }
          ∷ rows)
        ≡ none
  unfolding assign_stable_ids assign
  third_twin_refused basis ident rows =
      ground (arith, same_text ident, same_text (stable_id basis ++ codes "#2"))
