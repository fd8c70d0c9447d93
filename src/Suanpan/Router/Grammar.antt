-- ===== src/Suanpan/Router/Grammar.antt =====
-- The grammar of route targets in suanpan/router.py.
use magic_ai_router.Prelude.{
  ◌≡◌, refl, ◌⊎◌, true, false, [], ◌∷◌, ◌++◌, Text, has_char, partition, arith, ℕ,
}
use magic_ai_router.Suanpan.Router.Target.{parse_route_target}

-- What a target of each of the three forms is split into.
abbrev pub Splits : Text → Text × Text → Type 0
Splits target (provider, model) =
    ((has_char b'/' target ≡ true)
      × (has_char b'/' provider ≡ false)
      × (provider ++ (b'/' ∷ model) ≡ target))
    ⊎ ((has_char b'/' target ≡ false)
        × (has_char b',' target ≡ true)
        × (has_char b',' provider ≡ false)
        × (provider ++ (b',' ∷ model) ≡ target))
    ⊎ ((has_char b'/' target ≡ false)
        × (has_char b',' target ≡ false)
        × (provider ≡ target)
        × (model ≡ []))

partition_hit :
    (sep : ℕ) (s : Text)
    → has_char sep s ≡ true
    → (has_char sep (partition sep s).0 ≡ false)
      × ((partition sep s).0 ++ (sep ∷ (partition sep s).1) ≡ s)
unfolding has_char partition
partition_hit sep [] h = cc
partition_hit sep (c ∷ s) h = ground (arith, partition_hit sep s)

partition_miss :
    (sep : ℕ) (s : Text)
    → has_char sep s ≡ false
    → ((partition sep s).0 ≡ s) × ((partition sep s).1 ≡ [])
unfolding has_char partition
partition_miss sep [] h = (refl, refl)
partition_miss sep (c ∷ s) h = ground (arith, partition_miss sep s)

-- Every target is split at its first "/", without one at its first ",", without either not at all;
-- the parts and the separator make up the target, and the provider's name holds no separator that
-- was split at.
pub parse_route_target-Splits : (target : Text) → Splits target (parse_route_target target)
unfolding parse_route_target
parse_route_target-Splits target =
    ground (arith, partition_hit b'/' target, partition_hit b',' target, partition_miss b',' target)

partition-append :
    (sep : ℕ) (s t : Text)
    → has_char sep s ≡ false
    → (partition sep (s ++ (sep ∷ t)) ≡ (s, t)) × (has_char sep (s ++ (sep ∷ t)) ≡ true)
unfolding has_char partition
partition-append sep [] t h = ground arith
partition-append sep (c ∷ s) t h = ground (arith, partition-append sep s t)

-- A provider's name without "/", a "/" and any model's name are parsed back to the two names.
pub parse_route_target-append :
    (provider model : Text)
    → has_char b'/' provider ≡ false
    → parse_route_target (provider ++ (b'/' ∷ model)) ≡ (provider, model)
unfolding parse_route_target
parse_route_target-append provider model h = ground (arith, partition-append b'/' provider model)
