-- ===== src/Suanpan/Router/Target.antt =====
-- suanpan/router.py: the grammar of a route target, and the rule that serves a tier of models.
pub mod Tiers
use magic_ai_router.Prelude.{
  Bool, true, false, ◌&&◌, ◌||◌, Option, none, some, List, [], ◌∷◌, Text, codes, has_char,
  partition, starts_with, if◌then◌else◌,
}
use magic_ai_router.Json.{Json, null, as_str, as_obj, get, truthy}

-- "/" first, "," otherwise; a target with neither names a provider and no model.
unfoldable pub parse_route_target : Text → Text × Text
parse_route_target target = partition (if has_char b'/' target then b'/' else b',') target

-- A search over raw rules ends with a rule's `route_to`, without one, or in the `TypeError` of
-- `startswith` on a prefix that is not a string.
pub data TierRoute : Type 0 where
  found : Json → TierRoute
  none_found type_error : TierRoute

abbrev field_or_null : Option Json → Json
field_or_null none = null
field_or_null (some v) = v

-- One round of the loop over `match_prefix` and `route_to`, the rest of it given.
tier_round : Text → Json → Json → TierRoute → TierRoute
tier_round tier mp route_to rest =
    if truthy mp && truthy route_to
    then (elim (as_str mp) [
      | none ↦ type_error
      | some p ↦ if starts_with tier p || starts_with p tier then found route_to else rest
    ])
    else rest

unfoldable pub first_tier_route : List Json → Text → TierRoute
unfolding tier_round
first_tier_route [] tier = none_found
first_tier_route (r ∷ rules) tier =
    let rest = first_tier_route rules tier in
    elim (as_obj r) [
      | none ↦ rest
      | some fs ↦
          tier_round tier (field_or_null (get (codes "match_prefix") fs))
            (field_or_null (get (codes "route_to") fs)) rest
    ]
