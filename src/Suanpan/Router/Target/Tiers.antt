-- ===== src/Suanpan/Router/Target/Tiers.antt =====
-- `first_tier_route` of suanpan/router.py against the rules' meaning: which models they serve.
use mathlib.Core.List.{Memᴰ}
use magic_ai_router.Prelude.{
  ◌≡◌, refl, ◌⊎◌, inl, inr, true, false, ◌||◌, ◌&&◌, List, [], ◌∷◌, Text, starts_with, arith, codes,
  Option, none, some, Bool-cases, Option-cases, sym, ap, ◌∙◌,
}
use magic_ai_router.Json.{
  Json, Fields, str, obj, get, truthy, as_obj, as_str, eq_obj_of_as_obj, eq_str_of_as_str,
}
use magic_ai_router.Suanpan.Router.Target.{
  TierRoute, found, none_found, field_or_null, tier_round, first_tier_route,
}

-- A prefix of one text or the other.
abbrev Comparable : Text → Text → Type 0
Comparable a b = (starts_with a b || starts_with b a) ≡ true

starts_with_self : (a : Text) → starts_with a a ≡ true
unfolding starts_with
starts_with_self [] = refl
starts_with_self (c ∷ a) = ground (arith, starts_with_self a)

starts_with-Comparable :
    (m a b : Text) → starts_with m a ≡ true → starts_with m b ≡ true → Comparable a b
unfolding starts_with
starts_with-Comparable m [] [] h k = refl
starts_with-Comparable m [] (d ∷ b) h k = refl
starts_with-Comparable m (c ∷ a) [] h k = refl
starts_with-Comparable [] (c ∷ a) (d ∷ b) h k = cc
starts_with-Comparable (x ∷ m) (c ∷ a) (d ∷ b) h k = ground (arith, starts_with-Comparable m a b)

-- A model's name that begins with the tier's prefix and with the rule's.
pub record Served (tier mp : Text) : Type 0 where
  pub model : Text
  pub in_tier : starts_with model tier ≡ true
  pub matched : starts_with model mp ≡ true

Served-of_Comparable : (tier mp : Text) → Comparable tier mp → Served tier mp
Served-of_Comparable tier mp h = elim (Bool-cases (starts_with tier mp)) [
  | inl wider ↦ record { model = tier; in_tier = starts_with_self tier; matched = wider }
  | inr finer ↦ record { model = mp; in_tier = ground arith; matched = starts_with_self mp }
]

-- The raw rule routes models that begin with `mp` to `target`, neither of them empty.
pub record Offers (rule : Json) (mp : Text) (target : Json) : Type 0 where
  pub fields : Fields
  pub is_object : rule ≡ obj fields
  pub prefix : get (codes "match_prefix") fields ≡ some (str mp)
  pub route : get (codes "route_to") fields ≡ some target
  pub prefix_set : truthy (str mp) ≡ true
  pub route_set : truthy target ≡ true

pub record TierFound (rules : List Json) (tier : Text) (target : Json) : Type 0 where
  pub rule : Json
  pub mp : Text
  pub listed : Memᴰ rule rules
  pub offers : Offers rule mp target
  pub served : Served tier mp

TierFound-cons :
    {rules : List Json} {tier : Text} {target : Json} (r : Json)
    → TierFound rules tier target
    → TierFound (r ∷ rules) tier target
TierFound-cons r f = record {
  rule = f.rule;
  mp = f.mp;
  listed = Memᴰ.tail f.listed;
  offers = f.offers;
  served = f.served;
}

some_of_field : (o : Option Json) (v : Json) → field_or_null o ≡ v → truthy v ≡ true → o ≡ some v
some_of_field none v h k = ground arith
some_of_field (some w) v h k = ap some h

-- How a round of the loop ends the search with a target.
record Hit (tier : Text) (mp route target : Json) : Type 0 where
  p : Text
  is_str : mp ≡ str p
  same : route ≡ target
  p_set : truthy mp ≡ true
  t_set : truthy target ≡ true
  near : Comparable tier p

tier_round-found :
    (tier : Text) (mp route : Json) (rest : TierRoute) (target : Json)
    → tier_round tier mp route rest ≡ found target
    → (rest ≡ found target) ⊎ Hit tier mp route target
unfolding tier_round
tier_round-found tier mp route rest target h = elim (Bool-cases (truthy mp && truthy route)) [
  | inr unset ↦ inl (ground arith)
  | inl set ↦ elim (Option-cases (as_str mp)) [
    | inl other ↦ inl (ground arith)
    | inr (p, is_p) ↦ elim (Bool-cases (starts_with tier p || starts_with p tier)) [
      | inr apart ↦ inl (ground arith)
      | inl near ↦ inr (record {
        p = p;
        is_str = eq_str_of_as_str mp p is_p;
        same = ground arith;
        p_set = ground arith;
        t_set = ground arith;
        near = near;
      })
    ]
  ]
]

Hit-Offers :
    (tier : Text) (r : Json) (fs : Fields) {target : Json}
    → as_obj r ≡ some fs
    → (h : Hit tier
        (field_or_null (get (codes "match_prefix") fs))
        (field_or_null (get (codes "route_to") fs))
        target)
    → Offers r h.p target
Hit-Offers tier r fs is_obj h = record {
  fields = fs;
  is_object = eq_obj_of_as_obj r fs is_obj;
  prefix = some_of_field _ (str h.p) h.is_str (rw h.is_str at h.p_set);
  route = some_of_field _ _ h.same h.t_set;
  prefix_set = rw h.is_str at h.p_set;
  route_set = h.t_set;
}

-- A target that `first_tier_route` returns is the `route_to` of a listed rule that has a prefix,
-- and some model whose name begins with the tier's prefix begins with that rule's.
pub first_tier_route-found :
    (rules : List Json) (tier : Text) (target : Json)
    → first_tier_route rules tier ≡ found target
    → TierFound rules tier target
unfolding first_tier_route
first_tier_route-found [] tier target h = cc
first_tier_route-found (r ∷ rules) tier target h = elim (Option-cases (as_obj r)) [
  | inl other ↦ TierFound-cons r (first_tier_route-found rules tier target (ground arith))
  | inr (fs, is_obj) ↦
      elim (tier_round-found tier _ _ _ target (rw (is_obj, first_tier_route) at h)) [
        | inl later ↦ TierFound-cons r (first_tier_route-found rules tier target later)
        | inr hit ↦ record {
          rule = r;
          mp = hit.p;
          listed = Memᴰ.head refl;
          offers = Hit-Offers tier r fs is_obj hit;
          served = Served-of_Comparable tier hit.p hit.near;
        }
      ]
]

tier_round-none :
    (tier p : Text) (mp route : Json) (rest : TierRoute)
    → tier_round tier mp route rest ≡ none_found
    → (rest ≡ none_found)
      × (mp ≡ str p → truthy (str p) ≡ true → truthy route ≡ true → ¬ Comparable tier p)
unfolding tier_round
tier_round-none tier p mp route rest h = (ground arith, λ is_p p_set t_set near. ground arith)

-- Without a target, no listed rule that has a prefix and a target fits any model of the tier.
pub first_tier_route-none :
    (rules : List Json) (tier mp model : Text) (r target : Json)
    → first_tier_route rules tier ≡ none_found
    → Memᴰ r rules
    → Offers r mp target
    → starts_with model tier ≡ true
    → starts_with model mp ≡ false
unfolding first_tier_route
first_tier_route-none [] tier mp model r target h listed o in_tier = elim listed [ ]
first_tier_route-none (q ∷ rules) tier mp model r target h (Memᴰ.head e) o in_tier =
    let is_obj = ap as_obj (sym e ∙ o.is_object) in
    let ended =
      tier_round-none tier mp (field_or_null (get (codes "match_prefix") o.fields))
        (field_or_null (get (codes "route_to") o.fields)) (first_tier_route rules tier)
        (rw (is_obj, first_tier_route) at h) in
    elim (Bool-cases (starts_with model mp)) [
      | inr misses ↦ misses
      | inl fits ↦ absurd (
          ended.1 (ap field_or_null o.prefix) o.prefix_set (rw o.route o.route_set)
            (starts_with-Comparable model tier mp in_tier fits))
    ]
first_tier_route-none (q ∷ rules) tier mp model r target h (Memᴰ.tail m) o in_tier =
    elim (Option-cases (as_obj q)) [
      | inl other ↦
          first_tier_route-none rules tier mp model r target (rw (other, first_tier_route) at h) m o
            in_tier
      | inr (fs, is_obj) ↦
          first_tier_route-none rules tier mp model r target
            (tier_round-none tier mp (field_or_null (get (codes "match_prefix") fs))
              (field_or_null (get (codes "route_to") fs)) (first_tier_route rules tier)
              (rw (is_obj, first_tier_route) at h)).0
            m o in_tier
    ]
