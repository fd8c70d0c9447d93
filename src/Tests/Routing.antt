-- ===== src/Tests/Routing.antt =====
-- Requests that suanpan/router.py routes.
use magic_ai_router.Prelude.{
  ◌≡◌, refl, Bool, true, false, Option, none, some, [], ◌∷◌, Text, codes, ◌↔◌, starts_with,
  has_char, partition, strip, lstrip, rstrip,
}
use magic_ai_router.Json.{Json, null, bool, str, obj, Fields, end, field}
use magic_ai_router.Suanpan.Config.{AppConfig, ProviderConfig, anthropic}
use magic_ai_router.Suanpan.Router.Marker.{
  extract_system_text, until_close, match_marker, search_marker,
}
use magic_ai_router.Suanpan.Router.Target.{
  parse_route_target, found, none_found, type_error, first_tier_route,
}
use magic_ai_router.Suanpan.Router.Target.Tiers.{Offers}
use magic_ai_router.Suanpan.Router.Decide.{
  subagent, rule, default, RouteDecision, routed, no_route_matched, sanitize_intent, usable,
  make_decision, match_rules, decide_by_rules, decide_by_marker, decide_by_model, source_model,
  marked_text, decide_route,
}
use magic_ai_router.Suanpan.Router.Decide.Priority.{
  choice, first_usable, candidates, decide_route-eq-first_usable,
}
use magic_ai_router.Suanpan.Router.Decide.Fallback.{Explained, fallback_iff}

routing : Unit {0}
unfolding extract_system_text until_close match_marker search_marker parse_route_target
    first_tier_route sanitize_intent usable make_decision match_rules decide_by_rules
    decide_by_marker decide_by_model source_model decide_route starts_with has_char partition strip
    lstrip rstrip
routing = tt

-- `str` on the constants; the other values do not occur below.
abbrev str_of : Json → Text
str_of null = codes "None"
str_of (bool true) = codes "True"
str_of (bool false) = codes "False"
str_of _ = []

abbrev provider : Bool → ProviderConfig
provider enabled = record {
  id = none;
  base_url = codes "http://a";
  api_key = none;
  api_key_env = none;
  auth_header = none;
  enabled = enabled;
  anthropic_native = false;
  protocol = anthropic;
  responses_base_url = none;
  models = [];
}

abbrev config : AppConfig
config = record {
  listen_port = 8086;
  api_key = none;
  request_timeout_s = 600;
  body_limit_mb = 32;
  usage_log = record { enabled = true; path = codes "u" };
  providers =
      (codes "ds", provider true)
      ∷ (codes "glm", provider true)
      ∷ (codes "off", provider false)
      ∷ [];
  router = record { default = some (codes "ds/chat") };
  rules =
      record { match_prefix = codes "claude"; route_to = codes "off/x" }
      ∷ record { match_prefix = codes "claude-h"; route_to = codes "glm,air" }
      ∷ [];
}

-- The body of a request for a model.
abbrev asks : Text → Fields
asks model = field (codes "model") (str model) end

abbrev decided : Text → Text → Option Text → RouteDecision
decided provider model from = record {
  provider = provider;
  target_model = model;
  scenario = default;
  strip_marker = false;
  fallback_from = from;
}

-- An override to a disabled provider falls back to the default and is announced, a rule is skipped
-- while its provider is disabled, and a marker is served before the rules.
decide_route_tests :
    (decide_route str_of (asks (codes "off/x\n")) none config
      ≡ routed (decided (codes "ds") (codes "chat") (some (codes "off/x"))))
    × (decide_route str_of (asks (codes "claude-haiku")) none config
        ≡ routed (record (decided (codes "glm") (codes "air") none) { scenario = rule }))
    × (decide_route str_of
          (asks (codes "claude"))
          (some (codes "a<SUBAGENT-MODEL> glm/b </SUBAGENT-MODEL>"))
          config
        ≡ routed (record (decided (codes "glm") (codes "b") none) {
          scenario = subagent;
          strip_marker = true;
        }))
    × (decide_route str_of end none (record config { providers = []; rules = [] })
        ≡ no_route_matched [])
unfolding routing
decide_route_tests = (refl, refl, refl, refl)

decide_route-eq-first_usable_example :
    choice (decide_route str_of (asks (codes "off/x")) none config)
    ≡ first_usable config (
        candidates
          (source_model str_of (asks (codes "off/x")))
          (search_marker (marked_text (asks (codes "off/x")) none))
          config)
decide_route-eq-first_usable_example =
    decide_route-eq-first_usable str_of (asks (codes "off/x")) none config

fallback_iff_example :
    ((decided (codes "ds") (codes "chat") (some (codes "off/x"))).fallback_from ≡ none)
    ↔ Explained
        (decided (codes "ds") (codes "chat") (some (codes "off/x")))
        (source_model str_of (asks (codes "off/x")))
        (search_marker (marked_text (asks (codes "off/x")) none))
unfolding routing
fallback_iff_example =
    fallback_iff str_of (asks (codes "off/x")) none config
      (decided (codes "ds") (codes "chat") (some (codes "off/x"))) refl

parse_route_target_tests :
    (parse_route_target (codes "a,b/c") ≡ (codes "a,b", codes "c"))
    × (parse_route_target (codes "a,b,c") ≡ (codes "a", codes "b,c"))
    × (parse_route_target (codes "a") ≡ (codes "a", []))
unfolding routing
parse_route_target_tests = (refl, refl, refl)

abbrev raw_rule : Json → Json
raw_rule prefix =
    obj (field (codes "match_prefix") prefix (field (codes "route_to") (str (codes "p/m")) end))

abbrev haiku : Text
haiku = codes "claude-haiku"

first_tier_route_tests :
    (first_tier_route (null ∷ raw_rule (str (codes "claude")) ∷ []) haiku
      ≡ found (str (codes "p/m")))
    × (first_tier_route (raw_rule (str (codes "claude-haiku-4")) ∷ []) haiku
        ≡ found (str (codes "p/m")))
    × (first_tier_route (raw_rule (str (codes "gpt")) ∷ raw_rule null ∷ []) haiku ≡ none_found)
    × (first_tier_route (raw_rule (bool true) ∷ []) haiku ≡ type_error)
unfolding routing
first_tier_route_tests = (refl, refl, refl, refl)

abbrev gpt_offers : Offers (raw_rule (str (codes "gpt"))) (codes "gpt") (str (codes "p/m"))
gpt_offers = record {
  fields =
      field (codes "match_prefix") (str (codes "gpt"))
        (field (codes "route_to") (str (codes "p/m")) end);
  is_object = refl;
  prefix = refl;
  route = refl;
  prefix_set = refl;
  route_set = refl;
}
