-- ===== src/Suanpan/Router/Decide/Priority.antt =====
-- The order of priorities of `decide_route`, against a list of candidates.
use magic_ai_router.Prelude.{
  ◌≡◌, refl, true, false, Option, none, some, List, [], ◌∷◌, ◌++◌, Text, arith, starts_with, strip,
  if◌then◌else◌,
}
use magic_ai_router.Json.{Json, Fields}
use magic_ai_router.Suanpan.Config.{AppConfig, Rule}
use magic_ai_router.Suanpan.Router.Marker.{search_marker}
use magic_ai_router.Suanpan.Router.Target.{parse_route_target}
use magic_ai_router.Suanpan.Router.Decide.{
  Scenario, inline, subagent, rule, default, RouteDecision, Routed, routed, no_route_matched,
  usable, decision, make_decision, match_rules, with_fallback, decide_by_rules, decide_by_marker,
  decide_by_model, or_intent, sanitize_intent, names_provider, source_model, marked_text,
  decide_route,
}

-- A slot of the configuration offers a decision unless it is empty.
abbrev slot_candidate : Option Text → Scenario → List RouteDecision
slot_candidate none scenario = []
slot_candidate (some []) scenario = []
slot_candidate (some (c ∷ s)) scenario = decision (parse_route_target (c ∷ s)) scenario false ∷ []

abbrev model_candidate : Text → List RouteDecision
model_candidate model =
    if names_provider model then decision (parse_route_target model) inline false ∷ [] else []

abbrev marker_candidate : Option Text → List RouteDecision
marker_candidate none = []
marker_candidate (some group) = decision (parse_route_target (strip group)) subagent true ∷ []

rule_candidates : List Rule → Text → List RouteDecision
rule_candidates [] model = []
rule_candidates (r ∷ rules) model =
    (if starts_with model r.match_prefix then slot_candidate (some r.route_to) rule else [])
    ++ rule_candidates rules model

-- All that a request asks for or the configuration offers it, the most wanted first.
pub candidates : Text → Option Text → AppConfig → List RouteDecision
candidates model found config =
    model_candidate model
    ++ (marker_candidate found
        ++ (rule_candidates config.rules model ++ slot_candidate config.router.default default))

abbrev pub first_usable : AppConfig → List RouteDecision → Option RouteDecision
first_usable config [] = none
first_usable config (d ∷ ds) = if usable config d.provider then some d else first_usable config ds

-- The decision, less the intent that it fell back from.
abbrev pub choice : Routed → Option RouteDecision
choice (routed d) = some (with_fallback none d)
choice (no_route_matched _) = none

abbrev or_else : Option RouteDecision → Option RouteDecision → Option RouteDecision
or_else none d = d
or_else (some d) _ = some d

first_usable-append :
    (config : AppConfig) (xs ys : List RouteDecision)
    → first_usable config (xs ++ ys) ≡ or_else (first_usable config xs) (first_usable config ys)
first_usable-append config [] ys = refl
first_usable-append config (d ∷ xs) ys = ground (arith, first_usable-append config xs ys)

make_decision-eq-first_usable :
    (slot : Option Text) (scenario : Scenario) (config : AppConfig)
    → make_decision slot scenario config ≡ first_usable config (slot_candidate slot scenario)
unfolding make_decision
make_decision-eq-first_usable none scenario config = refl
make_decision-eq-first_usable (some []) scenario config = refl
make_decision-eq-first_usable (some (c ∷ s)) scenario config = refl

match_rules-eq-first_usable :
    (rules : List Rule) (model : Text) (config : AppConfig)
    → match_rules rules model config ≡ first_usable config (rule_candidates rules model)
unfolding match_rules rule_candidates
match_rules-eq-first_usable [] model config = refl
match_rules-eq-first_usable (r ∷ rules) model config = ground (
  arith,
  match_rules-eq-first_usable rules model config,
  make_decision-eq-first_usable (some r.route_to) rule config,
  first_usable-append config (slot_candidate (some r.route_to) rule) (rule_candidates rules model),
)

abbrev erase : Option RouteDecision → Option RouteDecision
erase none = none
erase (some d) = some (with_fallback none d)

make_decision-erase :
    (slot : Option Text) (scenario : Scenario) (config : AppConfig)
    → erase (make_decision slot scenario config) ≡ make_decision slot scenario config
unfolding make_decision
make_decision-erase none scenario config = refl
make_decision-erase (some []) scenario config = refl
make_decision-erase (some (c ∷ s)) scenario config = ground arith

match_rules-erase :
    (rules : List Rule) (model : Text) (config : AppConfig)
    → erase (match_rules rules model config) ≡ match_rules rules model config
unfolding match_rules
match_rules-erase [] model config = refl
match_rules-erase (r ∷ rules) model config =
    ground (
      arith,
      match_rules-erase rules model config,
      make_decision-erase (some r.route_to) rule config,
    )

decide_by_rules-choice :
    (from : Option Text) (model : Text) (config : AppConfig)
    → choice (decide_by_rules from model config)
      ≡ first_usable config
          (rule_candidates config.rules model ++ slot_candidate config.router.default default)
unfolding decide_by_rules
decide_by_rules-choice from model config = ground (
  arith,
  first_usable-append config (rule_candidates config.rules model)
      (slot_candidate config.router.default default),
  match_rules-eq-first_usable config.rules model config,
  make_decision-eq-first_usable config.router.default default config,
  match_rules-erase config.rules model config,
  make_decision-erase config.router.default default config,
)

decide_by_marker-choice :
    (from found : Option Text) (model : Text) (config : AppConfig)
    → choice (decide_by_marker from found model config)
      ≡ first_usable config (
          marker_candidate found
          ++ (rule_candidates config.rules model ++ slot_candidate config.router.default default))
unfolding decide_by_marker
decide_by_marker-choice from none model config = decide_by_rules-choice from model config
decide_by_marker-choice from (some group) model config =
    ground
      (arith, decide_by_rules-choice (or_intent from (sanitize_intent (strip group))) model config)

decide_by_model-choice :
    (model : Text) (found : Option Text) (config : AppConfig)
    → choice (decide_by_model model found config)
      ≡ first_usable config (candidates model found config)
unfolding decide_by_model candidates
decide_by_model-choice model found config = ground (
  arith,
  decide_by_marker-choice (some (sanitize_intent model)) found model config,
  decide_by_marker-choice none found model config,
)

-- For every request, configuration and `str` of the host: the provider, model, scenario and marker
-- flag of `decide_route` are those of the first usable candidate in the order inline override,
-- marker, matching rules in their order, default; and it raises exactly when no candidate's
-- provider is known and enabled.
pub decide_route-eq-first_usable :
    (text_of : Json → Text) (body : Fields) (system : Option Text) (config : AppConfig)
    → choice (decide_route text_of body system config)
      ≡ first_usable config
          (candidates (source_model text_of body) (search_marker (marked_text body system)) config)
unfolding decide_route
decide_route-eq-first_usable text_of body system config =
    decide_by_model-choice (source_model text_of body) (search_marker (marked_text body system))
      config
