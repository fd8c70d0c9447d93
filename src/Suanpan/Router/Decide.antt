-- ===== src/Suanpan/Router/Decide.antt =====
-- suanpan/router.py, `decide_route`: an explicit intent in the model's name, one in the system
-- prompt, the prefix rules, the default.
pub mod Priority
pub mod Fallback
use magic_ai_router.Prelude.{
  ℕ, Bool, true, false, ◌||◌, Option, none, some, List, [], ◌∷◌, map, Text, codes, leb, nat_beq,
  has_char, starts_with, strip, lookup, text_key, if◌then◌else◌,
}
use magic_ai_router.Json.{Json, Fields, str, get}
use magic_ai_router.Suanpan.Config.{AppConfig, Rule}
use magic_ai_router.Suanpan.Router.Marker.{extract_system_text, search_marker}
use magic_ai_router.Suanpan.Router.Target.{parse_route_target}

pub data Scenario : Type 0 where
  inline subagent rule default : Scenario

pub record RouteDecision : Type 0 where
  pub provider : Text
  pub target_model : Text
  pub scenario : Scenario
  pub strip_marker : Bool
  pub fallback_from : Option Text

-- `NoRouteMatched` carries the model that no route takes.
pub data Routed : Type 0 where
  routed : RouteDecision → Routed
  no_route_matched : Text → Routed

-- `[\x00-\x1f\x7f]`
abbrev is_control : ℕ → Bool
is_control c = leb c 31 || nat_beq c 127

-- `_CONTROL_CHARS.sub(" ", …)`, then `encode("latin-1", "replace")`, of one character
abbrev pub blank_control : ℕ → ℕ
blank_control c = if is_control c then 32 else c

abbrev pub to_latin_1 : ℕ → ℕ
to_latin_1 c = if leb c 255 then c else b'?'

unfoldable pub sanitize_intent : Text → Text
sanitize_intent raw = map to_latin_1 (strip (map blank_control raw))

-- `provider in config.providers and config.providers[provider].enabled`
unfoldable pub usable : AppConfig → Text → Bool
usable config provider = elim (lookup provider config.providers) [
  | none ↦ false
  | some p ↦ p.enabled
]

abbrev decision : Text × Text → Scenario → Bool → RouteDecision
decision (provider, target) scenario strip = record {
  provider = provider;
  target_model = target;
  scenario = scenario;
  strip_marker = strip;
  fallback_from = none;
}

-- A slot that is `None` or "" decides nothing.
unfoldable pub make_decision : Option Text → Scenario → AppConfig → Option RouteDecision
make_decision none scenario config = none
make_decision (some []) scenario config = none
make_decision (some (c ∷ slot)) scenario config =
    let target = parse_route_target (c ∷ slot) in
    if usable config target.0 then some (decision target scenario false) else none

-- Priority 3: the first rule whose prefix fits and whose provider is usable.
unfoldable pub match_rules : List Rule → Text → AppConfig → Option RouteDecision
match_rules [] model config = none
match_rules (r ∷ rules) model config =
    let later = match_rules rules model config in
    if starts_with model r.match_prefix
    then (elim (make_decision (some r.route_to) rule config) [ some d ↦ some d | none ↦ later ])
    else later

abbrev pub with_fallback : Option Text → RouteDecision → RouteDecision
with_fallback from d = record d { fallback_from = from }

-- Priorities 3 and 4, with the intent that was not served.
unfoldable pub decide_by_rules : Option Text → Text → AppConfig → Routed
decide_by_rules from model config = elim (match_rules config.rules model config) [
  | some d ↦ routed (with_fallback from d)
  | none ↦ elim (make_decision config.router.default default config) [
    | some d ↦ routed (with_fallback from d)
    | none ↦ no_route_matched model
  ]
]

-- `fallback_from or intent`: an empty text counts as no intent.
abbrev pub or_intent : Option Text → Text → Option Text
or_intent none intent = some intent
or_intent (some []) intent = some intent
or_intent (some (c ∷ s)) intent = some (c ∷ s)

-- Priority 2 and those below it; `found` is the group that the marker's search returned.
unfoldable pub decide_by_marker : Option Text → Option Text → Text → AppConfig → Routed
decide_by_marker from none model config = decide_by_rules from model config
decide_by_marker from (some group) model config =
    let intent = strip group in
    let target = parse_route_target intent in
    if usable config target.0
    then routed (decision target subagent true)
    else decide_by_rules (or_intent from (sanitize_intent intent)) model config

abbrev pub names_provider : Text → Bool
names_provider model = has_char b'/' model || has_char b',' model

unfoldable pub decide_by_model : Text → Option Text → AppConfig → Routed
decide_by_model model found config =
    if names_provider model
    then (let target = parse_route_target model in
        if usable config target.0
        then routed (decision target inline false)
        else decide_by_marker (some (sanitize_intent model)) found model config)
    else decide_by_marker none found model config

-- What the caller extracted already, or else the system prompt of the body.
abbrev pub marked_text : Fields → Option Text → Text
marked_text body none = extract_system_text body
marked_text body (some text) = text

-- `text_of` is Python's `str` on a model that is no string.
module _ (text_of : Json → Text) where
  unfoldable pub source_model : Fields → Text
  source_model body = elim (get (codes "model") body) [
    | none ↦ []
    | some (str s) ↦ s
    | some v ↦ text_of v
  ]

  unfoldable pub decide_route : Fields → Option Text → AppConfig → Routed
  decide_route body system_text config =
      decide_by_model (source_model body) (search_marker (marked_text body system_text)) config
