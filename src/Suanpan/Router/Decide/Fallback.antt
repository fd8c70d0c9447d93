-- ===== src/Suanpan/Router/Decide/Fallback.antt =====
-- What `decide_route` announces of an explicit intent that it did not serve.
use magic_ai_router.Prelude.{
  ℕ, ◌≡◌, ◌≢◌, ◌≤◌, ◌⊎◌, ◌↔◌, true, false, Option, none, some, List, [], ◌∷◌, map, Text, arith,
  strip, All-strip, All, inl, inr, Option-cases, Bool-cases,
}
use magic_ai_router.Json.{Json, Fields}
use magic_ai_router.Suanpan.Config.{AppConfig, Rule}
use magic_ai_router.Suanpan.Router.Marker.{search_marker}
use magic_ai_router.Suanpan.Router.Target.{parse_route_target}
use magic_ai_router.Suanpan.Router.Decide.{
  Scenario, inline, subagent, rule, default, RouteDecision, routed, usable, decision,
  decide_by_rules, decide_by_marker, decide_by_model, or_intent, sanitize_intent, names_provider,
  source_model, marked_text, decide_route, blank_control, to_latin_1, make_decision, match_rules,
}

-- A character that a response header can carry.
abbrev pub HeaderSafe : ℕ → Type 0
HeaderSafe c = (32 ≤ c) × (c ≢ 127) × (c ≤ 255)

abbrev Printable : ℕ → Type 0
Printable c = (32 ≤ c) × (c ≢ 127)

All-blank_control : (s : Text) → All Printable (map blank_control s)
All-blank_control [] = tt
All-blank_control (c ∷ s) = (ground arith, All-blank_control s)

All-to_latin_1 : (s : Text) → All Printable s → All HeaderSafe (map to_latin_1 s)
All-to_latin_1 [] h = tt
All-to_latin_1 (c ∷ s) (h, hs) = (ground arith, All-to_latin_1 s hs)

sanitize_intent-HeaderSafe : (raw : Text) → All HeaderSafe (sanitize_intent raw)
unfolding sanitize_intent
sanitize_intent-HeaderSafe raw = All-to_latin_1 _ (All-strip Printable _ (All-blank_control raw))

-- The intents that can be announced are sanitized.
abbrev IsSafe : Option Text → Type 0
IsSafe none = Unit
IsSafe (some s) = All HeaderSafe s

make_decision-none :
    (slot : Option Text) (scenario : Scenario) (config : AppConfig) {d : RouteDecision}
    → make_decision slot scenario config ≡ some d
    → d.scenario ≡ scenario
unfolding make_decision
make_decision-none none scenario config h = cc
make_decision-none (some []) scenario config h = cc
make_decision-none (some (c ∷ s)) scenario config h = ground arith

match_rules-scenario :
    (rules : List Rule) (model : Text) (config : AppConfig) (d : RouteDecision)
    → match_rules rules model config ≡ some d
    → d.scenario ≡ rule
unfolding match_rules
match_rules-scenario [] model config d h = cc
match_rules-scenario (r ∷ rules) model config d h = ground (
  arith,
  match_rules-scenario rules model config d,
  make_decision-none (some r.route_to) rule config {d = d},
)

-- Where the rules or the default decide, the decision carries the intent handed to them.
decide_by_rules-fallback :
    (from : Option Text) (model : Text) (config : AppConfig) (d : RouteDecision)
    → decide_by_rules from model config ≡ routed d
    → ((d.scenario ≡ rule) ⊎ (d.scenario ≡ default)) × (d.fallback_from ≡ from)
unfolding decide_by_rules
decide_by_rules-fallback from model config d h =
    elim (Option-cases (match_rules config.rules model config)) [
      | inr (e, hit) ↦ ground (arith, match_rules-scenario config.rules model config e hit)
      | inl missed ↦ elim (Option-cases (make_decision config.router.default default config)) [
        | inr (e, hit) ↦
            ground (arith, make_decision-none config.router.default default config {d = e} hit)
        | inl out ↦ ground arith
      ]
    ]

-- Whether a decision follows an explicit intent, or there was none.
abbrev pub Explained : RouteDecision → Text → Option Text → Type 0
Explained d model found =
    (d.scenario ≡ inline)
    ⊎ (d.scenario ≡ subagent)
    ⊎ ((names_provider model ≡ false) × (found ≡ none))

or_intent-ne-none : (from : Option Text) (intent : Text) → or_intent from intent ≢ none
or_intent-ne-none none intent e = cc
or_intent-ne-none (some []) intent e = cc
or_intent-ne-none (some (c ∷ s)) intent e = cc

decide_by_marker-fallback :
    (from found : Option Text) (model : Text) (config : AppConfig) (d : RouteDecision)
    → decide_by_marker from found model config ≡ routed d
    → (d.scenario ≢ inline)
      × ((d.fallback_from ≡ none) ↔ ((d.scenario ≡ subagent) ⊎ ((from ≡ none) × (found ≡ none))))
unfolding decide_by_marker
decide_by_marker-fallback from none model config d h =
    ground (arith, decide_by_rules-fallback from model config d h)
decide_by_marker-fallback from (some group) model config d h =
    let intent = strip group in
    let carried = or_intent from (sanitize_intent intent) in
    ground (
      arith,
      decide_by_rules-fallback carried model config d,
      or_intent-ne-none from (sanitize_intent intent),
    )

decide_by_model-fallback :
    (found : Option Text) (model : Text) (config : AppConfig) (d : RouteDecision)
    → decide_by_model model found config ≡ routed d
    → (d.fallback_from ≡ none) ↔ Explained d model found
unfolding decide_by_model
decide_by_model-fallback found model config d h = ground (
  arith,
  decide_by_marker-fallback (some (sanitize_intent model)) found model config d,
  decide_by_marker-fallback none found model config d,
)

-- A decision carries no fallback exactly when it follows an explicit intent itself, or the request
-- has none: neither a model with a separator nor a marker. So it carries none, too, where an inline
-- override whose provider is not usable is passed over for a usable marker, although the comments
-- of router.py say that every intent that falls through is carried.
pub fallback_iff :
    (text_of : Json → Text) (body : Fields) (system : Option Text) (config : AppConfig)
    (d : RouteDecision)
    → decide_route text_of body system config ≡ routed d
    → (d.fallback_from ≡ none)
      ↔ Explained d (source_model text_of body) (search_marker (marked_text body system))
unfolding decide_route
fallback_iff text_of body system config d h = decide_by_model-fallback _ _ config d h

-- An inline override whose provider is not usable leaves no trace when a marker decides: the
-- decision carries no fallback.
pub marker_hides_inline :
    (text_of : Json → Text) (body : Fields) (system : Option Text) (config : AppConfig)
    (group : Text)
    → names_provider (source_model text_of body) ≡ true
    → usable config (parse_route_target (source_model text_of body)).0 ≡ false
    → search_marker (marked_text body system) ≡ some group
    → usable config (parse_route_target (strip group)).0 ≡ true
    → decide_route text_of body system config
      ≡ routed (decision (parse_route_target (strip group)) subagent true)
unfolding decide_route decide_by_model decide_by_marker
marker_hides_inline text_of body system config group named refused marked served = ground arith

or_intent-IsSafe :
    (from : Option Text) (raw : Text) → IsSafe from → IsSafe (or_intent from (sanitize_intent raw))
or_intent-IsSafe none raw h = sanitize_intent-HeaderSafe raw
or_intent-IsSafe (some []) raw h = sanitize_intent-HeaderSafe raw
or_intent-IsSafe (some (c ∷ s)) raw h = h

decide_by_marker-IsSafe :
    (from found : Option Text) (model : Text) (config : AppConfig) (d : RouteDecision)
    → IsSafe from
    → decide_by_marker from found model config ≡ routed d
    → IsSafe d.fallback_from
unfolding decide_by_marker
decide_by_marker-IsSafe from none model config d s h =
    rw (decide_by_rules-fallback from model config d h).1 s
decide_by_marker-IsSafe from (some group) model config d s h =
    let target = parse_route_target (strip group) in
    let carried = or_intent from (sanitize_intent (strip group)) in
    elim (Bool-cases (usable config target.0)) [
      | inl served ↦ (let e : d.fallback_from ≡ none = ground arith in rw e tt)
      | inr refused ↦
          rw (decide_by_rules-fallback carried model config d (ground arith)).1
            (or_intent-IsSafe from (strip group) s)
    ]

decide_by_model-IsSafe :
    (found : Option Text) (model : Text) (config : AppConfig) (d : RouteDecision)
    → decide_by_model model found config ≡ routed d
    → IsSafe d.fallback_from
unfolding decide_by_model
decide_by_model-IsSafe found model config d h = elim (Bool-cases (names_provider model)) [
  | inr plain ↦ decide_by_marker-IsSafe none found model config d tt (ground arith)
  | inl named ↦ elim (Bool-cases (usable config (parse_route_target model).0)) [
    | inl served ↦ (let e : d.fallback_from ≡ none = ground arith in rw e tt)
    | inr refused ↦
        decide_by_marker-IsSafe (some (sanitize_intent model)) found model config d
          (sanitize_intent-HeaderSafe model) (ground arith)
  ]
]

-- Whatever the request holds, every character of an announced intent fits in a response header: no
-- control character, and none beyond latin-1.
pub fallback-HeaderSafe :
    (text_of : Json → Text) (body : Fields) (system : Option Text) (config : AppConfig)
    (d : RouteDecision) (intent : Text)
    → decide_route text_of body system config ≡ routed d
    → d.fallback_from ≡ some intent
    → All HeaderSafe intent
unfolding decide_route
fallback-HeaderSafe text_of body system config d intent h e =
    rw e at (decide_by_model-IsSafe _ _ config d h)
