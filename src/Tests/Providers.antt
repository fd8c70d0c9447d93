-- ===== src/Tests/Providers.antt =====
-- Headers and keys of shared/provider_auth.py.
use magic_ai_router.Prelude.{
  ◌≡◌, refl, true, false, none, some, Option, [], ◌∷◌, Text, Dict, codes, lookup, text_key,
}
use magic_ai_router.Shared.ProviderAuth.{
  is_hop, given, restore_masked_key, resolve_api_key, forwarded, credential, build_outbound_headers,
}
use magic_ai_router.Shared.ProviderAuth.Headers.{build_outbound_headers_lem}
use magic_ai_router.Shared.ProviderAuth.Registry.{provider_registry, Endpoint, ProviderCard}

headers : Unit {0}
unfolding is_hop given restore_masked_key resolve_api_key forwarded credential
    build_outbound_headers
headers = tt

abbrev incoming : Dict Text Text
incoming =
    (codes "AUTHORIZATION", codes "Bearer gate")
    ∷ (codes "Accept", codes "*")
    ∷ (codes "X-API-Key", codes "u")
    ∷ []

build_outbound_headers_tests :
    (build_outbound_headers incoming none none ≡ (codes "Accept", codes "*") ∷ [])
    × (build_outbound_headers incoming (some (codes "k")) (some (codes "X-Api-Key"))
        ≡ (codes "Accept", codes "*") ∷ (codes "x-api-key", codes "k") ∷ [])
    × (build_outbound_headers [] (some (codes "k")) none
        ≡ (codes "Authorization", codes "Bearer k") ∷ [])
unfolding headers
build_outbound_headers_tests = (refl, refl, refl)

key_tests :
    (restore_masked_key (some []) (some (codes "old")) true ≡ some (codes "old"))
    × (restore_masked_key (some []) (some (codes "old")) false ≡ none)
    × (restore_masked_key (some (codes "new")) (some (codes "old")) true ≡ some (codes "new"))
    × (resolve_api_key (λ name. some name) (some []) (some (codes "ENV")) ≡ some (codes "ENV"))
unfolding headers
key_tests = (refl, refl, refl, refl)

-- The endpoint of a provider's card for a protocol.
abbrev endpoint : Text → Option ProviderCard → Option Endpoint
endpoint protocol none = none
endpoint protocol (some card) = lookup protocol card.endpoints

registry_test :
    endpoint (codes "responses") (lookup (codes "openai") provider_registry)
    ≡ some (record {
      base_url = codes "https://api.openai.com/v1";
      anthropic_native = none;
      auth_header = none;
    })
registry_test = refl

build_outbound_headers_example :
    lookup (codes "AUTHORIZATION") (build_outbound_headers incoming (some (codes "k")) none) ≡ none
unfolding headers
build_outbound_headers_example =
    build_outbound_headers_lem (codes "AUTHORIZATION") incoming (some (codes "k")) none
