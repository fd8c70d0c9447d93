-- ===== src/Shared/ProviderAuth/Headers.antt =====
-- Which headers `build_outbound_headers` of shared/provider_auth.py sends.
use magic_ai_router.Prelude.{
  ◌≡◌, refl, sym, ap, ◌∙◌, true, Option, none, some, [], ◌∷◌, Text, Dict, codes, lookup,
  lookup-insert, lookup-remove, remove, text_key, text_beq_iff, ◌==◌, arith, inl, inr, Bool-cases,
  Option-cases, if◌then◌else◌,
}
use magic_ai_router.Shared.ProviderAuth.{
  is_hop, given, forwarded, credential, stripped, build_outbound_headers,
}

lookup-forwarded :
    (k : Text) (incoming : Dict Text Text)
    → lookup k (forwarded incoming) ≡ (if is_hop k then none else lookup k incoming)
unfolding forwarded
lookup-forwarded k [] = ground arith
lookup-forwarded k ((j, v) ∷ incoming) = elim (Bool-cases (j == k)) [
  | inl same ↦
      let is = (text_beq_iff j k).0 same in
      let hop = ap is_hop is in ground (arith, lookup-forwarded k incoming)
  | inr other ↦ ground (arith, lookup-forwarded k incoming)
]

-- What is sent under a name.
abbrev pub sent : Text → Dict Text Text → Option (Text × Text) → Option Text
sent k incoming none = if is_hop k then none else lookup k incoming
sent k incoming (some (name, value)) =
    if name == k then some value else if is_hop k then none else lookup k incoming

lookup-remove_hop :
    (name k : Text) (m : Dict Text Text) (v : Option Text)
    → is_hop name ≡ true
    → lookup k m ≡ (if is_hop k then none else v)
    → lookup k (remove name m) ≡ (if is_hop k then none else v)
lookup-remove_hop name k m v hop h = elim (Bool-cases (name == k)) [
  | inl same ↦
      let is = (text_beq_iff name k).0 same in
      let gone = sym (ap is_hop is) ∙ hop in lookup-remove name k m ∙ ground arith
  | inr other ↦ lookup-remove name k m ∙ ground arith
]

lookup-stripped :
    (k : Text) (incoming : Dict Text Text)
    → lookup k (stripped (forwarded incoming)) ≡ (if is_hop k then none else lookup k incoming)
unfolding is_hop
lookup-stripped k incoming =
    let v = lookup k incoming in
    let m = forwarded incoming in
    let m1 = remove (codes "Authorization") m in
    let m2 = remove (codes "authorization") m1 in
    let m3 = remove (codes "x-api-key") m2 in
    lookup-remove_hop (codes "X-Api-Key") k m3 v refl (
      lookup-remove_hop (codes "x-api-key") k m2 v refl (
        lookup-remove_hop (codes "authorization") k m1 v refl
          (lookup-remove_hop (codes "Authorization") k m v refl (lookup-forwarded k incoming))))

-- The credential that a provider's own key makes.
abbrev pub own_credential : Option Text → Option Text → Option (Text × Text)
own_credential none auth_header = none
own_credential (some key) auth_header = some (credential key auth_header)

-- Under each name a request to a provider carries the credential of the provider's own key, or
-- nothing if the name is one of the hop headers in any spelling, or else what came in: no
-- credential of the client or of the gateway is passed on, with a key or without.
pub build_outbound_headers_lem :
    (k : Text) (incoming : Dict Text Text) (api_key auth_header : Option Text)
    → lookup k (build_outbound_headers incoming api_key auth_header)
      ≡ sent k incoming (own_credential (given api_key) auth_header)
unfolding build_outbound_headers
build_outbound_headers_lem k incoming api_key auth_header = elim (Option-cases (given api_key)) [
  | inl keyless ↦ rw (keyless, build_outbound_headers) (lookup-stripped k incoming)
  | inr (key, has) ↦
      let c = credential key auth_header in
      rw (has, build_outbound_headers)
        (lookup-insert c.0 k c.1 (forwarded incoming)
          ∙ ap (λ x. if c.0 == k then some c.1 else x) (lookup-forwarded k incoming))
]
