-- ===== src/Shared/ProviderAuth.antt =====
-- shared/provider_auth.py: the key of a provider, and the headers of a request to it.
pub mod Registry
pub mod Headers
use magic_ai_router.Prelude.{
  Bool, true, false, not, ◌&&◌, Option, none, some, List, [], ◌∷◌, ◌++◌, Text, Dict, codes, lower,
  contains, insert, remove, text_key, ◌==◌, if◌then◌else◌,
}

abbrev pub hop_headers : List Text
hop_headers =
    codes "host"
    ∷ codes "content-length"
    ∷ codes "connection"
    ∷ codes "keep-alive"
    ∷ codes "transfer-encoding"
    ∷ codes "upgrade"
    ∷ codes "authorization"
    ∷ codes "x-api-key"
    ∷ []

-- `k.lower() in HOP_HEADERS`
unfoldable pub is_hop : Text → Bool
is_hop k = contains (lower k) hop_headers

-- A text that is `None` or empty is false.
unfoldable pub given : Option Text → Option Text
given (some []) = none
given other = other

unfoldable pub restore_masked_key : Option Text → Option Text → Bool → Option Text
unfolding given
restore_masked_key new old keep = elim (given new) [
  | none ↦ if keep then old else none
  | some key ↦ some key
]

-- `environ` is `os.environ.get`.
unfoldable pub resolve_api_key : (Text → Option Text) → Option Text → Option Text → Option Text
unfolding given
resolve_api_key environ api_key api_key_env = elim (given api_key) [
  | some key ↦ some key
  | none ↦ elim (given api_key_env) [ none ↦ none | some env ↦ environ env ]
]

unfoldable pub forwarded : Dict Text Text → Dict Text Text
forwarded [] = []
forwarded ((k, v) ∷ incoming) =
    let rest = forwarded incoming in if is_hop k then rest else (k, v) ∷ rest

-- The header that carries a key, under the provider's convention.
unfoldable pub credential : Text → Option Text → Text × Text
credential key none = (codes "Authorization", codes "Bearer " ++ key)
credential key (some header) =
    if lower header == codes "x-api-key"
    then (codes "x-api-key", key)
    else (codes "Authorization", codes "Bearer " ++ key)

-- Without a key every spelling of a credential goes.
abbrev pub stripped : Dict Text Text → Dict Text Text
stripped out = remove (codes "X-Api-Key") (
    remove (codes "x-api-key")
      (remove (codes "authorization") (remove (codes "Authorization") out)))

unfoldable pub build_outbound_headers : Dict Text Text → Option Text → Option Text → Dict Text Text
unfolding given forwarded credential
build_outbound_headers incoming api_key auth_header = elim (given api_key) [
  | none ↦ stripped (forwarded incoming)
  | some key ↦
      let (name, value) = credential key auth_header in insert name value (forwarded incoming)
]
