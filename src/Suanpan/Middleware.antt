-- ===== src/Suanpan/Middleware.antt =====
-- suanpan/middleware.py: the gate of the gateway's key, and the limit of a request's body. A header
-- is `none` where the request has none.
pub mod Gate
pub mod Limit
use magic_ai_router.Prelude.{
  ℕ, ◌+◌, Bool, true, false, not, ◌&&◌, ◌||◌, Option, none, some, List, [], ◌∷◌, map, Text, codes,
  length, drop, leb, ltb, starts_with, strip, text_beq, text_key, ◌==◌, is_some, if◌then◌else◌,
}
use magic_ai_router.Json.{ℤ, pos, negsuc}
use magic_ai_router.Tunnel.Framer.Integers.{parse_int}

-- What a middleware answers itself, or that it calls the next one.
pub data Answer : Type 0 where
  call_next : Answer
  status : ℕ → Answer

abbrev pub is_public : Text → Bool
is_public path = path == codes "/health"

-- `encode("utf-8", "replace")`: a surrogate becomes "?", and other code points have bytes of their
-- own.
abbrev pub encodable : ℕ → ℕ
encodable c = if leb 55296 c && leb c 57343 then b'?' else c

abbrev pub encoded : Text → Text
encoded = map encodable

-- The token of an `authorization` header, where it has the scheme; else what was there.
unfoldable pub bearer : Option Text → Option Text → Option Text
bearer none other = other
bearer (some auth) other =
    if starts_with auth (codes "Bearer ")
    then some (drop (length (codes "Bearer ")) auth)
    else other

-- The credential that a request brings.
unfoldable pub provided : Option Text → Option Text → Option Text
provided (some (c ∷ key)) auth = some (c ∷ key)
provided (some []) auth = bearer auth (some [])
provided none auth = bearer auth none

unfoldable pub check_key : Text → Option Text → Answer
check_key api_key none = status 401
check_key api_key (some key) =
    if text_beq (encoded key) (encoded api_key) then call_next else status 401

-- `APIKeyMiddleware.dispatch`
unfoldable pub dispatch_key : Text → Text → Option Text → Option Text → Answer
dispatch_key api_key path x_api_key auth =
    if is_public path then call_next else check_key api_key (provided x_api_key auth)

-- Whether the messages of the body are counted.
pub data Admission : Type 0 where
  uncounted counted : Admission
  rejected : ℕ → Admission

abbrev exceeds : ℤ → ℕ → Bool
exceeds (pos n) max_bytes = ltb max_bytes n
exceeds (negsuc n) max_bytes = false

abbrev has_body : Text → Bool
has_body method = method == codes "POST" || method == codes "PUT" || method == codes "PATCH"

-- `BodyLimitMiddleware.dispatch` up to the call of the next one. An empty header is false, and not
-- `None`.
unfoldable pub admit : ℕ → Option Text → Text → Admission
admit max_bytes none method = if has_body method then counted else uncounted
admit max_bytes (some []) method = uncounted
admit max_bytes (some (c ∷ cl)) method = elim (parse_int 10 (strip (c ∷ cl))) [
  | none ↦ rejected 400
  | some n ↦ if exceeds n max_bytes then rejected 413 else uncounted
]

-- `limited_receive` for the body of one message: the count, or `_BodyTooLarge`.
abbrev pub limited_receive : ℕ → ℕ → Text → Option ℕ
limited_receive max_bytes received body =
    if ltb max_bytes (received + length body) then none else some (received + length body)

-- The bodies that reach the handler when it reads them all, and whether the limit ends it.
unfoldable pub receive_all : ℕ → ℕ → List Text → List Text × Bool
receive_all max_bytes received [] = ([], false)
receive_all max_bytes received (body ∷ bodies) =
    let (more, over) = receive_all max_bytes (received + length body) bodies in
    if is_some (limited_receive max_bytes received body) then (body ∷ more, over) else ([], true)
