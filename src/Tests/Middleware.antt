-- ===== src/Tests/Middleware.antt =====
-- Requests before suanpan/middleware.py.
use magic_ai_router.Prelude.{
  ◌≡◌, ◌↔◌, ◌⊎◌, refl, none, some, List, [], ◌∷◌, Text, codes, starts_with, strip, lstrip, rstrip,
}
use magic_ai_router.Tunnel.Framer.Integers.{parse_int}
use magic_ai_router.Suanpan.Middleware.{
  call_next, status, bearer, provided, check_key, dispatch_key, uncounted, counted, rejected, admit,
  receive_all,
}
use magic_ai_router.Suanpan.Middleware.Gate.{Fits, dispatch_key_iff}

middleware : Unit {0}
unfolding bearer provided check_key dispatch_key admit receive_all starts_with strip lstrip rstrip
    parse_int
middleware = tt

dispatch_key_tests :
    (dispatch_key (codes "k") (codes "/health") none none ≡ call_next)
    × (dispatch_key (codes "k") (codes "/v1") none (some (codes "Bearer k")) ≡ call_next)
    × (dispatch_key (codes "k") (codes "/v1") (some []) (some (codes "Bearer k")) ≡ call_next)
    × (dispatch_key (codes "k") (codes "/v1") (some (codes "x")) (some (codes "Bearer k"))
        ≡ status 401)
    × (dispatch_key (codes "k") (codes "/v1") none (some (codes "Basic k")) ≡ status 401)
unfolding middleware
dispatch_key_tests = (refl, refl, refl, refl, refl)

admit_tests :
    (admit 9 (some (codes "10")) (codes "POST") ≡ rejected 413)
    × (admit 9 (some (codes "x")) (codes "POST") ≡ rejected 400)
    × (admit 9 (some (codes "9")) (codes "POST") ≡ uncounted)
    × (admit 9 none (codes "PUT") ≡ counted)
    × (admit 9 none (codes "GET") ≡ uncounted)
unfolding middleware
admit_tests = (refl, refl, refl, refl, refl)

dispatch_key_iff_example :
    (dispatch_key (codes "k") (codes "/v1") none (some (codes "Bearer k")) ≡ call_next)
    ↔ ((codes "/v1" ≡ codes "/health") ⊎ Fits (codes "k") none (some (codes "Bearer k")))
dispatch_key_iff_example = dispatch_key_iff (codes "k") (codes "/v1") none (some (codes "Bearer k"))

abbrev bodies : List Text
bodies = codes "abc" ∷ codes "def" ∷ codes "g" ∷ []
