-- ===== src/Suanpan/Middleware/Limit.antt =====
-- How much of a counted body passes suanpan/middleware.py.
use magic_ai_router.Prelude.{
  ℕ, ◌+◌, ◌≤◌, ◌≡◌, List, [], ◌∷◌, Text, length, ltb, arith, inl, inr, Bool-cases,
}
use magic_ai_router.Suanpan.Middleware.{receive_all}

abbrev pub total : List Text → ℕ
total [] = 0
total (body ∷ bodies) = length body + total bodies

receive_all-le :
    (max_bytes received : ℕ) (bodies : List Text)
    → received ≤ max_bytes
    → (received + total (receive_all max_bytes received bodies).0 ≤ max_bytes)
      × ((receive_all max_bytes received bodies).1 ≡ ltb max_bytes (received + total bodies))
unfolding receive_all
receive_all-le max_bytes received [] h = (omega arith, ground arith)
receive_all-le max_bytes received (body ∷ bodies) h =
    elim (Bool-cases (ltb max_bytes (received + length body))) [
      | inl over ↦ ground arith
      | inr fits ↦ ground (arith, receive_all-le max_bytes (received + length body) bodies)
    ]

-- Of a counted body no more than the limit reaches the handler, in however many messages it comes,
-- and the limit ends the request exactly if the body is longer.
pub receive_all_lem :
    (max_bytes : ℕ) (bodies : List Text)
    → (total (receive_all max_bytes 0 bodies).0 ≤ max_bytes)
      × ((receive_all max_bytes 0 bodies).1 ≡ ltb max_bytes (total bodies))
receive_all_lem max_bytes bodies = ground (arith, receive_all-le max_bytes 0 bodies)
