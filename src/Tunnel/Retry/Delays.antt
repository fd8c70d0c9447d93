-- ===== src/Tunnel/Retry/Delays.antt =====
-- The delays of the retry scheduler, and that it never gives up.
use native.Mathlib.Nat.{add-zero, zero-add}
use magic_ai_router.Prelude.{
  ℕ, zero, suc, ◌+◌, ◌≤◌, ◌≡◌, refl, Bool, true, false, none, List, [], ◌∷◌, All, get_elem?, arith,
}
use magic_ai_router.Tunnel.Retry.{
  World, init, is_alive, delay_or, backoff, handle_error, mark_due, consume_due,
}

delay_or-le :
    (delays : List ℕ) (i max_delay cap : ℕ)
    → All (λ d. d ≤ cap) delays
    → max_delay ≤ cap
    → delay_or (get_elem? delays i) max_delay ≤ cap
delay_or-le [] i max_delay cap h k = k
delay_or-le (d ∷ ds) zero max_delay cap h k = h.0
delay_or-le (d ∷ ds) (suc i) max_delay cap h k = delay_or-le ds i max_delay cap h.1 k

-- A session is lost, the retry's thread fires, and the tick takes the retry.
unfoldable pub retry_round : World → World × Bool
retry_round w = consume_due (mark_due w.next (handle_error w))

unfoldable pub rounds : ℕ → World → World
rounds zero w = w
rounds (suc k) w = rounds k (retry_round w).0

-- However often the session was lost, a scheduler without a pending thread gives a retry that the
-- tick sees, and is again without one.
pub retry_round_due :
    (w : World)
    → is_alive w.timer w.threads ≡ false
    → ((retry_round w).1 ≡ true)
      × ((retry_round w).0.timer ≡ none)
      × ((retry_round w).0.retries ≡ w.retries + 1)
unfolding retry_round handle_error mark_due consume_due
retry_round_due w dead = ground arith

retry_round-table :
    (w : World)
    → w.timer ≡ none
    → ((retry_round w).0.delays ≡ w.delays) × ((retry_round w).0.max_delay ≡ w.max_delay)
unfolding retry_round handle_error mark_due consume_due
retry_round-table w idle = ground arith

add_one_suc : (r k : ℕ) → r + 1 + k ≡ r + suc k
add_one_suc r k = omega arith

backoff-rounds_from :
    (k : ℕ) (w : World)
    → w.timer ≡ none
    → backoff (rounds k w).scheduler ≡ delay_or (get_elem? w.delays (w.retries + k)) w.max_delay
unfolding rounds backoff
backoff-rounds_from zero w idle = rw (add-zero w.retries) refl
backoff-rounds_from (suc k) w idle =
    let next = (retry_round w).0 in
    let due = retry_round_due w (rw idle refl) in
    let table = retry_round-table w idle in
    ground (arith, backoff-rounds_from k next due.1, add_one_suc w.retries k)

-- After `k` rounds that found no connection the next delay is entry `k` of the table, and the cap
-- behind the table's end.
pub backoff-rounds :
    (delays : List ℕ) (max_delay k : ℕ)
    → backoff (rounds k (init delays max_delay)).scheduler ≡ delay_or (get_elem? delays k) max_delay
backoff-rounds delays max_delay k =
    rw (zero-add k) at (backoff-rounds_from k (init delays max_delay) refl)

-- Where no entry of the table and no cap exceeds a bound, no delay after any number of rounds does.
pub backoff-rounds-le :
    (delays : List ℕ) (max_delay k cap : ℕ)
    → All (λ d. d ≤ cap) delays
    → max_delay ≤ cap
    → backoff (rounds k (init delays max_delay)).scheduler ≤ cap
backoff-rounds-le delays max_delay k cap h m =
    rw (backoff-rounds delays max_delay k) (delay_or-le delays k max_delay cap h m)
