-- ===== src/Tests/Connection.antt =====
-- Runs of the retry scheduler and of the reconnect trigger of tunnel/.
use magic_ai_router.Prelude.{◌≡◌, refl, true, false, none, List, [], ◌∷◌}
use magic_ai_router.Tunnel.Retry.{
  init, backoff, handle_error, mark_due, consume_due, cancel, reset, Event, error_seen, consumed,
  cancelled, connected, fired, step, run, default_delays, default_max_delay, World,
}
use magic_ai_router.Tunnel.Retry.Timers.{IsSound, run_single}
use magic_ai_router.Tunnel.Retry.Delays.{retry_round, rounds}
use magic_ai_router.Tunnel.Trigger.{ReconnectTrigger, notify, fires}

retry : Unit {0}
unfolding backoff handle_error mark_due consume_due cancel reset step run retry_round rounds
retry = tt

abbrev start : World
start = init default_delays default_max_delay

-- An error, and the cancellation that its thread outlives.
abbrev raced : List Event
raced = error_seen ∷ cancelled ∷ error_seen ∷ fired 0 ∷ []

-- A second error starts no second thread, a cancelled thread makes nothing due, and the current one
-- does.
run_tests :
    ((run (error_seen ∷ error_seen ∷ []) start).next ≡ 1)
    × ((run raced start).due ≡ false)
    × ((run (error_seen ∷ cancelled ∷ error_seen ∷ fired 0 ∷ fired 1 ∷ []) start).due ≡ true)
    × ((run (error_seen ∷ fired 0 ∷ connected ∷ consumed ∷ []) start).due ≡ false)
unfolding retry
run_tests = (refl, refl, refl, refl)

backoff_tests :
    (backoff (rounds 2 start).scheduler ≡ 45) × (backoff (rounds 3 start).scheduler ≡ 60)
unfolding retry
backoff_tests = (refl, refl)

run_single_example : IsSound (run raced (init default_delays default_max_delay))
run_single_example = run_single default_delays default_max_delay raced

abbrev trigger : ReconnectTrigger
trigger = record { min_interval = 5; last_fire = none }

fires_test : fires trigger (1 ∷ 2 ∷ 6 ∷ 10 ∷ 11 ∷ []) ≡ 1 ∷ 6 ∷ 11 ∷ []
unfolding fires notify
fires_test = refl
