-- ===== src/Tests/Gateway.antt =====
-- Runs of services/gateway_watchdog.py.
use magic_ai_router.Prelude.{◌≡◌, refl, true, false, [], ◌∷◌, arith}
use magic_ai_router.Services.Watchdog.{
  GatewayWatchdog, init, missed, audit, tick, audited, submitted, failed, heal_job, ticked, System,
  submit, tick_step, Run, done, more,
}
use magic_ai_router.Services.Watchdog.Mutex.{IsExclusive, run-IsExclusive}
use magic_ai_router.Services.Watchdog.Threshold.{fresh, tick_seen, Streak, submitted-Streak}
use magic_ai_router.Services.Watchdog.Response.{persist, persist-healing}

gateway : Unit {0}
unfolding init missed audit tick heal_job persist
gateway = tt

-- Every tick audits, and two mismatches in a row are enough.
abbrev eager : GatewayWatchdog
eager = record {
  audit_every = 1;
  miss_threshold = 2;
  heal_backoff = 30;
  ticks = 0;
  misses = 0;
  healing = false;
  next_heal = 0;
}

abbrev warned : GatewayWatchdog
warned = record eager { ticks = 1; misses = 1 }

tick_tests :
    (tick eager true 5 ≡ (warned, audited))
    × (tick warned true 6 ≡ (record eager { ticks = 2; misses = 2; healing = true }, submitted))
    × (tick warned false 6 ≡ (record eager { ticks = 2 }, audited))
    × ((tick (record warned { next_heal = 9 }) true 6).1 ≡ audited)
    × ((heal_job warned failed 6).next_heal ≡ 36)
unfolding gateway
tick_tests = (refl, refl, refl, refl, refl)

abbrev initial : System
initial = record { watchdog = eager; jobs = 0 }

-- The system after the second of two mismatches.
abbrev sent : System
sent = record { watchdog = record eager { ticks = 2; misses = 2; healing = true }; jobs = 1 }

dying : Run initial (ticked true 5 ∷ ticked true 6 ∷ []) sent
unfolding gateway
dying = more tick_step (more tick_step done)

run-IsExclusive_example : IsExclusive sent
run-IsExclusive_example = run-IsExclusive dying refl

submitted-Streak_example : Streak 2 (true ∷ true ∷ [])
unfolding gateway
submitted-Streak_example =
    submitted-Streak {every = 1} {threshold = 2} {backoff = 30} true 6 (tick_seen true 5 fresh) refl

abbrev backing_off :
    Run
      record { watchdog = heal_job warned failed 6; jobs = 0 }
      (ticked true 7 ∷ [])
      (submit 0 (tick (heal_job warned failed 6) true 7))
backing_off = more tick_step done

persist-healing_example : (persist (5 ∷ 6 ∷ []) eager).healing ≡ true
persist-healing_example =
    persist-healing eager (5 ∷ 6 ∷ []) (omega arith) (omega arith) (omega arith, (omega arith, tt))
      (omega arith)
