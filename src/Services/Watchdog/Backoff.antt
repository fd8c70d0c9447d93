-- ===== src/Services/Watchdog/Backoff.antt =====
-- After a rebuild of services/gateway_watchdog.py has failed, none is ordered for the backoff.
use magic_ai_router.Prelude.{ℕ, ◌+◌, ◌≡◌, ◌<◌, refl, Bool, false, List, [], ◌∷◌, arith}
use magic_ai_router.Services.Watchdog.{
  GatewayWatchdog, heal_job, Outcome, failed, Event, ticked, healed, System, submit, tick,
  tick_step, heal_step, Run, done, more,
}
use magic_ai_router.Services.Watchdog.Cases.{
  off_turn, busy, matching, too_few, too_early, due, tick-cases,
}

-- All ticks of the events come before a time.
pub data Before (end : ℕ) : List Event → Type 0 where
  nothing : Before end []
  tick_before :
      {mismatch : Bool} {now : ℕ} {es : List Event}
      → now < end
      → Before end es
      → Before end (ticked mismatch now ∷ es)
  heal_before :
      {o : Outcome} {now : ℕ} {es : List Event} → Before end es → Before end (healed o now ∷ es)

-- No job is pending, and none is to be submitted before a time.
record IsQuiet (end : ℕ) (s : System) : Type 0 where
  unsent : s.jobs ≡ 0
  free : s.watchdog.healing ≡ false
  closed : s.watchdog.next_heal ≡ end

tick_step-IsQuiet :
    (end : ℕ) (s : System) (mismatch : Bool) (now : ℕ)
    → now < end
    → IsQuiet end s
    → IsQuiet end (submit s.jobs (tick s.watchdog mismatch now))
tick_step-IsQuiet end s mismatch now early q = elim (tick-cases s.watchdog mismatch now) [
  | off_turn _ e ↦ rw e (record { unsent = q.unsent; free = q.free; closed = q.closed })
  | busy _ e ↦ rw e (record { unsent = q.unsent; free = q.free; closed = q.closed })
  | matching _ _ _ e ↦ rw e (record { unsent = q.unsent; free = q.free; closed = q.closed })
  | too_few _ _ _ _ e ↦ rw e (record { unsent = q.unsent; free = q.free; closed = q.closed })
  | too_early _ _ _ _ e ↦ rw e (record { unsent = q.unsent; free = q.free; closed = q.closed })
  | due _ _ _ _ late e ↦ let until = q.closed in ground arith
]

run-IsQuiet :
    {end : ℕ} {a b : System} {es : List Event}
    → Run a es b
    → Before end es
    → IsQuiet end a
    → IsQuiet end b
run-IsQuiet done _ q = q
run-IsQuiet {end} (more (tick_step {s} {mismatch} {now}) r) (tick_before early bs) q =
    run-IsQuiet r bs (tick_step-IsQuiet end s mismatch now early q)
run-IsQuiet (more heal_step r) (heal_before bs) q = let sent = q.unsent in ground arith

-- When a rebuild has failed at a time, every tick before that time plus the backoff submits
-- nothing: after any such ticks no job is pending.
pub failed-backs_off :
    (w : GatewayWatchdog) (at : ℕ) {b : System} {es : List Event}
    → Run record { watchdog = heal_job w failed at; jobs = 0 } es b
    → Before (at + w.heal_backoff) es
    → b.jobs ≡ 0
unfolding heal_job
failed-backs_off w at r bs =
    (run-IsQuiet r bs (record { unsent = refl; free = refl; closed = refl })).unsent
