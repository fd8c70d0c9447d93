-- ===== src/Services/Watchdog/Mutex.antt =====
-- At most one rebuild of services/gateway_watchdog.py is pending at any time.
use magic_ai_router.Prelude.{ℕ, ◌≡◌, Bool, List, arith, if◌then◌else◌}
use magic_ai_router.Services.Watchdog.{
  heal_job, Event, System, submit, Step, tick, tick_step, heal_step, Run, done, more,
}
use magic_ai_router.Services.Watchdog.Cases.{
  off_turn, busy, matching, too_few, too_early, due, tick-cases,
}

-- The busy flag is set exactly while the one job is pending.
abbrev pub IsExclusive : System → Type 0
IsExclusive s = s.jobs ≡ (if s.watchdog.healing then 1 else 0)

tick_step-IsExclusive :
    (s : System) (mismatch : Bool) (now : ℕ)
    → IsExclusive s
    → IsExclusive (submit s.jobs (tick s.watchdog mismatch now))
tick_step-IsExclusive s mismatch now h = elim (tick-cases s.watchdog mismatch now) [
  | off_turn _ e ↦ rw e h
  | busy _ e ↦ rw e h
  | matching _ _ _ e ↦ rw e h
  | too_few _ _ _ _ e ↦ rw e h
  | too_early _ _ _ _ e ↦ rw e h
  | due _ off _ _ _ e ↦ rw e (ground arith)
]

Step-IsExclusive : {a b : System} {e : Event} → Step a e b → IsExclusive a → IsExclusive b
unfolding heal_job
Step-IsExclusive (tick_step {s} {mismatch} {now}) h = tick_step-IsExclusive s mismatch now h
Step-IsExclusive (heal_step {w} {n} {o} {now}) h = ground arith

-- From a state in which the busy flag says whether a job is pending, after any ticks and ends of
-- jobs, it still does, and never two jobs are pending.
pub run-IsExclusive : {a b : System} {es : List Event} → Run a es b → IsExclusive a → IsExclusive b
run-IsExclusive done h = h
run-IsExclusive (more s r) h = run-IsExclusive r (Step-IsExclusive s h)
