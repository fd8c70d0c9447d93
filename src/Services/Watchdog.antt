-- ===== src/Services/Watchdog.antt =====
-- services/gateway_watchdog.py: when the gateway's runtime is rebuilt. The audit's answer, the
-- clock and the outcome of a rebuild are inputs; times are whole numbers of any one unit. The two
-- adapters differ in when a submitted job runs, so a job is a pending one until an event ends it.
pub mod Cases
pub mod Mutex
pub mod Threshold
pub mod Backoff
pub mod Response
use magic_ai_router.Prelude.{
  ℕ, ◌+◌, ◌%◌, ◌≡◌, max, Bool, true, false, not, Option, none, some, List, [], ◌∷◌, ltb, nat_beq,
  if◌then◌else◌,
}

pub record GatewayWatchdog : Type 0 where
  pub audit_every : ℕ
  pub miss_threshold : ℕ
  pub heal_backoff : ℕ
  pub ticks : ℕ
  pub misses : ℕ
  pub healing : Bool
  pub next_heal : ℕ

unfoldable pub init : ℕ → ℕ → ℕ → GatewayWatchdog
init audit_every miss_threshold heal_backoff = record {
  audit_every = max 1 audit_every;
  miss_threshold = max 1 miss_threshold;
  heal_backoff = heal_backoff;
  ticks = 0;
  misses = 0;
  healing = false;
  next_heal = 0;
}

-- What a tick does: nothing, for it is not an audit's turn or a job is running; an audit whose
-- mismatch is not acted upon; or a submitted job.
pub data Act : Type 0 where
  idle audited submitted : Act

-- The mismatch that an audit has found, at a time.
unfoldable pub missed : GatewayWatchdog → ℕ → GatewayWatchdog × Act
missed w now =
    if ltb w.misses w.miss_threshold
    then (w, audited)
    else if ltb now w.next_heal
    then (w, audited)
    else (record w { healing = true }, submitted)

unfoldable pub audit : GatewayWatchdog → Bool → ℕ → GatewayWatchdog × Act
audit w mismatch now =
    if mismatch
    then missed (record w { misses = w.misses + 1 }) now
    else (record w { misses = 0 }, audited)

unfoldable pub tick : GatewayWatchdog → Bool → ℕ → GatewayWatchdog × Act
tick w mismatch now =
    let w1 = record w { ticks = w.ticks + 1 } in
    if not (nat_beq (w1.ticks % w1.audit_every) 0)
    then (w1, idle)
    else if w1.healing
    then (w1, idle)
    else audit w1 mismatch now

-- What `start_fn` does: it answers whether the gateway is up, or raises.
pub data Outcome : Type 0 where
  started failed raised : Outcome

unfoldable pub heal_job : GatewayWatchdog → Outcome → ℕ → GatewayWatchdog
heal_job w started now = record w { next_heal = 0; misses = 0; healing = false }
heal_job w failed now = record w { next_heal = now + w.heal_backoff; misses = 0; healing = false }
heal_job w raised now = record w { misses = 0; healing = false }

-- A life of the watchdog: ticks, and the ends of submitted jobs, with the time of each.
pub data Event : Type 0 where
  ticked : Bool → ℕ → Event
  healed : Outcome → ℕ → Event

-- The watchdog with its executor, which holds the submitted jobs that have not ended.
pub record System : Type 0 where
  pub watchdog : GatewayWatchdog
  pub jobs : ℕ

abbrev pub submit : ℕ → GatewayWatchdog × Act → System
submit jobs (w, submitted) = record { watchdog = w; jobs = jobs + 1 }
submit jobs (w, _) = record { watchdog = w; jobs = jobs }

-- A job can end only where one is pending.
pub data Step : System → Event → System → Type 0 where
  tick_step :
      {s : System} {mismatch : Bool} {now : ℕ}
      → Step s (ticked mismatch now) (submit s.jobs (tick s.watchdog mismatch now))
  heal_step :
      {w : GatewayWatchdog} {n : ℕ} {o : Outcome} {now : ℕ}
      → Step
          record { watchdog = w; jobs = n + 1 }
          (healed o now)
          record { watchdog = heal_job w o now; jobs = n }

pub data Run : System → List Event → System → Type 0 where
  done : {s : System} → Run s [] s
  more : {a b c : System} {e : Event} {es : List Event} → Step a e b → Run b es c → Run a (e ∷ es) c
