-- ===== src/Services/Watchdog/Threshold.antt =====
-- A rebuild of services/gateway_watchdog.py is never ordered by fewer mismatches in a row than the
-- threshold asks for.
use magic_ai_router.Prelude.{
  ℕ, zero, suc, ◌+◌, ◌≡◌, ◌≤◌, ◌<◌, refl, Bool, true, false, some, List, [], ◌∷◌, arith, get_elem?,
  ap,
}
use magic_ai_router.Services.Watchdog.{
  GatewayWatchdog, heal_job, started, failed, raised, Outcome, Act, idle, audited, submitted, init,
  tick,
}
use magic_ai_router.Services.Watchdog.Cases.{
  off_turn, busy, matching, too_few, too_early, due, tick-cases,
}

-- The answers of the audits so far, the newest first, where the end of a job counts as a match.
abbrev pub noted : Act → Bool → List Bool → List Bool
noted idle mismatch seen = seen
noted audited mismatch seen = mismatch ∷ seen
noted submitted mismatch seen = mismatch ∷ seen

-- The states that a watchdog can be in, each with what it has seen.
pub data Seen (every threshold backoff : ℕ) : GatewayWatchdog → List Bool → Type 0 where
  fresh : Seen every threshold backoff (init every threshold backoff) []
  tick_seen :
      {w : GatewayWatchdog} {seen : List Bool}
      → (mismatch : Bool) (now : ℕ) → Seen every threshold backoff w seen
      → Seen every threshold backoff
          ((tick w mismatch now).0)
          (noted ((tick w mismatch now).1) mismatch seen)
  heal_seen :
      {w : GatewayWatchdog} {seen : List Bool}
      → (o : Outcome) (now : ℕ) → Seen every threshold backoff w seen
      → Seen every threshold backoff (heal_job w o now) (false ∷ seen)

-- The newest n answers are mismatches.
abbrev pub Streak : ℕ → List Bool → Type 0
Streak n seen = (k : ℕ) → k < n → get_elem? seen k ≡ some true

Streak-cons :
    (n : ℕ) (m : Bool) (seen : List Bool) → m ≡ true → Streak n seen → Streak (n + 1) (m ∷ seen)
Streak-cons n m seen up h zero lt = ap some up
Streak-cons n m seen up h (suc k) lt = h k (omega arith)

Streak-zero : (seen : List Bool) → Streak 0 seen
Streak-zero seen k lt = ground arith

tick-Streak :
    (w : GatewayWatchdog) (mismatch : Bool) (now : ℕ) (seen : List Bool)
    → Streak w.misses seen
    → Streak (((tick w mismatch now).0).misses) (noted ((tick w mismatch now).1) mismatch seen)
tick-Streak w mismatch now seen h = elim (tick-cases w mismatch now) [
  | off_turn _ e ↦ rw e h
  | busy _ e ↦ rw e h
  | matching _ _ _ e ↦ rw e (Streak-zero (mismatch ∷ seen))
  | too_few _ _ m _ e ↦ rw e (Streak-cons w.misses mismatch seen m h)
  | too_early _ _ m _ e ↦ rw e (Streak-cons w.misses mismatch seen m h)
  | due _ _ m _ _ e ↦ rw e (Streak-cons w.misses mismatch seen m h)
]

-- The count of misses is one of answers in a row.
Seen-Streak :
    {every threshold backoff : ℕ} {w : GatewayWatchdog} {seen : List Bool}
    → Seen every threshold backoff w seen
    → Streak w.misses seen
unfolding init heal_job
Seen-Streak fresh = Streak-zero []
Seen-Streak (tick_seen {w} {seen} mismatch now s) = tick-Streak w mismatch now seen (Seen-Streak s)
Seen-Streak (heal_seen {w} {seen} started now s) = Streak-zero (false ∷ seen)
Seen-Streak (heal_seen {w} {seen} failed now s) = Streak-zero (false ∷ seen)
Seen-Streak (heal_seen {w} {seen} raised now s) = Streak-zero (false ∷ seen)

tick-miss_threshold :
    (w : GatewayWatchdog) (mismatch : Bool) (now : ℕ)
    → ((tick w mismatch now).0).miss_threshold ≡ w.miss_threshold
tick-miss_threshold w mismatch now = elim (tick-cases w mismatch now) [
  | off_turn _ e ↦ rw e refl
  | busy _ e ↦ rw e refl
  | matching _ _ _ e ↦ rw e refl
  | too_few _ _ _ _ e ↦ rw e refl
  | too_early _ _ _ _ e ↦ rw e refl
  | due _ _ _ _ _ e ↦ rw e refl
]

Seen-threshold :
    {every threshold backoff : ℕ} {w : GatewayWatchdog} {seen : List Bool}
    → Seen every threshold backoff w seen
    → threshold ≤ w.miss_threshold
unfolding init heal_job
Seen-threshold fresh = omega arith
Seen-threshold (tick_seen {w} {seen} mismatch now s) =
    rw (tick-miss_threshold w mismatch now) (Seen-threshold s)
Seen-threshold (heal_seen {w} {seen} started now s) = Seen-threshold s
Seen-threshold (heal_seen {w} {seen} failed now s) = Seen-threshold s
Seen-threshold (heal_seen {w} {seen} raised now s) = Seen-threshold s

-- If a tick submits a job, then the last audits, this tick's included and as many as the threshold
-- asks for, have all found a mismatch, and no job has ended between them.
pub submitted-Streak :
    {every threshold backoff : ℕ} {w : GatewayWatchdog} {seen : List Bool} (mismatch : Bool)
    (now : ℕ)
    → Seen every threshold backoff w seen
    → (tick w mismatch now).1 ≡ submitted
    → Streak threshold (mismatch ∷ seen)
submitted-Streak {w} {seen} mismatch now s sent k lt = elim (tick-cases w mismatch now) [
  | off_turn _ e ↦ ground arith
  | busy _ e ↦ ground arith
  | matching _ _ _ e ↦ ground arith
  | too_few _ _ _ _ e ↦ ground arith
  | too_early _ _ _ _ e ↦ ground arith
  | due _ _ m enough _ e ↦
      let all = Seen-threshold s in
      Streak-cons w.misses mismatch seen m (Seen-Streak s) k (omega arith)
]
