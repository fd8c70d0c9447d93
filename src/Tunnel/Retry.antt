-- ===== src/Tunnel/Retry.antt =====
-- tunnel/retry_scheduler.py: retries of a lost SSH session, with a growing delay. A timer's thread
-- runs beside the scheduler, and one that was cancelled may still be on its way into `_mark_due`:
-- the threads that have not ended are part of the state, and the order of events is free.
pub mod Timers
pub mod Delays
use magic_ai_router.Prelude.{
  ℕ, zero, suc, ◌+◌, Bool, true, false, Option, none, some, List, [], ◌∷◌, get_elem?, nat_beq,
  if◌then◌else◌,
}

-- `threading.Timer(delay, self._mark_due, args=(generation,))`; the number tells threads apart.
pub record Timer : Type 0 where
  pub number : ℕ
  pub generation : ℕ
  pub delay : ℕ

pub record RetryScheduler : Type 0 where
  pub delays : List ℕ
  pub max_delay : ℕ
  pub retries : ℕ
  pub timer : Option ℕ
  pub due : Bool
  pub generation : ℕ

-- The scheduler, the threads that have not ended, and the number of the next one.
pub record World : Type 0 where
  pub scheduler : RetryScheduler
  pub open scheduler use *
  pub threads : List Timer
  pub next : ℕ

abbrev pub default_delays : List ℕ
default_delays = 5 ∷ 15 ∷ 45 ∷ []

abbrev pub default_max_delay : ℕ
default_max_delay = 60

abbrev pub init : List ℕ → ℕ → World
init delays max_delay = record {
  scheduler = record {
    delays = delays;
    max_delay = max_delay;
    retries = 0;
    timer = none;
    due = false;
    generation = 0;
  };
  threads = [];
  next = 0;
}

abbrev pub find : ℕ → List Timer → Option Timer
find n [] = none
find n (t ∷ ts) = if nat_beq t.number n then some t else find n ts

-- The threads but for thread `n`, which is there once.
abbrev pub without : ℕ → List Timer → List Timer
without n [] = []
without n (t ∷ ts) = if nat_beq t.number n then ts else t ∷ without n ts

-- `self._timer and self._timer.is_alive()`
abbrev pub is_alive : Option ℕ → List Timer → Bool
is_alive none ts = false
is_alive (some n) ts = elim (find n ts) [ none ↦ false | some t ↦ true ]

abbrev delay_or : Option ℕ → ℕ → ℕ
delay_or none d = d
delay_or (some n) d = n

-- The table's delay, and the cap behind its end.
unfoldable pub backoff : RetryScheduler → ℕ
backoff s = delay_or (get_elem? s.delays s.retries) s.max_delay

unfoldable pub handle_error : World → World
handle_error w = if is_alive w.timer w.threads then w else record w {
  scheduler = record w.scheduler { retries = w.retries + 1; timer = some w.next };
  threads =
      record { number = w.next; generation = w.generation; delay = backoff w.scheduler }
      ∷ w.threads;
  next = w.next + 1;
}

abbrev mark_due_on : ℕ → RetryScheduler → RetryScheduler
mark_due_on generation s =
    if nat_beq generation s.generation then record s { due = true; timer = none } else s

-- Thread `n` calls `_mark_due` with its generation, and ends.
unfoldable pub mark_due : ℕ → World → World
mark_due n w = elim (find n w.threads) [
  | none ↦ w
  | some t ↦ record w {
    scheduler = mark_due_on t.generation w.scheduler;
    threads = without n w.threads;
  }
]

unfoldable pub consume_due : World → World × Bool
consume_due w = (record w { scheduler = record w.scheduler { due = false } }, w.due)

-- `Timer.cancel` asks the thread to end, and the thread may be past the point where it looks: it
-- stays among those that may still fire, until it does or `ended` takes it away.
unfoldable pub cancel : World → World
cancel w = record w {
  scheduler = record w.scheduler {
    generation = w.generation + 1;
    due = false;
    timer = none;
    retries = 0;
  };
}

unfoldable pub reset : World → World
reset w = record w { scheduler = record w.scheduler { retries = 0 } }

-- A cancelled thread ends without a call.
ended : ℕ → World → World
ended n w = elim (find n w.threads) [
  | none ↦ w
  | some t ↦
      if nat_beq t.generation w.generation then w else record w { threads = without n w.threads }
]

pub data Event : Type 0 where
  error_seen consumed cancelled connected : Event
  fired thread_ended : ℕ → Event

unfoldable pub step : Event → World → World
unfolding ended
step error_seen w = handle_error w
step consumed w = (consume_due w).0
step cancelled w = cancel w
step connected w = reset w
step (fired n) w = mark_due n w
step (thread_ended n) w = ended n w

unfoldable pub run : List Event → World → World
run [] w = w
run (e ∷ es) w = run es (step e w)
