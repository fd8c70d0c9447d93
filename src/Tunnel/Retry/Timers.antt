-- ===== src/Tunnel/Retry/Timers.antt =====
-- The threads of the retry scheduler: at most one of them can make a retry due.
use magic_ai_router.Prelude.{
  ℕ, suc, ◌+◌, ◌≤◌, ◌≡◌, refl, ◌∙◌, false, Option, none, some, List, [], ◌∷◌, All, arith, nat_beq,
  Bool-cases, Option-cases, inl, inr, if◌then◌else◌,
}
use magic_ai_router.Tunnel.Retry.{
  Timer, World, init, find, without, is_alive, handle_error, mark_due, consume_due, cancel, reset,
  ended, Event, error_seen, consumed, cancelled, connected, fired, thread_ended, step, run, backoff,
}

-- The threads of a generation.
abbrev pub live : ℕ → List Timer → ℕ
live g [] = 0
live g (t ∷ ts) = if nat_beq t.generation g then suc (live g ts) else live g ts

-- Where the scheduler has a timer, it is a thread of the current generation; where it has none, no
-- thread is of that generation.
abbrev pub Owned : Option ℕ → ℕ → List Timer → Type 0
Owned none g ts = live g ts ≡ 0
Owned (some n) g ts = (t : Timer) × (find n ts ≡ some t) × (t.generation ≡ g)

pub record IsSound (w : World) : Type 0 where
  pub old : All (λ t. t.generation ≤ w.generation) w.threads
  pub single : live w.generation w.threads ≤ 1
  pub owned : Owned w.timer w.generation w.threads

init-IsSound : (delays : List ℕ) (max_delay : ℕ) → IsSound (init delays max_delay)
init-IsSound delays max_delay = record { old = tt; single = omega arith; owned = refl }

All-le_suc :
    (g : ℕ) (ts : List Timer)
    → All (λ t. t.generation ≤ g) ts
    → All (λ t. t.generation ≤ g + 1) ts × (live (g + 1) ts ≡ 0)
All-le_suc g [] h = (tt, refl)
All-le_suc g (t ∷ ts) h = ground (arith, All-le_suc g ts h.1)

All-without :
    (g n : ℕ) (ts : List Timer)
    → All (λ t. t.generation ≤ g) ts
    → All (λ t. t.generation ≤ g) (without n ts)
All-without g n [] h = tt
All-without g n (t ∷ ts) h = ground (arith, All-without g n ts h.1)

live-without :
    (g n : ℕ) (ts : List Timer) (t : Timer)
    → find n ts ≡ some t
    → live g (without n ts) + (if nat_beq t.generation g then 1 else 0) ≡ live g ts
live-without g n [] t h = cc
live-without g n (u ∷ ts) t h = ground (arith, live-without g n ts t)

find-without : (n m : ℕ) (ts : List Timer) → nat_beq n m ≡ false → find m (without n ts) ≡ find m ts
find-without n m [] h = refl
find-without n m (t ∷ ts) h = ground (arith, find-without n m ts h)

-- A thread of another generation takes nothing from the scheduler's timer.
Owned-without :
    (timer : Option ℕ) (g n : ℕ) (ts : List Timer) (t : Timer)
    → find n ts ≡ some t
    → nat_beq t.generation g ≡ false
    → Owned timer g ts
    → Owned timer g (without n ts)
Owned-without none g n ts t h other o = ground (arith, live-without g n ts t h)
Owned-without (some m) g n ts t h other (u, found, same) = elim (Bool-cases (nat_beq n m)) [
  | inl is ↦ absurd (ground arith)
  | inr is_not ↦ (u, find-without n m ts is_not ∙ found, same)
]

live_of_dead :
    (timer : Option ℕ) (g : ℕ) (ts : List Timer)
    → Owned timer g ts
    → is_alive timer ts ≡ false
    → live g ts ≡ 0
live_of_dead none g ts o dead = o
live_of_dead (some n) g ts (t, found, same) dead = absurd (ground arith)

handle_error-IsSound : (w : World) → IsSound w → IsSound (handle_error w)
unfolding handle_error
handle_error-IsSound w s = elim (Bool-cases (is_alive w.timer w.threads)) [
  | inl alive ↦ rw alive s
  | inr dead ↦
      let free = live_of_dead w.timer w.generation w.threads s.owned dead in
      rw dead (record {
        old = (omega arith, s.old);
        single = ground arith;
        owned = (
          record { number = w.next; generation = w.generation; delay = backoff w.scheduler },
          ground arith,
          refl,
        );
      })
]

without-IsSound :
    (n : ℕ) (w : World) (t : Timer)
    → find n w.threads ≡ some t
    → nat_beq t.generation w.generation ≡ false
    → IsSound w
    → IsSound (record w { threads = without n w.threads })
without-IsSound n w t found other s = record {
  old = All-without w.generation n w.threads s.old;
  single = ground (arith, live-without w.generation n w.threads t found);
  owned = Owned-without w.timer w.generation n w.threads t found other s.owned;
}

mark_due-IsSound : (n : ℕ) (w : World) → IsSound w → IsSound (mark_due n w)
unfolding mark_due
mark_due-IsSound n w s = elim (Option-cases (find n w.threads)) [
  | inl gone ↦ rw (gone, mark_due) s
  | inr (t, found) ↦ elim (Bool-cases (nat_beq t.generation w.generation)) [
    | inr stale ↦ rw (found, mark_due, stale) (without-IsSound n w t found stale s)
    | inl current ↦
        let left = live-without w.generation n w.threads t found in
        rw (found, mark_due, current)
          (record {
            old = All-without w.generation n w.threads s.old;
            single = ground arith;
            owned = ground arith;
          })
  ]
]

ended-IsSound : (n : ℕ) (w : World) → IsSound w → IsSound (ended n w)
unfolding ended
ended-IsSound n w s = elim (Option-cases (find n w.threads)) [
  | inl gone ↦ rw (gone, ended) s
  | inr (t, found) ↦ elim (Bool-cases (nat_beq t.generation w.generation)) [
    | inl current ↦ rw (found, ended, current) s
    | inr stale ↦ rw (found, ended, stale) (without-IsSound n w t found stale s)
  ]
]

cancel-IsSound : (w : World) → IsSound w → IsSound (cancel w)
unfolding cancel
cancel-IsSound w s = record {
  old = (All-le_suc w.generation w.threads s.old).0;
  single = omega (arith, (All-le_suc w.generation w.threads s.old).1);
  owned = (All-le_suc w.generation w.threads s.old).1;
}

step-IsSound : (e : Event) (w : World) → IsSound w → IsSound (step e w)
unfolding step consume_due reset
step-IsSound error_seen w s = handle_error-IsSound w s
step-IsSound consumed w s = record { old = s.old; single = s.single; owned = s.owned }
step-IsSound cancelled w s = cancel-IsSound w s
step-IsSound connected w s = record { old = s.old; single = s.single; owned = s.owned }
step-IsSound (fired n) w s = mark_due-IsSound n w s
step-IsSound (thread_ended n) w s = ended-IsSound n w s

run-IsSound : (es : List Event) (w : World) → IsSound w → IsSound (run es w)
unfolding run
run-IsSound [] w s = s
run-IsSound (e ∷ es) w s = run-IsSound es (step e w) (step-IsSound e w s)

-- After any sequence of errors, ticks, cancellations, connections and timers, at most one thread is
-- of the current generation, and it is the scheduler's timer.
pub run_single :
    (delays : List ℕ) (max_delay : ℕ) (es : List Event) → IsSound (run es (init delays max_delay))
run_single delays max_delay es = run-IsSound es _ (init-IsSound delays max_delay)

-- Anything but a new error.
abbrev pub IsQuiet : Event → Type 0
IsQuiet error_seen = ⊥
IsQuiet _ = Unit

-- Nothing is due, and no thread can make it so.
record IsIdle (w : World) : Type 0 where
  old : All (λ t. t.generation ≤ w.generation) w.threads
  none_live : live w.generation w.threads ≡ 0
  not_due : w.due ≡ false

live_of_find :
    (g n : ℕ) (ts : List Timer) (t : Timer)
    → find n ts ≡ some t
    → live g ts ≡ 0
    → nat_beq t.generation g ≡ false
live_of_find g n ts t h k = ground (arith, live-without g n ts t h)

mark_due-IsIdle : (n : ℕ) (w : World) → IsIdle w → IsIdle (mark_due n w)
unfolding mark_due
mark_due-IsIdle n w s = elim (Option-cases (find n w.threads)) [
  | inl gone ↦ rw (gone, mark_due) s
  | inr (t, found) ↦
      let stale = live_of_find w.generation n w.threads t found s.none_live in
      rw (found, mark_due, stale)
        (record {
          old = All-without w.generation n w.threads s.old;
          none_live = ground (arith, live-without w.generation n w.threads t found);
          not_due = s.not_due;
        })
]

ended-IsIdle : (n : ℕ) (w : World) → IsIdle w → IsIdle (ended n w)
unfolding ended
ended-IsIdle n w s = elim (Option-cases (find n w.threads)) [
  | inl gone ↦ rw (gone, ended) s
  | inr (t, found) ↦
      let stale = live_of_find w.generation n w.threads t found s.none_live in
      rw (found, ended, stale)
        (record {
          old = All-without w.generation n w.threads s.old;
          none_live = ground (arith, live-without w.generation n w.threads t found);
          not_due = s.not_due;
        })
]

step-IsIdle : (e : Event) (w : World) → IsQuiet e → IsIdle w → IsIdle (step e w)
unfolding step consume_due reset cancel
step-IsIdle error_seen w q s = absurd q
step-IsIdle consumed w q s = record { old = s.old; none_live = s.none_live; not_due = refl }
step-IsIdle cancelled w q s =
    let later = All-le_suc w.generation w.threads s.old in
    record { old = later.0; none_live = later.1; not_due = refl }
step-IsIdle connected w q s = record { old = s.old; none_live = s.none_live; not_due = s.not_due }
step-IsIdle (fired n) w q s = mark_due-IsIdle n w s
step-IsIdle (thread_ended n) w q s = ended-IsIdle n w s

run-IsIdle : (es : List Event) (w : World) → All IsQuiet es → IsIdle w → IsIdle (run es w)
unfolding run
run-IsIdle [] w q s = s
run-IsIdle (e ∷ es) w (q, qs) s = run-IsIdle es (step e w) qs (step-IsIdle e w q s)

cancel-IsIdle : (w : World) → IsSound w → IsIdle (cancel w)
unfolding cancel
cancel-IsIdle w s =
    let later = All-le_suc w.generation w.threads s.old in
    record { old = later.0; none_live = later.1; not_due = refl }

-- After any history and a cancellation, no retry becomes due until the next error, whichever of the
-- older threads still fire.
pub cancel_silences :
    (delays : List ℕ) (max_delay : ℕ) (before after : List Event)
    → All IsQuiet after
    → (run after (cancel (run before (init delays max_delay)))).due ≡ false
cancel_silences delays max_delay before after q =
    (run-IsIdle after _ q (cancel-IsIdle _ (run_single delays max_delay before))).not_due
