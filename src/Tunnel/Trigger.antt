-- ===== src/Tunnel/Trigger.antt =====
-- tunnel/reconnect_trigger.py, `ReconnectTrigger`: of a storm of wake events only the first of each
-- window is passed on. The times are those of the monotonic clock.
pub mod Spacing
use magic_ai_router.Prelude.{
  ℕ, ◌+◌, Bool, true, false, Option, none, some, List, [], ◌∷◌, ltb, if◌then◌else◌,
}

pub record ReconnectTrigger : Type 0 where
  pub min_interval : ℕ
  pub last_fire : Option ℕ

-- `self._last_fire is not None and now - self._last_fire < self._min_interval`, where the
-- difference is an integer
abbrev pub in_window : ReconnectTrigger → ℕ → Bool
in_window t now = elim t.last_fire [ none ↦ false | some last ↦ ltb now (last + t.min_interval) ]

-- The new state, and whether the callback is called.
unfoldable pub notify : ReconnectTrigger → ℕ → ReconnectTrigger × Bool
notify t now = if in_window t now then (t, false) else (record t { last_fire = some now }, true)

abbrev cons_if : Bool → ℕ → List ℕ → List ℕ
cons_if true x xs = x ∷ xs
cons_if false x xs = xs

-- The times at which the callback is called, for events at the given times.
unfoldable pub fires : ReconnectTrigger → List ℕ → List ℕ
fires t [] = []
fires t (now ∷ events) = cons_if (notify t now).1 now (fires (notify t now).0 events)
