-- ===== src/Tunnel/Trigger/Spacing.antt =====
-- The calls of `ReconnectTrigger` are spaced, and no event is far from a call.
use magic_ai_router.Prelude.{
  ℕ, ◌+◌, ◌≤◌, ◌<◌, ◌≡◌, ◌⊎◌, inl, inr, refl, true, false, Option, none, some, List, [], ◌∷◌, arith,
  Bool-cases, Option-cases,
}
use magic_ai_router.Tunnel.Trigger.{ReconnectTrigger, in_window, notify, fires}

-- Each time of a list is at least `gap` after the one before, the first one after `last`.
abbrev pub Spaced : ℕ → Option ℕ → List ℕ → Type 0
Spaced gap last [] = Unit
Spaced gap none (x ∷ xs) = Spaced gap (some x) xs
Spaced gap (some last) (x ∷ xs) = (last + gap ≤ x) × Spaced gap (some x) xs

-- An event is called at once, or less than `gap` after a call that went before.
abbrev pub Covered : ℕ → Option ℕ → List ℕ → List ℕ → Type 0
Covered gap last [] calls = Unit
Covered gap last (now ∷ events) [] =
    ((l : ℕ) × (last ≡ some l) × (now < l + gap)) × Covered gap last events []
Covered gap last (now ∷ events) (c ∷ calls) =
    ((now ≡ c) × Covered gap (some now) events calls)
    ⊎ (((l : ℕ) × (last ≡ some l) × (now < l + gap)) × Covered gap last events (c ∷ calls))

Spaced-of_window :
    (t : ReconnectTrigger) (now : ℕ) (calls : List ℕ)
    → in_window t now ≡ false
    → Spaced t.min_interval (some now) calls
    → Spaced t.min_interval t.last_fire (now ∷ calls)
Spaced-of_window t now calls out h = elim (Option-cases t.last_fire) [
  | inl first ↦ rw first h
  | inr (last, is) ↦ rw is (ground arith, h)
]

-- Two calls of the callback are never closer than the minimal interval, whatever the events' times.
pub fires-Spaced :
    (t : ReconnectTrigger) (events : List ℕ) → Spaced t.min_interval t.last_fire (fires t events)
unfolding fires notify
fires-Spaced t [] = tt
fires-Spaced t (now ∷ events) = elim (Bool-cases (in_window t now)) [
  | inl close ↦ rw close (fires-Spaced t events)
  | inr out ↦
      rw out
        (Spaced-of_window t now _ out (fires-Spaced (record t { last_fire = some now }) events))
]

Covered-skip :
    (gap now l : ℕ) (last : Option ℕ) (events calls : List ℕ)
    → last ≡ some l
    → now < l + gap
    → Covered gap last events calls
    → Covered gap last (now ∷ events) calls
Covered-skip gap now l last events [] e h k = ((l, e, h), k)
Covered-skip gap now l last events (c ∷ calls) e h k = inr ((l, e, h), k)

last_of_window :
    (t : ReconnectTrigger) (now : ℕ)
    → in_window t now ≡ true
    → (l : ℕ) × (t.last_fire ≡ some l) × (now < l + t.min_interval)
last_of_window t now close = elim (Option-cases t.last_fire) [
  | inl first ↦ absurd (ground arith)
  | inr (last, is) ↦ (last, is, ground arith)
]

-- No event is lost: each one calls the callback, or comes less than the minimal interval after a
-- call.
pub fires-Covered :
    (t : ReconnectTrigger) (events : List ℕ)
    → Covered t.min_interval t.last_fire events (fires t events)
unfolding fires notify
fires-Covered t [] = tt
fires-Covered t (now ∷ events) = elim (Bool-cases (in_window t now)) [
  | inl close ↦
      let (l, is, near) = last_of_window t now close in
      rw close
        (Covered-skip t.min_interval now l t.last_fire events _ is near (fires-Covered t events))
  | inr out ↦ rw out (inl (refl, fires-Covered (record t { last_fire = some now }) events))
]
