-- ===== src/Services/Watchdog/Cases.antt =====
-- What a tick of services/gateway_watchdog.py comes to, by its outcome.
use magic_ai_router.Prelude.{
  ℕ, ◌+◌, ◌%◌, ◌≡◌, ◌≤◌, ◌<◌, refl, Bool, true, false, arith, Bool-cases, inl, inr, ltb, nat_beq,
  ◌≢◌,
}
use magic_ai_router.Services.Watchdog.{
  GatewayWatchdog, tick, audit, missed, idle, audited, submitted,
}

abbrev pub counted : GatewayWatchdog → GatewayWatchdog
counted w = record w { ticks = w.ticks + 1 }

pub data TickCase (w : GatewayWatchdog) (mismatch : Bool) (now : ℕ) : Type 0 where
  off_turn :
      (w.ticks + 1) % w.audit_every ≢ 0
      → tick w mismatch now ≡ (counted w, idle)
      → TickCase w mismatch now
  busy : w.healing ≡ true → tick w mismatch now ≡ (counted w, idle) → TickCase w mismatch now
  matching :
      (w.ticks + 1) % w.audit_every ≡ 0
      → w.healing ≡ false
      → mismatch ≡ false
      → tick w mismatch now ≡ (record (counted w) { misses = 0 }, audited)
      → TickCase w mismatch now
  too_few :
      (w.ticks + 1) % w.audit_every ≡ 0
      → w.healing ≡ false
      → mismatch ≡ true
      → w.misses + 1 < w.miss_threshold
      → tick w mismatch now ≡ (record (counted w) { misses = w.misses + 1 }, audited)
      → TickCase w mismatch now
  too_early :
      (w.ticks + 1) % w.audit_every ≡ 0
      → w.healing ≡ false
      → mismatch ≡ true
      → now < w.next_heal
      → tick w mismatch now ≡ (record (counted w) { misses = w.misses + 1 }, audited)
      → TickCase w mismatch now
  due :
      (w.ticks + 1) % w.audit_every ≡ 0
      → w.healing ≡ false
      → mismatch ≡ true
      → w.miss_threshold ≤ w.misses + 1
      → w.next_heal ≤ now
      → tick w mismatch now
        ≡ (record (counted w) { misses = w.misses + 1; healing = true }, submitted)
      → TickCase w mismatch now

pub tick-cases : (w : GatewayWatchdog) (mismatch : Bool) (now : ℕ) → TickCase w mismatch now
unfolding tick audit missed
tick-cases w mismatch now = elim (Bool-cases (nat_beq ((w.ticks + 1) % w.audit_every) 0)) [
  | inr off ↦ off_turn (ground arith) (rw off refl)
  | inl turn ↦ elim (Bool-cases w.healing) [
    | inl on ↦ busy on (rw (turn, on) refl)
    | inr off ↦ elim (Bool-cases mismatch) [
      | inr up ↦ matching (ground arith) off up (rw (turn, off, up) refl)
      | inl down ↦ elim (Bool-cases (ltb (w.misses + 1) w.miss_threshold)) [
        | inl few ↦ too_few (ground arith) off down (ground arith) (rw (turn, off, down, few) refl)
        | inr enough ↦ elim (Bool-cases (ltb now w.next_heal)) [
          | inl early ↦
              too_early (ground arith) off down (ground arith)
                (rw (turn, off, down, enough, early) refl)
          | inr late ↦
              due (ground arith) off down (ground arith) (ground arith)
                (rw (turn, off, down, enough, late) refl)
        ]
      ]
    ]
  ]
]

-- A tick leaves the end of the backoff as it is, and never takes the busy flag back.
pub tick-next_heal :
    (w : GatewayWatchdog) (mismatch : Bool) (now : ℕ)
    → ((tick w mismatch now).0).next_heal ≡ w.next_heal
tick-next_heal w mismatch now = elim (tick-cases w mismatch now) [
  | off_turn _ e ↦ rw e refl
  | busy _ e ↦ rw e refl
  | matching _ _ _ e ↦ rw e refl
  | too_few _ _ _ _ e ↦ rw e refl
  | too_early _ _ _ _ e ↦ rw e refl
  | due _ _ _ _ _ e ↦ rw e refl
]

pub tick-busy :
    (w : GatewayWatchdog) (mismatch : Bool) (now : ℕ)
    → w.healing ≡ true
    → ((tick w mismatch now).0).healing ≡ true
unfolding tick
tick-busy w mismatch now on = ground arith
