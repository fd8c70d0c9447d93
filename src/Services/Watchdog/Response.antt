-- ===== src/Services/Watchdog/Response.antt =====
-- A gateway that stays dead is rebuilt: how soon services/gateway_watchdog.py orders it.
use magic_ai_router.Prelude.{
  ℕ, suc, ◌+◌, ◌-◌, ◌*◌, ◌%◌, ◌≡◌, ◌≢◌, ◌≤◌, ◌<◌, refl, sym, ap, ◌∙◌, true, false, arith, inl, inr,
  ◌⊎◌, Bool-cases, ltb,
}
use magic_ai_router.Prelude.{All, length, ltb→lt, List, [], ◌∷◌}
use native.Mathlib.Nat.{mul-le-mul_right, mul_comm, mod-add-mod, mod-lt, mod-eq_of_lt, mod_self}
use magic_ai_router.Services.Watchdog.{GatewayWatchdog, tick}
use magic_ai_router.Services.Watchdog.Cases.{
  off_turn, busy, matching, too_few, too_early, due, tick-cases, tick-next_heal, tick-busy,
}

-- The watchdog after ticks at the given times, each of which would find a mismatch, where no job
-- ends.
unfoldable pub persist : List ℕ → GatewayWatchdog → GatewayWatchdog
persist [] w = w
persist (now ∷ times) w = persist times ((tick w true now).0)

-- The count of the next tick, modulo the period.
mod-wrap : (n a : ℕ) → 0 < a → (n + 1) % a ≡ 0 → n % a + 1 ≡ a
mod-wrap n a pos e =
    let small = mod-lt n pos in
    let step = mod-add-mod n a 1 in
    elim (Bool-cases (ltb (n % a + 1) a)) [
      | inl lt ↦ let same = mod-eq_of_lt (ltb→lt (n % a + 1) a lt) in omega arith
      | inr ge ↦ ground arith
    ]

mod-next : (n a : ℕ) → 0 < a → (n + 1) % a ≢ 0 → (n + 1) % a ≡ n % a + 1
mod-next n a pos e =
    let small = mod-lt n pos in
    let step = mod-add-mod n a 1 in
    elim (Bool-cases (ltb (n % a + 1) a)) [
      | inl lt ↦ sym step ∙ mod-eq_of_lt (ltb→lt (n % a + 1) a lt)
      | inr ge ↦
          let self = mod_self a in
          let full : n % a + 1 ≡ a = ground arith in
          let z : (n + 1) % a ≡ 0 = sym step ∙ ap (λ x. x % a) full ∙ self in ground arith
    ]

mul-pred : (t m a : ℕ) → m < t → (t - m) * a ≡ (t - (m + 1)) * a + a
mul-pred t m a lt =
    let one_more : t - m ≡ t - (m + 1) + 1 = omega arith in rw one_more (grind arith)

-- The ticks that are left until a job is submitted.
distance : GatewayWatchdog → ℕ
distance w =
    (w.miss_threshold - (w.misses + 1)) * w.audit_every + (w.audit_every - w.ticks % w.audit_every)

-- A watchdog that may act, and will within n ticks.
record IsNear (n : ℕ) (w : GatewayWatchdog) : Type 0 where
  pub periodic : 0 < w.audit_every
  pub free : w.healing ≡ false
  pub left : distance w ≤ n

tick-nearer :
    (n now : ℕ) (w : GatewayWatchdog)
    → w.next_heal ≤ now
    → IsNear (suc n) w
    → (((tick w true now).0).healing ≡ true) ⊎ IsNear n ((tick w true now).0)
unfolding distance
tick-nearer n now w late h = elim (tick-cases w true now) [
  | off_turn off e ↦ inr (
      rw e (record {
        periodic = h.periodic;
        free = h.free;
        left =
            let next = mod-next w.ticks w.audit_every h.periodic off in
            let small = mod-lt w.ticks h.periodic in let before = h.left in omega arith;
      }))
  | busy on e ↦ let off = h.free in ground arith
  | matching _ _ e _ ↦ ground arith
  | too_few turn _ _ few e ↦ inr (
      rw e (record {
        periodic = h.periodic;
        free = h.free;
        left =
            let wrap = mod-wrap w.ticks w.audit_every h.periodic turn in
            let round = mul-pred w.miss_threshold (w.misses + 1) w.audit_every few in
            let before = h.left in rw turn (omega arith);
      }))
  | too_early _ _ _ early e ↦ ground arith
  | due _ _ _ _ _ e ↦ inl (rw e refl)
]

persist-busy :
    (times : List ℕ) (w : GatewayWatchdog) → w.healing ≡ true → (persist times w).healing ≡ true
unfolding persist
persist-busy [] w on = on
persist-busy (now ∷ times) w on = persist-busy times ((tick w true now).0) (tick-busy w true now on)

persist-IsNear :
    (times : List ℕ) (w : GatewayWatchdog)
    → All (λ now. w.next_heal ≤ now) times
    → IsNear (length times) w
    → (persist times w).healing ≡ true
unfolding persist distance
persist-IsNear [] w late h =
    let small = mod-lt w.ticks h.periodic in let none_left = h.left in ground arith
persist-IsNear (now ∷ times) w (l, late) h = elim (tick-nearer (length times) now w l h) [
  | inl on ↦ persist-busy times ((tick w true now).0) on
  | inr near ↦ persist-IsNear times ((tick w true now).0) (rw (tick-next_heal w true now) late) near
]

mul-round : (t m a : ℕ) → 0 < t → (t - (m + 1)) * a + a ≤ a * t
mul-round t m a pos =
    let fewer : (t - (m + 1)) * a ≤ (t - (0 + 1)) * a = mul-le-mul_right a (omega arith) in
    let all = mul-pred t 0 a pos in
    let whole : (t - 0) * a ≡ t * a = ap (λ x. x * a) (omega arith) in
    let turned = mul_comm a t in omega arith

-- If every audit finds a mismatch and the backoff is over, a job is pending at the latest after as
-- many ticks as the period times the threshold, from every state.
pub persist-healing :
    (w : GatewayWatchdog) (times : List ℕ)
    → 0 < w.audit_every
    → 0 < w.miss_threshold
    → All (λ now. w.next_heal ≤ now) times
    → w.audit_every * w.miss_threshold ≤ length times
    → (persist times w).healing ≡ true
unfolding distance
persist-healing w times periodic positive late long = elim (Bool-cases w.healing) [
  | inl on ↦ persist-busy times w on
  | inr off ↦
      let round = mul-round w.miss_threshold w.misses w.audit_every positive in
      persist-IsNear times w late (record { periodic = periodic; free = off; left = omega arith })
]
