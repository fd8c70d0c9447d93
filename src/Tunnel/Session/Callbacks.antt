-- ===== src/Tunnel/Session/Callbacks.antt =====
-- What the callbacks of tunnel/host_key_flow.py can still do to a session of tunnel/ssh_session.py:
-- one at work has handed out every generation that is waited for, and one that was stopped has none
-- left.
use magic_ai_router.Prelude.{
  ◌<◌, ◌≡◌, refl, ◌∙◌, sym, subst, Bool, true, false, not, ◌&&◌, List, [], ◌∷◌, Text, All,
  if◌then◌else◌,
}
use magic_ai_router.Json.{ℤ}
use magic_ai_router.Shared.SubprocessMonitor.{Status, stopped, starting, running, error}
use magic_ai_router.Tunnel.Retry
use magic_ai_router.Tunnel.HostKeyFlow
use magic_ai_router.Tunnel.HostKeyFlow.{
  Call, connect, reconnect, connect_now, checked, Inspection, known, asked, failed, check_started,
  replacement_begun, check_done, check_answered, scan_done, replacement_answered, cancelled,
}
use magic_ai_router.Tunnel.HostKeyFlow.Single.{
  AtMost, step-AtMost, start_check-calls, replacement-calls, IsSingle, step-IsSingle,
}
use magic_ai_router.Tunnel.HostKeyFlow.Stale.{IsCut, cancel-IsCut, IsLate, step-SameCalls}
use magic_ai_router.Tunnel.Session.{
  Session, Env, monitor, stop_monitor, start_monitor, start_now, connect_session, deliver,
  trust_step, stop_session, reconnect_now, is_down, is_host_key_changed, check_monitor, recover,
  check_and_recover, tick,
}
use magic_ai_router.Tunnel.Session.Processes.{
  IsHeld, Holds, stop_session-empty, connect_session-Holds, trust_step-Holds, reconnect_now-Holds,
  tick-Holds,
}

-- No callback is waited for that was not begun, and none is left to be made.
abbrev pub IsFresh : Session → Type 0
IsFresh s = AtMost s.trust × (s.trust.calls ≡ [])

-- Every callback that is waited for is of an older generation, and no process is left.
abbrev pub IsGone : Session → Type 0
IsGone s =
    All (λ g. g < s.trust.generation) s.trust.issued
    × All (λ g. g < s.trust.generation) s.trust.prompts
    × (s.trust.calls ≡ [])
    × (s.processes ≡ [])

pub if-IsFresh : (b : Bool) (s t : Session) → IsFresh s → IsFresh t → IsFresh (if b then s else t)
if-IsFresh true s t h k = h
if-IsFresh false s t h k = k

pub connect_session-IsFresh :
    (env : Env) (s : Session) → IsFresh s → IsFresh (connect_session env s)
unfolding connect_session HostKeyFlow.step
connect_session-IsFresh env s h =
    (step-AtMost (check_started env.tunnel) s.trust h.0, start_check-calls env.tunnel s.trust ∙ h.1)

stop_monitor-IsFresh : (exits : Bool) (s : Session) → IsFresh s → IsFresh (stop_monitor exits s)
unfolding stop_monitor
stop_monitor-IsFresh exits s h = h

start_now-IsFresh : (env : Env) (s : Session) → IsFresh s → IsFresh (start_now env s)
unfolding start_now start_monitor stop_monitor
start_now-IsFresh env s h = if-IsFresh env.spawn (start_monitor env s) s h h

deliver-IsFresh :
    (env : Env) (s : Session) → AtMost s.trust → IsSingle s.trust.calls → IsFresh (deliver env s)
unfolding deliver
deliver-IsFresh env s h one = go s.trust.calls refl one
  where
    go :
        (calls : List Call)
        → s.trust.calls ≡ calls
        → IsSingle calls
        → IsFresh (elim calls [
          | [] ↦ s
          | connect g ∷ rest ↦ start_now env (record s { trust = record s.trust { calls = rest } })
          | reconnect g ∷ rest ↦
              connect_session env (record s { trust = record s.trust { calls = rest } })
        ])
    go [] same k = (h, same)
    go (connect g ∷ rest) same k =
        start_now-IsFresh env (record s { trust = record s.trust { calls = rest } }) (h, k)
    go (reconnect g ∷ rest) same k =
        connect_session-IsFresh env (record s { trust = record s.trust { calls = rest } }) (h, k)

pub trust_step-IsFresh :
    (env : Env) (e : HostKeyFlow.Event) (s : Session) → IsFresh s → IsFresh (trust_step env e s)
unfolding trust_step
trust_step-IsFresh env e s h =
    deliver-IsFresh env (record s { trust = HostKeyFlow.step e s.trust })
      (step-AtMost e s.trust h.0) (step-IsSingle s.trust h.1 e)

pub reconnect_now-IsFresh : (env : Env) (s : Session) → IsFresh s → IsFresh (reconnect_now env s)
unfolding reconnect_now
reconnect_now-IsFresh env s h = go (monitor s).status
  where
    go :
        (status : Status)
        → IsFresh (elim status [
          | starting ↦ s
          | running ↦ connect_session env (stop_monitor env.exits s)
          | _ ↦ connect_session env s
        ])
    go starting = h
    go running =
        connect_session-IsFresh env (stop_monitor env.exits s) (stop_monitor-IsFresh env.exits s h)
    go stopped = connect_session-IsFresh env s h
    go error = connect_session-IsFresh env s h

recover-IsFresh :
    (status : Status) (env : Env) (s : Session) → IsFresh s → IsFresh (recover status env s)
unfolding HostKeyFlow.step
recover-IsFresh running env s h = h
recover-IsFresh error env s h =
    if-IsFresh (is_host_key_changed (monitor s) && not s.trust.change_prompted)
      (record s { trust = HostKeyFlow.begin_replacement env.tunnel s.trust })
      (record s { retry = Retry.handle_error s.retry })
      (
        step-AtMost (replacement_begun env.tunnel) s.trust h.0,
        replacement-calls env.tunnel s.trust ∙ h.1,
      )
      h
recover-IsFresh stopped env s h = h
recover-IsFresh starting env s h = h

pub tick-IsFresh :
    (text_of : ℤ → Text) (env : Env) (s : Session) → IsFresh s → IsFresh (tick text_of env s)
unfolding tick check_and_recover
tick-IsFresh text_of env s h =
    let t = record s { retry = (Retry.consume_due s.retry).0 } in
    let b = (Retry.consume_due s.retry).1 && is_down (monitor t).status in
    let u = if b then connect_session env t else t in
    let v = check_monitor text_of env u in
    recover-IsFresh (monitor v).status env v
      (if-IsFresh b (connect_session env t) t (connect_session-IsFresh env t h) h)

-- A session at work: it holds its processes, and its callbacks are its own.
abbrev pub Works : Session → Type 0
Works s = Holds s × IsFresh s

pub if-Works : (b : Bool) (s t : Session) → Works s → Works t → Works (if b then s else t)
if-Works true s t h k = h
if-Works false s t h k = k

pub connect_session-Works : (env : Env) (s : Session) → Works s → Works (connect_session env s)
connect_session-Works env s h = (connect_session-Holds env s h.0, connect_session-IsFresh env s h.1)

pub trust_step-Works :
    (env : Env) (e : HostKeyFlow.Event) (s : Session) → Works s → Works (trust_step env e s)
trust_step-Works env e s h = (trust_step-Holds env e s h.0, trust_step-IsFresh env e s h.1)

pub reconnect_now-Works : (env : Env) (s : Session) → Works s → Works (reconnect_now env s)
reconnect_now-Works env s h = (reconnect_now-Holds env s h.0, reconnect_now-IsFresh env s h.1)

pub tick-Works :
    (text_of : ℤ → Text) (env : Env) (s : Session) → Works s → Works (tick text_of env s)
tick-Works text_of env s h = (tick-Holds text_of env s h.0, tick-IsFresh text_of env s h.1)

pub stop_session-Works : (env : Env) (s : Session) → Works s → Works (stop_session env s)
unfolding stop_session stop_monitor HostKeyFlow.step HostKeyFlow.cancel
stop_session-Works env s h = (
  subst (IsHeld (monitor (stop_session env s)).process) (sym (stop_session-empty env s h.0)) tt,
  (step-AtMost cancelled s.trust h.1.0, h.1.1),
)

-- A stop leaves nothing to wait for.
pub stop_session-IsGone : (env : Env) (s : Session) → Works s → IsGone (stop_session env s)
unfolding stop_session stop_monitor HostKeyFlow.cancel
stop_session-IsGone env s (h, fresh) =
    let k = cancel-IsCut s.trust (record { inspections = fresh.0.0; alerts = fresh.0.1 }) in
    (k.no_inspections, k.no_alerts, fresh.1, stop_session-empty env s h)

deliver-none : (env : Env) (s : Session) → s.trust.calls ≡ [] → deliver env s ≡ s
unfolding deliver
deliver-none env s h = rw h refl

-- A late end of an inspection or answer to the alert of a check does nothing to a session that was
-- stopped.
pub trust_step-IsGone :
    (env : Env) (e : HostKeyFlow.Event) (s : Session)
    → IsLate e
    → IsGone s
    → IsGone (trust_step env e s)
unfolding trust_step
trust_step-IsGone env e s late h =
    let cut : IsCut s.trust = record { no_inspections = h.0; no_alerts = h.1 } in
    let k = step-SameCalls e s.trust late cut in
    let u = record s { trust = HostKeyFlow.step e s.trust } in
    let quiet = k.1 ∙ h.2 in
    subst IsGone (sym (deliver-none env u quiet)) (k.0.no_inspections, k.0.no_alerts, quiet, h.3)
