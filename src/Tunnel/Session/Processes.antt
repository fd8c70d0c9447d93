-- ===== src/Tunnel/Session/Processes.antt =====
-- No ssh process outlives its session's hold on it: tunnel/ssh_session.py starts one only after the
-- older one was stopped.
use magic_ai_router.Prelude.{
  ℕ, ◌≡◌, refl, sym, subst, Bool, true, false, not, ◌&&◌, Option, none, some, List, [], ◌∷◌, Text,
  All, codes, nat_beq_iff, arith, if◌then◌else◌,
}
use magic_ai_router.Json.{ℤ}
use magic_ai_router.Shared.SubprocessMonitor.{
  SubprocessMonitor, Status, Popen, opened, not_opened, stopped, starting, running, error,
  start_process, stop, stop_signals, check, set_status, set_error,
}
use magic_ai_router.Tunnel.Retry
use magic_ai_router.Tunnel.HostKeyFlow
use magic_ai_router.Tunnel.HostKeyFlow.{
  connect, reconnect, known, failed, asked, check_started, replacement_begun, check_done,
  check_answered, scan_done, replacement_answered, cancelled,
}
use magic_ai_router.Tunnel.Session.{
  Session, Env, monitor, gone, signalled, launched, reaped, stop_monitor, start_monitor, start_now,
  connect_session, deliver, trust_step, stop_session, reconnect_now, is_down, is_host_key_changed,
  check_monitor, recover, check_and_recover, tick, Event, asked_connect, asked_stop,
  asked_reconnect, ticked, trusted, timed, step, run,
}

-- Every process that still runs is the monitor's.
abbrev pub IsHeld : Option ℕ → List ℕ → Type 0
IsHeld held ps = All (λ p. held ≡ some p) ps

gone-IsHeld : (p : ℕ) (ps : List ℕ) → IsHeld (some p) ps → gone p ps ≡ []
gone-IsHeld p [] h = refl
gone-IsHeld p (q ∷ qs) h = ground (arith, h.0, gone-IsHeld p qs h.1, nat_beq_iff p q)

none-IsHeld : (ps : List ℕ) → IsHeld none ps → ps ≡ []
none-IsHeld [] h = refl
none-IsHeld (q ∷ qs) h = cc (h.0)

stopped-empty :
    (held : Option ℕ) (exits : Bool) (ps : List ℕ)
    → IsHeld held ps
    → signalled (stop_signals held exits) ps ≡ []
stopped-empty none exits ps h = none-IsHeld ps h
stopped-empty (some p) true ps h = gone-IsHeld p ps h
stopped-empty (some p) false ps h = rw (gone-IsHeld p ps h) refl

reaped-IsHeld :
    (held : Option ℕ) (ret : ℤ) (ps : List ℕ) → IsHeld held ps → reaped held (some ret) ps ≡ []
reaped-IsHeld none ret ps h = none-IsHeld ps h
reaped-IsHeld (some p) ret ps h = gone-IsHeld p ps h

launched-IsHeld :
    (cmd : Text) (now : ℕ) (popen : Popen) (m : SubprocessMonitor)
    → IsHeld (start_process cmd now popen m).0.process (launched popen [])
unfolding start_process
launched-IsHeld cmd now (opened p) m = (refl, tt)
launched-IsHeld cmd now (not_opened msg) m = tt

-- The flow of the host key never touches the process.
pub flow_step-process :
    (e : HostKeyFlow.Event) (w : HostKeyFlow.World)
    → (HostKeyFlow.step e w).monitor.process ≡ w.monitor.process
unfolding HostKeyFlow.step HostKeyFlow.start_check HostKeyFlow.begin_replacement
    HostKeyFlow.finish_check HostKeyFlow.answer_check HostKeyFlow.finish_replacement
    HostKeyFlow.answer_replacement HostKeyFlow.cancel set_status set_error
flow_step-process (check_started tunnel) w = ground arith
flow_step-process (replacement_begun tunnel) w = ground arith
flow_step-process (check_done g known) w = ground arith
flow_step-process (check_done g asked) w = ground arith
flow_step-process (check_done g (failed msg)) w = ground arith
flow_step-process (check_answered g t) w = ground arith
flow_step-process (scan_done g err) w = ground arith
flow_step-process (replacement_answered g r) w = ground arith
flow_step-process cancelled w = ground arith

start_check-process :
    (tunnel : Bool) (w : HostKeyFlow.World)
    → (HostKeyFlow.start_check tunnel w).monitor.process ≡ w.monitor.process
unfolding HostKeyFlow.start_check set_status
start_check-process tunnel w = ground arith

abbrev pub Holds : Session → Type 0
Holds s = IsHeld (monitor s).process s.processes

pub if-Holds : (b : Bool) (s t : Session) → Holds s → Holds t → Holds (if b then s else t)
if-Holds true s t h k = h
if-Holds false s t h k = k

pub stop_monitor-Holds :
    (exits : Bool) (s : Session) → Holds s → (stop_monitor exits s).processes ≡ []
unfolding stop_monitor stop
stop_monitor-Holds exits s h = stopped-empty (monitor s).process exits s.processes h

pub start_monitor-Holds : (env : Env) (s : Session) → Holds s → Holds (start_monitor env s)
unfolding start_monitor
start_monitor-Holds env s h =
    rw (stop_monitor-Holds env.exits s h)
      (launched-IsHeld env.cmd env.now env.popen (monitor (stop_monitor env.exits s)))

start_now-Holds : (env : Env) (s : Session) → Holds s → Holds (start_now env s)
unfolding start_now
start_now-Holds env s h = if-Holds env.spawn (start_monitor env s) s (start_monitor-Holds env s h) h

pub connect_session-Holds : (env : Env) (s : Session) → Holds s → Holds (connect_session env s)
unfolding connect_session
connect_session-Holds env s h =
    subst (λ p. IsHeld p s.processes) (sym (start_check-process env.tunnel s.trust)) h

deliver-Holds : (env : Env) (s : Session) → Holds s → Holds (deliver env s)
unfolding deliver
deliver-Holds env s h = go s.trust.calls
  where
    go :
        (calls : List HostKeyFlow.Call)
        → Holds (elim calls [
          | [] ↦ s
          | connect g ∷ rest ↦ start_now env (record s { trust = record s.trust { calls = rest } })
          | reconnect g ∷ rest ↦
              connect_session env (record s { trust = record s.trust { calls = rest } })
        ])
    go [] = h
    go (connect g ∷ rest) =
        start_now-Holds env (record s { trust = record s.trust { calls = rest } }) h
    go (reconnect g ∷ rest) =
        connect_session-Holds env (record s { trust = record s.trust { calls = rest } }) h

pub trust_step-Holds :
    (env : Env) (e : HostKeyFlow.Event) (s : Session) → Holds s → Holds (trust_step env e s)
unfolding trust_step
trust_step-Holds env e s h =
    deliver-Holds env (record s { trust = HostKeyFlow.step e s.trust })
      (subst (λ p. IsHeld p s.processes) (sym (flow_step-process e s.trust)) h)

pub stopped-Holds : (exits : Bool) (s : Session) → Holds s → Holds (stop_monitor exits s)
stopped-Holds exits s h =
    subst (IsHeld (monitor (stop_monitor exits s)).process) (sym (stop_monitor-Holds exits s h)) tt

-- Behind a stop nothing of the session runs.
pub stop_session-empty : (env : Env) (s : Session) → Holds s → (stop_session env s).processes ≡ []
unfolding stop_session HostKeyFlow.cancel HostKeyFlow.step
stop_session-empty env s h =
    stop_monitor-Holds env.exits
      (record s { retry = Retry.cancel s.retry; trust = HostKeyFlow.cancel s.trust })
      (subst (λ p. IsHeld p s.processes) (sym (flow_step-process cancelled s.trust)) h)

pub reconnect_now-Holds : (env : Env) (s : Session) → Holds s → Holds (reconnect_now env s)
unfolding reconnect_now
reconnect_now-Holds env s h = go (monitor s).status
  where
    go :
        (status : Status)
        → Holds (elim status [
          | starting ↦ s
          | running ↦ connect_session env (stop_monitor env.exits s)
          | _ ↦ connect_session env s
        ])
    go starting = h
    go running = connect_session-Holds env (stop_monitor env.exits s) (stopped-Holds env.exits s h)
    go stopped = connect_session-Holds env s h
    go error = connect_session-Holds env s h

replacement-process :
    (tunnel : Bool) (w : HostKeyFlow.World)
    → (HostKeyFlow.begin_replacement tunnel w).monitor.process ≡ w.monitor.process
unfolding HostKeyFlow.begin_replacement
replacement-process tunnel w = ground arith

recover-Holds : (status : Status) (env : Env) (s : Session) → Holds s → Holds (recover status env s)
recover-Holds running env s h = h
recover-Holds error env s h =
    if-Holds (is_host_key_changed (monitor s) && not s.trust.change_prompted)
      (record s { trust = HostKeyFlow.begin_replacement env.tunnel s.trust })
      (record s { retry = Retry.handle_error s.retry })
      (subst (λ p. IsHeld p s.processes) (sym (replacement-process env.tunnel s.trust)) h) h
recover-Holds stopped env s h = h
recover-Holds starting env s h = h

-- The process that a check leaves.
abbrev left : Option ℕ → Option ℤ → Option ℕ
left (some p) none = some p
left _ _ = none

left-IsHeld :
    (held : Option ℕ) (poll : Option ℤ) (ps : List ℕ)
    → IsHeld held ps
    → IsHeld (left held poll) (reaped held poll ps)
left-IsHeld none none ps h = h
left-IsHeld none (some ret) ps h = h
left-IsHeld (some p) none ps h = h
left-IsHeld (some p) (some ret) ps h = rw (gone-IsHeld p ps h) tt

module _ (text_of : ℤ → Text) where
  check-left :
      (poll : Option ℤ) (ready : Bool) (m : SubprocessMonitor)
      → (check text_of (codes "SSH") poll ready m).process ≡ left m.process poll
  unfolding check
  check-left poll ready m = ground arith

  pub check_monitor-Holds :
      (env : Env) (s : Session) → Holds s → Holds (check_monitor text_of env s)
  check_monitor-Holds env s h =
      rw (check-left env.poll env.ready (monitor s))
        (left-IsHeld (monitor s).process env.poll s.processes h)

  pub check_and_recover-Holds :
      (env : Env) (s : Session) → Holds s → Holds (check_and_recover text_of env s)
  unfolding check_and_recover
  check_and_recover-Holds env s h =
      let t = check_monitor text_of env s in
      recover-Holds (monitor t).status env t (check_monitor-Holds env s h)

  pub tick-Holds : (env : Env) (s : Session) → Holds s → Holds (tick text_of env s)
  unfolding tick
  tick-Holds env s h =
      let t = record s { retry = (Retry.consume_due s.retry).0 } in
      let b = (Retry.consume_due s.retry).1 && is_down (monitor t).status in
      let u = if b then connect_session env t else t in
      check_and_recover-Holds env u
        (if-Holds b (connect_session env t) t (connect_session-Holds env t h) h)

  step-Holds : (e : Event) (s : Session) → Holds s → Holds (step text_of e s)
  unfolding step
  step-Holds (asked_connect env) s h = connect_session-Holds env s h
  step-Holds (asked_stop env) s h =
      subst (IsHeld (monitor (stop_session env s)).process) (sym (stop_session-empty env s h)) tt
  step-Holds (asked_reconnect env) s h = reconnect_now-Holds env s h
  step-Holds (ticked env) s h = tick-Holds env s h
  step-Holds (trusted env e) s h = trust_step-Holds env e s h
  step-Holds (timed e) s h = h

  pub run-Holds : (es : List Event) (s : Session) → Holds s → Holds (run text_of es s)
  unfolding run
  run-Holds [] s h = h
  run-Holds (e ∷ es) s h = run-Holds es (step text_of e s) (step-Holds e s h)
