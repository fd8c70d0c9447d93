-- ===== src/Tunnel/Coordinator/Held.antt =====
-- The hold of tunnel/connection_coordinator.py on the processes of ssh: the monitor of each session
-- has its process, and a session that left the registry has none and waits for nothing of its own.
use magic_ai_router.Prelude.{
  ◌≡◌, refl, sym, subst, inl, inr, Bool, true, false, Option, none, some, List, [], ◌∷◌, Text, Dict,
  All, lookup, insert, remove, text_key, ◌==◌, Bool-cases, Option-cases, if◌then◌else◌,
}
use magic_ai_router.Tunnel.Retry
use magic_ai_router.Tunnel.HostKeyFlow
use magic_ai_router.Tunnel.HostKeyFlow.{connect, reconnect}
use magic_ai_router.Tunnel.Session.{Session, Env, monitor, connect_session, is_down}
use magic_ai_router.Tunnel.Session.Processes.{
  IsHeld, Holds, flow_step-process, start_monitor-Holds, connect_session-Holds,
}
use magic_ai_router.Tunnel.Session.Callbacks.{
  Works, IsGone, if-Works, connect_session-Works, stop_session-IsGone,
}
use magic_ai_router.Tunnel.Coordinator.{
  Coordinator, World, new_session, has_enabled_forwards, current_server, server_of, is_server,
  env_at, env_of_proxy, start_background, start_ssh, start_proxy_ssh, retry_connect, handle_retry,
  set_trust, trust_proxy, drop_session, connect_if_down, start_known, start_forward, stop_forward,
  Outcome, ok, is_the_proxy, no_forwards,
}

abbrev pub Registered : Dict Text Session → Type 0
Registered [] = Unit
Registered ((tid, s) ∷ m) = Works s × Registered m

pub record IsHolding (c : Coordinator) : Type 0 where
  pub proxy_holds : Holds c.proxy
  pub registered : Registered c.forwards
  pub dropped_empty : All IsGone c.dropped

pub Registered-lookup :
    (tid : Text) (m : Dict Text Session) (s : Session)
    → Registered m
    → lookup tid m ≡ some s
    → Works s
Registered-lookup tid [] s h = λ e. cc
Registered-lookup tid ((j, u) ∷ m) s h = elim (Bool-cases (j == tid)) [
  | inl same ↦
      rw same (λ e. subst (λ (o : Option Session). elim o [ none ↦ Unit | some v ↦ Works v ]) e h.0)
  | inr other ↦ rw other (Registered-lookup tid m s h.1)
]

pub Registered-insert :
    (tid : Text) (s : Session) (m : Dict Text Session)
    → Works s
    → Registered m
    → Registered (insert tid s m)
Registered-insert tid s [] k h = (k, tt)
Registered-insert tid s ((j, u) ∷ m) k h = elim (Bool-cases (j == tid)) [
  | inl same ↦ rw same (k, h.1)
  | inr other ↦ rw other (h.0, Registered-insert tid s m k h.1)
]

pub Registered-remove :
    (tid : Text) (m : Dict Text Session) → Registered m → Registered (remove tid m)
Registered-remove tid [] h = tt
Registered-remove tid ((j, u) ∷ m) h = elim (Bool-cases (j == tid)) [
  | inl same ↦ rw same (Registered-remove tid m h.1)
  | inr other ↦ rw other (h.0, Registered-remove tid m h.1)
]

pub if-IsHolding :
    (b : Bool) (c d : Coordinator) → IsHolding c → IsHolding d → IsHolding (if b then c else d)
if-IsHolding true c d h k = h
if-IsHolding false c d h k = k

pub start_background-IsHolding :
    (w : World) (c : Coordinator) → IsHolding c → IsHolding (start_background w c)
unfolding start_background
start_background-IsHolding w c h =
    if-IsHolding w.background_running c (record c { proxy_running = w.background_started }) h
      (record {
        proxy_holds = h.proxy_holds;
        registered = h.registered;
        dropped_empty = h.dropped_empty;
      })

pub start_ssh-IsHolding : (w : World) (c : Coordinator) → IsHolding c → IsHolding (start_ssh w c)
unfolding start_ssh
start_ssh-IsHolding w c h = record {
  proxy_holds = connect_session-Holds (env_of_proxy w c) c.proxy h.proxy_holds;
  registered = h.registered;
  dropped_empty = h.dropped_empty;
}

pub start_proxy_ssh-IsHolding :
    (w : World) (c : Coordinator) → IsHolding c → IsHolding (start_proxy_ssh w c)
unfolding start_proxy_ssh
start_proxy_ssh-IsHolding w c h = elim (Option-cases (current_server c)) [
  | inl e ↦ rw (e, start_proxy_ssh) h
  | inr (t, e) ↦
      rw (e, start_proxy_ssh)
        (record {
          proxy_holds = start_monitor-Holds (env_of_proxy w c) c.proxy h.proxy_holds;
          registered = h.registered;
          dropped_empty = h.dropped_empty;
        })
]

pub retry_connect-IsHolding :
    (w : World) (c : Coordinator) → IsHolding c → IsHolding (retry_connect w c)
retry_connect-IsHolding w c h =
    if-IsHolding c.paused c (if is_down (monitor c.proxy).status then start_proxy_ssh w c else c) h
      (if-IsHolding (is_down (monitor c.proxy).status) (start_proxy_ssh w c) c
        (start_proxy_ssh-IsHolding w c h) h)

pub handle_retry-IsHolding :
    (w : World) (c : Coordinator) → IsHolding c → IsHolding (handle_retry w c)
unfolding handle_retry
handle_retry-IsHolding w c h =
    let d = record c { proxy = record c.proxy { retry = (Retry.consume_due c.proxy.retry).0 } } in
    let k : IsHolding d = record {
      proxy_holds = h.proxy_holds;
      registered = h.registered;
      dropped_empty = h.dropped_empty;
    } in
    if-IsHolding (Retry.consume_due c.proxy.retry).1 (retry_connect w d) d
      (retry_connect-IsHolding w d k) k

-- The flow's step, whichever calls are left of it.
pub set_trust-IsHolding :
    (e : HostKeyFlow.Event) (calls : List HostKeyFlow.Call) (c : Coordinator)
    → IsHolding c
    → IsHolding (set_trust (record (HostKeyFlow.step e c.proxy.trust) { calls = calls }) c)
set_trust-IsHolding e calls c h = record {
  proxy_holds =
      subst (λ p. IsHeld p c.proxy.processes) (sym (flow_step-process e c.proxy.trust))
        h.proxy_holds;
  registered = h.registered;
  dropped_empty = h.dropped_empty;
}

pub trust_proxy-IsHolding :
    (w : World) (e : HostKeyFlow.Event) (c : Coordinator)
    → IsHolding c
    → IsHolding (trust_proxy w e c)
unfolding trust_proxy
trust_proxy-IsHolding w e c h = go (HostKeyFlow.step e c.proxy.trust).calls
  where
    go :
        (calls : List HostKeyFlow.Call)
        → IsHolding (elim calls [
          | [] ↦ set_trust (HostKeyFlow.step e c.proxy.trust) c
          | connect g ∷ rest ↦
              start_proxy_ssh w
                (set_trust (record (HostKeyFlow.step e c.proxy.trust) { calls = rest }) c)
          | reconnect g ∷ rest ↦
              start_ssh w (set_trust (record (HostKeyFlow.step e c.proxy.trust) { calls = rest }) c)
        ])
    go [] = set_trust-IsHolding e (HostKeyFlow.step e c.proxy.trust).calls c h
    go (connect g ∷ rest) = start_proxy_ssh-IsHolding w _ (set_trust-IsHolding e rest c h)
    go (reconnect g ∷ rest) = start_ssh-IsHolding w _ (set_trust-IsHolding e rest c h)

-- A change of the registry alone.
pub registry-IsHolding :
    (m : Dict Text Session) (c : Coordinator)
    → IsHolding c
    → Registered m
    → IsHolding (record c { forwards = m })
registry-IsHolding m c h k = record {
  proxy_holds = h.proxy_holds;
  registered = k;
  dropped_empty = h.dropped_empty;
}

connect_if_down-Works : (env : Env) (s : Session) → Works s → Works (connect_if_down env s)
connect_if_down-Works env s h =
    if-Works (is_down (monitor s).status) (connect_session env s) s (connect_session-Works env s h)
      h

pub start_known-IsHolding :
    (w : World) (tid : Text) (c : Coordinator) → IsHolding c → IsHolding (start_known w tid c)
start_known-IsHolding w tid c h = elim (Option-cases (lookup tid c.forwards)) [
  | inl e ↦
      let s = connect_session (env_at w c tid) new_session in
      rw (e, start_known)
        (registry-IsHolding (insert tid s c.forwards) c h (
          Registered-insert tid s c.forwards
            (connect_session-Works (env_at w c tid) new_session (tt, ((tt, tt), refl)))
            h.registered))
  | inr (s, e) ↦
      let v = connect_if_down (env_at w c tid) s in
      rw (e, start_known)
        (registry-IsHolding (insert tid v c.forwards) c h (
          Registered-insert tid v c.forwards
            (connect_if_down-Works (env_at w c tid) s
              (Registered-lookup tid c.forwards s h.registered e))
            h.registered))
]

pub start_forward-IsHolding :
    (w : World) (tid : Text) (c : Coordinator) → IsHolding c → IsHolding (start_forward w tid c).0
unfolding start_forward
start_forward-IsHolding w tid c h = elim (Option-cases (server_of c tid)) [
  | inl e ↦ rw (e, start_forward) h
  | inr (t, e) ↦
      rw (e, start_forward)
        (go (is_server tid (current_server c)) (has_enabled_forwards t.forwards))
]
  where
    go :
        (a b : Bool)
        → (λ (r : Coordinator × Outcome). IsHolding r.0)
            (if a
              then (c, is_the_proxy)
              else (if b then (start_known w tid c, ok) else (c, no_forwards)))
    go true b = h
    go false true = start_known-IsHolding w tid c h
    go false false = h

-- A session that is stopped leaves the registry with no process.
pub drop_session-IsHolding :
    (env : Env) (s : Session) (m : Dict Text Session) (c : Coordinator)
    → IsHolding c
    → Works s
    → Registered m
    → IsHolding (record (drop_session env s c) { forwards = m })
drop_session-IsHolding env s m c h k r = record {
  proxy_holds = h.proxy_holds;
  registered = r;
  dropped_empty = (stop_session-IsGone env s k, h.dropped_empty);
}

pub stop_forward-IsHolding :
    (w : World) (tid : Text) (c : Coordinator) → IsHolding c → IsHolding (stop_forward w tid c)
unfolding stop_forward
stop_forward-IsHolding w tid c h = elim (Option-cases (lookup tid c.forwards)) [
  | inl e ↦ rw (e, stop_forward) h
  | inr (s, e) ↦
      rw (e, stop_forward)
        (drop_session-IsHolding (env_at w c tid) s (remove tid c.forwards) c h
          (Registered-lookup tid c.forwards s h.registered e)
          (Registered-remove tid c.forwards h.registered))
]
