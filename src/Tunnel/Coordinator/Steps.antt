-- ===== src/Tunnel/Coordinator/Steps.antt =====
-- The steps of tunnel/connection_coordinator.py that keep the hold on the processes of ssh.
use magic_ai_router.Prelude.{
  ℕ, zero, suc, sym, subst, inl, inr, Bool, true, false, Option, none, some, List, [], ◌∷◌, Text,
  Dict, All, All-append, lookup, insert, remove, is_some, text_key, Option-cases, if◌then◌else◌,
}
use magic_ai_router.Mpconf.Servers.{Server}
use magic_ai_router.Shared.SubprocessMonitor.{Status, stopped, starting, running, error}
use magic_ai_router.Tunnel.Session.{
  Session, Env, monitor, stop_monitor, connect_session, stop_session, is_down, reconnect_now,
}
use magic_ai_router.Tunnel.Session.Processes.{IsHeld, Holds, stopped-Holds, stop_session-empty}
use magic_ai_router.Tunnel.Session.Callbacks.{
  Works, IsGone, connect_session-Works, stop_session-Works, stop_session-IsGone,
  reconnect_now-Works,
}
use magic_ai_router.Tunnel.Coordinator.{
  Config, Coordinator, World, can_forward, current_server, server_of, is_server, env_at,
  env_of_proxy, start_background, start_ssh, start, start_forward, stop_forward, restart_forward,
  wants_start, start_all, apply_autostarts, map_sessions, rebuild_proxy, rebuild_forwards,
  handle_reconnect_trigger, all_stopped, stop_all, toggle_pause, demote, restart,
}
use magic_ai_router.Tunnel.Coordinator.Held.{
  Registered, IsHolding, Registered-lookup, Registered-insert, Registered-remove, if-IsHolding,
  start_background-IsHolding, start_ssh-IsHolding, registry-IsHolding, start_forward-IsHolding,
  stop_forward-IsHolding,
}
use magic_ai_router.Tunnel.Coordinator.Runs.{nth_session, on_dropped, on_session}

-- Other fields than those with sessions.
pub set_config-IsHolding :
    (config : Config) (c : Coordinator) → IsHolding c → IsHolding (record c { config = config })
set_config-IsHolding config c h = record {
  proxy_holds = h.proxy_holds;
  registered = h.registered;
  dropped_empty = h.dropped_empty;
}

pub stop_session-Holds : (env : Env) (s : Session) → Holds s → Holds (stop_session env s)
stop_session-Holds env s h =
    subst (IsHeld (monitor (stop_session env s)).process) (sym (stop_session-empty env s h)) tt

pub if-IsHolding_first :
    (b : Bool) (p q : Coordinator × Bool)
    → IsHolding p.0
    → IsHolding q.0
    → IsHolding (if b then p else q).0
if-IsHolding_first true p q h k = h
if-IsHolding_first false p q h k = k

pub restart_forward-IsHolding :
    (w : World) (tid : Text) (reload : Config) (c : Coordinator)
    → IsHolding c
    → IsHolding (restart_forward w tid reload c).0
unfolding restart_forward
restart_forward-IsHolding w tid reload c h = elim (Option-cases (lookup tid c.forwards)) [
  | inl e ↦ rw (e, restart_forward) h
  | inr (s, e) ↦
      let k = Registered-lookup tid c.forwards s h.registered e in
      let u = stop_session (env_at w c tid) s in
      let d = record c { config = reload } in
      let v = connect_session (env_at w d tid) u in
      rw (e, restart_forward)
        (if-IsHolding_first (can_forward (server_of d tid))
          (record d { forwards = insert tid v d.forwards }, true)
          (record d { forwards = remove tid d.forwards; dropped = u ∷ d.dropped }, true)
          (registry-IsHolding (insert tid v d.forwards) d (set_config-IsHolding reload c h) (
            Registered-insert tid v d.forwards
              (connect_session-Works (env_at w d tid) u (stop_session-Works (env_at w c tid) s k))
              h.registered))
          (record {
            proxy_holds = h.proxy_holds;
            registered = Registered-remove tid c.forwards h.registered;
            dropped_empty = (stop_session-IsGone (env_at w c tid) s k, h.dropped_empty);
          }))
]

pub start_all-IsHolding :
    (w : World) (ts : List Server) (c : Coordinator) → IsHolding c → IsHolding (start_all w ts c)
unfolding start_all
start_all-IsHolding w [] c h = h
start_all-IsHolding w (t ∷ ts) c h =
    start_all-IsHolding w ts (if wants_start c t then (start_forward w t.id c).0 else c) (
      if-IsHolding (wants_start c t) (start_forward w t.id c).0 c
        (start_forward-IsHolding w t.id c h) h)

pub Registered-map_sessions :
    (f : Text → Session → Session) (m : Dict Text Session)
    → ((tid : Text) (s : Session) → Works s → Works (f tid s))
    → Registered m
    → Registered (map_sessions f m)
Registered-map_sessions f [] k h = tt
Registered-map_sessions f ((tid, s) ∷ m) k h = (k tid s h.0, Registered-map_sessions f m k h.1)

pub all_stopped-IsGone :
    (w : World) (c : Coordinator) (m : Dict Text Session)
    → Registered m
    → All IsGone (all_stopped w c m)
all_stopped-IsGone w c [] h = tt
all_stopped-IsGone w c ((tid, s) ∷ m) h =
    (stop_session-IsGone (env_at w c tid) s h.0, all_stopped-IsGone w c m h.1)

pub stop_all-IsHolding : (w : World) (c : Coordinator) → IsHolding c → IsHolding (stop_all w c)
unfolding stop_all
stop_all-IsHolding w c h = record {
  proxy_holds = stop_session-Holds (env_of_proxy w c) c.proxy h.proxy_holds;
  registered = tt;
  dropped_empty =
      All-append IsGone (all_stopped w c c.forwards) c.dropped
        (all_stopped-IsGone w c c.forwards h.registered) h.dropped_empty;
}

pub toggle_pause-IsHolding :
    (w : World) (c : Coordinator) → IsHolding c → IsHolding (toggle_pause w c)
unfolding toggle_pause
toggle_pause-IsHolding w c h =
    let resumed = record c { paused = false } in
    let d = start_background w resumed in
    let k : IsHolding d = start_background-IsHolding w resumed (record {
      proxy_holds = h.proxy_holds;
      registered = h.registered;
      dropped_empty = h.dropped_empty;
    }) in
    if-IsHolding c.paused (if is_down (monitor d.proxy).status then start_ssh w d else d)
      (record c { paused = true; proxy_running = false })
      (if-IsHolding (is_down (monitor d.proxy).status) (start_ssh w d) d (start_ssh-IsHolding w d k)
        k)
      (record {
        proxy_holds = h.proxy_holds;
        registered = h.registered;
        dropped_empty = h.dropped_empty;
      })

pub demote-IsHolding :
    (w : World) (old : Option Text) (c : Coordinator) → IsHolding c → IsHolding (demote w old c)
demote-IsHolding w none c h = h
demote-IsHolding w (some []) c h = h
demote-IsHolding w (some (x ∷ old)) c h =
    let tid = x ∷ old in
    let go_on = if is_some (lookup tid c.forwards) then c else (start_forward w tid c).0 in
    let moved = if can_forward (server_of c tid) then go_on else stop_forward w tid c in
    if-IsHolding (is_server tid (current_server c)) c moved h (
      if-IsHolding (can_forward (server_of c tid)) go_on (stop_forward w tid c)
        (if-IsHolding (is_some (lookup tid c.forwards)) c (start_forward w tid c).0 h
          (start_forward-IsHolding w tid c h))
        (stop_forward-IsHolding w tid c h))

pub started-IsHolding :
    (w : World) (c : Coordinator) → IsHolding c → IsHolding (start_ssh w (start_background w c))
started-IsHolding w c h =
    start_ssh-IsHolding w (start_background w c) (start_background-IsHolding w c h)

pub start-IsHolding : (w : World) (c : Coordinator) → IsHolding c → IsHolding (start w c)
unfolding start
start-IsHolding w c h = started-IsHolding w c h

pub restart-IsHolding :
    (w : World) (reload : Config) (c : Coordinator) → IsHolding c → IsHolding (restart w reload c)
unfolding restart apply_autostarts
restart-IsHolding w reload c h =
    let halted = record c {
      proxy = stop_session (env_of_proxy w c) c.proxy;
      proxy_running = false;
      config = reload;
    } in
    let k : IsHolding halted = record {
      proxy_holds = stop_session-Holds (env_of_proxy w c) c.proxy h.proxy_holds;
      registered = h.registered;
      dropped_empty = h.dropped_empty;
    } in
    let d = demote w c.launched_proxy_id (start_ssh w (start_background w halted)) in
    start_all-IsHolding w d.config.servers d (
      demote-IsHolding w c.launched_proxy_id (start_ssh w (start_background w halted))
        (started-IsHolding w halted k))

pub rebuild_proxy-IsHolding :
    (status : Status) (w : World) (c : Coordinator)
    → IsHolding c
    → IsHolding (rebuild_proxy status w c)
rebuild_proxy-IsHolding starting w c h = h
rebuild_proxy-IsHolding running w c h =
    start_ssh-IsHolding w (record c { proxy = stop_monitor (env_of_proxy w c).exits c.proxy })
      (record {
        proxy_holds = stopped-Holds (env_of_proxy w c).exits c.proxy h.proxy_holds;
        registered = h.registered;
        dropped_empty = h.dropped_empty;
      })
rebuild_proxy-IsHolding stopped w c h = start_ssh-IsHolding w c h
rebuild_proxy-IsHolding error w c h = start_ssh-IsHolding w c h

pub rebuild_forwards-IsHolding :
    (w : World) (c : Coordinator) → IsHolding c → IsHolding (rebuild_forwards w c)
rebuild_forwards-IsHolding w c h =
    let f = λ (tid : Text) (s : Session). reconnect_now (env_at w c tid) s in
    registry-IsHolding (map_sessions f c.forwards) c h (
      Registered-map_sessions f c.forwards (λ tid s k. reconnect_now-Works (env_at w c tid) s k)
        h.registered)

pub trigger-IsHolding :
    (w : World) (c : Coordinator) → IsHolding c → IsHolding (handle_reconnect_trigger w c)
unfolding handle_reconnect_trigger
trigger-IsHolding w c h =
    rebuild_forwards-IsHolding w
      (if c.paused then c else rebuild_proxy (monitor c.proxy).status w c)
      (if-IsHolding c.paused c (rebuild_proxy (monitor c.proxy).status w c) h
        (rebuild_proxy-IsHolding (monitor c.proxy).status w c h))

pub on_session-IsHolding :
    (f : Session → Session) (tid : Text) (c : Coordinator)
    → ((s : Session) → Works s → Works (f s))
    → IsHolding c
    → IsHolding (on_session f tid c)
on_session-IsHolding f tid c k h = elim (Option-cases (lookup tid c.forwards)) [
  | inl e ↦ rw (e, on_session) h
  | inr (s, e) ↦
      rw (e, on_session)
        (registry-IsHolding (insert tid (f s) c.forwards) c h (
          Registered-insert tid (f s) c.forwards
            (k s (Registered-lookup tid c.forwards s h.registered e)) h.registered))
]

-- A dropped session stays gone under what may still reach it.
pub nth_session-IsGone :
    (f : Session → Session) (n : ℕ) (ss : List Session)
    → ((s : Session) → IsGone s → IsGone (f s))
    → All IsGone ss
    → All IsGone (nth_session f n ss)
nth_session-IsGone f n [] k h = tt
nth_session-IsGone f zero (s ∷ ss) k h = (k s h.0, h.1)
nth_session-IsGone f (suc n) (s ∷ ss) k h = (h.0, nth_session-IsGone f n ss k h.1)

pub on_dropped-IsHolding :
    (f : Session → Session) (n : ℕ) (c : Coordinator)
    → ((s : Session) → IsGone s → IsGone (f s))
    → IsHolding c
    → IsHolding (on_dropped f n c)
on_dropped-IsHolding f n c k h = record {
  proxy_holds = h.proxy_holds;
  registered = h.registered;
  dropped_empty = nth_session-IsGone f n c.dropped k h.dropped_empty;
}
