-- ===== src/Tunnel/Coordinator/Escapes.antt =====
-- No process of ssh escapes tunnel/connection_coordinator.py.
use magic_ai_router.Prelude.{
  ◌++◌, ◌≡◌, refl, ◌||◌, List, [], ◌∷◌, Text, Dict, All, All-append, insert, remove, text_key,
}
use magic_ai_router.Json.{ℤ}
use magic_ai_router.Tunnel.Session.{Session, trust_step, check_and_recover, tick}
use magic_ai_router.Tunnel.Session.Processes.{stop_session-empty, check_and_recover-Holds}
use magic_ai_router.Tunnel.Session.Callbacks.{
  Works, IsGone, trust_step-Works, trust_step-IsGone, tick-Works,
}
use magic_ai_router.Tunnel.HostKeyFlow.Stale.{IsLate}
use magic_ai_router.Tunnel.Coordinator.{
  Coordinator, World, can_forward, server_of, env_at, env_of_proxy, drop_session, apply_autostarts,
  all_stopped, stop_all, check_ssh, check_one, check_each, check_forwards,
}
use magic_ai_router.Tunnel.Coordinator.Held.{
  Registered, IsHolding, Registered-insert, Registered-remove, if-IsHolding, handle_retry-IsHolding,
  trust_proxy-IsHolding, registry-IsHolding, start_forward-IsHolding, drop_session-IsHolding,
  stop_forward-IsHolding,
}
use magic_ai_router.Tunnel.Coordinator.Steps.{
  restart_forward-IsHolding, start_all-IsHolding, all_stopped-IsGone, stop_all-IsHolding,
  toggle_pause-IsHolding, start-IsHolding, restart-IsHolding, trigger-IsHolding,
  on_session-IsHolding, on_dropped-IsHolding,
}
use magic_ai_router.Tunnel.Coordinator.Runs.{
  dropped_trusted, dropped_timed, Event, started, retried, ssh_checked, forwards_checked, woken,
  stopped_all, pause_toggled, autostarted, restarted, forward_started, forward_stopped,
  forward_restarted, proxy_trusted, forward_trusted, proxy_timed, forward_timed, timed, step, run,
}

-- What reaches a dropped session is the end of an inspection or the answer to the alert of a check,
-- not the answer to the alert of a replaced key.
abbrev pub IsLateAtMost : Event → Type 0
IsLateAtMost (dropped_trusted w tid n e) = IsLate e
IsLateAtMost _ = Unit

All-empty : (ss : List Session) → All IsGone ss → All (λ (s : Session). s.processes ≡ []) ss
All-empty [] h = tt
All-empty (s ∷ ss) h = (h.0.3, All-empty ss h.1)

-- At the end of the program, or after a cancellation, nothing runs.
abbrev pub AllEmpty : Coordinator → Type 0
AllEmpty c =
    (c.proxy.processes ≡ []) × (c.forwards ≡ []) × All (λ (s : Session). s.processes ≡ []) c.dropped

module _ (text_of : ℤ → Text) where
  check_ssh-IsHolding :
      (w : World) (c : Coordinator) → IsHolding c → IsHolding (check_ssh text_of w c)
  unfolding check_ssh
  check_ssh-IsHolding w c h =
      if-IsHolding (w.lock_taken || c.paused) c
        (record c { proxy = check_and_recover text_of (env_of_proxy w c) c.proxy }) h
        (record {
          proxy_holds = check_and_recover-Holds text_of (env_of_proxy w c) c.proxy h.proxy_holds;
          registered = h.registered;
          dropped_empty = h.dropped_empty;
        })

  check_one-IsHolding :
      (w : World) (tid : Text) (s : Session) (c : Coordinator)
      → IsHolding c
      → Works s
      → IsHolding (check_one text_of w tid s c)
  check_one-IsHolding w tid s c h k =
      let ticked = tick text_of (env_at w c tid) s in
      if-IsHolding (can_forward (server_of c tid))
        (record c { forwards = insert tid ticked c.forwards })
        (record (drop_session (env_at w c tid) s c) { forwards = remove tid c.forwards })
        (registry-IsHolding (insert tid ticked c.forwards) c h (
          Registered-insert tid ticked c.forwards (tick-Works text_of (env_at w c tid) s k)
            h.registered))
        (drop_session-IsHolding (env_at w c tid) s (remove tid c.forwards) c h k
          (Registered-remove tid c.forwards h.registered))

  check_each-IsHolding :
      (w : World) (m : Dict Text Session) (c : Coordinator)
      → Registered m
      → IsHolding c
      → IsHolding (check_each text_of w m c)
  unfolding check_each
  check_each-IsHolding w [] c r h = h
  check_each-IsHolding w ((tid, s) ∷ m) c r h =
      check_each-IsHolding w m (check_one text_of w tid s c) r.1
        (check_one-IsHolding w tid s c h r.0)

  check_forwards-IsHolding :
      (w : World) (c : Coordinator) → IsHolding c → IsHolding (check_forwards text_of w c)
  unfolding check_forwards
  check_forwards-IsHolding w c h =
      if-IsHolding w.lock_taken c (check_each text_of w c.forwards c) h
        (check_each-IsHolding w c.forwards c h.registered h)

  step-IsHolding :
      (e : Event) (c : Coordinator) → IsLateAtMost e → IsHolding c → IsHolding (step text_of e c)
  unfolding step apply_autostarts
  step-IsHolding (started w) c late h = start-IsHolding w c h
  step-IsHolding (retried w) c late h = handle_retry-IsHolding w c h
  step-IsHolding (ssh_checked w) c late h = check_ssh-IsHolding w c h
  step-IsHolding (forwards_checked w) c late h = check_forwards-IsHolding w c h
  step-IsHolding (woken w) c late h = trigger-IsHolding w c h
  step-IsHolding (stopped_all w) c late h = stop_all-IsHolding w c h
  step-IsHolding (pause_toggled w) c late h = toggle_pause-IsHolding w c h
  step-IsHolding (autostarted w) c late h = start_all-IsHolding w c.config.servers c h
  step-IsHolding (restarted w reload) c late h = restart-IsHolding w reload c h
  step-IsHolding (forward_started w tid) c late h = start_forward-IsHolding w tid c h
  step-IsHolding (forward_stopped w tid) c late h = stop_forward-IsHolding w tid c h
  step-IsHolding (forward_restarted w tid reload) c late h =
      restart_forward-IsHolding w tid reload c h
  step-IsHolding (proxy_trusted w e) c late h = trust_proxy-IsHolding w e c h
  step-IsHolding (forward_trusted w tid e) c late h =
      on_session-IsHolding (trust_step (env_at w c tid) e) tid c
        (trust_step-Works (env_at w c tid) e) h
  step-IsHolding (proxy_timed e) c late h = record {
    proxy_holds = h.proxy_holds;
    registered = h.registered;
    dropped_empty = h.dropped_empty;
  }
  step-IsHolding (forward_timed tid e) c late h = on_session-IsHolding (timed e) tid c (λ s k. k) h
  step-IsHolding (dropped_trusted w tid n e) c late h =
      on_dropped-IsHolding (trust_step (env_at w c tid) e) n c
        (λ s k. trust_step-IsGone (env_at w c tid) e s late k) h
  step-IsHolding (dropped_timed n e) c late h = on_dropped-IsHolding (timed e) n c (λ s k. k) h

  pub run-IsHolding :
      (es : List Event) (c : Coordinator)
      → All IsLateAtMost es
      → IsHolding c
      → IsHolding (run text_of es c)
  unfolding run
  run-IsHolding [] c late h = h
  run-IsHolding (e ∷ es) c late h =
      run-IsHolding es (step text_of e c) late.1 (step-IsHolding e c late.0 h)

  -- Whatever calls, ticks, inspections, alerts and timers there were, provided that no alert about
  -- a changed key is answered when its session has left the registry, stop_all leaves no process of
  -- ssh: none of the proxy's session, none in the registry, and none of any session that ever left
  -- it, whose inspections may still end, and whose other alerts may still be answered. At the start
  -- the sessions hold their processes, no callback is left to be made, and none that was not begun
  -- is waited for.
  pub stop_all-empty :
      (w : World) (es : List Event) (c : Coordinator)
      → All IsLateAtMost es
      → IsHolding c
      → AllEmpty (stop_all w (run text_of es c))
  unfolding stop_all
  stop_all-empty w es c late h =
      let d = run text_of es c in
      let k = run-IsHolding es c late h in
      (
        stop_session-empty (env_of_proxy w d) d.proxy k.proxy_holds,
        refl,
        All-empty (all_stopped w d d.forwards ++ d.dropped) (
            All-append IsGone (all_stopped w d d.forwards) d.dropped
              (all_stopped-IsGone w d d.forwards k.registered) k.dropped_empty),
      )
