-- ===== src/Tunnel/Coordinator/Runs.antt =====
-- The calls that reach a coordinator, in any order: those of the menu and the settings window, the
-- ticks, the ends of inspections and alerts, and the timers' threads. The last two also reach a
-- session that has left the registry, since its callbacks hold it: `dropped_trusted` and
-- `dropped_timed`.
use magic_ai_router.Prelude.{
  ℕ, zero, suc, List, [], ◌∷◌, none, some, Text, lookup, insert, text_key,
}
use magic_ai_router.Json.{ℤ}
use magic_ai_router.Tunnel.Retry
use magic_ai_router.Tunnel.HostKeyFlow
use magic_ai_router.Tunnel.Session.{Session, trust_step}
use magic_ai_router.Tunnel.Coordinator.{
  Config, Coordinator, World, env_at, start, handle_retry, trust_proxy, start_forward, stop_forward,
  restart_forward, apply_autostarts, handle_reconnect_trigger, stop_all, toggle_pause, restart,
  check_ssh, check_forwards,
}

pub data Event : Type 0 where
  started retried ssh_checked forwards_checked woken stopped_all pause_toggled autostarted :
      World → Event
  restarted : World → Config → Event
  forward_started forward_stopped : World → Text → Event
  forward_restarted : World → Text → Config → Event
  proxy_trusted : World → HostKeyFlow.Event → Event
  forward_trusted : World → Text → HostKeyFlow.Event → Event
  proxy_timed : Retry.Event → Event
  forward_timed : Text → Retry.Event → Event
  dropped_trusted : World → Text → ℕ → HostKeyFlow.Event → Event
  dropped_timed : ℕ → Retry.Event → Event

abbrev pub on_session : (Session → Session) → Text → Coordinator → Coordinator
on_session f tid c = elim (lookup tid c.forwards) [
  | none ↦ c
  | some s ↦ record c { forwards = insert tid (f s) c.forwards }
]

-- The n-th session of those that were dropped
abbrev pub nth_session : (Session → Session) → ℕ → List Session → List Session
nth_session f n [] = []
nth_session f zero (s ∷ ss) = f s ∷ ss
nth_session f (suc n) (s ∷ ss) = s ∷ nth_session f n ss

abbrev pub on_dropped : (Session → Session) → ℕ → Coordinator → Coordinator
on_dropped f n c = record c { dropped = nth_session f n c.dropped }

abbrev pub timed : Retry.Event → Session → Session
timed e s = record s { retry = Retry.step e s.retry }

module _ (text_of : ℤ → Text) where
  unfoldable pub step : Event → Coordinator → Coordinator
  step (started w) c = start w c
  step (retried w) c = handle_retry w c
  step (ssh_checked w) c = check_ssh text_of w c
  step (forwards_checked w) c = check_forwards text_of w c
  step (woken w) c = handle_reconnect_trigger w c
  step (stopped_all w) c = stop_all w c
  step (pause_toggled w) c = toggle_pause w c
  step (autostarted w) c = apply_autostarts w c
  step (restarted w reload) c = restart w reload c
  step (forward_started w tid) c = (start_forward w tid c).0
  step (forward_stopped w tid) c = stop_forward w tid c
  step (forward_restarted w tid reload) c = (restart_forward w tid reload c).0
  step (proxy_trusted w e) c = trust_proxy w e c
  step (forward_trusted w tid e) c = on_session (trust_step (env_at w c tid) e) tid c
  step (proxy_timed e) c = record c { proxy = timed e c.proxy }
  step (forward_timed tid e) c = on_session (timed e) tid c
  step (dropped_trusted w tid n e) c = on_dropped (trust_step (env_at w c tid) e) n c
  step (dropped_timed n e) c = on_dropped (timed e) n c

  unfoldable pub run : List Event → Coordinator → Coordinator
  run [] c = c
  run (e ∷ es) c = run es (step e c)
