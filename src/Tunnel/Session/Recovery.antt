-- ===== src/Tunnel/Session/Recovery.antt =====
-- A lost session of tunnel/ssh_session.py is tried again, and with which delay.
use magic_ai_router.Prelude.{◌≡◌, refl, true, false, not, ◌&&◌, none, Text, arith}
use magic_ai_router.Json.{ℤ}
use magic_ai_router.Shared.SubprocessMonitor.{starting, error, check, set_status}
use magic_ai_router.Tunnel.Retry
use magic_ai_router.Tunnel.HostKeyFlow
use magic_ai_router.Tunnel.Session.{
  Session, Env, monitor, connect_session, is_down, is_host_key_changed, check_and_recover, tick,
}

module _ (text_of : ℤ → Text) (env : Env) (s : Session) where
  -- The thread that the tick of an error has started fires.
  abbrev pub fired_tick : Session
  fired_tick =
      let t = tick text_of env s in record t { retry = Retry.mark_due s.retry.next t.retry }

  tick-error :
      (monitor s).status ≡ error
      → (monitor s).process ≡ none
      → s.retry.due ≡ false
      → is_host_key_changed (monitor s) && not s.trust.change_prompted ≡ false
      → ((tick text_of env s).retry ≡ Retry.handle_error (Retry.consume_due s.retry).0)
        × ((monitor (tick text_of env s)).status ≡ error)
        × ((monitor (tick text_of env s)).process ≡ none)
  unfolding tick check_and_recover check Retry.consume_due
  tick-error failed gone idle same_key = ground arith

  pub tick-forgets :
      s.retry.due ≡ true
      → is_down (monitor s).status ≡ true
      → (monitor s).process ≡ none
      → env.tunnel ≡ true
      → ((monitor (tick text_of env s)).status ≡ starting)
        × ((tick text_of env s).retry.retries ≡ 0)
  unfolding tick check_and_recover check connect_session Retry.consume_due Retry.cancel
      HostKeyFlow.start_check set_status
  tick-forgets due down gone configured = ground arith

-- A scheduler without a live timer, after an error and the firing of its thread.
round_due :
    (w : Retry.World)
    → Retry.is_alive w.timer w.threads ≡ false
    → (Retry.mark_due w.next (Retry.handle_error (Retry.consume_due w).0)).due ≡ true
unfolding Retry.mark_due Retry.handle_error Retry.consume_due
round_due w dead = ground arith

pub error_reconnects :
    (text_of : ℤ → Text) (env later : Env) (s : Session)
    → (monitor s).status ≡ error
    → (monitor s).process ≡ none
    → s.retry.due ≡ false
    → Retry.is_alive s.retry.timer s.retry.threads ≡ false
    → is_host_key_changed (monitor s) && not s.trust.change_prompted ≡ false
    → later.tunnel ≡ true
    → (monitor (tick text_of later (fired_tick text_of env s))).status ≡ starting
error_reconnects text_of env later s failed gone idle dead same_key configured =
    let ticked = tick-error text_of env s failed gone idle same_key in
    (tick-forgets text_of later (fired_tick text_of env s) (rw (ticked.0) (round_due s.retry dead))
      (rw (ticked.1) refl) ticked.2 configured).0

-- A retry sets the table back to its first delay.
pub retry_restarts_backoff :
    (text_of : ℤ → Text) (env : Env) (s : Session)
    → s.retry.due ≡ true
    → is_down (monitor s).status ≡ true
    → (monitor s).process ≡ none
    → env.tunnel ≡ true
    → Retry.backoff (tick text_of env s).retry.scheduler
      ≡ Retry.backoff (record s.retry.scheduler { retries = 0 })
unfolding tick check_and_recover check connect_session Retry.consume_due Retry.cancel
    HostKeyFlow.start_check set_status Retry.backoff
retry_restarts_backoff text_of env s due down gone configured = ground arith
