-- ===== src/Tests/Sessions.antt =====
-- Runs of tunnel/ssh_session.py and tunnel/connection_coordinator.py.
use magic_ai_router.Prelude.{
  ℕ, ◌++◌, ◌≡◌, refl, ◌&&◌, Bool, true, false, Option, none, some, List, [], ◌∷◌, Text, codes,
  starts_with, lookup, is_some, text_key,
}
use magic_ai_router.Json.{ℤ, pos}
use magic_ai_router.Mpconf.Servers.{Forward, Server, key, server_by_id, proxy_server}
use magic_ai_router.Shared.SubprocessMonitor.{
  opened, starting, running, error, start_process, stop, check, exit_message, set_status, set_error,
}
use magic_ai_router.Tunnel.Retry
use magic_ai_router.Tunnel.HostKeyFlow
use magic_ai_router.Tunnel.HostKeyFlow.{known, check_done, replacement_answered}
use magic_ai_router.Tunnel.Session
use magic_ai_router.Tunnel.Session.{
  Session, Env, monitor, stop_monitor, start_monitor, start_now, connect_session, deliver,
  trust_step, stop_session, reconnect_now, check_and_recover, tick, asked_connect, asked_stop,
  ticked, trusted, timed, first_forward_port, is_down,
}
use magic_ai_router.Tunnel.Session.Processes.{Holds, run-Holds}
use magic_ai_router.Tunnel.Session.Recovery.{fired_tick, error_reconnects, retry_restarts_backoff}
use magic_ai_router.Tunnel.Coordinator.{
  Config, Coordinator, World, new_session, has_enabled_forwards, can_forward, server_of,
  start_background, start_ssh, start, start_proxy_ssh, handle_retry, trust_proxy, start_forward,
  stop_forward, restart_forward, start_all, apply_autostarts, handle_reconnect_trigger, stop_all,
  toggle_pause, restart, check_ssh, check_each, check_forwards, is_the_proxy, no_such_server,
}
use magic_ai_router.Tunnel.Coordinator.Runs
use magic_ai_router.Tunnel.Coordinator.Runs.{
  dropped_trusted, dropped_timed, forward_stopped, stopped_all, started, forward_started,
  forward_trusted, woken,
}
use magic_ai_router.Tunnel.Coordinator.Held.{IsHolding}
use magic_ai_router.Tunnel.Coordinator.Escapes.{AllEmpty, stop_all-empty}
use magic_ai_router.Tunnel.Coordinator.Converged.{check_forwards_lem, apply_autostarts-adds}

sessions : Unit {0}
unfolding starts_with server_by_id proxy_server start_process stop check exit_message set_status
    set_error Retry.backoff Retry.handle_error Retry.mark_due Retry.consume_due Retry.cancel
    Retry.reset Retry.step HostKeyFlow.start_check HostKeyFlow.finish_check
    HostKeyFlow.begin_replacement HostKeyFlow.cancel HostKeyFlow.answer_replacement HostKeyFlow.step
    stop_monitor start_monitor start_now connect_session deliver trust_step stop_session
    reconnect_now check_and_recover tick Session.step Session.run first_forward_port
    has_enabled_forwards start_background start_ssh start start_proxy_ssh handle_retry trust_proxy
    start_forward stop_forward restart_forward start_all apply_autostarts handle_reconnect_trigger
    stop_all toggle_pause restart check_ssh check_each check_forwards Runs.step Runs.run
sessions = tt

abbrev text_of : ℤ → Text
text_of z = codes "1"

-- A step that finds all configured, whose command starts process 40, and which has ended or not.
abbrev env : Option ℤ → Env
env poll = record {
  tunnel = true;
  spawn = true;
  cmd = codes "ssh";
  now = 5;
  popen = opened 40;
  poll = poll;
  ready = true;
  exits = true;
}

abbrev connecting : List Session.Event
connecting = asked_connect (env none) ∷ trusted (env none) (check_done 1 known) ∷ []

abbrev up : Session
up = Session.run text_of connecting new_session

abbrev lost : Session
lost =
    Session.run text_of (ticked (env none) ∷ [])
      (Session.run text_of (ticked (env (some (pos 1))) ∷ []) up)

session_tests :
    ((monitor up).status ≡ starting)
    × (up.processes ≡ 40 ∷ [])
    × ((monitor (Session.run text_of (ticked (env none) ∷ []) up)).status ≡ running)
    × ((monitor lost).status ≡ error)
    × (lost.processes ≡ [])
    × (lost.retry.retries ≡ 1)
unfolding sessions
session_tests = (refl, refl, refl, refl, refl, refl)

run-Holds_example : Holds up
unfolding sessions
run-Holds_example = run-Holds text_of connecting new_session tt

-- A session whose ssh could not be started, with no retry yet.
abbrev failed : Session
failed = record new_session {
  trust = record new_session.trust { monitor = set_status error (monitor new_session) };
}

error_reconnects_example :
    (monitor (tick text_of (env none) (fired_tick text_of (env none) failed))).status ≡ starting
unfolding sessions
error_reconnects_example =
    error_reconnects text_of (env none) (env none) failed refl refl refl refl refl refl

abbrev due_again : Session
due_again = record failed {
  retry = record failed.retry {
    scheduler = record failed.retry.scheduler { due = true; retries = 3 };
  };
}

retry_restarts_backoff_example :
    Retry.backoff (tick text_of (env none) due_again).retry.scheduler
    ≡ Retry.backoff (record due_again.retry.scheduler { retries = 0 })
unfolding sessions
retry_restarts_backoff_example =
    retry_restarts_backoff text_of (env none) due_again refl refl refl refl

abbrev forward : Bool → Forward
forward enabled = record {
  local_port = pos 8080;
  remote_host = codes "db";
  remote_port = pos 5432;
  enabled = enabled;
}

abbrev server : Text → Bool → Server
server id enabled = record {
  id = id;
  name = id;
  ssh = record {
    user = codes "u";
    host = codes "h";
    port = pos 22;
    auth_type = key;
    ssh_key = [];
    compression = true;
  };
  forwards = forward enabled ∷ [];
  autostart = true;
  nfs = record { enabled = false; local_port = pos 12049; squash_to_ssh_user = false; mounts = [] };
}

abbrev config : Bool → Config
config enabled = record {
  servers = server (codes "p") true ∷ server (codes "a") enabled ∷ [];
  proxy_server_id = codes "p";
}

abbrev world : World
world = record {
  at_proxy = env none;
  at = λ tid. env none;
  background_running = false;
  background_started = true;
  lock_taken = false;
}

abbrev idle : Coordinator
idle = record {
  config = config true;
  proxy = new_session;
  paused = false;
  proxy_running = false;
  forwards = [];
  launched_proxy_id = none;
  dropped = [];
}

abbrev calls : List Runs.Event
calls =
    started world
    ∷ forward_started world (codes "a")
    ∷ forward_trusted world (codes "a") (check_done 1 known)
    ∷ []

abbrev busy : Coordinator
busy = Runs.run text_of calls idle

coordinator_tests :
    (is_some (lookup (codes "a") busy.forwards) ≡ true)
    × ((start_forward world (codes "p") idle).1 ≡ is_the_proxy)
    × ((start_forward world (codes "x") idle).1 ≡ no_such_server)
    × ((check_forwards text_of world (record busy { config = config false })).forwards ≡ [])
    × (first_forward_port (forward false ∷ forward true ∷ []) ≡ some (pos 8080))
    × ((toggle_pause world (toggle_pause world busy)).paused ≡ false)
    × ((restart world (config false) busy).launched_proxy_id ≡ none)
unfolding sessions
coordinator_tests = (refl, refl, refl, refl, refl, refl, refl)

idle-IsHolding : IsHolding idle
idle-IsHolding = record { proxy_holds = tt; registered = tt; dropped_empty = tt }

-- The session leaves the registry while a check is on, and the check ends later, as does a timer.
abbrev late_calls : List Runs.Event
late_calls =
    started world
    ∷ forward_started world (codes "a")
    ∷ forward_stopped world (codes "a")
    ∷ dropped_trusted world (codes "a") 0 (check_done 1 known)
    ∷ dropped_timed 0 (Retry.fired 0)
    ∷ forward_started world (codes "a")
    ∷ forward_trusted world (codes "a") (check_done 1 known)
    ∷ []

stop_all-empty_example : AllEmpty (stop_all world (Runs.run text_of late_calls idle))
stop_all-empty_example =
    stop_all-empty text_of world late_calls idle (tt, (tt, (tt, (tt, (tt, (tt, (tt, tt)))))))
      idle-IsHolding

-- A session whose alert about a changed key is open
abbrev asked_about_key : Session
asked_about_key = record new_session {
  trust = record new_session.trust {
    flow = record { generation = 1; checking = false; change_prompted = true };
    issued = 1 ∷ [];
    prompts = 1 ∷ [];
  };
}

abbrev processes_of : List Session → List ℕ
processes_of [] = []
processes_of (s ∷ ss) = s.processes ++ processes_of ss

-- An answer that agrees reconnects the session after its end, and the process is in no registry.
late_answer_test :
    processes_of
      (Runs.run text_of
        (forward_stopped world (codes "a")
          ∷ dropped_trusted world (codes "a") 0 (replacement_answered 1 true)
          ∷ dropped_trusted world (codes "a") 0 (check_done 3 known)
          ∷ stopped_all world
          ∷ [])
        (record idle { forwards = (codes "a", asked_about_key) ∷ [] })).dropped
    ≡ 40 ∷ []
unfolding sessions
late_answer_test = refl

check_forwards_lem_example :
    is_some (lookup (codes "a") (check_forwards text_of world busy).forwards)
    ≡ (is_some (lookup (codes "a") busy.forwards) && can_forward (server_of busy (codes "a")))
check_forwards_lem_example = check_forwards_lem text_of world (codes "a") busy refl

apply_autostarts-adds_example :
    is_some (lookup (codes "a") (apply_autostarts world idle).forwards) ≡ true
unfolding sessions
apply_autostarts-adds_example =
    apply_autostarts-adds world (server (codes "a") true) (server (codes "p") true ∷ []) [] idle
      refl refl refl refl refl refl
