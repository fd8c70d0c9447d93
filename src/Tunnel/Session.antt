-- ===== src/Tunnel/Session.antt =====
-- tunnel/ssh_session.py: one SSH session, made of the process monitor, the retry scheduler and the
-- flow of the host key. The flow's callbacks run at once, as `on_connect` and `on_reconnect` do;
-- what the configuration, the system and the network answer to a step is its environment.
pub mod Processes
pub mod Recovery
pub mod Callbacks
use magic_ai_router.Prelude.{
  ℕ, Bool, true, false, not, ◌&&◌, ◌||◌, Option, none, some, List, [], ◌∷◌, Text, codes, nat_beq,
  starts_with, if◌then◌else◌,
}
use magic_ai_router.Json.{ℤ}
use magic_ai_router.Mpconf.Validate.{between, port_max}
use magic_ai_router.Mpconf.Servers.{Forward}
use magic_ai_router.Shared.SubprocessMonitor.{
  SubprocessMonitor, Status, stopped, starting, running, error, Popen, opened, not_opened, Signal,
  terminate, kill, start_process, stop, check,
}
use magic_ai_router.Tunnel.Retry
use magic_ai_router.Tunnel.HostKeyFlow
use magic_ai_router.Tunnel.HostKeyFlow.{connect, reconnect}

-- `processes` are those that were started and neither signalled nor seen to have ended.
pub record Session : Type 0 where
  pub retry : Retry.World
  pub trust : HostKeyFlow.World
  pub processes : List ℕ

-- What a step of a session finds: whether its tunnel is configured, and the one to spawn; the
-- command, the time and the answer to it; the process's exit code, the probe, and whether a stop is
-- obeyed.
pub record Env : Type 0 where
  pub tunnel : Bool
  pub spawn : Bool
  pub cmd : Text
  pub now : ℕ
  pub popen : Popen
  pub poll : Option ℤ
  pub ready : Bool
  pub exits : Bool

abbrev pub monitor : Session → SubprocessMonitor
monitor s = s.trust.monitor

abbrev pub set_monitor : SubprocessMonitor → Session → Session
set_monitor m s = record s { trust = record s.trust { monitor = m } }

abbrev pub gone : ℕ → List ℕ → List ℕ
gone p [] = []
gone p (q ∷ qs) = let rest = gone p qs in if nat_beq p q then rest else q ∷ rest

abbrev pub signalled : List Signal → List ℕ → List ℕ
signalled [] ps = ps
signalled (terminate p ∷ sigs) ps = signalled sigs (gone p ps)
signalled (kill p ∷ sigs) ps = signalled sigs (gone p ps)

abbrev pub launched : Popen → List ℕ → List ℕ
launched (opened p) ps = p ∷ ps
launched (not_opened _) ps = ps

-- What has ended is no longer a process of the session.
abbrev pub reaped : Option ℕ → Option ℤ → List ℕ → List ℕ
reaped (some p) (some ret) ps = gone p ps
reaped _ _ ps = ps

unfoldable pub stop_monitor : Bool → Session → Session
stop_monitor exits s =
    let stopped_now = stop exits (monitor s) in
    record (set_monitor stopped_now.0 s) { processes = signalled stopped_now.1 s.processes }

-- `SSHMonitor.start`: an older process is stopped before the new one is spawned.
unfoldable pub start_monitor : Env → Session → Session
start_monitor env s =
    let t = stop_monitor env.exits s in
    record (set_monitor (start_process env.cmd env.now env.popen (monitor t)).0 t) {
      processes = launched env.popen t.processes;
    }

unfoldable pub start_now : Env → Session → Session
start_now env s = if env.spawn then start_monitor env s else s

unfoldable pub connect_session : Env → Session → Session
connect_session env s = record s {
  retry = Retry.cancel s.retry;
  trust = HostKeyFlow.start_check env.tunnel s.trust;
}

-- The callback that a step of the flow has made.
unfoldable pub deliver : Env → Session → Session
deliver env s = elim s.trust.calls [
  | [] ↦ s
  | connect g ∷ rest ↦ start_now env (record s { trust = record s.trust { calls = rest } })
  | reconnect g ∷ rest ↦ connect_session env (record s { trust = record s.trust { calls = rest } })
]

-- The end of an inspection or of an alert, called on the main thread.
unfoldable pub trust_step : Env → HostKeyFlow.Event → Session → Session
trust_step env e s = deliver env (record s { trust = HostKeyFlow.step e s.trust })

unfoldable pub stop_session : Env → Session → Session
stop_session env s =
    stop_monitor env.exits
      (record s { retry = Retry.cancel s.retry; trust = HostKeyFlow.cancel s.trust })

abbrev pub is_down : Status → Bool
is_down stopped = true
is_down error = true
is_down _ = false

unfoldable pub reconnect_now : Env → Session → Session
reconnect_now env s = elim (monitor s).status [
  | starting ↦ s
  | running ↦ connect_session env (stop_monitor env.exits s)
  | _ ↦ connect_session env s
]

-- `phrase in stderr`
abbrev pub contains_text : Text → Text → Bool
contains_text phrase [] = starts_with [] phrase
contains_text phrase (c ∷ text) = starts_with (c ∷ text) phrase || contains_text phrase text

abbrev pub host_key_changed : Text → Bool
host_key_changed stderr = contains_text (codes "REMOTE HOST IDENTIFICATION HAS CHANGED") stderr

abbrev is_error : Status → Bool
is_error error = true
is_error _ = false

abbrev pub is_host_key_changed : SubprocessMonitor → Bool
is_host_key_changed m = is_error m.status && host_key_changed m.error_msg

abbrev pub recover : Status → Env → Session → Session
recover running env s = record s { retry = Retry.reset s.retry }
recover error env s =
    if is_host_key_changed (monitor s) && not s.trust.change_prompted
    then record s { trust = HostKeyFlow.begin_replacement env.tunnel s.trust }
    else record s { retry = Retry.handle_error s.retry }
recover _ env s = s

-- `str` of an exit code
module _ (text_of : ℤ → Text) where
  abbrev pub check_monitor : Env → Session → Session
  check_monitor env s =
      record (set_monitor (check text_of (codes "SSH") env.poll env.ready (monitor s)) s) {
        processes = reaped (monitor s).process env.poll s.processes;
      }

  -- The four statuses for which the source goes on are all that a monitor has.
  unfoldable pub check_and_recover : Env → Session → Session
  check_and_recover env s = let t = check_monitor env s in recover (monitor t).status env t

  unfoldable pub tick : Env → Session → Session
  tick env s =
      let taken = Retry.consume_due s.retry in
      let t = record s { retry = taken.0 } in
      check_and_recover env
        (if taken.1 && is_down (monitor t).status then connect_session env t else t)

-- The probe's port: that of the first forward that is switched on.
unfoldable pub first_forward_port : List Forward → Option ℤ
first_forward_port [] = none
first_forward_port (f ∷ fs) =
    let rest = first_forward_port fs in
    if f.enabled && between 1 port_max f.local_port then some f.local_port else rest

pub data Event : Type 0 where
  asked_connect asked_stop asked_reconnect ticked : Env → Event
  trusted : Env → HostKeyFlow.Event → Event
  timed : Retry.Event → Event

module _ (text_of : ℤ → Text) where
  unfoldable pub step : Event → Session → Session
  step (asked_connect env) s = connect_session env s
  step (asked_stop env) s = stop_session env s
  step (asked_reconnect env) s = reconnect_now env s
  step (ticked env) s = tick text_of env s
  step (trusted env e) s = trust_step env e s
  step (timed e) s = record s { retry = Retry.step e s.retry }

  unfoldable pub run : List Event → Session → Session
  run [] s = s
  run (e ∷ es) s = run es (step e s)
