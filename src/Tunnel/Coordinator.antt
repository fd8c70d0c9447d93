-- ===== src/Tunnel/Coordinator.antt =====
-- tunnel/connection_coordinator.py, `ConnectionCoordinator`: the session of the proxy, and the
-- forward sessions by the id of their server. Each method is one step: check_ssh and check_forwards
-- take the lock or do nothing, and most others hold it; but handle_retry, start, apply_autostarts,
-- _start_proxy_ssh and the callbacks of the host key hold none, so that it is an assumption that no
-- other call comes between. The configuration is the merged one. Whether the proxy's background
-- runs and starts is an answer of its runtime.
pub mod Runs
pub mod Held
pub mod Steps
pub mod Escapes
pub mod Converged
use magic_ai_router.Prelude.{
  ℕ, Bool, true, false, not, ◌&&◌, ◌||◌, Option, none, some, List, [], ◌∷◌, ◌++◌, Text, Dict,
  lookup, insert, remove, is_some, text_key, ◌==◌, if◌then◌else◌,
}
use magic_ai_router.Json.{ℤ}
use magic_ai_router.Mpconf.Servers.{Forward, Server, server_by_id, proxy_server}
use magic_ai_router.Shared.SubprocessMonitor
use magic_ai_router.Shared.SubprocessMonitor.{Status, stopped, starting, running, error}
use magic_ai_router.Tunnel.Retry
use magic_ai_router.Tunnel.Retry.{default_delays, default_max_delay}
use magic_ai_router.Tunnel.HostKeyFlow
use magic_ai_router.Tunnel.HostKeyFlow.{connect, reconnect}
use magic_ai_router.Tunnel.Session.{
  Session, Env, monitor, stop_monitor, start_monitor, connect_session, stop_session, is_down,
  reconnect_now, check_and_recover, tick,
}

pub record Config : Type 0 where
  pub servers : List Server
  pub proxy_server_id : Text

-- `dropped` are the sessions that were taken out of the registry, as they were left.
pub record Coordinator : Type 0 where
  pub config : Config
  pub proxy : Session
  pub paused : Bool
  pub proxy_running : Bool
  pub forwards : Dict Text Session
  pub launched_proxy_id : Option Text
  pub dropped : List Session

-- What a step finds: for the proxy's session, for each forward session, of the runtime, and whether
-- the lock is taken by another thread.
pub record World : Type 0 where
  pub at_proxy : Env
  pub at : Text → Env
  pub background_running : Bool
  pub background_started : Bool
  pub lock_taken : Bool

abbrev pub new_session : Session
new_session = record {
  retry = Retry.init default_delays default_max_delay;
  trust = record {
    flow = record { generation = 0; checking = false; change_prompted = false };
    monitor = SubprocessMonitor.init;
    issued = [];
    prompts = [];
    calls = [];
  };
  processes = [];
}

unfoldable pub has_enabled_forwards : List Forward → Bool
has_enabled_forwards [] = false
has_enabled_forwards (f ∷ fs) = f.enabled || has_enabled_forwards fs

-- The server that `tunnel_id` names, if a session on it may exist.
abbrev pub can_forward : Option Server → Bool
can_forward none = false
can_forward (some t) = has_enabled_forwards t.forwards

abbrev pub current_server : Coordinator → Option Server
current_server c = proxy_server c.config.proxy_server_id c.config.servers

abbrev pub server_of : Coordinator → Text → Option Server
server_of c tid = server_by_id tid c.config.servers

abbrev pub is_server : Text → Option Server → Bool
is_server tid none = false
is_server tid (some t) = t.id == tid

-- A session asks the configuration for its tunnel itself.
abbrev pub env_at : World → Coordinator → Text → Env
env_at w c tid =
    let found = is_some (server_of c tid) in record (w.at tid) { tunnel = found; spawn = found }

abbrev pub env_of_proxy : World → Coordinator → Env
env_of_proxy w c =
    let found = is_some (current_server c) in record w.at_proxy { tunnel = found; spawn = found }

unfoldable pub start_background : World → Coordinator → Coordinator
start_background w c =
    if w.background_running then c else record c { proxy_running = w.background_started }

unfoldable pub start_ssh : World → Coordinator → Coordinator
start_ssh w c = record c { proxy = connect_session (env_of_proxy w c) c.proxy; paused = false }

unfoldable pub start : World → Coordinator → Coordinator
start w c = start_ssh w (start_background w c)

unfoldable pub start_proxy_ssh : World → Coordinator → Coordinator
start_proxy_ssh w c = elim (current_server c) [
  | none ↦ c
  | some t ↦ record c {
    launched_proxy_id = some t.id;
    proxy = start_monitor (env_of_proxy w c) c.proxy;
  }
]

abbrev pub retry_connect : World → Coordinator → Coordinator
retry_connect w c =
    if c.paused then c else (if is_down (monitor c.proxy).status then start_proxy_ssh w c else c)

unfoldable pub handle_retry : World → Coordinator → Coordinator
handle_retry w c =
    let taken = Retry.consume_due c.proxy.retry in
    let d = record c { proxy = record c.proxy { retry = taken.0 } } in
    if taken.1 then retry_connect w d else d

abbrev pub set_trust : HostKeyFlow.World → Coordinator → Coordinator
set_trust t c = record c { proxy = record c.proxy { trust = t } }

-- The end of an inspection or of an alert of the proxy's session, with its callback.
unfoldable pub trust_proxy : World → HostKeyFlow.Event → Coordinator → Coordinator
trust_proxy w e c =
    let trust = HostKeyFlow.step e c.proxy.trust in
    elim trust.calls [
      | [] ↦ set_trust trust c
      | connect g ∷ rest ↦ start_proxy_ssh w (set_trust (record trust { calls = rest }) c)
      | reconnect g ∷ rest ↦ start_ssh w (set_trust (record trust { calls = rest }) c)
    ]

abbrev pub drop_session : Env → Session → Coordinator → Coordinator
drop_session env s c = record c { dropped = stop_session env s ∷ c.dropped }

pub data Outcome : Type 0 where
  ok no_such_server is_the_proxy no_forwards : Outcome

abbrev pub connect_if_down : Env → Session → Session
connect_if_down env s = if is_down (monitor s).status then connect_session env s else s

abbrev pub start_known : World → Text → Coordinator → Coordinator
start_known w tid c = elim (lookup tid c.forwards) [
  | none ↦ record c {
    forwards = insert tid (connect_session (env_at w c tid) new_session) c.forwards;
  }
  | some s ↦ record c { forwards = insert tid (connect_if_down (env_at w c tid) s) c.forwards }
]

unfoldable pub start_forward : World → Text → Coordinator → Coordinator × Outcome
start_forward w tid c = elim (server_of c tid) [
  | none ↦ (c, no_such_server)
  | some t ↦
      if is_server tid (current_server c)
      then (c, is_the_proxy)
      else (if has_enabled_forwards t.forwards then (start_known w tid c, ok) else (c, no_forwards))
]

unfoldable pub stop_forward : World → Text → Coordinator → Coordinator
stop_forward w tid c = elim (lookup tid c.forwards) [
  | none ↦ c
  | some s ↦ record (drop_session (env_at w c tid) s c) { forwards = remove tid c.forwards }
]

-- `reload` is the configuration that is read anew between the stop and the start.
unfoldable pub restart_forward : World → Text → Config → Coordinator → Coordinator × Bool
restart_forward w tid reload c = elim (lookup tid c.forwards) [
  | none ↦ (c, false)
  | some s ↦
      let stopped_one = stop_session (env_at w c tid) s in
      let d = record c { config = reload } in
      if can_forward (server_of d tid)
      then (
        record d {
          forwards = insert tid (connect_session (env_at w d tid) stopped_one) d.forwards;
        },
        true,
      )
      else (record d { forwards = remove tid d.forwards; dropped = stopped_one ∷ d.dropped }, true)
]

-- The servers in their order; a server of the registry, or without an id, is passed over.
abbrev pub wants_start : Coordinator → Server → Bool
wants_start c t =
    t.autostart
    && not (t.id == [])
    && not (is_server t.id (current_server c))
    && not (is_some (lookup t.id c.forwards))
    && has_enabled_forwards t.forwards

unfoldable pub start_all : World → List Server → Coordinator → Coordinator
start_all w [] c = c
start_all w (t ∷ ts) c = start_all w ts (if wants_start c t then (start_forward w t.id c).0 else c)

unfoldable pub apply_autostarts : World → Coordinator → Coordinator
apply_autostarts w c = start_all w c.config.servers c

abbrev pub map_sessions : (Text → Session → Session) → Dict Text Session → Dict Text Session
map_sessions f [] = []
map_sessions f ((tid, s) ∷ m) = (tid, f tid s) ∷ map_sessions f m

abbrev pub rebuild_proxy : Status → World → Coordinator → Coordinator
rebuild_proxy starting w c = c
rebuild_proxy running w c =
    start_ssh w (record c { proxy = stop_monitor (env_of_proxy w c).exits c.proxy })
rebuild_proxy _ w c = start_ssh w c

abbrev pub rebuild_forwards : World → Coordinator → Coordinator
rebuild_forwards w c = record c {
  forwards = map_sessions (λ tid s. reconnect_now (env_at w c tid) s) c.forwards;
}

unfoldable pub handle_reconnect_trigger : World → Coordinator → Coordinator
handle_reconnect_trigger w c =
    rebuild_forwards w (if c.paused then c else rebuild_proxy (monitor c.proxy).status w c)

abbrev pub all_stopped : World → Coordinator → Dict Text Session → List Session
all_stopped w c [] = []
all_stopped w c ((tid, s) ∷ m) = stop_session (env_at w c tid) s ∷ all_stopped w c m

-- `cancel`, and `stop_all` at the end of the program: both stop every session.
unfoldable pub stop_all : World → Coordinator → Coordinator
stop_all w c = record c {
  proxy = stop_session (env_of_proxy w c) c.proxy;
  forwards = [];
  dropped = all_stopped w c c.forwards ++ c.dropped;
  proxy_running = false;
}

unfoldable pub toggle_pause : World → Coordinator → Coordinator
toggle_pause w c =
    if c.paused
    then (let d = start_background w (record c { paused = false }) in
        if is_down (monitor d.proxy).status then start_ssh w d else d)
    else record c { paused = true; proxy_running = false }

-- The proxy that ran before goes on as a forward session, or is stopped.
abbrev pub demote : World → Option Text → Coordinator → Coordinator
demote w none c = c
demote w (some []) c = c
demote w (some (x ∷ old)) c =
    let tid = x ∷ old in
    if is_server tid (current_server c)
    then c
    else (if can_forward (server_of c tid)
        then (if is_some (lookup tid c.forwards) then c else (start_forward w tid c).0)
        else stop_forward w tid c)

unfoldable pub restart : World → Config → Coordinator → Coordinator
restart w reload c =
    let halted = record c {
      proxy = stop_session (env_of_proxy w c) c.proxy;
      proxy_running = false;
      config = reload;
    } in
    apply_autostarts w (demote w c.launched_proxy_id (start_ssh w (start_background w halted)))

-- `str` of an exit code
module _ (text_of : ℤ → Text) where
  unfoldable pub check_ssh : World → Coordinator → Coordinator
  check_ssh w c =
      if w.lock_taken || c.paused
      then c
      else record c { proxy = check_and_recover text_of (env_of_proxy w c) c.proxy }

  -- One session of the registry: it is stopped and dropped, or its tick runs.
  abbrev pub check_one : World → Text → Session → Coordinator → Coordinator
  check_one w tid s c =
      if can_forward (server_of c tid)
      then record c { forwards = insert tid (tick text_of (env_at w c tid) s) c.forwards }
      else record (drop_session (env_at w c tid) s c) { forwards = remove tid c.forwards }

  unfoldable pub check_each : World → Dict Text Session → Coordinator → Coordinator
  check_each w [] c = c
  check_each w ((tid, s) ∷ m) c = check_each w m (check_one w tid s c)

  unfoldable pub check_forwards : World → Coordinator → Coordinator
  check_forwards w c = if w.lock_taken then c else check_each w c.forwards c
