-- ===== src/Mounts/Coordinator.antt =====
-- mount/coordinator.py, `MountCoordinator`: which mounts are wanted, their sessions, and the jobs
-- that mount and unmount. A method holds the lock and is one step. A job runs beside the methods:
-- those that were submitted and have not ended are part of the state, and its end is a step. The
-- pool takes every job, as it does until the program ends.
pub mod Runs
pub mod Jobs
pub mod Claims
pub mod Sessions
pub mod Sweep
pub mod Order
use magic_ai_router.Prelude.{
  ℕ, ◌+◌, Bool, true, false, not, ◌&&◌, ◌||◌, Option, none, some, List, [], ◌∷◌, ◌++◌, Text, codes,
  Dict, Key, lookup, insert, remove, contains, any, is_some, text_key, ◌==◌, leb, ltb, nat_beq, map,
  strip, if◌then◌else◌, ◌≡◌, ◌↔◌, arith,
}
use magic_ai_router.Json.{ℤ}
use magic_ai_router.Mpconf.Servers.{Mount, Nfs, Server}
use magic_ai_router.Shared.SubprocessMonitor.{Status, stopped, starting, running, error}
use magic_ai_router.Tunnel.Session.{
  Session, Env, monitor, connect_session, stop_session, reconnect_now, is_down, tick,
}
use magic_ai_router.Tunnel.Coordinator.{new_session}

-- A server's id and the name of a mount.
abbrev pub MountKey : Type 0
MountKey = Text × Text

abbrev pub same_mount : MountKey → MountKey → Bool
same_mount (a, b) (c, d) = a == c && b == d

pub same_mount_iff : (j k : MountKey) → (same_mount j k ≡ true) ↔ (j ≡ k)
same_mount_iff (a, b) (c, d) = ground (arith, text_key.same_key_iff a c, text_key.same_key_iff b d)

instance abbrev pub mount_key : Key MountKey
mount_key = record { same_key = same_mount; same_key_iff = same_mount_iff }

pub data MountStatus : Type 0 where
  unmounted mounting mounted unmounting failed : MountStatus

pub record MountState : Type 0 where
  pub status : MountStatus
  pub error_text : Text
  pub fixable : Text
  pub busy : Bool
  pub next_retry : ℕ

abbrev pub new_state : MountState
new_state = record {
  status = unmounted;
  error_text = [];
  fixable = [];
  busy = false;
  next_retry = 0;
}

pub record NfsSession : Type 0 where
  pub local_port : ℤ
  pub session : Session

pub data Job : Type 0 where
  mount_job : MountKey → Mount → Job
  unmount_job : MountKey → Job

-- `dropped` are the sessions that were stopped and taken out. The source goes through the wanted
-- mounts in their sorted order, which here is the order of the list.
pub record Coordinator : Type 0 where
  pub servers : List Server
  pub sessions : Dict Text NfsSession
  pub desired : List MountKey
  pub states : Dict MountKey MountState
  pub jobs : List Job
  pub dropped : List Session

-- What a step finds: for the session of each server, the directories that are mounted, and the
-- time.
pub record World : Type 0 where
  pub at : Text → Env
  pub table : List Text
  pub now : ℕ

abbrev replaced : ℕ → ℕ
replaced c = if nat_beq c b'/' || nat_beq c b'\\' then b'-' else c

abbrev or_nfs : Text → Text
or_nfs [] = codes "nfs"
or_nfs (c ∷ s) = c ∷ s

-- `resolve_mount_dir` of mpconf/config.py
unfoldable pub resolve_dir : Mount → Text
resolve_dir row = elim (strip row.local_dir) [
  | [] ↦ codes "/Volumes/" ++ or_nfs (strip (map replaced (strip row.name)))
  | c ∷ explicit ↦ c ∷ explicit
]

-- `_tunnels_by_id`: of servers with one id the last counts, and one without an id does not.
unfoldable pub by_id : List Server → Dict Text Server → Dict Text Server
by_id [] m = m
by_id (s ∷ ss) m = by_id ss (if s.id == [] then m else insert s.id s m)

abbrev pub tunnels : Coordinator → Dict Text Server
tunnels c = by_id c.servers []

abbrev pub find_row : Text → List Mount → Option Mount
find_row name [] = none
find_row name (row ∷ rows) = if row.name == name then some row else find_row name rows

abbrev pub row_in : Text → Option Server → Option Mount
row_in name none = none
row_in name (some t) = find_row name t.nfs.mounts

abbrev pub row_of : Coordinator → MountKey → Option Mount
row_of c k = row_in k.1 (lookup k.0 (tunnels c))

abbrev pub state_or_new : Option MountState → MountState
state_or_new none = new_state
state_or_new (some s) = s

-- `setdefault(key, _MountState())`
abbrev pub state_of : Coordinator → MountKey → MountState
state_of c k = state_or_new (lookup k c.states)

abbrev pub set_state : MountKey → MountState → Coordinator → Coordinator
set_state k s c = record c { states = insert k s c.states }

-- `add` of a set
abbrev pub want : MountKey → List MountKey → List MountKey
want k ks = if contains k ks then ks else k ∷ ks

abbrev pub unwant : MountKey → List MountKey → List MountKey
unwant k [] = []
unwant k (j ∷ ks) = let rest = unwant k ks in if j == k then rest else j ∷ rest

-- Some mount of the server is wanted.
abbrev pub wants_server : Text → List MountKey → Bool
wants_server tid ks = any (λ k. k.0 == tid) ks

-- A session finds its tunnel as long as its server is configured.
abbrev pub env_at : World → Coordinator → Text → Env
env_at w c tid =
    let found = is_some (lookup tid (tunnels c)) in
    record (w.at tid) { tunnel = found; spawn = found }

abbrev pub set_session : Text → NfsSession → Coordinator → Coordinator
set_session tid s c = record c { sessions = insert tid s c.sessions }

abbrev pub open_session : World → Text → ℤ → Coordinator → Coordinator
open_session w tid port c =
    set_session tid
      (record { local_port = port; session = connect_session (env_at w c tid) new_session }) c

abbrev pub with_session : Session → NfsSession → NfsSession
with_session s n = record n { session = s }

-- An explicit wish does not wait for the backoff.
abbrev pub ensure_known : World → Text → ℤ → Option NfsSession → Coordinator → Coordinator
ensure_known w tid port none c = open_session w tid port c
ensure_known w tid port (some n) c =
    if is_down (monitor n.session).status
    then set_session tid (with_session (connect_session (env_at w c tid) n.session) n) c
    else c

unfoldable pub ensure_session : World → Text → Coordinator → Coordinator
ensure_session w tid c = elim (lookup tid (tunnels c)) [
  | none ↦ c
  | some t ↦
      if t.nfs.enabled then ensure_known w tid t.nfs.local_port (lookup tid c.sessions) c else c
]

abbrev pub drop_session : World → Text → NfsSession → Coordinator → Coordinator
drop_session w tid n c = record c { dropped = stop_session (env_at w c tid) n.session ∷ c.dropped }

abbrev pub teardown_known : World → Text → Option NfsSession → Coordinator → Coordinator
teardown_known w tid none c = c
teardown_known w tid (some n) c = record (drop_session w tid n c) {
  sessions = remove tid c.sessions;
}

unfoldable pub teardown : World → Text → Coordinator → Coordinator
teardown w tid c = teardown_known w tid (lookup tid c.sessions) c

-- The key is taken by a job, until it ends.
abbrev pub claim : MountKey → MountState → Job → Coordinator → Coordinator
claim k s job c = record (set_state k (record s { busy = true }) c) { jobs = c.jobs ++ job ∷ [] }

unfoldable pub dispatch_mount : MountKey → Mount → Coordinator → Coordinator
dispatch_mount k row c =
    let s = state_of c k in
    if s.busy
    then set_state k s c
    else claim k (record s { status = mounting; error_text = [] }) (mount_job k row) c

abbrev pub claim_unmount : MountKey → Coordinator → Coordinator
claim_unmount k c =
    let s = state_of c k in
    if s.busy then set_state k s c else claim k (record s { status = unmounting }) (unmount_job k) c

abbrev pub dir_mounted : World → Option Mount → Bool
dir_mounted w none = false
dir_mounted w (some row) = contains (resolve_dir row) w.table

unfoldable pub dispatch_unmount : World → MountKey → Coordinator → Coordinator
dispatch_unmount w k c =
    if dir_mounted w (row_of c k) then claim_unmount k c else set_state k (state_of c k) c

abbrev pub dispatch_row : MountKey → Option Mount → Coordinator → Coordinator
dispatch_row k none c = c
dispatch_row k (some row) c = dispatch_mount k row c

unfoldable pub start_mount : World → MountKey → Coordinator → Coordinator
start_mount w k c =
    let wanted = record c { desired = want k c.desired } in
    let now = set_state k (record (state_of wanted k) { next_retry = 0 }) wanted in
    let ready = ensure_session w k.0 now in dispatch_row k (row_of ready k) ready

unfoldable pub stop_mount : World → MountKey → Coordinator → Coordinator
stop_mount w k c =
    let d = dispatch_unmount w k (record c { desired = unwant k c.desired }) in
    if wants_server k.0 d.desired then d else teardown w k.0 d

abbrev pub auto_rows : Text → List Mount → List MountKey → List MountKey
auto_rows tid [] ks = ks
auto_rows tid (row ∷ rows) ks =
    auto_rows tid rows
      (if not (row.name == []) && row.auto_mount then want (tid, row.name) ks else ks)

abbrev pub auto_servers : Dict Text Server → List MountKey → List MountKey
auto_servers [] ks = ks
auto_servers ((tid, t) ∷ m) ks =
    auto_servers m (if t.nfs.enabled then auto_rows tid t.nfs.mounts ks else ks)

unfoldable pub apply_autostarts : Coordinator → Coordinator
apply_autostarts c = record c { desired = auto_servers (tunnels c) c.desired }

abbrev pub map_sessions : (Text → Session → Session) → Dict Text NfsSession → Dict Text NfsSession
map_sessions f [] = []
map_sessions f ((tid, n) ∷ m) = (tid, with_session (f tid n.session) n) ∷ map_sessions f m

unfoldable pub reconnect_all : World → Coordinator → Coordinator
reconnect_all w c = record c {
  sessions = map_sessions (λ tid s. reconnect_now (env_at w c tid) s) c.sessions;
}

abbrev is_up : MountStatus → Bool
is_up mounted = true
is_up mounting = true
is_up _ = false

abbrev unmounts : Dict MountKey MountState → List Job
unmounts [] = []
unmounts ((k, s) ∷ m) =
    let rest = unmounts m in if is_up s.status then unmount_job k ∷ rest else rest

abbrev pub all_stopped : World → Coordinator → Dict Text NfsSession → List Session
all_stopped w c [] = []
all_stopped w c ((tid, n) ∷ m) = stop_session (env_at w c tid) n.session ∷ all_stopped w c m

-- At the end of the program; the wait for the jobs is behind it.
unfoldable pub unmount_all : World → Coordinator → Coordinator
unmount_all w c = record c {
  jobs = c.jobs ++ unmounts c.states;
  dropped = all_stopped w c c.sessions ++ c.dropped;
  sessions = [];
  desired = [];
}

abbrev pub is_connected : Option NfsSession → Bool
is_connected none = false
is_connected (some n) = elim (monitor n.session).status [ running ↦ true | _ ↦ false ]

-- One wanted mount at a tick.
abbrev pub reconcile_row : World → MountKey → Mount → Coordinator → Coordinator
reconcile_row w k row c =
    let s = state_of c k in
    let here = contains (resolve_dir row) w.table in
    let connected = is_connected (lookup k.0 c.sessions) in
    let quiet = record s { error_text = []; fixable = [] } in
    if s.busy
    then set_state k s c
    else (if here
        then (if connected
            then set_state k (record quiet { status = mounted }) c
            else claim_unmount k c)
        else (if connected
            then (if leb s.next_retry w.now then dispatch_mount k row c else set_state k s c)
            else set_state k (record quiet { status = unmounted }) c))

abbrev pub reconcile_found : World → MountKey → Option Mount → Coordinator → Coordinator
reconcile_found w k none c = c
reconcile_found w k (some row) c = reconcile_row w k row c

unfoldable pub reconcile_wanted : World → List MountKey → Coordinator → Coordinator
reconcile_wanted w [] c = c
reconcile_wanted w (k ∷ ks) c = reconcile_wanted w ks (reconcile_found w k (row_of c k) c)

-- A mount that is not wanted and still there is cleared away.
abbrev pub sweep_row : World → MountKey → Mount → Coordinator → Coordinator
sweep_row w k row c =
    let s = state_of c k in
    if s.busy
    then set_state k s c
    else (if contains (resolve_dir row) w.table then claim_unmount k c else set_state k s c)

abbrev pub sweep_rows : World → Text → List Mount → Coordinator → Coordinator
sweep_rows w tid [] c = c
sweep_rows w tid (row ∷ rows) c =
    let k : MountKey = (tid, row.name) in
    sweep_rows w tid rows
      (if row.name == [] || contains k c.desired then c else sweep_row w k row c)

unfoldable pub sweep : World → Dict Text Server → Coordinator → Coordinator
sweep w [] c = c
sweep w ((tid, t) ∷ m) c = sweep w m (sweep_rows w tid t.nfs.mounts c)
