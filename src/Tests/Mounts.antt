-- ===== src/Tests/Mounts.antt =====
-- Runs of mount/coordinator.py.
use mathlib.Core.List.{Memᴰ}
use magic_ai_router.Prelude.{
  ◌≡◌, refl, true, false, Option, none, some, List, [], ◌∷◌, ◌++◌, Text, codes, lookup, is_some,
  text_key, starts_with, strip,
}
use magic_ai_router.Json.{ℤ, pos}
use magic_ai_router.Mpconf.Servers.{Mount, Server, key}
use magic_ai_router.Shared.SubprocessMonitor.{
  opened, start_process, stop, check, exit_message, set_status, set_error,
}
use magic_ai_router.Tunnel.Retry
use magic_ai_router.Tunnel.HostKeyFlow
use magic_ai_router.Tunnel.HostKeyFlow.{known, check_done}
use magic_ai_router.Tunnel.Session
use magic_ai_router.Tunnel.Session.{
  Session, Env, stop_monitor, start_monitor, start_now, connect_session, deliver, trust_step,
  stop_session, reconnect_now, check_and_recover, tick, asked_connect, trusted, ticked,
}
use magic_ai_router.Mounts.Coordinator.{
  MountKey, mount_key, mounting, mounted, mount_job, unmount_job, Coordinator, World, state_of,
  resolve_dir, by_id, ensure_session, teardown, dispatch_mount, dispatch_unmount, start_mount,
  stop_mount, apply_autostarts, reconnect_all, unmount_all, reconcile_wanted, sweep, env_at,
  NfsSession,
}
use magic_ai_router.Tunnel.Coordinator.{new_session}
use magic_ai_router.Mounts.Coordinator.Runs
use magic_ai_router.Mounts.Coordinator.Runs.{
  Answers, mount_result, end_mount, end_unmount, job_ended, reconcile_sessions, tick_all, step, run,
  started, stopped_one, ended, autostarted,
}
use magic_ai_router.Mounts.Coordinator.Jobs.{jobs_on}
use magic_ai_router.Mounts.Coordinator.Claims.{IsClaimed, run-IsClaimed}
use magic_ai_router.Mounts.Coordinator.Sessions.{session_wanted, tick_all-sessions}
use magic_ai_router.Mounts.Coordinator.Sweep.{tick_all-unmounts}
use magic_ai_router.Mounts.Coordinator.Order.{stop_mount-order}

mounts : Unit {0}
unfolding starts_with strip start_process stop check exit_message set_status set_error Retry.backoff
    Retry.handle_error Retry.mark_due Retry.consume_due Retry.cancel Retry.reset Retry.step
    HostKeyFlow.start_check HostKeyFlow.finish_check HostKeyFlow.begin_replacement
    HostKeyFlow.cancel HostKeyFlow.step stop_monitor start_monitor start_now connect_session deliver
    trust_step stop_session reconnect_now check_and_recover tick Session.step Session.run
    resolve_dir by_id ensure_session teardown dispatch_mount dispatch_unmount start_mount stop_mount
    apply_autostarts reconnect_all unmount_all reconcile_wanted sweep mount_result end_mount
    end_unmount job_ended reconcile_sessions tick_all Runs.step Runs.run
mounts = tt

abbrev text_of : ℤ → Text
text_of z = codes "1"

abbrev env : Env
env = record {
  tunnel = true;
  spawn = true;
  cmd = codes "ssh";
  now = 5;
  popen = opened 40;
  poll = none;
  ready = true;
  exits = true;
}

abbrev row : Mount
row = record { name = codes "data"; remote_path = codes "/srv"; local_dir = []; auto_mount = true }

abbrev server : Server
server = record {
  id = codes "a";
  name = codes "a";
  ssh = record {
    user = codes "u";
    host = codes "h";
    port = pos 22;
    auth_type = key;
    ssh_key = [];
    compression = true;
  };
  forwards = [];
  autostart = false;
  nfs = record {
    enabled = true;
    local_port = pos 12049;
    squash_to_ssh_user = false;
    mounts = row ∷ [];
  };
}

abbrev world : List Text → World
world table = record { at = λ tid. env; table = table; now = 50 }

abbrev there : World
there = world (codes "/Volumes/data" ∷ [])

abbrev one : MountKey
one = (codes "a", codes "data")

abbrev idle : Coordinator
idle = record {
  servers = server ∷ [];
  sessions = [];
  desired = [];
  states = [];
  jobs = [];
  dropped = [];
}

abbrev answers : Answers
answers = record { sudoers = none; mountpoint = none; tunnel_ready = true; nfs = none }

abbrev refused : Answers
refused = record answers { sudoers = some (codes "no") }

abbrev wishes : List Runs.Event
wishes = started (world []) one ∷ started (world []) one ∷ Runs.ticked (world []) ∷ []

abbrev begun : Coordinator
begun = run text_of wishes idle

abbrev done : Coordinator
done = run text_of (ended 0 60 answers ∷ []) begun

mount_tests :
    (resolve_dir row ≡ codes "/Volumes/data")
    × (resolve_dir (record row { name = codes " a/b " }) ≡ codes "/Volumes/a-b")
    × (resolve_dir (record row { name = [] }) ≡ codes "/Volumes/nfs")
    × (resolve_dir (record row { local_dir = codes " /x" }) ≡ codes "/x")
    × (begun.jobs ≡ mount_job one row ∷ [])
    × ((state_of begun one).status ≡ mounting)
    × ((state_of done one).status ≡ mounted)
    × (done.jobs ≡ [])
    × ((state_of (run text_of (ended 0 60 refused ∷ []) begun) one).next_retry ≡ 90)
    × ((run text_of (stopped_one there one ∷ []) done).jobs ≡ unmount_job one ∷ [])
    × ((unmount_all there done).jobs ≡ unmount_job one ∷ [])
    × ((apply_autostarts idle).desired ≡ one ∷ [])
unfolding mounts
mount_tests = (refl, refl, refl, refl, refl, refl, refl, refl, refl, refl, refl, refl)

idle-IsClaimed : IsClaimed idle
idle-IsClaimed k = refl

run-IsClaimed_example : IsClaimed begun
run-IsClaimed_example = run-IsClaimed text_of wishes idle idle-IsClaimed

tick_all-sessions_example :
    is_some (lookup (codes "a") (tick_all text_of there (apply_autostarts idle)).sessions)
    ≡ session_wanted (apply_autostarts idle) (codes "a")
tick_all-sessions_example = tick_all-sessions text_of there (apply_autostarts idle) (codes "a")

tick_all-unmounts_example : jobs_on one (tick_all text_of there idle).jobs ≡ 1
unfolding mounts
tick_all-unmounts_example =
    tick_all-unmounts text_of there idle (codes "a") server row idle-IsClaimed refl (Memᴰ.head refl)
      (refl, refl, refl)

abbrev tunnel_of : Option NfsSession → NfsSession
tunnel_of (some n) = n
tunnel_of none = record { local_port = pos 12049; session = new_session }

abbrev of_done : NfsSession
of_done = tunnel_of (lookup (codes "a") done.sessions)

stop_mount-order_example :
    (lookup (codes "a") (stop_mount there one done).sessions ≡ none)
    × ((stop_mount there one done).dropped
        ≡ stop_session (env_at there done (codes "a")) of_done.session ∷ done.dropped)
    × ((stop_mount there one done).jobs ≡ done.jobs ++ unmount_job one ∷ [])
unfolding mounts
stop_mount-order_example = stop_mount-order there one done of_done refl refl refl refl
