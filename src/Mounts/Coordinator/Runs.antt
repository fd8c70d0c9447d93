-- ===== src/Mounts/Coordinator/Runs.antt =====
-- mount/coordinator.py: the tick, the ends of the jobs, and runs of all calls in any order, except
-- unmount_all, which comes at the end of the program.
use magic_ai_router.Prelude.{
  ℕ, zero, suc, ◌+◌, Bool, true, false, not, ◌&&◌, Option, none, some, List, [], ◌∷◌, ◌++◌, Text,
  codes, Dict, lookup, contains, text_key, get_elem?, if◌then◌else◌, ◌==◌,
}
use magic_ai_router.Json.{ℤ}
use magic_ai_router.Mpconf.Servers.{Server}
use magic_ai_router.Mpconf.Validate.Ports.{int_key}
use magic_ai_router.Tunnel.Session.{tick}
use magic_ai_router.Mounts.Coordinator.{
  MountKey, unmounted, mounted, failed, NfsSession, Job, mount_job, unmount_job, Coordinator, World,
  tunnels, state_of, set_state, wants_server, env_at, set_session, open_session, with_session,
  drop_session, teardown, start_mount, stop_mount, apply_autostarts, reconnect_all,
  reconcile_wanted, sweep,
}

-- What the steps of a mount answer: none where they succeed, or their error.
pub record Answers : Type 0 where
  pub sudoers : Option Text
  pub mountpoint : Option Text
  pub tunnel_ready : Bool
  pub nfs : Option (Text × Text)

abbrev is_empty : Text → Bool
is_empty [] = true
is_empty (_ ∷ _) = false

abbrev refusal : Option Text → Text
refusal none = []
refusal (some err) = codes "管理员授权未完成：" ++ err

abbrev or_error : Text → Option Text → Text
or_error (c ∷ error) answer = c ∷ error
or_error [] none = []
or_error [] (some err) = err

abbrev or_mount : Text → Option (Text × Text) → Text × Text
or_mount (c ∷ error) answer = (c ∷ error, [])
or_mount [] none = ([], [])
or_mount [] (some result) = result

-- The error and the repair that `_mount_job` reports; an empty error is none.
unfoldable pub mount_result : Answers → Text × Text
mount_result a =
    let error = or_error (refusal a.sudoers) a.mountpoint in
    or_mount (if is_empty error && not a.tunnel_ready then codes "等待 NFS 隧道就绪超时（连接未建立）" else error)
      a.nfs

abbrev pub retry_backoff : ℕ
retry_backoff = 30

unfoldable pub end_mount : ℕ → MountKey → Text × Text → Coordinator → Coordinator
end_mount now k ([], fixable) c =
    set_state k
      (record (state_of c k) { busy = false; status = mounted; error_text = []; fixable = [] }) c
end_mount now k (x ∷ error, fixable) c =
    set_state k
      (record (state_of c k) {
        busy = false;
        status = failed;
        error_text = x ∷ error;
        fixable = fixable;
        next_retry = now + retry_backoff;
      })
      c

unfoldable pub end_unmount : MountKey → Coordinator → Coordinator
end_unmount k c =
    set_state k
      (record (state_of c k) { busy = false; status = unmounted; error_text = []; fixable = [] }) c

abbrev pub without : ℕ → List Job → List Job
without n [] = []
without zero (j ∷ js) = js
without (suc n) (j ∷ js) = j ∷ without n js

abbrev pub end_job : ℕ → Answers → Job → Coordinator → Coordinator
end_job now a (mount_job k row) c = end_mount now k (mount_result a) c
end_job now a (unmount_job k) c = end_unmount k c

abbrev pub end_found : ℕ → ℕ → Answers → Option Job → Coordinator → Coordinator
end_found n now a none c = c
end_found n now a (some j) c = end_job now a j (record c { jobs = without n c.jobs })

-- The job at place `n` ends.
unfoldable pub job_ended : ℕ → ℕ → Answers → Coordinator → Coordinator
job_ended n now a c = end_found n now a (get_elem? c.jobs n) c

abbrev pub add_id : Text → List Text → List Text
add_id tid tids = if contains tid tids then tids else tid ∷ tids

abbrev pub wanted_ids : List MountKey → List Text → List Text
wanted_ids [] tids = tids
wanted_ids (k ∷ ks) tids = wanted_ids ks (add_id k.0 tids)

abbrev pub session_ids : Dict Text NfsSession → List Text → List Text
session_ids [] tids = tids
session_ids ((tid, n) ∷ m) tids = session_ids m (add_id tid tids)

pub data Event : Type 0 where
  started stopped_one : World → MountKey → Event
  ticked woken : World → Event
  autostarted : Event
  configured : List Server → Event
  ended : ℕ → ℕ → Answers → Event

module _ (text_of : ℤ → Text) where
  -- A session whose port has changed is replaced, and any other has its tick.
  abbrev pub tick_session : World → Text → ℤ → Option NfsSession → Coordinator → Coordinator
  tick_session w tid port none c = open_session w tid port c
  tick_session w tid port (some n) c =
      if n.local_port == port
      then set_session tid (with_session (tick text_of (env_at w c tid) n.session) n) c
      else open_session w tid port (drop_session w tid n c)

  abbrev pub reconcile_server : World → Text → Option Server → Coordinator → Coordinator
  reconcile_server w tid none c = teardown w tid c
  reconcile_server w tid (some t) c =
      if t.nfs.enabled && wants_server tid c.desired
      then tick_session w tid t.nfs.local_port (lookup tid c.sessions) c
      else teardown w tid c

  unfoldable pub reconcile_sessions : World → List Text → Coordinator → Coordinator
  reconcile_sessions w [] c = c
  reconcile_sessions w (tid ∷ tids) c =
      reconcile_sessions w tids (reconcile_server w tid (lookup tid (tunnels c)) c)

  unfoldable pub tick_all : World → Coordinator → Coordinator
  tick_all w c =
      let d = reconcile_sessions w (session_ids c.sessions (wanted_ids c.desired [])) c in
      sweep w (tunnels d) (reconcile_wanted w d.desired d)

  unfoldable pub step : Event → Coordinator → Coordinator
  step (started w k) c = start_mount w k c
  step (stopped_one w k) c = stop_mount w k c
  step (ticked w) c = tick_all w c
  step (woken w) c = reconnect_all w c
  step autostarted c = apply_autostarts c
  step (configured servers) c = record c { servers = servers }
  step (ended n now a) c = job_ended n now a c

  unfoldable pub run : List Event → Coordinator → Coordinator
  run [] c = c
  run (e ∷ es) c = run es (step e c)
