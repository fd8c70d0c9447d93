-- ===== src/Mounts/Coordinator/Claims.antt =====
-- mount/coordinator.py: that every method and every end of a job keeps to one job for a mount.
use magic_ai_router.Prelude.{
  ℕ, ◌+◌, ◌≡◌, refl, inl, inr, Bool, true, false, ◌&&◌, ◌||◌, Option, none, some, List, [], ◌∷◌,
  Text, Dict, lookup, contains, get_elem?, leb, text_key, ◌==◌, Option-cases, if◌then◌else◌,
}
use magic_ai_router.Json.{ℤ}
use magic_ai_router.Mpconf.Servers.{Mount, Server}
use magic_ai_router.Mpconf.Validate.Ports.{int_key}
use magic_ai_router.Tunnel.Session.{connect_session, tick, is_down, monitor}
use magic_ai_router.Mounts.Coordinator.{
  MountKey, mount_key, unmounted, mounting, mounted, unmounting, failed, NfsSession, Job, mount_job,
  unmount_job, Coordinator, World, tunnels, row_of, state_of, set_state, want, unwant, wants_server,
  env_at, set_session, open_session, with_session, ensure_known, ensure_session, drop_session,
  teardown_known, teardown, claim, dispatch_mount, claim_unmount, dir_mounted, dispatch_unmount,
  dispatch_row, start_mount, stop_mount, apply_autostarts, reconnect_all, is_connected,
  reconcile_row, reconcile_found, reconcile_wanted, sweep_row, sweep_rows, sweep, resolve_dir,
}
use magic_ai_router.Mounts.Coordinator.Runs.{
  Answers, end_mount, end_unmount, without, end_job, job_ended, mount_result, tick_session,
  reconcile_server, reconcile_sessions, tick_all, Event, started, stopped_one, ticked, woken,
  autostarted, configured, ended, step, run, retry_backoff, wanted_ids, session_ids,
}
use magic_ai_router.Mounts.Coordinator.Jobs.{
  Matches, set_state-Matches, claim-Matches, ended-Matches,
}

abbrev pub IsClaimed : Coordinator → Type 0
IsClaimed c = Matches c.states c.jobs

if-IsClaimed :
    (b : Bool) (c d : Coordinator)
    → (b ≡ true → IsClaimed c)
    → (b ≡ false → IsClaimed d)
    → IsClaimed (if b then c else d)
if-IsClaimed true c d h k = h refl
if-IsClaimed false c d h k = k refl

kept-IsClaimed :
    (k : MountKey) (c : Coordinator) → IsClaimed c → IsClaimed (set_state k (state_of c k) c)
kept-IsClaimed k c h = set_state-Matches k (state_of c k) c refl h

claim_unmount-IsClaimed :
    (k : MountKey) (c : Coordinator) → IsClaimed c → IsClaimed (claim_unmount k c)
claim_unmount-IsClaimed k c h =
    let s = state_of c k in
    if-IsClaimed s.busy (set_state k s c)
      (claim k (record s { status = unmounting }) (unmount_job k) c) (λ taken. kept-IsClaimed k c h)
      (λ idle. claim-Matches k (record s { status = unmounting }) (unmount_job k) c refl idle h)

dispatch_mount-IsClaimed :
    (k : MountKey) (row : Mount) (c : Coordinator)
    → IsClaimed c
    → IsClaimed (dispatch_mount k row c)
unfolding dispatch_mount
dispatch_mount-IsClaimed k row c h =
    let s = state_of c k in
    let t = record s { status = mounting; error_text = [] } in
    if-IsClaimed s.busy (set_state k s c) (claim k t (mount_job k row) c)
      (λ taken. kept-IsClaimed k c h) (λ idle. claim-Matches k t (mount_job k row) c refl idle h)

dispatch_unmount-IsClaimed :
    (w : World) (k : MountKey) (c : Coordinator) → IsClaimed c → IsClaimed (dispatch_unmount w k c)
unfolding dispatch_unmount
dispatch_unmount-IsClaimed w k c h =
    if-IsClaimed (dir_mounted w (row_of c k)) (claim_unmount k c) (set_state k (state_of c k) c)
      (λ _. claim_unmount-IsClaimed k c h) (λ _. kept-IsClaimed k c h)

dispatch_row-IsClaimed :
    (k : MountKey) (o : Option Mount) (c : Coordinator)
    → IsClaimed c
    → IsClaimed (dispatch_row k o c)
dispatch_row-IsClaimed k none c h = h
dispatch_row-IsClaimed k (some row) c h = dispatch_mount-IsClaimed k row c h

ensure_known-IsClaimed :
    (w : World) (tid : Text) (port : ℤ) (o : Option NfsSession) (c : Coordinator)
    → IsClaimed c
    → IsClaimed (ensure_known w tid port o c)
ensure_known-IsClaimed w tid port none c h = h
ensure_known-IsClaimed w tid port (some n) c h =
    if-IsClaimed (is_down (monitor n.session).status)
      (set_session tid (with_session (connect_session (env_at w c tid) n.session) n) c) c (λ _. h)
      (λ _. h)

ensure_session-IsClaimed :
    (w : World) (tid : Text) (c : Coordinator) → IsClaimed c → IsClaimed (ensure_session w tid c)
unfolding ensure_session
ensure_session-IsClaimed w tid c h = elim (Option-cases (lookup tid (tunnels c))) [
  | inl e ↦ rw (e, ensure_session) h
  | inr (t, e) ↦
      rw (e, ensure_session)
        (if-IsClaimed t.nfs.enabled (ensure_known w tid t.nfs.local_port (lookup tid c.sessions) c)
          c (λ _. ensure_known-IsClaimed w tid t.nfs.local_port (lookup tid c.sessions) c h)
          (λ _. h))
]

teardown-IsClaimed :
    (w : World) (tid : Text) (c : Coordinator) → IsClaimed c → IsClaimed (teardown w tid c)
unfolding teardown
teardown-IsClaimed w tid c h = go (lookup tid c.sessions)
  where
    go : (o : Option NfsSession) → IsClaimed (teardown_known w tid o c)
    go none = h
    go (some n) = h

start_mount-IsClaimed :
    (w : World) (k : MountKey) (c : Coordinator) → IsClaimed c → IsClaimed (start_mount w k c)
unfolding start_mount
start_mount-IsClaimed w k c h =
    let wanted = record c { desired = want k c.desired } in
    let now = set_state k (record (state_of wanted k) { next_retry = 0 }) wanted in
    let ready = ensure_session w k.0 now in
    dispatch_row-IsClaimed k (row_of ready k) ready (
      ensure_session-IsClaimed w k.0 now
        (set_state-Matches k (record (state_of wanted k) { next_retry = 0 }) wanted refl h))

stop_mount-IsClaimed :
    (w : World) (k : MountKey) (c : Coordinator) → IsClaimed c → IsClaimed (stop_mount w k c)
unfolding stop_mount
stop_mount-IsClaimed w k c h =
    let calm = record c { desired = unwant k c.desired } in
    let d = dispatch_unmount w k calm in
    let kept = dispatch_unmount-IsClaimed w k calm h in
    if-IsClaimed (wants_server k.0 d.desired) d (teardown w k.0 d) (λ _. kept)
      (λ _. teardown-IsClaimed w k.0 d kept)

reconcile_row-IsClaimed :
    (w : World) (k : MountKey) (row : Mount) (c : Coordinator)
    → IsClaimed c
    → IsClaimed (reconcile_row w k row c)
reconcile_row-IsClaimed w k row c h =
    let s = state_of c k in
    let here = contains (resolve_dir row) w.table in
    let connected = is_connected (lookup k.0 c.sessions) in
    let quiet = record s { error_text = []; fixable = [] } in
    let up = set_state k (record quiet { status = mounted }) c in
    let down = set_state k (record quiet { status = unmounted }) c in
    let due = leb s.next_retry w.now in
    let again = if due then dispatch_mount k row c else set_state k s c in
    let broken = if connected then up else claim_unmount k c in
    let missing = if connected then again else down in
    if-IsClaimed s.busy (set_state k s c) (if here then broken else missing)
      (λ _. kept-IsClaimed k c h)
      (λ _.
        if-IsClaimed here broken missing
          (λ _.
            if-IsClaimed connected up (claim_unmount k c)
              (λ _. set_state-Matches k (record quiet { status = mounted }) c refl h)
              (λ _. claim_unmount-IsClaimed k c h))
          (λ _.
            if-IsClaimed connected again down
              (λ _.
                if-IsClaimed due (dispatch_mount k row c) (set_state k s c)
                  (λ _. dispatch_mount-IsClaimed k row c h) (λ _. kept-IsClaimed k c h))
              (λ _. set_state-Matches k (record quiet { status = unmounted }) c refl h)))

reconcile_wanted-IsClaimed :
    (w : World) (ks : List MountKey) (c : Coordinator)
    → IsClaimed c
    → IsClaimed (reconcile_wanted w ks c)
unfolding reconcile_wanted
reconcile_wanted-IsClaimed w [] c h = h
reconcile_wanted-IsClaimed w (k ∷ ks) c h =
    reconcile_wanted-IsClaimed w ks (reconcile_found w k (row_of c k) c) (go (row_of c k))
  where
    go : (o : Option Mount) → IsClaimed (reconcile_found w k o c)
    go none = h
    go (some row) = reconcile_row-IsClaimed w k row c h

sweep_row-IsClaimed :
    (w : World) (k : MountKey) (row : Mount) (c : Coordinator)
    → IsClaimed c
    → IsClaimed (sweep_row w k row c)
sweep_row-IsClaimed w k row c h =
    let s = state_of c k in
    let there = contains (resolve_dir row) w.table in
    if-IsClaimed s.busy (set_state k s c) (if there then claim_unmount k c else set_state k s c)
      (λ _. kept-IsClaimed k c h)
      (λ _.
        if-IsClaimed there (claim_unmount k c) (set_state k s c)
          (λ _. claim_unmount-IsClaimed k c h) (λ _. kept-IsClaimed k c h))

sweep_rows-IsClaimed :
    (w : World) (tid : Text) (rows : List Mount) (c : Coordinator)
    → IsClaimed c
    → IsClaimed (sweep_rows w tid rows c)
sweep_rows-IsClaimed w tid [] c h = h
sweep_rows-IsClaimed w tid (row ∷ rows) c h =
    let k : MountKey = (tid, row.name) in
    let b = row.name == [] || contains k c.desired in
    sweep_rows-IsClaimed w tid rows (if b then c else sweep_row w k row c)
      (if-IsClaimed b c (sweep_row w k row c) (λ _. h) (λ _. sweep_row-IsClaimed w k row c h))

sweep-IsClaimed :
    (w : World) (m : Dict Text Server) (c : Coordinator) → IsClaimed c → IsClaimed (sweep w m c)
unfolding sweep
sweep-IsClaimed w [] c h = h
sweep-IsClaimed w ((tid, t) ∷ m) c h =
    sweep-IsClaimed w m (sweep_rows w tid t.nfs.mounts c)
      (sweep_rows-IsClaimed w tid t.nfs.mounts c h)

end_job-IsClaimed :
    (now n : ℕ) (a : Answers) (job : Job) (c : Coordinator)
    → get_elem? c.jobs n ≡ some job
    → IsClaimed c
    → IsClaimed (end_job now a job (record c { jobs = without n c.jobs }))
unfolding end_unmount end_mount
end_job-IsClaimed now n a (unmount_job k) c found h =
    ended-Matches n (unmount_job k)
      (record (state_of c k) { busy = false; status = unmounted; error_text = []; fixable = [] }) c
      found refl h
end_job-IsClaimed now n a (mount_job k row) c found h = go (mount_result a)
  where
    go : (r : Text × Text) → IsClaimed (end_mount now k r (record c { jobs = without n c.jobs }))
    go ([], fixable) =
        ended-Matches n (mount_job k row)
          (record (state_of c k) { busy = false; status = mounted; error_text = []; fixable = [] })
          c found refl h
    go (x ∷ error, fixable) =
        ended-Matches n (mount_job k row)
          (record (state_of c k) {
            busy = false;
            status = failed;
            error_text = x ∷ error;
            fixable = fixable;
            next_retry = now + retry_backoff;
          })
          c found refl h

job_ended-IsClaimed :
    (n now : ℕ) (a : Answers) (c : Coordinator) → IsClaimed c → IsClaimed (job_ended n now a c)
unfolding job_ended
job_ended-IsClaimed n now a c h = elim (Option-cases (get_elem? c.jobs n)) [
  | inl e ↦ rw (e, job_ended) h
  | inr (j, e) ↦ rw (e, job_ended) (end_job-IsClaimed now n a j c e h)
]

module _ (text_of : ℤ → Text) where
  tick_session-IsClaimed :
      (w : World) (tid : Text) (port : ℤ) (o : Option NfsSession) (c : Coordinator)
      → IsClaimed c
      → IsClaimed (tick_session text_of w tid port o c)
  tick_session-IsClaimed w tid port none c h = h
  tick_session-IsClaimed w tid port (some n) c h =
      if-IsClaimed (n.local_port == port)
        (set_session tid (with_session (tick text_of (env_at w c tid) n.session) n) c)
        (open_session w tid port (drop_session w tid n c)) (λ _. h) (λ _. h)

  reconcile_server-IsClaimed :
      (w : World) (tid : Text) (o : Option Server) (c : Coordinator)
      → IsClaimed c
      → IsClaimed (reconcile_server text_of w tid o c)
  reconcile_server-IsClaimed w tid none c h = teardown-IsClaimed w tid c h
  reconcile_server-IsClaimed w tid (some t) c h =
      let old = lookup tid c.sessions in
      if-IsClaimed (t.nfs.enabled && wants_server tid c.desired)
        (tick_session text_of w tid t.nfs.local_port old c) (teardown w tid c)
        (λ _. tick_session-IsClaimed w tid t.nfs.local_port old c h)
        (λ _. teardown-IsClaimed w tid c h)

  reconcile_sessions-IsClaimed :
      (w : World) (tids : List Text) (c : Coordinator)
      → IsClaimed c
      → IsClaimed (reconcile_sessions text_of w tids c)
  unfolding reconcile_sessions
  reconcile_sessions-IsClaimed w [] c h = h
  reconcile_sessions-IsClaimed w (tid ∷ tids) c h =
      let o = lookup tid (tunnels c) in
      reconcile_sessions-IsClaimed w tids (reconcile_server text_of w tid o c)
        (reconcile_server-IsClaimed w tid o c h)

  pub step-IsClaimed : (e : Event) (c : Coordinator) → IsClaimed c → IsClaimed (step text_of e c)
  unfolding step tick_all reconnect_all apply_autostarts
  step-IsClaimed (started w k) c h = start_mount-IsClaimed w k c h
  step-IsClaimed (stopped_one w k) c h = stop_mount-IsClaimed w k c h
  step-IsClaimed (ticked w) c h =
      let d = reconcile_sessions text_of w (session_ids c.sessions (wanted_ids c.desired [])) c in
      sweep-IsClaimed w (tunnels d) (reconcile_wanted w d.desired d) (
        reconcile_wanted-IsClaimed w d.desired d
          (reconcile_sessions-IsClaimed w (session_ids c.sessions (wanted_ids c.desired [])) c h))
  step-IsClaimed (woken w) c h = h
  step-IsClaimed autostarted c h = h
  step-IsClaimed (configured servers) c h = h
  step-IsClaimed (ended n now a) c h = job_ended-IsClaimed n now a c h

  -- From a coordinator where this is so, as the one without mounts and jobs is, any sequence of
  -- wishes, ticks, wake-ups, changes of the configuration and ends of jobs keeps this: the jobs on
  -- a mount that have not ended are one where its state is busy, and none where it is not.
  pub run-IsClaimed :
      (es : List Event) (c : Coordinator) → IsClaimed c → IsClaimed (run text_of es c)
  unfolding run
  run-IsClaimed [] c h = h
  run-IsClaimed (e ∷ es) c h = run-IsClaimed es (step text_of e c) (step-IsClaimed e c h)
