-- ===== src/Mounts/Coordinator/Sessions.antt =====
-- mount/coordinator.py: which servers have a session after a tick.
use magic_ai_router.Prelude.{
  ◌≡◌, refl, sym, ap, ◌∙◌, inl, inr, Bool, true, false, ◌&&◌, ◌||◌, Option, none, some, List, [],
  ◌∷◌, Text, Dict, lookup, insert, remove, lookup-insert, lookup-remove, contains, is_some,
  text_key, ◌==◌, Bool-cases, Option-cases, arith, if◌then◌else◌,
}
use magic_ai_router.Json.{ℤ}
use magic_ai_router.Mpconf.Servers.{Mount, Server}
use magic_ai_router.Mpconf.Validate.Ports.{int_key}
use magic_ai_router.Mounts.Coordinator.{
  MountKey, mount_key, NfsSession, Coordinator, World, tunnels, by_id, row_of, wants_server,
  teardown, dispatch_mount, reconcile_row, reconcile_found, reconcile_wanted, sweep_row, sweep_rows,
  sweep,
}
use magic_ai_router.Mounts.Coordinator.Runs.{
  tick_session, reconcile_server, reconcile_sessions, tick_all, wanted_ids, session_ids, add_id,
}

-- A server has to have a session if it is configured with NFS and some mount of it is wanted.
abbrev wanted_of : Option Server → Text → List MountKey → Bool
wanted_of none tid ks = false
wanted_of (some t) tid ks = t.nfs.enabled && wants_server tid ks

abbrev pub session_wanted : Coordinator → Text → Bool
session_wanted c tid = wanted_of (lookup tid (tunnels c)) tid c.desired

is_some-insert :
    (j tid : Text) (n : NfsSession) (m : Dict Text NfsSession)
    → is_some (lookup tid (insert j n m)) ≡ (if j == tid then true else is_some (lookup tid m))
is_some-insert j tid n m = rw (lookup-insert j tid n m) (go (j == tid))
  where
    go :
        (b : Bool)
        → is_some (if b then some n else lookup tid m)
          ≡ (if b then true else is_some (lookup tid m))
    go true = refl
    go false = refl

is_some-remove :
    (j tid : Text) (m : Dict Text NfsSession)
    → is_some (lookup tid (remove j m)) ≡ (if j == tid then false else is_some (lookup tid m))
is_some-remove j tid m = rw (lookup-remove j tid m) (go (j == tid))
  where
    go :
        (b : Bool)
        → is_some (if b then none else lookup tid m) ≡ (if b then false else is_some (lookup tid m))
    go true = refl
    go false = refl

teardown-lookup :
    (w : World) (j tid : Text) (c : Coordinator)
    → is_some (lookup tid (teardown w j c).sessions)
      ≡ (if j == tid then false else is_some (lookup tid c.sessions))
unfolding teardown
teardown-lookup w j tid c = elim (Option-cases (lookup j c.sessions)) [
  | inl e ↦
      rw (e, teardown)
        (elim (Bool-cases (j == tid)) [
          | inl same ↦ rw same (
              ap (λ x. is_some (lookup x c.sessions)) (sym ((text_key.same_key_iff j tid).0 same))
              ∙ ap is_some e)
          | inr other ↦ rw other refl
        ])
  | inr (n, e) ↦ rw (e, teardown) (is_some-remove j tid c.sessions)
]

same-wanted :
    (j tid : Text) (c : Coordinator) (b : Bool)
    → session_wanted c j ≡ b
    → (if j == tid then b else is_some (lookup tid c.sessions))
      ≡ (if j == tid then session_wanted c tid else is_some (lookup tid c.sessions))
same-wanted j tid c b e = elim (Bool-cases (j == tid)) [
  | inl same ↦ rw same (sym e ∙ ap (session_wanted c) ((text_key.same_key_iff j tid).0 same))
  | inr other ↦ rw other refl
]

combine :
    (a b now then_now there now_there : Bool) {l : Bool}
    → now ≡ then_now
    → l ≡ (if b then now else there)
    → there ≡ (if a then then_now else now_there)
    → l ≡ (if a || b then then_now else now_there)
combine true true now then_now there now_there e k h = k ∙ e
combine true false now then_now there now_there e k h = k ∙ h
combine false true now then_now there now_there e k h = k ∙ e
combine false false now then_now there now_there e k h = k ∙ h

contains-add_id :
    (tid j : Text) (ids : List Text) → contains tid (add_id j ids) ≡ (j == tid || contains tid ids)
contains-add_id tid j ids = elim (Bool-cases (contains j ids)) [
  | inl there ↦ rw there (elim (Bool-cases (j == tid)) [
    | inl same ↦
        rw same (sym (ap (λ x. contains x ids) ((text_key.same_key_iff j tid).0 same)) ∙ there)
    | inr other ↦ rw other refl
  ])
  | inr gone ↦ rw gone refl
]

contains-wanted_ids :
    (tid : Text) (ks : List MountKey) (ids : List Text)
    → contains tid (wanted_ids ks ids) ≡ (wants_server tid ks || contains tid ids)
contains-wanted_ids tid [] ids = refl
contains-wanted_ids tid (k ∷ ks) ids =
    ground (arith, contains-wanted_ids tid ks (add_id k.0 ids), contains-add_id tid k.0 ids)

contains-session_ids :
    (tid : Text) (m : Dict Text NfsSession) (ids : List Text)
    → contains tid (session_ids m ids) ≡ (is_some (lookup tid m) || contains tid ids)
contains-session_ids tid [] ids = refl
contains-session_ids tid ((j, n) ∷ m) ids =
    ground (arith, contains-session_ids tid m (add_id j ids), contains-add_id tid j ids)

-- No mount is wanted of a server that is neither among the wanted nor among the sessions.
settled :
    (tid : Text) (ks : List MountKey) (o : Option Server) (there : Bool)
    → (if there || (wants_server tid ks || false) then wanted_of o tid ks else there)
      ≡ wanted_of o tid ks
settled tid ks o true = refl
settled tid ks none false = ground arith
settled tid ks (some t) false = ground arith

reconcile_row-sessions :
    (w : World) (k : MountKey) (row : Mount) (c : Coordinator)
    → (reconcile_row w k row c).sessions ≡ c.sessions
unfolding dispatch_mount
reconcile_row-sessions w k row c = ground arith

reconcile_wanted-sessions :
    (w : World) (ks : List MountKey) (c : Coordinator)
    → (reconcile_wanted w ks c).sessions ≡ c.sessions
unfolding reconcile_wanted
reconcile_wanted-sessions w [] c = refl
reconcile_wanted-sessions w (k ∷ ks) c =
    reconcile_wanted-sessions w ks (reconcile_found w k (row_of c k) c) ∙ go (row_of c k)
  where
    go : (o : Option Mount) → (reconcile_found w k o c).sessions ≡ c.sessions
    go none = refl
    go (some row) = reconcile_row-sessions w k row c

sweep_rows-sessions :
    (w : World) (tid : Text) (rows : List Mount) (c : Coordinator)
    → (sweep_rows w tid rows c).sessions ≡ c.sessions
sweep_rows-sessions w tid [] c = refl
sweep_rows-sessions w tid (row ∷ rows) c =
    let k : MountKey = (tid, row.name) in
    let d = if row.name == [] || contains k c.desired then c else sweep_row w k row c in
    let kept : d.sessions ≡ c.sessions = ground arith in sweep_rows-sessions w tid rows d ∙ kept

sweep-sessions :
    (w : World) (m : Dict Text Server) (c : Coordinator) → (sweep w m c).sessions ≡ c.sessions
unfolding sweep
sweep-sessions w [] c = refl
sweep-sessions w ((tid, t) ∷ m) c =
    sweep-sessions w m (sweep_rows w tid t.nfs.mounts c) ∙ sweep_rows-sessions w tid t.nfs.mounts c

module _ (text_of : ℤ → Text) (w : World) where
  tick_session-lookup :
      (j tid : Text) (port : ℤ) (o : Option NfsSession) (c : Coordinator)
      → is_some (lookup tid (tick_session text_of w j port o c).sessions)
        ≡ (if j == tid then true else is_some (lookup tid c.sessions))
  tick_session-lookup j tid port none c = is_some-insert j tid _ c.sessions
  tick_session-lookup j tid port (some n) c = elim (Bool-cases (n.local_port == port)) [
    | inl same ↦ rw same (is_some-insert j tid _ c.sessions)
    | inr other ↦ rw other (is_some-insert j tid _ c.sessions)
  ]

  reconcile_server-lookup :
      (j tid : Text) (c : Coordinator)
      → is_some (lookup tid (reconcile_server text_of w j (lookup j (tunnels c)) c).sessions)
        ≡ (if j == tid then session_wanted c tid else is_some (lookup tid c.sessions))
  reconcile_server-lookup j tid c = elim (Option-cases (lookup j (tunnels c))) [
    | inl e ↦ rw e (
        teardown-lookup w j tid c ∙ same-wanted j tid c false (ap (λ o. wanted_of o j c.desired) e))
    | inr (t, e) ↦ rw e (elim (Bool-cases (t.nfs.enabled && wants_server j c.desired)) [
      | inl y ↦ rw y (
          tick_session-lookup j tid t.nfs.local_port (lookup j c.sessions) c
          ∙ same-wanted j tid c true (ap (λ o. wanted_of o j c.desired) e ∙ y))
      | inr n ↦ rw n (
          teardown-lookup w j tid c
          ∙ same-wanted j tid c false (ap (λ o. wanted_of o j c.desired) e ∙ n))
    ])
  ]

  reconcile_server-frame :
      (j : Text) (o : Option Server) (c : Coordinator)
      → ((reconcile_server text_of w j o c).servers ≡ c.servers)
        × ((reconcile_server text_of w j o c).desired ≡ c.desired)
  unfolding teardown
  reconcile_server-frame j o c = ground arith

  pub reconcile_sessions-frame :
      (ids : List Text) (c : Coordinator)
      → ((reconcile_sessions text_of w ids c).servers ≡ c.servers)
        × ((reconcile_sessions text_of w ids c).desired ≡ c.desired)
  unfolding reconcile_sessions
  reconcile_sessions-frame [] c = (refl, refl)
  reconcile_sessions-frame (j ∷ ids) c =
      let o = lookup j (tunnels c) in
      let (now_servers, now_desired) = reconcile_server-frame j o c in
      let (servers, desired) = reconcile_sessions-frame ids (reconcile_server text_of w j o c) in
      (servers ∙ now_servers, desired ∙ now_desired)

  reconcile_sessions-lookup :
      (ids : List Text) (tid : Text) (c : Coordinator)
      → is_some (lookup tid (reconcile_sessions text_of w ids c).sessions)
        ≡ (if contains tid ids then session_wanted c tid else is_some (lookup tid c.sessions))
  unfolding reconcile_sessions
  reconcile_sessions-lookup [] tid c = refl
  reconcile_sessions-lookup (j ∷ ids) tid c =
      let o = lookup j (tunnels c) in
      let d = reconcile_server text_of w j o c in
      let (same_servers, same_desired) = reconcile_server-frame j o c in
      let same_wanted : session_wanted d tid ≡ session_wanted c tid =
        ap (λ ss. wanted_of (lookup tid (by_id ss [])) tid d.desired) same_servers
        ∙ ap (wanted_of (lookup tid (tunnels c)) tid) same_desired in
      combine (j == tid) (contains tid ids) (session_wanted d tid) (session_wanted c tid)
        (is_some (lookup tid d.sessions)) (is_some (lookup tid c.sessions)) same_wanted
        (reconcile_sessions-lookup ids tid d) (reconcile_server-lookup j tid c)

  -- After a tick, whatever was there before, a server has a session exactly if it is configured
  -- with NFS switched on and a mount of it is wanted.
  pub tick_all-sessions :
      (c : Coordinator) (tid : Text)
      → is_some (lookup tid (tick_all text_of w c).sessions) ≡ session_wanted c tid
  unfolding tick_all
  tick_all-sessions c tid =
      let ids = session_ids c.sessions (wanted_ids c.desired []) in
      let d = reconcile_sessions text_of w ids c in
      let swept : (tick_all text_of w c).sessions ≡ d.sessions =
        sweep-sessions w (tunnels d) (reconcile_wanted w d.desired d)
        ∙ reconcile_wanted-sessions w d.desired d in
      let listed : contains tid ids
          ≡ (is_some (lookup tid c.sessions) || (wants_server tid c.desired || false)) =
        contains-session_ids tid c.sessions (wanted_ids c.desired [])
        ∙ ap (λ b. is_some (lookup tid c.sessions) || b) (contains-wanted_ids tid c.desired []) in
      ap (λ m. is_some (lookup tid m)) swept
      ∙ reconcile_sessions-lookup ids tid c
      ∙ ap (λ b. if b then session_wanted c tid else is_some (lookup tid c.sessions)) listed
      ∙ settled tid c.desired (lookup tid (tunnels c)) (is_some (lookup tid c.sessions))
