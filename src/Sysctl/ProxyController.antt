-- ===== src/Sysctl/ProxyController.antt =====
-- sysctl/sys_proxy_controller.py: the host's proxy settings follow the wish, the connection and the
-- pause. What the calls of system_proxy.py answer in a tick is an input, in the forms in which that
-- module returns it; a snapshot is `none` where it is empty, and the settings that a transaction
-- aims at are a type of the host's.
pub mod Ownership
pub mod Convergence
use magic_ai_router.Prelude.{
  ℕ, Bool, true, false, not, ◌&&◌, ◌||◌, Option, none, some, Text, [], ◌++◌, codes, nat_beq,
  is_some, if◌then◌else◌,
}

-- `apply_transaction`: all services are set; or the journal could not be written, and nothing was
-- changed, also not to what was before; or a command failed and the snapshot is back; or it could
-- not be put back either.
pub data Applied (D : Type 0) : Type 0 where
  applied : D → Applied D
  not_begun : Text → Applied D
  rolled_back : Text → Applied D
  left_behind : Text → D → Applied D

-- `release_transaction`: `ok`, or a message and the settings as they were.
pub data Released : Type 0 where
  released : Released
  refused : Text → Released

module _ (S D : Type 0) where
  pub record SystemProxyController : Type 0 where
    pub on : Bool
    pub applied : Bool
    pub applied_target : Option ℕ
    pub error : Text
    pub snapshot : Option S
    pub desired : Option D

  -- What a tick finds: the connection, the pause, the capture, the two ports of the configuration
  -- (`none` where `int` refuses the entry), and the answers of system_proxy.py.
  pub record Tick : Type 0 where
    pub connected : Bool
    pub paused : Bool
    pub capture_running : Bool
    pub capture_port : ℕ
    pub http_listen_port : Option ℕ
    pub take_snapshot : Option S
    pub apply : S → ℕ → Applied D
    pub release : S → Option D → Released

abbrev same_target : Option ℕ → Option ℕ → Bool
same_target (some a) (some b) = nat_beq a b
same_target none none = true
same_target _ _ = false

abbrev pub turned_off : Text
turned_off = codes "; system proxy turned off due to apply failure"

module _ {S D : Type 0} where
  -- The host is always 127.0.0.1, so a target is its port.
  abbrev pub target_port : Tick S D → Option ℕ
  target_port t = if t.capture_running then some t.capture_port else t.http_listen_port

  abbrev pub wanted : SystemProxyController S D → Tick S D → Bool
  wanted c t = c.on && t.connected && not t.paused && is_some (target_port t)

  -- The controller after `apply_transaction` to a port.
  unfoldable pub note_apply : SystemProxyController S D → ℕ → Applied D → SystemProxyController S D
  note_apply c port (applied d) = record c {
    applied = true;
    applied_target = some port;
    desired = some d;
    error = [];
  }
  note_apply c port (not_begun err) = record c {
    applied = false;
    applied_target = none;
    snapshot = none;
    desired = none;
    error = err;
  }
  note_apply c port (rolled_back err) = record c {
    applied = false;
    applied_target = none;
    snapshot = none;
    desired = none;
    error = err;
  }
  note_apply c port (left_behind err d) = record c {
    applied = false;
    applied_target = none;
    desired = some d;
    on = false;
    error = err ++ turned_off;
  }

  unfoldable pub note_release : SystemProxyController S D → Released → SystemProxyController S D
  note_release c released = record c {
    applied = false;
    applied_target = none;
    snapshot = none;
    desired = none;
    error = [];
  }
  note_release c (refused err) = record c { applied = true; error = err }

  apply_to : SystemProxyController S D → Tick S D → ℕ → Option S → SystemProxyController S D
  unfolding note_apply
  apply_to c t port none = record c {
    snapshot = none;
    error = codes "could not safely snapshot network proxy settings";
  }
  apply_to c t port (some s) = note_apply (record c { snapshot = some s }) port (t.apply s port)

  -- The snapshot that is applied to: a new one, unless the settings are applied already.
  abbrev snapshot_for : SystemProxyController S D → Tick S D → Option S
  snapshot_for c t = if c.applied then c.snapshot else t.take_snapshot

  release_from : SystemProxyController S D → Tick S D → Option S → SystemProxyController S D
  unfolding note_release
  release_from c t none = c
  release_from c t (some s) = note_release c (t.release s c.desired)

  abbrev note_port : SystemProxyController S D → Tick S D → SystemProxyController S D
  note_port c t =
      if not (is_some (target_port t)) && c.on
      then record c { error = codes "invalid http_listen_port" }
      else c

  sync_to : SystemProxyController S D → Tick S D → Option ℕ → SystemProxyController S D
  unfolding apply_to release_from
  sync_to c t none = release_from c t c.snapshot
  sync_to c t (some port) =
      if wanted c t
      then (if not c.applied || not (same_target c.applied_target (some port))
          then apply_to c t port (snapshot_for c t)
          else c)
      else release_from c t c.snapshot

  unfoldable pub sync : SystemProxyController S D → Tick S D → SystemProxyController S D
  unfolding sync_to
  sync c t = sync_to (note_port c t) t (target_port t)

  unfoldable pub toggle : SystemProxyController S D → Tick S D → SystemProxyController S D
  toggle c t = sync (record c { on = not c.on; error = [] }) t

  quit_from : SystemProxyController S D → Option S → Tick S D → SystemProxyController S D
  quit_from c none t = c
  quit_from c (some s) t = elim (t.release s c.desired) [
    | released ↦ record c { applied = false; snapshot = none; desired = none }
    | refused err ↦ c
  ]

  unfoldable pub quit_cleanup : SystemProxyController S D → Tick S D → SystemProxyController S D
  unfolding quit_from
  quit_cleanup c t = quit_from c c.snapshot t
