-- ===== src/Mounts/Coordinator/Sweep.antt =====
-- mount/coordinator.py: a tick clears away what is mounted and not wanted.
use mathlib.Core.List.{Memᴰ}
use magic_ai_router.Prelude.{
  ◌≡◌, refl, sym, ap, subst, ◌∙◌, inl, inr, Bool, true, false, ◌&&◌, ◌||◌, Option, none, some, List,
  [], ◌∷◌, Text, Dict, lookup, insert, contains, text_key, ◌==◌, Bool-cases, arith, if◌then◌else◌,
}
use magic_ai_router.Json.{ℤ}
use magic_ai_router.Mpconf.Servers.{Mount, Server}
use magic_ai_router.Mounts.Coordinator.{
  MountKey, mount_key, MountState, Coordinator, World, tunnels, by_id, row_of, state_or_new,
  state_of, dispatch_mount, reconcile_row, reconcile_found, reconcile_wanted, resolve_dir,
  sweep_row, sweep_rows, sweep,
}
use magic_ai_router.Mounts.Coordinator.Runs.{
  reconcile_sessions, tick_all, wanted_ids, session_ids, ticked, step,
}
use magic_ai_router.Mounts.Coordinator.Jobs.{jobs_on, state-insert, at_key}
use magic_ai_router.Mounts.Coordinator.Claims.{IsClaimed, step-IsClaimed}
use magic_ai_router.Mounts.Coordinator.Sessions.{reconcile_sessions-frame}

abbrev busy_in : MountKey → Dict MountKey MountState → Bool
busy_in k m = (state_or_new (lookup k m)).busy

busy_in-insert :
    (j k : MountKey) (s : MountState) (m : Dict MountKey MountState)
    → busy_in k (insert j s m) ≡ (if j == k then s.busy else busy_in k m)
busy_in-insert j k s m = ap (λ (t : MountState). t.busy) (state-insert j k s m) ∙ go (j == k)
  where
    go :
        (b : Bool)
        → (if b then s else state_or_new (lookup k m)).busy ≡ (if b then s.busy else busy_in k m)
    go true = refl
    go false = refl

-- Busy stays what it is where a state is written back.
kept-busy :
    (j k : MountKey) (m : Dict MountKey MountState)
    → (if j == k then busy_in j m else busy_in k m) ≡ busy_in k m
kept-busy j k m = elim (Bool-cases (j == k)) [
  | inl same ↦ rw same (ap (λ x. busy_in x m) ((mount_key.same_key_iff j k).0 same))
  | inr other ↦ rw other refl
]

set_back-busy :
    (j k : MountKey) (c : Coordinator)
    → busy_in k (insert j (state_of c j) c.states) ≡ busy_in k c.states
set_back-busy j k c = busy_in-insert j k (state_of c j) c.states ∙ kept-busy j k c.states

absorb : (same d old : Bool) → (same ≡ true → old ≡ true) → old ≡ (old || (same && d))
absorb true d old h = rw (h refl) refl
absorb false d old h = ground arith

sweep_row-busy :
    (w : World) (j k : MountKey) (row : Mount) (c : Coordinator)
    → busy_in k (sweep_row w j row c).states
      ≡ (busy_in k c.states || (j == k && contains (resolve_dir row) w.table))
sweep_row-busy w j k row c =
    let same = j == k in
    let old = busy_in k c.states in
    elim (Bool-cases (state_of c j).busy) [
      | inl taken ↦ rw taken (
          set_back-busy j k c
          ∙ absorb same (contains (resolve_dir row) w.table) old
              (λ e. at_key (λ x. busy_in x c.states ≡ true) j k e taken))
      | inr idle ↦ elim (Bool-cases (contains (resolve_dir row) w.table)) [
        | inl there ↦ rw idle (rw there (busy_in-insert j k _ c.states ∙ taken-busy same old))
        | inr gone ↦ rw idle (rw gone (set_back-busy j k c ∙ idle-busy same old))
      ]
    ]
  where
    taken-busy : (b old : Bool) → (if b then true else old) ≡ (old || (b && true))
    taken-busy b old = ground arith

    idle-busy : (b old : Bool) → old ≡ (old || (b && false))
    idle-busy b old = ground arith

abbrev swept : World → Text → Mount → Coordinator → Coordinator
swept w tid row c =
    let k : MountKey = (tid, row.name) in
    if row.name == [] || contains k c.desired then c else sweep_row w k row c

-- The row is there to be swept: it has a name, is not wanted, and its directory is mounted.
abbrev pub IsStale : World → Text → Mount → Coordinator → Type 0
IsStale w tid row c =
    ((row.name == []) ≡ false)
    × (contains (tid, row.name) c.desired ≡ false)
    × (contains (resolve_dir row) w.table ≡ true)

swept-keeps :
    (w : World) (tid : Text) (row : Mount) (k : MountKey) (c : Coordinator)
    → busy_in k c.states ≡ true
    → busy_in k (swept w tid row c).states ≡ true
swept-keeps w tid row k c h =
    elim (Bool-cases (row.name == [] || contains (tid, row.name) c.desired)) [
      | inl out ↦ rw out h
      | inr stays ↦ rw stays (sweep_row-busy w (tid, row.name) k row c ∙ rw h refl)
    ]

swept-desired :
    (w : World) (tid : Text) (row : Mount) (c : Coordinator)
    → (swept w tid row c).desired ≡ c.desired
swept-desired w tid row c = ground arith

swept-takes :
    (w : World) (tid : Text) (row : Mount) (c : Coordinator)
    → IsStale w tid row c
    → busy_in (tid, row.name) (swept w tid row c).states ≡ true
swept-takes w tid row c (named, unwanted, there) =
    let k : MountKey = (tid, row.name) in
    rw named (
      rw unwanted (
        sweep_row-busy w k k row c
        ∙ rw ((mount_key.same_key_iff k k).1 refl) (rw there (ground arith))))

sweep_rows-keeps :
    (w : World) (tid : Text) (rows : List Mount) (k : MountKey) (c : Coordinator)
    → busy_in k c.states ≡ true
    → busy_in k (sweep_rows w tid rows c).states ≡ true
sweep_rows-keeps w tid [] k c h = h
sweep_rows-keeps w tid (row ∷ rows) k c h =
    sweep_rows-keeps w tid rows k (swept w tid row c) (swept-keeps w tid row k c h)

sweep_rows-desired :
    (w : World) (tid : Text) (rows : List Mount) (c : Coordinator)
    → (sweep_rows w tid rows c).desired ≡ c.desired
sweep_rows-desired w tid [] c = refl
sweep_rows-desired w tid (row ∷ rows) c =
    sweep_rows-desired w tid rows (swept w tid row c) ∙ swept-desired w tid row c

still_unwanted :
    (k : MountKey) (ds es : List MountKey) → es ≡ ds → contains k ds ≡ false → contains k es ≡ false
still_unwanted k ds es e h = ap (contains k) e ∙ h

sweep_rows-takes :
    (w : World) (tid : Text) (row : Mount) (rows : List Mount) (c : Coordinator)
    → Memᴰ row rows
    → IsStale w tid row c
    → busy_in (tid, row.name) (sweep_rows w tid rows c).states ≡ true
sweep_rows-takes w tid row [] c m h = elim m [ ]
sweep_rows-takes w tid row (r ∷ rows) c (Memᴰ.head e) h =
    sweep_rows-keeps w tid rows (tid, row.name) (swept w tid r c)
      (subst (λ x. busy_in (tid, row.name) (swept w tid x c).states ≡ true) e
        (swept-takes w tid row c h))
sweep_rows-takes w tid row (r ∷ rows) c (Memᴰ.tail m) (named, unwanted, there) =
    sweep_rows-takes w tid row rows (swept w tid r c) m (
      named,
      still_unwanted (tid, row.name) c.desired (swept w tid r c).desired (swept-desired w tid r c)
          unwanted,
      there,
    )

sweep-keeps :
    (w : World) (m : Dict Text Server) (k : MountKey) (c : Coordinator)
    → busy_in k c.states ≡ true
    → busy_in k (sweep w m c).states ≡ true
unfolding sweep
sweep-keeps w [] k c h = h
sweep-keeps w ((tid, t) ∷ m) k c h =
    sweep-keeps w m k (sweep_rows w tid t.nfs.mounts c) (sweep_rows-keeps w tid t.nfs.mounts k c h)

sweep-takes :
    (w : World) (tid : Text) (t : Server) (row : Mount) (m : Dict Text Server) (c : Coordinator)
    → lookup tid m ≡ some t
    → Memᴰ row t.nfs.mounts
    → IsStale w tid row c
    → busy_in (tid, row.name) (sweep w m c).states ≡ true
unfolding sweep
sweep-takes w tid t row [] c found listed h = cc
sweep-takes w tid t row ((j, u) ∷ m) c found listed (named, unwanted, there) =
    let d = sweep_rows w j u.nfs.mounts c in
    elim (Bool-cases (j == tid)) [
      | inl same ↦
          let found_here : some u ≡ some t =
            ap (λ b. if b then some u else lookup tid m) (sym same) ∙ found in
          let is_here : t ≡ u = cc in
          sweep-keeps w m (tid, row.name) d
            (subst (λ x. busy_in (tid, row.name) (sweep_rows w x u.nfs.mounts c).states ≡ true)
              (sym ((text_key.same_key_iff j tid).0 same))
              (sweep_rows-takes w tid row u.nfs.mounts c
                (subst (λ (v : Server). Memᴰ row v.nfs.mounts) is_here listed)
                (named, unwanted, there)))
      | inr other ↦
          sweep-takes w tid t row m d
            (ap (λ b. if b then some u else lookup tid m) (sym other) ∙ found) listed
            (
              named,
              still_unwanted (tid, row.name) c.desired d.desired
                  (sweep_rows-desired w j u.nfs.mounts c) unwanted,
              there,
            )
    ]

reconcile_row-frame :
    (w : World) (k : MountKey) (row : Mount) (c : Coordinator)
    → (reconcile_row w k row c).desired ≡ c.desired
unfolding dispatch_mount
reconcile_row-frame w k row c = ground arith

reconcile_wanted-frame :
    (w : World) (ks : List MountKey) (c : Coordinator)
    → (reconcile_wanted w ks c).desired ≡ c.desired
unfolding reconcile_wanted
reconcile_wanted-frame w [] c = refl
reconcile_wanted-frame w (k ∷ ks) c =
    reconcile_wanted-frame w ks (reconcile_found w k (row_of c k) c) ∙ go (row_of c k)
  where
    go : (o : Option Mount) → (reconcile_found w k o c).desired ≡ c.desired
    go none = refl
    go (some row) = reconcile_row-frame w k row c

-- A mount that is configured with a name, not wanted, and in the table of mounts at a tick, has a
-- job on it after the tick, and one only, if before the tick the jobs matched the busy states.
pub tick_all-unmounts :
    (text_of : ℤ → Text) (w : World) (c : Coordinator) (tid : Text) (t : Server) (row : Mount)
    → IsClaimed c
    → lookup tid (tunnels c) ≡ some t
    → Memᴰ row t.nfs.mounts
    → IsStale w tid row c
    → jobs_on (tid, row.name) (tick_all text_of w c).jobs ≡ 1
unfolding tick_all step
tick_all-unmounts text_of w c tid t row fits found listed (named, unwanted, there) =
    let k : MountKey = (tid, row.name) in
    let ids = session_ids c.sessions (wanted_ids c.desired []) in
    let d = reconcile_sessions text_of w ids c in
    let e = reconcile_wanted w d.desired d in
    let (servers, desired) = reconcile_sessions-frame text_of w ids c in
    let taken : busy_in k (sweep w (tunnels d) e).states ≡ true =
      sweep-takes w tid t row (tunnels d) e (ap (λ ss. lookup tid (by_id ss [])) servers ∙ found)
        listed
        (
          named,
          still_unwanted k c.desired e.desired (reconcile_wanted-frame w d.desired d ∙ desired)
              unwanted,
          there,
        ) in
    step-IsClaimed text_of (ticked w) c fits k ∙ ap (λ b. if b then 1 else 0) taken
