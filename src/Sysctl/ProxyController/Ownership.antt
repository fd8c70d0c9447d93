-- ===== src/Sysctl/ProxyController/Ownership.antt =====
-- What the controller of sysctl/sys_proxy_controller.py keeps to give the host's proxy settings
-- back, and where it loses that.
use magic_ai_router.Prelude.{
  ℕ, ◌≡◌, refl, true, false, not, ◌||◌, Option, none, some, arith, is_some, List, [], ◌∷◌,
  Option-cases, Bool-cases, inl, inr, ◌&&◌, Text, map, All, sym, subst, ap, ◌∙◌,
}
use magic_ai_router.Sysctl.ProxyController.{
  released, refused, Applied, applied, not_begun, rolled_back, left_behind, SystemProxyController,
  Tick, target_port, same_target, wanted, snapshot_for, note_port, note_apply, note_release,
  apply_to, release_from, sync_to, sync, toggle,
}

-- Applied settings have a snapshot; a snapshot comes with the settings that were aimed at; and a
-- target is one that is applied.
pub record IsOwned {S D : Type 0} (c : SystemProxyController S D) : Type 0 where
  pub kept : c.applied ≡ true → is_some c.snapshot ≡ true
  pub aimed : is_some c.snapshot ≡ true → is_some c.desired ≡ true
  pub targeted : is_some c.applied_target ≡ true → c.applied ≡ true

module _ {S D : Type 0} where
  note_apply-IsOwned :
      (c : SystemProxyController S D) (s : S) (port : ℕ) (a : Applied D)
      → IsOwned (note_apply (record c { snapshot = some s }) port a)
  unfolding note_apply
  note_apply-IsOwned c s port (applied d) = ground arith
  note_apply-IsOwned c s port (not_begun err) = ground arith
  note_apply-IsOwned c s port (rolled_back err) = ground arith
  note_apply-IsOwned c s port (left_behind err d) = ground arith

  apply_to-IsOwned :
      (c : SystemProxyController S D) (t : Tick S D) (port : ℕ)
      → IsOwned c
      → IsOwned (apply_to c t port (snapshot_for c t))
  unfolding apply_to
  apply_to-IsOwned c t port o = elim (Option-cases (snapshot_for c t)) [
    | inl missing ↦ rw (missing, apply_to) (ground arith)
    | inr (s, taken) ↦ rw (taken, apply_to) (note_apply-IsOwned c s port (t.apply s port))
  ]

  release_from-IsOwned :
      (c : SystemProxyController S D) (t : Tick S D)
      → IsOwned c
      → IsOwned (release_from c t c.snapshot)
  unfolding release_from note_release
  release_from-IsOwned c t o = ground arith

  sync_to-IsOwned :
      (c : SystemProxyController S D) (t : Tick S D) (port : Option ℕ)
      → IsOwned c
      → IsOwned (sync_to c t port)
  unfolding sync_to
  sync_to-IsOwned c t none o = release_from-IsOwned c t o
  sync_to-IsOwned c t (some port) o = elim (Bool-cases (wanted c t)) [
    | inr out ↦ rw out (release_from-IsOwned c t o)
    | inl on ↦
        rw on (elim (Bool-cases (not c.applied || not (same_target c.applied_target (some port)))) [
          | inl change ↦ rw change (apply_to-IsOwned c t port o)
          | inr stay ↦ rw stay o
        ])
  ]

  -- A tick keeps applied settings together with the snapshot that gives them back.
  pub sync-IsOwned : (c : SystemProxyController S D) (t : Tick S D) → IsOwned c → IsOwned (sync c t)
  unfolding sync
  sync-IsOwned c t o = sync_to-IsOwned (note_port c t) t (target_port t) (ground arith)

-- An event of the controller's life: a tick, or the user's switch.
pub data Event (S D : Type 0) : Type 0 where
  ticked toggled : Tick S D → Event S D

module _ {S D : Type 0} where
  unfoldable pub run : List (Event S D) → SystemProxyController S D → SystemProxyController S D
  run [] c = c
  run (ticked t ∷ es) c = run es (sync c t)
  run (toggled t ∷ es) c = run es (toggle c t)

  -- Every state that ticks and switches lead to from an owned one is owned.
  pub run-IsOwned :
      (es : List (Event S D)) (c : SystemProxyController S D) → IsOwned c → IsOwned (run es c)
  unfolding run toggle
  run-IsOwned [] c o = o
  run-IsOwned (ticked t ∷ es) c o = run-IsOwned es (sync c t) (sync-IsOwned c t o)
  run-IsOwned (toggled t ∷ es) c o =
      run-IsOwned es (toggle c t)
        (sync-IsOwned (record c { on = not c.on; error = [] }) t (ground arith))

  -- The controller is off and still holds what a release asks for.
  abbrev IsPending : S → D → SystemProxyController S D → Type 0
  IsPending s d c = (c.on ≡ false) × (c.snapshot ≡ some s) × (c.desired ≡ some d)

  abbrev pub Refuses : S → D → Tick S D → Type 0
  Refuses s d t = (err : Text) × (t.release s (some d) ≡ refused err)

  release-pending :
      (c : SystemProxyController S D) (t : Tick S D) (s : S) (d : D)
      → IsPending s d c
      → release_from c t c.snapshot ≡ note_release c (t.release s (some d))
  unfolding release_from
  release-pending c t s d h = rw h.1 (rw h.2 refl)

  sync_to-off :
      (c : SystemProxyController S D) (t : Tick S D) (p : Option ℕ)
      → c.on ≡ false
      → sync_to c t p ≡ release_from c t c.snapshot
  unfolding sync_to
  sync_to-off c t none off = refl
  sync_to-off c t (some port) off = rw off refl

  note_port-off : (c : SystemProxyController S D) (t : Tick S D) → c.on ≡ false → note_port c t ≡ c
  note_port-off c t off = ground arith

  sync-off :
      (c : SystemProxyController S D) (t : Tick S D) (s : S) (d : D)
      → IsPending s d c
      → sync c t ≡ note_release c (t.release s (some d))
  unfolding sync
  sync-off c t s d h =
      ap (λ x. sync_to x t (target_port t)) (note_port-off c t h.0)
      ∙ sync_to-off c t (target_port t) h.0
      ∙ release-pending c t s d h

  sync-IsPending :
      (c : SystemProxyController S D) (t : Tick S D) (s : S) (d : D)
      → IsPending s d c
      → Refuses s d t
      → IsPending s d (sync c t)
  unfolding note_release
  sync-IsPending c t s d h (err, refusal) =
      subst (IsPending s d) (sym (sync-off c t s d h)) (rw refusal h)

  run-IsPending :
      (ts : List (Tick S D)) (c : SystemProxyController S D) (s : S) (d : D)
      → All (Refuses s d) ts
      → IsPending s d c
      → IsPending s d (run (map ticked ts) c)
  unfolding run
  run-IsPending [] c s d denied h = h
  run-IsPending (t ∷ ts) c s d denied h =
      run-IsPending ts (sync c t) s d denied.1 (sync-IsPending c t s d h denied.0)

  left_behind-IsPending :
      (c : SystemProxyController S D) (t : Tick S D) (port : ℕ) (s : S) (err : Text) (d : D)
      → wanted c t ≡ true
      → target_port t ≡ some port
      → (c.applied && same_target c.applied_target (some port)) ≡ false
      → snapshot_for c t ≡ some s
      → t.apply s port ≡ left_behind err d
      → IsPending s d (sync c t)
  unfolding sync sync_to apply_to note_apply
  left_behind-IsPending c t port s err d want aim changed taken left = rw aim (ground arith)

  -- Where a tick applies the settings, and they can neither be applied nor be put back, the
  -- controller switches itself off and keeps the snapshot and the settings that it aimed at. It
  -- keeps both through any ticks at which the host refuses to release them, and the first tick at
  -- which the host releases them leaves nothing applied and no snapshot.
  pub left_behind_released :
      (c : SystemProxyController S D) (t : Tick S D) (port : ℕ) (s : S) (err : Text) (d : D)
      → wanted c t ≡ true
      → target_port t ≡ some port
      → (c.applied && same_target c.applied_target (some port)) ≡ false
      → snapshot_for c t ≡ some s
      → t.apply s port ≡ left_behind err d
      → (ts : List (Tick S D)) → All (Refuses s d) ts
      → (last : Tick S D) → last.release s (some d) ≡ released
      → ((run (map ticked ts) (sync c t)).on ≡ false)
        × ((run (map ticked ts) (sync c t)).snapshot ≡ some s)
        × ((run (map ticked ts) (sync c t)).desired ≡ some d)
        × ((sync (run (map ticked ts) (sync c t)) last).applied ≡ false)
        × ((sync (run (map ticked ts) (sync c t)) last).snapshot ≡ none)
  unfolding note_release
  left_behind_released c t port s err d want aim changed taken left ts denied last accepted =
      let e = run (map ticked ts) (sync c t) in
      let h : IsPending s d e =
        run-IsPending ts (sync c t) s d denied
          (left_behind-IsPending c t port s err d want aim changed taken left) in
      let back = sync-off e last s d h in
      (
        h.0,
        h.1,
        h.2,
        ap (λ x. x.applied) back ∙ ap (λ r. (note_release e r).applied) accepted,
        ap (λ x. x.snapshot) back ∙ ap (λ r. (note_release e r).snapshot) accepted,
      )

  -- Where a failed apply has left its settings behind, switching on before the next tick replaces
  -- the snapshot: if no new one can be taken, the old settings are lost to the controller.
  pub toggle_loses_snapshot :
      (c : SystemProxyController S D) (t : Tick S D) (port : ℕ)
      → c.on ≡ false
      → c.applied ≡ false
      → wanted (record c { on = true; error = [] }) t ≡ true
      → target_port t ≡ some port
      → t.take_snapshot ≡ none
      → ((toggle c t).snapshot ≡ none) × ((toggle c t).on ≡ true)
  unfolding toggle sync sync_to apply_to
  toggle_loses_snapshot c t port off idle want aim missing = ground arith
