-- ===== src/Sysctl/ProxyController/Convergence.antt =====
-- The host's proxy settings converge: what a tick of sysctl/sys_proxy_controller.py leaves.
use magic_ai_router.Prelude.{
  ℕ, ◌≡◌, refl, true, false, not, ◌||◌, Option, none, some, arith, is_some, nat_beq_iff, ap, ◌∙◌,
  Option-cases, Bool-cases, inl, inr, ◌⊎◌,
}
use magic_ai_router.Sysctl.ProxyController.{
  applied, released, SystemProxyController, Tick, target_port, same_target, wanted, snapshot_for,
  note_port, note_apply, note_release, apply_to, release_from, sync_to, sync,
}
use magic_ai_router.Sysctl.ProxyController.Ownership.{IsOwned}

same_target-eq : (a : Option ℕ) (b : ℕ) → same_target a (some b) ≡ true → a ≡ some b
same_target-eq none b e = ground arith
same_target-eq (some a) b e = ap some ((nat_beq_iff a b).0 e)

module _ {S D : Type 0} where
  -- The host's tools do what they are asked to.
  pub record IsWilling (t : Tick S D) : Type 0 where
    pub readable : is_some t.take_snapshot ≡ true
    pub settings : S → ℕ → D
    pub applies : (s : S) (port : ℕ) → t.apply s port ≡ applied (settings s port)
    pub releases : (s : S) (d : Option D) → t.release s d ≡ released

  -- What a tick should leave: the settings applied to the wished port, or nothing of the program's.
  abbrev pub Converged : SystemProxyController S D → SystemProxyController S D → Tick S D → Type 0
  Converged before after t =
      ((wanted before t ≡ true) × (after.applied ≡ true) × (after.applied_target ≡ target_port t))
      ⊎ ((wanted before t ≡ false) × (after.applied ≡ false) × (after.snapshot ≡ none))

  note_port-wanted :
      (c : SystemProxyController S D) (t : Tick S D) → wanted (note_port c t) t ≡ wanted c t
  note_port-wanted c t = ground arith

  release_from-Converged :
      (c : SystemProxyController S D) (t : Tick S D)
      → IsOwned c
      → IsWilling t
      → ((release_from c t c.snapshot).applied ≡ false)
        × ((release_from c t c.snapshot).snapshot ≡ none)
  unfolding release_from note_release
  release_from-Converged c t o h = elim (Option-cases c.snapshot) [
    | inl none_kept ↦ rw none_kept (ground arith)
    | inr (s, kept) ↦ rw (kept, release_from, h.releases s c.desired) (refl, refl)
  ]

  apply_to-Converged :
      (c : SystemProxyController S D) (t : Tick S D) (port : ℕ)
      → IsOwned c
      → IsWilling t
      → ((apply_to c t port (snapshot_for c t)).applied ≡ true)
        × ((apply_to c t port (snapshot_for c t)).applied_target ≡ some port)
  unfolding apply_to note_apply
  apply_to-Converged c t port o h = elim (Option-cases (snapshot_for c t)) [
    | inl missing ↦ ground arith
    | inr (s, taken) ↦ rw (taken, apply_to, h.applies s port) (refl, refl)
  ]

  sync_to-unwanted :
      (c : SystemProxyController S D) (t : Tick S D) (p : Option ℕ)
      → wanted c t ≡ false
      → sync_to c t p ≡ release_from c t c.snapshot
  unfolding sync_to
  sync_to-unwanted c t none out = refl
  sync_to-unwanted c t (some port) out = rw out refl

  sync_to-wanted :
      (c : SystemProxyController S D) (t : Tick S D) (p : Option ℕ)
      → IsOwned c
      → IsWilling t
      → wanted c t ≡ true
      → is_some p ≡ true
      → ((sync_to c t p).applied ≡ true) × ((sync_to c t p).applied_target ≡ p)
  unfolding sync_to
  sync_to-wanted c t none o h on aim = ground arith
  sync_to-wanted c t (some port) o h on aim =
      elim (Bool-cases (not c.applied || not (same_target c.applied_target (some port)))) [
        | inl change ↦ rw (on, change) (apply_to-Converged c t port o h)
        | inr stay ↦ rw (on, stay) (ground (arith, same_target-eq c.applied_target port))
      ]

  note_port-IsOwned :
      (c : SystemProxyController S D) (t : Tick S D) → IsOwned c → IsOwned (note_port c t)
  note_port-IsOwned c t o = ground arith

  -- On a willing host one tick reaches the wish, from every state that the controller can be in.
  pub sync-Converged :
      (c : SystemProxyController S D) (t : Tick S D)
      → IsOwned c
      → IsWilling t
      → Converged c (sync c t) t
  unfolding sync sync_to apply_to release_from note_apply note_release
  sync-Converged c t o h =
      let c1 = note_port c t in
      let o1 = note_port-IsOwned c t o in
      let same = note_port-wanted c t in
      elim (Bool-cases (wanted c t)) [
        | inr out ↦
            let gone = release_from-Converged c1 t o1 h in
            let back = sync_to-unwanted c1 t (target_port t) (same ∙ out) in
            inr (out, ap (λ d. d.applied) back ∙ gone.0, ap (λ d. d.snapshot) back ∙ gone.1)
        | inl on ↦
            let reached = sync_to-wanted c1 t (target_port t) o1 h (same ∙ on) (ground arith) in
            inl (on, reached.0, reached.1)
      ]
