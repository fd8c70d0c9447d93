-- ===== src/Mounts/Coordinator/Order.antt =====
-- mount/coordinator.py: the order of unmounting and of closing the session.
use magic_ai_router.Prelude.{
  ◌≡◌, refl, ap, ◌∙◌, inl, inr, true, false, Option, none, some, [], ◌∷◌, ◌++◌, Text, lookup,
  lookup-remove, text_key, Option-cases, if◌then◌else◌,
}
use magic_ai_router.Mounts.Coordinator.{
  MountKey, NfsSession, unmount_job, Coordinator, World, row_of, state_of, unwant, wants_server,
  teardown, teardown_known, dir_mounted, dispatch_unmount, stop_mount, env_at,
}
use magic_ai_router.Tunnel.Session.{stop_session}

teardown-none :
    (w : World) (tid : Text) (c : Coordinator) → lookup tid (teardown w tid c).sessions ≡ none
unfolding teardown
teardown-none w tid c = elim (Option-cases (lookup tid c.sessions)) [
  | inl e ↦ rw (e, teardown) e
  | inr (n, e) ↦
      rw (e, teardown)
        (lookup-remove tid tid c.sessions
          ∙ ap (λ b. if b then none else lookup tid c.sessions)
              ((text_key.same_key_iff tid tid).1 refl))
]

teardown-jobs : (w : World) (tid : Text) (c : Coordinator) → (teardown w tid c).jobs ≡ c.jobs
unfolding teardown
teardown-jobs w tid c = go (lookup tid c.sessions)
  where
    go : (o : Option NfsSession) → (teardown_known w tid o c).jobs ≡ c.jobs
    go none = refl
    go (some n) = refl

teardown-dropped :
    (w : World) (tid : Text) (c : Coordinator) (n : NfsSession)
    → lookup tid c.sessions ≡ some n
    → (teardown w tid c).dropped ≡ stop_session (env_at w c tid) n.session ∷ c.dropped
unfolding teardown
teardown-dropped w tid c n e = rw e refl

torn :
    (w : World) (tid : Text) (c : Coordinator) (n : NfsSession)
    → lookup tid c.sessions ≡ some n
    → (lookup tid (teardown w tid c).sessions ≡ none)
      × ((teardown w tid c).dropped ≡ stop_session (env_at w c tid) n.session ∷ c.dropped)
      × ((teardown w tid c).jobs ≡ c.jobs)
torn w tid c n e = (teardown-none w tid c, teardown-dropped w tid c n e, teardown-jobs w tid c)

-- Of a mount that is mounted and not busy, and the last wanted one of its server, stop_mount stops
-- the server's session and takes it out of the registry when the job that unmounts it has only been
-- submitted.
pub stop_mount-order :
    (w : World) (k : MountKey) (c : Coordinator) (n : NfsSession)
    → lookup k.0 c.sessions ≡ some n
    → dir_mounted w (row_of c k) ≡ true
    → (state_of c k).busy ≡ false
    → wants_server k.0 (unwant k c.desired) ≡ false
    → (lookup k.0 (stop_mount w k c).sessions ≡ none)
      × ((stop_mount w k c).dropped ≡ stop_session (env_at w c k.0) n.session ∷ c.dropped)
      × ((stop_mount w k c).jobs ≡ c.jobs ++ unmount_job k ∷ [])
unfolding stop_mount dispatch_unmount
stop_mount-order w k c n e there idle last = rw there (rw idle (rw last (torn w k.0 _ n e)))
