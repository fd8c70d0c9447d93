-- ===== src/Mpconf/Transaction/Atomic.antt =====
-- A save of mpconf/config_state.py changes both files or none, once the next start has recovered:
-- `commit` with any refusals and at any point of death, then `recover`.
use magic_ai_router.Prelude.{
  ℕ, ◌≡◌, refl, sym, ap, subst, Bool, true, false, Option, none, some, List, [], ◌∷◌, ◌++◌, ◌&&◌,
  Text, ◌⊎◌, inl, arith, if◌then◌else◌,
}
use magic_ai_router.Mpconf.Transaction.Run.{
  World, Payload, Journal, Ended, value, dead, pure, ◌>>=◌, ◌>>◌, restart, Io, done, refused,
  KeychainCall, set_password, delete_password, delete_sudo_password, delete_legacy_password,
}
use magic_ai_router.Mpconf.Transaction.Run.Triple.{
  Ends, Triple, Triple-pure, Triple-bind, Triple-call, Triple-weaken, Triple-given, NoneRefused,
}
use magic_ai_router.Mpconf.Transaction.{
  Stage, validate, mp, keychain, SaveResult, saved, failed, Deletion, all, legacy_only, CommitPlan,
  current_text, write_journal, rollback, install, log_call, run_sets, run_dels, run_deletion,
  run_keychain, clear_journal, clear_found, notify, finish, commit_payload, commit_valid, commit,
  read_payload, recover,
}
use magic_ai_router.Mpconf.Transaction.Install.{
  IsConsistent, CanRollback, IsOld, IsNew, IsFresh, IsWritten, payload, install-Triple,
}
use magic_ai_router.Mpconf.Transaction.Reads.{reads, Untouched, read_payload-Triple}
use magic_ai_router.Mpconf.Transaction.Rollback.{RolledBack, rollback-Triple}

-- Whatever was saved or not, the files and the journal are consistent; a save that is reported is
-- in both files.
abbrev Committed :
    Option Text → Option Text → Option Text → Option Text → SaveResult → World → Type 0
Committed new_mp new_sp old_mp old_sp saved w =
    IsConsistent new_mp new_sp old_mp old_sp w × IsNew new_mp new_sp old_mp old_sp w
Committed new_mp new_sp old_mp old_sp (failed _) w = IsConsistent new_mp new_sp old_mp old_sp w

-- A call of the keychain touches no file.
module _ (P : World → Type 0)
    (stable : (w : World) (log : List KeychainCall) (io : List Io)
      → P w
      → P (record w { log = log; io = io })) where
  log_call-Triple : (c : KeychainCall) → Triple P (log_call c) (λ _. P) P
  log_call-Triple c =
      Triple-call (λ w. record w { log = w.log ++ c ∷ [] })
        (λ w io h. stable w (w.log ++ c ∷ []) io h) (λ w io h. stable w w.log io h)
        (λ w io h. stable w w.log io h)

  run_sets-Triple : (sets : List (ℕ × Text)) → Triple P (run_sets sets) (λ _. P) P
  unfolding run_sets
  run_sets-Triple [] = Triple-pure true (λ w h. h)
  run_sets-Triple ((tunnel, pw) ∷ sets) =
      Triple-bind (log_call (set_password tunnel pw)) _ (log_call-Triple (set_password tunnel pw))
        (elim [ true ↦ run_sets-Triple sets | false ↦ Triple-pure false (λ w h. h) ])

  run_deletion-Triple : (d : Deletion) → Triple P (run_deletion d) (λ _. P) P
  run_deletion-Triple (all tunnel) =
      Triple-bind (log_call (delete_password tunnel)) _ (log_call-Triple (delete_password tunnel))
        (λ b.
          Triple-bind (log_call (delete_sudo_password tunnel)) _
            (log_call-Triple (delete_sudo_password tunnel)) (λ _. Triple-pure b (λ w h. h)))
  run_deletion-Triple (legacy_only tunnel) = log_call-Triple (delete_legacy_password tunnel)

  run_dels-Triple : (dels : List Deletion) → Triple P (run_dels dels) (λ _. P) P
  unfolding run_dels
  run_dels-Triple [] = Triple-pure true (λ w h. h)
  run_dels-Triple (d ∷ dels) = Triple-bind (run_deletion d) _ (run_deletion-Triple d) (λ b.
      Triple-bind (run_dels dels) _ (run_dels-Triple dels) (λ c. Triple-pure (b && c) (λ w h. h)))

  run_keychain-Triple :
      (has : Bool) (plan : CommitPlan) → Triple P (run_keychain has plan) (λ _. P) P
  unfolding run_keychain
  run_keychain-Triple false plan = Triple-pure true (λ w h. h)
  run_keychain-Triple true plan =
      Triple-bind (run_sets plan.keychain_sets) _ (run_sets-Triple plan.keychain_sets)
        (elim [ true ↦ run_dels-Triple plan.keychain_dels | false ↦ Triple-pure false (λ w h. h) ])

module _ (new_mp new_sp old_mp old_sp : Option Text) where
  abbrev q : Payload
  q = payload new_mp new_sp old_mp old_sp

  abbrev Sound : World → Type 0
  Sound = IsConsistent new_mp new_sp old_mp old_sp

  abbrev Written : World → Type 0
  Written = IsWritten new_mp new_sp old_mp old_sp

  abbrev Done : SaveResult → World → Type 0
  Done = Committed new_mp new_sp old_mp old_sp

  abbrev Cleared : World → Type 0
  Cleared w = Sound w × IsNew new_mp new_sp old_mp old_sp w

  clear_found-Triple : (j : Option Journal) → Triple Written (clear_found j) (λ _. Cleared) Sound
  unfolding clear_found
  clear_found-Triple none = Triple-pure tt (λ w h. ground arith)
  clear_found-Triple (some _) =
      Triple-bind {R = λ _. Cleared} (write_journal none) (λ _. pure tt)
        (Triple-call (λ w. record w { journal = none }) (λ w io h. ground arith)
          (λ w io h. ground arith) (λ w io h. ground arith))
        (λ _. Triple-pure tt (λ w h. h))

  clear_journal-Triple : Triple Written clear_journal (λ _. Cleared) Sound
  unfolding clear_journal
  clear_journal-Triple = record { at = λ w h. (clear_found-Triple w.journal).at w h }

  notify-Triple : Triple Cleared notify (λ _. Cleared) Sound
  unfolding notify
  notify-Triple = record { at = λ w h. h }

  Sound-of_rollback : (b : Bool) (w : World) → RolledBack new_mp new_sp old_mp old_sp b w → Sound w
  Sound-of_rollback true w h = h.0
  Sound-of_rollback false w h = h

  fail-Triple :
      (stage : Stage)
      → Triple
          (CanRollback new_mp new_sp old_mp old_sp)
          (rollback q >> pure (failed stage))
          Done
          Sound
  fail-Triple stage =
      Triple-bind (rollback q) _ (rollback-Triple new_mp new_sp old_mp old_sp)
        (λ b. Triple-pure (failed stage) (Sound-of_rollback b))

  rollback_of_Written : (w : World) → Written w → CanRollback new_mp new_sp old_mp old_sp w
  rollback_of_Written w h = ground arith

  Sound-of_Written : (w : World) → Written w → Sound w
  Sound-of_Written w h = ground arith

  finish-Triple : (secrets : Bool) → Triple Written (finish q secrets) Done Sound
  unfolding finish
  finish-Triple true =
      Triple-bind clear_journal _ clear_journal-Triple
        (λ _. Triple-bind notify _ notify-Triple (λ _. Triple-pure saved (λ w h. h)))
  finish-Triple false =
      Triple-weaken _ rollback_of_Written (λ a w h. h) (λ w h. h) (fail-Triple keychain)

  commit_payload-Triple :
      (has : Bool) (plan : CommitPlan)
      → Triple (IsFresh new_mp new_sp old_mp old_sp) (commit_payload has plan q) Done Sound
  unfolding commit_payload
  commit_payload-Triple has plan =
      Triple-bind (install q) _ (install-Triple new_mp new_sp old_mp old_sp) (elim [
        | some stage ↦ fail-Triple stage
        | none ↦
            Triple-bind (run_keychain has plan) _
              (Triple-weaken _ (λ w h. h) (λ b w h. h) Sound-of_Written
                (run_keychain-Triple Written (λ w log io h. h) has plan))
              finish-Triple
      ])

  -- The next start finds the two files, or makes them, both old or both new, and no journal.
  abbrev pub IsSettled : World → Type 0
  IsSettled w =
      (w.journal ≡ none)
      × (IsOld new_mp new_sp old_mp old_sp w ⊎ IsNew new_mp new_sp old_mp old_sp w)

recover-IsSettled :
    (new_mp new_sp old_mp old_sp : Option Text) (w : World)
    → w.io ≡ []
    → IsConsistent new_mp new_sp old_mp old_sp w
    → ((recover w).0 ≡ value true) × IsSettled new_mp new_sp old_mp old_sp (recover w).1
unfolding recover ◌>>=◌
recover-IsSettled none none old_mp old_sp w quiet h = ground arith
recover-IsSettled none (some s) old_mp old_sp w quiet h = ground arith
recover-IsSettled (some m) none old_mp old_sp w quiet h = ground arith
recover-IsSettled (some m) (some s) old_mp old_sp w quiet h = ground arith

commit_valid-Triple :
    (has_keychain : Bool) (plan : CommitPlan) (old_mp old_sp : Option Text)
    → Triple
        (λ w.
          Untouched old_mp old_sp w
          × NoneRefused (reads plan.mp_candidate (reads plan.sp_candidate 0)) w.io)
        (commit_valid has_keychain plan)
        (Committed plan.mp_candidate plan.sp_candidate old_mp old_sp)
        (IsConsistent plan.mp_candidate plan.sp_candidate old_mp old_sp)
unfolding commit_valid
commit_valid-Triple has_keychain plan old_mp old_sp =
    Triple-bind (read_payload plan) _
      (Triple-weaken _ (λ v h. h) (λ p v h. h) (λ v h. inl (h.0, inl h.1))
        (read_payload-Triple old_mp old_sp plan))
      (λ p. Triple-given _ (λ is_p. rw is_p (
        commit_payload-Triple plan.mp_candidate plan.sp_candidate old_mp old_sp has_keychain plan)))

commit-eq-commit_valid :
    (has_keychain : Bool) (plan : CommitPlan) (w : World)
    → plan.ok ≡ true
    → commit_valid has_keychain plan w ≡ commit has_keychain plan w
unfolding commit
commit-eq-commit_valid has_keychain plan w ok =
    ap (λ b. (if b then commit_valid has_keychain plan else pure (failed validate)) w) (sym ok)

-- What is known of a run's end, whether it has a value or not.
IsConsistent-of_Ends :
    (new_mp new_sp old_mp old_sp : Option Text) (r : Ended SaveResult) (w : World)
    → Ends (Committed new_mp new_sp old_mp old_sp) (IsConsistent new_mp new_sp old_mp old_sp) r w
    → IsConsistent new_mp new_sp old_mp old_sp w
IsConsistent-of_Ends new_mp new_sp old_mp old_sp (value saved) w h = h.0
IsConsistent-of_Ends new_mp new_sp old_mp old_sp (value (failed _)) w h = h
IsConsistent-of_Ends new_mp new_sp old_mp old_sp dead w h = h

commit-Ends :
    (has_keychain : Bool) (plan : CommitPlan) (w : World)
    → plan.ok ≡ true
    → w.journal ≡ none
    → NoneRefused (reads plan.mp_candidate (reads plan.sp_candidate 0)) w.io
    → Ends
        (Committed plan.mp_candidate plan.sp_candidate w.mp w.sp)
        (IsConsistent plan.mp_candidate plan.sp_candidate w.mp w.sp)
        (commit has_keychain plan w).0
        (commit has_keychain plan w).1
commit-Ends has_keychain plan w ok quiet readable =
    subst
      (λ r.
        Ends (Committed plan.mp_candidate plan.sp_candidate w.mp w.sp)
          (IsConsistent plan.mp_candidate plan.sp_candidate w.mp w.sp) r.0 r.1)
      (commit-eq-commit_valid has_keychain plan w ok)
      ((commit_valid-Triple has_keychain plan w.mp w.sp).at w ((quiet, (refl, refl)), readable))

-- Whichever calls of a save are refused and wherever its process ends, the next start leaves no
-- journal and both files as before or both as the save wants them; provided that the save could
-- read the old files, and that no journal of an earlier save was left.
pub commit_then_recover :
    (has_keychain : Bool) (plan : CommitPlan) (w : World)
    → plan.ok ≡ true
    → w.journal ≡ none
    → NoneRefused (reads plan.mp_candidate (reads plan.sp_candidate 0)) w.io
    → ((recover (restart (commit has_keychain plan w).1)).0 ≡ value true)
      × IsSettled plan.mp_candidate plan.sp_candidate w.mp w.sp
          (recover (restart (commit has_keychain plan w).1)).1
commit_then_recover has_keychain plan w ok quiet readable =
    recover-IsSettled plan.mp_candidate plan.sp_candidate w.mp w.sp
      (restart (commit has_keychain plan w).1) refl
      (IsConsistent-of_Ends plan.mp_candidate plan.sp_candidate w.mp w.sp _ _
        (commit-Ends has_keychain plan w ok quiet readable))

-- A save that is reported as done has installed each file that takes part and left the other alone.
pub commit_saved :
    (has_keychain : Bool) (plan : CommitPlan) (w : World)
    → plan.ok ≡ true
    → w.journal ≡ none
    → NoneRefused (reads plan.mp_candidate (reads plan.sp_candidate 0)) w.io
    → (commit has_keychain plan w).0 ≡ value saved
    → IsNew plan.mp_candidate plan.sp_candidate w.mp w.sp (commit has_keychain plan w).1
commit_saved has_keychain plan w ok quiet readable done_ =
    (rw done_ at (commit-Ends has_keychain plan w ok quiet readable)).1

-- A save in which the old text cannot be read, the journal is written, and the new text is refused.
abbrev pub unreadable : World → World
unreadable w = record w { io = refused ∷ done ∷ refused ∷ [] }

-- An old file that cannot be read counts as missing: where the save of a new text is then refused,
-- the rollback deletes the file, whatever it held.
pub unreadable_file_lost :
    (has_keychain : Bool) (new old : Text) (sets : List (ℕ × Text)) (dels : List Deletion)
    (w : World)
    → w.mp ≡ some old
    → ((commit has_keychain
          (record {
            ok = true;
            mp_candidate = some new;
            sp_candidate = none;
            keychain_sets = sets;
            keychain_dels = dels;
          })
          (unreadable w)).0
        ≡ value (failed mp))
      × ((commit has_keychain
            (record {
              ok = true;
              mp_candidate = some new;
              sp_candidate = none;
              keychain_sets = sets;
              keychain_dels = dels;
            })
            (unreadable w)).1.mp
          ≡ none)
unfolding commit read_payload current_text commit_payload install rollback ◌>>=◌
unreadable_file_lost has_keychain new old sets dels w held = (refl, refl)
