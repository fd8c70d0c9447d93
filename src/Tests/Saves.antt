-- ===== src/Tests/Saves.antt =====
-- Saves of mpconf/config_state.py in which a call is refused or the process ends.
use magic_ai_router.Prelude.{◌≡◌, refl, true, none, some, List, [], ◌∷◌, codes, is_some}
use magic_ai_router.Mpconf.Transaction.Run.{
  Io, done, refused, killed, World, value, dead, pure, gets, call, ◌>>=◌, restart, set_password,
  delete_password, committed, delete_sudo_password,
}
use magic_ai_router.Mpconf.Transaction.{
  mp, sp, saved, failed, all, CommitPlan, current_text, read_payload, put_back, rollback,
  install_side, install, run_sets, run_dels, run_keychain, clear_journal, notify, finish,
  commit_payload, commit, recover,
}
use magic_ai_router.Mpconf.Transaction.Atomic.{
  IsSettled, commit_then_recover, commit_saved, unreadable, unreadable_file_lost,
}
use magic_ai_router.Mpconf.Transaction.Install.{IsNew}
use magic_ai_router.Mpconf.Transaction.Secrets.{InOrder, commit-InOrder}

saves : Unit {0}
unfolding pure gets call ◌>>=◌ current_text read_payload put_back rollback install_side install
    run_sets run_dels run_keychain clear_journal notify finish commit_payload commit recover
saves = tt

abbrev plan : CommitPlan
plan = record {
  ok = true;
  mp_candidate = some (codes "m2");
  sp_candidate = some (codes "s2");
  keychain_sets = (1, codes "pw") ∷ [];
  keychain_dels = all 2 ∷ [];
}

abbrev before : List Io → World
before io = record { mp = some (codes "m1"); sp = none; journal = none; log = []; io = io }

-- Both files are read, the journal and the first file are written, and the second is refused.
abbrev half_way : List Io
half_way = done ∷ done ∷ done ∷ done ∷ refused ∷ []

-- The same, and the process ends there.
abbrev cut_off : List Io
cut_off = done ∷ done ∷ done ∷ done ∷ killed ∷ []

commit_tests :
    ((commit true plan (before [])).0 ≡ value saved)
    × ((commit true plan (before [])).1.log
        ≡ set_password 1 (codes "pw") ∷ delete_password 2 ∷ delete_sudo_password 2 ∷ committed ∷ [])
    × ((commit true plan (before half_way)).0 ≡ value (failed sp))
    × ((commit true plan (before half_way)).1.mp ≡ some (codes "m1"))
    × ((commit true plan (before cut_off)).0 ≡ dead)
    × (is_some (commit true plan (before cut_off)).1.journal ≡ true)
    × ((recover (restart (commit true plan (before cut_off)).1)).1.sp ≡ some (codes "s2"))
unfolding saves
commit_tests = (refl, refl, refl, refl, refl, refl, refl)

commit_then_recover_example :
    ((recover (restart (commit true plan (before cut_off)).1)).0 ≡ value true)
    × IsSettled
        (some (codes "m2"))
        (some (codes "s2"))
        (some (codes "m1"))
        none
        (recover (restart (commit true plan (before cut_off)).1)).1
commit_then_recover_example = commit_then_recover true plan (before cut_off) refl refl tt

commit_saved_example :
    IsNew
      (some (codes "m2"))
      (some (codes "s2"))
      (some (codes "m1"))
      none
      (commit true plan (before [])).1
unfolding saves
commit_saved_example = commit_saved true plan (before []) refl refl tt refl

commit-InOrder_example : InOrder ((1, codes "pw") ∷ []) (commit true plan (before half_way)).1
commit-InOrder_example = commit-InOrder plan (before half_way) refl

-- A save of the first file alone, which is refused after the old text could not be read.
abbrev alone : CommitPlan
alone = record plan { sp_candidate = none; keychain_sets = []; keychain_dels = [] }

unreadable_file_lost_example :
    ((commit true alone (unreadable (before []))).0 ≡ value (failed mp))
    × ((commit true alone (unreadable (before []))).1.mp ≡ none)
unreadable_file_lost_example =
    unreadable_file_lost true (codes "m2") (codes "m1") [] [] (before []) refl
