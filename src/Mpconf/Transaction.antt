-- ===== src/Mpconf/Transaction.antt =====
-- mpconf/config_state.py, `ConfigStateStore.commit` and `recover`: one save changes two files and
-- the keychain, with a journal. A call of the operating system may succeed, be refused, or find the
-- process killed; which of these happens is an input. The candidates are the texts that
-- `json.dumps` and `yaml.safe_dump` make of them, and a journal is what `json.load` reads of it.
pub mod Run
pub mod Install
mod Rollback
mod Reads
pub mod Atomic
pub mod Secrets
use magic_ai_router.Prelude.{
  ℕ, Bool, true, false, not, ◌&&◌, ◌||◌, Option, none, some, List, [], ◌∷◌, ◌++◌, Text, is_some,
  if◌then◌else◌,
}
use magic_ai_router.Mpconf.Transaction.Run.{
  Io, World, Payload, Journal, valid, corrupt, KeychainCall, set_password, delete_password,
  delete_sudo_password, delete_legacy_password, committed, Proc, Ended, value, dead, pure, call,
  gets, ◌>>=◌, ◌>>◌,
}

pub data Stage : Type 0 where
  validate journal mp sp keychain : Stage

-- `SaveResult`: `saved`, or the stage that failed.
pub data SaveResult : Type 0 where
  saved : SaveResult
  failed : Stage → SaveResult

-- `("all", tunnel)` or `("legacy-only", tunnel)`; a tunnel is known by a number.
pub data Deletion : Type 0 where
  all legacy_only : ℕ → Deletion

pub record CommitPlan : Type 0 where
  pub ok : Bool
  pub mp_candidate : Option Text
  pub sp_candidate : Option Text
  pub keychain_sets : List (ℕ × Text)
  pub keychain_dels : List Deletion

abbrev pub install_mp : Option Text → Proc Bool
install_mp text = call (λ w. record w { mp = text })

abbrev pub install_sp : Option Text → Proc Bool
install_sp text = call (λ w. record w { sp = text })

abbrev pub write_journal : Option Journal → Proc Bool
write_journal j = call (λ w. record w { journal = j })

-- `_current_text`: every failure to read counts as a file that is not there.
unfoldable pub current_text : (World → Option Text) → Proc (Option Text)
current_text file = do read ← call (λ w. w); text ← gets file; pure (if read then text else none)

-- The old text of a side that takes part in the transaction.
old_text : Option Text → (World → Option Text) → Proc (Option (Option Text))
old_text none file = pure none
old_text (some _) file = do text ← current_text file; pure (some text)

unfoldable pub read_payload : CommitPlan → Proc Payload
unfolding old_text
read_payload plan = do
  mp_old ← old_text plan.mp_candidate (λ w. w.mp)
  sp_old ← old_text plan.sp_candidate (λ w. w.sp)
  pure (record { mp = plan.mp_candidate; sp = plan.sp_candidate; mp_old = mp_old; sp_old = sp_old })

-- One side of a rollback: nothing to do for a side that took no part.
unfoldable pub put_back : Option (Option Text) → (Option Text → Proc Bool) → Proc Bool
put_back none install = pure true
put_back (some text) install = install text

-- `os.unlink(self.journal_path)` at the end of a rollback, whose refusal is passed over.
drop_journal : Proc Bool
drop_journal = do write_journal none; pure true

-- `_rollback`; `false` where a file could not be put back, and the journal stays.
unfoldable pub rollback : Payload → Proc Bool
unfolding put_back drop_journal
rollback p = do
  mp_back ← put_back p.mp_old install_mp
  sp_back ← if mp_back then put_back p.sp_old install_sp else pure false
  if sp_back then drop_journal else pure false

unfoldable pub install_side : Option Text → (Option Text → Proc Bool) → Proc Bool
install_side none install = pure true
install_side (some text) install = install (some text)

install_journal : Payload → Proc Bool
install_journal p =
    if is_some p.mp || is_some p.sp then write_journal (some (valid p)) else pure true

install_sp_or : Payload → Proc (Option Stage)
unfolding install_side
install_sp_or p = do sp_in ← install_side p.sp install_sp; pure (if sp_in then none else some sp)

install_mp_or : Payload → Proc (Option Stage)
unfolding install_side install_sp_or
install_mp_or p = do
  mp_in ← install_side p.mp install_mp
  if mp_in then install_sp_or p else pure (some mp)

-- The journal, then the files; the stage that was refused.
unfoldable pub install : Payload → Proc (Option Stage)
unfolding install_journal install_mp_or
install p = do written ← install_journal p; if written then install_mp_or p else pure (some journal)

abbrev log_call : KeychainCall → Proc Bool
log_call c = call (λ w. record w { log = w.log ++ c ∷ [] })

-- The first password that cannot be stored ends the loop.
unfoldable pub run_sets : List (ℕ × Text) → Proc Bool
run_sets [] = pure true
run_sets ((tunnel, pw) ∷ sets) = do
  stored ← log_call (set_password tunnel pw)
  elim stored [ true ↦ run_sets sets | false ↦ pure false ]

abbrev run_deletion : Deletion → Proc Bool
run_deletion (all tunnel) = do
  deleted ← log_call (delete_password tunnel)
  log_call (delete_sudo_password tunnel)
  pure deleted
run_deletion (legacy_only tunnel) = log_call (delete_legacy_password tunnel)

-- All deletions are tried, and whether each of them succeeded.
unfoldable pub run_dels : List Deletion → Proc Bool
run_dels [] = pure true
run_dels (d ∷ dels) = do deleted ← run_deletion d; rest ← run_dels dels; pure (deleted && rest)

unfoldable pub run_keychain : Bool → CommitPlan → Proc Bool
run_keychain false plan = pure true
run_keychain true plan = do
  stored ← run_sets plan.keychain_sets
  elim stored [ true ↦ run_dels plan.keychain_dels | false ↦ pure false ]

clear_found : Option Journal → Proc (Unit {0})
clear_found none = pure tt
clear_found (some _) = do write_journal none; pure tt

-- `os.path.exists`, `os.unlink`, and a refusal is passed over.
unfoldable pub clear_journal : Proc (Unit {0})
unfolding clear_found
clear_journal w = clear_found w.journal w

-- `on_committed`, whose exceptions are only logged
unfoldable pub notify : Proc (Unit {0})
notify w = (value tt, record w { log = w.log ++ committed ∷ [] })

unfoldable pub finish : Payload → Bool → Proc SaveResult
finish p true = do clear_journal; notify; pure saved
finish p false = do rollback p; pure (failed keychain)

-- `has_keychain` says that the store was made with one.
unfoldable pub commit_payload : Bool → CommitPlan → Payload → Proc SaveResult
commit_payload has_keychain plan p = do
  refused ← install p
  elim refused [
    | some stage ↦ (do rollback p; pure (failed stage))
    | none ↦ (do secrets ← run_keychain has_keychain plan; finish p secrets)
  ]

commit_valid : Bool → CommitPlan → Proc SaveResult
commit_valid has_keychain plan = do p ← read_payload plan; commit_payload has_keychain plan p

unfoldable pub commit : Bool → CommitPlan → Proc SaveResult
unfolding commit_valid
commit has_keychain plan =
    if plan.ok then commit_valid has_keychain plan else pure (failed validate)

replay : Payload → Proc Bool
unfolding install_side
replay p = do
  mp_in ← install_side p.mp install_mp
  sp_in ← if mp_in then install_side p.sp install_sp else pure false
  if sp_in then write_journal none else pure false

recover_from : Option Journal → Proc Bool
unfolding replay
recover_from none = pure true
recover_from (some corrupt) = do write_journal none; pure true
recover_from (some (valid p)) = replay p

-- `recover`, with a journal that can be opened.
unfoldable pub recover : Proc Bool
unfolding recover_from
recover w = recover_from w.journal w
