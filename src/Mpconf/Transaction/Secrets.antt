-- ===== src/Mpconf/Transaction/Secrets.antt =====
-- The order of the keychain's calls in `commit` of mpconf/config_state.py.
use magic_ai_router.Prelude.{
  ℕ, ◌≡◌, refl, ◌∙◌, sym, ap, subst, Bool, true, false, ◌&&◌, ◌||◌, Option, none, some, List, [],
  ◌∷◌, ◌++◌, Text, ◌⊎◌, inl, inr, is_some, All, All-append,
}
use mathlib.Core.List.{append_assoc, append-nil}
use magic_ai_router.Mpconf.Transaction.Run.{
  World, Payload, Journal, valid, Proc, Ended, value, dead, pure, call, gets, ◌>>◌, KeychainCall,
  set_password, delete_password, delete_sudo_password, delete_legacy_password, committed,
}
use magic_ai_router.Mpconf.Transaction.Run.Triple.{
  Ends, Triple, Triple-pure, Triple-bind, Triple-call, Triple-if, Triple-weaken, Triple-gets,
}
use magic_ai_router.Mpconf.Transaction.{
  Stage, SaveResult, saved, failed, keychain, Deletion, all, legacy_only, CommitPlan, install_mp,
  install_sp, write_journal, put_back, drop_journal, rollback, install_side, install_journal,
  install_sp_or, install_mp_or, install, log_call, run_sets, run_dels, run_deletion, run_keychain,
  clear_journal, clear_found, notify, finish, commit_payload, commit_valid, commit, read_payload,
  old_text, current_text,
}

abbrev pub IsStored : KeychainCall → Type 0
IsStored (set_password _ _) = Unit
IsStored _ = ⊥

abbrev pub stored : List (ℕ × Text) → List KeychainCall
stored [] = []
stored ((tunnel, pw) ∷ sets) = set_password tunnel pw ∷ stored sets

-- Whatever does not name the keychain leaves its log alone.
module _ (P : World → Type 0) (stable : (w v : World) → w.log ≡ v.log → P w → P v) where
  call-Triple :
      (effect : World → World)
      → ((w : World) → (effect w).log ≡ w.log)
      → Triple P (call effect) (λ _. P) P
  call-Triple effect same =
      Triple-call effect
        (λ w io h. stable w (effect (record w { io = io })) (sym (same (record w { io = io }))) h)
        (λ w io h. stable w (record w { io = io }) refl h)
        (λ w io h. stable w (record w { io = io }) refl h)

  side-Triple :
      (text : Option Text) (inst : Option Text → Proc Bool)
      → ((t : Option Text) → Triple P (inst t) (λ _. P) P)
      → Triple P (install_side text inst) (λ _. P) P
  unfolding install_side
  side-Triple none inst h = Triple-pure true (λ w p. p)
  side-Triple (some t) inst h = h (some t)

  back-Triple :
      (text : Option (Option Text)) (inst : Option Text → Proc Bool)
      → ((t : Option Text) → Triple P (inst t) (λ _. P) P)
      → Triple P (put_back text inst) (λ _. P) P
  unfolding put_back
  back-Triple none inst h = Triple-pure true (λ w p. p)
  back-Triple (some t) inst h = h t

  mp-Triple : (t : Option Text) → Triple P (install_mp t) (λ _. P) P
  mp-Triple t = call-Triple (λ w. record w { mp = t }) (λ w. refl)

  sp-Triple : (t : Option Text) → Triple P (install_sp t) (λ _. P) P
  sp-Triple t = call-Triple (λ w. record w { sp = t }) (λ w. refl)

  journal-Triple : (j : Option Journal) → Triple P (write_journal j) (λ _. P) P
  journal-Triple j = call-Triple (λ w. record w { journal = j }) (λ w. refl)

  rollback-Triple : (p : Payload) → Triple P (rollback p) (λ _. P) P
  unfolding rollback drop_journal
  rollback-Triple p =
      Triple-bind (put_back p.mp_old install_mp) _ (back-Triple p.mp_old install_mp mp-Triple) (λ b.
        Triple-bind _ _
          (Triple-if b _ (pure false) (λ _. back-Triple p.sp_old install_sp sp-Triple)
            (λ _. Triple-pure false (λ w h. h)))
          (λ c.
            Triple-if c _ (pure false)
              (λ _.
                Triple-bind (write_journal none) _ (journal-Triple none)
                  (λ _. Triple-pure true (λ w h. h)))
              (λ _. Triple-pure false (λ w h. h))))

  install-Triple : (p : Payload) → Triple P (install p) (λ _. P) P
  unfolding install install_journal install_mp_or install_sp_or
  install-Triple p =
      Triple-bind _ _
        (Triple-if (is_some p.mp || is_some p.sp) _ (pure true)
          (λ _. journal-Triple (some (valid p))) (λ _. Triple-pure true (λ w h. h)))
        (λ b.
          Triple-if b _ _
            (λ _.
              Triple-bind (install_side p.mp install_mp) _ (side-Triple p.mp install_mp mp-Triple)
                (λ c.
                  Triple-if c _ _
                    (λ _.
                      Triple-bind (install_side p.sp install_sp) _
                        (side-Triple p.sp install_sp sp-Triple) (λ d. Triple-pure _ (λ w h. h)))
                    (λ _. Triple-pure _ (λ w h. h))))
            (λ _. Triple-pure _ (λ w h. h)))

  text-Triple :
      (file : World → Option Text) (t : Option Text) → Triple P (old_text t file) (λ _. P) P
  unfolding old_text current_text
  text-Triple file none = Triple-pure none (λ w h. h)
  text-Triple file (some t) =
      Triple-bind (current_text file) _
        (Triple-bind (call (λ w. w)) _ (call-Triple (λ w. w) (λ w. refl)) (λ b.
          Triple-bind {R = λ _. P} (gets file) _ (Triple-gets file (λ w h. h))
            (λ s. Triple-pure _ (λ w h. h))))
        (λ s. Triple-pure _ (λ w h. h))

  payload-Triple : (plan : CommitPlan) → Triple P (read_payload plan) (λ _. P) P
  unfolding read_payload
  payload-Triple plan =
      Triple-bind (old_text plan.mp_candidate (λ w. w.mp)) _
        (text-Triple (λ w. w.mp) plan.mp_candidate)
        (λ m.
          Triple-bind (old_text plan.sp_candidate (λ w. w.sp)) _
            (text-Triple (λ w. w.sp) plan.sp_candidate) (λ s. Triple-pure _ (λ w h. h)))

  clear_found-Triple : (j : Option Journal) → Triple P (clear_found j) (λ _. P) P
  unfolding clear_found
  clear_found-Triple none = Triple-pure tt (λ w h. h)
  clear_found-Triple (some _) =
      Triple-bind (write_journal none) _ (journal-Triple none) (λ _. Triple-pure tt (λ w h. h))

  clear_journal-Triple : Triple P clear_journal (λ _. P) P
  unfolding clear_journal
  clear_journal-Triple = record { at = λ w h. (clear_found-Triple w.journal).at w h }

-- Before all passwords are stored the log holds nothing else; afterwards it begins with them all.
abbrev Early : World → Type 0
Early w = All IsStored w.log

abbrev Late : List (ℕ × Text) → World → Type 0
Late sets w = (rest : List KeychainCall) × (w.log ≡ stored sets ++ rest)

-- What the log of a save may be, from an empty log.
abbrev pub InOrder : List (ℕ × Text) → World → Type 0
InOrder sets w = Early w ⊎ Late sets w

-- The loop from the passwords `pre` that it has stored.
abbrev Upto : List KeychainCall → World → Type 0
Upto pre w = w.log ≡ pre

abbrev AfterSets : List KeychainCall → Bool → World → Type 0
AfterSets calls true w = w.log ≡ calls
AfterSets calls false w = Early w

run_sets-Triple :
    (sets : List (ℕ × Text)) (pre : List KeychainCall)
    → All IsStored pre
    → Triple (Upto pre) (run_sets sets) (AfterSets (pre ++ stored sets)) Early
unfolding run_sets
run_sets-Triple [] pre h = Triple-pure true (λ w e. e ∙ sym (append-nil pre))
run_sets-Triple ((tunnel, pw) ∷ sets) pre h =
    Triple-bind {R = AfterSets (pre ++ set_password tunnel pw ∷ [])}
      (log_call (set_password tunnel pw)) _
      (Triple-call (λ w. record w { log = w.log ++ set_password tunnel pw ∷ [] })
        (λ w io e. ap (λ l. l ++ set_password tunnel pw ∷ []) e) (λ w io e. rw e h)
        (λ w io e. rw e h))
      (elim [
        | true ↦ rw (append_assoc pre (set_password tunnel pw ∷ []) (stored sets)) at (
            run_sets-Triple sets (pre ++ set_password tunnel pw ∷ [])
              (All-append IsStored pre _ h (tt, tt)))
        | false ↦ Triple-pure false (λ w e. e)
      ])

Late-call :
    (sets : List (ℕ × Text)) (c : KeychainCall)
    → Triple (Late sets) (log_call c) (λ _. Late sets) (Late sets)
Late-call sets c =
    Triple-call (λ w. record w { log = w.log ++ c ∷ [] })
      (λ w io h. (h.0 ++ c ∷ [], rw h.1 (append_assoc (stored sets) h.0 (c ∷ [])))) (λ w io h. h)
      (λ w io h. h)

run_deletion-Triple :
    (sets : List (ℕ × Text)) (d : Deletion)
    → Triple (Late sets) (run_deletion d) (λ _. Late sets) (Late sets)
run_deletion-Triple sets (all tunnel) =
    Triple-bind (log_call (delete_password tunnel)) _ (Late-call sets (delete_password tunnel))
      (λ b.
        Triple-bind (log_call (delete_sudo_password tunnel)) _
          (Late-call sets (delete_sudo_password tunnel)) (λ _. Triple-pure b (λ w h. h)))
run_deletion-Triple sets (legacy_only tunnel) = Late-call sets (delete_legacy_password tunnel)

run_dels-Triple :
    (sets : List (ℕ × Text)) (dels : List Deletion)
    → Triple (Late sets) (run_dels dels) (λ _. Late sets) (Late sets)
unfolding run_dels
run_dels-Triple sets [] = Triple-pure true (λ w h. h)
run_dels-Triple sets (d ∷ dels) = Triple-bind (run_deletion d) _ (run_deletion-Triple sets d) (λ b.
    Triple-bind (run_dels dels) _ (run_dels-Triple sets dels)
      (λ c. Triple-pure (b && c) (λ w h. h)))

module _ (plan : CommitPlan) where
  abbrev Order : World → Type 0
  Order = InOrder plan.keychain_sets

  abbrev IsEmpty : World → Type 0
  IsEmpty w = w.log ≡ []

  -- The keychain's part: with all its calls done the log begins with the passwords.
  abbrev AfterKeychain : Bool → World → Type 0
  AfterKeychain true w = Late plan.keychain_sets w
  AfterKeychain false w = Order w

  run_keychain-Triple : Triple IsEmpty (run_keychain true plan) AfterKeychain Order
  unfolding run_keychain
  run_keychain-Triple =
      Triple-bind (run_sets plan.keychain_sets) _
        (Triple-weaken _ (λ w h. h) (λ b w h. h) (λ w h. inl h)
          (run_sets-Triple plan.keychain_sets [] tt))
        (elim [
          | true ↦
              Triple-weaken _ (λ w e. ([], e ∙ sym (append-nil _))) late_result (λ w h. inr h)
                (run_dels-Triple plan.keychain_sets plan.keychain_dels)
          | false ↦ Triple-pure false (λ w h. inl h)
        ])
    where
      late_result : (b : Bool) (w : World) → Late plan.keychain_sets w → AfterKeychain b w
      late_result true w h = h
      late_result false w h = inr h

  Order-stable : (w v : World) → w.log ≡ v.log → Order w → Order v
  Order-stable w v e h =
      subst
        (λ l.
          All IsStored l ⊎ ((rest : List KeychainCall) × (l ≡ stored plan.keychain_sets ++ rest)))
        e h

  Late-stable :
      (w v : World) → w.log ≡ v.log → Late plan.keychain_sets w → Late plan.keychain_sets v
  Late-stable w v e h = (h.0, sym e ∙ h.1)

  fail-Triple :
      (stage : Stage) (p : Payload)
      → Triple Order (rollback p >> pure (failed stage)) (λ _. Order) Order
  fail-Triple stage p =
      Triple-bind (rollback p) _ (rollback-Triple Order Order-stable p)
        (λ b. Triple-pure _ (λ w h. h))

  notify-Triple : Triple (Late plan.keychain_sets) notify (λ _. Order) Order
  unfolding notify
  notify-Triple = record {
    at = λ w h. inr (
      h.0 ++ committed ∷ [],
      rw h.1 (append_assoc (stored plan.keychain_sets) h.0 (committed ∷ [])),
    );
  }

  finish-Triple :
      (p : Payload) (b : Bool) → Triple (AfterKeychain b) (finish p b) (λ _. Order) Order
  unfolding finish
  finish-Triple p true =
      Triple-bind clear_journal _
        (Triple-weaken _ (λ w h. h) (λ a w h. h) (λ w h. inr h)
          (clear_journal-Triple (Late plan.keychain_sets) Late-stable))
        (λ _. Triple-bind notify _ notify-Triple (λ _. Triple-pure saved (λ w h. h)))
  finish-Triple p false = fail-Triple keychain p

  Empty_stable : (w v : World) → w.log ≡ v.log → IsEmpty w → IsEmpty v
  Empty_stable w v e h = sym e ∙ h

  Order-of_Empty : (w : World) → IsEmpty w → Order w
  Order-of_Empty w h = inl (rw h tt)

  commit_payload-Triple :
      (p : Payload) → Triple IsEmpty (commit_payload true plan p) (λ _. Order) Order
  unfolding commit_payload
  commit_payload-Triple p =
      Triple-bind (install p) _
        (Triple-weaken _ (λ w h. h) (λ a w h. h) Order-of_Empty
          (install-Triple IsEmpty Empty_stable p))
        (elim [
          | some stage ↦
              Triple-weaken _ Order-of_Empty (λ a w h. h) (λ w h. h) (fail-Triple stage p)
          | none ↦ Triple-bind (run_keychain true plan) _ run_keychain-Triple (finish-Triple p)
        ])

  commit-Triple : Triple IsEmpty (commit true plan) (λ _. Order) Order
  unfolding commit commit_valid
  commit-Triple =
      Triple-if plan.ok _ _
        (λ _.
          Triple-bind (read_payload plan) _
            (Triple-weaken _ (λ w h. h) (λ a w h. h) Order-of_Empty
              (payload-Triple IsEmpty Empty_stable plan))
            commit_payload-Triple)
        (λ _. Triple-pure _ Order-of_Empty)

-- Whichever calls are refused and wherever the process ends, a save of a store with a keychain
-- deletes no password and calls nobody back before it has stored every password of its plan: the
-- log of successful calls holds stored passwords alone, or begins with all of them in their order.
pub commit-InOrder :
    (plan : CommitPlan) (w : World) → w.log ≡ [] → InOrder plan.keychain_sets (commit true plan w).1
commit-InOrder plan w empty = InOrder_of_Ends _ _ ((commit-Triple plan).at w empty)
  where
    InOrder_of_Ends :
        (r : Ended SaveResult) (v : World)
        → Ends (λ _. InOrder plan.keychain_sets) (InOrder plan.keychain_sets) r v
        → InOrder plan.keychain_sets v
    InOrder_of_Ends (value a) v h = h
    InOrder_of_Ends dead v h = h
