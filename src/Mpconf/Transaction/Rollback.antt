-- ===== src/Mpconf/Transaction/Rollback.antt =====
-- The files and the journal while `_rollback` of mpconf/config_state.py undoes a payload.
use magic_ai_router.Prelude.{◌≡◌, Bool, true, false, Option, none, some, Text, arith}
use magic_ai_router.Mpconf.Transaction.Run.{World, pure}
use magic_ai_router.Mpconf.Transaction.Run.Triple.{
  Triple, Triple-pure, Triple-bind, Triple-call, Triple-pure_bind,
}
use magic_ai_router.Mpconf.Transaction.{
  install_mp, install_sp, write_journal, put_back, drop_journal, rollback,
}
use magic_ai_router.Mpconf.Transaction.Install.{IsConsistent, CanRollback, IsOld, kept, payload}

module _ (new_mp new_sp old_mp old_sp : Option Text) where
  -- Within a rollback the first file is old again.
  abbrev pub HalfBack : Bool → World → Type 0
  HalfBack true w = CanRollback new_mp new_sp old_mp old_sp w × (w.mp ≡ old_mp)
  HalfBack false w = IsConsistent new_mp new_sp old_mp old_sp w

  abbrev pub Back : Bool → World → Type 0
  Back true w = CanRollback new_mp new_sp old_mp old_sp w × IsOld new_mp new_sp old_mp old_sp w
  Back false w = IsConsistent new_mp new_sp old_mp old_sp w

  -- After a rollback that put both files back, and after any other.
  abbrev pub RolledBack : Bool → World → Type 0
  RolledBack true w =
      IsConsistent new_mp new_sp old_mp old_sp w × IsOld new_mp new_sp old_mp old_sp w
  RolledBack false w = IsConsistent new_mp new_sp old_mp old_sp w

put_back_mp-Triple :
    (new_mp new_sp old_mp old_sp : Option Text)
    → Triple
        (CanRollback new_mp new_sp old_mp old_sp)
        (put_back (kept new_mp old_mp) install_mp)
        (HalfBack new_mp new_sp old_mp old_sp)
        (IsConsistent new_mp new_sp old_mp old_sp)
unfolding put_back
put_back_mp-Triple none new_sp old_mp old_sp = Triple-pure true (λ w h. ground arith)
put_back_mp-Triple (some t) new_sp old_mp old_sp =
    Triple-call (λ w. record w { mp = old_mp }) (λ w io h. ground arith) (λ w io h. ground arith)
      (λ w io h. ground arith)

put_back_sp-Triple :
    (new_mp new_sp old_mp old_sp : Option Text)
    → Triple
        (HalfBack new_mp new_sp old_mp old_sp true)
        (put_back (kept new_sp old_sp) install_sp)
        (Back new_mp new_sp old_mp old_sp)
        (IsConsistent new_mp new_sp old_mp old_sp)
unfolding put_back
put_back_sp-Triple new_mp none old_mp old_sp = Triple-pure true (λ w h. ground arith)
put_back_sp-Triple new_mp (some t) old_mp old_sp =
    Triple-call (λ w. record w { sp = old_sp }) (λ w io h. ground arith) (λ w io h. ground arith)
      (λ w io h. ground arith)

module _ (new_mp new_sp old_mp old_sp : Option Text) where
  abbrev pub Sound : World → Type 0
  Sound = IsConsistent new_mp new_sp old_mp old_sp

  drop_journal-Triple :
      Triple
        (Back new_mp new_sp old_mp old_sp true)
        drop_journal
        (RolledBack new_mp new_sp old_mp old_sp)
        Sound
  unfolding drop_journal
  drop_journal-Triple =
      Triple-bind {R = λ b. RolledBack new_mp new_sp old_mp old_sp true} (write_journal none)
        (λ _. pure true)
        (Triple-call (λ w. record w { journal = none }) (λ w io h. ground arith)
          (λ w io h. ground arith) (λ w io h. ground arith))
        (λ b. Triple-pure true (λ w h. h))

  pub rollback-Triple :
      Triple
        (CanRollback new_mp new_sp old_mp old_sp)
        (rollback (payload new_mp new_sp old_mp old_sp))
        (RolledBack new_mp new_sp old_mp old_sp)
        Sound
  unfolding rollback
  rollback-Triple =
      Triple-bind (put_back (kept new_mp old_mp) install_mp) _
        (put_back_mp-Triple new_mp new_sp old_mp old_sp)
        (elim [
          | true ↦
              Triple-bind (put_back (kept new_sp old_sp) install_sp) _
                (put_back_sp-Triple new_mp new_sp old_mp old_sp)
                (elim [ true ↦ drop_journal-Triple | false ↦ Triple-pure false (λ w h. h) ])
          | false ↦ Triple-pure_bind false _ (Triple-pure false (λ w h. h))
        ])
