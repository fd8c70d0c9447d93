-- ===== src/Mpconf/Transaction/Install.antt =====
-- The files and the journal while `commit` of mpconf/config_state.py installs a payload.
use magic_ai_router.Prelude.{
  ◌≡◌, Bool, true, false, ◌||◌, Option, none, some, Text, ◌⊎◌, arith, is_some,
}
use magic_ai_router.Mpconf.Transaction.Run.{World, Payload, valid, pure}
use magic_ai_router.Mpconf.Transaction.Run.Triple.{
  Triple, Triple-pure, Triple-bind, Triple-call, Triple-if,
}
use magic_ai_router.Mpconf.Transaction.{
  Stage, mp, sp, journal, install_mp, install_sp, write_journal, install_side, install_journal,
  install_sp_or, install_mp_or, install,
}

-- The text of a side after the transaction, and the old text that its payload keeps.
abbrev pub new_text : Option Text → Option Text → Option Text
new_text none old = old
new_text (some t) old = some t

abbrev pub kept : Option Text → Option Text → Option (Option Text)
kept none old = none
kept (some t) old = some old

-- The payload of a transaction over files whose texts are `old_mp` and `old_sp`.
abbrev pub payload : Option Text → Option Text → Option Text → Option Text → Payload
payload new_mp new_sp old_mp old_sp = record {
  mp = new_mp;
  sp = new_sp;
  mp_old = kept new_mp old_mp;
  sp_old = kept new_sp old_sp;
}

module _ (new_mp new_sp old_mp old_sp : Option Text) where
  abbrev pub p : Payload
  p = payload new_mp new_sp old_mp old_sp

  abbrev pub IsOld : World → Type 0
  IsOld w = (w.mp ≡ old_mp) × (w.sp ≡ old_sp)

  abbrev pub IsNew : World → Type 0
  IsNew w = (w.mp ≡ new_text new_mp old_mp) × (w.sp ≡ new_text new_sp old_sp)

  abbrev pub IsMixed : World → Type 0
  IsMixed w =
      ((w.mp ≡ old_mp) ⊎ (w.mp ≡ new_text new_mp old_mp))
      × ((w.sp ≡ old_sp) ⊎ (w.sp ≡ new_text new_sp old_sp))

  -- Without a journal the files belong together; with this transaction's journal each is either.
  abbrev pub IsConsistent : World → Type 0
  IsConsistent w =
      ((w.journal ≡ none) × (IsOld w ⊎ IsNew w)) ⊎ ((w.journal ≡ some (valid p)) × IsMixed w)

  abbrev pub IsFresh : World → Type 0
  IsFresh w = (w.journal ≡ none) × IsOld w

  -- A rollback may begin: nothing is written, or the journal is.
  abbrev pub CanRollback : World → Type 0
  CanRollback w = ((w.journal ≡ none) × IsOld w) ⊎ ((w.journal ≡ some (valid p)) × IsMixed w)

  abbrev pub IsWritten : World → Type 0
  IsWritten w =
      IsNew w
      × ((w.journal ≡ some (valid p)) ⊎ ((w.journal ≡ none) × (new_mp ≡ none) × (new_sp ≡ none)))

  -- Under way: both files old, or the journal is written and the first one may be new.
  abbrev pub IsBegun : World → Type 0
  IsBegun w =
      IsOld w
      × ((w.journal ≡ some (valid p)) ⊎ ((w.journal ≡ none) × (new_mp ≡ none) × (new_sp ≡ none)))

  abbrev pub IsHalf : World → Type 0
  IsHalf w =
      (w.mp ≡ new_text new_mp old_mp)
      × (w.sp ≡ old_sp)
      × ((w.journal ≡ some (valid p)) ⊎ ((w.journal ≡ none) × (new_mp ≡ none) × (new_sp ≡ none)))

  -- What the journal's write leaves behind.
  abbrev pub Journaled : Bool → World → Type 0
  Journaled true w = IsBegun w
  Journaled false w = CanRollback w

  install_journal-Triple : Triple IsFresh (install_journal p) Journaled IsConsistent
  unfolding install_journal
  install_journal-Triple =
      Triple-if (is_some new_mp || is_some new_sp) (write_journal (some (valid p))) (pure true)
        (λ e.
          Triple-call (λ w. record w { journal = some (valid p) }) (λ w io h. ground arith)
            (λ w io h. ground arith) (λ w io h. ground arith))
        (λ e. Triple-pure true (λ w h. ground arith))

  abbrev pub AfterMp : Bool → World → Type 0
  AfterMp true w = IsHalf w
  AfterMp false w = CanRollback w

  abbrev pub AfterInstall : Option Stage → World → Type 0
  AfterInstall none w = IsWritten w
  AfterInstall (some _) w = CanRollback w

  abbrev pub AfterSp : Bool → World → Type 0
  AfterSp true w = IsWritten w
  AfterSp false w = CanRollback w

-- The two sides, by whether they take part.
install_mp-Triple :
    (new_mp new_sp old_mp old_sp : Option Text)
    → Triple
        (IsBegun new_mp new_sp old_mp old_sp)
        (install_side new_mp install_mp)
        (AfterMp new_mp new_sp old_mp old_sp)
        (IsConsistent new_mp new_sp old_mp old_sp)
unfolding install_side
install_mp-Triple none new_sp old_mp old_sp = Triple-pure true (λ w h. ground arith)
install_mp-Triple (some t) new_sp old_mp old_sp =
    Triple-call (λ w. record w { mp = some t }) (λ w io h. ground arith) (λ w io h. ground arith)
      (λ w io h. ground arith)

install_sp-Triple :
    (new_mp new_sp old_mp old_sp : Option Text)
    → Triple
        (IsHalf new_mp new_sp old_mp old_sp)
        (install_side new_sp install_sp)
        (AfterSp new_mp new_sp old_mp old_sp)
        (IsConsistent new_mp new_sp old_mp old_sp)
unfolding install_side
install_sp-Triple new_mp none old_mp old_sp = Triple-pure true (λ w h. ground arith)
install_sp-Triple new_mp (some t) old_mp old_sp =
    Triple-call (λ w. record w { sp = some t }) (λ w io h. ground arith) (λ w io h. ground arith)
      (λ w io h. ground arith)

module _ (new_mp new_sp old_mp old_sp : Option Text) where
  abbrev pub q : Payload
  q = payload new_mp new_sp old_mp old_sp

  abbrev pub Consistent : World → Type 0
  Consistent = IsConsistent new_mp new_sp old_mp old_sp

  install_sp_or-Triple :
      Triple
        (IsHalf new_mp new_sp old_mp old_sp)
        (install_sp_or q)
        (AfterInstall new_mp new_sp old_mp old_sp)
        Consistent
  unfolding install_sp_or
  install_sp_or-Triple =
      Triple-bind (install_side new_sp install_sp) _ (install_sp-Triple new_mp new_sp old_mp old_sp)
        (elim [ true ↦ Triple-pure none (λ w h. h) | false ↦ Triple-pure (some sp) (λ w h. h) ])

  install_mp_or-Triple :
      Triple
        (IsBegun new_mp new_sp old_mp old_sp)
        (install_mp_or q)
        (AfterInstall new_mp new_sp old_mp old_sp)
        Consistent
  unfolding install_mp_or
  install_mp_or-Triple =
      Triple-bind (install_side new_mp install_mp) _ (install_mp-Triple new_mp new_sp old_mp old_sp)
        (elim [ true ↦ install_sp_or-Triple | false ↦ Triple-pure (some mp) (λ w h. h) ])

  pub install-Triple :
      Triple
        (IsFresh new_mp new_sp old_mp old_sp)
        (install q)
        (AfterInstall new_mp new_sp old_mp old_sp)
        Consistent
  unfolding install
  install-Triple =
      Triple-bind (install_journal q) _ (install_journal-Triple new_mp new_sp old_mp old_sp)
        (elim [ true ↦ install_mp_or-Triple | false ↦ Triple-pure (some journal) (λ w h. h) ])
