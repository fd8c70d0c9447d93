-- ===== src/Mpconf/Transaction/Reads.antt =====
-- The old texts that `commit` of mpconf/config_state.py keeps in its payload.
use magic_ai_router.Prelude.{ℕ, suc, ◌≡◌, refl, true, false, Option, none, some, Text}
use magic_ai_router.Mpconf.Transaction.Run.{World, call, gets}
use magic_ai_router.Mpconf.Transaction.Run.Triple.{
  Triple, Triple-pure, Triple-bind, Triple-gets, Triple-unrefused, Triple-given, NoneRefused,
}
use magic_ai_router.Mpconf.Transaction.Install.{payload, kept}
use magic_ai_router.Mpconf.Transaction.{CommitPlan, current_text, old_text, read_payload}

-- The calls that read a side.
abbrev pub reads : Option Text → ℕ → ℕ
reads none n = n
reads (some _) n = suc n

module _ (old_mp old_sp : Option Text) where
  abbrev pub Untouched : World → Type 0
  Untouched w = (w.journal ≡ none) × ((w.mp ≡ old_mp) × (w.sp ≡ old_sp))

  abbrev Before : ℕ → World → Type 0
  Before n w = Untouched w × NoneRefused n w.io

  module _ (file : World → Option Text) (old : Option Text)
      (is : (w : World) → Untouched w → file w ≡ old) where
    current_text-Triple :
        (n : ℕ)
        → Triple (Before (suc n)) (current_text file) (λ t w. (t ≡ old) × Before n w) Untouched
    unfolding current_text
    current_text-Triple n =
        Triple-bind {R = λ b w. (b ≡ true) × Before n w} (call (λ w. w)) _
          (Triple-unrefused n (λ w. w) (λ w io h r. (refl, (h, r))) (λ w io h. h))
          (elim [
            | true ↦
                Triple-bind {R = λ t w. (t ≡ old) × Before n w} (gets file) _
                  (Triple-gets file (λ w h. (is w h.1.0, h.1))) (λ t. Triple-pure t (λ w h. h))
            | false ↦ record { at = λ w h. cc (h.0) }
          ])

    old_text-Triple :
        (n : ℕ) (candidate : Option Text)
        → Triple
            (Before (reads candidate n))
            (old_text candidate file)
            (λ t w. (t ≡ kept candidate old) × Before n w)
            Untouched
    unfolding old_text
    old_text-Triple n none = Triple-pure none (λ w h. (refl, h))
    old_text-Triple n (some t) =
        Triple-bind (current_text file) _ (current_text-Triple n)
          (λ text. Triple-pure (some text) (λ w h. (cc (h.0), h.1)))

  pub read_payload-Triple :
      (plan : CommitPlan)
      → Triple
          (Before (reads plan.mp_candidate (reads plan.sp_candidate 0)))
          (read_payload plan)
          (λ p w. (p ≡ payload plan.mp_candidate plan.sp_candidate old_mp old_sp) × Untouched w)
          Untouched
  unfolding read_payload
  read_payload-Triple plan =
      Triple-bind (old_text plan.mp_candidate (λ w. w.mp)) _
        (old_text-Triple (λ w. w.mp) old_mp (λ w h. h.1.0) (reads plan.sp_candidate 0)
          plan.mp_candidate)
        (λ m. Triple-given _ (λ is_m.
          Triple-bind (old_text plan.sp_candidate (λ w. w.sp)) _
            (old_text-Triple (λ w. w.sp) old_sp (λ w h. h.1.1) 0 plan.sp_candidate)
            (λ s. Triple-pure _ (λ w h. (cc (is_m, h.0), h.1.0)))))
