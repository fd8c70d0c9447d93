-- ===== src/Mpconf/Transaction/Run/Triple.antt =====
-- Rules for what holds after a run, one for each way to build a `Proc`.
use magic_ai_router.Prelude.{
  ℕ, zero, suc, ◌≡◌, refl, Bool, true, false, List, [], ◌∷◌, if◌then◌else◌,
}
use magic_ai_router.Mpconf.Transaction.Run.{
  Io, done, refused, killed, World, Ended, value, dead, Proc, pure, continue, call, call_with, gets,
  ◌>>=◌,
}

abbrev pub Ends : {A : Type 0} → (A → World → Type 0) → (World → Type 0) → Ended A → World → Type 0
Ends Q D (value a) w = Q a w
Ends Q D dead w = D w

-- The first `n` calls are not refused: they are done, or the process ends.
abbrev pub NoneRefused : ℕ → List Io → Type 0
NoneRefused zero io = Unit
NoneRefused (suc n) [] = Unit
NoneRefused (suc n) (done ∷ io) = NoneRefused n io
NoneRefused (suc n) (killed ∷ io) = Unit
NoneRefused (suc n) (refused ∷ io) = ⊥

NoneRefused-nil : (n : ℕ) → NoneRefused n []
NoneRefused-nil zero = tt
NoneRefused-nil (suc n) = tt

-- From a state in `P` the run ends with a value and a state in `Q`, or is killed in one in `D`.
pub record Triple {A : Type 0} (P : World → Type 0) (m : Proc A) (Q : A → World → Type 0)
    (D : World → Type 0) : Type 0 where
  pub at : (w : World) → P w → Ends Q D (m w).0 (m w).1

module _ {P D : World → Type 0} where
  pub Triple-pure :
      {A : Type 0} {Q : A → World → Type 0} (a : A)
      → ((w : World) → P w → Q a w)
      → Triple P (pure a) Q D
  unfolding pure
  Triple-pure a h = record { at = h }

  pub Triple-bind :
      {A B : Type 0} {R : A → World → Type 0} {Q : B → World → Type 0} (m : Proc A) (f : A → Proc B)
      → Triple P m R D
      → ((a : A) → Triple (R a) (f a) Q D)
      → Triple P (m >>= f) Q D
  unfolding ◌>>=◌
  Triple-bind {A} {R} {Q} m f h k = record { at = λ w p. go (m w).0 (m w).1 (h.at w p) }
    where
      go : (r : Ended A) (w : World) → Ends R D r w → Ends Q D (continue r f w).0 (continue r f w).1
      go (value a) w e = (k a).at w e
      go dead w e = e

  pub Triple-call :
      {Q : Bool → World → Type 0} (effect : World → World)
      → ((w : World) (io : List Io) → P w → Q true (effect (record w { io = io })))
      → ((w : World) (io : List Io) → P w → Q false (record w { io = io }))
      → ((w : World) (io : List Io) → P w → D (record w { io = io }))
      → Triple P (call effect) Q D
  unfolding call
  Triple-call {Q} effect yes_ no_ stop = record { at = λ w p. go w.io w p }
    where
      go :
          (io : List Io) (w : World)
          → P w
          → Ends Q D (call_with io effect w).0 (call_with io effect w).1
      go [] w p = yes_ w w.io p
      go (done ∷ io) w p = yes_ w io p
      go (refused ∷ io) w p = no_ w io p
      go (killed ∷ io) w p = stop w io p

  pub Triple-if :
      {A : Type 0} {Q : A → World → Type 0} (b : Bool) (m n : Proc A)
      → (b ≡ true → Triple P m Q D)
      → (b ≡ false → Triple P n Q D)
      → Triple P (if b then m else n) Q D
  Triple-if true m n h k = h refl
  Triple-if false m n h k = k refl

  pub Triple-pure_bind :
      {A B : Type 0} {Q : B → World → Type 0} (a : A) (f : A → Proc B)
      → Triple P (f a) Q D
      → Triple P (pure a >>= f) Q D
  unfolding ◌>>=◌
  Triple-pure_bind a f h = record { at = h.at }

  pub Triple-weaken :
      {A : Type 0} {P' D' : World → Type 0} {Q Q' : A → World → Type 0} (m : Proc A)
      → ((w : World) → P' w → P w)
      → ((a : A) (w : World) → Q a w → Q' a w)
      → ((w : World) → D w → D' w)
      → Triple P m Q D
      → Triple P' m Q' D'
  Triple-weaken {A} {D'} {Q} {Q'} m before after stop h = record {
    at = λ w p. go (m w).0 (m w).1 (h.at w (before w p));
  }
    where
      go : (r : Ended A) (w : World) → Ends Q D r w → Ends Q' D' r w
      go (value a) w e = after a w e
      go dead w e = stop w e

  pub Triple-gets :
      {A : Type 0} {Q : A → World → Type 0} (f : World → A)
      → ((w : World) → P w → Q (f w) w)
      → Triple P (gets f) Q D
  unfolding gets
  Triple-gets f h = record { at = h }

  -- A call of which it is known that it is not refused.
  pub Triple-unrefused :
      {Q : Bool → World → Type 0} (n : ℕ) (effect : World → World)
      → ((w : World) (io : List Io)
          → P w
          → NoneRefused n io
          → Q true (effect (record w { io = io })))
      → ((w : World) (io : List Io) → P w → D (record w { io = io }))
      → Triple (λ w. P w × NoneRefused (suc n) w.io) (call effect) Q D
  unfolding call
  Triple-unrefused {Q} n effect yes_ stop = record { at = λ w p. go w.io w refl p.0 p.1 }
    where
      go :
          (io : List Io) (w : World)
          → w.io ≡ io
          → P w
          → NoneRefused (suc n) io
          → Ends Q D (call_with io effect w).0 (call_with io effect w).1
      go [] w e p r = yes_ w w.io p (rw e (NoneRefused-nil n))
      go (done ∷ io) w e p r = yes_ w io p r
      go (refused ∷ io) w e p r = absurd r
      go (killed ∷ io) w e p r = stop w io p

  -- A fact that needs no state.
  pub Triple-given :
      {A F : Type 0} {Q : A → World → Type 0} (m : Proc A)
      → (F → Triple P m Q D)
      → Triple (λ w. F × P w) m Q D
  Triple-given m h = record { at = λ w p. (h p.0).at w p.1 }
