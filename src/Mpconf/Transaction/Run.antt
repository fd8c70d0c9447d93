-- ===== src/Mpconf/Transaction/Run.antt =====
-- Runs of the transactions of mpconf/config_state.py: the files, the journal, the calls of the
-- keychain, and what becomes of each call of the operating system.
pub mod Triple
use magic_ai_router.Prelude.{ℕ, Bool, true, false, Option, none, some, List, [], ◌∷◌, Text}

-- What becomes of a call: it is done, it raises `OSError` and has changed nothing, or the process
-- ends before it.
pub data Io : Type 0 where
  done refused killed : Io

-- `mp_old` is `none` where the side takes no part, and `some none` where the file was not there.
pub record Payload : Type 0 where
  pub mp : Option Text
  pub sp : Option Text
  pub mp_old : Option (Option Text)
  pub sp_old : Option (Option Text)

pub data Journal : Type 0 where
  valid : Payload → Journal
  corrupt : Journal

-- Calls that succeeded, of the keychain and of the callback.
pub data KeychainCall : Type 0 where
  set_password : ℕ → Text → KeychainCall
  delete_password delete_sudo_password delete_legacy_password : ℕ → KeychainCall
  committed : KeychainCall

pub record World : Type 0 where
  pub mp : Option Text
  pub sp : Option Text
  pub journal : Option Journal
  pub log : List KeychainCall
  pub io : List Io

pub data Ended (A : Type 0) : Type 0 where
  value : A → Ended A
  dead : Ended A

abbrev pub Proc : Type 0 → Type 0
Proc A = World → Ended A × World

unfoldable pub pure : {A : Type 0} → A → Proc A
pure a w = (value a, w)

unfoldable pub gets : {A : Type 0} → (World → A) → Proc A
gets f w = (value (f w), w)

abbrev pub continue : {A B : Type 0} → Ended A → (A → Proc B) → Proc B
continue (value a) f w = f a w
continue dead f w = (dead, w)

-- The outcome of one call with the given effect; past the end of the list all calls are done.
call_with : List Io → (World → World) → Proc Bool
call_with [] effect w = (value true, effect w)
call_with (done ∷ io) effect w = (value true, effect (record w { io = io }))
call_with (refused ∷ io) effect w = (value false, record w { io = io })
call_with (killed ∷ io) effect w = (dead, record w { io = io })

unfoldable pub call : (World → World) → Proc Bool
unfolding call_with
call effect w = call_with w.io effect w

infixl 5 ◌>>=◌ ◌>>◌
unfoldable pub ◌>>=◌ : {A B : Type 0} → Proc A → (A → Proc B) → Proc B
unfolding pure call gets
◌>>=◌ m f w = let (r, w') = m w in continue r f w'

abbrev pub ◌>>◌ : {A B : Type 0} → Proc A → Proc B → Proc B
m >> k = m >>= λ _. k

-- The next start of the process, whose calls all succeed.
abbrev pub restart : World → World
restart w = record w { io = [] }
