-- ===== src/Shared/SubprocessMonitor/Lifecycle.antt =====
-- The status of shared/subprocess_monitor.py is true of its process, and its log is bounded.
use magic_ai_router.Prelude.{
  ℕ, ◌≤◌, ◌-◌, ◌≡◌, Bool, Option, List, [], ◌∷◌, ◌++◌, Text, length, length-drop, rstrip, is_some,
  arith,
}
use magic_ai_router.Json.{ℤ}
use magic_ai_router.Shared.SubprocessMonitor.{
  SubprocessMonitor, is_active, kept_lines, set_error, Popen, opened, not_opened, start_process,
  read_line, stop, check,
}

-- What can happen to a monitor but for `set_status`, which the flow of the host key uses.
pub data Event : Type 0 where
  launched : Text → ℕ → Popen → Event
  line : Text → Event
  halted : Bool → Event
  checked : Option ℤ → Bool → Event
  error_set : Text → Event

-- A process is there exactly while the status is an active one; and the log has at most 100 lines.
pub record IsTrue (m : SubprocessMonitor) : Type 0 where
  pub alive : is_some m.process ≡ is_active m.status
  pub bounded : length m.log_lines ≤ 100

length-kept_lines : (lines : List Text) → length (kept_lines lines) ≤ 100
length-kept_lines lines = let rest = length-drop (length lines - 100) lines in omega arith

read_line-IsTrue : (text : Text) (m : SubprocessMonitor) → IsTrue m → IsTrue (read_line text m)
unfolding read_line
read_line-IsTrue text m t = go (rstrip text)
  where
    go :
        (s : Text)
        → IsTrue (elim s [
          | [] ↦ m
          | c ∷ decoded ↦ record m { log_lines = kept_lines (m.log_lines ++ (c ∷ decoded) ∷ []) }
        ])
    go [] = t
    go (c ∷ decoded) = record {
      alive = t.alive;
      bounded = length-kept_lines (m.log_lines ++ (c ∷ decoded) ∷ []);
    }

module _ (text_of : ℤ → Text) (name : Text) where
  unfoldable pub step : Event → SubprocessMonitor → SubprocessMonitor
  step (launched cmd now popen) m = (start_process cmd now popen m).0
  step (line text) m = read_line text m
  step (halted exits) m = (stop exits m).0
  step (checked poll ready) m = check text_of name poll ready m
  step (error_set msg) m = set_error msg m

  unfoldable pub run : List Event → SubprocessMonitor → SubprocessMonitor
  run [] m = m
  run (e ∷ es) m = run es (step e m)

  check-IsTrue :
      (poll : Option ℤ) (ready : Bool) (m : SubprocessMonitor)
      → IsTrue m
      → IsTrue (check text_of name poll ready m)
  unfolding check
  check-IsTrue poll ready m t = ground arith

  step-IsTrue : (e : Event) (m : SubprocessMonitor) → IsTrue m → IsTrue (step e m)
  unfolding step start_process stop set_error
  step-IsTrue (launched cmd now (opened process)) m t = ground arith
  step-IsTrue (launched cmd now (not_opened msg)) m t = ground arith
  step-IsTrue (line text) m t = read_line-IsTrue text m t
  step-IsTrue (halted exits) m t = ground arith
  step-IsTrue (checked poll ready) m t = check-IsTrue poll ready m t
  step-IsTrue (error_set msg) m t = ground arith

  -- After any starts, lines, stops and checks, whatever the system answered, a process is there
  -- exactly while the status is starting or running, and the log has at most 100 lines.
  pub run-IsTrue : (es : List Event) (m : SubprocessMonitor) → IsTrue m → IsTrue (run es m)
  unfolding run
  run-IsTrue [] m t = t
  run-IsTrue (e ∷ es) m t = run-IsTrue es (step e m) (step-IsTrue e m t)
