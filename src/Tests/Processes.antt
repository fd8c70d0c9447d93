-- ===== src/Tests/Processes.antt =====
-- A process that shared/subprocess_monitor.py watches.
use magic_ai_router.Prelude.{
  ◌≡◌, refl, true, false, none, some, List, [], ◌∷◌, Text, codes, rstrip, arith,
}
use magic_ai_router.Json.{ℤ, pos}
use magic_ai_router.Shared.SubprocessMonitor.{
  error, running, init, log, terminate, kill, set_status, set_error, opened, not_opened,
  start_process, read_line, stop, exit_message, check,
}
use magic_ai_router.Shared.SubprocessMonitor.Lifecycle.{
  Event, launched, line, checked, IsTrue, step, run, run-IsTrue,
}

processes : Unit {0}
unfolding set_status set_error start_process read_line stop exit_message check step run rstrip
processes = tt

abbrev text_of : ℤ → Text
text_of n = codes "1"

abbrev life : List Event
life = launched (codes "ssh h") 5 (opened 7) ∷ line (codes "hi\n") ∷ checked none true ∷ []

abbrev name : Text
name = codes "SSH"

run_tests :
    ((run text_of name life init).status ≡ running)
    × ((run text_of name (checked (some (pos 1)) true ∷ []) (run text_of name life init)).error_msg
        ≡ codes "hi")
    × (log (run text_of name life init) ≡ codes "hi")
    × ((stop false (run text_of name life init)).1 ≡ terminate 7 ∷ kill 7 ∷ [])
    × ((start_process name 5 (not_opened (codes "no")) init).0.status ≡ error)
unfolding processes
run_tests = (refl, refl, refl, refl, refl)

init-IsTrue : IsTrue init
init-IsTrue = ground arith

run-IsTrue_example : IsTrue (run text_of name life init)
run-IsTrue_example = run-IsTrue text_of name life init init-IsTrue
