-- ===== src/Tests/Trust.antt =====
-- Runs of tunnel/host_key_flow.py.
use magic_ai_router.Prelude.{◌≡◌, refl, true, false, [], ◌∷◌, codes}
use magic_ai_router.Shared.SubprocessMonitor.{stopped, error, init, set_status, set_error}
use magic_ai_router.Tunnel.HostKeyFlow.{
  known, asked, failed, World, connect, start_check, finish_check, answer_check, begin_replacement,
  finish_replacement, answer_replacement, cancel, check_started, check_done, check_answered, step,
  run,
}
use magic_ai_router.Tunnel.HostKeyFlow.Stale.{IsIssued}

trust : Unit {0}
unfolding set_status set_error start_check finish_check answer_check begin_replacement
    finish_replacement answer_replacement cancel step run
trust = tt

abbrev fresh : World
fresh = record {
  flow = record { generation = 0; checking = false; change_prompted = false };
  monitor = init;
  issued = [];
  prompts = [];
  calls = [];
}

run_tests :
    ((run (check_started true ∷ check_done 1 known ∷ []) fresh).calls ≡ connect 1 ∷ [])
    × ((run (check_started true ∷ check_done 1 asked ∷ check_answered 1 true ∷ []) fresh).calls
        ≡ connect 1 ∷ [])
    × ((run (check_started true ∷ check_started true ∷ check_done 1 known ∷ []) fresh).calls ≡ [])
    × ((run
          (check_started true ∷ check_done 1 asked ∷ check_answered 1 false ∷ [])
          fresh).monitor.status
        ≡ stopped)
    × ((run (check_started true ∷ check_done 1 (failed (codes "x")) ∷ []) fresh).monitor.status
        ≡ error)
unfolding trust
run_tests = (refl, refl, refl, refl, refl)

fresh-IsIssued : IsIssued fresh
fresh-IsIssued = record { inspections = tt; alerts = tt }

abbrev alerted : World
alerted = record fresh {
  flow = record { generation = 1; checking = false; change_prompted = true };
  issued = 1 ∷ [];
  prompts = 1 ∷ [];
}
