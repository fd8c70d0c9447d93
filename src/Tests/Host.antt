-- ===== src/Tests/Host.antt =====
-- Ticks of sysctl/sys_proxy_controller.py and of services/gateway_watchdog.py.
use magic_ai_router.Prelude.{
  ℕ, ◌≡◌, refl, true, false, Option, none, some, [], ◌∷◌, codes, arith, map,
}
use magic_ai_router.Sysctl.ProxyController.{
  Applied, applied, not_begun, left_behind, refused, released, SystemProxyController, Tick,
  note_apply, note_release, sync, toggle, quit_cleanup,
}
use magic_ai_router.Sysctl.ProxyController.Ownership.{
  IsOwned, ticked, run, left_behind_released, toggle_loses_snapshot,
}
use magic_ai_router.Sysctl.ProxyController.Convergence.{IsWilling, Converged, sync-Converged}

-- Settings are known by their number, and a snapshot by the settings that it gives back.
abbrev idle : SystemProxyController ℕ ℕ
idle = record {
  on = true;
  applied = false;
  applied_target = none;
  error = [];
  snapshot = none;
  desired = none;
}

abbrev tick_with : Option ℕ → (ℕ → ℕ → Applied ℕ) → Tick ℕ ℕ
tick_with snapshot apply = record {
  connected = true;
  paused = false;
  capture_running = false;
  capture_port = 9090;
  http_listen_port = some 8087;
  take_snapshot = snapshot;
  apply = apply;
  release = λ s d. released;
}

abbrev willing_tick : Tick ℕ ℕ
willing_tick = tick_with (some 7) (λ s port. applied port)

idle-IsOwned : IsOwned idle
idle-IsOwned = ground arith

host : Unit {0}
unfolding note_apply note_release sync toggle quit_cleanup run
host = tt

sync_tests :
    ((sync idle willing_tick).applied_target ≡ some 8087)
    × ((sync idle willing_tick).snapshot ≡ some 7)
    × ((sync (sync idle willing_tick) (record willing_tick { paused = true })).applied ≡ false)
    × ((quit_cleanup (sync idle willing_tick) willing_tick).snapshot ≡ none)
unfolding host
sync_tests = (refl, refl, refl, refl)

abbrev failing_tick : Tick ℕ ℕ
failing_tick = tick_with (some 7) (λ s port. left_behind (codes "x") port)

abbrev denying_tick : Tick ℕ ℕ
denying_tick = record (tick_with (some 7) (λ s port. applied port)) {
  release = λ s d. refused (codes "busy");
}

-- On a change of the port where no journal can be written the controller drops the snapshot of the
-- settings that it has applied, and the next tick takes a new one.
unwritable_journal_test :
    (sync (sync idle willing_tick) (record (tick_with (some 8) (λ s port. not_begun (codes "x"))) {
      http_listen_port = some 9;
    })).snapshot
    ≡ none
unfolding host
unwritable_journal_test = refl

abbrev after_denials : SystemProxyController ℕ ℕ
after_denials = run (map ticked (denying_tick ∷ denying_tick ∷ [])) (sync idle failing_tick)

left_behind_released_example :
    (after_denials.on ≡ false)
    × (after_denials.snapshot ≡ some 7)
    × (after_denials.desired ≡ some 8087)
    × ((sync after_denials willing_tick).applied ≡ false)
    × ((sync after_denials willing_tick).snapshot ≡ none)
left_behind_released_example =
    left_behind_released idle failing_tick 8087 7 (codes "x") 8087 refl refl refl refl refl
      (denying_tick ∷ denying_tick ∷ []) ((codes "busy", refl), ((codes "busy", refl), tt))
      willing_tick refl

abbrev willing : IsWilling willing_tick
willing = record {
  readable = refl;
  settings = λ s port. port;
  applies = λ s port. refl;
  releases = λ s d. refl;
}

sync-Converged_example : Converged idle (sync idle willing_tick) willing_tick
sync-Converged_example = sync-Converged idle willing_tick idle-IsOwned willing

abbrev left : SystemProxyController ℕ ℕ
left = record {
  on = false;
  applied = false;
  applied_target = none;
  error = codes "x";
  snapshot = some 7;
  desired = some 8087;
}

toggle_loses_snapshot_example :
    ((toggle left (tick_with none (λ s port. applied port))).snapshot ≡ none)
    × ((toggle left (tick_with none (λ s port. applied port))).on ≡ true)
toggle_loses_snapshot_example =
    toggle_loses_snapshot left (tick_with none (λ s port. applied port)) 8087 refl refl refl refl
      refl
