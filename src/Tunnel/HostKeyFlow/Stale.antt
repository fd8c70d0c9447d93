-- ===== src/Tunnel/HostKeyFlow/Stale.antt =====
-- What is left of an inspection of tunnel/host_key_flow.py when a newer one or a cancellation has
-- come.
use magic_ai_router.Prelude.{
  ℕ, ◌+◌, ◌≤◌, ◌<◌, ◌≡◌, refl, ◌∙◌, Bool, true, false, not, ◌&&◌, List, [], ◌∷◌, All, any, nat_beq,
  arith, if◌then◌else◌,
}
use magic_ai_router.Shared.SubprocessMonitor.{set_status, set_error}
use magic_ai_router.Tunnel.HostKeyFlow.{
  Inspection, known, asked, failed, World, start_check, finish_check, answer_check,
  begin_replacement, finish_replacement, answer_replacement, cancel, Event, check_started,
  replacement_begun, check_done, check_answered, scan_done, replacement_answered, cancelled, step,
  run, connect, reconnect, connect_now, checked,
}

-- No inspection or alert is of a generation that was not handed out.
pub record IsIssued (w : World) : Type 0 where
  pub inspections : All (λ g. g ≤ w.generation) w.issued
  pub alerts : All (λ g. g ≤ w.generation) w.prompts

All-le_suc : (n : ℕ) (gs : List ℕ) → All (λ g. g ≤ n) gs → All (λ g. g ≤ n + 1) gs
All-le_suc n [] h = tt
All-le_suc n (g ∷ gs) h = (omega arith, All-le_suc n gs h.1)

if-IsIssued :
    (b : Bool) (v w : World) → (b ≡ true → IsIssued v) → IsIssued w → IsIssued (if b then v else w)
if-IsIssued true v w h k = h refl
if-IsIssued false v w h k = k

connect_now-IsIssued : (g : ℕ) (w : World) → IsIssued w → IsIssued (connect_now g w)
connect_now-IsIssued g w h =
    if-IsIssued (nat_beq g w.generation)
      (record w { flow = record w.flow { change_prompted = false }; calls = connect g ∷ w.calls }) w
      (λ _. record { inspections = h.inspections; alerts = h.alerts }) h

checked-IsIssued :
    (g : ℕ) (inspection : Inspection) (w : World)
    → g ≤ w.generation
    → IsIssued w
    → IsIssued (checked g inspection w)
unfolding set_status set_error
checked-IsIssued g known w le h = connect_now-IsIssued g w h
checked-IsIssued g (failed msg) w le h = record { inspections = h.inspections; alerts = h.alerts }
checked-IsIssued g asked w le h = record { inspections = h.inspections; alerts = (le, h.alerts) }

finish_check-IsIssued :
    (g : ℕ) (inspection : Inspection) (w : World)
    → IsIssued w
    → IsIssued (finish_check g inspection w)
unfolding finish_check
finish_check-IsIssued g inspection w h =
    let v = record w { flow = record w.flow { checking = false } } in
    if-IsIssued (nat_beq g w.generation) (checked g inspection v) w
      (λ e.
        checked-IsIssued g inspection v (ground arith)
          (record { inspections = h.inspections; alerts = h.alerts }))
      h

answer_check-IsIssued :
    (g : ℕ) (trusted : Bool) (w : World) → IsIssued w → IsIssued (answer_check g trusted w)
unfolding answer_check set_status
answer_check-IsIssued g true w h = connect_now-IsIssued g w h
answer_check-IsIssued g false w h = record { inspections = h.inspections; alerts = h.alerts }

finish_replacement-IsIssued :
    (g : ℕ) (err : Bool) (w : World) → IsIssued w → IsIssued (finish_replacement g err w)
unfolding finish_replacement
finish_replacement-IsIssued g err w h =
    if-IsIssued (nat_beq g w.generation && not err) (record w { prompts = g ∷ w.prompts }) w
      (λ e. record { inspections = h.inspections; alerts = (ground arith, h.alerts) }) h

answer_replacement-IsIssued :
    (g : ℕ) (replaced : Bool) (w : World) → IsIssued w → IsIssued (answer_replacement g replaced w)
unfolding answer_replacement set_status
answer_replacement-IsIssued g true w h = record { inspections = h.inspections; alerts = h.alerts }
answer_replacement-IsIssued g false w h = record { inspections = h.inspections; alerts = h.alerts }

later-IsIssued : (w : World) → IsIssued w → IsIssued (cancel w)
unfolding cancel
later-IsIssued w h = record {
  inspections = All-le_suc w.generation w.issued h.inspections;
  alerts = All-le_suc w.generation w.prompts h.alerts;
}

pub step-IsIssued : (e : Event) (w : World) → IsIssued w → IsIssued (step e w)
unfolding step start_check begin_replacement set_status
step-IsIssued (check_started true) w h = record {
  inspections = (omega arith, All-le_suc w.generation w.issued h.inspections);
  alerts = All-le_suc w.generation w.prompts h.alerts;
}
step-IsIssued (check_started false) w h = h
step-IsIssued (replacement_begun true) w h = record {
  inspections = (omega arith, All-le_suc w.generation w.issued h.inspections);
  alerts = All-le_suc w.generation w.prompts h.alerts;
}
step-IsIssued (replacement_begun false) w h = h
step-IsIssued (check_done g inspection) w h =
    if-IsIssued _ (finish_check g inspection w) w (λ _. finish_check-IsIssued g inspection w h) h
step-IsIssued (check_answered g trusted) w h =
    if-IsIssued _ (answer_check g trusted w) w (λ _. answer_check-IsIssued g trusted w h) h
step-IsIssued (scan_done g err) w h =
    if-IsIssued _ (finish_replacement g err w) w (λ _. finish_replacement-IsIssued g err w h) h
step-IsIssued (replacement_answered g replaced) w h =
    if-IsIssued _ (answer_replacement g replaced w) w
      (λ _. answer_replacement-IsIssued g replaced w h) h
step-IsIssued cancelled w h = later-IsIssued w h

pub run-IsIssued : (es : List Event) (w : World) → IsIssued w → IsIssued (run es w)
unfolding run
run-IsIssued [] w h = h
run-IsIssued (e ∷ es) w h = run-IsIssued es (step e w) (step-IsIssued e w h)

-- Nothing that was begun is of the current generation.
pub record IsCut (w : World) : Type 0 where
  pub no_inspections : All (λ g. g < w.generation) w.issued
  pub no_alerts : All (λ g. g < w.generation) w.prompts

All-lt_of_le : (n : ℕ) (gs : List ℕ) → All (λ g. g ≤ n) gs → All (λ g. g < n + 1) gs
All-lt_of_le n [] h = tt
All-lt_of_le n (g ∷ gs) h = (omega arith, All-lt_of_le n gs h.1)

pub cancel-IsCut : (w : World) → IsIssued w → IsCut (cancel w)
unfolding cancel
cancel-IsCut w h = record {
  no_inspections = All-lt_of_le w.generation w.issued h.inspections;
  no_alerts = All-lt_of_le w.generation w.prompts h.alerts;
}

lt_of_any :
    (n g : ℕ) (gs : List ℕ) → All (λ k. k < n) gs → any (nat_beq g) gs ≡ true → nat_beq g n ≡ false
lt_of_any n g [] h k = ground arith
lt_of_any n g (x ∷ gs) h k = ground (arith, lt_of_any n g gs h.1)

-- Ends of inspections and answers to the alerts of checks.
abbrev pub IsLate : Event → Type 0
IsLate (check_done _ _) = Unit
IsLate (check_answered _ _) = Unit
IsLate (scan_done _ _) = Unit
IsLate _ = ⊥

abbrev pub SameCalls : World → World → Type 0
SameCalls w v = IsCut v × (v.calls ≡ w.calls)

if-SameCalls :
    (b : Bool) (u v w : World)
    → (b ≡ true → SameCalls u v)
    → SameCalls u w
    → SameCalls u (if b then v else w)
if-SameCalls true u v w h k = h refl
if-SameCalls false u v w h k = k

pub step-SameCalls : (e : Event) (w : World) → IsLate e → IsCut w → SameCalls w (step e w)
unfolding step finish_check answer_check finish_replacement set_status
step-SameCalls (check_done g inspection) w l c =
    if-SameCalls _ w (finish_check g inspection w) w
      (λ e. rw (lt_of_any w.generation g w.issued c.no_inspections e) (c, refl)) (c, refl)
step-SameCalls (check_answered g true) w l c =
    if-SameCalls _ w (answer_check g true w) w
      (λ e. rw (lt_of_any w.generation g w.prompts c.no_alerts e) (c, refl)) (c, refl)
step-SameCalls (check_answered g false) w l c =
    if-SameCalls _ w (answer_check g false w) w
      (λ e. (record { no_inspections = c.no_inspections; no_alerts = c.no_alerts }, refl)) (c, refl)
step-SameCalls (scan_done g err) w l c =
    if-SameCalls _ w (finish_replacement g err w) w
      (λ e. rw (lt_of_any w.generation g w.issued c.no_inspections e) (c, refl)) (c, refl)
step-SameCalls (check_started _) w l c = elim l [ ]
step-SameCalls (replacement_begun _) w l c = elim l [ ]
step-SameCalls (replacement_answered _ _) w l c = elim l [ ]
step-SameCalls cancelled w l c = elim l [ ]

run-SameCalls : (es : List Event) (w : World) → All IsLate es → IsCut w → (run es w).calls ≡ w.calls
unfolding run
run-SameCalls [] w l c = refl
run-SameCalls (e ∷ es) w (l, ls) c =
    let s = step-SameCalls e w l c in run-SameCalls es (step e w) ls s.0 ∙ s.1

-- After any history and a cancellation, inspections that end and alerts of checks that are
-- answered, even with trust, start no connection.
pub cancel_stops :
    (before after : List Event) (w : World)
    → IsIssued w
    → All IsLate after
    → (run after (cancel (run before w))).calls ≡ (cancel (run before w)).calls
cancel_stops before after w h l =
    run-SameCalls after (cancel (run before w)) l
      (cancel-IsCut (run before w) (run-IsIssued before w h))

-- The alert of a replacement is not looked at again: an answer that agrees reconnects even after a
-- cancellation that came while the alert was open.
pub cancelled_replacement :
    (g : ℕ) (w : World)
    → any (nat_beq g) w.prompts ≡ true
    → (step (replacement_answered g true) (cancel w)).calls ≡ reconnect g ∷ w.calls
unfolding step cancel answer_replacement
cancelled_replacement g w open_ = rw open_ refl
