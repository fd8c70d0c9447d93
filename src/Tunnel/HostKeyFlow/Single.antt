-- ===== src/Tunnel/HostKeyFlow/Single.antt =====
-- What a step of tunnel/host_key_flow.py hands out: generations up to its own, and one callback at
-- most.
use magic_ai_router.Prelude.{
  ℕ, ◌≤◌, ◌≡◌, refl, ◌∙◌, Bool, true, false, List, [], ◌∷◌, All, nat_beq, if◌then◌else◌,
}
use magic_ai_router.Tunnel.HostKeyFlow
use magic_ai_router.Tunnel.HostKeyFlow.{
  Call, connect, reconnect, connect_now, checked, Inspection, known, asked, failed, check_started,
  replacement_begun, check_done, check_answered, scan_done, replacement_answered, cancelled,
}
use magic_ai_router.Tunnel.HostKeyFlow.Stale.{step-IsIssued}

abbrev pub AtMost : HostKeyFlow.World → Type 0
AtMost w = All (λ g. g ≤ w.generation) w.issued × All (λ g. g ≤ w.generation) w.prompts

pub step-AtMost :
    (e : HostKeyFlow.Event) (w : HostKeyFlow.World) → AtMost w → AtMost (HostKeyFlow.step e w)
step-AtMost e w h =
    let k = step-IsIssued e w (record { inspections = h.0; alerts = h.1 }) in
    (k.inspections, k.alerts)

pub start_check-calls :
    (tunnel : Bool) (w : HostKeyFlow.World) → (HostKeyFlow.start_check tunnel w).calls ≡ w.calls
unfolding HostKeyFlow.start_check
start_check-calls true w = refl
start_check-calls false w = refl

pub replacement-calls :
    (tunnel : Bool) (w : HostKeyFlow.World)
    → (HostKeyFlow.begin_replacement tunnel w).calls ≡ w.calls
unfolding HostKeyFlow.begin_replacement
replacement-calls true w = refl
replacement-calls false w = refl

-- A step of the flow makes one callback at most.
abbrev pub IsSingle : List Call → Type 0
IsSingle [] = Unit
IsSingle (call ∷ calls) = calls ≡ []

pub if-IsSingle :
    (b : Bool) (v w : HostKeyFlow.World)
    → IsSingle v.calls
    → IsSingle w.calls
    → IsSingle (if b then v else w).calls
if-IsSingle true v w h k = h
if-IsSingle false v w h k = k

pub empty-IsSingle : (calls : List Call) → calls ≡ [] → IsSingle calls
empty-IsSingle [] h = tt
empty-IsSingle (call ∷ calls) h = cc

pub connect_now-IsSingle :
    (g : ℕ) (w : HostKeyFlow.World) → w.calls ≡ [] → IsSingle (connect_now g w).calls
connect_now-IsSingle g w h =
    if-IsSingle (nat_beq g w.generation)
      (record w { flow = record w.flow { change_prompted = false }; calls = connect g ∷ w.calls }) w
      h (empty-IsSingle w.calls h)

module _ (w : HostKeyFlow.World) (none_yet : w.calls ≡ []) where
  pub same-IsSingle : IsSingle w.calls
  same-IsSingle = empty-IsSingle w.calls none_yet

  pub step-IsSingle : (e : HostKeyFlow.Event) → IsSingle (HostKeyFlow.step e w).calls
  unfolding HostKeyFlow.step HostKeyFlow.cancel HostKeyFlow.finish_check HostKeyFlow.answer_check
      HostKeyFlow.finish_replacement HostKeyFlow.answer_replacement
  step-IsSingle (check_started b) = empty-IsSingle _ (start_check-calls b w ∙ none_yet)
  step-IsSingle (replacement_begun b) = empty-IsSingle _ (replacement-calls b w ∙ none_yet)
  step-IsSingle (check_done g known) =
      if-IsSingle _ (HostKeyFlow.finish_check g known w) w
        (if-IsSingle _ (checked g known (record w { flow = record w.flow { checking = false } })) w
          (connect_now-IsSingle g (record w { flow = record w.flow { checking = false } }) none_yet)
          same-IsSingle)
        same-IsSingle
  step-IsSingle (check_done g (failed msg)) =
      if-IsSingle _ (HostKeyFlow.finish_check g (failed msg) w) w
        (if-IsSingle _
          (checked g (failed msg) (record w { flow = record w.flow { checking = false } })) w
          same-IsSingle same-IsSingle)
        same-IsSingle
  step-IsSingle (check_done g asked) =
      if-IsSingle _ (HostKeyFlow.finish_check g asked w) w
        (if-IsSingle _ (checked g asked (record w { flow = record w.flow { checking = false } })) w
          same-IsSingle same-IsSingle)
        same-IsSingle
  step-IsSingle (check_answered g true) =
      if-IsSingle _ (HostKeyFlow.answer_check g true w) w (connect_now-IsSingle g w none_yet)
        same-IsSingle
  step-IsSingle (check_answered g false) =
      if-IsSingle _ (HostKeyFlow.answer_check g false w) w same-IsSingle same-IsSingle
  step-IsSingle (scan_done g err) =
      if-IsSingle _ (HostKeyFlow.finish_replacement g err w) w
        (if-IsSingle _ (record w { prompts = g ∷ w.prompts }) w same-IsSingle same-IsSingle)
        same-IsSingle
  step-IsSingle (replacement_answered g true) =
      if-IsSingle _ (HostKeyFlow.answer_replacement g true w) w none_yet same-IsSingle
  step-IsSingle (replacement_answered g false) =
      if-IsSingle _ (HostKeyFlow.answer_replacement g false w) w same-IsSingle same-IsSingle
  step-IsSingle cancelled = same-IsSingle
