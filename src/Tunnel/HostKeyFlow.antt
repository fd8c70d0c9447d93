-- ===== src/Tunnel/HostKeyFlow.antt =====
-- tunnel/host_key_flow.py, `HostKeyFlow`: trust in a host's key, asked of the user. An inspection
-- runs in a thread and its end is called later on the main thread; while an alert is open other
-- calls may come. So the start of an inspection, its end and the user's answer are steps of their
-- own, each with the generation of its inspection, and the generations that were handed out are
-- kept.
pub mod Stale
pub mod Single
use magic_ai_router.Prelude.{
  ℕ, ◌+◌, Bool, true, false, not, ◌&&◌, Option, none, some, List, [], ◌∷◌, Text, any, nat_beq,
  if◌then◌else◌,
}
use magic_ai_router.Shared.SubprocessMonitor.{
  SubprocessMonitor, Status, stopped, starting, error, set_status, set_error,
}

pub record HostKeyFlow : Type 0 where
  pub generation : ℕ
  pub checking : Bool
  pub change_prompted : Bool

-- The calls of `on_connect` and `on_reconnect`, with the generation that made them.
pub data Call : Type 0 where
  connect reconnect : ℕ → Call

pub record World : Type 0 where
  pub flow : HostKeyFlow
  pub open flow use *
  pub monitor : SubprocessMonitor
  pub issued : List ℕ
  pub prompts : List ℕ
  pub calls : List Call

-- What `host_key.inspect` finds: the key is known; an error; or keys that the user is asked about.
pub data Inspection : Type 0 where
  known asked : Inspection
  failed : Text → Inspection

-- Without a tunnel nothing is begun.
unfoldable pub start_check : Bool → World → World
start_check tunnel w =
    if tunnel
    then record w {
      flow = record w.flow { generation = w.generation + 1; checking = true };
      monitor = set_status starting w.monitor;
      issued = (w.generation + 1) ∷ w.issued;
    }
    else w

abbrev pub connect_now : ℕ → World → World
connect_now g w =
    if nat_beq g w.generation
    then record w { flow = record w.flow { change_prompted = false }; calls = connect g ∷ w.calls }
    else w

abbrev pub checked : ℕ → Inspection → World → World
checked g known w = connect_now g w
checked g (failed msg) w = record w { monitor = set_error msg (set_status error w.monitor) }
checked g asked w = record w { prompts = g ∷ w.prompts }

-- `_finish_check` up to the alert.
unfoldable pub finish_check : ℕ → Inspection → World → World
finish_check g inspection w =
    if nat_beq g w.generation
    then checked g inspection (record w { flow = record w.flow { checking = false } })
    else w

-- The answer to the alert of a check; `trusted` says that the user agreed and the key was accepted.
unfoldable pub answer_check : ℕ → Bool → World → World
answer_check g trusted w =
    if trusted then connect_now g w else record w { monitor = set_status stopped w.monitor }

unfoldable pub begin_replacement : Bool → World → World
begin_replacement tunnel w =
    if tunnel
    then record w {
      flow = record w.flow { generation = w.generation + 1; change_prompted = true };
      issued = (w.generation + 1) ∷ w.issued;
    }
    else w

-- `_finish_replacement` up to the alert; after an error there is none.
unfoldable pub finish_replacement : ℕ → Bool → World → World
finish_replacement g err w =
    if nat_beq g w.generation && not err then record w { prompts = g ∷ w.prompts } else w

unfoldable pub answer_replacement : ℕ → Bool → World → World
answer_replacement g replaced w =
    if replaced
    then record w {
      flow = record w.flow { change_prompted = false };
      calls = reconnect g ∷ w.calls;
    }
    else record w { monitor = set_status stopped w.monitor }

unfoldable pub cancel : World → World
cancel w = record w {
  flow = record { generation = w.generation + 1; checking = false; change_prompted = false };
}

pub data Event : Type 0 where
  check_started replacement_begun : Bool → Event
  check_done : ℕ → Inspection → Event
  check_answered : ℕ → Bool → Event
  scan_done : ℕ → Bool → Event
  replacement_answered : ℕ → Bool → Event
  cancelled : Event

-- An inspection ends, or an alert is answered, only if it was begun.
unfoldable pub step : Event → World → World
step (check_started tunnel) w = start_check tunnel w
step (replacement_begun tunnel) w = begin_replacement tunnel w
step (check_done g inspection) w =
    if any (nat_beq g) w.issued then finish_check g inspection w else w
step (check_answered g trusted) w =
    if any (nat_beq g) w.prompts then answer_check g trusted w else w
step (scan_done g err) w = if any (nat_beq g) w.issued then finish_replacement g err w else w
step (replacement_answered g replaced) w =
    if any (nat_beq g) w.prompts then answer_replacement g replaced w else w
step cancelled w = cancel w

unfoldable pub run : List Event → World → World
run [] w = w
run (e ∷ es) w = run es (step e w)
