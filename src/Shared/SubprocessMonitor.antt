-- ===== src/Shared/SubprocessMonitor.antt =====
-- shared/subprocess_monitor.py, `SubprocessMonitor`: a process that is started, watched and
-- stopped. What the system answers is an input: whether the process can be started, whether it has
-- ended, and how it takes its signals. A process is known by a number, and a line of its log is
-- decoded.
pub mod Lifecycle
use magic_ai_router.Prelude.{
  ℕ, suc, ◌-◌, Bool, true, false, not, ◌&&◌, ◌||◌, Option, none, some, List, [], ◌∷◌, ◌++◌, Text,
  codes, length, drop, rstrip, ltb, nat_beq, join_lines, is_some, if◌then◌else◌,
}
use magic_ai_router.Json.{ℤ}

pub data Status : Type 0 where
  stopped starting running error : Status

pub record SubprocessMonitor : Type 0 where
  pub process : Option ℕ
  pub status : Status
  pub error_msg : Text
  pub cmd_str : Text
  pub log_lines : List Text
  pub start_time : ℕ

abbrev pub init : SubprocessMonitor
init = record {
  process = none;
  status = stopped;
  error_msg = [];
  cmd_str = [];
  log_lines = [];
  start_time = 0;
}

-- `"\n".join(lines[-5:])`
abbrev pub log : SubprocessMonitor → Text
log m = join_lines (drop (length m.log_lines - 5) m.log_lines)

abbrev pub is_active : Status → Bool
is_active starting = true
is_active running = true
is_active _ = false

abbrev pub elapsed : SubprocessMonitor → ℕ → ℕ
elapsed m now = if not (nat_beq m.start_time 0) && is_active m.status then now - m.start_time else 0

unfoldable pub set_status : Status → SubprocessMonitor → SubprocessMonitor
set_status status m = record m { status = status }

unfoldable pub set_error : Text → SubprocessMonitor → SubprocessMonitor
set_error msg m = record m { error_msg = msg }

-- `subprocess.Popen` gives a process, or raises `OSError` with a text.
pub data Popen : Type 0 where
  opened : ℕ → Popen
  not_opened : Text → Popen

unfoldable pub start_process : Text → ℕ → Popen → SubprocessMonitor → SubprocessMonitor × Bool
start_process cmd now (opened process) m = (
  record {
    process = some process;
    status = starting;
    error_msg = [];
    cmd_str = cmd;
    log_lines = [];
    start_time = now;
  },
  true,
)
start_process cmd now (not_opened msg) m = (
  record {
    process = none;
    status = error;
    error_msg = msg;
    cmd_str = cmd;
    log_lines = [];
    start_time = now;
  },
  false,
)

-- `deque(maxlen=100)`
abbrev pub kept_lines : List Text → List Text
kept_lines lines = drop (length lines - 100) lines

-- One line of the reader's thread.
unfoldable pub read_line : Text → SubprocessMonitor → SubprocessMonitor
read_line line m = elim (rstrip line) [
  | [] ↦ m
  | c ∷ decoded ↦ record m { log_lines = kept_lines (m.log_lines ++ (c ∷ decoded) ∷ []) }
]

pub data Signal : Type 0 where
  terminate kill : ℕ → Signal

-- The signals of a stop, where `exits` says that the process ends within the time for it. Without
-- blocking, the second is sent by a thread of its own.
abbrev pub stop_signals : Option ℕ → Bool → List Signal
stop_signals none exits = []
stop_signals (some process) true = terminate process ∷ []
stop_signals (some process) false = terminate process ∷ kill process ∷ []

unfoldable pub stop : Bool → SubprocessMonitor → SubprocessMonitor × List Signal
stop exits m = (record m { process = none; status = stopped }, stop_signals m.process exits)

-- `str` of an exit code, and the name of the subclass, are parameters.
module _ (text_of : ℤ → Text) (name : Text) where
  unfoldable pub exit_message : List Text → ℤ → Text
  exit_message lines ret = elim (join_lines lines) [
    | [] ↦ name ++ (codes " exited with code " ++ text_of ret)
    | c ∷ msg ↦ c ∷ msg
  ]

  -- `poll` is the exit code of a process that has ended, and `ready` the answer of the probe.
  unfoldable pub check : Option ℤ → Bool → SubprocessMonitor → SubprocessMonitor
  check poll ready m = elim m.process [
    | none ↦ m
    | some process ↦ elim poll [
      | some ret ↦ record m {
        process = none;
        status = error;
        error_msg = exit_message m.log_lines ret;
      }
      | none ↦ elim m.status [
        | starting ↦ if ready then record m { status = running } else m
        | _ ↦ m
      ]
    ]
  ]
