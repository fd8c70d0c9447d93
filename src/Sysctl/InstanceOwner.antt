-- ===== src/Sysctl/InstanceOwner.antt =====
-- sysctl/instance_owner.py, `InstanceOwner`: the lock file by which one instance of the program
-- owns the machine. Several processes run `acquire` at once: each call of the file system is a step
-- of its own. Their start times and nonces are numbers, and what `ps` answers is a table.
pub mod Race
use magic_ai_router.Prelude.{
  ℕ, Bool, true, false, not, ◌&&◌, ◌||◌, Option, none, some, List, [], ◌∷◌, Text, text_key, ◌==◌,
  nat_beq, if◌then◌else◌,
}

pub record Lock : Type 0 where
  pub pid : ℕ
  pub start : Option ℕ
  pub exe : Option Text
  pub nonce : ℕ

-- The file: absent, there with no record that `_load` can read, or there with one. The number of an
-- unreadable one is the process that has created it and not yet written.
pub data File : Type 0 where
  absent : File
  unreadable : Option ℕ → File
  holds : Lock → File

unfoldable pub load : File → Option Lock
load (holds r) = some r
load _ = none

abbrev same_start : Option ℕ → Option ℕ → Bool
same_start (some a) (some b) = nat_beq a b
same_start _ _ = false

-- `pid_info`: the start time and the path of a process, where it runs.
module _ (pid_info : ℕ → Option ℕ × Option Text) where
  abbrev pub is_holder : Option Lock → Bool
  is_holder none = false
  is_holder (some r) = same_start (pid_info r.pid).0 r.start

  unfoldable pub holder_alive : File → Bool
  holder_alive file = is_holder (load file)

  abbrev pub lock_record : ℕ → ℕ → Lock
  lock_record pid nonce = record {
    pid = pid;
    start = (pid_info pid).0;
    exe = (pid_info pid).1;
    nonce = nonce;
  }

  -- `exe` is compared where it is given.
  abbrev same_exe : Option Text → Option Text → Bool
  same_exe none recorded = true
  same_exe (some exe) none = false
  same_exe (some exe) (some recorded) = exe == recorded

  abbrev owns_by : Option Lock → ℕ → Option ℕ → Option Text → Bool
  owns_by none pid start exe = false
  owns_by (some r) pid start exe =
      nat_beq r.pid pid && same_start start r.start && same_exe exe r.exe

  unfoldable pub owns : File → ℕ → Option ℕ → Option Text → Bool
  owns file pid start exe = owns_by (load file) pid start exe

  unfoldable pub owns_pid : File → ℕ → Bool
  owns_pid file pid = owns file pid (pid_info pid).0 (pid_info pid).1

abbrev is_own : Option Lock → ℕ → Bool
is_own none pid = false
is_own (some r) pid = nat_beq r.pid pid

-- `unlinks` says that the file can be removed.
unfoldable pub release : ℕ → Bool → File → File
release pid unlinks file = if is_own (load file) pid && unlinks then absent else file

-- Where a process stands in `acquire`: the file was there; it has created the file; it has found
-- the holder dead; it has put its own record in place; it owns the lock; it was refused; it has
-- released.
pub data Phase : Type 0 where
  outside met created found_dead replaced owner refused released : Phase

pub record World : Type 0 where
  pub file : File
  pub phase : ℕ → Phase

abbrev pub update : (ℕ → Phase) → ℕ → Phase → ℕ → Phase
update f p a q = if nat_beq p q then a else f q

abbrev pub move : ℕ → Phase → World → World
move p a w = record w { phase = update w.phase p a }

abbrev pub same_nonce : Option Lock → ℕ → Bool
same_nonce none nonce = false
same_nonce (some r) nonce = nat_beq r.nonce nonce

-- `O_CREAT | O_EXCL`
abbrev create : ℕ → World → World
create p w = elim w.file [
  | absent ↦ record (move p created w) { file = unreadable (some p) }
  | _ ↦ move p met w
]

-- The record goes to the file that was created, which another may have replaced since.
abbrev write : ℕ → Lock → World → World
write p r w = elim w.file [
  | unreadable (some q) ↦
      if nat_beq p q then record (move p owner w) { file = holds r } else move p owner w
  | _ ↦ move p owner w
]

module _ (pid_info : ℕ → Option ℕ × Option Text) (nonce : ℕ → ℕ) where
  -- The next call of process `p`, by its phase.
  abbrev pub advance : Phase → ℕ → World → World
  advance outside p w = create p w
  advance created p w = write p (lock_record pid_info p (nonce p)) w
  advance met p w = move p (if holder_alive pid_info w.file then refused else found_dead) w
  advance found_dead p w = record (move p replaced w) {
    file = holds (lock_record pid_info p (nonce p));
  }
  advance replaced p w = move p (if same_nonce (load w.file) (nonce p) then owner else refused) w
  advance owner p w = record (move p released w) { file = release p true w.file }
  advance refused p w = record (move p released w) { file = release p true w.file }
  advance released p w = w

  unfoldable pub step : ℕ → World → World
  step p w = advance (w.phase p) p w

  -- The processes whose calls come next, in their order.
  unfoldable pub run : List ℕ → World → World
  run [] w = w
  run (p ∷ ps) w = run ps (step p w)
