-- ===== src/Cycles.antt =====
-- Autonomous cycles and the lock that keeps them from overlapping: their data
-- (orchestrator/src/autonomy/types.ts) and their store (orchestrator/src/autonomy/cycleStore.ts).
-- A row of the cycles is a cycle, and the lock is the one row of its table, where there is one. New
-- identifiers, times in milliseconds and the process's own number come in as arguments; whether a
-- process is dead, which the source asks the operating system, is a function.
pub mod Lock
pub mod Race
pub mod Counters
pub mod Latest
mod Examples
use muslimrentals.Prelude.{
  ℕ, ◌+◌, String, ◌≡◌, Bool, true, false, Option, none, some, List, [], ◌∷◌, arith, filter, take,
  includes, leb, eqb, or_default, HasEquality, ranked_equality, if◌then◌else◌, ◌==◌,
  string_equality,
}
use muslimrentals.Prelude.Table.{find_row, upsert}
use muslimrentals.Prelude.Sort.{sort_by}
use muslimrentals.Errors.{unknown_id, Result, returned, thrown}
use muslimrentals.Backlog.Store.{or_some}

pub data CycleStatus : Type 0 where
  starting observing prioritizing executing : CycleStatus
  waiting_for_approval completed failed paused : CycleStatus

unfoldable pub cycle_rank : CycleStatus → ℕ
cycle_rank starting = 0
cycle_rank observing = 1
cycle_rank prioritizing = 2
cycle_rank executing = 3
cycle_rank waiting_for_approval = 4
cycle_rank completed = 5
cycle_rank failed = 6
cycle_rank paused = 7

pub cycle_rank_injective : (a b : CycleStatus) → cycle_rank a ≡ cycle_rank b → a ≡ b
unfolding cycle_rank
cycle_rank_injective a b h = ground arith

instance abbrev pub cycle_status_equality : HasEquality CycleStatus
cycle_status_equality = ranked_equality cycle_rank cycle_rank_injective

pub record AutonomousCycle : Type 0 where
  pub id : String
  pub started_at : ℕ
  pub completed_at : Option ℕ
  pub status : CycleStatus
  pub signals_collected : ℕ
  pub backlog_changes : ℕ
  pub selected_items : List String
  pub tasks_created : List String
  pub model_calls : ℕ
  pub retries : ℕ
  pub approval_requests : List String
  pub result : Option String
  pub next_eligible_at : Option ℕ
  pub summary : Option String

abbrev pub CycleTable : Type 0
CycleTable = List AutonomousCycle

abbrev pub cycle_key : AutonomousCycle → String
cycle_key cycle = cycle.id

-- `persist`.
unfoldable pub persist_cycle : AutonomousCycle → CycleTable → CycleTable
persist_cycle cycle table = upsert cycle_key cycle table

unfoldable pub new_cycle : String → ℕ → AutonomousCycle
new_cycle id now = record {
  id = id;
  started_at = now;
  completed_at = none;
  status = starting;
  signals_collected = 0;
  backlog_changes = 0;
  selected_items = [];
  tasks_created = [];
  model_calls = 0;
  retries = 0;
  approval_requests = [];
  result = none;
  next_eligible_at = none;
  summary = none;
}

unfoldable pub create_cycle : String → ℕ → CycleTable → AutonomousCycle × CycleTable
create_cycle id now table = (new_cycle id now, persist_cycle (new_cycle id now) table)

unfoldable pub get_cycle : String → CycleTable → Option AutonomousCycle
get_cycle id table = find_row cycle_key id table

-- A field that is `none` is left as it is (`definedOnly`).
pub record UpdateCycleInput : Type 0 where
  pub status : Option CycleStatus
  pub completed_at : Option ℕ
  pub signals_collected : Option ℕ
  pub backlog_changes : Option ℕ
  pub selected_items : Option (List String)
  pub tasks_created : Option (List String)
  pub model_calls : Option ℕ
  pub retries : Option ℕ
  pub approval_requests : Option (List String)
  pub result : Option String
  pub next_eligible_at : Option ℕ
  pub summary : Option String

abbrev pub no_cycle_change : UpdateCycleInput
no_cycle_change = record {
  status = none;
  completed_at = none;
  signals_collected = none;
  backlog_changes = none;
  selected_items = none;
  tasks_created = none;
  model_calls = none;
  retries = none;
  approval_requests = none;
  result = none;
  next_eligible_at = none;
  summary = none;
}

unfoldable pub updated_cycle : AutonomousCycle → UpdateCycleInput → AutonomousCycle
updated_cycle existing patch = record existing {
  status = or_default patch.status existing.status;
  completed_at = or_some patch.completed_at existing.completed_at;
  signals_collected = or_default patch.signals_collected existing.signals_collected;
  backlog_changes = or_default patch.backlog_changes existing.backlog_changes;
  selected_items = or_default patch.selected_items existing.selected_items;
  tasks_created = or_default patch.tasks_created existing.tasks_created;
  model_calls = or_default patch.model_calls existing.model_calls;
  retries = or_default patch.retries existing.retries;
  approval_requests = or_default patch.approval_requests existing.approval_requests;
  result = or_some patch.result existing.result;
  next_eligible_at = or_some patch.next_eligible_at existing.next_eligible_at;
  summary = or_some patch.summary existing.summary;
}

unfoldable pub update_cycle :
    String → UpdateCycleInput → CycleTable → Result (AutonomousCycle × CycleTable)
update_cycle id patch table = elim (get_cycle id table) [
  | none ↦ thrown (unknown_id id)
  | some existing ↦
      returned (updated_cycle existing patch, persist_cycle (updated_cycle existing patch) table)
]

pub record CycleCounters : Type 0 where
  pub signals_collected : Option ℕ
  pub backlog_changes : Option ℕ
  pub model_calls : Option ℕ
  pub retries : Option ℕ

unfoldable pub counted_patch : AutonomousCycle → CycleCounters → UpdateCycleInput
counted_patch existing delta = record no_cycle_change {
  signals_collected = some (existing.signals_collected + or_default delta.signals_collected 0);
  backlog_changes = some (existing.backlog_changes + or_default delta.backlog_changes 0);
  model_calls = some (existing.model_calls + or_default delta.model_calls 0);
  retries = some (existing.retries + or_default delta.retries 0);
}

unfoldable pub increment_cycle_counters :
    String → CycleCounters → CycleTable → Result (AutonomousCycle × CycleTable)
increment_cycle_counters id delta table = elim (get_cycle id table) [
  | none ↦ thrown (unknown_id id)
  | some existing ↦ update_cycle id (counted_patch existing delta) table
]

pub record ListCyclesFilter : Type 0 where
  pub status : Option CycleStatus
  pub limit : Option ℕ

abbrev pub has_cycle_status : Option CycleStatus → AutonomousCycle → Bool
has_cycle_status none cycle = true
has_cycle_status (some status) cycle = cycle.status == status

-- `ORDER BY started_at DESC`.
abbrev pub started_later : AutonomousCycle → AutonomousCycle → Bool
started_later a b = leb b.started_at a.started_at

-- `LIMIT`; a limit of 0 is false, and no limit.
abbrev pub limited : Option ℕ → List AutonomousCycle → List AutonomousCycle
limited none cycles = cycles
limited (some n) cycles = if eqb n 0 then cycles else take n cycles

unfoldable pub list_cycles : ListCyclesFilter → CycleTable → List AutonomousCycle
list_cycles wanted table =
    limited wanted.limit (sort_by started_later (filter (has_cycle_status wanted.status) table))

abbrev pub first_of : List AutonomousCycle → Option AutonomousCycle
first_of [] = none
first_of (cycle ∷ _) = some cycle

unfoldable pub get_latest_cycle : CycleTable → Option AutonomousCycle
get_latest_cycle table = first_of (list_cycles (record { status = none; limit = some 1 }) table)

unfoldable pub terminal_statuses : List CycleStatus
terminal_statuses = completed ∷ failed ∷ paused ∷ []

unfoldable pub get_interrupted_cycle : CycleTable → Option AutonomousCycle
get_interrupted_cycle table = elim (get_latest_cycle table) [
  | none ↦ none
  | some latest ↦ if includes latest.status terminal_statuses then none else some latest
]

-- A row of `cycle_lock`, without its constant identifier.
pub record LockRow : Type 0 where
  pub locked : Bool
  pub cycle_id : Option String
  pub locked_at : Option ℕ
  pub locked_by_pid : Option ℕ

pub record CycleLockState : Type 0 where
  pub locked : Bool
  pub cycle_id : Option String
  pub locked_at : Option ℕ
  pub locked_by_pid : Option ℕ

abbrev pub unlocked : CycleLockState
unlocked = record { locked = false; cycle_id = none; locked_at = none; locked_by_pid = none }

unfoldable pub read_lock : Option LockRow → CycleLockState
read_lock none = unlocked
read_lock (some row) =
    if row.locked
    then record {
      locked = true;
      cycle_id = row.cycle_id;
      locked_at = row.locked_at;
      locked_by_pid = row.locked_by_pid;
    }
    else unlocked

abbrev pub get_cycle_lock : Option LockRow → CycleLockState
get_cycle_lock lock = read_lock lock

abbrev pub locked_row : String → ℕ → ℕ → LockRow
locked_row cycle_id now pid = record {
  locked = true;
  cycle_id = some cycle_id;
  locked_at = some now;
  locked_by_pid = some pid;
}

unfoldable pub acquire_cycle_lock : String → ℕ → ℕ → Option LockRow → Bool × Option LockRow
acquire_cycle_lock cycle_id now pid lock =
    if (read_lock lock).locked then (false, lock) else (true, some (locked_row cycle_id now pid))

-- The `UPDATE` changes the row where there is one.
unfoldable pub release_cycle_lock : Option LockRow → Option LockRow
release_cycle_lock none = none
release_cycle_lock (some row) =
    some (record { locked = false; cycle_id = none; locked_at = none; locked_by_pid = none })

-- Whether the lock's cycle is gone or over; an empty identifier is false.
abbrev pub is_finished : Option String → CycleTable → Bool
is_finished none table = false
is_finished (some id) table = if id == "" then false else elim (get_cycle id table) [
  | none ↦ true
  | some cycle ↦ includes cycle.status terminal_statuses
]

abbrev pub is_owner_dead : (ℕ → Bool) → Option ℕ → Bool
is_owner_dead is_pid_dead none = false
is_owner_dead is_pid_dead (some pid) = is_pid_dead pid

unfoldable pub is_lock_stale : (ℕ → Bool) → CycleTable → Option LockRow → Bool
is_lock_stale is_pid_dead cycles lock =
    let held = read_lock lock in
    if held.locked
    then if is_finished held.cycle_id cycles
      then true
      else is_owner_dead is_pid_dead held.locked_by_pid
    else false
