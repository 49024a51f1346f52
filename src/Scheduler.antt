-- ===== src/Scheduler.antt =====
-- The background scheduler (orchestrator/src/autonomy/scheduler.ts). The row of `scheduler_state` is
-- there or not. An event of the log is its type, in the order of logging. Each reading of the clock
-- is an argument, in milliseconds; the cycle that a tick runs is a function on the store, and so is
-- the test for a dead process.
pub mod Ticks
pub mod Switches
mod Examples
use muslimrentals.Prelude.{
  ℕ, ◌+◌, ◌*◌, String, ◌≡◌, Bool, true, false, not, ◌&&◌, Option, none, some, List, [], ◌∷◌, ◌++◌,
  arith, ltb, or_default, HasEquality, ranked_equality, if◌then◌else◌, ◌==◌,
}
use muslimrentals.Cycles.{
  CycleTable, LockRow, get_cycle_lock, read_lock, release_cycle_lock, is_lock_stale,
}

pub data SchedulerStatus : Type 0 where
  stopped running paused : SchedulerStatus

unfoldable pub scheduler_rank : SchedulerStatus → ℕ
scheduler_rank stopped = 0
scheduler_rank running = 1
scheduler_rank paused = 2

pub scheduler_rank_injective : (a b : SchedulerStatus) → scheduler_rank a ≡ scheduler_rank b → a ≡ b
unfolding scheduler_rank
scheduler_rank_injective a b h = ground arith

instance abbrev pub scheduler_status_equality : HasEquality SchedulerStatus
scheduler_status_equality = ranked_equality scheduler_rank scheduler_rank_injective

pub record SchedulerState : Type 0 where
  pub status : SchedulerStatus
  pub cadence_minutes : ℕ
  pub next_eligible_at : Option ℕ
  pub updated_at : ℕ

-- The types of the events that the scheduler logs.
pub data SchedulerEvent : Type 0 where
  autonomy_resumed autonomy_paused cycle_failed : SchedulerEvent

pub record Store : Type 0 where
  pub scheduler : Option SchedulerState
  pub lock : Option LockRow
  pub cycles : CycleTable
  pub events : List SchedulerEvent

abbrev pub default_cadence_minutes : ℕ
default_cadence_minutes = 240

-- The time of reading stands in the state that no row holds.
unfoldable pub get_scheduler_state : ℕ → Store → SchedulerState
get_scheduler_state now store = or_default store.scheduler (record {
  status = stopped;
  cadence_minutes = default_cadence_minutes;
  next_eligible_at = none;
  updated_at = now;
})

unfoldable pub persist_state : SchedulerState → Store → Store
persist_state state store = record store { scheduler = some state }

unfoldable pub log_event : SchedulerEvent → Store → Store
log_event event store = record store { events = store.events ++ event ∷ [] }

unfoldable pub start_autonomy : Option ℕ → ℕ → Store → SchedulerState × Store
start_autonomy cadence now store =
    let current = get_scheduler_state now store in
    let saved : SchedulerState = record {
      status = running;
      cadence_minutes = or_default cadence current.cadence_minutes;
      next_eligible_at = some now;
      updated_at = now;
    } in
    (saved, log_event autonomy_resumed (persist_state saved store))

unfoldable pub pause_autonomy : ℕ → Store → SchedulerState × Store
pause_autonomy now store =
    let current = get_scheduler_state now store in
    let saved = record current { status = paused; updated_at = now } in
    (saved, log_event autonomy_paused (persist_state saved store))

unfoldable pub resume_autonomy : ℕ → Store → SchedulerState × Store
resume_autonomy now store =
    let current = get_scheduler_state now store in
    let saved = record current {
      status = running;
      next_eligible_at = some now;
      updated_at = now;
    } in
    (saved, log_event autonomy_resumed (persist_state saved store))

unfoldable pub stop_autonomy : ℕ → Store → SchedulerState × Store
stop_autonomy now store =
    let current = get_scheduler_state now store in
    let saved = record current { status = stopped; updated_at = now } in
    (saved, log_event autonomy_paused (persist_state saved store))

unfoldable pub set_cadence_minutes : ℕ → ℕ → Store → SchedulerState × Store
set_cadence_minutes cadence now store =
    let current = get_scheduler_state now store in
    let saved = record current { cadence_minutes = cadence; updated_at = now } in
    (saved, persist_state saved store)

pub data SchedulerTickResult : Type 0 where
  launched not_eligible disabled cycle_already_running : SchedulerTickResult

-- The readings of the clock in one tick.
pub record TickClock : Type 0 where
  pub read_at : ℕ
  pub checked_at : ℕ
  pub launched_at : ℕ

-- `if (isLockStale()) …`.
unfoldable pub clear_stale : (ℕ → Bool) → Store → Store
clear_stale is_pid_dead store =
    if is_lock_stale is_pid_dead store.cycles store.lock
    then log_event cycle_failed (record store { lock = release_cycle_lock store.lock })
    else store

abbrev pub is_later : Option ℕ → ℕ → Bool
is_later none now = false
is_later (some at) now = ltb now at

unfoldable pub is_not_due : SchedulerState → ℕ → Bool
is_not_due state now = is_later state.next_eligible_at now

-- The state that is saved before a cycle runs.
unfoldable pub advanced : ℕ → SchedulerState → SchedulerState
advanced now state = record state {
  next_eligible_at = some (now + state.cadence_minutes * 60000);
  updated_at = now;
}

module _ {ℓ} {Outcome : Type ℓ} (is_pid_dead : ℕ → Bool) (run_cycle : Store → Outcome × Store) where
  unfoldable pub run_scheduler_tick :
      TickClock → Store → SchedulerTickResult × Option Outcome × Store
  run_scheduler_tick clock store =
      let state = get_scheduler_state clock.read_at store in
      if not (state.status == running)
      then (disabled, none, store)
      else let cleared = clear_stale is_pid_dead store in
        if (get_cycle_lock cleared.lock).locked
        then (cycle_already_running, none, cleared)
        else if is_not_due state clock.checked_at
        then (not_eligible, none, cleared)
        else let (outcome, after) =
            run_cycle (persist_state (advanced clock.launched_at state) cleared) in
          (launched, some outcome, after)
