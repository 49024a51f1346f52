-- ===== src/Processes/Registry.antt =====
-- orchestrator/src/autonomy/workerRegistry.ts: the table of the processes that the orchestrators have
-- spawned, and what a restart does with the workers that an orchestrator which died has left.
use muslimrentals.Prelude.{
  ℕ, String, Bool, true, false, not, Option, none, some, List, [], ◌∷◌, ◌++◌, map, filter, length,
  eqb, codes_equality, nat_equality, if◌then◌else◌,
}
use muslimrentals.Processes.{
  Text, System, TerminationOutcome, is_pid_dead, is_same_process, terminate_process_group,
}

pub data WorkerStatus : Type 0 where
  running exited : WorkerStatus

pub record WorkerProcessRow : Type 0 where
  pub id : String
  pub pid : ℕ
  pub role : String
  pub owner_pid : ℕ
  pub start_ticks : Option Text
  pub spawned_at : String
  pub status : WorkerStatus

abbrev pub is_running : WorkerProcessRow → Bool
is_running row = elim (row.status) [ running ↦ true | exited ↦ false ]

pub record OrphanCleanupResult : Type 0 where
  pub checked : ℕ
  pub terminated : List WorkerProcessRow
  pub owner_still_alive : List WorkerProcessRow
  pub already_gone : List WorkerProcessRow
  pub unverifiable : List WorkerProcessRow

unfoldable pub record_worker_spawned :
    String → String → ℕ → ℕ → String → Option Text → List WorkerProcessRow → List WorkerProcessRow
record_worker_spawned id now own_pid pid role start_ticks table =
    table
    ++ record {
      id = id;
      pid = pid;
      role = role;
      owner_pid = own_pid;
      start_ticks = start_ticks;
      spawned_at = now;
      status = running;
    }
      ∷ []

-- `UPDATE … SET status = 'EXITED' WHERE pid = ? AND status = 'RUNNING'`.
abbrev pub exit_row : ℕ → WorkerProcessRow → WorkerProcessRow
exit_row pid row =
    if eqb row.pid pid
    then (if is_running row then record row { status = exited } else row)
    else row

unfoldable pub record_worker_exited : ℕ → List WorkerProcessRow → List WorkerProcessRow
record_worker_exited pid table = map (exit_row pid) table

unfoldable pub list_running_worker_rows : List WorkerProcessRow → List WorkerProcessRow
list_running_worker_rows table = filter is_running table

-- What the loop of `cleanupOrphanedWorkers` changes.
pub record Sweep (Machine : Type 0) : Type 0 where
  pub result : OrphanCleanupResult
  pub table : List WorkerProcessRow
  pub machine : Machine

module _ {Machine : Type 0} (system : System Machine) (fuel graceful_ms : ℕ) where
  abbrev pub leave_alone : WorkerProcessRow → Sweep Machine → Sweep Machine
  leave_alone row s =
      let r = s.result in
      record s { result = record r { owner_still_alive = r.owner_still_alive ++ row ∷ [] } }

  abbrev pub note_gone : WorkerProcessRow → Sweep Machine → Sweep Machine
  note_gone row s =
      let r = s.result in
      record s {
        result = record r { already_gone = r.already_gone ++ row ∷ [] };
        table = record_worker_exited row.pid s.table;
      }

  abbrev pub note_unverifiable : WorkerProcessRow → Sweep Machine → Sweep Machine
  note_unverifiable row s =
      let r = s.result in
      record s {
        result = record r { unverifiable = r.unverifiable ++ row ∷ [] };
        table = record_worker_exited row.pid s.table;
      }

  abbrev pub note_terminated :
      WorkerProcessRow
      → Sweep Machine
      → Option (TerminationOutcome × Machine)
      → Option (Sweep Machine)
  note_terminated row s none = none
  note_terminated row s (some (outcome, machine)) =
      let r = s.result in
      some (record s {
        result = record r { terminated = r.terminated ++ row ∷ [] };
        table = record_worker_exited row.pid s.table;
        machine = machine;
      })

  -- One round of the loop, with the default poll interval.
  unfoldable pub clean_row : WorkerProcessRow → Sweep Machine → Option (Sweep Machine)
  clean_row row s =
      if not (is_pid_dead system row.owner_pid s.machine)
      then some (leave_alone row s)
      else if is_pid_dead system row.pid s.machine
      then some (note_gone row s)
      else if not (is_same_process system row.pid row.start_ticks s.machine)
      then some (note_unverifiable row s)
      else note_terminated row s
          (terminate_process_group system fuel row.pid graceful_ms 100 s.machine)

  abbrev pub clean_then :
      (Sweep Machine → Option (Sweep Machine)) → Option (Sweep Machine) → Option (Sweep Machine)
  clean_then later none = none
  clean_then later (some s) = later s

  unfoldable pub clean_rows : List WorkerProcessRow → Sweep Machine → Option (Sweep Machine)
  clean_rows [] s = some s
  clean_rows (row ∷ rows) s = clean_then (clean_rows rows) (clean_row row s)

  unfoldable pub cleanup_orphaned_workers : List WorkerProcessRow → Machine → Option (Sweep Machine)
  cleanup_orphaned_workers table machine =
      let rows = list_running_worker_rows table in
      clean_rows rows (record {
        result = record {
          checked = length rows;
          terminated = [];
          owner_still_alive = [];
          already_gone = [];
          unverifiable = [];
        };
        table = table;
        machine = machine;
      })
