-- ===== src/Processes/Examples.antt =====
-- A machine with a clock, and workers of an orchestrator that died.
use muslimrentals.Prelude.{
  ℕ, suc, ◌+◌, ◌<◌, ◌≡◌, refl, ◌≢◌, true, false, none, some, List, [], ◌∷◌, all, eqb, ltb,
  if◌then◌else◌, ◌||◌, ◌&&◌, arith,
}
use muslimrentals.Prelude.Regex.{is_space_code}
use muslimrentals.Processes.{
  Text, Signal, signalled, no_such_process, refused, System, terminated_gracefully, is_pid_dead,
  is_same_process, read_proc_start_ticks, poll, terminate_process_group, start_ticks_in,
}
use muslimrentals.Processes.Registry.{
  WorkerProcessRow, running, exited, Sweep, clean_row, record_worker_exited,
  list_running_worker_rows, clean_rows, cleanup_orphaned_workers,
}
use muslimrentals.Processes.Stat.{stat_line, start_ticks_in-stat_line}
use muslimrentals.Processes.Termination.{
  terminate_process_group-ends, terminate_process_group-truthful,
}
use muslimrentals.Processes.Cleanup.{all_exited, clean_row-all_exited}
use muslimrentals.Processes.Spared.{spares, cleanup_orphaned_workers-spares}

abbrev field : Text
field = 83 ∷ []

abbrev fields : List Text
fields =
    field
    ∷ field
    ∷ field
    ∷ field
    ∷ field
    ∷ field
    ∷ field
    ∷ field
    ∷ field
    ∷ field
    ∷ field
    ∷ field
    ∷ field
    ∷ field
    ∷ field
    ∷ field
    ∷ field
    ∷ field
    ∷ field
    ∷ (49 ∷ 50 ∷ [])
    ∷ field
    ∷ []

-- A command whose name is `) 1`.
start_ticks_in-stat_line_example :
    start_ticks_in (stat_line (55 ∷ []) (41 ∷ 32 ∷ 49 ∷ []) fields) ≡ some (49 ∷ 50 ∷ [])
unfolding is_space_code
start_ticks_in-stat_line_example =
    start_ticks_in-stat_line (55 ∷ []) (41 ∷ 32 ∷ 49 ∷ []) fields refl

-- Process 7 is dead from the start, and 8 once it is past 150 milliseconds; 9 lives on.
abbrev clock : System ℕ
clock = record {
  probe_fails = λ pid m. eqb pid 7 || (eqb pid 8 && ltb 150 m);
  read_stat = λ pid m. none;
  kill_group = λ pid signal m. (signalled, m);
  now = λ m. m;
  wait = λ interval m. suc (interval + m);
}

clock_advances : (interval : ℕ) (m : ℕ) → clock.now m < clock.now (clock.wait interval m)
clock_advances interval m = omega arith

clock_unrefused : (pid : ℕ) (signal : Signal) (m : ℕ) → (clock.kill_group pid signal m).0 ≢ refused
clock_unrefused pid signal m e = cc

clock_reported :
    (pid : ℕ) (signal : Signal) (m : ℕ)
    → (clock.kill_group pid signal m).0 ≡ no_such_process
    → is_pid_dead clock pid (clock.kill_group pid signal m).1 ≡ true
clock_reported pid signal m e = cc

terminate_process_group-ends_example : terminate_process_group clock 5001 8 300 100 0 ≢ none
terminate_process_group-ends_example =
    terminate_process_group-ends clock clock_advances clock_unrefused 5000 8 300 100 0 (omega arith)
      (omega arith)

ended_run : terminate_process_group clock 10 8 300 100 0 ≡ some (terminated_gracefully, 202)
unfolding terminate_process_group poll
ended_run = refl

terminate_process_group-truthful_example : is_pid_dead clock 8 202 ≡ true
terminate_process_group-truthful_example =
    terminate_process_group-truthful clock clock_reported 10 8 300 100 0 202 terminated_gracefully
      ended_run

-- Two workers with the same pid: the owner 7 of the first is dead, the owner 9 of the other lives.
abbrev orphan : WorkerProcessRow
orphan = record {
  id = "wkr_1";
  pid = 8;
  role = "qa";
  owner_pid = 7;
  start_ticks = some field;
  spawned_at = "2026-01-01";
  status = running;
}

abbrev owned : WorkerProcessRow
owned = record orphan { id = "wkr_2"; owner_pid = 9 }

abbrev table : List WorkerProcessRow
table = orphan ∷ owned ∷ []

abbrev before : Sweep ℕ
before = record {
  result = record {
    checked = 2;
    terminated = [];
    owner_still_alive = [];
    already_gone = [];
    unverifiable = [];
  };
  table = table;
  machine = 0;
}

abbrev after_orphan : Sweep ℕ
after_orphan = record {
  result = record {
    checked = 2;
    terminated = [];
    owner_still_alive = [];
    already_gone = [];
    unverifiable = orphan ∷ [];
  };
  table = record orphan { status = exited } ∷ record owned { status = exited } ∷ [];
  machine = 0;
}

orphan_round : clean_row clock 10 5000 orphan before ≡ some after_orphan
unfolding clean_row is_same_process record_worker_exited read_proc_start_ticks
orphan_round = refl

-- The worker of the living owner 9 is among the rows that are taken out.
clean_row-all_exited_example : all_exited 8 after_orphan.table ≡ true
clean_row-all_exited_example =
    clean_row-all_exited clock 10 5000 orphan before after_orphan orphan_round refl

abbrev swept : Sweep ℕ
swept = record after_orphan {
  result = record {
    checked = 2;
    terminated = [];
    owner_still_alive = owned ∷ [];
    already_gone = [];
    unverifiable = orphan ∷ [];
  };
}

swept_run : cleanup_orphaned_workers clock 10 5000 table 0 ≡ some swept
unfolding cleanup_orphaned_workers clean_rows list_running_worker_rows clean_row is_same_process
    record_worker_exited read_proc_start_ticks
swept_run = refl

-- A machine that counts the signals to process 8, behind its clock.
abbrev counter : System (ℕ × ℕ)
counter = record {
  probe_fails = λ pid m. eqb pid 7;
  read_stat = λ pid m. none;
  kill_group = λ pid signal m. (signalled, (m.0, if eqb pid 8 then suc m.1 else m.1));
  now = λ m. m.0;
  wait = λ interval m. (suc (interval + m.0), m.1);
}

abbrev counted : Sweep (ℕ × ℕ)
counted = record { result = swept.result; table = swept.table; machine = (0, 0) }

counted_run : cleanup_orphaned_workers counter 10 5000 table (0, 0) ≡ some counted
unfolding cleanup_orphaned_workers clean_rows list_running_worker_rows clean_row is_same_process
    record_worker_exited read_proc_start_ticks
counted_run = refl

elsewhere :
    (pid : ℕ) (signal : Signal) (m : ℕ × ℕ)
    → eqb pid 8 ≡ false
    → (counter.kill_group pid signal m).1.1 ≡ m.1
elsewhere pid signal m other = ground (arith, other)

both_spared : (m : ℕ × ℕ) → all (spares counter 8 m) (list_running_worker_rows table) ≡ true
unfolding list_running_worker_rows is_same_process read_proc_start_ticks
both_spared m = refl

cleanup_orphaned_workers-spares_example : counted.machine.1 ≡ 0
cleanup_orphaned_workers-spares_example =
    cleanup_orphaned_workers-spares counter 10 5000 (λ m. m.1) 8 elsewhere (λ interval m. refl)
      table (0, 0) counted both_spared counted_run
