-- ===== src/Scheduler/Examples.antt =====
-- Ticks of the scheduler at concrete inputs.
use muslimrentals.Prelude.{ℕ, ◌+◌, ◌*◌, ◌<◌, ◌≡◌, ◌≢◌, refl, Bool, some, [], arith, eqb}
use muslimrentals.Cycles.{locked_row, read_lock, is_lock_stale, get_cycle, release_cycle_lock}
use muslimrentals.Prelude.Table.{find_row}
use muslimrentals.Scheduler.{
  Store, running, scheduler_rank, get_scheduler_state, is_not_due, TickClock, launched,
  run_scheduler_tick, clear_stale, log_event,
}
use muslimrentals.Scheduler.Ticks.{
  LaunchesWhenDue, run_scheduler_tick-LaunchesWhenDue, run_scheduler_tick-cadence,
}

-- A cycle that changes nothing.
abbrev run_nothing : Store → ℕ × Store
run_nothing store = (7, store)

abbrev only_42_dead : ℕ → Bool
only_42_dead pid = eqb pid 42

-- Autonomy runs, every hour, and a dead process holds the lock.
abbrev crashed : Store
crashed = record {
  scheduler = some (record {
    status = running;
    cadence_minutes = 60;
    next_eligible_at = some 1000;
    updated_at = 900;
  });
  lock = some (locked_row "c1" 500 42);
  cycles = [];
  events = [];
}

abbrev clock : TickClock
clock = record { read_at = 2000; checked_at = 2001; launched_at = 2002 }

abbrev soon : TickClock
soon = record { read_at = 60000; checked_at = 60001; launched_at = 60002 }

run_scheduler_tick-LaunchesWhenDue_example : LaunchesWhenDue only_42_dead run_nothing clock crashed
run_scheduler_tick-LaunchesWhenDue_example =
    run_scheduler_tick-LaunchesWhenDue only_42_dead run_nothing clock crashed

launching : (run_scheduler_tick only_42_dead run_nothing clock crashed).0 ≡ launched
unfolding run_scheduler_tick get_scheduler_state scheduler_rank clear_stale is_lock_stale get_cycle
    read_lock release_cycle_lock log_event is_not_due find_row
launching = refl

early :
    soon.checked_at
    < clock.launched_at + (get_scheduler_state clock.read_at crashed).cadence_minutes * 60000
unfolding get_scheduler_state
early = omega arith

run_scheduler_tick-cadence_example :
    (run_scheduler_tick only_42_dead run_nothing soon
      (run_scheduler_tick only_42_dead run_nothing clock crashed).2).0
    ≢ launched
run_scheduler_tick-cadence_example =
    run_scheduler_tick-cadence only_42_dead run_nothing (λ store. refl) clock soon crashed launching
      early
