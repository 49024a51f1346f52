-- ===== src/Cycles/Counters.antt =====
-- The counters of a cycle (orchestrator/src/autonomy/cycleStore.ts).
use native.Mathlib.Nat.{add_assoc}
use muslimrentals.Prelude.{
  ◌+◌, String, ◌≡◌, refl, ◌∙◌, some, arith, or_default, string_equality, same_refl,
}
use muslimrentals.Prelude.Table.{find_row-upsert, find_row-key, upsert-upsert}
use muslimrentals.Errors.{returned, ◌>>=◌}
use muslimrentals.Cycles.{
  AutonomousCycle, CycleTable, cycle_key, persist_cycle, get_cycle, updated_cycle, update_cycle,
  CycleCounters, counted_patch, increment_cycle_counters,
}

-- The sum of two increments.
unfoldable pub both_deltas : CycleCounters → CycleCounters → CycleCounters
both_deltas a b = record {
  signals_collected = some (or_default a.signals_collected 0 + or_default b.signals_collected 0);
  backlog_changes = some (or_default a.backlog_changes 0 + or_default b.backlog_changes 0);
  model_calls = some (or_default a.model_calls 0 + or_default b.model_calls 0);
  retries = some (or_default a.retries 0 + or_default b.retries 0);
}

abbrev counted : AutonomousCycle → CycleCounters → AutonomousCycle
counted cycle delta = updated_cycle cycle (counted_patch cycle delta)

increment-found :
    (id : String) (delta : CycleCounters) (cycle : AutonomousCycle) (table : CycleTable)
    → get_cycle id table ≡ some cycle
    → increment_cycle_counters id delta table
      ≡ returned (counted cycle delta, persist_cycle (counted cycle delta) table)
unfolding increment_cycle_counters update_cycle
increment-found id delta cycle table h = ground (arith, h)

counted-counted :
    (cycle : AutonomousCycle) (a b : CycleCounters)
    → counted (counted cycle a) b ≡ counted cycle (both_deltas a b)
unfolding updated_cycle counted_patch both_deltas
counted-counted cycle a b = simp (
  add_assoc cycle.signals_collected,
  add_assoc cycle.backlog_changes,
  add_assoc cycle.model_calls,
  add_assoc cycle.retries,
)

get_cycle-id :
    (id : String) (table : CycleTable) (cycle : AutonomousCycle)
    → get_cycle id table ≡ some cycle
    → cycle.id ≡ id
unfolding get_cycle
get_cycle-id id table cycle h = find_row-key cycle_key id table cycle h

counted-found :
    (id : String) (delta : CycleCounters) (cycle : AutonomousCycle) (table : CycleTable)
    → cycle.id ≡ id
    → get_cycle id (persist_cycle (counted cycle delta) table) ≡ some (counted cycle delta)
unfolding get_cycle persist_cycle updated_cycle
counted-found id delta cycle table h =
    find_row-upsert cycle_key id (counted cycle delta) table ∙ rw (h, same_refl id) refl

persist-counted :
    (cycle : AutonomousCycle) (a b : CycleCounters) (table : CycleTable)
    → persist_cycle (counted cycle b) (persist_cycle (counted cycle a) table)
      ≡ persist_cycle (counted cycle b) table
unfolding persist_cycle updated_cycle
persist-counted cycle a b table =
    upsert-upsert cycle_key (counted cycle a) (counted cycle b) table refl

-- Incrementing a cycle's counters twice is incrementing them once by the sums, in the returned
-- cycle and in the table.
pub increment-increment :
    (id : String) (a b : CycleCounters) (cycle : AutonomousCycle) (table : CycleTable)
    → get_cycle id table ≡ some cycle
    → (increment_cycle_counters id a table >>= λ done. increment_cycle_counters id b done.1)
      ≡ increment_cycle_counters id (both_deltas a b) table
increment-increment id a b cycle table h =
    let first = counted cycle a in
    let between = persist_cycle first table in
    let first_found : get_cycle id between ≡ some first =
      counted-found id a cycle table (get_cycle-id id table cycle h) in
    rw
      (
        increment-found id a cycle table h,
        increment-found id b first between first_found,
        increment-found id (both_deltas a b) cycle table h,
        counted-counted cycle a b,
        persist-counted cycle a (both_deltas a b) table,
      )
      refl
