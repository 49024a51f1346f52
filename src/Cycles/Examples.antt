-- ===== src/Cycles/Examples.antt =====
-- Runs of the cycle store at concrete inputs.
use muslimrentals.Prelude.{◌≡◌, refl, true, false, none, some, [], ◌∷◌, map}
use muslimrentals.Prelude.Table.{find_row}
use muslimrentals.Prelude.Sort.{sort_by}
use muslimrentals.Cycles.{
  AutonomousCycle, CycleTable, new_cycle, get_cycle, cycle_rank, cycle_status_equality, completed,
  terminal_statuses, list_cycles, get_latest_cycle, get_interrupted_cycle, read_lock, locked_row,
}
use muslimrentals.Cycles.Lock.{Caller, acquire_all, acquire_all-first}
use muslimrentals.Cycles.Race.{Race, RaceSteps, idle, answered, race-both_acquire}

abbrev loop : Caller
loop = record { cycle_id = "c1"; now = 10; pid = 100 }

abbrev command : Caller
command = record { cycle_id = "c2"; now = 11; pid = 101 }

free_row : (read_lock none).locked ≡ false
unfolding read_lock
free_row = refl

acquire_all-first_example :
    acquire_all (loop ∷ command ∷ []) none
    ≡ (true ∷ map (λ _. false) (command ∷ []), some (locked_row "c1" 10 100))
acquire_all-first_example = acquire_all-first loop (command ∷ []) none free_row

race-both_acquire_example :
    (final : Race) × RaceSteps loop command final
      (record { lock = none; first = idle; second = idle })
    × (final.first ≡ answered true)
    × (final.second ≡ answered true)
    × (final.lock ≡ some (locked_row "c2" 11 101))
race-both_acquire_example = race-both_acquire loop command none free_row

abbrev cycle : AutonomousCycle
cycle = new_cycle "c1" 10

abbrev done_cycle : AutonomousCycle
done_cycle = record (new_cycle "c0" 5) { status = completed }

abbrev table : CycleTable
table = done_cycle ∷ cycle ∷ []

cycle_found : get_cycle "c1" table ≡ some cycle
unfolding get_cycle new_cycle find_row
cycle_found = refl

interrupted : get_interrupted_cycle table ≡ some cycle
unfolding get_interrupted_cycle get_latest_cycle list_cycles new_cycle sort_by terminal_statuses
    cycle_rank
interrupted = refl
