-- ===== src/Cycles/Race.antt =====
-- `acquireCycleLock` (orchestrator/src/autonomy/cycleStore.ts) as two processes run it: a read of the
-- row, and then, where the lock was free, a write. The two are separate statements of the database,
-- in no transaction, and another process may come between them.
use muslimrentals.Prelude.{◌≡◌, refl, Bool, true, false, Option, some, if◌then◌else◌}
use muslimrentals.Cycles.{LockRow, read_lock, locked_row, acquire_cycle_lock}
use muslimrentals.Cycles.Lock.{Caller}

-- What a process has done: nothing, the read that found the lock free, or all.
pub data Progress : Type 0 where
  idle : Progress
  saw_free : Progress
  answered : Bool → Progress

pub record Race : Type 0 where
  pub lock : Option LockRow
  pub first : Progress
  pub second : Progress

-- The read: a held lock is an answer, a free one is not yet.
unfoldable pub read_step : Option LockRow → Progress
read_step lock = if (read_lock lock).locked then answered false else saw_free

-- The write.
unfoldable pub write_step : Caller → Option LockRow
write_step caller = some (locked_row caller.cycle_id caller.now caller.pid)

-- One statement of one of the two processes.
pub data RaceStep (a b : Caller) (race race' : Race) : Type 0 where
  first_reads :
      race.first ≡ idle
      → race' ≡ record race { first = read_step race.lock }
      → RaceStep a b race race'
  first_writes :
      race.first ≡ saw_free
      → race' ≡ record race { lock = write_step a; first = answered true }
      → RaceStep a b race race'
  second_reads :
      race.second ≡ idle
      → race' ≡ record race { second = read_step race.lock }
      → RaceStep a b race race'
  second_writes :
      race.second ≡ saw_free
      → race' ≡ record race { lock = write_step b; second = answered true }
      → RaceStep a b race race'

pub data RaceSteps (a b : Caller) (final : Race) : Race → Type 0 where
  finished : {race : Race} → race ≡ final → RaceSteps a b final race
  step :
      {race between : Race}
      → RaceStep a b race between
      → RaceSteps a b final between
      → RaceSteps a b final race

-- The two statements, one right after the other, are the whole call.
pub acquire-eq-steps :
    (caller : Caller) (lock : Option LockRow)
    → acquire_cycle_lock caller.cycle_id caller.now caller.pid lock
      ≡ (if (read_lock lock).locked then (false, lock) else (true, write_step caller))
unfolding acquire_cycle_lock write_step
acquire-eq-steps caller lock = refl

-- Two processes that both read a free lock before either writes are both told that they hold it,
-- and the row names the one that wrote last.
pub race-both_acquire :
    (a b : Caller) (lock : Option LockRow)
    → (read_lock lock).locked ≡ false
    → (final : Race) × RaceSteps a b final (record { lock = lock; first = idle; second = idle })
      × (final.first ≡ answered true)
      × (final.second ≡ answered true)
      × (final.lock ≡ some (locked_row b.cycle_id b.now b.pid))
unfolding read_step write_step
race-both_acquire a b lock free =
    let one : Race = record { lock = lock; first = saw_free; second = idle } in
    let two : Race = record { lock = lock; first = saw_free; second = saw_free } in
    let three : Race = record { lock = write_step a; first = answered true; second = saw_free } in
    let four : Race = record {
      lock = write_step b;
      first = answered true;
      second = answered true;
    } in
    (
      four,
      step {between = one} (first_reads refl (rw free refl)) (
          step {between = two} (second_reads refl (rw free refl)) (
            step {between = three} (first_writes refl refl)
              (step {between = four} (second_writes refl refl) (finished refl)))),
      refl,
      refl,
      refl,
    )
