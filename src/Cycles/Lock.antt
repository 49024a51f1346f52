-- ===== src/Cycles/Lock.antt =====
-- What the cycle lock of orchestrator/src/autonomy/cycleStore.ts keeps apart.
use muslimrentals.Prelude.{
  ℕ, String, ◌≡◌, ◌↔◌, refl, sym, ◌∙◌, ap, Bool, true, false, Option, none, some, List, [], ◌∷◌,
  map, arith, includes, Bool-cases, Option-cases, inl, inr, ◌==◌, string_equality,
}
use muslimrentals.Cycles.{
  AutonomousCycle, CycleTable, cycle_status_equality, get_cycle, terminal_statuses, LockRow,
  read_lock, locked_row, acquire_cycle_lock, release_cycle_lock, is_finished, is_owner_dead,
  is_lock_stale,
}

-- One caller of `acquireCycleLock`.
pub record Caller : Type 0 where
  pub cycle_id : String
  pub now : ℕ
  pub pid : ℕ

-- Callers, each of whom asks when the one before has its answer.
unfoldable pub acquire_all : List Caller → Option LockRow → List Bool × Option LockRow
acquire_all [] lock = ([], lock)
acquire_all (caller ∷ callers) lock =
    let (answer, held) = acquire_cycle_lock caller.cycle_id caller.now caller.pid lock in
    let (answers, final) = acquire_all callers held in (answer ∷ answers, final)

acquire_all-held :
    (callers : List Caller) (row : LockRow)
    → row.locked ≡ true
    → acquire_all callers (some row) ≡ (map (λ _. false) callers, some row)
unfolding acquire_all acquire_cycle_lock read_lock
acquire_all-held [] row h = refl
acquire_all-held (caller ∷ callers) row h = simp (h, acquire_all-held callers row h)

-- From a free lock, of callers who ask one after the other the first gets the lock and all others
-- are refused, and the row names the first until the lock is released.
pub acquire_all-first :
    (caller : Caller) (callers : List Caller) (lock : Option LockRow)
    → (read_lock lock).locked ≡ false
    → acquire_all (caller ∷ callers) lock
      ≡ (true ∷ map (λ _. false) callers, some (locked_row caller.cycle_id caller.now caller.pid))
unfolding acquire_all acquire_cycle_lock
acquire_all-first caller callers lock h =
    simp (h, acquire_all-held callers (locked_row caller.cycle_id caller.now caller.pid) refl)

-- A released lock is free, whoever held it.
pub release-free : (lock : Option LockRow) → (read_lock (release_cycle_lock lock)).locked ≡ false
unfolding read_lock release_cycle_lock
release-free none = refl
release-free (some row) = refl

-- The lock is held for a cycle that is gone or over, or by a process that is dead.
pub data IsAbandoned (is_pid_dead : ℕ → Bool) (cycles : CycleTable) (row : LockRow) : Type 0 where
  gone :
      (id : String)
      → row.cycle_id ≡ some id
      → (id == "") ≡ false
      → get_cycle id cycles ≡ none
      → IsAbandoned is_pid_dead cycles row
  over :
      (id : String) (cycle : AutonomousCycle)
      → row.cycle_id ≡ some id
      → (id == "") ≡ false
      → get_cycle id cycles ≡ some cycle
      → includes cycle.status terminal_statuses ≡ true
      → IsAbandoned is_pid_dead cycles row
  dead :
      (pid : ℕ)
      → row.locked_by_pid ≡ some pid
      → is_pid_dead pid ≡ true
      → IsAbandoned is_pid_dead cycles row

finished-IsAbandoned :
    (is_pid_dead : ℕ → Bool) (cycles : CycleTable) (row : LockRow) (id : String)
    → row.cycle_id ≡ some id
    → is_finished (some id) cycles ≡ true
    → IsAbandoned is_pid_dead cycles row
finished-IsAbandoned dead_pid cycles row id e h = elim (Bool-cases (id == "")) [
  | inl empty ↦ absurd (ground arith)
  | inr named ↦ elim (Option-cases (get_cycle id cycles)) [
    | inl missing ↦ gone id e named missing
    | inr (cycle, found) ↦ over id cycle e named found (ground arith)
  ]
]

owner-IsAbandoned :
    (is_pid_dead : ℕ → Bool) (cycles : CycleTable) (row : LockRow)
    → is_owner_dead is_pid_dead row.locked_by_pid ≡ true
    → IsAbandoned is_pid_dead cycles row
owner-IsAbandoned dead_pid cycles row h = elim (Option-cases row.locked_by_pid) [
  | inl unknown ↦ absurd (cc (h, unknown))
  | inr (pid, known) ↦ dead pid known (sym (ap (is_owner_dead dead_pid) known) ∙ h)
]

stale-IsAbandoned :
    (is_pid_dead : ℕ → Bool) (cycles : CycleTable) (row : LockRow)
    → row.locked ≡ true
    → is_lock_stale is_pid_dead cycles (some row) ≡ true
    → IsAbandoned is_pid_dead cycles row
unfolding is_lock_stale read_lock
stale-IsAbandoned dead_pid cycles row held h = elim (Bool-cases (is_finished row.cycle_id cycles)) [
  | inr live ↦ owner-IsAbandoned dead_pid cycles row (ground (arith, h, live, held))
  | inl finished ↦ elim (Option-cases row.cycle_id) [
    | inl unnamed ↦ absurd (cc (unnamed, finished))
    | inr (id, named) ↦
        finished-IsAbandoned dead_pid cycles row id named
          (sym (ap (λ c. is_finished c cycles) named) ∙ finished)
  ]
]

IsAbandoned-stale :
    (is_pid_dead : ℕ → Bool) (cycles : CycleTable) (row : LockRow)
    → row.locked ≡ true
    → IsAbandoned is_pid_dead cycles row
    → is_lock_stale is_pid_dead cycles (some row) ≡ true
unfolding is_lock_stale read_lock
IsAbandoned-stale dead_pid cycles row held (gone id e n g) = ground arith
IsAbandoned-stale dead_pid cycles row held (over id cycle e n g t) = ground arith
IsAbandoned-stale dead_pid cycles row held (dead pid e d) = ground arith

-- A held lock is taken for stale exactly when its cycle is gone or over or its owner is dead; the
-- time for which it is held plays no part.
pub is_lock_stale_iff :
    (is_pid_dead : ℕ → Bool) (cycles : CycleTable) (row : LockRow)
    → row.locked ≡ true
    → (is_lock_stale is_pid_dead cycles (some row) ≡ true) ↔ IsAbandoned is_pid_dead cycles row
is_lock_stale_iff dead_pid cycles row held =
    (stale-IsAbandoned dead_pid cycles row held, IsAbandoned-stale dead_pid cycles row held)
