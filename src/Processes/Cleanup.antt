-- ===== src/Processes/Cleanup.antt =====
-- What `cleanupOrphanedWorkers` (orchestrator/src/autonomy/workerRegistry.ts) touches, and what it
-- leaves in the registry.
use muslimrentals.Prelude.{
  ◌≡◌, refl, ◌∙◌, subst, ℕ, suc, ◌+◌, Bool, true, false, not, ◌||◌, Option, none, some, List, [],
  ◌∷◌, all, length, length-append, eqb, arith, if◌then◌else◌,
}
use muslimrentals.Processes.{
  System, TerminationOutcome, is_pid_dead, is_same_process, terminate_process_group,
}
use muslimrentals.Processes.Registry.{
  WorkerProcessRow, is_running, record_worker_exited, OrphanCleanupResult, Sweep, clean_row,
  clean_rows, list_running_worker_rows, leave_alone, note_gone, note_unverifiable, note_terminated,
  clean_then, cleanup_orphaned_workers,
}

-- The rows of a process are out of the registry's running workers.
abbrev pub all_exited : ℕ → List WorkerProcessRow → Bool
all_exited pid table = all (λ row. not (eqb row.pid pid) || not (is_running row)) table

exited-all :
    (pid : ℕ) (table : List WorkerProcessRow)
    → all_exited pid (record_worker_exited pid table) ≡ true
unfolding record_worker_exited
exited-all pid [] = refl
exited-all pid (row ∷ table) = ground (arith, exited-all pid table)

-- How many rows were examined.
abbrev pub examined : OrphanCleanupResult → ℕ
examined r =
    length r.terminated
    + (length r.owner_still_alive + (length r.already_gone + length r.unverifiable))

-- What holds of what is returned, if anything is.
abbrev pub Yields : {A : Type 0} → (A → Type 0) → Option A → Type 0
Yields Q none = Unit
Yields Q (some a) = Q a

pub yielded : {A : Type 0} (Q : A → Type 0) (o : Option A) (a : A) → Yields Q o → o ≡ some a → Q a
yielded Q o a h e = subst (Yields Q) e h

pub Yields-map :
    {A : Type 0} (Q R : A → Type 0) (o : Option A) → ((a : A) → Q a → R a) → Yields Q o → Yields R o
Yields-map Q R none weaker h = tt
Yields-map Q R (some a) weaker h = weaker a h

pub if-Yields :
    {A : Type 0} (Q : A → Type 0) (b : Bool) (first second : Option A)
    → (b ≡ true → Yields Q first)
    → (b ≡ false → Yields Q second)
    → Yields Q (if b then first else second)
if-Yields Q true first second on off = on refl
if-Yields Q false first second on off = off refl

module _ {Machine : Type 0} (system : System Machine) (fuel graceful_ms : ℕ) where
  note_terminated-Yields :
      (Q : Sweep Machine → Type 0) (row : WorkerProcessRow) (s : Sweep Machine)
      (ended : Option (TerminationOutcome × Machine))
      → ((outcome : TerminationOutcome) (m : Machine)
          → ended ≡ some (outcome, m)
          → Yields Q (note_terminated system fuel graceful_ms row s (some (outcome, m))))
      → Yields Q (note_terminated system fuel graceful_ms row s ended)
  note_terminated-Yields Q row s none each = tt
  note_terminated-Yields Q row s (some (outcome, m)) each = each outcome m refl

  -- The four ways of a round.
  pub clean_row-Yields :
      (Q : Sweep Machine → Type 0) (row : WorkerProcessRow) (s : Sweep Machine)
      → (is_pid_dead system row.owner_pid s.machine ≡ false
          → Q (leave_alone system fuel graceful_ms row s))
      → (is_pid_dead system row.owner_pid s.machine ≡ true
          → is_pid_dead system row.pid s.machine ≡ true
          → Q (note_gone system fuel graceful_ms row s))
      → (is_pid_dead system row.owner_pid s.machine ≡ true
          → is_pid_dead system row.pid s.machine ≡ false
          → is_same_process system row.pid row.start_ticks s.machine ≡ false
          → Q (note_unverifiable system fuel graceful_ms row s))
      → (is_pid_dead system row.owner_pid s.machine ≡ true
          → is_pid_dead system row.pid s.machine ≡ false
          → is_same_process system row.pid row.start_ticks s.machine ≡ true
          → (outcome : TerminationOutcome) (m : Machine)
          → terminate_process_group system fuel row.pid graceful_ms 100 s.machine
            ≡ some (outcome, m)
          → Yields Q (note_terminated system fuel graceful_ms row s (some (outcome, m))))
      → Yields Q (clean_row system fuel graceful_ms row s)
  unfolding clean_row
  clean_row-Yields Q row s owned gone unsure ended =
      if-Yields Q (not (is_pid_dead system row.owner_pid s.machine)) _ _
        (λ alive. owned (ground (arith, alive)))
        (λ orphan.
          if-Yields Q (is_pid_dead system row.pid s.machine) _ _
            (λ dead. gone (ground (arith, orphan)) dead)
            (λ up.
              if-Yields Q (not (is_same_process system row.pid row.start_ticks s.machine)) _ _
                (λ other. unsure (ground (arith, orphan)) up (ground (arith, other)))
                (λ same.
                  note_terminated-Yields Q row s
                    (terminate_process_group system fuel row.pid graceful_ms 100 s.machine)
                    (ended (ground (arith, orphan)) up (ground (arith, same))))))

  -- A round whose worker has lost its owner takes every row of that pid out of the running workers,
  -- also the row of a worker which has got the same pid since and whose owner is alive.
  pub clean_row-all_exited :
      (row : WorkerProcessRow) (s s' : Sweep Machine)
      → clean_row system fuel graceful_ms row s ≡ some s'
      → is_pid_dead system row.owner_pid s.machine ≡ true
      → all_exited row.pid s'.table ≡ true
  clean_row-all_exited row s s' h orphan =
      yielded (λ t. all_exited row.pid t.table ≡ true) _ s'
        (clean_row-Yields (λ t. all_exited row.pid t.table ≡ true) row s (λ alive. cc)
          (λ _ _. exited-all row.pid s.table) (λ _ _ _. exited-all row.pid s.table)
          (λ _ _ _ outcome m _. exited-all row.pid s.table))
        h

  clean_row-examined :
      (row : WorkerProcessRow) (s : Sweep Machine)
      → Yields
          (λ t.
            (examined t.result ≡ suc (examined s.result)) × (t.result.checked ≡ s.result.checked))
          (clean_row system fuel graceful_ms row s)
  clean_row-examined row s =
      let r = s.result in
      clean_row-Yields _ row s
        (λ _. (omega (arith, length-append r.owner_still_alive (row ∷ [])), refl))
        (λ _ _. (omega (arith, length-append r.already_gone (row ∷ [])), refl))
        (λ _ _ _. (omega (arith, length-append r.unverifiable (row ∷ [])), refl))
        (λ _ _ _ outcome m _. (omega (arith, length-append r.terminated (row ∷ [])), refl))

  pub clean_then-Yields :
      (P Q : Sweep Machine → Type 0) (later : Sweep Machine → Option (Sweep Machine))
      (o : Option (Sweep Machine))
      → Yields P o
      → ((t : Sweep Machine) → P t → Yields Q (later t))
      → Yields Q (clean_then system fuel graceful_ms later o)
  clean_then-Yields P Q later none h next = tt
  clean_then-Yields P Q later (some t) h next = next t h

  -- `n` rows more have been examined than in the result `r`.
  abbrev IsCounted : ℕ → OrphanCleanupResult → Sweep Machine → Type 0
  IsCounted n r t = (examined t.result ≡ n + examined r) × (t.result.checked ≡ r.checked)

  clean_rows-examined :
      (rows : List WorkerProcessRow) (s : Sweep Machine)
      → Yields (IsCounted (length rows) s.result) (clean_rows system fuel graceful_ms rows s)
  unfolding clean_rows
  clean_rows-examined [] s = (omega arith, refl)
  clean_rows-examined (row ∷ rows) s =
      clean_then-Yields _ (IsCounted (length (row ∷ rows)) s.result) _
        (clean_row system fuel graceful_ms row s) (clean_row-examined row s)
        (λ t (one, same).
          Yields-map (IsCounted (length rows) t.result) (IsCounted (length (row ∷ rows)) s.result) _
            (λ u (more, same'). (omega (arith, one, more), same' ∙ same))
            (clean_rows-examined rows t))

  -- The four lists of the result hold as many rows as were checked: none is lost or counted twice.
  pub cleanup_orphaned_workers-examined :
      (table : List WorkerProcessRow) (machine : Machine) (s : Sweep Machine)
      → cleanup_orphaned_workers system fuel graceful_ms table machine ≡ some s
      → (examined s.result ≡ length (list_running_worker_rows table))
        × (s.result.checked ≡ length (list_running_worker_rows table))
  unfolding cleanup_orphaned_workers
  cleanup_orphaned_workers-examined table machine s h =
      let (counted, same) =
        yielded _ _ s (clean_rows-examined (list_running_worker_rows table) _) h in
      (omega (arith, counted), same)
