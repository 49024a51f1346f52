-- ===== src/Processes/Spared.antt =====
-- The processes that `cleanupOrphanedWorkers` (orchestrator/src/autonomy/workerRegistry.ts) does not
-- signal.
use muslimrentals.Prelude.{
  ◌≡◌, refl, ◌∙◌, ℕ, zero, suc, Bool, true, false, not, ◌||◌, Option, none, some, List, [], ◌∷◌,
  all, eqb, ltb, arith,
}
use muslimrentals.Processes.{
  Signal, sigterm, sigkill, Kill, signalled, no_such_process, refused, System, after_force,
  after_grace, is_pid_dead, is_same_process, poll, force, ask_first, terminate_process_group,
}
use muslimrentals.Processes.Registry.{
  WorkerProcessRow, Sweep, clean_row, clean_rows, list_running_worker_rows,
  cleanup_orphaned_workers,
}
use muslimrentals.Processes.Cleanup.{
  Yields, yielded, Yields-map, if-Yields, clean_row-Yields, clean_then-Yields,
}

-- The row gives no cause to signal the process `q`: it is of another process, or its owner lives, or
-- its process is dead or is not the one that was spawned.
abbrev pub spares : {Machine : Type 0} → System Machine → ℕ → Machine → WorkerProcessRow → Bool
spares system q m row =
    not (eqb row.pid q)
    || (not (is_pid_dead system row.owner_pid m)
        || (is_pid_dead system row.pid m || not (is_same_process system row.pid row.start_ticks m)))

module _ {Machine : Type 0} (system : System Machine) (fuel graceful_ms : ℕ) where
  module _ {X : Type 0} (f : Machine → X) (q : ℕ)
      (aimed : (pid : ℕ) (signal : Signal) (m : Machine)
        → eqb pid q ≡ false
        → f (system.kill_group pid signal m).1 ≡ f m)
      (idle : (interval : ℕ) (m : Machine) → f (system.wait interval m) ≡ f m) where
    poll-same :
        (n pid deadline interval : ℕ) (m : Machine)
        → Yields (λ r. f r.1 ≡ f m) (poll system n pid deadline interval m)
    unfolding poll
    poll-same zero pid deadline interval m = tt
    poll-same (suc n) pid deadline interval m =
        if-Yields _ (ltb (system.now m) deadline) _ _
          (λ early.
            if-Yields _ (is_pid_dead system pid m) _ _ (λ dead. refl)
              (λ alive.
                Yields-map (λ r. f r.1 ≡ f (system.wait interval m)) _ _
                  (λ r e. e ∙ idle interval m)
                  (poll-same n pid deadline interval (system.wait interval m))))
          (λ over. refl)

    after_force-same :
        (m : Machine) (o : Option (Bool × Machine))
        → Yields (λ r. f r.1 ≡ f m) o
        → Yields (λ r. f r.1 ≡ f m) (after_force system o)
    after_force-same m none h = tt
    after_force-same m (some (true, m')) h = h
    after_force-same m (some (false, m')) h = h

    force-same :
        (pid interval : ℕ) (m : Machine) (killed : Kill × Machine)
        → f killed.1 ≡ f m
        → Yields (λ r. f r.1 ≡ f m) (force system fuel pid graceful_ms interval killed)
    force-same pid interval m (signalled, m1) e = after_force-same m _ (
        Yields-map (λ r. f r.1 ≡ f m1) _ (poll system fuel pid _ interval m1) (λ r e'. e' ∙ e)
          (poll-same fuel pid _ interval m1))
    force-same pid interval m (no_such_process, m1) e = e
    force-same pid interval m (refused, m1) e = tt

    after_grace-same :
        (pid interval : ℕ) (m : Machine) (o : Option (Bool × Machine))
        → eqb pid q ≡ false
        → Yields (λ r. f r.1 ≡ f m) o
        → Yields (λ r. f r.1 ≡ f m) (after_grace system fuel pid graceful_ms interval o)
    after_grace-same pid interval m none other h = tt
    after_grace-same pid interval m (some (true, m1)) other h = h
    after_grace-same pid interval m (some (false, m1)) other h =
        force-same pid interval m _ (aimed pid sigkill m1 other ∙ h)

    ask_first-same :
        (pid interval : ℕ) (m : Machine) (killed : Kill × Machine)
        → eqb pid q ≡ false
        → f killed.1 ≡ f m
        → Yields (λ r. f r.1 ≡ f m) (ask_first system fuel pid graceful_ms interval killed)
    ask_first-same pid interval m (signalled, m1) other e =
        after_grace-same pid interval m _ other (
          Yields-map (λ r. f r.1 ≡ f m1) _ (poll system fuel pid _ interval m1) (λ r e'. e' ∙ e)
            (poll-same fuel pid _ interval m1))
    ask_first-same pid interval m (no_such_process, m1) other e = e
    ask_first-same pid interval m (refused, m1) other e = tt

    terminate-same :
        (pid : ℕ) (m : Machine)
        → eqb pid q ≡ false
        → Yields (λ r. f r.1 ≡ f m) (terminate_process_group system fuel pid graceful_ms 100 m)
    unfolding terminate_process_group
    terminate-same pid m other =
        if-Yields _ (is_pid_dead system pid m) _ _ (λ dead. refl)
          (λ alive. ask_first-same pid 100 m _ other (aimed pid sigterm m other))

    clean_row-same :
        (row : WorkerProcessRow) (s : Sweep Machine)
        → spares system q s.machine row ≡ true
        → Yields (λ t. f t.machine ≡ f s.machine) (clean_row system fuel graceful_ms row s)
    clean_row-same row s spare =
        clean_row-Yields system fuel graceful_ms _ row s (λ _. refl) (λ _ _. refl) (λ _ _ _. refl)
          (λ orphan up same outcome m ended.
            yielded (λ r. f r.1 ≡ f s.machine) _ (outcome, m)
              (terminate-same row.pid s.machine (ground (arith, spare, orphan, up, same))) ended)

    clean_rows-same :
        (rows : List WorkerProcessRow) (s : Sweep Machine)
        → ((m : Machine) → all (spares system q m) rows ≡ true)
        → Yields (λ t. f t.machine ≡ f s.machine) (clean_rows system fuel graceful_ms rows s)
    unfolding clean_rows
    clean_rows-same [] s spare = refl
    clean_rows-same (row ∷ rows) s spare =
        clean_then-Yields system fuel graceful_ms _ (λ t. f t.machine ≡ f s.machine) _
          (clean_row system fuel graceful_ms row s)
          (clean_row-same row s (ground (arith, spare s.machine)))
          (λ t e.
            Yields-map (λ u. f u.machine ≡ f t.machine) _ _ (λ u e'. e' ∙ e)
              (clean_rows-same rows t (λ m. ground (arith, spare m))))

    -- A process is left alone, whatever a signal to another process and the passing of time leave
    -- alone of it, if each running row of its pid has, whenever it is looked at, an owner that lives,
    -- a process that is dead, or one whose start time is not the recorded one.
    pub cleanup_orphaned_workers-spares :
        (table : List WorkerProcessRow) (machine : Machine) (s : Sweep Machine)
        → ((m : Machine) → all (spares system q m) (list_running_worker_rows table) ≡ true)
        → cleanup_orphaned_workers system fuel graceful_ms table machine ≡ some s
        → f s.machine ≡ f machine
    unfolding cleanup_orphaned_workers
    cleanup_orphaned_workers-spares table machine s spare h =
        yielded _ _ s (clean_rows-same (list_running_worker_rows table) _ spare) h
