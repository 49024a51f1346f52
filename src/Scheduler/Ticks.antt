-- ===== src/Scheduler/Ticks.antt =====
-- When `runSchedulerTick` (orchestrator/src/autonomy/scheduler.ts) launches a cycle.
use muslimrentals.Prelude.{
  ℕ, ◌+◌, ◌*◌, ◌<◌, ◌≡◌, ◌≢◌, ◌⊎◌, refl, [], ◌∷◌, ◌++◌, ap, Bool, true, false, Option, none, some,
  arith, ◌==◌, Bool-cases, inl, inr,
}
use muslimrentals.Cycles.{read_lock, is_lock_stale}
use muslimrentals.Cycles.Lock.{release-free}
use muslimrentals.Scheduler.{
  SchedulerState, scheduler_status_equality, running, Store, get_scheduler_state, persist_state,
  cycle_failed, log_event, SchedulerTickResult, launched, TickClock, clear_stale, is_not_due,
  advanced, run_scheduler_tick,
}

clear_stale-free :
    (is_pid_dead : ℕ → Bool) (store : Store)
    → (read_lock (clear_stale is_pid_dead store).lock).locked ≡ false
    → ((read_lock store.lock).locked ≡ false)
      ⊎ (is_lock_stale is_pid_dead store.cycles store.lock ≡ true)
unfolding clear_stale
clear_stale-free dead_pid store h =
    elim (Bool-cases (is_lock_stale dead_pid store.cycles store.lock)) [
      | inl stale ↦ inr stale
      | inr fresh ↦ inl (rw fresh at h)
    ]

clear_stale-frees :
    (is_pid_dead : ℕ → Bool) (store : Store)
    → ((read_lock store.lock).locked ≡ false)
      ⊎ (is_lock_stale is_pid_dead store.cycles store.lock ≡ true)
    → (read_lock (clear_stale is_pid_dead store).lock).locked ≡ false
unfolding clear_stale log_event
clear_stale-frees dead_pid store (inr stale) = rw stale (release-free store.lock)
clear_stale-frees dead_pid store (inl free) =
    elim (Bool-cases (is_lock_stale dead_pid store.cycles store.lock)) [
      | inl stale ↦ rw stale (release-free store.lock)
      | inr fresh ↦ rw fresh free
    ]

clear_stale-keeps :
    (is_pid_dead : ℕ → Bool) (store : Store)
    → ((clear_stale is_pid_dead store).scheduler ≡ store.scheduler)
      × ((clear_stale is_pid_dead store).cycles ≡ store.cycles)
unfolding clear_stale log_event
clear_stale-keeps dead_pid store =
    elim (Bool-cases (is_lock_stale dead_pid store.cycles store.lock)) [
      | inl stale ↦ rw stale (refl, refl)
      | inr fresh ↦ rw fresh (refl, refl)
    ]

-- What became of a lock: it is as it was, or it was stale, has been released, and the log has an
-- entry of a failed cycle more.
pub data IsCleared (is_pid_dead : ℕ → Bool) (store after : Store) : Type 0 where
  untouched :
      after.lock ≡ store.lock → after.events ≡ store.events → IsCleared is_pid_dead store after
  released :
      is_lock_stale is_pid_dead store.cycles store.lock ≡ true
      → (read_lock after.lock).locked ≡ false
      → after.events ≡ store.events ++ cycle_failed ∷ []
      → IsCleared is_pid_dead store after

clear_stale-IsCleared :
    (is_pid_dead : ℕ → Bool) (store : Store)
    → IsCleared is_pid_dead store (clear_stale is_pid_dead store)
unfolding clear_stale log_event
clear_stale-IsCleared dead_pid store =
    elim (Bool-cases (is_lock_stale dead_pid store.cycles store.lock)) [
      | inl stale ↦ rw stale (released stale (release-free store.lock) refl)
      | inr fresh ↦ rw fresh (untouched refl refl)
    ]

-- What a tick must find to launch a cycle: autonomy is running, the lock is free or stale, and the
-- next cycle is due.
pub record IsDue (is_pid_dead : ℕ → Bool) (clock : TickClock) (store : Store) : Type 0 where
  pub enabled : ((get_scheduler_state clock.read_at store).status == running) ≡ true
  pub free :
      ((read_lock store.lock).locked ≡ false)
      ⊎ (is_lock_stale is_pid_dead store.cycles store.lock ≡ true)
  pub due : is_not_due (get_scheduler_state clock.read_at store) clock.checked_at ≡ false

module _ {Outcome : Type 0} (is_pid_dead : ℕ → Bool) (run_cycle : Store → Outcome × Store) where
  -- The store that the cycle of a tick starts from.
  abbrev pub launch_store : TickClock → Store → Store
  launch_store clock store =
      persist_state (advanced clock.launched_at (get_scheduler_state clock.read_at store))
        (clear_stale is_pid_dead store)

  abbrev tick : TickClock → Store → SchedulerTickResult × Option Outcome × Store
  tick = run_scheduler_tick is_pid_dead run_cycle

  tick-due :
      (clock : TickClock) (store : Store)
      → IsDue is_pid_dead clock store
      → tick clock store ≡ (
        launched,
        some (run_cycle (launch_store clock store)).0,
        (run_cycle (launch_store clock store)).1,
      )
  unfolding run_scheduler_tick
  tick-due clock store h = rw (h.enabled, clear_stale-frees is_pid_dead store h.free, h.due) refl

  -- What a tick that launches nothing leaves: all as it was, but for a stale lock, which may be
  -- released.
  pub record IsIdle (store : Store) (outcome : SchedulerTickResult × Option Outcome × Store)
      : Type 0 where
    pub result : outcome.0 ≢ launched
    pub no_cycle : outcome.1 ≡ none
    pub same_scheduler : outcome.2.scheduler ≡ store.scheduler
    pub same_cycles : outcome.2.cycles ≡ store.cycles
    pub lock : IsCleared is_pid_dead store outcome.2

  tick_branches :
      (clock : TickClock) (store : Store)
      → IsIdle store (tick clock store) ⊎ IsDue is_pid_dead clock store
  unfolding run_scheduler_tick
  tick_branches clock store =
      let state = get_scheduler_state clock.read_at store in
      let cleared = clear_stale is_pid_dead store in
      let (scheduler_kept, cycles_kept) = clear_stale-keeps is_pid_dead store in
      let lock = clear_stale-IsCleared is_pid_dead store in
      elim (Bool-cases (state.status == running)) [
        | inr off ↦ inl (
            rw off (record {
              result = λ h. cc;
              no_cycle = refl;
              same_scheduler = refl;
              same_cycles = refl;
              lock = untouched refl refl;
            }))
        | inl on ↦ elim (Bool-cases (read_lock cleared.lock).locked) [
          | inl held ↦ inl (
              rw (on, held)
                (record {
                  result = λ h. cc;
                  no_cycle = refl;
                  same_scheduler = scheduler_kept;
                  same_cycles = cycles_kept;
                  lock = lock;
                }))
          | inr free ↦ elim (Bool-cases (is_not_due state clock.checked_at)) [
            | inl early ↦ inl (
                rw (on, free, early)
                  (record {
                    result = λ h. cc;
                    no_cycle = refl;
                    same_scheduler = scheduler_kept;
                    same_cycles = cycles_kept;
                    lock = lock;
                  }))
            | inr due ↦
                inr (record {
                  enabled = on;
                  free = clear_stale-free is_pid_dead store free;
                  due = due;
                })
          ]
        ]
      ]

  -- What a cycle starts from: the next one is due a cadence after the launch, the lock is free, and
  -- the rest is as it was.
  pub record IsLaunchStore (clock : TickClock) (store start : Store) : Type 0 where
    pub scheduled :
        start.scheduler
        ≡ some (record (get_scheduler_state clock.read_at store) {
          next_eligible_at = some (
              clock.launched_at
              + (get_scheduler_state clock.read_at store).cadence_minutes * 60000);
          updated_at = clock.launched_at;
        })
    pub same_cycles : start.cycles ≡ store.cycles
    pub unlocked : (read_lock start.lock).locked ≡ false
    pub lock : IsCleared is_pid_dead store start

  persisted-IsCleared :
      (state : SchedulerState) (store after : Store)
      → IsCleared is_pid_dead store after
      → IsCleared is_pid_dead store (persist_state state after)
  unfolding persist_state
  persisted-IsCleared state store after (untouched l e) = untouched l e
  persisted-IsCleared state store after (released s l e) = released s l e

  launch_store-IsLaunchStore :
      (clock : TickClock) (store : Store)
      → IsDue is_pid_dead clock store
      → IsLaunchStore clock store (launch_store clock store)
  unfolding persist_state advanced
  launch_store-IsLaunchStore clock store h = record {
    scheduled = refl;
    same_cycles = (clear_stale-keeps is_pid_dead store).1;
    unlocked = clear_stale-frees is_pid_dead store h.free;
    lock = persisted-IsCleared _ store _ (clear_stale-IsCleared is_pid_dead store);
  }

  launched-IsDue :
      (clock : TickClock) (store : Store)
      → (tick clock store).0 ≡ launched
      → IsDue is_pid_dead clock store
  launched-IsDue clock store h = elim (tick_branches clock store) [
    | inl idle ↦ absurd (idle.result h)
    | inr due ↦ due
  ]

  -- What a tick does.
  pub data LaunchesWhenDue (clock : TickClock) (store : Store) : Type 0 where
    launch :
        IsDue is_pid_dead clock store
        → (start : Store)
        → tick clock store ≡ (launched, some (run_cycle start).0, (run_cycle start).1)
        → IsLaunchStore clock store start
        → LaunchesWhenDue clock store
    idle :
        (IsDue is_pid_dead clock store → ⊥)
        → IsIdle store (tick clock store)
        → LaunchesWhenDue clock store

  -- A tick launches a cycle when autonomy is running, the lock is free or stale, and the next cycle
  -- is due; the cycle starts with a free lock, the cycles as they were, and the next one due a
  -- cadence after the launch. In all other cases no cycle runs, and nothing changes but that a stale
  -- lock may be released and this logged.
  pub run_scheduler_tick-LaunchesWhenDue :
      (clock : TickClock) (store : Store) → LaunchesWhenDue clock store
  run_scheduler_tick-LaunchesWhenDue clock store = elim (tick_branches clock store) [
    | inl waiting ↦ idle (λ due. waiting.result (ap (λ t. t.0) (tick-due clock store due))) waiting
    | inr due ↦
        launch due (launch_store clock store) (tick-due clock store due)
          (launch_store-IsLaunchStore clock store due)
  ]

  launched-advanced :
      ((store : Store) → (run_cycle store).1.scheduler ≡ store.scheduler)
      → (clock : TickClock) (store : Store) → (tick clock store).0 ≡ launched
      → (tick clock store).2.scheduler
        ≡ some (advanced clock.launched_at (get_scheduler_state clock.read_at store))
  unfolding persist_state
  launched-advanced keeps clock store h =
      let due = launched-IsDue clock store h in
      rw (tick-due clock store due) (keeps (launch_store clock store))

  not_due-advanced :
      (launched_at checked_at read_at : ℕ) (state : SchedulerState) (store : Store)
      → store.scheduler ≡ some (advanced launched_at state)
      → checked_at < launched_at + state.cadence_minutes * 60000
      → is_not_due (get_scheduler_state read_at store) checked_at ≡ true
  unfolding is_not_due get_scheduler_state advanced
  not_due-advanced launched_at checked_at read_at state store h early = rw h (ground (arith, early))

  -- After a launch, a tick that comes before the cadence is over launches nothing, however the cycle
  -- ended and whatever became of the lock, if the cycle leaves the scheduler's own row alone.
  pub run_scheduler_tick-cadence :
      ((store : Store) → (run_cycle store).1.scheduler ≡ store.scheduler)
      → (clock later : TickClock) (store : Store) → (tick clock store).0 ≡ launched
      → later.checked_at
        < clock.launched_at + (get_scheduler_state clock.read_at store).cadence_minutes * 60000
      → (tick later (tick clock store).2).0 ≢ launched
  run_scheduler_tick-cadence keeps clock later store h early again =
      let due = launched-IsDue later (tick clock store).2 again in
      cc (
        due.due,
        not_due-advanced clock.launched_at later.checked_at later.read_at
            (get_scheduler_state clock.read_at store) (tick clock store).2
            (launched-advanced keeps clock store h) early,
      )
