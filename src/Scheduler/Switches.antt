-- ===== src/Scheduler/Switches.antt =====
-- What turning autonomy off does to the ticks of orchestrator/src/autonomy/scheduler.ts.
use muslimrentals.Prelude.{ℕ, ◌≡◌, refl, Bool, false, some, List, [], ◌∷◌, map, ◌==◌}
use muslimrentals.Scheduler.{
  SchedulerState, scheduler_status_equality, scheduler_rank, running, Store, get_scheduler_state,
  persist_state, log_event, pause_autonomy, stop_autonomy, SchedulerTickResult, disabled, TickClock,
  run_scheduler_tick,
}

module _ {Outcome : Type 0} (is_pid_dead : ℕ → Bool) (run_cycle : Store → Outcome × Store) where
  -- Ticks one after the other, and their results.
  unfoldable pub run_ticks : List TickClock → Store → List SchedulerTickResult × Store
  run_ticks [] store = ([], store)
  run_ticks (clock ∷ clocks) store =
      let (result, _, after) = run_scheduler_tick is_pid_dead run_cycle clock store in
      let (results, final) = run_ticks clocks after in (result ∷ results, final)

  off-ticks :
      (clocks : List TickClock) (state : SchedulerState) (store : Store)
      → store.scheduler ≡ some state
      → (state.status == running) ≡ false
      → run_ticks clocks store ≡ (map (λ _. disabled) clocks, store)
  unfolding run_ticks run_scheduler_tick get_scheduler_state
  off-ticks [] state store h off = refl
  off-ticks (clock ∷ clocks) state store h off = simp (h, off, off-ticks clocks state store h off)

  pause-scheduler :
      (now : ℕ) (store : Store)
      → (state : SchedulerState) × ((pause_autonomy now store).1.scheduler ≡ some state)
        × ((state.status == running) ≡ false)
  unfolding pause_autonomy persist_state log_event scheduler_rank
  pause-scheduler now store = (_, refl, refl)

  stop-scheduler :
      (now : ℕ) (store : Store)
      → (state : SchedulerState) × ((stop_autonomy now store).1.scheduler ≡ some state)
        × ((state.status == running) ≡ false)
  unfolding stop_autonomy persist_state log_event scheduler_rank
  stop-scheduler now store = (_, refl, refl)

  -- After a pause or a stop every tick is refused and leaves the store as it is.
  pub run_ticks-off :
      (now : ℕ) (clocks : List TickClock) (store : Store)
      → (run_ticks clocks (pause_autonomy now store).1
          ≡ (map (λ _. disabled) clocks, (pause_autonomy now store).1))
        × (run_ticks clocks (stop_autonomy now store).1
            ≡ (map (λ _. disabled) clocks, (stop_autonomy now store).1))
  run_ticks-off now clocks store =
      let (paused_state, pauses, off) = pause-scheduler now store in
      let (stopped_state, stops, out) = stop-scheduler now store in
      (
        off-ticks clocks paused_state (pause_autonomy now store).1 pauses off,
        off-ticks clocks stopped_state (stop_autonomy now store).1 stops out,
      )
