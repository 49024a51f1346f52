-- ===== src/Processes/Termination.antt =====
-- The end of `terminateProcessGroup` (orchestrator/src/process/liveness.ts).
use muslimrentals.Prelude.{
  ◌≡◌, refl, ◌≢◌, ℕ, zero, suc, ◌+◌, ◌/◌, ◌≤◌, ◌<◌, max, Bool, true, false, none, some, arith, ltb,
  Bool-cases, Option-cases, inl, inr,
}
use muslimrentals.Processes.{
  Signal, sigterm, sigkill, Kill, signalled, no_such_process, refused, System, TerminationOutcome,
  could_not_confirm, is_pid_dead, poll, force, ask_first, terminate_process_group,
}

abbrev pub is_confirmed : TerminationOutcome → Bool
is_confirmed could_not_confirm = false
is_confirmed outcome = true

module _ {Machine : Type 0} (system : System Machine) where
  -- A poll that ends reports what it saw last.
  poll-dead :
      (fuel pid deadline interval : ℕ) (m m' : Machine) (dead : Bool)
      → poll system fuel pid deadline interval m ≡ some (dead, m')
      → is_pid_dead system pid m' ≡ dead
  unfolding poll
  poll-dead zero pid deadline interval m m' dead h = cc
  poll-dead (suc fuel) pid deadline interval m m' dead h =
      ground (arith, h, poll-dead fuel pid deadline interval (system.wait interval m) m' dead)

  module _
      (advances : (interval : ℕ) (m : Machine)
        → system.now m < system.now (system.wait interval m)) where
    poll-ends :
        (fuel pid deadline interval : ℕ) (m : Machine)
        → deadline ≤ fuel + system.now m
        → poll system (suc fuel) pid deadline interval m ≢ none
    unfolding poll
    poll-ends zero pid deadline interval m enough h = ground (arith, h, enough)
    poll-ends (suc fuel) pid deadline interval m enough h =
        elim (Bool-cases (ltb (system.now m) deadline)) [
          | inr over ↦ ground (arith, h, over)
          | inl early ↦ elim (Bool-cases (is_pid_dead system pid m)) [
            | inl dead ↦ ground (arith, h, early, dead)
            | inr alive ↦
                poll-ends fuel pid deadline interval (system.wait interval m)
                  (omega (arith, advances interval m, enough)) (ground (arith, h, early, alive))
          ]
        ]

    module _
        (unrefused : (pid : ℕ) (signal : Signal) (m : Machine)
          → (system.kill_group pid signal m).0 ≢ refused) where
      force-ends :
          (fuel pid graceful_ms interval : ℕ) (killed : Kill × Machine)
          → killed.0 ≢ refused
          → max 5000 ((graceful_ms + 3) / 4) ≤ fuel
          → force system (suc fuel) pid graceful_ms interval killed ≢ none
      force-ends fuel pid graceful_ms interval (signalled, m) ok enough h =
          elim (Option-cases (
            poll system (suc fuel) pid (system.now m + max 5000 ((graceful_ms + 3) / 4)) interval
              m)) [
                | inl ran_out ↦ poll-ends fuel pid _ interval m (omega (arith, enough)) ran_out
                | inr ((true, m'), e) ↦ ground (arith, h, e)
                | inr ((false, m'), e) ↦ ground (arith, h, e)
              ]
      force-ends fuel pid graceful_ms interval (no_such_process, m) ok enough h = cc
      force-ends fuel pid graceful_ms interval (refused, m) ok enough h = ok refl

      ask_first-ends :
          (fuel pid graceful_ms interval : ℕ) (killed : Kill × Machine)
          → killed.0 ≢ refused
          → graceful_ms ≤ fuel
          → max 5000 ((graceful_ms + 3) / 4) ≤ fuel
          → ask_first system (suc fuel) pid graceful_ms interval killed ≢ none
      ask_first-ends fuel pid graceful_ms interval (signalled, m) ok grace enough h =
          elim (Option-cases (poll system (suc fuel) pid (system.now m + graceful_ms) interval m)) [
            | inl ran_out ↦ poll-ends fuel pid _ interval m (omega (arith, grace)) ran_out
            | inr ((true, m'), e) ↦ ground (arith, h, e)
            | inr ((false, m'), e) ↦
                force-ends fuel pid graceful_ms interval (system.kill_group pid sigkill m')
                  (unrefused pid sigkill m') enough (ground (arith, h, e))
          ]
      ask_first-ends fuel pid graceful_ms interval (no_such_process, m) ok grace enough h = cc
      ask_first-ends fuel pid graceful_ms interval (refused, m) ok grace enough h = ok refl

      -- Where a wait lets time pass and no signal is refused, the termination of a process comes to
      -- an end: so many polls as there are milliseconds in the longer of its two periods are enough.
      pub terminate_process_group-ends :
          (fuel pid graceful_ms interval : ℕ) (m : Machine)
          → graceful_ms ≤ fuel
          → max 5000 ((graceful_ms + 3) / 4) ≤ fuel
          → terminate_process_group system (suc fuel) pid graceful_ms interval m ≢ none
      unfolding terminate_process_group
      terminate_process_group-ends fuel pid graceful_ms interval m grace enough h =
          elim (Bool-cases (is_pid_dead system pid m)) [
            | inl dead ↦ ground (arith, h, dead)
            | inr alive ↦
                ask_first-ends fuel pid graceful_ms interval (system.kill_group pid sigterm m)
                  (unrefused pid sigterm m) grace enough (ground (arith, h, alive))
          ]

  module _
      (reported : (pid : ℕ) (signal : Signal) (m : Machine)
        → (system.kill_group pid signal m).0 ≡ no_such_process
        → is_pid_dead system pid (system.kill_group pid signal m).1 ≡ true) where
    force-truthful :
        (fuel pid graceful_ms interval : ℕ) (killed : Kill × Machine) (outcome : TerminationOutcome)
        (m' : Machine)
        → (killed.0 ≡ no_such_process → is_pid_dead system pid killed.1 ≡ true)
        → force system fuel pid graceful_ms interval killed ≡ some (outcome, m')
        → is_pid_dead system pid m' ≡ is_confirmed outcome
    force-truthful fuel pid graceful_ms interval (signalled, m) outcome m' gone h =
        elim (Option-cases
          (poll system fuel pid (system.now m + max 5000 ((graceful_ms + 3) / 4)) interval m)) [
            | inl ran_out ↦ ground (arith, h, ran_out)
            | inr ((true, m1), e) ↦ ground (arith, h, e, poll-dead fuel pid _ interval m m1 true e)
            | inr ((false, m1), e) ↦
                ground (arith, h, e, poll-dead fuel pid _ interval m m1 false e)
          ]
    force-truthful fuel pid graceful_ms interval (no_such_process, m) outcome m' gone h =
        ground (arith, h, gone refl)
    force-truthful fuel pid graceful_ms interval (refused, m) outcome m' gone h = cc

    ask_first-truthful :
        (fuel pid graceful_ms interval : ℕ) (killed : Kill × Machine) (outcome : TerminationOutcome)
        (m' : Machine)
        → (killed.0 ≡ no_such_process → is_pid_dead system pid killed.1 ≡ true)
        → ask_first system fuel pid graceful_ms interval killed ≡ some (outcome, m')
        → is_pid_dead system pid m' ≡ is_confirmed outcome
    ask_first-truthful fuel pid graceful_ms interval (signalled, m) outcome m' gone h =
        elim (Option-cases (poll system fuel pid (system.now m + graceful_ms) interval m)) [
          | inl ran_out ↦ ground (arith, h, ran_out)
          | inr ((true, m1), e) ↦ ground (arith, h, e, poll-dead fuel pid _ interval m m1 true e)
          | inr ((false, m1), e) ↦
              force-truthful fuel pid graceful_ms interval _ outcome m' (reported pid sigkill m1)
                (ground (arith, h, e))
        ]
    ask_first-truthful fuel pid graceful_ms interval (no_such_process, m) outcome m' gone h =
        ground (arith, h, gone refl)
    ask_first-truthful fuel pid graceful_ms interval (refused, m) outcome m' gone h = cc

    -- The outcome of a termination says truly whether the process is dead at its end: it is unless
    -- the outcome is that this could not be confirmed, provided that the system reports as missing
    -- only a process that a probe does not find either.
    pub terminate_process_group-truthful :
        (fuel pid graceful_ms interval : ℕ) (m m' : Machine) (outcome : TerminationOutcome)
        → terminate_process_group system fuel pid graceful_ms interval m ≡ some (outcome, m')
        → is_pid_dead system pid m' ≡ is_confirmed outcome
    unfolding terminate_process_group
    terminate_process_group-truthful fuel pid graceful_ms interval m m' outcome h =
        elim (Bool-cases (is_pid_dead system pid m)) [
          | inl dead ↦ ground (arith, h, dead)
          | inr alive ↦
              ask_first-truthful fuel pid graceful_ms interval _ outcome m' (reported pid sigterm m)
                (ground (arith, h, alive))
        ]
