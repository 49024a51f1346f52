-- ===== src/Processes.antt =====
-- orchestrator/src/process/liveness.ts: whether a process is still the one that was spawned, and how
-- a group of processes is terminated. The operating system is a machine that is looked at and
-- signalled.
pub mod Stat
pub mod Termination
pub mod Registry
pub mod Cleanup
pub mod Spared
mod Examples
use muslimrentals.Prelude.{
  ℕ, zero, suc, ◌+◌, max, ◌/◌, Bool, true, false, not, Option, none, some, List, [], ◌∷◌, ◌++◌,
  get_elem?, or_default, eqb, ltb, ◌==◌, codes_equality, nat_equality, if◌then◌else◌,
}
use muslimrentals.Prelude.Regex.{is_space_code}

-- A text as the codes of its characters.
abbrev pub Text : Type 0
Text = List ℕ

-- What follows the last `)`.
unfoldable pub after_last_paren : Text → Option Text
after_last_paren [] = none
after_last_paren (c ∷ text) = elim (after_last_paren text) [
  | some rest ↦ some rest
  | none ↦ if eqb c 41 then some text else none
]

abbrev drop_one : Text → Text
drop_one [] = []
drop_one (c ∷ text) = text

-- `stat.slice(stat.lastIndexOf(')') + 2)`, which starts at 1 where there is no `)`.
unfoldable pub after_comm : Text → Text
after_comm stat = drop_one (or_default (after_last_paren stat) stat)

abbrev pub emit : Text → List Text → List Text
emit [] fields = fields
emit (c ∷ word) fields = (c ∷ word) ∷ fields

-- `text.trim().split(/\s+/)`: the words, but that a blank text has no field here and an empty one
-- there.
unfoldable pub split_fields : Text → Text → List Text
split_fields word [] = emit word []
split_fields word (c ∷ text) =
    let here = split_fields [] text in
    let further = split_fields (word ++ c ∷ []) text in
    if is_space_code c then emit word here else further

-- The start time in the text of `/proc/<pid>/stat`.
unfoldable pub start_ticks_in : Text → Option Text
start_ticks_in stat = get_elem? (split_fields [] (after_comm stat)) 19

pub data Signal : Type 0 where
  sigterm sigkill : Signal

-- What `process.kill(-pid, signal)` does: it signals, or throws `ESRCH` or something else.
pub data Kill : Type 0 where
  signalled no_such_process refused : Kill

-- The operating system, as its calls answer.
pub record System (Machine : Type 0) : Type 0 where
  pub probe_fails : ℕ → Machine → Bool
  pub read_stat : ℕ → Machine → Option Text
  pub kill_group : ℕ → Signal → Machine → Kill × Machine
  pub now : Machine → ℕ
  pub wait : ℕ → Machine → Machine

pub data TerminationOutcome : Type 0 where
  already_dead terminated_gracefully force_terminated could_not_confirm : TerminationOutcome

module _ {Machine : Type 0} (system : System Machine) where
  abbrev pub is_pid_dead : ℕ → Machine → Bool
  is_pid_dead pid machine = system.probe_fails pid machine

  unfoldable pub read_proc_start_ticks : ℕ → Machine → Option Text
  read_proc_start_ticks pid machine = elim (system.read_stat pid machine) [
    | none ↦ none
    | some stat ↦ start_ticks_in stat
  ]

  abbrev matches : Option Text → Text → Bool
  matches none expected = false
  matches (some current) expected = current == expected

  unfoldable pub is_same_process : ℕ → Option Text → Machine → Bool
  is_same_process pid none machine = not (is_pid_dead pid machine)
  is_same_process pid (some expected) machine = matches (read_proc_start_ticks pid machine) expected

  -- The polls until `deadline`: whether the process is dead, or `none` with too little fuel.
  unfoldable pub poll : ℕ → ℕ → ℕ → ℕ → Machine → Option (Bool × Machine)
  poll zero pid deadline interval machine = none
  poll (suc fuel) pid deadline interval machine =
      if ltb (system.now machine) deadline
      then if is_pid_dead pid machine
        then some (true, machine)
        else poll fuel pid deadline interval (system.wait interval machine)
      else some (is_pid_dead pid machine, machine)

  abbrev pub after_force : Option (Bool × Machine) → Option (TerminationOutcome × Machine)
  after_force none = none
  after_force (some (true, machine)) = some (force_terminated, machine)
  after_force (some (false, machine)) = some (could_not_confirm, machine)

  -- `none` also stands for the exceptions that are thrown on. A whole number is below a quarter of
  -- the grace period where it is below the quarter rounded up.
  abbrev pub force : ℕ → ℕ → ℕ → ℕ → Kill × Machine → Option (TerminationOutcome × Machine)
  force fuel pid graceful_ms interval (signalled, machine) =
      after_force
        (poll fuel pid (system.now machine + max 5000 ((graceful_ms + 3) / 4)) interval machine)
  force fuel pid graceful_ms interval (no_such_process, machine) =
      some (terminated_gracefully, machine)
  force fuel pid graceful_ms interval (refused, machine) = none

  abbrev pub after_grace :
      ℕ → ℕ → ℕ → ℕ → Option (Bool × Machine) → Option (TerminationOutcome × Machine)
  after_grace fuel pid graceful_ms interval none = none
  after_grace fuel pid graceful_ms interval (some (true, machine)) =
      some (terminated_gracefully, machine)
  after_grace fuel pid graceful_ms interval (some (false, machine)) =
      force fuel pid graceful_ms interval (system.kill_group pid sigkill machine)

  abbrev pub ask_first : ℕ → ℕ → ℕ → ℕ → Kill × Machine → Option (TerminationOutcome × Machine)
  ask_first fuel pid graceful_ms interval (signalled, machine) =
      after_grace fuel pid graceful_ms interval
        (poll fuel pid (system.now machine + graceful_ms) interval machine)
  ask_first fuel pid graceful_ms interval (no_such_process, machine) = some (already_dead, machine)
  ask_first fuel pid graceful_ms interval (refused, machine) = none

  unfoldable pub terminate_process_group :
      ℕ → ℕ → ℕ → ℕ → Machine → Option (TerminationOutcome × Machine)
  terminate_process_group fuel pid graceful_ms interval machine =
      if is_pid_dead pid machine
      then some (already_dead, machine)
      else ask_first fuel pid graceful_ms interval (system.kill_group pid sigterm machine)
