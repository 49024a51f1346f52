-- ===== src/Lib.antt =====
-- The orchestrator of muslimrentals: the program that plans work on the rental site, has agents do
-- it, and keeps a backlog of what to do next. These modules model its deterministic core, the code
-- that decides, and leave out what it asks of the model, of git and of the operating system.
--
-- How the parts work together. The scheduler ticks; a tick that finds autonomy running, the cycle
-- lock free and the next cycle due runs one cycle. A cycle has the lead agent look at the backlog;
-- the store of the backlog scores each item, the risk classification, with the founder gate, says
-- which items may be started, and the store of approval requests holds what the founder must
-- decide. A task that is chosen is planned: the planner takes the model's proposal and sets
-- agents, order, dependencies and scopes itself. The runner then works through the plan: it calls
-- the agents with the profiles of the registry, has the implementers write in worktrees of their
-- own, and goes round reviews and corrections until the reviewers accept or the corrections are
-- used up and the founder is asked. Where several implementers worked, the analysis across their
-- branches decides which changes conflict and which lie outside the scopes, and whether a merge
-- by git will do or an agent must integrate the branches. The processes of the agents stand in a
-- registry, from which a cycle that starts after a crash clears the orphans.
--
-- Files, and the code each is about:
--   Prelude and its children: names, tests, lists, texts, tables of a database, sorting.
--   Errors: the exceptions of the stores.
--   Roles: `AgentRole` of orchestrator/src/types/schemas.ts.
--   CrossBranch: orchestrator/src/supervisor/crossBranchAnalysis.ts. `analyze_cross_branch` is
--     `analyzeCrossBranch`; a Map is a list of entries in the order of insertion.
--   Planner: orchestrator/src/supervisor/planner.ts. `build_plan` is `buildPlan`; the answer of the
--     model and the verdict of the founder gate are its arguments.
--   Backlog: the backlog items of orchestrator/src/autonomy/types.ts; Priority is prioritization.ts,
--     Store, Listing and Similar are backlogStore.ts, and Matches is about Similar.
--   Approvals: orchestrator/src/autonomy/approvalStore.ts.
--   Cycles: orchestrator/src/autonomy/cycleStore.ts; Race takes `acquireCycleLock` apart into its
--     two statements.
--   Scheduler: orchestrator/src/autonomy/scheduler.ts.
--   Gate: orchestrator/src/approval/founderGate.ts; its patterns are terms of Prelude/Regex.
--   Risk: orchestrator/src/autonomy/riskClassification.ts.
--   Lead: the part of orchestrator/src/autonomy/lead.ts that applies the lead's plan; Select has the
--     selection and the whole pass, `apply_lead_plan`.
--   Memory: orchestrator/src/autonomy/memoryStore.ts.
--   Signals: orchestrator/src/autonomy/signalStore.ts.
--   Agents: orchestrator/src/agents/registry.ts.
--   Concurrency: orchestrator/src/supervisor/concurrency.ts. A schedule names the worker that takes
--     the next turn of `mapConcurrent`; Workers has the invariant of the pool, Progress its end.
--   Processes: orchestrator/src/process/liveness.ts; Stat is about the line of /proc, Termination
--     about `terminateProcessGroup`. Registry is orchestrator/src/autonomy/workerRegistry.ts;
--     Cleanup and Spared are about its `cleanupOrphanedWorkers`.
--   Runner: orchestrator/src/supervisor/orchestrator.ts. Runner has the state of the class and
--     the monad of its methods, Outside what they call, Requests what the agents are asked, Workers
--     their calls, Integration the merges and the integrator, Reviews the report and the end of a
--     round, Loops the two correction loops, Tasks `run` and the resumed runs, Entry `runTask`,
--     `resumeIntegration` and `resumeIntegratedReview`. Holds, Frames and Merges say which state a
--     method leaves alone; Verdicts, Rounds, Endings and Corrections follow the reviews through the
--     loops; Runs, Untouched, Resumes and Entries are about whole runs.
-- In each part Examples runs the code at concrete inputs.
--
-- State and time. A table of the database is the list of its rows, in the order of insertion; a
-- store operation takes the table and returns the new one, and one that throws returns the
-- exception and no table. What a merge or a pass has written before a later step of it throws is
-- not followed; what is said of them holds where they return, and where they are said to return.
-- New identifiers and the readings of the clock are arguments; a time is a number of milliseconds,
-- and texts of times in one format compare as the numbers do. Of rows with the same sort key,
-- whose order SQLite leaves open, the older comes first.
-- Numbers. All numbers are natural: a confidence from 0 to 1 is a number of hundredths, a priority
-- is a number of tenths, and the quotients of the source are rounded or compared as exact
-- fractions, where the source computes in floating point.
-- Loops. Most loops run over a list. The correction loops of the runner have one round more than
-- the corrections that are allowed, which is shown to be enough; a poll for the death of a process
-- has the fuel that its caller gives, and is shown to end with as much as its period has
-- milliseconds, where a wait lets time pass.
-- The outside. What the runner asks of the model, of git (orchestrator/src/git/worktree.ts) and of
-- the files of a task are the fields of the record `Outside`, which may answer in any way, or
-- throw; what liveness.ts asks of the operating system are those of `System`. A prompt is kept as
-- the values it is made of, the trace of a session as the calls and log entries in their order.
-- The methods that `mapConcurrent` runs at once run one after another in Runner, in the order of
-- their results; what any order of turns does is the matter of Concurrency.
-- Texts. A text is a list of characters, of which only A to Z have another case; the source
-- counts units of UTF-16.
--
-- Not modelled: the parse of rows and of the model's JSON, other than the range checks; the
-- wording of prompts, of log messages and of some error messages; some of the fields of log
-- entries; the commands of git and of the model's program; the cycle that strings the parts
-- together (autonomy/cycle.ts) and the sources of its signals; and the site itself (rentals/).
pub mod Agents
pub mod Concurrency
pub mod Processes
pub mod Runner
pub mod Prelude
pub mod Errors
pub mod Roles
pub mod CrossBranch
pub mod Planner
pub mod Backlog
pub mod Approvals
pub mod Cycles
pub mod Scheduler
pub mod Gate
pub mod Risk
pub mod Lead
pub mod Memory
pub mod Signals
