-- ===== src/Runner/Outside.antt =====
-- What `Runner` (orchestrator/src/supervisor/orchestrator.ts) calls and does not compute: the model
-- behind the invoker, git behind orchestrator/src/git/worktree.ts, and the files of the task.
use muslimrentals.Prelude.{String, Bool, Option, List}
use muslimrentals.Roles.{AgentRole, role_equality}
use muslimrentals.CrossBranch.{OverlapReport, Rename, WorkerChangeSet, all_changed_paths}
use muslimrentals.Planner.{PlanRequest, SupervisorPlan}
use muslimrentals.Runner.{
  AgentAnalysis, ImplementationResult, IntegrationResult, ReviewResult, WorktreeHandle,
  InvokeRequest, Run, Outcome, Session, finished, failed,
}

-- A call of the outside returns or throws.
pub data Attempt (A : Type 0) : Type 0 where
  made : A → Attempt A
  threw : String → Attempt A

pub record NameStatus : Type 0 where
  pub added : List String
  pub modified : List String
  pub deleted : List String
  pub renamed : List Rename

pub record MergeAttempt : Type 0 where
  pub clean : Bool
  pub conflicted_files : List String

-- What `changed-files.json` says of an earlier run.
pub record ChangedFiles : Type 0 where
  pub base_commit : String
  pub agents : List AgentRole

-- A file of the task that is read as JSON: it may be missing, or not fit its schema.
pub data Stored (A : Type 0) : Type 0 where
  missing malformed : Stored A
  stored : A → Stored A

-- An answer of the model is `none` where it does not fit its schema.
pub record Outside (World : Type 0) : Type 0 where
  pub ask_plan : PlanRequest → World → Attempt (Option SupervisorPlan) × World
  pub ask_analysis : InvokeRequest → World → Attempt (Option AgentAnalysis) × World
  pub ask_implementation : InvokeRequest → World → Attempt (Option ImplementationResult) × World
  pub ask_review : InvokeRequest → World → Attempt (Option ReviewResult) × World
  pub ask_integration : InvokeRequest → World → Attempt (Option IntegrationResult) × World
  pub create_worktree : String → AgentRole → String → World → Attempt WorktreeHandle × World
  pub create_integration_worktree : String → String → World → Attempt WorktreeHandle × World
  pub add_worktree_for_existing_branch :
      String → AgentRole → String → World → Attempt WorktreeHandle × World
  pub commit_all : WorktreeHandle → String → World → Attempt (Option String) × World
  pub diff_name_status : WorktreeHandle → String → World → Attempt NameStatus × World
  pub merge_branch : WorktreeHandle → String → World → Attempt MergeAttempt × World
  pub commit_merge : WorktreeHandle → String → World → Attempt (Unit {0}) × World
  pub unresolved_conflicts : WorktreeHandle → World → Attempt (List String) × World
  pub resolve_head : World → Attempt String × World
  pub merge_base_of : List String → World → Attempt String × World
  pub read_artifact : String → String → World → Attempt (Option String) × World
  pub read_plan : String → World → Attempt (Stored SupervisorPlan) × World
  pub read_changed_files : String → World → Attempt (Stored ChangedFiles) × World
  pub read_overlap_report : String → World → Attempt (Stored OverlapReport) × World
  pub existing_worktree_handle : String → String → World → Attempt WorktreeHandle × World

abbrev pub change_set : AgentRole → String → NameStatus → WorkerChangeSet
change_set agent branch diff = record {
  agent = agent;
  branch = branch;
  added = diff.added;
  modified = diff.modified;
  deleted = diff.deleted;
  renamed = diff.renamed;
}

-- `allChangedPaths(diff)`.
abbrev pub diff_paths : AgentRole → WorktreeHandle → NameStatus → List String
diff_paths role worktree diff = all_changed_paths (change_set role worktree.branch diff)

module _ {World A : Type 0} where
  abbrev pub settle : Session World → Attempt A × World → Attempt A × Session World
  settle s (attempt, world) = (attempt, record s { world = world })

  -- A call inside `try`.
  abbrev pub attempt : (World → Attempt A × World) → Run World (Attempt A)
  attempt f s = finished (settle s (f s.world))

  abbrev pub rethrow : Attempt A × Session World → Outcome (A × Session World)
  rethrow (made a, s) = finished (a, s)
  rethrow (threw message, s) = failed message

  -- A call whose exception is not caught.
  abbrev pub call : (World → Attempt A × World) → Run World A
  call f s = rethrow (settle s (f s.world))
