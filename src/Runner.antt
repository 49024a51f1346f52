-- ===== src/Runner.antt =====
-- orchestrator/src/supervisor/orchestrator.ts: the state of a `Runner`, the artifacts that it hands
-- on (orchestrator/src/types/schemas.ts), what it asks of the outside, and how its steps compose.
-- A prompt, and a text of the report, is kept as the values that it is made of. The methods that
-- the source runs at once through `mapConcurrent` run one after another here, in the order of
-- their results.
pub mod Outside
pub mod Requests
pub mod Workers
pub mod Integration
pub mod Reviews
pub mod Loops
pub mod Tasks
pub mod Holds
pub mod Frames
pub mod Merges
pub mod Verdicts
pub mod Rounds
pub mod Endings
pub mod Corrections
pub mod Runs
pub mod Untouched
pub mod Entry
pub mod Resumes
pub mod Entries
mod Examples
mod EntryExamples
use muslimrentals.Prelude.{ℕ, String, Bool, Option, none, List, [], ◌∷◌}
use muslimrentals.Roles.{AgentRole, role_equality}
use muslimrentals.CrossBranch.{OverlapReport}
use muslimrentals.Planner.{Mode}

pub data TaskState : Type 0 where
  planning specialist_review ready_for_implementation implementing : TaskState
  qa_review security_review re_review : TaskState
  cross_branch_analysis integration integrated_qa_review integrated_security_review : TaskState
  re_integration correction_required ready_for_founder founder_approval_required : TaskState
  complete dry_run_complete aborted : TaskState

pub data Severity : Type 0 where
  info low medium high critical : Severity

pub record Finding : Type 0 where
  pub severity : Severity
  pub finding : String
  pub evidence : Option String
  pub recommended_action : Option String

pub record AgentAnalysis : Type 0 where
  pub role : AgentRole
  pub task_id : String
  pub summary : String
  pub findings : List Finding
  pub open_questions : List String
  pub recommendation : String

pub record ImplementationResult : Type 0 where
  pub role : AgentRole
  pub task_id : String
  pub branch : String
  pub files_changed : List String
  pub summary : String
  pub test_plan : String
  pub self_check_notes : List String
  pub no_changes_needed : Bool

pub record IntegrationDecision : Type 0 where
  pub path : String
  pub chosen_source : String
  pub combined : Bool
  pub rationale : String
  pub behavior_changed : Option String

pub record IntegrationResult : Type 0 where
  pub role : AgentRole
  pub task_id : String
  pub branch : String
  pub decisions : List IntegrationDecision
  pub files_changed : List String
  pub summary : String
  pub unresolved_conflicts : List String

pub data ReviewVerdict : Type 0 where
  pass approved changes_required : ReviewVerdict

pub record ReviewResult : Type 0 where
  pub role : AgentRole
  pub task_id : String
  pub verdict : ReviewVerdict
  pub findings : List Finding
  pub notes : Option String

pub record WorktreeHandle : Type 0 where
  pub branch : String
  pub path : String

-- What `JSON.stringify` or a file's text puts into a prompt.
pub data ArtifactContent : Type 0 where
  analysis_json : AgentAnalysis → ArtifactContent
  implementation_json : ImplementationResult → ArtifactContent
  integration_json : IntegrationResult → ArtifactContent
  file_text : String → ArtifactContent

pub record PrerequisiteArtifact : Type 0 where
  pub role : AgentRole
  pub content : ArtifactContent

pub data Instruction : Type 0 where
  analyse dry_run_engineering implement : Instruction
  review : AgentRole → String → Instruction
  integrate : OverlapReport → List String → Option String → Instruction

pub record InvokeRequest : Type 0 where
  pub role : AgentRole
  pub cwd : String
  pub instruction : Instruction
  pub artifacts : List PrerequisiteArtifact
  pub correction_feedback : Option String
  pub tools : List String
  pub allowed_tool_patterns : List String
  pub disallowed_tool_patterns : List String
  pub max_budget : ℕ

-- The events of the log with what they carry, the calls of the invoker, and the artifacts written.
pub data Event : Type 0 where
  state_transition : TaskState → Event
  agent_launch agent_complete agent_output_validation_failed : AgentRole → Event
  invoked : InvokeRequest → Event
  artifact_written : String → Event
  worktree_created worktree_attached : AgentRole → WorktreeHandle → Event
  worktree_committed : AgentRole → String → Event
  worktree_commit_failed changed_files_check_failed : AgentRole → String → Event
  review_verdict : AgentRole → String → ReviewVerdict → Event
  retry_limit_exhausted : ℕ → ℕ → Event
  correction_cycle_started : ℕ → Event
  integration_worktree_created : WorktreeHandle → Event
  integration_merge_clean : AgentRole → String → Event
  integration_merge_conflict : AgentRole → String → List String → Event
  integration_mechanical_only : List String → Event
  integration_still_conflicted integration_unresolved : List String → Event
  cross_branch_analysis_complete : OverlapReport → Event
  founder_approval_asked : List String → Event
  base_commit_resolved resuming_review_only : String → Event

-- The arguments of the constructor.
pub record Config : Type 0 where
  pub task_id : String
  pub objective : String
  pub mode : Mode
  pub max_retry_cycles : ℕ

-- The fields of `Runner`. `trace` is what it has done so far, the latest first; `world` is what
-- its own code cannot see.
pub record Session (World : Type 0) : Type 0 where
  pub worktrees : List (AgentRole × WorktreeHandle)
  pub specialist_artifacts : List PrerequisiteArtifact
  pub implementation_artifacts : List PrerequisiteArtifact
  pub implementer_files_by_role : List (AgentRole × List String)
  pub agents_involved : List AgentRole
  pub correction_cycles : ℕ
  pub final_qa_result : Option ReviewResult
  pub final_security_result : Option ReviewResult
  pub base_commit : Option String
  pub overlap_report : Option OverlapReport
  pub integration_worktree : Option WorktreeHandle
  pub integration_result : Option IntegrationResult
  pub trace : List Event
  pub world : World

abbrev pub new_session : {World : Type 0} → World → Session World
new_session world = record {
  worktrees = [];
  specialist_artifacts = [];
  implementation_artifacts = [];
  implementer_files_by_role = [];
  agents_involved = [];
  correction_cycles = 0;
  final_qa_result = none;
  final_security_result = none;
  base_commit = none;
  overlap_report = none;
  integration_worktree = none;
  integration_result = none;
  trace = [];
  world = world;
}

-- A method returns, throws, or (with too little fuel only) does not end.
pub data Outcome (A : Type 0) : Type 0 where
  finished : A → Outcome A
  failed : String → Outcome A
  out_of_fuel : Outcome A

abbrev pub Run : Type 0 → Type 0 → Type 0
Run World A = Session World → Outcome (A × Session World)

module _ {World A : Type 0} where
  abbrev pub pure : A → Run World A
  pure a s = finished (a, s)

  abbrev pub throw : String → Run World A
  throw message s = failed message

  abbrev pub never : Run World A
  never s = out_of_fuel

  -- What a method reads of the state.
  abbrev pub reads : (Session World → A) → Run World A
  reads f s = finished (f s, s)

module _ {World A B : Type 0} where
  abbrev pub and_then :
      Outcome (A × Session World) → (A → Run World B) → Outcome (B × Session World)
  and_then (finished (a, s)) k = k a s
  and_then (failed message) k = failed message
  and_then out_of_fuel k = out_of_fuel

  infixl 5 ◌>>=◌ ◌>>◌
  abbrev pub ◌>>=◌ : Run World A → (A → Run World B) → Run World B
  m >>= k = λ s. and_then (m s) k

  abbrev pub ◌>>◌ : Run World A → Run World B → Run World B
  m >> n = m >>= λ _. n

module _ {World : Type 0} where
  abbrev pub modify : (Session World → Session World) → Run World (Unit {0})
  modify f s = finished (tt, f s)

  abbrev pub log_event : Event → Run World (Unit {0})
  log_event e = modify (λ s. record s { trace = e ∷ s.trace })

  abbrev pub set_state : TaskState → Run World (Unit {0})
  set_state state = log_event (state_transition state)

  abbrev pub write_artifact : String → Run World (Unit {0})
  write_artifact file = log_event (artifact_written file)
