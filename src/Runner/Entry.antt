-- ===== src/Runner/Entry.antt =====
-- The functions that start a task, or take it up again (`runTask`, `resumeIntegration` and
-- `resumeIntegratedReview`, orchestrator/src/supervisor/orchestrator.ts).
use muslimrentals.Prelude.{ℕ, String, Option, some, List, [], ◌∷◌, map, or_default, template}
use muslimrentals.Roles.{AgentRole, integrator, role_equality}
use muslimrentals.Agents.{get_profile}
use muslimrentals.CrossBranch.{default_scopes}
use muslimrentals.Planner.{
  Mode, full, SupervisorPlan, PlanRequest, build_plan, default_max_agents_per_task,
}
use muslimrentals.Gate.{evaluate_founder_gate}
use muslimrentals.Runner.{
  TaskState, planning, IntegrationResult, WorktreeHandle, PrerequisiteArtifact, file_text, Config,
  Session, Run, pure, throw, reads, ◌>>=◌, ◌>>◌, set_state, write_artifact,
}
use muslimrentals.Runner.Outside.{Outside, Stored, missing, malformed, stored, diff_paths, call}
use muslimrentals.Runner.Workers.{map_run}
use muslimrentals.Runner.Requests.{role_text}
use muslimrentals.Runner.Reviews.{FinalTaskReport, Ended}
use muslimrentals.Runner.Tasks.{
  reviewers_of, run, resume_from_existing_branches, resume_review_only,
}

abbrev default_max_retry_cycles : ℕ
default_max_retry_cycles = 2

pub record RunOptions : Type 0 where
  pub task_id : String
  pub objective : String
  pub mode : Mode
  pub max_agents_per_task : Option ℕ
  pub max_retry_cycles : Option ℕ

pub record RunResult : Type 0 where
  pub task_id : String
  pub final_state : TaskState
  pub plan : SupervisorPlan
  pub final_report : FinalTaskReport
  pub worktrees : List (AgentRole × WorktreeHandle)
  pub integration_worktree : Option WorktreeHandle

abbrev pub run_result :
    {World : Type 0} → String → SupervisorPlan → Ended → Session World → RunResult
run_result task_id plan ended s = record {
  task_id = task_id;
  final_state = ended.0;
  plan = plan;
  final_report = ended.1;
  worktrees = s.worktrees;
  integration_worktree = s.integration_worktree;
}

-- A stored artifact that has to be there.
abbrev pub required : {World A : Type 0} → String → Stored A → Run World A
required name missing = throw name
required name malformed = throw name
required name (stored a) = pure a

-- The task id, where the caller gives none, is made outside; the log's first entries are left out.
abbrev pub config_of : RunOptions → Config
config_of options = record {
  task_id = options.task_id;
  objective = options.objective;
  mode = options.mode;
  max_retry_cycles = or_default options.max_retry_cycles default_max_retry_cycles;
}

abbrev pub request_of : RunOptions → PlanRequest
request_of options = record {
  task_id = options.task_id;
  objective = options.objective;
  mode = options.mode;
  max_agents_per_task = some (or_default options.max_agents_per_task default_max_agents_per_task);
}

abbrev pub plan_of : String → RunOptions → Option SupervisorPlan → SupervisorPlan
plan_of claude_md options answer =
    build_plan (λ objective. evaluate_founder_gate objective claude_md) (request_of options) answer

abbrev pub resumed_config : String → String → Option ℕ → Config
resumed_config task_id objective max_retry_cycles = record {
  task_id = task_id;
  objective = objective;
  mode = full;
  max_retry_cycles = or_default max_retry_cycles default_max_retry_cycles;
}

-- The integration of an earlier run, that git finds without conflicts.
abbrev pub resumed_result :
    String → WorktreeHandle → List String → Option String → IntegrationResult
resumed_result task_id worktree files report = record {
  role = integrator;
  task_id = task_id;
  branch = worktree.branch;
  decisions = [];
  files_changed = files;
  summary = template (
      "Resumed review of an already-built integration worktree from a prior run. See integration-report.md for the Integrator's full original reconciliation record:\n\n"
      ∷ or_default report ""
      ∷ []);
  unresolved_conflicts = [];
}

abbrev reported : String → AgentRole → Option String → PrerequisiteArtifact
reported task_id role report = record {
  role = role;
  content = file_text (
      or_default report (
        template (
          "[No existing "
          ∷ (get_profile role).artifact_filename
          ∷ " found for task \""
          ∷ task_id
          ∷ "\".]"
          ∷ [])));
}

module _ {World : Type 0} (outside : Outside World) where
  unfoldable pub run_task : String → RunOptions → Run World RunResult
  run_task claude_md options = do
    write_artifact "request.md"
    set_state planning
    answer ← call (outside.ask_plan (request_of options))
    let plan = plan_of claude_md options answer
    write_artifact "plan.json"
    ended ← run outside (config_of options) plan
    reads (run_result options.task_id plan ended)

  unfoldable pub resume_integration :
      String → List (AgentRole × String) → Option ℕ → Run World RunResult
  resume_integration task_id branches max_retry_cycles = do
    file ← call (outside.read_plan task_id)
    original ← required "resumeIntegration: plan.json" file
    let plan = record original { implementation_scopes = default_scopes (map (λ b. b.0) branches) }
    write_artifact "plan.json"
    ended ←
        resume_from_existing_branches outside
          (resumed_config task_id plan.objective max_retry_cycles) plan branches
    reads (run_result task_id plan ended)

  abbrev pub handle_and_report :
      String → AgentRole → Run World ((AgentRole × WorktreeHandle) × PrerequisiteArtifact)
  handle_and_report task_id role = do
    worktree ← call (outside.existing_worktree_handle task_id (role_text role))
    report ← call (outside.read_artifact task_id (get_profile role).artifact_filename)
    pure ((role, worktree), reported task_id role report)

  -- Nothing is reviewed where git still finds markers of a conflict.
  abbrev pub reviewable : List String → Run World (Unit {0})
  reviewable [] = pure tt
  reviewable (file ∷ files) =
      throw "resumeIntegratedReview: this is not actually in a reviewable state."

  unfoldable pub resume_integrated_review : String → Option ℕ → Run World RunResult
  resume_integrated_review task_id max_retry_cycles = do
    plan_file ← call (outside.read_plan task_id)
    plan ← required "resumeIntegratedReview: plan.json" plan_file
    changed_file ← call (outside.read_changed_files task_id)
    changed ← required "resumeIntegratedReview: changed-files.json" changed_file
    overlap_file ← call (outside.read_overlap_report task_id)
    overlaps ← required "resumeIntegratedReview: overlap-report.json" overlap_file
    found ← map_run (handle_and_report task_id) changed.agents
    worktree ← call (outside.existing_worktree_handle task_id "integration")
    conflicted ← call (outside.unresolved_conflicts worktree)
    reviewable conflicted
    report ← call (outside.read_artifact task_id (get_profile integrator).artifact_filename)
    diff ← call (outside.diff_name_status worktree changed.base_commit)
    ended ←
        resume_review_only outside (resumed_config task_id plan.objective max_retry_cycles) plan
          (map (λ f. f.0) found) (map (λ f. f.1) found) worktree
          (resumed_result task_id worktree (diff_paths integrator worktree diff) report) overlaps
          changed.base_commit (reviewers_of plan)
    reads (run_result task_id plan ended)
