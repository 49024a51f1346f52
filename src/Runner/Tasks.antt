-- ===== src/Runner/Tasks.antt =====
-- `Runner.run` and the resumed runs (orchestrator/src/supervisor/orchestrator.ts).
use muslimrentals.Prelude.{
  String, true, Option, none, some, List, [], ◌∷◌, ◌++◌, map, or_default, includes, filter, length,
  ltb, if◌then◌else◌, template,
}
use muslimrentals.Roles.{AgentRole, integrator, role_equality}
use muslimrentals.Agents.{get_profile, is_implementer_role, is_reviewer_role}
use muslimrentals.CrossBranch.{OverlapReport}
use muslimrentals.Planner.{Mode, dry_run, full, SupervisorPlan, group_1_specialists}
use muslimrentals.Runner.{
  dry_run_complete, complete, ready_for_implementation, implementing, founder_approval_required,
  IntegrationResult, WorktreeHandle, file_text, PrerequisiteArtifact, worktree_attached,
  base_commit_resolved, founder_approval_asked, resuming_review_only, Config, Run, pure, throw,
  ◌>>=◌, ◌>>◌, modify, log_event, set_state,
}
use muslimrentals.Runner.Outside.{Outside, diff_paths, call}
use muslimrentals.Runner.Workers.{
  set_role, involve, map_run, run_specialist_group, run_dry_run_engineering_group, run_implementer,
}
use muslimrentals.Runner.Reviews.{Ended, end_with}
use muslimrentals.Runner.Loops.{
  run_single_implementer_review_loop, run_integrated_review_loop, run_integration_and_review_loop,
}

unfoldable pub specialists_of : SupervisorPlan → List AgentRole
specialists_of plan = filter (λ r. includes r group_1_specialists) plan.required_agents

unfoldable pub implementers_of : SupervisorPlan → List AgentRole
implementers_of plan = filter is_implementer_role plan.required_agents

unfoldable pub reviewers_of : SupervisorPlan → List AgentRole
reviewers_of plan = filter is_reviewer_role plan.required_agents

abbrev missing_report : AgentRole → String → String
missing_report role branch = template (
    "[No existing "
    ∷ (get_profile role).artifact_filename
    ∷ " found for this task — branch \""
    ∷ branch
    ∷ "\" attached with no prior implementation report.]"
    ∷ [])

-- The report of an earlier run, as its file has it.
abbrev pub existing_report : AgentRole → String → Option String → PrerequisiteArtifact
existing_report role branch report = record {
  role = role;
  content = file_text (or_default report (missing_report role branch));
}

module _ {World : Type 0} (outside : Outside World) (config : Config) where
  -- A group that is empty is not run.
  abbrev pub run_group :
      (List AgentRole → Run World (Unit {0})) → List AgentRole → Run World (Unit {0})
  run_group run [] = pure tt
  run_group run (role ∷ roles) = run (role ∷ roles)

  unfoldable pub dry_part : SupervisorPlan → Run World Ended
  dry_part plan = do
    run_group (run_dry_run_engineering_group outside config) (implementers_of plan)
    end_with config plan dry_run_complete []

  unfoldable pub review_part : SupervisorPlan → List AgentRole → Run World Ended
  review_part plan [] = run_integrated_review_loop outside config plan [] (reviewers_of plan)
  review_part plan (role ∷ []) =
      run_single_implementer_review_loop outside config plan role (reviewers_of plan)
  review_part plan (role ∷ next ∷ roles) =
      run_integrated_review_loop outside config plan (role ∷ next ∷ roles) (reviewers_of plan)

  unfoldable pub implement_part : SupervisorPlan → List AgentRole → Run World Ended
  implement_part plan roles = do
    base ← call outside.resolve_head
    modify (λ s. record s { base_commit = some base })
    set_state implementing
    results ← map_run (λ role. run_implementer outside config role none) roles
    review_part plan roles

  unfoldable pub full_part : SupervisorPlan → List AgentRole → Run World Ended
  full_part plan [] = do ended ← end_with config plan complete []; set_state complete; pure ended
  full_part plan (role ∷ roles) =
      if plan.approval_requirements.founder_approval_required
      then (do
        log_event (founder_approval_asked plan.approval_requirements.reasons)
        end_with config plan founder_approval_required [])
      else implement_part plan (role ∷ roles)

  abbrev pub mode_part : Mode → SupervisorPlan → Run World Ended
  mode_part dry_run plan = dry_part plan
  mode_part full plan = set_state ready_for_implementation >> full_part plan (implementers_of plan)

  unfoldable pub run : SupervisorPlan → Run World Ended
  run plan = do
    run_group (run_specialist_group outside config) (specialists_of plan)
    mode_part config.mode plan

  -- An implementer's branch of an earlier run.
  unfoldable pub attach_branch : String → AgentRole × String → Run World (Unit {0})
  attach_branch base (role, branch) = do
    worktree ← call (outside.add_worktree_for_existing_branch config.task_id role branch)
    modify (λ s. record s { worktrees = set_role role worktree s.worktrees })
    involve role
    log_event (worktree_attached role worktree)
    report ← call (outside.read_artifact config.task_id (get_profile role).artifact_filename)
    modify (λ s. record s {
      implementation_artifacts =
          s.implementation_artifacts ++ existing_report role branch report ∷ [];
    })
    diff ← call (outside.diff_name_status worktree base)
    modify (λ s. record s {
      implementer_files_by_role =
          set_role role (diff_paths role worktree diff) s.implementer_files_by_role;
    })

  unfoldable pub resume_from_existing_branches :
      SupervisorPlan → List (AgentRole × String) → Run World Ended
  resume_from_existing_branches plan branches =
      if ltb (length branches) 2
      then throw
          "resumeFromExistingBranches requires at least 2 implementer branches — a single branch has nothing to cross-check against."
      else (do
        base ← call (outside.merge_base_of (map (λ b. b.1) branches))
        modify (λ s. record s { base_commit = some base })
        log_event (base_commit_resolved base)
        attached ← map_run (attach_branch base) branches
        run_integrated_review_loop outside config plan (map (λ b. b.0) branches)
            (reviewers_of plan))

  unfoldable pub attach_worktree : String → AgentRole × WorktreeHandle → Run World (Unit {0})
  attach_worktree base (role, worktree) = do
    modify (λ s. record s { worktrees = set_role role worktree s.worktrees })
    involve role
    diff ← call (outside.diff_name_status worktree base)
    modify (λ s. record s {
      implementer_files_by_role =
          set_role role (diff_paths role worktree diff) s.implementer_files_by_role;
    })

  unfoldable pub resume_review_only :
      SupervisorPlan
      → List (AgentRole × WorktreeHandle)
      → List PrerequisiteArtifact
      → WorktreeHandle
      → IntegrationResult
      → OverlapReport
      → String
      → List AgentRole
      → Run World Ended
  resume_review_only plan worktrees artifacts worktree result overlaps base reviewers = do
    attached ← map_run (attach_worktree base) worktrees
    modify (λ s. record s {
      implementation_artifacts = artifacts;
      integration_worktree = some worktree;
      integration_result = some result;
      overlap_report = some overlaps;
      base_commit = some base;
    })
    involve integrator
    log_event (resuming_review_only worktree.branch)
    run_integration_and_review_loop outside config plan (map (λ w. w.0) worktrees) overlaps
        reviewers true
