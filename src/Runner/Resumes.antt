-- ===== src/Runner/Resumes.antt =====
-- The runs that take a task up again (`resumeFromExistingBranches` and `resumeReviewOnly`,
-- orchestrator/src/supervisor/orchestrator.ts).
use muslimrentals.Prelude.{◌≡◌, refl, ap, String, true, none, some, List, [], arith, length, ltb}
use muslimrentals.Roles.{AgentRole, role_equality}
use muslimrentals.CrossBranch.{OverlapReport}
use muslimrentals.Planner.{SupervisorPlan}
use muslimrentals.Runner.{IntegrationResult, WorktreeHandle, PrerequisiteArtifact, Config, Session}
use muslimrentals.Runner.Outside.{Outside, call}
use muslimrentals.Runner.Workers.{map_run}
use muslimrentals.Runner.Tasks.{
  reviewers_of, attach_branch, attach_worktree, resume_from_existing_branches, resume_review_only,
}
use muslimrentals.Runner.Holds.{
  Holds, then-Keeps, if-Holds, Keeps, >>=-Keeps, call-then, map_run-Keeps, call-Keeps, core,
}
use muslimrentals.Runner.Endings.{is_settled, IsFinal}
use muslimrentals.Runner.Corrections.{
  run_integrated_review_loop-IsFinal, run_integration_and_review_loop-IsFinal,
}
use muslimrentals.Runner.Runs.{all-reviewers_of}

module _ {World : Type 0} (outside : Outside World) (config : Config) where
  attach_branch-Keeps :
      (base : String) (branch : AgentRole × String)
      → Keeps core (attach_branch outside config base branch)
  unfolding attach_branch
  attach_branch-Keeps base (role, branch) s =
      >>=-Keeps core (call (outside.add_worktree_for_existing_branch config.task_id role branch)) _
        (call-Keeps core _ (λ _ _. refl))
        (λ worktree s1.
          >>=-Keeps core (call (outside.read_artifact config.task_id _)) _
            (call-Keeps core _ (λ _ _. refl))
            (λ report s2.
              >>=-Keeps core (call (outside.diff_name_status worktree base)) _
                (call-Keeps core _ (λ _ _. refl)) (λ diff s3. refl) _)
            _)
        s

  attach_worktree-Keeps :
      (base : String) (known : AgentRole × WorktreeHandle)
      → Keeps core (attach_worktree outside config base known)
  unfolding attach_worktree
  attach_worktree-Keeps base (role, worktree) s =
      >>=-Keeps core (call (outside.diff_name_status worktree base)) _
        (call-Keeps core _ (λ _ _. refl)) (λ diff s1. refl) _

  pub resume_from_existing_branches-IsFinal :
      (plan : SupervisorPlan) (branches : List (AgentRole × String)) (s : Session World)
      → core s ≡ (0, none)
      → Holds
          (IsFinal config plan (reviewers_of plan))
          (resume_from_existing_branches outside config plan branches s)
  unfolding resume_from_existing_branches
  resume_from_existing_branches-IsFinal plan branches s e =
      if-Holds _ (ltb (length branches) 2) _ _ s (λ few. tt)
        (λ many. call-then _ (outside.merge_base_of _) _ s _ e (λ base s1 e1.
          then-Keeps core _ (map_run (attach_branch outside config base) branches) _ _ _
            (map_run-Keeps core _ branches (attach_branch-Keeps base)) e1
            (λ attached s2 e2.
              run_integrated_review_loop-IsFinal outside config plan (reviewers_of plan) _ s2
                (all-reviewers_of plan) (omega (arith, ap (λ c. c.0) e2)))))

  pub resume_review_only-IsFinal :
      (plan : SupervisorPlan) (worktrees : List (AgentRole × WorktreeHandle))
      (artifacts : List PrerequisiteArtifact) (worktree : WorktreeHandle)
      (result : IntegrationResult) (overlaps : OverlapReport) (base : String) (s : Session World)
      → result.unresolved_conflicts ≡ []
      → core s ≡ (0, none)
      → Holds (IsFinal config plan (reviewers_of plan)) (
          resume_review_only outside config plan worktrees artifacts worktree result overlaps base
            (reviewers_of plan)
            s)
  unfolding resume_review_only
  resume_review_only-IsFinal plan worktrees artifacts worktree result overlaps base s clean e =
      then-Keeps core _ (map_run (attach_worktree outside config base) worktrees) _ s _
        (map_run-Keeps core _ worktrees (attach_worktree-Keeps base)) e
        (λ attached s1 e1.
          run_integration_and_review_loop-IsFinal outside config plan (reviewers_of plan) _ overlaps
            true _ (all-reviewers_of plan)
            (λ _. ap (λ c. is_settled (some (record result { unresolved_conflicts = c }))) clean)
            (omega (arith, ap (λ c. c.0) e1)))
