-- ===== src/Runner/Loops.antt =====
-- The correction loops of `Runner` (orchestrator/src/supervisor/orchestrator.ts). A loop takes fuel;
-- a round of it takes the rounds after it as `again`.
use muslimrentals.Prelude.{
  ℕ, zero, suc, String, Bool, true, false, ◌||◌, Option, none, some, List, [], ◌∷◌, ◌++◌, ◌==◌,
  filter, if◌then◌else◌, template, join, eqb,
}
use muslimrentals.Roles.{AgentRole, qa, security, integrator, role_equality}
use muslimrentals.CrossBranch.{OverlapReport}
use muslimrentals.Planner.{SupervisorPlan}
use muslimrentals.Runner.{
  qa_review, re_review, integrated_qa_review, correction_required, implementing, IntegrationResult,
  WorktreeHandle, integration_json, PrerequisiteArtifact, integration_unresolved, Config, Run, pure,
  throw, never, reads, ◌>>=◌, ◌>>◌, modify, log_event, set_state,
}
use muslimrentals.Runner.Outside.{Outside}
use muslimrentals.Runner.Workers.{of_role, map_run, run_implementer, invoke_reviewer}
use muslimrentals.Runner.Requests.{role_text}
use muslimrentals.Runner.Integration.{run_integration_step, analyze_branches}
use muslimrentals.Runner.Reviews.{
  rejects, integration_retries_exhausted, Ended, after_review, retry_or_escalate, store_results,
  write_review,
}

abbrev own_suffix : AgentRole → String
own_suffix role = template (
    "You are reviewing ONLY the \""
    ∷ role_text role
    ∷ "\" implementer's worktree — if this task also involved other implementer roles, their work lives in an entirely separate git worktree/branch you cannot see from here. Do not report that another implementer's work \"doesn't exist\" based on what is or isn't present in this worktree."
    ∷ [])

abbrev integrated_suffix : String
integrated_suffix =
    "You are reviewing the INTEGRATED result for this task — this worktree already contains every implementer's changes merged and reconciled together (see the Integrator's report in your context). Review the actual combined code in this worktree, not just the individual implementer reports; per-worker review is preliminary only, and this integrated review is what determines the final verdict."

abbrev pub conflicts_in : Option IntegrationResult → List String
conflicts_in none = []
conflicts_in (some result) = result.unresolved_conflicts

abbrev integration_context : Option IntegrationResult → List PrerequisiteArtifact
integration_context none = []
integration_context (some result) =
    record { role = integrator; content = integration_json result } ∷ []

unfoldable pub conflict_feedback : List String → String
conflict_feedback conflicts = template (
    "Integration left unresolved conflicts: "
    ∷ join "; " conflicts
    ∷ ". Finish reconciling these before anything else."
    ∷ [])

module _ {World : Type 0} (outside : Outside World) (config : Config) where
  -- Every reviewer once; whether one of them asks for changes.
  unfoldable pub review_round :
      String → String → List PrerequisiteArtifact → String → List AgentRole → Run World Bool
  review_round target path context suffix reviewers = do
    results ← map_run (invoke_reviewer outside config target path context suffix) reviewers
    modify (store_results reviewers results)
    qa_result ← reads (λ s. s.final_qa_result)
    security_result ← reads (λ s. s.final_security_result)
    write_review qa qa_result
    write_review security security_result
    pure (rejects qa_result || rejects security_result)

  unfoldable pub single_round :
      SupervisorPlan
      → AgentRole
      → WorktreeHandle
      → List AgentRole
      → Run World Ended
      → Run World Ended
  single_round plan role worktree reviewers again = do
    cycles ← reads (λ s. s.correction_cycles)
    set_state (if eqb cycles 0 then qa_review else re_review)
    context ← reads (λ s. filter (λ a. a.role == role) s.implementation_artifacts)
    needs_correction ←
        review_round (role_text role) worktree.path context (own_suffix role) reviewers
    after_review config plan needs_correction (λ feedback. do
      set_state implementing
      result ← run_implementer outside config role (some feedback)
      again)

  unfoldable pub single_loop :
      ℕ → SupervisorPlan → AgentRole → WorktreeHandle → List AgentRole → Run World Ended
  single_loop zero plan role worktree reviewers = never
  single_loop (suc fuel) plan role worktree reviewers =
      single_round plan role worktree reviewers (single_loop fuel plan role worktree reviewers)

  unfoldable pub run_single_implementer_review_loop :
      SupervisorPlan → AgentRole → List AgentRole → Run World Ended
  run_single_implementer_review_loop plan role reviewers = do
    known ← reads (λ s. of_role role s.worktrees)
    elim known [
      | none ↦ throw "Internal error: implementer ran without a worktree."
      | some worktree ↦ single_loop (suc config.max_retry_cycles) plan role worktree reviewers
    ]

  -- The review of the integrated worktree.
  unfoldable pub integrated_review :
      SupervisorPlan → List AgentRole → (Option String → Run World Ended) → Run World Ended
  integrated_review plan reviewers again = do
    set_state integrated_qa_review
    context ← reads (λ s. s.implementation_artifacts ++ integration_context s.integration_result)
    known ← reads (λ s. s.integration_worktree)
    elim known [
      | none ↦ throw "Cannot read properties of undefined (reading 'path')"
      | some worktree ↦ do
        needs_correction ←
            review_round "integration" worktree.path context integrated_suffix reviewers
        after_review config plan needs_correction (λ feedback. again (some feedback))
    ]

  -- What follows an integration: with conflicts there is no review, but another round.
  unfoldable pub after_integration :
      SupervisorPlan
      → List AgentRole
      → List String
      → (Option String → Run World Ended)
      → Run World Ended
  after_integration plan reviewers [] again = integrated_review plan reviewers again
  after_integration plan reviewers (file ∷ files) again = do
    set_state correction_required
    log_event (integration_unresolved (file ∷ files))
    retry_or_escalate config plan
        (integration_retries_exhausted config.max_retry_cycles (file ∷ files))
        (again (some (conflict_feedback (file ∷ files))))

  -- `skip` is `skipIntegrationStep`.
  unfoldable pub integration_round :
      SupervisorPlan
      → List AgentRole
      → OverlapReport
      → List AgentRole
      → Bool
      → Option String
      → (Option String → Run World Ended)
      → Run World Ended
  integration_round plan roles overlaps reviewers true feedback again =
      integrated_review plan reviewers again
  integration_round plan roles overlaps reviewers false feedback again = do
    run_integration_step outside config roles overlaps feedback
    conflicts ← reads (λ s. conflicts_in s.integration_result)
    after_integration plan reviewers conflicts again

  unfoldable pub integration_loop :
      ℕ
      → SupervisorPlan
      → List AgentRole
      → OverlapReport
      → List AgentRole
      → Bool
      → Option String
      → Run World Ended
  integration_loop zero plan roles overlaps reviewers skip feedback = never
  integration_loop (suc fuel) plan roles overlaps reviewers skip feedback =
      integration_round plan roles overlaps reviewers skip feedback
        (λ later. integration_loop fuel plan roles overlaps reviewers false later)

  unfoldable pub run_integration_and_review_loop :
      SupervisorPlan → List AgentRole → OverlapReport → List AgentRole → Bool → Run World Ended
  run_integration_and_review_loop plan roles overlaps reviewers already_integrated =
      integration_loop (suc config.max_retry_cycles) plan roles overlaps reviewers
        already_integrated none

  unfoldable pub run_integrated_review_loop :
      SupervisorPlan → List AgentRole → List AgentRole → Run World Ended
  run_integrated_review_loop plan roles reviewers = do
    overlaps ← analyze_branches outside config plan roles
    run_integration_and_review_loop plan roles overlaps reviewers false
