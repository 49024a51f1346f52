-- ===== src/Runner/Corrections.antt =====
-- The correction loops of `Runner` (orchestrator/src/supervisor/orchestrator.ts), from any state:
-- with one round more than the corrections that are left they end as `IsFinal` says.
use muslimrentals.Prelude.{
  ◌≡◌, refl, ◌∙◌, ap, ℕ, zero, suc, ◌+◌, ◌≤◌, ◌<◌, String, Bool, true, false, Option, none, some,
  List, [], Option-cases, inl, inr, ◌∷◌, all, arith,
}
use muslimrentals.Roles.{AgentRole, role_equality}
use muslimrentals.Agents.{is_reviewer_role}
use muslimrentals.CrossBranch.{OverlapReport}
use muslimrentals.Planner.{SupervisorPlan}
use muslimrentals.Runner.{WorktreeHandle, Config, Session, Run, PrerequisiteArtifact, and_then}
use muslimrentals.Runner.Outside.{Outside}
use muslimrentals.Runner.Workers.{of_role, run_implementer}
use muslimrentals.Runner.Integration.{run_integration_step, analyze_branches}
use muslimrentals.Runner.Reviews.{Ended, after_review}
use muslimrentals.Runner.Loops.{
  conflicts_in, review_round, single_round, single_loop, run_single_implementer_review_loop,
  integrated_review, after_integration, integration_round, integration_loop,
  run_integration_and_review_loop, run_integrated_review_loop,
}
use muslimrentals.Runner.Holds.{Holds, and_then-Holds, then-Keeps, core}
use muslimrentals.Runner.Frames.{run_implementer-Keeps}
use muslimrentals.Runner.Merges.{run_integration_step-Keeps, analyze_branches-Keeps}
use muslimrentals.Runner.Rounds.{review_round-IsRound}
use muslimrentals.Runner.Endings.{
  no_conflicts, is_settled, IsFinal, retry_or_escalate-IsFinal, after_review-IsFinal,
}

module _ {World : Type 0} (outside : Outside World) (config : Config) (plan : SupervisorPlan)
    (reviewers : List AgentRole) where
  -- A review of the worktree at `path`, and what follows it.
  review_then-IsFinal :
      (target path : String) (suffix : String) (again : String → Run World Ended)
      (s : Session World) (context : List PrerequisiteArtifact)
      → all is_reviewer_role reviewers ≡ true
      → is_settled s.integration_result ≡ true
      → s.correction_cycles ≤ config.max_retry_cycles
      → ((feedback : String) (s' : Session World)
          → core s' ≡ (suc s.correction_cycles, s.integration_result)
          → suc s.correction_cycles ≤ config.max_retry_cycles
          → Holds (IsFinal config plan reviewers) (again feedback s'))
      → Holds (IsFinal config plan reviewers) (
          and_then
            (review_round outside config target path context suffix reviewers s)
            (λ needs_correction. after_review config plan needs_correction again))
  review_then-IsFinal target path suffix again s context reviewer settle bound later =
      and_then-Holds _ _ (review_round outside config target path context suffix reviewers s) _
        (review_round-IsRound outside config target path context suffix reviewers s reviewer)
        (λ needs_correction s1 round.
          after_review-IsFinal config plan reviewers needs_correction again s s1 round settle bound
            later)

  single_loop-IsFinal :
      (fuel : ℕ) (role : AgentRole) (worktree : WorktreeHandle) (s : Session World)
      → all is_reviewer_role reviewers ≡ true
      → is_settled s.integration_result ≡ true
      → s.correction_cycles ≤ config.max_retry_cycles
      → config.max_retry_cycles < fuel + s.correction_cycles
      → Holds
          (IsFinal config plan reviewers)
          (single_loop outside config fuel plan role worktree reviewers s)
  unfolding single_loop single_round
  single_loop-IsFinal zero role worktree s reviewer settle bound enough =
      omega (arith, bound, enough)
  single_loop-IsFinal (suc fuel) role worktree s reviewer settle bound enough =
      review_then-IsFinal _ _ _ _ _ _ reviewer settle bound (λ feedback s1 e free.
        then-Keeps core _ (run_implementer outside config role (some feedback)) _ _ _
          (run_implementer-Keeps outside config role (some feedback)) e
          (λ result s2 e2.
            let cycles_same = ap (λ c. c.0) e2 in
            single_loop-IsFinal fuel role worktree s2 reviewer
              (ap (λ c. is_settled c.1) e2 ∙ settle) (omega (arith, cycles_same, free))
              (omega (arith, cycles_same, enough))))

  integrated_review-IsFinal :
      (again : Option String → Run World Ended) (s : Session World)
      → all is_reviewer_role reviewers ≡ true
      → is_settled s.integration_result ≡ true
      → s.correction_cycles ≤ config.max_retry_cycles
      → ((feedback : Option String) (s' : Session World)
          → s'.correction_cycles ≡ suc s.correction_cycles
          → suc s.correction_cycles ≤ config.max_retry_cycles
          → Holds (IsFinal config plan reviewers) (again feedback s'))
      → Holds
          (IsFinal config plan reviewers)
          (integrated_review outside config plan reviewers again s)
  unfolding integrated_review
  integrated_review-IsFinal again s reviewer settle bound later =
      elim (Option-cases s.integration_worktree) [
        | inl absent ↦ rw absent tt
        | inr (worktree, present) ↦ rw present (
            review_then-IsFinal _ _ _ _ _ _ reviewer settle bound
              (λ feedback s' e free. later (some feedback) s' (ap (λ c. c.0) e) free))
      ]

  after_integration-IsFinal :
      (conflicts : List String) (again : Option String → Run World Ended) (s : Session World)
      → all is_reviewer_role reviewers ≡ true
      → conflicts_in s.integration_result ≡ conflicts
      → s.correction_cycles ≤ config.max_retry_cycles
      → ((feedback : Option String) (s' : Session World)
          → s'.correction_cycles ≡ suc s.correction_cycles
          → suc s.correction_cycles ≤ config.max_retry_cycles
          → Holds (IsFinal config plan reviewers) (again feedback s'))
      → Holds
          (IsFinal config plan reviewers)
          (after_integration outside config plan reviewers conflicts again s)
  unfolding after_integration
  after_integration-IsFinal [] again s reviewer e bound later =
      integrated_review-IsFinal again s reviewer (ap no_conflicts e) bound later
  after_integration-IsFinal (file ∷ files) again s reviewer e bound later =
      retry_or_escalate-IsFinal config plan reviewers _ _ _ bound
        (ground (arith, ap no_conflicts e)) (λ free. later _ _ refl free)

  integration_loop-IsFinal :
      (fuel : ℕ) (roles : List AgentRole) (overlaps : OverlapReport) (skip : Bool)
      (feedback : Option String) (s : Session World)
      → all is_reviewer_role reviewers ≡ true
      → (skip ≡ true → is_settled s.integration_result ≡ true)
      → s.correction_cycles ≤ config.max_retry_cycles
      → config.max_retry_cycles < fuel + s.correction_cycles
      → Holds
          (IsFinal config plan reviewers)
          (integration_loop outside config fuel plan roles overlaps reviewers skip feedback s)
  unfolding integration_loop integration_round
  integration_loop-IsFinal zero roles overlaps skip feedback s reviewer settle bound enough =
      omega (arith, bound, enough)
  integration_loop-IsFinal (suc fuel) roles overlaps true feedback s reviewer settle bound enough =
      integrated_review-IsFinal _ s reviewer (settle refl) bound (λ later s1 e free.
        integration_loop-IsFinal fuel roles overlaps false later s1 reviewer (λ h. cc)
          (omega (arith, e, free)) (omega (arith, e, enough)))
  integration_loop-IsFinal (suc fuel) roles overlaps false feedback s reviewer settle bound enough =
      then-Keeps (λ t. t.correction_cycles) _
        (run_integration_step outside config roles overlaps feedback) _ s _
        (run_integration_step-Keeps outside config roles overlaps feedback) refl
        (λ _ s1 e1.
          after_integration-IsFinal (conflicts_in s1.integration_result) _ s1 reviewer refl
            (omega (arith, e1, bound))
            (λ later s2 e free.
              integration_loop-IsFinal fuel roles overlaps false later s2 reviewer (λ h. cc)
                (omega (arith, e, free)) (omega (arith, e, e1, enough))))

  -- Both paths, from a state with nothing to reconcile.
  pub run_single_implementer_review_loop-IsFinal :
      (role : AgentRole) (s : Session World)
      → all is_reviewer_role reviewers ≡ true
      → is_settled s.integration_result ≡ true
      → s.correction_cycles ≤ config.max_retry_cycles
      → Holds
          (IsFinal config plan reviewers)
          (run_single_implementer_review_loop outside config plan role reviewers s)
  unfolding run_single_implementer_review_loop
  run_single_implementer_review_loop-IsFinal role s reviewer settle bound =
      elim (Option-cases (of_role role s.worktrees)) [
        | inl absent ↦ rw absent tt
        | inr (worktree, present) ↦ rw present (
            single_loop-IsFinal (suc config.max_retry_cycles) role worktree s reviewer settle bound
              (omega arith))
      ]

  pub run_integration_and_review_loop-IsFinal :
      (roles : List AgentRole) (overlaps : OverlapReport) (already : Bool) (s : Session World)
      → all is_reviewer_role reviewers ≡ true
      → (already ≡ true → is_settled s.integration_result ≡ true)
      → s.correction_cycles ≤ config.max_retry_cycles
      → Holds
          (IsFinal config plan reviewers)
          (run_integration_and_review_loop outside config plan roles overlaps reviewers already s)
  unfolding run_integration_and_review_loop
  run_integration_and_review_loop-IsFinal roles overlaps already s reviewer settle bound =
      integration_loop-IsFinal (suc config.max_retry_cycles) roles overlaps already none s reviewer
        settle bound (omega arith)

  pub run_integrated_review_loop-IsFinal :
      (roles : List AgentRole) (s : Session World)
      → all is_reviewer_role reviewers ≡ true
      → s.correction_cycles ≤ config.max_retry_cycles
      → Holds
          (IsFinal config plan reviewers)
          (run_integrated_review_loop outside config plan roles reviewers s)
  unfolding run_integrated_review_loop
  run_integrated_review_loop-IsFinal roles s reviewer bound =
      then-Keeps core _ (analyze_branches outside config plan roles) _ s _
        (analyze_branches-Keeps outside config plan roles) refl
        (λ overlaps s1 e.
          run_integration_and_review_loop-IsFinal roles overlaps false s1 reviewer (λ h. cc)
            (omega (arith, ap (λ c. c.0) e, bound)))
