-- ===== src/Runner/Runs.antt =====
-- Whole runs of a task (`Runner.run` and the resumed runs,
-- orchestrator/src/supervisor/orchestrator.ts).
use muslimrentals.Prelude.{
  ◌≡◌, refl, ◌∙◌, ap, ◌≤◌, ◌⊎◌, inl, inr, true, false, not, ◌||◌, none, List, [], ◌∷◌, all,
  all-filter, arith,
}
use muslimrentals.Roles.{AgentRole, role_equality}
use muslimrentals.Agents.{is_reviewer_role}
use muslimrentals.Planner.{Mode, dry_run, full, SupervisorPlan}
use muslimrentals.Runner.{
  complete, dry_run_complete, founder_approval_required, Config, Session, Run, finished,
  out_of_fuel, new_session,
}
use muslimrentals.Runner.Outside.{Outside, call}
use muslimrentals.Runner.Workers.{
  run_specialist_group, run_dry_run_engineering_group, run_implementer, map_run,
}
use muslimrentals.Runner.Reviews.{rejects, FinalTaskReport, Ended, build_final_report, final_report}
use muslimrentals.Runner.Tasks.{
  implementers_of, reviewers_of, specialists_of, run_group, mode_part, dry_part, full_part,
  implement_part, review_part, run,
}
use muslimrentals.Runner.Holds.{
  Holds, Holds-map, Holds-finished, Holds-ends, then-Keeps, if-Holds, Keeps, map_run-Keeps,
  call-Keeps, core,
}
use muslimrentals.Runner.Frames.{
  run_specialist_group-Keeps, run_dry_run_engineering_group-Keeps, run_implementer-Keeps,
}
use muslimrentals.Runner.Verdicts.{all_accept}
use muslimrentals.Runner.Endings.{is_settled, accepted, awaiting, exhausted, IsFinal}
use muslimrentals.Runner.Corrections.{
  run_single_implementer_review_loop-IsFinal, run_integrated_review_loop-IsFinal,
}

pub all-reviewers_of : (plan : SupervisorPlan) → all is_reviewer_role (reviewers_of plan) ≡ true
unfolding reviewers_of
all-reviewers_of plan = all-filter is_reviewer_role plan.required_agents

module _ {World : Type 0} (outside : Outside World) (config : Config) (plan : SupervisorPlan) where
  -- How a run may end.
  pub data IsRun (r : Ended × Session World) : Type 0 where
    dry : config.mode ≡ dry_run → r.0.0 ≡ dry_run_complete → IsRun r
    analysed : config.mode ≡ full → implementers_of plan ≡ [] → r.0.0 ≡ complete → IsRun r
    gated :
        config.mode ≡ full
        → plan.approval_requirements.founder_approval_required ≡ true
        → r.0.0 ≡ founder_approval_required
        → r.0.1.approval_required ≡ true
        → IsRun r
    reviewed : config.mode ≡ full → IsFinal config plan (reviewers_of plan) r → IsRun r

  pub run_group-Keeps :
      {X : Type 0} (f : Session World → X) (group : List AgentRole → Run World (Unit {0}))
      (roles : List AgentRole)
      → ((r : List AgentRole) → Keeps f (group r))
      → Keeps f (run_group outside config group roles)
  run_group-Keeps f group [] each s = refl
  run_group-Keeps f group (role ∷ roles) each s = each (role ∷ roles) s

  review_part-IsFinal :
      (roles : List AgentRole) (s : Session World)
      → core s ≡ (0, none)
      → Holds (IsFinal config plan (reviewers_of plan)) (review_part outside config plan roles s)
  unfolding review_part
  review_part-IsFinal [] s e =
      run_integrated_review_loop-IsFinal outside config plan (reviewers_of plan) [] s
        (all-reviewers_of plan) (omega (arith, ap (λ c. c.0) e))
  review_part-IsFinal (role ∷ []) s e =
      run_single_implementer_review_loop-IsFinal outside config plan (reviewers_of plan) role s
        (all-reviewers_of plan) (ap (λ c. is_settled c.1) e) (omega (arith, ap (λ c. c.0) e))
  review_part-IsFinal (role ∷ next ∷ roles) s e =
      run_integrated_review_loop-IsFinal outside config plan (reviewers_of plan)
        (role ∷ next ∷ roles) s (all-reviewers_of plan) (omega (arith, ap (λ c. c.0) e))

  implement_part-IsFinal :
      (roles : List AgentRole) (s : Session World)
      → core s ≡ (0, none)
      → Holds (IsFinal config plan (reviewers_of plan)) (implement_part outside config plan roles s)
  unfolding implement_part
  implement_part-IsFinal roles s e =
      then-Keeps core _ (call outside.resolve_head) _ s _ (call-Keeps core _ (λ _ _. refl)) e
        (λ base s1 e1.
          then-Keeps core _ (map_run (λ role. run_implementer outside config role none) roles) _ _ _
            (map_run-Keeps core _ roles (λ role. run_implementer-Keeps outside config role none)) e1
            (λ results s2 e2. review_part-IsFinal roles s2 e2))

  full_part-IsRun :
      (roles : List AgentRole) (s : Session World)
      → config.mode ≡ full
      → implementers_of plan ≡ roles
      → core s ≡ (0, none)
      → Holds IsRun (full_part outside config plan roles s)
  unfolding full_part build_final_report final_report
  full_part-IsRun [] s mode none_write e = analysed mode none_write refl
  full_part-IsRun (role ∷ roles) s mode some_write e =
      if-Holds IsRun plan.approval_requirements.founder_approval_required _ _ s
        (λ required. gated mode required refl (ground (arith, required)))
        (λ free.
          Holds-map _ IsRun (implement_part outside config plan (role ∷ roles) s)
            (λ r final. reviewed mode final) (implement_part-IsFinal (role ∷ roles) s e))

  mode_part-IsRun :
      (mode : Mode) (s : Session World)
      → config.mode ≡ mode
      → core s ≡ (0, none)
      → Holds IsRun (mode_part outside config mode plan s)
  unfolding dry_part build_final_report
  mode_part-IsRun dry_run s mode e =
      then-Keeps core IsRun
        (run_group outside config (run_dry_run_engineering_group outside config)
          (implementers_of plan))
        _ s _
        (run_group-Keeps core _ (implementers_of plan)
          (run_dry_run_engineering_group-Keeps outside config))
        e (λ _ s' e'. dry mode refl)
  mode_part-IsRun full s mode e = full_part-IsRun (implementers_of plan) _ mode refl e

  pub run-Holds : (s : Session World) → core s ≡ (0, none) → Holds IsRun (run outside config plan s)
  unfolding run
  run-Holds s e =
      then-Keeps core IsRun
        (run_group outside config (run_specialist_group outside config) (specialists_of plan)) _ s _
        (run_group-Keeps core _ (specialists_of plan) (run_specialist_group-Keeps outside config)) e
        (λ _ s1 e1. mode_part-IsRun config.mode s1 refl e1)

  -- A run always ends, or throws what it was thrown: whatever the agents and git answer, the rounds
  -- of correction come to an end.
  pub run-ends : (world : World) → ¬ (run outside config plan (new_session world) ≡ out_of_fuel)
  run-ends world = Holds-ends IsRun _ (run-Holds (new_session world) refl)

  -- A task that a full run calls complete either changed no code, for want of implementers, or
  -- needed no approval of the founder, has the acceptance of each reviewer of the plan given since
  -- the last session that could write files, has no conflicts in the result that it recorded of its
  -- integration, where there was one, and took no more corrections than allowed.
  pub run-complete :
      (world : World) (report : FinalTaskReport) (s : Session World)
      → config.mode ≡ full
      → run outside config plan (new_session world) ≡ finished ((complete, report), s)
      → (implementers_of plan ≡ [])
        ⊎ ((plan.approval_requirements.founder_approval_required ≡ false)
            × ((all_accept (reviewers_of plan) s.trace ≡ true)
                × ((is_settled s.integration_result ≡ true)
                    × (s.correction_cycles ≤ config.max_retry_cycles))))
  run-complete world report s mode e =
      elim (Holds-finished IsRun _ _ (run-Holds (new_session world) refl) e) [
        | dry m _ ↦ cc
        | analysed _ empty _ ↦ inl empty
        | gated _ _ f _ ↦ cc
        | reviewed _ final ↦ elim final.end [
          | accepted _ free accept settle ↦ inr (free, (accept, (settle, final.bounded)))
          | awaiting f _ _ _ ↦ cc
          | exhausted f _ _ ↦ cc
        ]
      ]

  -- A full run hands a task to the founder only where the plan asks for it, or where all
  -- corrections are used up and a reviewer still asks for changes or the integration still has
  -- conflicts; in either case its report says that approval is required.
  pub run-escalated :
      (world : World) (report : FinalTaskReport) (s : Session World)
      → run outside config plan (new_session world)
        ≡ finished ((founder_approval_required, report), s)
      → (report.approval_required ≡ true)
        × ((plan.approval_requirements.founder_approval_required ≡ true)
            ⊎ ((s.correction_cycles ≡ config.max_retry_cycles)
                × (((rejects s.final_qa_result
                        || (rejects s.final_security_result
                            || not (is_settled s.integration_result)))
                      ≡ true)
                    × (report.correction_cycles ≡ config.max_retry_cycles))))
  unfolding final_report
  run-escalated world report s e =
      elim (Holds-finished IsRun _ _ (run-Holds (new_session world) refl) e) [
        | dry _ f ↦ cc
        | analysed _ _ f ↦ cc
        | gated _ required _ says ↦ (says, inl required)
        | reviewed _ final ↦ elim final.end [
          | accepted f _ _ _ ↦ cc
          | awaiting _ required _ _ ↦
              (ap (λ x. x.approval_required) final.reported ∙ ground arith, inl required)
          | exhausted _ cycles rejected ↦ (
            ap (λ x. x.approval_required) final.reported ∙ ground arith,
            inr (cycles, (rejected, ap (λ x. x.correction_cycles) final.reported ∙ cycles)),
          )
        ]
      ]
