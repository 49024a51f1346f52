-- ===== src/Runner/Entries.antt =====
-- What a task that is started or taken up again ends with (`runTask`, `resumeIntegration` and
-- `resumeIntegratedReview`, orchestrator/src/supervisor/orchestrator.ts).
use muslimrentals.Prelude.{◌≡◌, refl, ◌∙◌, sym, ℕ, String, true, false, Option, List, []}
use muslimrentals.Roles.{AgentRole, role_equality}
use muslimrentals.Runner.{complete, Config, Session, finished, new_session, WorktreeHandle}
use muslimrentals.Runner.Outside.{Outside, made, Stored, missing, malformed, stored}
use muslimrentals.Runner.Reviews.{Ended}
use muslimrentals.Runner.Tasks.{reviewers_of, resume_from_existing_branches}
use muslimrentals.Runner.Entry.{RunResult, required, resume_integration}
use muslimrentals.Runner.Holds.{
  Holds, Holds-finished, and_then-Holds, then-Keeps, Keeps, call-then, core,
}
use muslimrentals.Runner.Verdicts.{all_accept}
use muslimrentals.Runner.Endings.{is_settled, accepted, awaiting, exhausted, IsFinal}
use muslimrentals.Runner.Resumes.{resume_from_existing_branches-IsFinal}

module _ {World : Type 0} where
  required-Keeps :
      {A : Type 0} (name : String) (file : Stored A)
      → Keeps {World = World} core (required name file)
  required-Keeps name missing s = tt
  required-Keeps name malformed s = tt
  required-Keeps name (stored a) s = refl

-- A result that is the one of a correction loop that ended.
record IsConcluded {World : Type 0} (r : RunResult × Session World) : Type 0 where
  pub config : Config
  pub ended : Ended
  pub final : IsFinal config r.0.plan (reviewers_of r.0.plan) (ended, r.1)
  pub state : r.0.final_state ≡ ended.0

-- What a result that is called complete shows.
concluded-complete :
    {World : Type 0} (result : RunResult) (s : Session World)
    → IsConcluded (result, s)
    → result.final_state ≡ complete
    → (result.plan.approval_requirements.founder_approval_required ≡ false)
      × ((all_accept (reviewers_of result.plan) s.trace ≡ true)
          × (is_settled s.integration_result ≡ true))
concluded-complete result s concluded done =
    let state : concluded.ended.0 ≡ complete = sym concluded.state ∙ done in
    elim concluded.final.end [
      | accepted _ free accept settle ↦ (free, (accept, settle))
      | awaiting f _ _ _ ↦ cc
      | exhausted f _ _ ↦ cc
    ]

module _ {World : Type 0} (outside : Outside World) where
  -- A task taken up again at its integration is complete only where the founder need not be asked,
  -- every reviewer of its plan has accepted since the last session that could write, and the
  -- integration has no conflict left.
  pub resume_integration-complete :
      (task_id : String) (branches : List (AgentRole × String)) (max_retry_cycles : Option ℕ)
      (world : World) (result : RunResult) (s : Session World)
      → resume_integration outside task_id branches max_retry_cycles (new_session world)
        ≡ finished (result, s)
      → result.final_state ≡ complete
      → (result.plan.approval_requirements.founder_approval_required ≡ false)
        × ((all_accept (reviewers_of result.plan) s.trace ≡ true)
            × (is_settled s.integration_result ≡ true))
  unfolding resume_integration
  resume_integration-complete task_id branches max_retry_cycles world result s e =
      concluded-complete result s (
        Holds-finished IsConcluded _ _
          (call-then _ (outside.read_plan task_id) _ _ _ refl (λ file s1 e1.
            then-Keeps core _ (required _ file) _ s1 _ (required-Keeps _ file) e1 (λ original s2 e2.
              and_then-Holds _ _ (resume_from_existing_branches outside _ _ branches _) _
                (resume_from_existing_branches-IsFinal outside _ _ branches _ e2)
                (λ ended s3 final. record {
                  config = _;
                  ended = ended;
                  final = final;
                  state = refl;
                }))))
          e)

  -- Git was asked for the conflicts of the integration worktree that is on disk, and found none.
  pub record FoundClean (task_id : String) : Type 0 where
    pub before : World
    pub after : World
    pub worktree : WorktreeHandle
    pub attached :
        outside.existing_worktree_handle task_id "integration" before ≡ (made worktree, after)
    pub clean : (outside.unresolved_conflicts worktree after).0 ≡ made []
