-- ===== src/Runner/Examples.antt =====
-- Runs of tasks with a model that is replaced by fixed answers.
use muslimrentals.Prelude.{
  number_text, ℕ, suc, ◌≡◌, refl, ◌≤◌, ◌⊎◌, true, false, not, ◌||◌, none, some, [], ◌∷◌, ltb,
  if◌then◌else◌,
}
use muslimrentals.Roles.{engineering, frontend, backend, qa, security, designer, role_rank}
use muslimrentals.Planner.{dry_run, full, SupervisorPlan, group_1_specialists}
use muslimrentals.Runner.Workers.{
  run_specialist_group, run_analysis_agent, run_implementer, make_worktree, commit_work,
  measure_files, map_run, launch, invoke_reviewer, run_dry_run_engineering_group,
}
use muslimrentals.Runner.Requests.{analysis_request, profile_request}
use muslimrentals.Agents.{is_implementer_role, get_profile, is_reviewer_role}
use muslimrentals.Runner.Loops.{
  run_single_implementer_review_loop, single_loop, single_round, review_round,
}
use muslimrentals.CrossBranch.{all_changed_paths}
use muslimrentals.Runner.{
  complete, aborted, founder_approval_required, pass, changes_required, Config, Session, Outcome,
  finished, failed, out_of_fuel, new_session,
}
use muslimrentals.Runner.Outside.{made, Outside, stored}
use muslimrentals.Runner.Reviews.{
  dry_run_summary, Ended, rejects, retry_or_escalate, store_results, after_review,
  finish_successfully, build_final_report, final_report,
}
use muslimrentals.Runner.Tasks.{
  run, implementers_of, reviewers_of, specialists_of, full_part, implement_part, review_part,
  dry_part,
}
use muslimrentals.Runner.Verdicts.{all_accept}
use muslimrentals.Runner.Endings.{is_settled}
use muslimrentals.Runner.Untouched.{has_change, run-touches_nothing}
use muslimrentals.Runner.Runs.{run-ends, run-complete, run-escalated}

abbrev pub plan : SupervisorPlan
plan = record {
  task_id = "t1";
  objective = "Fix the sort order";
  required_agents = designer ∷ engineering ∷ qa ∷ security ∷ [];
  dependencies = [];
  parallel_groups = [];
  implementation_scopes = [];
  approval_requirements = record { founder_approval_required = false; reasons = [] };
  expected_artifacts = [];
  risk_notes = [];
}

-- The world counts the reviews; the reviewers accept from the `from`-th on.
abbrev pub answers : ℕ → Outside ℕ
answers from = record {
  ask_plan = λ request n. (made none, n);
  ask_analysis = λ request n. (made none, n);
  ask_implementation = λ request n. (made none, n);
  ask_review = λ request n. (
    made (
        some (record {
          role = request.role;
          task_id = "t1";
          verdict = if ltb n from then changes_required else pass;
          findings = [];
          notes = none;
        })),
    suc n,
  );
  ask_integration = λ request n. (
    made (
        some (record {
          role = request.role;
          task_id = "t1";
          branch = "agents/t1/integration";
          decisions = [];
          files_changed = [];
          summary = "Merged";
          unresolved_conflicts = [];
        })),
    n,
  );
  create_worktree = λ task_id role base n. (made (record { branch = "b"; path = "p" }), n);
  create_integration_worktree = λ task_id base n. (made (record { branch = "i"; path = "q" }), n);
  add_worktree_for_existing_branch =
      λ task_id role branch n. (made (record { branch = branch; path = "p" }), n);
  commit_all = λ worktree message n. (made none, n);
  diff_name_status = λ worktree base n.
      (made (record { added = "a.ts" ∷ []; modified = []; deleted = []; renamed = [] }), n);
  merge_branch = λ worktree branch n. (made (record { clean = true; conflicted_files = [] }), n);
  commit_merge = λ worktree message n. (made tt, n);
  unresolved_conflicts = λ worktree n. (made [], n);
  resolve_head = λ n. (made "head", n);
  merge_base_of = λ refs n. (made "base", n);
  read_artifact = λ task_id file n. (made none, n);
  read_plan = λ task_id n. (made (stored plan), n);
  read_changed_files = λ task_id n.
      (made (stored (record { base_commit = "base"; agents = frontend ∷ backend ∷ [] })), n);
  read_overlap_report = λ task_id n. (
    made (
        stored (record {
          task_id = task_id;
          overlaps = [];
          out_of_scope = [];
          has_blocking_issues = false;
        })),
    n,
  );
  existing_worktree_handle = λ task_id role n. (made (record { branch = role; path = role }), n);
}

abbrev pub config : Config
config = record { task_id = "t1"; objective = plan.objective; mode = full; max_retry_cycles = 2 }

run-ends_example : ¬ (run (answers 100) config plan (new_session 0) ≡ out_of_fuel)
run-ends_example = run-ends (answers 100) config plan 0

abbrev pub value : {A : Type 0} → A → Outcome A → A
value a (finished b) = b
value a (failed message) = a
value a out_of_fuel = a

abbrev pub unfinished : Ended × Session ℕ
unfinished = (
  (
    aborted,
    record {
      task_id = "";
      objective = "";
      final_state = aborted;
      agents_involved = [];
      approval_required = false;
      reasons = [];
      qa_verdict = none;
      security_verdict = none;
      correction_cycles = 0;
      summary = dry_run_summary [];
      files_changed = [];
      next_steps = [];
    },
  ),
  new_session 0,
)

-- Both reviewers ask for changes once, and then accept.
abbrev corrected : Ended × Session ℕ
corrected = value unfinished (run (answers 2) config plan (new_session 0))

corrected_run :
    run (answers 2) config plan (new_session 0) ≡ finished ((complete, corrected.0.1), corrected.1)
unfolding run specialists_of group_1_specialists run_specialist_group run_analysis_agent
    analysis_request full_part implementers_of is_implementer_role implement_part run_implementer
    make_worktree commit_work measure_files review_part run_single_implementer_review_loop
    single_loop single_round retry_or_escalate role_rank map_run launch get_profile is_reviewer_role
    all_changed_paths reviewers_of review_round invoke_reviewer profile_request store_results
    after_review finish_successfully build_final_report final_report
corrected_run = refl

run-complete_example :
    (implementers_of plan ≡ [])
    ⊎ ((plan.approval_requirements.founder_approval_required ≡ false)
        × ((all_accept (reviewers_of plan) corrected.1.trace ≡ true)
            × ((is_settled corrected.1.integration_result ≡ true)
                × (corrected.1.correction_cycles ≤ 2))))
run-complete_example =
    run-complete (answers 2) config plan 0 corrected.0.1 corrected.1 refl corrected_run

-- The reviewers never accept.
abbrev rejected : Ended × Session ℕ
rejected = value unfinished (run (answers 100) config plan (new_session 0))

rejected_run :
    run (answers 100) config plan (new_session 0)
    ≡ finished ((founder_approval_required, rejected.0.1), rejected.1)
unfolding run specialists_of group_1_specialists run_specialist_group run_analysis_agent
    analysis_request full_part implementers_of is_implementer_role implement_part run_implementer
    make_worktree commit_work measure_files review_part run_single_implementer_review_loop
    single_loop single_round retry_or_escalate role_rank map_run launch get_profile is_reviewer_role
    all_changed_paths reviewers_of review_round invoke_reviewer profile_request store_results
    after_review finish_successfully build_final_report final_report
rejected_run = refl

run-escalated_example :
    (rejected.0.1.approval_required ≡ true)
    × ((plan.approval_requirements.founder_approval_required ≡ true)
        ⊎ ((rejected.1.correction_cycles ≡ 2)
            × (((rejects rejected.1.final_qa_result
                    || (rejects rejected.1.final_security_result
                        || not (is_settled rejected.1.integration_result)))
                  ≡ true)
                × (rejected.0.1.correction_cycles ≡ 2))))
run-escalated_example =
    run-escalated (answers 100) config plan 0 rejected.0.1 rejected.1 rejected_run

abbrev dry_config : Config
dry_config = record config { mode = dry_run }

abbrev rehearsed : Ended × Session ℕ
rehearsed = value unfinished (run (answers 0) dry_config plan (new_session 0))

rehearsed_run :
    run (answers 0) dry_config plan (new_session 0) ≡ finished (rehearsed.0, rehearsed.1)
unfolding run specialists_of group_1_specialists run_specialist_group run_analysis_agent
    analysis_request dry_part run_dry_run_engineering_group implementers_of is_implementer_role
    role_rank map_run launch get_profile build_final_report final_report
rehearsed_run = refl

run-touches_nothing_example :
    (has_change rehearsed.1.trace ≡ false)
    × ((rehearsed.1.worktrees ≡ []) × (rehearsed.1.integration_worktree ≡ none))
run-touches_nothing_example =
    run-touches_nothing (answers 0) dry_config plan 0 rehearsed.0 rehearsed.1 refl rehearsed_run

four_digits : number_text 4205 ≡ "4205"
four_digits = refl
