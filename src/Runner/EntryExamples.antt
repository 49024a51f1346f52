-- ===== src/Runner/EntryExamples.antt =====
-- Tasks that are taken up again, with fixed answers of the model.
use muslimrentals.Prelude.{
  ℕ, ◌≡◌, refl, String, none, List, [], ◌∷◌, ends_with, drop_last, take_chars,
}
use muslimrentals.Roles.{AgentRole, frontend, backend, role_rank}
use muslimrentals.Planner.{full}
use muslimrentals.Runner.{complete, aborted, Session, finished, new_session}
use muslimrentals.Runner.Examples.{answers, plan, value, unfinished}
use muslimrentals.Agents.{get_profile, is_reviewer_role}
use muslimrentals.CrossBranch.{
  default_scope_for, default_scopes, matches_glob, is_expected, is_allowed_shared, is_in_scope,
  all_changed_paths, scope_by_agent, touch, touch_all, touched_by, overlap_entry, overlaps_of,
  out_of_scope_of, analyze_cross_branch,
}
use muslimrentals.Runner.Workers.{map_run, launch, measure_files, invoke_reviewer}
use muslimrentals.Runner.Requests.{profile_request}
use muslimrentals.Runner.Integration.{
  perform_mechanical_merges, run_integrator, run_integration_step, change_set_of, analyze_branches,
}
use muslimrentals.Runner.Reviews.{
  final_report, build_final_report, finish_successfully, retry_or_escalate, after_review,
  store_results,
}
use muslimrentals.Runner.Loops.{
  review_round, integrated_review, after_integration, integration_round, integration_loop,
  run_integration_and_review_loop, run_integrated_review_loop,
}
use muslimrentals.Runner.Tasks.{
  reviewers_of, attach_branch, resume_from_existing_branches, attach_worktree,
}
use muslimrentals.Runner.Entry.{
  RunResult, resume_integration, resume_integrated_review, run_task, RunOptions,
}

-- Two branches of an earlier run, which touch a path outside their scopes.
abbrev branches : List (AgentRole × String)
branches = (frontend, "agents/t1/frontend") ∷ (backend, "agents/t1/backend") ∷ []

abbrev no_result : RunResult × Session ℕ
no_result = (
  record {
    task_id = "";
    final_state = aborted;
    plan = plan;
    final_report = unfinished.0.1;
    worktrees = [];
    integration_worktree = none;
  },
  new_session 0,
)

abbrev integrated : RunResult × Session ℕ
integrated = value no_result (resume_integration (answers 2) "t1" branches none (new_session 0))

integrated_run :
    (resume_integration (answers 2) "t1" branches none (new_session 0)
      ≡ finished (integrated.0, integrated.1))
    × (integrated.0.final_state ≡ complete)
unfolding resume_integration resume_from_existing_branches attach_branch attach_worktree
    run_integrated_review_loop run_integration_and_review_loop integration_loop integration_round
    integrated_review after_integration analyze_branches change_set_of analyze_cross_branch
    touched_by touch touch_all overlaps_of overlap_entry out_of_scope_of scope_by_agent
    default_scopes default_scope_for is_in_scope is_expected is_allowed_shared matches_glob
    ends_with drop_last take_chars run_integration_step perform_mechanical_merges run_integrator
    measure_files retry_or_escalate role_rank map_run launch get_profile is_reviewer_role
    all_changed_paths reviewers_of review_round invoke_reviewer profile_request store_results
    after_review finish_successfully build_final_report final_report
integrated_run = (refl, refl)

abbrev reviewed_again : RunResult × Session ℕ
reviewed_again = value no_result (resume_integrated_review (answers 0) "t1" none (new_session 0))

abbrev options : RunOptions
options = record {
  task_id = "t2";
  objective = "Deploy the search";
  mode = full;
  max_agents_per_task = none;
  max_retry_cycles = none;
}

abbrev stopped : RunResult × Session ℕ
stopped = value no_result (run_task (answers 0) "" options (new_session 0))
