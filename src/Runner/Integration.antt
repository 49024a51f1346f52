-- ===== src/Runner/Integration.antt =====
-- The integration of several branches by `Runner` (orchestrator/src/supervisor/orchestrator.ts).
use muslimrentals.Prelude.{
  ℕ, String, Bool, true, false, not, ◌||◌, Option, none, some, List, [], ◌∷◌, ◌++◌, or_default,
  length, string_equality, if◌then◌else◌, template, number_text, unique, eqb,
}
use muslimrentals.Roles.{AgentRole, integrator, role_equality}
use muslimrentals.Agents.{get_profile}
use muslimrentals.CrossBranch.{OverlapReport, WorkerChangeSet, analyze_cross_branch}
use muslimrentals.Planner.{SupervisorPlan}
use muslimrentals.Runner.{
  IntegrationResult, WorktreeHandle, integrate, agent_complete, integration_worktree_created,
  integration_merge_clean, integration_merge_conflict, integration_mechanical_only,
  integration_still_conflicted, cross_branch_analysis_complete, integration, re_integration,
  cross_branch_analysis, Config, Run, pure, throw, reads, ◌>>=◌, ◌>>◌, modify, log_event, set_state,
  write_artifact,
}
use muslimrentals.Runner.Outside.{Outside, change_set, diff_paths, call}
use muslimrentals.Runner.Workers.{of_role, map_run, log_if_invalid, launch, measure_files}
use muslimrentals.Runner.Requests.{role_text, profile_request}

abbrev parsed_integration : String → String → Option IntegrationResult → IntegrationResult
parsed_integration task_id branch none = record {
  role = integrator;
  task_id = task_id;
  branch = branch;
  decisions = [];
  files_changed = [];
  summary = "Output failed schema validation.";
  unresolved_conflicts =
      "Integrator output failed schema validation — treated as unresolved rather than silently accepted."
      ∷ [];
}
parsed_integration task_id branch (some a) = record a {
  role = integrator;
  task_id = task_id;
  branch = branch;
}

-- The result with the conflicts that git still sees.
abbrev with_conflicts : IntegrationResult → List String → IntegrationResult
with_conflicts result [] = result
with_conflicts result (file ∷ files) = record result {
  unresolved_conflicts = unique (result.unresolved_conflicts ++ file ∷ files);
}

abbrev mechanical_result : String → WorktreeHandle → ℕ → List String → IntegrationResult
mechanical_result task_id worktree branches files = record {
  role = integrator;
  task_id = task_id;
  branch = worktree.branch;
  decisions = [];
  files_changed = files;
  summary = template (
      number_text branches
      ∷ " implementer branch(es) merged cleanly with no overlapping or out-of-scope files — no reconciliation was needed, so no Integrator agent was invoked."
      ∷ []);
  unresolved_conflicts = [];
}

-- The branches of the roles that have a worktree.
abbrev branches_of : List (AgentRole × WorktreeHandle) → List AgentRole → List String
branches_of worktrees [] = []
branches_of worktrees (role ∷ roles) = elim (of_role role worktrees) [
  | none ↦ branches_of worktrees roles
  | some w ↦ w.branch ∷ branches_of worktrees roles
]

module _ {World : Type 0} (outside : Outside World) (config : Config) where
  -- One branch: `later` are the merges after it.
  abbrev pub merge_role :
      WorktreeHandle
      → AgentRole
      → WorktreeHandle
      → List String
      → Run World (Bool × List String)
      → Run World (Bool × List String)
  merge_role into role worktree remaining later = do
    merged ← call (outside.merge_branch into worktree.branch)
    if merged.clean
        then (do
          done ← call (
              outside.commit_merge into (
                template
                  ("Merge " ∷ role_text role ∷ " (" ∷ worktree.branch ∷ ") into integration" ∷ [])))
          log_event (integration_merge_clean role worktree.branch)
          later)
        else (do
          log_event (integration_merge_conflict role worktree.branch merged.conflicted_files)
          pure (false, remaining))

  -- Whether all merges were clean, and the branches from the first conflict on.
  unfoldable pub perform_mechanical_merges :
      WorktreeHandle → List AgentRole → Run World (Bool × List String)
  perform_mechanical_merges into [] = pure (true, [])
  perform_mechanical_merges into (role ∷ roles) = do
    worktrees ← reads (λ s. s.worktrees)
    elim (of_role role worktrees) [
      | none ↦ perform_mechanical_merges into roles
      | some worktree ↦
          merge_role into role worktree (branches_of worktrees (role ∷ roles))
            (perform_mechanical_merges into roles)
    ]

  abbrev pub log_conflicted : List String → Run World (Unit {0})
  log_conflicted [] = pure tt
  log_conflicted (file ∷ files) = log_event (integration_still_conflicted (file ∷ files))

  unfoldable pub run_integrator :
      WorktreeHandle → OverlapReport → List String → Option String → Run World (Unit {0})
  run_integrator worktree overlaps remaining feedback = do
    artifacts ← reads (λ s. s.specialist_artifacts ++ s.implementation_artifacts)
    answer ← launch outside.ask_integration (
        profile_request integrator worktree.path (integrate overlaps remaining feedback) artifacts
          none)
    log_if_invalid integrator answer
    conflicted ← call (outside.unresolved_conflicts worktree)
    log_conflicted conflicted
    let result =
        with_conflicts (parsed_integration config.task_id worktree.branch answer) conflicted
    files ← measure_files outside integrator worktree result.files_changed
    write_artifact (get_profile integrator).artifact_filename
    log_event (agent_complete integrator)
    modify (λ s. record s { integration_result = some (record result { files_changed = files }) })

  -- All branches merged cleanly and nothing blocks: no agent is needed.
  abbrev pub accept_merges : WorktreeHandle → List AgentRole → Run World (Unit {0})
  accept_merges worktree roles = do
    base ← reads (λ s. or_default s.base_commit "undefined")
    diff ← call (outside.diff_name_status worktree base)
    let files = diff_paths integrator worktree diff
    write_artifact (get_profile integrator).artifact_filename
    modify (λ s. record s {
      integration_result = some (mechanical_result config.task_id worktree (length roles) files);
    })
    log_event (integration_mechanical_only files)

  abbrev pub first_integration :
      List AgentRole → OverlapReport → Option String → Run World (Unit {0})
  first_integration roles overlaps feedback = do
    base ← reads (λ s. or_default s.base_commit "undefined")
    worktree ← call (outside.create_integration_worktree config.task_id base)
    modify (λ s. record s { integration_worktree = some worktree })
    log_event (integration_worktree_created worktree)
    merges ← perform_mechanical_merges worktree roles
    if overlaps.has_blocking_issues || not merges.0
        then run_integrator worktree overlaps merges.1 feedback
        else accept_merges worktree roles

  -- A first integration merges; a later one repairs the worktree in place.
  unfoldable pub run_integration_step :
      List AgentRole → OverlapReport → Option String → Run World (Unit {0})
  run_integration_step roles overlaps feedback = do
    cycles ← reads (λ s. s.correction_cycles)
    set_state (if eqb cycles 0 then integration else re_integration)
    known ← reads (λ s. s.integration_worktree)
    elim known [
      | none ↦ first_integration roles overlaps feedback
      | some worktree ↦ run_integrator worktree overlaps [] feedback
    ]

  abbrev pub known_change_set :
      AgentRole → String → Option WorktreeHandle → Run World WorkerChangeSet
  known_change_set role base none = throw (
      template
        ("Internal error: no worktree for implementer role \"" ∷ role_text role ∷ "\"." ∷ []))
  known_change_set role base (some worktree) = do
    diff ← call (outside.diff_name_status worktree base)
    pure (change_set role worktree.branch diff)

  unfoldable pub change_set_of : AgentRole → Run World WorkerChangeSet
  change_set_of role = do
    known ← reads (λ s. of_role role s.worktrees)
    base ← reads (λ s. or_default s.base_commit "undefined")
    known_change_set role base known

  -- The analysis across the branches, before they are integrated.
  unfoldable pub analyze_branches : SupervisorPlan → List AgentRole → Run World OverlapReport
  analyze_branches plan roles = do
    set_state cross_branch_analysis
    change_sets ← map_run change_set_of roles
    write_artifact "changed-files.json"
    write_artifact "implementation-scopes.json"
    let overlaps = analyze_cross_branch config.task_id change_sets plan.implementation_scopes
    write_artifact "overlap-report.json"
    modify (λ s. record s { overlap_report = some overlaps })
    log_event (cross_branch_analysis_complete overlaps)
    pure overlaps
