-- ===== src/Runner/Workers.antt =====
-- The calls of the agents by `Runner` (orchestrator/src/supervisor/orchestrator.ts).
use muslimrentals.Prelude.{
  String, Bool, true, false, Option, none, some, List, [], ◌∷◌, ◌++◌, ◌==◌, or_default,
  string_equality, if◌then◌else◌, unique_onto,
}
use muslimrentals.Roles.{AgentRole, role_equality}
use muslimrentals.Agents.{get_profile}
use muslimrentals.Runner.{
  AgentAnalysis, ImplementationResult, ReviewResult, WorktreeHandle, analysis_json,
  implementation_json, PrerequisiteArtifact, Instruction, analyse, dry_run_engineering, implement,
  review, InvokeRequest, agent_launch, agent_complete, agent_output_validation_failed, invoked,
  worktree_created, worktree_committed, worktree_commit_failed, changed_files_check_failed,
  review_verdict, specialist_review, Config, Run, pure, reads, modify, log_event, ◌>>=◌, ◌>>◌,
  set_state, write_artifact,
}
use muslimrentals.Runner.Outside.{
  Attempt, made, threw, NameStatus, Outside, diff_paths, attempt, call,
}
use muslimrentals.Runner.Requests.{
  analysis_request, commit_message, parsed_analysis, parsed_implementation, parsed_review,
  profile_request,
}

-- `Map.get` and `Map.set` for the maps by role.
abbrev pub of_role : {A : Type 0} → AgentRole → List (AgentRole × A) → Option A
of_role role [] = none
of_role role ((r, a) ∷ rows) = if r == role then some a else of_role role rows

abbrev pub set_role : {A : Type 0} → AgentRole → A → List (AgentRole × A) → List (AgentRole × A)
set_role role a [] = (role, a) ∷ []
set_role role a ((r, b) ∷ rows) = if r == role then (r, a) ∷ rows else (r, b) ∷ set_role role a rows

-- `this.agentsInvolved.add(role)`.
abbrev pub involve : {World : Type 0} → AgentRole → Run World (Unit {0})
involve role =
    modify (λ s. record s { agents_involved = unique_onto s.agents_involved (role ∷ []) })

module _ {World : Type 0} where
  -- The items one after another, with their results in order.
  unfoldable pub map_run : {A B : Type 0} → (A → Run World B) → List A → Run World (List B)
  map_run f [] = pure []
  map_run f (a ∷ rest) = do b ← f a; bs ← map_run f rest; pure (b ∷ bs)

  -- The log entry of an answer that does not fit its schema.
  abbrev pub log_if_invalid : {A : Type 0} → AgentRole → Option A → Run World (Unit {0})
  log_if_invalid role none = log_event (agent_output_validation_failed role)
  log_if_invalid role (some a) = pure tt

  -- The launch of an agent, up to its answer.
  unfoldable pub launch :
      {A : Type 0}
      → (InvokeRequest → World → Attempt (Option A) × World)
      → InvokeRequest
      → Run World (Option A)
  launch ask request = do
    log_event (agent_launch request.role)
    involve request.role
    log_event (invoked request)
    call (ask request)

  abbrev pub log_commit : AgentRole → Attempt (Option String) → Run World (Unit {0})
  log_commit role (made (some sha)) = log_event (worktree_committed role sha)
  log_commit role (made none) = pure tt
  log_commit role (threw message) = log_event (worktree_commit_failed role message)

  -- The files that git says are changed; where git fails, what was said before.
  abbrev pub measured_files :
      AgentRole → WorktreeHandle → List String → Attempt NameStatus → Run World (List String)
  measured_files role worktree files (made diff) = pure (diff_paths role worktree diff)
  measured_files role worktree files (threw message) = do
    log_event (changed_files_check_failed role message)
    pure files

module _ {World : Type 0} (outside : Outside World) where
  -- The commit of an implementer's work, whose failure is logged only.
  unfoldable pub commit_work : AgentRole → WorktreeHandle → String → Run World (Unit {0})
  commit_work role worktree message = do
    committed ← attempt (outside.commit_all worktree message)
    log_commit role committed

  -- The changes since the base commit, which replace the reported `files`.
  unfoldable pub measure_files : AgentRole → WorktreeHandle → List String → Run World (List String)
  measure_files role worktree files = do
    base ← reads (λ s. or_default s.base_commit "undefined")
    diff ← attempt (outside.diff_name_status worktree base)
    measured_files role worktree files diff

abbrev pub add_specialists : List AgentRole → List AgentAnalysis → List PrerequisiteArtifact
add_specialists (role ∷ roles) (a ∷ results) =
    record { role = role; content = analysis_json a } ∷ add_specialists roles results
add_specialists roles results = []

module _ {World : Type 0} (outside : Outside World) (config : Config) where
  unfoldable pub run_analysis_agent : Instruction → Bool → AgentRole → Run World AgentAnalysis
  run_analysis_agent instruction force_read_only role = do
    artifacts ← reads (λ s. s.specialist_artifacts)
    answer ←
        launch outside.ask_analysis (analysis_request role instruction force_read_only artifacts)
    log_if_invalid role answer
    write_artifact (get_profile role).artifact_filename
    log_event (agent_complete role)
    pure (parsed_analysis role config.task_id answer)

  unfoldable pub run_specialist_group : List AgentRole → Run World (Unit {0})
  run_specialist_group roles = do
    set_state specialist_review
    results ← map_run (run_analysis_agent analyse false) roles
    modify (λ s. record s {
      specialist_artifacts = s.specialist_artifacts ++ add_specialists roles results;
    })

  unfoldable pub run_dry_run_engineering_group : List AgentRole → Run World (Unit {0})
  run_dry_run_engineering_group roles = do
    set_state specialist_review
    results ← map_run (run_analysis_agent dry_run_engineering true) roles
    pure tt

  -- The worktree of a role: the one that it has, or a new one.
  unfoldable pub make_worktree : AgentRole → Option WorktreeHandle → Run World WorktreeHandle
  make_worktree role (some worktree) = pure worktree
  make_worktree role none = do
    base ← reads (λ s. or_default s.base_commit "HEAD")
    worktree ← call (outside.create_worktree config.task_id role base)
    modify (λ s. record s { worktrees = set_role role worktree s.worktrees })
    log_event (worktree_created role worktree)
    pure worktree

  unfoldable pub run_implementer : AgentRole → Option String → Run World ImplementationResult
  run_implementer role feedback = do
    known ← reads (λ s. of_role role s.worktrees)
    worktree ← make_worktree role known
    artifacts ← reads (λ s. s.specialist_artifacts)
    answer ←
        launch outside.ask_implementation
          (profile_request role worktree.path implement artifacts feedback)
    log_if_invalid role answer
    let result = parsed_implementation config.task_id worktree.branch answer
    commit_work outside role worktree (commit_message role result)
    files ← measure_files outside role worktree result.files_changed
    let final = record result { files_changed = files }
    write_artifact (get_profile role).artifact_filename
    log_event (agent_complete role)
    modify (λ s. record s {
      implementation_artifacts =
          s.implementation_artifacts
          ++ record { role = role; content = implementation_json final } ∷ [];
      implementer_files_by_role = set_role role files s.implementer_files_by_role;
    })
    pure final

  unfoldable pub invoke_reviewer :
      String → String → List PrerequisiteArtifact → String → AgentRole → Run World ReviewResult
  invoke_reviewer target path context suffix role = do
    specialists ← reads (λ s. s.specialist_artifacts)
    answer ←
        launch outside.ask_review
          (profile_request role path (review role suffix) (specialists ++ context) none)
    log_if_invalid role answer
    let result = parsed_review role config.task_id answer
    log_event (review_verdict role target result.verdict)
    pure result
