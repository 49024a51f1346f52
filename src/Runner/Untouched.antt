-- ===== src/Runner/Untouched.antt =====
-- The runs that may change no file: dry runs, and plans that wait for the founder
-- (`Runner.run`, orchestrator/src/supervisor/orchestrator.ts).
use muslimrentals.Prelude.{
  ◌≡◌, refl, ◌∙◌, ap, Bool, true, false, ◌||◌, Option, none, some, List, [], ◌∷◌, all, all-filter,
  filter, includes, includes-filter, arith, string_equality,
}
use muslimrentals.Roles.{
  AgentRole, supervisor, engineering, frontend, backend, qa, security, designer, trust_safety,
  legal, support, integrator, lead, role_rank, role_equality,
}
use muslimrentals.Agents.{is_implementer_role, get_profile}
use muslimrentals.Agents.Permissions.{get_profile-IsSeparated}
use muslimrentals.Planner.{Mode, dry_run, full, SupervisorPlan, group_1_specialists}
use muslimrentals.Runner.{
  Event, invoked, worktree_created, integration_worktree_created, Instruction, analyse,
  dry_run_engineering, PrerequisiteArtifact, InvokeRequest, WorktreeHandle, Config, Session,
  finished, new_session,
}
use muslimrentals.Runner.Outside.{Attempt, Outside}
use muslimrentals.Runner.Workers.{
  launch, log_if_invalid, run_analysis_agent, run_specialist_group, run_dry_run_engineering_group,
  map_run,
}
use muslimrentals.Runner.Requests.{is_harmless, analysis_request}
use muslimrentals.Runner.Reviews.{Ended, build_final_report}
use muslimrentals.Runner.Tasks.{
  implementers_of, specialists_of, run_group, mode_part, dry_part, full_part, run,
}
use muslimrentals.Runner.Holds.{
  Holds, Holds-map, Holds-finished, then-Keeps, if-Holds, Keeps, >>=-Keeps, map_run-Keeps,
  map_run-Keeps-all, call-Keeps,
}
use muslimrentals.Runner.Verdicts.{can_write}
use muslimrentals.Runner.Runs.{run_group-Keeps}

-- The session has a tool that can change files: `Write`, `Edit` or a shell.
abbrev pub can_change : InvokeRequest → Bool
can_change request = can_write request || includes "Bash" request.tools

-- Some session so far could change files, or some worktree was made.
abbrev pub has_change : List Event → Bool
has_change [] = false
has_change (invoked request ∷ trace) = can_change request || has_change trace
has_change (worktree_created role worktree ∷ trace) = true
has_change (integration_worktree_created worktree ∷ trace) = true
has_change (event ∷ trace) = has_change trace

abbrev pub Touched : Type 0
Touched = Bool × (List (AgentRole × WorktreeHandle) × Option WorktreeHandle)

abbrev pub touched : {World : Type 0} → Session World → Touched
touched s = (has_change s.trace, (s.worktrees, s.integration_worktree))

abbrev pub untouched : Touched
untouched = (false, ([], none))

module _ {World : Type 0} where
  launch-Keeps-touched :
      {A : Type 0} (ask : InvokeRequest → World → Attempt (Option A) × World)
      (request : InvokeRequest)
      → can_change request ≡ false
      → Keeps touched (launch ask request)
  unfolding launch
  launch-Keeps-touched ask request harmless s =
      Holds-map _ (λ r. touched r.1 ≡ touched s) _
        (λ r e.
          e ∙ ap (λ b. (b || has_change s.trace, (s.worktrees, s.integration_worktree))) harmless)
        (call-Keeps touched (ask request) (λ _ _. refl) _)

  log_if_invalid-Keeps-touched :
      {A : Type 0} (role : AgentRole) (answer : Option A)
      → Keeps {World = World} touched (log_if_invalid role answer)
  log_if_invalid-Keeps-touched role none s = refl
  log_if_invalid-Keeps-touched role (some a) s = refl

read_only_request :
    (role : AgentRole) (instruction : Instruction) (artifacts : List PrerequisiteArtifact)
    → can_change (analysis_request role instruction true artifacts) ≡ false
unfolding analysis_request
read_only_request role instruction artifacts = ground (
  arith,
  includes-filter is_harmless "Write" (get_profile role).tools,
  includes-filter is_harmless "Edit" (get_profile role).tools,
  includes-filter is_harmless "Bash" (get_profile role).tools,
)

-- No specialist has a shell.
specialist_shell :
    (role : AgentRole)
    → includes role group_1_specialists ≡ true
    → includes "Bash" (get_profile role).tools ≡ false
unfolding group_1_specialists get_profile role_rank
specialist_shell supervisor h = refl
specialist_shell engineering h = cc
specialist_shell frontend h = cc
specialist_shell backend h = cc
specialist_shell qa h = cc
specialist_shell security h = cc
specialist_shell designer h = refl
specialist_shell trust_safety h = refl
specialist_shell legal h = refl
specialist_shell support h = refl
specialist_shell integrator h = cc
specialist_shell lead h = refl

specialist_request :
    (role : AgentRole) (instruction : Instruction) (artifacts : List PrerequisiteArtifact)
    → includes role group_1_specialists ≡ true
    → can_change (analysis_request role instruction false artifacts) ≡ false
unfolding analysis_request group_1_specialists is_implementer_role get_profile role_rank
specialist_request role instruction artifacts h =
    let separated = get_profile-IsSeparated role in
    ground (arith, h, separated.writes, separated.edits, specialist_shell role h)

module _ {World : Type 0} (outside : Outside World) (config : Config) where
  run_analysis_agent-Keeps-touched :
      (instruction : Instruction) (read_only : Bool) (role : AgentRole)
      → ((artifacts : List PrerequisiteArtifact)
          → can_change (analysis_request role instruction read_only artifacts) ≡ false)
      → Keeps touched (run_analysis_agent outside config instruction read_only role)
  unfolding run_analysis_agent
  run_analysis_agent-Keeps-touched instruction read_only role harmless s =
      >>=-Keeps touched (launch outside.ask_analysis _) _
        (launch-Keeps-touched outside.ask_analysis _ (harmless s.specialist_artifacts))
        (λ answer.
          >>=-Keeps touched (log_if_invalid role answer) _
            (log_if_invalid-Keeps-touched role answer) (λ _ s'. refl))
        s

  specialists-Keeps-touched :
      (roles : List AgentRole)
      → all (λ r. includes r group_1_specialists) roles ≡ true
      → Keeps touched (run_group outside config (run_specialist_group outside config) roles)
  unfolding run_specialist_group
  specialists-Keeps-touched [] h s = refl
  specialists-Keeps-touched (role ∷ roles) h s =
      >>=-Keeps touched (map_run (run_analysis_agent outside config analyse false) (role ∷ roles)) _
        (map_run-Keeps-all touched (λ r. includes r group_1_specialists) _ (role ∷ roles)
          (λ r i.
            run_analysis_agent-Keeps-touched analyse false r
              (λ artifacts. specialist_request r analyse artifacts i))
          h)
        (λ results s'. refl) _

  dry_engineering-Keeps-touched :
      (roles : List AgentRole) → Keeps touched (run_dry_run_engineering_group outside config roles)
  unfolding run_dry_run_engineering_group
  dry_engineering-Keeps-touched roles s =
      >>=-Keeps touched (map_run (run_analysis_agent outside config dry_run_engineering true) roles)
        _
        (map_run-Keeps touched _ roles (λ r.
          run_analysis_agent-Keeps-touched dry_run_engineering true r
            (λ artifacts. read_only_request r dry_run_engineering artifacts)))
        (λ results s'. refl) _

-- A run that is only an analysis, or stops before the first change.
abbrev pub is_held : Config → SupervisorPlan → Bool
is_held config plan = elim (config.mode) [
  | dry_run ↦ true
  | full ↦ plan.approval_requirements.founder_approval_required
]

module _ {World : Type 0} (outside : Outside World) (config : Config) (plan : SupervisorPlan) where
  abbrev pub IsUntouched : Ended × Session World → Type 0
  IsUntouched r = touched r.1 ≡ untouched

  full_part-IsUntouched :
      (roles : List AgentRole) (s : Session World)
      → plan.approval_requirements.founder_approval_required ≡ true
      → touched s ≡ untouched
      → Holds IsUntouched (full_part outside config plan roles s)
  unfolding full_part build_final_report
  full_part-IsUntouched [] s required e = e
  full_part-IsUntouched (role ∷ roles) s required e =
      if-Holds IsUntouched plan.approval_requirements.founder_approval_required _ _ s (λ _. e)
        (λ free. cc)

  mode_part-IsUntouched :
      (mode : Mode) (s : Session World)
      → elim mode [ dry_run ↦ true | full ↦ plan.approval_requirements.founder_approval_required ]
        ≡ true
      → touched s ≡ untouched
      → Holds IsUntouched (mode_part outside config mode plan s)
  unfolding dry_part build_final_report
  mode_part-IsUntouched dry_run s held e =
      then-Keeps touched IsUntouched
        (run_group outside config (run_dry_run_engineering_group outside config)
          (implementers_of plan))
        _ s _
        (run_group-Keeps outside config plan touched _ (implementers_of plan)
          (dry_engineering-Keeps-touched outside config))
        e (λ _ s' e'. e')
  mode_part-IsUntouched full s held e = full_part-IsUntouched (implementers_of plan) _ held e

  pub run-IsUntouched :
      (s : Session World)
      → is_held config plan ≡ true
      → touched s ≡ untouched
      → Holds IsUntouched (run outside config plan s)
  unfolding run specialists_of
  run-IsUntouched s held e =
      let specialists = filter (λ r. includes r group_1_specialists) plan.required_agents in
      then-Keeps touched IsUntouched
        (run_group outside config (run_specialist_group outside config) specialists) _ s _
        (specialists-Keeps-touched outside config specialists
          (all-filter (λ r. includes r group_1_specialists) plan.required_agents))
        e (λ _ s' e'. mode_part-IsUntouched config.mode s' held e')

  -- A dry run, and a full run whose plan the founder has to approve, launches no session that has
  -- `Write`, `Edit` or a shell among its tools, and makes no worktree, neither one of an implementer
  -- nor that of the integration, whatever agents the plan names.
  pub run-touches_nothing :
      (world : World) (ended : Ended) (s : Session World)
      → is_held config plan ≡ true
      → run outside config plan (new_session world) ≡ finished (ended, s)
      → (has_change s.trace ≡ false) × ((s.worktrees ≡ []) × (s.integration_worktree ≡ none))
  run-touches_nothing world ended s held e =
      let same = Holds-finished IsUntouched _ _ (run-IsUntouched (new_session world) held refl) e in
      (ap (λ t. t.0) same, (ap (λ t. t.1.0) same, ap (λ t. t.1.1) same))
