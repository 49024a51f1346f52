-- ===== src/Runner/Frames.antt =====
-- The calls of the agents by `Runner` (orchestrator/src/supervisor/orchestrator.ts) leave the count
-- of corrections and the result of the integration alone.
use muslimrentals.Prelude.{refl, String, Bool, true, false, Option, none, some, List}
use muslimrentals.Roles.{AgentRole}
use muslimrentals.Runner.{WorktreeHandle, InvokeRequest, Instruction, PrerequisiteArtifact, Config}
use muslimrentals.Runner.Outside.{Attempt, made, threw, NameStatus, Outside, call}
use muslimrentals.Runner.Workers.{
  launch, log_if_invalid, make_worktree, log_commit, measured_files, run_implementer, commit_work,
  measure_files, run_analysis_agent, run_specialist_group, run_dry_run_engineering_group,
  invoke_reviewer, map_run,
}
use muslimrentals.Runner.Holds.{Keeps, >>=-Keeps, map_run-Keeps, call-Keeps, core}

module _ {World : Type 0} where
  pub log_if_invalid-Keeps :
      {A : Type 0} (role : AgentRole) (answer : Option A)
      → Keeps {World = World} core (log_if_invalid role answer)
  log_if_invalid-Keeps role none s = refl
  log_if_invalid-Keeps role (some a) s = refl

  pub launch-Keeps :
      {A : Type 0} (ask : InvokeRequest → World → Attempt (Option A) × World)
      (request : InvokeRequest)
      → Keeps core (launch ask request)
  unfolding launch
  launch-Keeps ask request s = call-Keeps core (ask request) (λ _ _. refl) _

  log_commit-Keeps :
      (role : AgentRole) (attempt : Attempt (Option String))
      → Keeps {World = World} core (log_commit role attempt)
  log_commit-Keeps role (made none) s = refl
  log_commit-Keeps role (made (some sha)) s = refl
  log_commit-Keeps role (threw message) s = refl

  measured_files-Keeps :
      (role : AgentRole) (worktree : WorktreeHandle) (files : List String)
      (diff : Attempt NameStatus)
      → Keeps {World = World} core (measured_files role worktree files diff)
  measured_files-Keeps role worktree files (made diff) s = refl
  measured_files-Keeps role worktree files (threw message) s = refl

module _ {World : Type 0} (outside : Outside World) where
  commit_work-Keeps :
      (role : AgentRole) (worktree : WorktreeHandle) (message : String)
      → Keeps core (commit_work outside role worktree message)
  unfolding commit_work
  commit_work-Keeps role worktree message s = log_commit-Keeps role _ _

  pub measure_files-Keeps :
      (role : AgentRole) (worktree : WorktreeHandle) (files : List String)
      → Keeps core (measure_files outside role worktree files)
  unfolding measure_files
  measure_files-Keeps role worktree files s = measured_files-Keeps role worktree files _ _

module _ {World : Type 0} (outside : Outside World) (config : Config) where
  pub run_analysis_agent-Keeps :
      (instruction : Instruction) (read_only : Bool) (role : AgentRole)
      → Keeps core (run_analysis_agent outside config instruction read_only role)
  unfolding run_analysis_agent
  run_analysis_agent-Keeps instruction read_only role s =
      >>=-Keeps core (launch outside.ask_analysis _) _ (launch-Keeps outside.ask_analysis _)
        (λ answer.
          >>=-Keeps core (log_if_invalid role answer) _ (log_if_invalid-Keeps role answer)
            (λ _ s'. refl))
        s

  pub run_specialist_group-Keeps :
      (roles : List AgentRole) → Keeps core (run_specialist_group outside config roles)
  unfolding run_specialist_group
  run_specialist_group-Keeps roles s =
      >>=-Keeps core (map_run (run_analysis_agent outside config _ false) roles) _
        (map_run-Keeps core _ roles (run_analysis_agent-Keeps _ false)) (λ results s'. refl) _

  pub run_dry_run_engineering_group-Keeps :
      (roles : List AgentRole) → Keeps core (run_dry_run_engineering_group outside config roles)
  unfolding run_dry_run_engineering_group
  run_dry_run_engineering_group-Keeps roles s =
      >>=-Keeps core (map_run (run_analysis_agent outside config _ true) roles) _
        (map_run-Keeps core _ roles (run_analysis_agent-Keeps _ true)) (λ results s'. refl) _

  make_worktree-Keeps :
      (role : AgentRole) (known : Option WorktreeHandle)
      → Keeps core (make_worktree outside config role known)
  unfolding make_worktree
  make_worktree-Keeps role (some worktree) s = refl
  make_worktree-Keeps role none s =
      >>=-Keeps core (call (outside.create_worktree config.task_id role _)) _
        (call-Keeps core _ (λ _ _. refl)) (λ worktree s'. refl) s

  pub run_implementer-Keeps :
      (role : AgentRole) (feedback : Option String)
      → Keeps core (run_implementer outside config role feedback)
  unfolding run_implementer
  run_implementer-Keeps role feedback s =
      >>=-Keeps core (make_worktree outside config role _) _ (make_worktree-Keeps role _)
        (λ worktree s1.
          >>=-Keeps core (launch outside.ask_implementation _) _
            (launch-Keeps outside.ask_implementation _)
            (λ answer.
              >>=-Keeps core (log_if_invalid role answer) _ (log_if_invalid-Keeps role answer) (λ _.
                >>=-Keeps core (commit_work outside role worktree _) _
                  (commit_work-Keeps outside role worktree _)
                  (λ _.
                    >>=-Keeps core (measure_files outside role worktree _) _
                      (measure_files-Keeps outside role worktree _) (λ files s4. refl))))
            s1)
        s

  pub invoke_reviewer-Keeps :
      (target path : String) (context : List PrerequisiteArtifact) (suffix : String)
      (role : AgentRole)
      → Keeps core (invoke_reviewer outside config target path context suffix role)
  unfolding invoke_reviewer
  invoke_reviewer-Keeps target path context suffix role s =
      >>=-Keeps core (launch outside.ask_review _) _ (launch-Keeps outside.ask_review _)
        (λ answer.
          >>=-Keeps core (log_if_invalid role answer) _ (log_if_invalid-Keeps role answer)
            (λ _ s'. refl))
        s
