-- ===== src/Runner/Merges.antt =====
-- The merges and the integration by `Runner` (orchestrator/src/supervisor/orchestrator.ts) leave the
-- count of corrections alone, though not the result of the integration.
use muslimrentals.Prelude.{
  ℕ, ◌≡◌, refl, ap, String, Bool, true, false, not, ◌||◌, Option, none, some, List, [], ◌∷◌,
  if◌then◌else◌,
}
use muslimrentals.Roles.{AgentRole}
use muslimrentals.CrossBranch.{OverlapReport}
use muslimrentals.Planner.{SupervisorPlan}
use muslimrentals.Runner.{WorktreeHandle, Config, Session, Run}
use muslimrentals.Runner.Outside.{Outside, call}
use muslimrentals.Runner.Workers.{launch, log_if_invalid, measure_files, map_run}
use muslimrentals.Runner.Integration.{
  run_integrator, run_integration_step, perform_mechanical_merges, merge_role, first_integration,
  accept_merges, log_conflicted, known_change_set, change_set_of, analyze_branches,
}
use muslimrentals.Runner.Holds.{Holds-map, Keeps, >>=-Keeps, map_run-Keeps, call-Keeps, core}
use muslimrentals.Runner.Frames.{launch-Keeps, log_if_invalid-Keeps, measure_files-Keeps}

module _ {World : Type 0} (outside : Outside World) (config : Config) where
  abbrev cycles : Session World → ℕ
  cycles s = s.correction_cycles

  cycles-Keeps : {A : Type 0} (m : Run World A) → Keeps core m → Keeps cycles m
  cycles-Keeps m keeps s =
      Holds-map (λ r. core r.1 ≡ core s) (λ r. cycles r.1 ≡ cycles s) (m s) (λ r. ap (λ c. c.0))
        (keeps s)

  log_conflicted-Keeps :
      (files : List String) → Keeps {World = World} core (log_conflicted outside config files)
  log_conflicted-Keeps [] s = refl
  log_conflicted-Keeps (file ∷ files) s = refl

  run_integrator-Keeps :
      (worktree : WorktreeHandle) (overlaps : OverlapReport) (remaining : List String)
      (feedback : Option String)
      → Keeps cycles (run_integrator outside config worktree overlaps remaining feedback)
  unfolding run_integrator
  run_integrator-Keeps worktree overlaps remaining feedback s =
      >>=-Keeps cycles (launch outside.ask_integration _) _
        (cycles-Keeps _ (launch-Keeps outside.ask_integration _))
        (λ answer.
          >>=-Keeps cycles (log_if_invalid _ answer) _
            (cycles-Keeps _ (log_if_invalid-Keeps _ answer))
            (λ _.
              >>=-Keeps cycles (call (outside.unresolved_conflicts worktree)) _
                (call-Keeps cycles _ (λ _ _. refl))
                (λ conflicted.
                  >>=-Keeps cycles (log_conflicted outside config conflicted) _
                    (cycles-Keeps _ (log_conflicted-Keeps conflicted))
                    (λ _.
                      >>=-Keeps cycles (measure_files outside _ worktree _) _
                        (cycles-Keeps _ (measure_files-Keeps outside _ worktree _))
                        (λ files s'. refl)))))
        s

  if-Keeps :
      {A : Type 0} (b : Bool) (m n : Run World A)
      → Keeps cycles m
      → Keeps cycles n
      → Keeps cycles (if b then m else n)
  if-Keeps true m n p q = p
  if-Keeps false m n p q = q

  merge_role-Keeps :
      (into : WorktreeHandle) (role : AgentRole) (worktree : WorktreeHandle)
      (remaining : List String) (later : Run World (Bool × List String))
      → Keeps cycles later
      → Keeps cycles (merge_role outside config into role worktree remaining later)
  merge_role-Keeps into role worktree remaining later keeps s =
      >>=-Keeps cycles (call (outside.merge_branch into worktree.branch)) _
        (call-Keeps cycles _ (λ _ _. refl))
        (λ merged.
          if-Keeps merged.clean _ _
            (>>=-Keeps cycles (call (outside.commit_merge into _)) _
              (call-Keeps cycles _ (λ _ _. refl)) (λ _ s'. keeps _))
            (λ s'. refl))
        s

  merge_known-Keeps :
      (into : WorktreeHandle) (role : AgentRole) (known : Option WorktreeHandle)
      (remaining : List String) (later : Run World (Bool × List String))
      → Keeps cycles later
      → Keeps cycles (elim known [
        | none ↦ later
        | some worktree ↦ merge_role outside config into role worktree remaining later
      ])
  merge_known-Keeps into role none remaining later keeps = keeps
  merge_known-Keeps into role (some worktree) remaining later keeps =
      merge_role-Keeps into role worktree remaining later keeps

  perform_mechanical_merges-Keeps :
      (into : WorktreeHandle) (roles : List AgentRole)
      → Keeps cycles (perform_mechanical_merges outside config into roles)
  unfolding perform_mechanical_merges
  perform_mechanical_merges-Keeps into [] s = refl
  perform_mechanical_merges-Keeps into (role ∷ roles) s =
      merge_known-Keeps into role _ _ _ (perform_mechanical_merges-Keeps into roles) s

  accept_merges-Keeps :
      (worktree : WorktreeHandle) (roles : List AgentRole)
      → Keeps cycles (accept_merges outside config worktree roles)
  accept_merges-Keeps worktree roles s =
      >>=-Keeps cycles (call (outside.diff_name_status worktree _)) _
        (call-Keeps cycles _ (λ _ _. refl)) (λ diff s'. refl) s

  first_integration-Keeps :
      (roles : List AgentRole) (overlaps : OverlapReport) (feedback : Option String)
      → Keeps cycles (first_integration outside config roles overlaps feedback)
  first_integration-Keeps roles overlaps feedback s =
      >>=-Keeps cycles (call (outside.create_integration_worktree config.task_id _)) _
        (call-Keeps cycles _ (λ _ _. refl))
        (λ worktree s1.
          >>=-Keeps cycles (perform_mechanical_merges outside config worktree roles) _
            (perform_mechanical_merges-Keeps worktree roles)
            (λ merges.
              if-Keeps (overlaps.has_blocking_issues || not merges.0) _ _
                (run_integrator-Keeps worktree overlaps _ feedback)
                (accept_merges-Keeps worktree roles))
            _)
        s

  integrate_known-Keeps :
      (known : Option WorktreeHandle) (roles : List AgentRole) (overlaps : OverlapReport)
      (feedback : Option String)
      → Keeps cycles (elim known [
        | none ↦ first_integration outside config roles overlaps feedback
        | some worktree ↦ run_integrator outside config worktree overlaps [] feedback
      ])
  integrate_known-Keeps none roles overlaps feedback =
      first_integration-Keeps roles overlaps feedback
  integrate_known-Keeps (some worktree) roles overlaps feedback =
      run_integrator-Keeps worktree overlaps [] feedback

  pub run_integration_step-Keeps :
      (roles : List AgentRole) (overlaps : OverlapReport) (feedback : Option String)
      → Keeps cycles (run_integration_step outside config roles overlaps feedback)
  unfolding run_integration_step
  run_integration_step-Keeps roles overlaps feedback s =
      integrate_known-Keeps s.integration_worktree roles overlaps feedback _

  known_change_set-Keeps :
      (role : AgentRole) (base : String) (known : Option WorktreeHandle)
      → Keeps {World = World} core (known_change_set outside config role base known)
  known_change_set-Keeps role base none s = tt
  known_change_set-Keeps role base (some worktree) s =
      >>=-Keeps core (call (outside.diff_name_status worktree base)) _
        (call-Keeps core _ (λ _ _. refl)) (λ diff s'. refl) s

  change_set_of-Keeps : (role : AgentRole) → Keeps core (change_set_of outside config role)
  unfolding change_set_of
  change_set_of-Keeps role s = known_change_set-Keeps role _ _ s

  pub analyze_branches-Keeps :
      (plan : SupervisorPlan) (roles : List AgentRole)
      → Keeps core (analyze_branches outside config plan roles)
  unfolding analyze_branches
  analyze_branches-Keeps plan roles s =
      >>=-Keeps core (map_run (change_set_of outside config) roles) _
        (map_run-Keeps core _ roles change_set_of-Keeps) (λ change_sets s'. refl) _
