-- ===== src/Runner/Reviews.antt =====
-- The reviews, the correction loops and the report of `Runner`
-- (orchestrator/src/supervisor/orchestrator.ts).
use muslimrentals.Prelude.{
  ℕ, suc, String, Bool, true, false, not, ◌||◌, Option, none, some, List, [], ◌∷◌, ◌++◌, map, ◌==◌,
  string_equality, if◌then◌else◌, template, join, unique, flatten, leb,
}
use muslimrentals.Roles.{AgentRole, qa, role_equality}
use muslimrentals.Agents.{get_profile}
use muslimrentals.Planner.{Mode, dry_run, full, SupervisorPlan}
use muslimrentals.Runner.{
  TaskState, correction_required, ready_for_founder, dry_run_complete, founder_approval_required,
  complete, Severity, info, low, medium, high, critical, Finding, ReviewVerdict, changes_required,
  ReviewResult, IntegrationResult, WorktreeHandle, retry_limit_exhausted, correction_cycle_started,
  founder_approval_asked, Config, Session, Run, pure, reads, ◌>>=◌, ◌>>◌, modify, log_event,
  set_state, write_artifact,
}

abbrev severity_text : Severity → String
severity_text info = "info"
severity_text low = "low"
severity_text medium = "medium"
severity_text high = "high"
severity_text critical = "critical"

abbrev fix_text : Option String → String
fix_text none = ""
fix_text (some action) = if action == "" then "" else template (" — fix: " ∷ action ∷ [])

unfoldable pub finding_line : Finding → String
finding_line f =
    template
      ("- [" ∷ severity_text f.severity ∷ "] " ∷ f.finding ∷ fix_text f.recommended_action ∷ [])

abbrev pub needs_changes : ReviewVerdict → Bool
needs_changes changes_required = true
needs_changes verdict = false

-- `result?.verdict === 'CHANGES_REQUIRED'`.
abbrev pub rejects : Option ReviewResult → Bool
rejects none = false
rejects (some result) = needs_changes result.verdict

abbrev findings_part : String → Option ReviewResult → List String
findings_part title none = []
findings_part title (some result) =
    if needs_changes result.verdict
    then template (title ∷ "\n\n" ∷ join "\n" (map finding_line result.findings) ∷ []) ∷ []
    else []

unfoldable pub render_correction_feedback : Option ReviewResult → Option ReviewResult → String
render_correction_feedback qa_result security_result = join "\n\n" (
    findings_part "### QA findings" qa_result
    ++ findings_part "### Security findings" security_result)

-- Why the founder is asked: the plan's reasons, and what stopped the correction loop.
pub data Reason : Type 0 where
  of_plan : String → Reason
  integration_retries_exhausted : ℕ → List String → Reason
  review_retries_exhausted : ℕ → Reason

pub data NextStep : Type 0 where
  review_analysis re_run_in_full founder_review : NextStep
  review_integrated : WorktreeHandle → NextStep
  implementer_branch : AgentRole → WorktreeHandle → NextStep

-- What `summarize` says, with the agents that were involved.
pub data Summary : Type 0 where
  dry_run_summary stopped_summary : List AgentRole → Summary
  complete_summary : List AgentRole → ℕ → Summary
  ended_summary : TaskState → List AgentRole → Summary

pub record FinalTaskReport : Type 0 where
  pub task_id : String
  pub objective : String
  pub final_state : TaskState
  pub agents_involved : List AgentRole
  pub approval_required : Bool
  pub reasons : List Reason
  pub qa_verdict : Option ReviewVerdict
  pub security_verdict : Option ReviewVerdict
  pub correction_cycles : ℕ
  pub summary : Summary
  pub files_changed : List String
  pub next_steps : List NextStep

abbrev pub verdict_of : Option ReviewResult → Option ReviewVerdict
verdict_of none = none
verdict_of (some result) = some result.verdict

abbrev integrated_files : Option IntegrationResult → List String
integrated_files none = []
integrated_files (some result) = result.files_changed

abbrev dry_run_steps : Mode → List NextStep
dry_run_steps dry_run = review_analysis ∷ re_run_in_full ∷ []
dry_run_steps full = []

abbrev pub is_founder_required : TaskState → Bool
is_founder_required founder_approval_required = true
is_founder_required state = false

abbrev summarize : TaskState → List AgentRole → ℕ → Summary
summarize dry_run_complete agents cycles = dry_run_summary agents
summarize founder_approval_required agents cycles = stopped_summary agents
summarize complete agents cycles = complete_summary agents cycles
summarize state agents cycles = ended_summary state agents

abbrev integrated_steps : Option WorktreeHandle → List NextStep
integrated_steps none = []
integrated_steps (some worktree) = review_integrated worktree ∷ []

unfoldable pub final_report :
    {World : Type 0}
    → Config
    → SupervisorPlan
    → TaskState
    → List Reason
    → Session World
    → FinalTaskReport
final_report config plan state extra s = record {
  task_id = config.task_id;
  objective = config.objective;
  final_state = state;
  agents_involved = s.agents_involved;
  approval_required =
      plan.approval_requirements.founder_approval_required || is_founder_required state;
  reasons = map of_plan plan.approval_requirements.reasons ++ extra;
  qa_verdict = verdict_of s.final_qa_result;
  security_verdict = verdict_of s.final_security_result;
  correction_cycles = s.correction_cycles;
  summary = summarize state s.agents_involved s.correction_cycles;
  files_changed = unique (
      flatten (map (λ row. row.1) s.implementer_files_by_role)
      ++ integrated_files s.integration_result);
  next_steps =
      dry_run_steps config.mode
      ++ ((if is_founder_required state then founder_review ∷ [] else [])
          ++ (integrated_steps s.integration_worktree
              ++ map (λ row. implementer_branch row.0 row.1) s.worktrees));
}

abbrev pub Ended : Type 0
Ended = TaskState × FinalTaskReport

module _ {World : Type 0} (config : Config) where
  unfoldable pub build_final_report :
      SupervisorPlan → TaskState → List Reason → Run World FinalTaskReport
  build_final_report plan state extra = do
    report ← reads (final_report config plan state extra)
    write_artifact "final-report.summary.json"
    write_artifact "final-report.md"
    pure report

  abbrev pub end_with : SupervisorPlan → TaskState → List Reason → Run World Ended
  end_with plan state extra = do report ← build_final_report plan state extra; pure (state, report)

  unfoldable pub finish_successfully : SupervisorPlan → Run World Ended
  finish_successfully plan = do
    set_state ready_for_founder
    if plan.approval_requirements.founder_approval_required
        then (do
          log_event (founder_approval_asked plan.approval_requirements.reasons)
          end_with plan founder_approval_required [])
        else (do set_state complete; end_with plan complete [])

  -- A round that failed: the founder is asked where the retries are used up, and else `again` is
  -- the next round.
  unfoldable pub retry_or_escalate : SupervisorPlan → Reason → Run World Ended → Run World Ended
  retry_or_escalate plan reason again = do
    cycles ← reads (λ s. s.correction_cycles)
    if leb config.max_retry_cycles cycles
        then (do
          log_event (retry_limit_exhausted cycles config.max_retry_cycles)
          end_with plan founder_approval_required (reason ∷ []))
        else (do modify (λ s. record s { correction_cycles = suc s.correction_cycles }); again)

  -- What follows a review, where `again feedback` corrects and goes on.
  unfoldable pub after_review : SupervisorPlan → Bool → (String → Run World Ended) → Run World Ended
  after_review plan needs_correction again =
      if not needs_correction then finish_successfully plan else (do
        set_state correction_required
        retry_or_escalate plan (review_retries_exhausted config.max_retry_cycles) (do
          cycles ← reads (λ s. s.correction_cycles)
          log_event (correction_cycle_started cycles)
          feedback ←
              reads (λ s. render_correction_feedback s.final_qa_result s.final_security_result)
          again feedback))

-- `reviewerRoles.forEach(...)`: each result stands in the field of its role.
unfoldable pub store_results :
    {World : Type 0} → List AgentRole → List ReviewResult → Session World → Session World
store_results (role ∷ roles) (result ∷ results) s = store_results roles results (
    if role == qa
    then record s { final_qa_result = some result }
    else record s { final_security_result = some result })
store_results roles results s = s

abbrev pub write_review : {World : Type 0} → AgentRole → Option ReviewResult → Run World (Unit {0})
write_review role none = pure tt
write_review role (some result) = write_artifact (get_profile role).artifact_filename
