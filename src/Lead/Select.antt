-- ===== src/Lead/Select.antt =====
-- The selection that the lead's plan makes, and the whole of a pass (`runLeadPlanning` of
-- orchestrator/src/autonomy/lead.ts).
use muslimrentals.Prelude.{
  ℕ, String, Bool, true, false, not, ◌||◌, Option, none, some, List, [], ◌∷◌, ◌++◌, any, includes,
  get_elem?, length, template, starts_with, drop_prefix, join, if◌then◌else◌, ◌==◌,
}
use muslimrentals.Errors.{Result, returned, ◌>>=◌}
use muslimrentals.Backlog.{
  legal_flag, category_equality, BacklogStatus, candidate, triaged, ready, selected, blocked,
  approval_required, done, status_equality, BacklogItem, RiskLevel, low, medium, high,
}
use muslimrentals.Backlog.Store.{
  BacklogTable, get_backlog_item, UpdateBacklogItemInput, no_change, update_backlog_item,
}
use muslimrentals.Approvals.{
  EscalationType, legal_review_required, founder_decision_required, CreateApprovalInput,
  create_approval_request,
}
use muslimrentals.Risk.{RiskClassification, classify_risk}
use muslimrentals.Lead.{
  LeadPlan, Pass, LeadStore, given, apply_candidates, apply_updates, apply_escalations,
}

unfoldable pub selectable_statuses : List BacklogStatus
selectable_statuses = candidate ∷ triaged ∷ ready ∷ []

unfoldable pub escalation_type_for_blocked_selection : BacklogItem → EscalationType
escalation_type_for_blocked_selection item =
    if item.requires_legal_review || item.category == legal_flag
    then legal_review_required
    else founder_decision_required

-- `resolveSelectedId`, by the identifiers of the new candidates; the item of the identifier.
unfoldable pub selected_item :
    Pass → List String → Option String → BacklogTable → Option BacklogItem
selected_item pass new_ids raw table = elim (given raw) [
  | none ↦ none
  | some text ↦
      if starts_with text "new:"
      then elim (pass.index_of (drop_prefix 4 text)) [
        | none ↦ none
        | some index ↦ elim (given (get_elem? new_ids index)) [
          | none ↦ none
          | some id ↦ get_backlog_item id table
        ]
      ]
      else get_backlog_item text table
]

abbrev pub is_done : BacklogTable → String → Bool
is_done table id = elim (get_backlog_item id table) [
  | none ↦ false
  | some item ↦ item.status == done
]

unfoldable pub is_waiting : BacklogItem → BacklogTable → Bool
is_waiting item table = any (λ id. not (is_done table id)) item.dependencies

unfoldable pub blocked_patch : UpdateBacklogItemInput
blocked_patch = record no_change {
  status = some blocked;
  change_reason =
      some "Selected by Lead, but has unresolved dependencies — blocked until they are DONE.";
}

unfoldable pub approval_patch : RiskClassification → UpdateBacklogItemInput
approval_patch risk = record no_change {
  status = some approval_required;
  risk = some high;
  change_reason = some (
      template
        ("Selected by Lead, blocked pending founder approval: " ∷ join " " risk.reasons ∷ []));
}

unfoldable pub selected_patch : LeadPlan → RiskClassification → UpdateBacklogItemInput
selected_patch plan risk = record no_change {
  status = some selected;
  risk = some risk.risk;
  change_reason = some (template ("Selected by Lead this cycle: " ∷ plan.selection_rationale ∷ []));
}

unfoldable pub blocked_input :
    Pass → LeadPlan → BacklogItem → RiskClassification → CreateApprovalInput
blocked_input pass plan item risk = record {
  type = escalation_type_for_blocked_selection item;
  title = template ("Founder approval required to start: " ∷ item.title ∷ []);
  description = template (
      "The Lead selected this item this cycle (rationale: "
      ∷ plan.selection_rationale
      ∷ "), but deterministic risk classification marked it HIGH: "
      ∷ join " " risk.reasons
      ∷ []);
  backlog_item_id = some item.id;
  cycle_id = some pass.cycle_id;
  task_id = none;
  options = none;
  recommendation = some plan.selection_rationale;
  tradeoffs = none;
}

-- What a selection comes to: the item that is started and its risk, where one is, the identifiers
-- of the requests, and the store.
pub record Selected : Type 0 where
  pub started : Option (BacklogItem × RiskClassification)
  pub requests : List String
  pub store : LeadStore

abbrev pub nothing_started : LeadStore → Selected
nothing_started store = record { started = none; requests = []; store = store }

abbrev pub is_high : RiskLevel → Bool
is_high low = false
is_high medium = false
is_high high = true

-- An item of high risk is not started: a request is made, and the item waits for it.
unfoldable pub hold_for_approval :
    Pass → ℕ → LeadPlan → BacklogItem → RiskClassification → LeadStore → Result Selected
hold_for_approval pass index plan item risk store =
    let (request, approvals) =
      create_approval_request (pass.approval_id index) pass.now (blocked_input pass plan item risk)
        store.approvals in
    update_backlog_item pass.now item.id (approval_patch risk) store.backlog >>= λ written.
    returned (record {
      started = none;
      requests = request.id ∷ [];
      store = record { backlog = written.1; approvals = approvals };
    })

unfoldable pub start_item :
    Pass → LeadPlan → BacklogItem → RiskClassification → LeadStore → Result Selected
start_item pass plan item risk store =
    update_backlog_item pass.now item.id (selected_patch plan risk) store.backlog >>= λ written.
    returned (record {
      started = some (written.0, risk);
      requests = [];
      store = record store { backlog = written.1 };
    })

unfoldable pub block_item : Pass → BacklogItem → LeadStore → Result Selected
block_item pass item store =
    update_backlog_item pass.now item.id blocked_patch store.backlog >>= λ written.
    returned (nothing_started (record store { backlog = written.1 }))

unfoldable pub resolve_selection : Pass → ℕ → LeadPlan → List String → LeadStore → Result Selected
resolve_selection pass index plan new_ids store =
    elim (selected_item pass new_ids plan.selected_item_id store.backlog) [
      | none ↦ returned (nothing_started store)
      | some item ↦
          let risk = classify_risk pass.claude_md item in
          if not (includes item.status selectable_statuses)
          then returned (nothing_started store)
          else if is_waiting item store.backlog
          then block_item pass item store
          else if is_high risk.risk
          then hold_for_approval pass index plan item risk store
          else start_item pass plan item risk store
    ]

-- The steps before the selection: the identifiers of the new items, those of the requests, and the
-- store.
unfoldable pub before_selection :
    Pass → LeadPlan → LeadStore → Result (List String × List String × LeadStore)
before_selection pass plan store =
    apply_candidates pass 0 plan.new_backlog_items store.backlog >>= λ created.
    apply_updates pass plan.updated_backlog_items created.1 >>= λ backlog.
    apply_escalations pass 0 plan.escalations (record store { backlog = backlog }) >>= λ escalated.
    returned (created.0, escalated.0, escalated.1)

unfoldable pub select_after :
    Pass → LeadPlan → List String × List String × LeadStore → Result Selected
select_after pass plan prepared =
    resolve_selection pass (length plan.escalations) plan prepared.0 prepared.2 >>= λ final.
    returned (record final { requests = prepared.1 ++ final.requests })

-- The whole of a pass.
unfoldable pub apply_lead_plan : Pass → LeadPlan → LeadStore → Result Selected
apply_lead_plan pass plan store = before_selection pass plan store >>= select_after pass plan
