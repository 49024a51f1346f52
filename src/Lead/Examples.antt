-- ===== src/Lead/Examples.antt =====
-- Passes of the lead at concrete inputs.
use muslimrentals.Prelude.{◌≡◌, refl, none, some, [], ◌∷◌, All}
use muslimrentals.Prelude.Table.{find_row, upsert}
use muslimrentals.Errors.{returned}
use muslimrentals.Backlog.{
  BacklogItem, documentation, deferred, is_well_scaled, parse_item, status_rank, category_rank,
}
use muslimrentals.Backlog.Store.{
  CreateBacklogItemInput, new_item, create_backlog_item, save_item, persist, get_backlog_item,
  updated_item, merge_patch, update_backlog_item,
}
use muslimrentals.Backlog.Sync.{IsSynced, Reachable, empty, after, create, Reachable-IsSynced}
use muslimrentals.Approvals.{founder_decision_required}
use muslimrentals.Prelude.Regex.{
  codes, lower_code, is_word_code, is_space_code, over_many, over_up_to, ends, matches_from, test,
  literal_codes, literal, sequence, choice, optional, words_of, spaces, maybe_spaces, gap,
}
use muslimrentals.Gate.{
  categories, evaluate_founder_gate, production_deployment, irreversible_production_changes,
  deleting_production_data, permanent_account_bans, publishing_legal_policies, spending_money,
  major_auth_security_changes, major_architecture_rewrites,
}
use muslimrentals.Risk.{
  classify_risk, autonomy_high_risk_patterns, low_eligible_categories, always_high_categories,
  high_reasons, pattern_reasons, ordinary_risk, risk_text,
}
use muslimrentals.Lead.{
  Pass, LeadPlan, LeadStore, LeadEscalation, given, apply_candidates, apply_updates,
  apply_escalation, apply_escalations, escalated_item,
}
use muslimrentals.Lead.Select.{
  Selected, selectable_statuses, selected_item, is_waiting, selected_patch, start_item,
  resolve_selection, before_selection, select_after, apply_lead_plan,
}
use muslimrentals.Lead.Started.{IsOutcome, resolve_selection-IsOutcome}
use muslimrentals.Lead.Starts.{IsStart, apply_lead_plan-IsStart}
use muslimrentals.Lead.Escalations.{apply_escalations-keeps}

abbrev input : CreateBacklogItemInput
input = record {
  title = "Document the search";
  description = "Readme";
  source = "lead";
  category = documentation;
  risk = none;
  user_impact = 2;
  severity = 1;
  confidence = 90;
  effort = 1;
  strategic_relevance = 1;
  evidence = none;
  rationale = "";
  dependencies = none;
  related_signals = none;
  requires_founder_decision = none;
  requires_legal_review = none;
  status = none;
}

abbrev readme : BacklogItem
readme = new_item "b1" 10 input

abbrev store : LeadStore
store = record { backlog = readme ∷ []; approvals = [] }

store-Reachable : Reachable store.backlog
unfolding create_backlog_item save_item parse_item is_well_scaled new_item persist upsert
store-Reachable = after {table = []} (empty refl) (create "b1" 10 input readme refl)

abbrev store-IsSynced : All IsSynced store.backlog
store-IsSynced = Reachable-IsSynced store.backlog store-Reachable

abbrev pass : Pass
pass = record {
  cycle_id = "c1";
  claude_md = "";
  now = 50;
  item_id = λ n. "new";
  approval_id = λ n. "approval";
  index_of = λ text. none;
}

abbrev plan : LeadPlan
plan = record {
  new_backlog_items = [];
  updated_backlog_items = [];
  selected_item_id = some "b1";
  selection_rationale = "small and safe";
  escalations = [];
}

picked : selected_item pass [] (some "b1") store.backlog ≡ some readme
unfolding selected_item given get_backlog_item find_row new_item
picked = refl

resolve_selection-IsOutcome_example :
    (result : Selected) × (resolve_selection pass 0 plan [] store ≡ returned result)
    × IsOutcome pass 0 plan readme store result
resolve_selection-IsOutcome_example =
    resolve_selection-IsOutcome pass 0 plan readme store [] picked store-IsSynced

abbrev asleep_item : BacklogItem
asleep_item = new_item "b1" 10 (record input { status = some deferred })

abbrev asleep : LeadStore
asleep = record { backlog = asleep_item ∷ []; approvals = [] }

abbrev escalation : LeadEscalation
escalation = record {
  type = founder_decision_required;
  backlog_item_id = some "b1";
  title = "Decide again";
  description = "";
  options = [];
  recommendation = none;
  tradeoffs = none;
}

asleep_stored : get_backlog_item asleep_item.id asleep.backlog ≡ some asleep_item
unfolding get_backlog_item find_row new_item
asleep_stored = refl

asleep_status : asleep_item.status ≡ deferred
unfolding new_item
asleep_status = refl

suppressed : apply_escalations pass 0 (escalation ∷ []) asleep ≡ returned ([], asleep)
unfolding apply_escalations apply_escalation escalated_item given get_backlog_item find_row new_item
    status_rank
suppressed = refl

apply_escalations-keeps_example : get_backlog_item asleep_item.id asleep.backlog ≡ some asleep_item
apply_escalations-keeps_example =
    apply_escalations-keeps pass 0 (escalation ∷ []) asleep asleep [] asleep_item asleep_stored
      asleep_status suppressed

abbrev started_item : BacklogItem
started_item = updated_item 50 readme (selected_patch plan (classify_risk "" readme))

abbrev outcome : Selected
outcome = record {
  started = some (started_item, classify_risk "" readme);
  requests = [];
  store = record { backlog = started_item ∷ []; approvals = [] };
}

starting : apply_lead_plan pass plan store ≡ returned outcome
unfolding apply_lead_plan before_selection select_after apply_candidates apply_updates
    apply_escalations resolve_selection selected_item given start_item update_backlog_item save_item
    parse_item is_well_scaled updated_item merge_patch selected_patch persist upsert
    get_backlog_item find_row is_waiting selectable_statuses status_rank classify_risk
    evaluate_founder_gate categories production_deployment irreversible_production_changes
    deleting_production_data permanent_account_bans publishing_legal_policies spending_money
    major_auth_security_changes major_architecture_rewrites high_reasons pattern_reasons
    autonomy_high_risk_patterns ordinary_risk risk_text new_item category_rank
    low_eligible_categories always_high_categories test matches_from codes lower_code is_word_code
    is_space_code over_many over_up_to ends literal_codes literal sequence choice optional words_of
    spaces maybe_spaces gap
starting = refl

apply_lead_plan-IsStart_example :
    IsStart pass plan store started_item (classify_risk "" readme) outcome.store
apply_lead_plan-IsStart_example =
    apply_lead_plan-IsStart pass plan store started_item (classify_risk "" readme) outcome
      store-IsSynced starting refl
