-- ===== src/Lead.antt =====
-- How the lead's plan is applied to the backlog and the approval requests (`runLeadPlanning` of
-- orchestrator/src/autonomy/lead.ts, after the call of the model). The plan is what the model
-- answered and the schema let through; that the log is written to is left out. One time stands for
-- all readings of the clock in a pass, and new identifiers come from two supplies.
pub mod Select
pub mod Selection
pub mod Started
pub mod Escalations
pub mod Passes
pub mod Starts
mod Examples
use muslimrentals.Prelude.{
  ℕ, suc, String, Bool, false, ◌||◌, Option, none, some, List, [], ◌∷◌, ◌++◌, unique, template,
  if◌then◌else◌, ◌==◌, string_equality,
}
use muslimrentals.Errors.{Result, returned, ◌>>=◌}
use muslimrentals.Backlog.{
  BacklogCategory, category_equality, BacklogStatus, candidate, approval_required, done, rejected,
  deferred, duplicate, status_equality, BacklogItem,
}
use muslimrentals.Backlog.Store.{
  BacklogTable, get_backlog_item, CreateBacklogItemInput, create_backlog_item,
  UpdateBacklogItemInput, no_change, update_backlog_item, merge_duplicate, non_empty_text,
}
use muslimrentals.Backlog.Similar.{find_similar_backlog_items}
use muslimrentals.Approvals.{
  EscalationType, ApprovalTable, ApprovalRequest, CreateApprovalInput, create_approval_request,
}

pub record NewBacklogCandidate : Type 0 where
  pub title : String
  pub description : String
  pub category : BacklogCategory
  pub evidence : List String
  pub rationale : String
  pub user_impact : ℕ
  pub severity : ℕ
  pub confidence : ℕ
  pub effort : ℕ
  pub strategic_relevance : ℕ
  pub requires_founder_decision : Bool
  pub requires_legal_review : Bool
  pub related_signal_ids : List String

pub record BacklogItemUpdate : Type 0 where
  pub id : String
  pub rationale : String
  pub status : Option BacklogStatus
  pub user_impact : Option ℕ
  pub severity : Option ℕ
  pub confidence : Option ℕ
  pub effort : Option ℕ
  pub strategic_relevance : Option ℕ
  pub dependencies : Option (List String)
  pub resolution : Option String
  pub merge_into_id : Option String

pub record LeadEscalation : Type 0 where
  pub type : EscalationType
  pub backlog_item_id : Option String
  pub title : String
  pub description : String
  pub options : List String
  pub recommendation : Option String
  pub tradeoffs : Option String

pub record LeadPlan : Type 0 where
  pub new_backlog_items : List NewBacklogCandidate
  pub updated_backlog_items : List BacklogItemUpdate
  pub selected_item_id : Option String
  pub selection_rationale : String
  pub escalations : List LeadEscalation

-- What a pass brings with it: its cycle, the contents of CLAUDE.md, the time, new identifiers by
-- number, and what `Number` and `Number.isInteger` make of a text.
pub record Pass : Type 0 where
  pub cycle_id : String
  pub claude_md : String
  pub now : ℕ
  pub item_id : ℕ → String
  pub approval_id : ℕ → String
  pub index_of : String → Option ℕ

pub record LeadStore : Type 0 where
  pub backlog : BacklogTable
  pub approvals : ApprovalTable

-- A text that is given and not empty.
unfoldable pub given : Option String → Option String
given none = none
given (some text) = if non_empty_text text then some text else none

unfoldable pub candidate_input : Pass → NewBacklogCandidate → CreateBacklogItemInput
candidate_input pass c = record {
  title = c.title;
  description = c.description;
  source = template ("lead:" ∷ pass.cycle_id ∷ []);
  category = c.category;
  risk = none;
  user_impact = c.user_impact;
  severity = c.severity;
  confidence = c.confidence;
  effort = c.effort;
  strategic_relevance = c.strategic_relevance;
  evidence = some c.evidence;
  rationale = c.rationale;
  dependencies = none;
  related_signals = some c.related_signal_ids;
  requires_founder_decision = some c.requires_founder_decision;
  requires_legal_review = some c.requires_legal_review;
  status = none;
}

unfoldable pub evidence_patch : BacklogItem → NewBacklogCandidate → UpdateBacklogItemInput
evidence_patch survivor c = record no_change {
  evidence = some (unique (survivor.evidence ++ c.evidence));
  change_reason = some (
      template (
        "Lead proposed a near-duplicate candidate (\"" ∷ c.title
        ∷ "\") this cycle — evidence merged into this existing item instead of creating a new one."
        ∷ []));
}

-- A candidate with the items similar to it: the first takes its evidence, or it is a new item.
unfoldable pub place_candidate :
    Pass
    → ℕ
    → NewBacklogCandidate
    → List BacklogItem
    → BacklogTable
    → Result (BacklogItem × BacklogTable)
place_candidate pass index c [] table =
    create_backlog_item (pass.item_id index) pass.now (candidate_input pass c) table
place_candidate pass index c (survivor ∷ others) table =
    update_backlog_item pass.now survivor.id (evidence_patch survivor c) table

unfoldable pub apply_candidate :
    Pass → ℕ → NewBacklogCandidate → BacklogTable → Result (BacklogItem × BacklogTable)
apply_candidate pass index c table =
    place_candidate pass index c (find_similar_backlog_items c.title c.category 60 table) table

-- The candidates from an index on, and the identifiers by index.
unfoldable pub apply_candidates :
    Pass → ℕ → List NewBacklogCandidate → BacklogTable → Result (List String × BacklogTable)
apply_candidates pass index [] table = returned ([], table)
apply_candidates pass index (c ∷ cs) table = apply_candidate pass index c table >>= λ first.
    apply_candidates pass (suc index) cs first.1 >>= λ rest. returned (first.0.id ∷ rest.0, rest.1)

unfoldable pub update_patch : BacklogItemUpdate → UpdateBacklogItemInput
update_patch update = record no_change {
  status = update.status;
  user_impact = update.user_impact;
  severity = update.severity;
  confidence = update.confidence;
  effort = update.effort;
  strategic_relevance = update.strategic_relevance;
  dependencies = update.dependencies;
  resolution = update.resolution;
  change_reason = some update.rationale;
}

abbrev pub table_of : BacklogItem × BacklogTable → Result BacklogTable
table_of written = returned written.1

unfoldable pub apply_update : Pass → BacklogItemUpdate → BacklogTable → Result BacklogTable
apply_update pass update table = elim (get_backlog_item update.id table) [
  | none ↦ returned table
  | some existing ↦ elim (given update.merge_into_id) [
    | none ↦ update_backlog_item pass.now update.id (update_patch update) table >>= table_of
    | some into ↦ elim (get_backlog_item into table) [
      | none ↦ returned table
      | some survivor ↦ merge_duplicate pass.now update.id into update.rationale table >>= table_of
    ]
  ]
]

unfoldable pub apply_updates : Pass → List BacklogItemUpdate → BacklogTable → Result BacklogTable
apply_updates pass [] table = returned table
apply_updates pass (update ∷ updates) table =
    apply_update pass update table >>= λ next. apply_updates pass updates next

-- The item that an escalation is about, where its identifier is that of one.
unfoldable pub escalated_item : LeadEscalation → BacklogTable → Option BacklogItem
escalated_item escalation table = elim (given escalation.backlog_item_id) [
  | none ↦ none
  | some id ↦ get_backlog_item id table
]

abbrev escalated_id : LeadEscalation → BacklogTable → Option String
escalated_id escalation table = elim (escalated_item escalation table) [
  | none ↦ none
  | some item ↦ given escalation.backlog_item_id
]

unfoldable pub escalation_input : Pass → LeadEscalation → BacklogTable → CreateApprovalInput
escalation_input pass escalation table = record {
  type = escalation.type;
  title = escalation.title;
  description = escalation.description;
  backlog_item_id = escalated_id escalation table;
  cycle_id = some pass.cycle_id;
  task_id = none;
  options = some escalation.options;
  recommendation = escalation.recommendation;
  tradeoffs = escalation.tradeoffs;
}

abbrev pub is_closed : BacklogStatus → Bool
is_closed s = s == done || (s == rejected || s == duplicate)

unfoldable pub escalation_patch : LeadEscalation → UpdateBacklogItemInput
escalation_patch escalation = record no_change {
  status = some approval_required;
  change_reason = some (template ("Lead escalation: " ∷ escalation.title ∷ []));
}

-- The item that is escalated waits for the approval, unless it is closed.
unfoldable pub mark_escalated : Pass → LeadEscalation → BacklogTable → Result BacklogTable
mark_escalated pass escalation table = elim (escalated_item escalation table) [
  | none ↦ returned table
  | some item ↦
      if is_closed item.status
      then returned table
      else update_backlog_item pass.now item.id (escalation_patch escalation) table >>= table_of
]

abbrev pub is_deferred : Option BacklogItem → Bool
is_deferred none = false
is_deferred (some item) = item.status == deferred

-- What an escalation adds: its request, and the marked backlog.
abbrev pub with_request :
    ApprovalRequest × ApprovalTable → BacklogTable → Result (List String × LeadStore)
with_request made backlog =
    returned (made.0.id ∷ [], record { backlog = backlog; approvals = made.1 })

-- One escalation: the identifiers of the requests, and the store.
unfoldable pub apply_escalation :
    Pass → ℕ → LeadEscalation → LeadStore → Result (List String × LeadStore)
apply_escalation pass index escalation store =
    if is_deferred (escalated_item escalation store.backlog)
    then returned ([], store)
    else mark_escalated pass escalation store.backlog
      >>= with_request (
          create_approval_request (pass.approval_id index) pass.now
            (escalation_input pass escalation store.backlog) store.approvals)

unfoldable pub apply_escalations :
    Pass → ℕ → List LeadEscalation → LeadStore → Result (List String × LeadStore)
apply_escalations pass index [] store = returned ([], store)
apply_escalations pass index (e ∷ es) store = apply_escalation pass index e store >>= λ first.
    apply_escalations pass (suc index) es first.1 >>= λ rest. returned (first.0 ++ rest.0, rest.1)
