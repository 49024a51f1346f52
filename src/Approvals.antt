-- ===== src/Approvals.antt =====
-- Approval requests: their data (orchestrator/src/autonomy/types.ts) and their store
-- (orchestrator/src/autonomy/approvalStore.ts). A row's `data` column holds the whole request, and
-- the other columns repeat fields of it, so that a row is a request. The new identifier and the time
-- come in as arguments, the time as a number of milliseconds. A request that is built has the shape
-- that its schema asks for, and the parse never throws.
pub mod Pending
pub mod Decisions
mod Examples
use muslimrentals.Prelude.{
  ℕ, String, ◌≡◌, Bool, true, false, not, ◌&&◌, Option, none, some, List, [], ◌∷◌, arith, find,
  filter, leb, HasEquality, ranked_equality, or_default, if◌then◌else◌, ◌==◌, string_equality,
}
use muslimrentals.Prelude.Table.{find_row, upsert}
use muslimrentals.Prelude.Sort.{sort_by}
use muslimrentals.Errors.{StoreError, unknown_id, not_pending, Result, returned, thrown}

pub data EscalationType : Type 0 where
  founder_decision_required legal_review_required : EscalationType
  production_approval_required destructive_action_approval_required : EscalationType
  spending_approval_required security_architecture_approval_required : EscalationType
  ambiguous_high_impact_product_decision : EscalationType
  retry_limit_exhausted recovery_required : EscalationType

pub data ApprovalStatus : Type 0 where
  pending approved rejected superseded : ApprovalStatus

unfoldable pub approval_rank : ApprovalStatus → ℕ
approval_rank pending = 0
approval_rank approved = 1
approval_rank rejected = 2
approval_rank superseded = 3

pub approval_rank_injective : (a b : ApprovalStatus) → approval_rank a ≡ approval_rank b → a ≡ b
unfolding approval_rank
approval_rank_injective a b h = ground arith

instance abbrev pub approval_status_equality : HasEquality ApprovalStatus
approval_status_equality = ranked_equality approval_rank approval_rank_injective

pub record ApprovalRequest : Type 0 where
  pub id : String
  pub type : EscalationType
  pub backlog_item_id : Option String
  pub cycle_id : Option String
  pub task_id : Option String
  pub title : String
  pub description : String
  pub options : List String
  pub recommendation : Option String
  pub tradeoffs : Option String
  pub created_at : ℕ
  pub status : ApprovalStatus
  pub decided_at : Option ℕ
  pub decision_note : Option String

abbrev pub ApprovalTable : Type 0
ApprovalTable = List ApprovalRequest

abbrev pub request_key : ApprovalRequest → String
request_key request = request.id

-- `persist`.
unfoldable pub persist_request : ApprovalRequest → ApprovalTable → ApprovalTable
persist_request request table = upsert request_key request table

unfoldable pub get_approval_request : String → ApprovalTable → Option ApprovalRequest
get_approval_request id table = find_row request_key id table

-- `ORDER BY created_at DESC`.
abbrev pub is_newer : ApprovalRequest → ApprovalRequest → Bool
is_newer a b = leb b.created_at a.created_at

abbrev pub has_status : Option ApprovalStatus → ApprovalRequest → Bool
has_status none request = true
has_status (some status) request = request.status == status

unfoldable pub list_approval_requests : Option ApprovalStatus → ApprovalTable → List ApprovalRequest
list_approval_requests status table = sort_by is_newer (filter (has_status status) table)

abbrev pub is_about : String → ApprovalRequest → Bool
is_about backlog_item_id request = elim (request.backlog_item_id) [
  | none ↦ false
  | some id ↦ id == backlog_item_id
]

unfoldable pub find_pending_approval_for_backlog_item :
    String → ApprovalTable → Option ApprovalRequest
find_pending_approval_for_backlog_item backlog_item_id table =
    find (is_about backlog_item_id) (list_approval_requests (some pending) table)

pub record CreateApprovalInput : Type 0 where
  pub type : EscalationType
  pub title : String
  pub description : String
  pub backlog_item_id : Option String
  pub cycle_id : Option String
  pub task_id : Option String
  pub options : Option (List String)
  pub recommendation : Option String
  pub tradeoffs : Option String

unfoldable pub new_request : String → ℕ → CreateApprovalInput → ApprovalRequest
new_request id now input = record {
  id = id;
  type = input.type;
  backlog_item_id = input.backlog_item_id;
  cycle_id = input.cycle_id;
  task_id = input.task_id;
  title = input.title;
  description = input.description;
  options = or_default input.options [];
  recommendation = input.recommendation;
  tradeoffs = input.tradeoffs;
  created_at = now;
  status = pending;
  decided_at = none;
  decision_note = none;
}

-- The pending request that `createApprovalRequest` looks for; an empty identifier is false.
unfoldable pub existing_request : CreateApprovalInput → ApprovalTable → Option ApprovalRequest
existing_request input table = elim (input.backlog_item_id) [
  | none ↦ none
  | some item ↦ if item == "" then none else find_pending_approval_for_backlog_item item table
]

unfoldable pub create_approval_request :
    String → ℕ → CreateApprovalInput → ApprovalTable → ApprovalRequest × ApprovalTable
create_approval_request id now input table = elim (existing_request input table) [
  | some existing ↦ (existing, table)
  | none ↦ (new_request id now input, persist_request (new_request id now input) table)
]

-- The statuses that a request can be decided to.
pub data Decision : Type 0 where
  approve reject supersede : Decision

unfoldable pub decision_status : Decision → ApprovalStatus
decision_status approve = approved
decision_status reject = rejected
decision_status supersede = superseded

unfoldable pub decided_request : ℕ → Decision → Option String → ApprovalRequest → ApprovalRequest
decided_request now decision reason existing = record existing {
  status = decision_status decision;
  decided_at = some now;
  decision_note = reason;
}

unfoldable pub decide_approval_request :
    ℕ → String → Decision → Option String → ApprovalTable → Result (ApprovalRequest × ApprovalTable)
decide_approval_request now id decision reason table = elim (get_approval_request id table) [
  | none ↦ thrown (unknown_id id)
  | some existing ↦
      if not (existing.status == pending)
      then thrown (not_pending id)
      else returned (
        decided_request now decision reason existing,
        persist_request (decided_request now decision reason existing) table,
      )
]
