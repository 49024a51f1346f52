-- ===== src/Approvals/Pending.antt =====
-- How many pending requests orchestrator/src/autonomy/approvalStore.ts keeps for a backlog item.
use text.Mathlib.TextEquality.{eq_iff}
use muslimrentals.Prelude.{
  ℕ, ◌+◌, ◌≤◌, String, ◌≡◌, refl, sym, ◌∙◌, ap, subst, Bool, true, false, ◌&&◌, Option, none, some,
  [], arith, filter, filter-All, if◌then◌else◌, ◌==◌, string_equality, Option-cases, inl, inr,
}
use muslimrentals.Prelude.Table.{find_row, tally-insert, tally-replace, find_row-key}
use muslimrentals.Prelude.Sort.{
  tally, tally-filter, sort_by-tally, sort_by-All, find-none, find-some, find-All,
}
use muslimrentals.Errors.{returned}
use muslimrentals.Approvals.{
  ApprovalRequest, ApprovalTable, approval_status_equality, approval_rank, pending, request_key,
  persist_request, get_approval_request, is_newer, has_status, list_approval_requests, is_about,
  find_pending_approval_for_backlog_item, CreateApprovalInput, new_request, existing_request,
  create_approval_request, Decision, decision_status, decided_request, decide_approval_request,
}

-- Whether a request is pending and about a backlog item.
abbrev pub is_pending_for : String → ApprovalRequest → Bool
is_pending_for item request = request.status == pending && is_about item request

-- How many requests of the table are.
abbrev pub pending_for : String → ApprovalTable → ℕ
pending_for item table = tally (is_pending_for item) table

-- The search finds a request when there is one.
pub find_pending-none :
    (item : String) (table : ApprovalTable)
    → find_pending_approval_for_backlog_item item table ≡ none
    → pending_for item table ≡ 0
unfolding find_pending_approval_for_backlog_item list_approval_requests
find_pending-none item table h =
    sym (tally-filter (is_about item) (has_status (some pending)) table)
    ∙ (sym (sort_by-tally is_newer (is_about item) (filter (has_status (some pending)) table))
        ∙ find-none (is_about item) _ h)

pub find_pending-some :
    (item : String) (table : ApprovalTable) (request : ApprovalRequest)
    → find_pending_approval_for_backlog_item item table ≡ some request
    → is_pending_for item request ≡ true
unfolding find_pending_approval_for_backlog_item list_approval_requests
find_pending-some item table request h =
    let waiting =
      find-All (λ r. has_status (some pending) r ≡ true) (is_about item)
        (list_approval_requests (some pending) table) request h
        (sort_by-All is_newer _ _ (filter-All _ (has_status (some pending)) table (λ r e. e))) in
    ground (
      arith,
      waiting,
      find-some (is_about item) (list_approval_requests (some pending) table) request h,
    )

-- At most one request for each backlog item is pending.
pub AtMostOnePending : ApprovalTable → Type 0
AtMostOnePending table = (item : String) → (item == "") ≡ false → pending_for item table ≤ 1

pub new_request-pending :
    (id : String) (now : ℕ) (input : CreateApprovalInput) (item : String)
    → input.backlog_item_id ≡ some item
    → (j : String) → is_pending_for j (new_request id now input) ≡ (item == j)
unfolding new_request approval_rank
new_request-pending id now input item h j = rw h refl

new_request-unpending :
    (id : String) (now : ℕ) (input : CreateApprovalInput)
    → input.backlog_item_id ≡ none
    → (j : String) → is_pending_for j (new_request id now input) ≡ false
unfolding new_request approval_rank
new_request-unpending id now input h j = rw h refl

-- What a request that is created adds to the count of an item.
pub create-counts :
    (id : String) (now : ℕ) (input : CreateApprovalInput) (table : ApprovalTable) (j : String)
    → get_approval_request id table ≡ none
    → pending_for j (persist_request (new_request id now input) table)
      ≡ pending_for j table + (if is_pending_for j (new_request id now input) then 1 else 0)
unfolding get_approval_request persist_request new_request
create-counts id now input table j fresh =
    tally-insert request_key (is_pending_for j) (new_request id now input) table fresh

-- Creating a request keeps the pending requests of each backlog item to one.
create_approval_request-AtMostOnePending :
    (id : String) (now : ℕ) (input : CreateApprovalInput) (table : ApprovalTable)
    → get_approval_request id table ≡ none
    → AtMostOnePending table
    → AtMostOnePending (create_approval_request id now input table).1
unfolding AtMostOnePending create_approval_request existing_request
create_approval_request-AtMostOnePending id now input table fresh h j named =
    elim (Option-cases input.backlog_item_id) [
      | inl anonymous ↦ ground (
        arith,
        h j named,
        create-counts id now input table j fresh,
        new_request-unpending id now input anonymous j,
      )
      | inr (item, about) ↦ ground (
        arith,
        h j named,
        create-counts id now input table j fresh,
        new_request-pending id now input item about j,
        eq_iff item j,
        eq_iff item "",
        find_pending-none item table,
      )
    ]

decided_request-pending :
    (now : ℕ) (decision : Decision) (reason : Option String) (existing : ApprovalRequest)
    (j : String)
    → is_pending_for j (decided_request now decision reason existing) ≡ false
unfolding decided_request decision_status approval_rank
decided_request-pending now decision reason existing j = ground arith

-- Deciding a request never makes more of them pending.
decide_approval_request-le :
    (now : ℕ) (id : String) (decision : Decision) (reason : Option String)
    (request : ApprovalRequest) (table table' : ApprovalTable) (j : String)
    → decide_approval_request now id decision reason table ≡ returned (request, table')
    → pending_for j table' ≤ pending_for j table
unfolding decide_approval_request get_approval_request persist_request decided_request
decide_approval_request-le now id decision reason request table table' j h =
    elim (Option-cases (find_row request_key id table)) [
      | inl missing ↦ absurd (ground arith)
      | inr (existing, found) ↦
          let decided = decided_request now decision reason existing in
          let same_key : decided.id ≡ id = find_row-key request_key id table existing found in
          ground (
            arith,
            tally-replace request_key (is_pending_for j) decided existing table
                (ap (λ k. find_row request_key k table) same_key ∙ found),
            decided_request-pending now decision reason existing j,
          )
    ]

decide-AtMostOnePending :
    (now : ℕ) (id : String) (decision : Decision) (reason : Option String)
    (request : ApprovalRequest) (table table' : ApprovalTable)
    → decide_approval_request now id decision reason table ≡ returned (request, table')
    → AtMostOnePending table
    → AtMostOnePending table'
unfolding AtMostOnePending
decide-AtMostOnePending now id decision reason request table table' e h j named =
    omega
      (arith, h j named, decide_approval_request-le now id decision reason request table table' j e)

-- The operations that change the table; a new request has an identifier that is not there yet.
pub data ApprovalStep (table table' : ApprovalTable) : Type 0 where
  create :
      (id : String) (now : ℕ) (input : CreateApprovalInput)
      → get_approval_request id table ≡ none
      → table' ≡ (create_approval_request id now input table).1
      → ApprovalStep table table'
  decide :
      (now : ℕ) (id : String) (decision : Decision) (reason : Option String)
      (request : ApprovalRequest)
      → decide_approval_request now id decision reason table ≡ returned (request, table')
      → ApprovalStep table table'

pub data Reachable : ApprovalTable → Type 0 where
  empty : {table : ApprovalTable} → table ≡ [] → Reachable table
  after :
      {table table' : ApprovalTable}
      → Reachable table
      → ApprovalStep table table'
      → Reachable table'

step-AtMostOnePending :
    (table table' : ApprovalTable)
    → ApprovalStep table table'
    → AtMostOnePending table
    → AtMostOnePending table'
step-AtMostOnePending table table' (create id now input fresh e) h =
    subst AtMostOnePending (sym e)
      (create_approval_request-AtMostOnePending id now input table fresh h)
step-AtMostOnePending table table' (decide now id decision reason request e) h =
    decide-AtMostOnePending now id decision reason request table table' e h

empty-AtMostOnePending : AtMostOnePending []
unfolding AtMostOnePending
empty-AtMostOnePending item named = omega arith

Reachable-AtMostOnePending : (table : ApprovalTable) → Reachable table → AtMostOnePending table
Reachable-AtMostOnePending table (empty e) = subst AtMostOnePending (sym e) (empty-AtMostOnePending)
Reachable-AtMostOnePending table (after {table = before} r step) =
    step-AtMostOnePending before table step (Reachable-AtMostOnePending before r)

-- However requests are created and decided, at most one request about a backlog item is pending, if
-- new requests have new identifiers.
pub Reachable-pending_for :
    (table : ApprovalTable) (item : String)
    → Reachable table
    → (item == "") ≡ false
    → pending_for item table ≤ 1
unfolding AtMostOnePending
Reachable-pending_for table item r named = Reachable-AtMostOnePending table r item named
