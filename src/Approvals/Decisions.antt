-- ===== src/Approvals/Decisions.antt =====
-- What a decision on a request, and a repeated request, do in
-- orchestrator/src/autonomy/approvalStore.ts.
use text.Mathlib.TextEquality.{eq_iff}
use muslimrentals.Prelude.{
  ℕ, String, ◌≡◌, refl, sym, ◌∙◌, ap, true, false, Option, none, some, arith, if◌then◌else◌, ◌==◌,
  string_equality, Option-cases, Bool-cases, inl, inr,
}
use muslimrentals.Prelude.Table.{find_row-upsert, find_row-key}
use muslimrentals.Errors.{returned, thrown, not_pending}
use muslimrentals.Approvals.{
  ApprovalRequest, ApprovalTable, approval_status_equality, approval_rank, pending, request_key,
  persist_request, get_approval_request, CreateApprovalInput, new_request,
  find_pending_approval_for_backlog_item, existing_request, create_approval_request, Decision,
  decision_status, decided_request, decide_approval_request,
}
use muslimrentals.Approvals.Pending.{
  is_pending_for, find_pending-none, find_pending-some, create-counts, new_request-pending,
  ApprovalStep, create, decide,
}

get_approval_request-persist :
    (j : String) (request : ApprovalRequest) (table : ApprovalTable)
    → get_approval_request j (persist_request request table)
      ≡ (if request.id == j then some request else get_approval_request j table)
unfolding get_approval_request persist_request
get_approval_request-persist j request table = find_row-upsert request_key j request table

new_request-id :
    (id : String) (now : ℕ) (input : CreateApprovalInput) → (new_request id now input).id ≡ id
unfolding new_request
new_request-id id now input = refl

-- What a decision that returns did.
record IsDecided (now : ℕ) (id : String) (decision : Decision) (reason : Option String)
    (request : ApprovalRequest) (table table' : ApprovalTable) : Type 0 where
  existing : ApprovalRequest
  found : get_approval_request id table ≡ some existing
  waiting : (existing.status == pending) ≡ true
  decided : request ≡ decided_request now decision reason existing
  same_id : request.id ≡ id
  written : table' ≡ persist_request request table

same_id :
    (now : ℕ) (id : String) (decision : Decision) (reason : Option String)
    (existing request : ApprovalRequest)
    → existing.id ≡ id
    → request ≡ decided_request now decision reason existing
    → request.id ≡ id
unfolding decided_request
same_id now id decision reason existing request h e = ap request_key e ∙ h

decide_approval_request-IsDecided :
    (now : ℕ) (id : String) (decision : Decision) (reason : Option String)
    (request : ApprovalRequest) (table table' : ApprovalTable)
    → decide_approval_request now id decision reason table ≡ returned (request, table')
    → IsDecided now id decision reason request table table'
unfolding decide_approval_request get_approval_request
decide_approval_request-IsDecided now id decision reason request table table' h =
    elim (Option-cases (get_approval_request id table)) [
      | inl missing ↦ absurd (ground arith)
      | inr (existing, found) ↦ elim (Bool-cases (existing.status == pending)) [
        | inl waiting ↦ record {
          existing = existing;
          found = found;
          waiting = waiting;
          decided = ground arith;
          same_id =
              same_id now id decision reason existing request
                (find_row-key request_key id table existing found) (ground arith);
          written = ground arith;
        }
        | inr closed ↦ absurd (ground arith)
      ]
    ]

decided-status :
    (now : ℕ) (decision : Decision) (reason : Option String) (existing : ApprovalRequest)
    → (decided_request now decision reason existing).status ≡ decision_status decision
unfolding decided_request
decided-status now decision reason existing = refl

decision_status-final : (decision : Decision) → (decision_status decision == pending) ≡ false
unfolding decision_status approval_rank
decision_status-final decision = ground arith

create-existing :
    (id : String) (now : ℕ) (input : CreateApprovalInput) (existing : ApprovalRequest)
    (table : ApprovalTable)
    → existing_request input table ≡ some existing
    → create_approval_request id now input table ≡ (existing, table)
unfolding create_approval_request
create-existing id now input existing table h = rw (create_approval_request, h) refl

create-new :
    (id : String) (now : ℕ) (input : CreateApprovalInput) (table : ApprovalTable)
    → existing_request input table ≡ none
    → create_approval_request id now input table
      ≡ (new_request id now input, persist_request (new_request id now input) table)
unfolding create_approval_request
create-new id now input table h = rw (create_approval_request, h) refl

existing_request-about :
    (input : CreateApprovalInput) (item : String) (table : ApprovalTable)
    → input.backlog_item_id ≡ some item
    → (item == "") ≡ false
    → existing_request input table ≡ find_pending_approval_for_backlog_item item table
unfolding existing_request
existing_request-about input item table h named = rw (existing_request, h, named) refl

-- A request is as it was after an operation that does not decide it.
step-keeps :
    (id : String) (request : ApprovalRequest) (table table' : ApprovalTable)
    → ApprovalStep table table'
    → get_approval_request id table ≡ some request
    → (request.status == pending) ≡ false
    → get_approval_request id table' ≡ some request
step-keeps id request table table' (create new now input fresh e) h final =
    elim (Option-cases (existing_request input table)) [
      | inl absent ↦
          rw (e, create-new new now input table absent)
            (ground (
              arith,
              get_approval_request-persist id (new_request new now input) table,
              new_request-id new now input,
              eq_iff new id,
            ))
      | inr (existing, found) ↦ rw (e, create-existing new now input existing table found) h
    ]
step-keeps id request table table' (decide now other decision reason decided e) h final =
    let step = decide_approval_request-IsDecided now other decision reason decided table table' e in
    rw (step.written) (
      ground (
        arith,
        step.found,
        step.waiting,
        step.same_id,
        get_approval_request-persist id decided table,
        eq_iff decided.id id,
      ))

-- Any number of operations.
pub data ApprovalSteps (later : ApprovalTable) : ApprovalTable → Type 0 where
  done : {table : ApprovalTable} → table ≡ later → ApprovalSteps later table
  next :
      {table between : ApprovalTable}
      → ApprovalStep table between
      → ApprovalSteps later between
      → ApprovalSteps later table

pub steps-keep :
    (id : String) (request : ApprovalRequest) (table' table : ApprovalTable)
    → ApprovalSteps table' table
    → get_approval_request id table ≡ some request
    → (request.status == pending) ≡ false
    → get_approval_request id table' ≡ some request
steps-keep id request table' table (done e) h final = rw (sym e) h
steps-keep id request table' table (next {between = between} step rest) h final =
    steps-keep id request table' between rest (step-keeps id request table between step h final)
      final

-- A decision on a request is final: however the table is changed after it, the request stays as
-- it was decided, with the status of the decision, and deciding it again throws.
pub decide_approval_request-final :
    (now : ℕ) (id : String) (decision : Decision) (reason : Option String)
    (request : ApprovalRequest) (table table' later : ApprovalTable)
    → decide_approval_request now id decision reason table ≡ returned (request, table')
    → ApprovalSteps later table'
    → (request.status ≡ decision_status decision)
      × (get_approval_request id later ≡ some request)
      × ((again : ℕ) (other : Decision) (text : Option String)
          → decide_approval_request again id other text later ≡ thrown (not_pending id))
unfolding decide_approval_request
decide_approval_request-final now id decision reason request table table' later h steps =
    let step = decide_approval_request-IsDecided now id decision reason request table table' h in
    let status : request.status ≡ decision_status decision =
      rw (step.decided) (decided-status now decision reason step.existing) in
    let final : (request.status == pending) ≡ false = rw status (decision_status-final decision) in
    let stored : get_approval_request id table' ≡ some request = rw (step.written) (
      ground (
        arith,
        step.same_id,
        get_approval_request-persist id request table,
        eq_iff request.id id,
      )) in
    let kept = steps-keep id request later table' steps stored final in
    (status, kept, λ again other text. ground (arith, kept, final))

-- After a request about an item there is a pending one about it.
create-waiting :
    (id : String) (now : ℕ) (input : CreateApprovalInput) (item : String) (table : ApprovalTable)
    → get_approval_request id table ≡ none
    → input.backlog_item_id ≡ some item
    → (item == "") ≡ false
    → (request : ApprovalRequest) × (find_pending_approval_for_backlog_item item
          (create_approval_request id now input table).1
        ≡ some request)
create-waiting id now input item table fresh about named =
    let search = existing_request-about input item table about named in
    let new = new_request id now input in
    elim (Option-cases (find_pending_approval_for_backlog_item item table)) [
      | inr (existing, found) ↦
          (existing, rw (create-existing id now input existing table (search ∙ found)) found)
      | inl absent ↦
          elim (Option-cases
            (find_pending_approval_for_backlog_item item (persist_request new table))) [
              | inr (request, found) ↦
                  (request, rw (create-new id now input table (search ∙ absent)) found)
              | inl none_after ↦ absurd (
                  ground (
                    arith,
                    find_pending-none item (persist_request new table) none_after,
                    create-counts id now input table item fresh,
                    new_request-pending id now input item about item,
                    eq_iff item item,
                  ))
            ]
    ]

-- A second request about the same backlog item, whatever else it says, writes nothing and answers
-- with a pending request about the item.
pub create_approval_request-again :
    (id other : String) (now later : ℕ) (input again : CreateApprovalInput) (item : String)
    (table : ApprovalTable)
    → get_approval_request id table ≡ none
    → input.backlog_item_id ≡ some item
    → again.backlog_item_id ≡ some item
    → (item == "") ≡ false
    → (request : ApprovalRequest) × (create_approval_request other later again
          (create_approval_request id now input table).1
        ≡ (request, (create_approval_request id now input table).1))
      × (is_pending_for item request ≡ true)
create_approval_request-again id other now later input again item table fresh about same named =
    let after = (create_approval_request id now input table).1 in
    let (request, found) = create-waiting id now input item table fresh about named in
    (
      request,
      create-existing other later again request after
          (existing_request-about again item after same named ∙ found),
      find_pending-some item after request found,
    )
