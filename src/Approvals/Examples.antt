-- ===== src/Approvals/Examples.antt =====
-- Runs of the approval store at concrete inputs.
use muslimrentals.Prelude.{ℕ, ◌≤◌, String, ◌≡◌, refl, Option, none, some, []}
use muslimrentals.Prelude.Table.{find_row, upsert}
use muslimrentals.Prelude.Sort.{sort_by}
use muslimrentals.Errors.{returned, thrown, not_pending}
use muslimrentals.Approvals.{
  ApprovalRequest, ApprovalTable, list_approval_requests, approval_rank, founder_decision_required,
  persist_request, get_approval_request, CreateApprovalInput, new_request, existing_request,
  find_pending_approval_for_backlog_item, create_approval_request, Decision, reject,
  decision_status, decided_request, decide_approval_request,
}
use muslimrentals.Approvals.Pending.{
  create, Reachable, empty, after, Reachable-pending_for, pending_for,
}
use muslimrentals.Approvals.Decisions.{done, next, decide_approval_request-final}

abbrev ask : CreateApprovalInput
ask = record {
  type = founder_decision_required;
  title = "Choose a payment provider";
  description = "";
  backlog_item_id = some "b1";
  cycle_id = none;
  task_id = none;
  options = none;
  recommendation = none;
  tradeoffs = none;
}

abbrev reworded : CreateApprovalInput
reworded = record ask { title = "Payment provider?" }

abbrev asked : ApprovalTable
asked = (create_approval_request "a1" 10 ask []).1

first_fresh : get_approval_request "a1" [] ≡ none
unfolding get_approval_request find_row
first_fresh = refl

asked-Reachable : Reachable asked
asked-Reachable = after {table = []} (empty refl) (create "a1" 10 ask first_fresh refl)

Reachable-pending_for_example : pending_for "b1" asked ≤ 1
Reachable-pending_for_example = Reachable-pending_for asked "b1" asked-Reachable refl

abbrev rejected_request : ApprovalRequest
rejected_request = decided_request 30 reject (some "no") (new_request "a1" 10 ask)

abbrev decided : ApprovalTable
decided = persist_request rejected_request asked

rejecting :
    decide_approval_request 30 "a1" reject (some "no") asked ≡ returned (rejected_request, decided)
unfolding decide_approval_request create_approval_request existing_request new_request
    persist_request upsert get_approval_request find_row find_pending_approval_for_backlog_item
    approval_rank list_approval_requests sort_by
rejecting = refl

-- After the decision the item may be asked about again.
asked_again : get_approval_request "a2" decided ≡ none
unfolding decided_request create_approval_request existing_request new_request persist_request
    upsert get_approval_request find_row find_pending_approval_for_backlog_item approval_rank
    list_approval_requests sort_by
asked_again = refl

abbrev later_table : ApprovalTable
later_table = (create_approval_request "a2" 40 reworded decided).1

decide_approval_request-final_example :
    (rejected_request.status ≡ decision_status reject)
    × (get_approval_request "a1" later_table ≡ some rejected_request)
    × ((again : ℕ) (other : Decision) (text : Option String)
        → decide_approval_request again "a1" other text later_table ≡ thrown (not_pending "a1"))
decide_approval_request-final_example =
    decide_approval_request-final 30 "a1" reject (some "no") rejected_request asked decided
      later_table rejecting (next (create "a2" 40 reworded asked_again refl) (done refl))
