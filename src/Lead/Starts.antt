-- ===== src/Lead/Starts.antt =====
-- Which item a whole pass of the lead starts (orchestrator/src/autonomy/lead.ts).
use muslimrentals.Prelude.{
  ℕ, String, ◌≡◌, refl, sym, ◌∙◌, ap, subst, none, some, List, All, length, Option-cases, inl, inr,
}
use muslimrentals.Errors.{returned, >>=-eq-returned}
use muslimrentals.Backlog.{BacklogItem, selected}
use muslimrentals.Backlog.Store.{get_backlog_item}
use muslimrentals.Backlog.Sync.{IsSynced}
use muslimrentals.Risk.{RiskClassification, classify_risk}
use muslimrentals.Lead.{
  Pass, LeadPlan, LeadStore, apply_candidates, apply_updates, apply_escalations,
}
use muslimrentals.Lead.Select.{
  Selected, nothing_started, selected_item, resolve_selection, before_selection, select_after,
  apply_lead_plan,
}
use muslimrentals.Lead.Selection.{IsEligible}
use muslimrentals.Lead.Started.{
  IsOutcome, unselectable, waiting, held, started, resolve_selection-IsOutcome,
}
use muslimrentals.Lead.Passes.{
  Synced, apply_candidates-Synced, apply_updates-Synced, apply_escalations-Synced,
}

before_selection-Synced :
    (pass : Pass) (plan : LeadPlan) (store mid : LeadStore) (new_ids requests : List String)
    → before_selection pass plan store ≡ returned (new_ids, requests, mid)
    → Synced store.backlog
    → Synced mid.backlog
unfolding before_selection
before_selection-Synced pass plan store mid new_ids requests h a =
    let ((ids, created), first, second) =
      >>=-eq-returned (apply_candidates pass 0 plan.new_backlog_items store.backlog) _ h in
    let (backlog, updated, third) =
      >>=-eq-returned (apply_updates pass plan.updated_backlog_items created) _ second in
    let ((made, final), escalated, same) =
      >>=-eq-returned
        (apply_escalations pass 0 plan.escalations (record store { backlog = backlog })) _ third in
    let final_same : final ≡ mid = cc same in
    subst (λ s. Synced s.backlog) final_same
      (apply_escalations-Synced pass 0 plan.escalations (record store { backlog = backlog }) final
        made escalated
        (apply_updates-Synced pass plan.updated_backlog_items created backlog updated (
          apply_candidates-Synced pass 0 plan.new_backlog_items store.backlog created ids first a)))

-- The start of an item by a pass.
pub record IsStart (pass : Pass) (plan : LeadPlan) (store : LeadStore) (item : BacklogItem)
    (risk : RiskClassification) (final : LeadStore) : Type 0 where
  pub new_ids : List String
  pub requests : List String
  pub mid : LeadStore
  pub chosen : BacklogItem
  pub reached : before_selection pass plan store ≡ returned (new_ids, requests, mid)
  pub picked : selected_item pass new_ids plan.selected_item_id mid.backlog ≡ some chosen
  pub eligible : IsEligible mid.backlog chosen
  pub risk_of : risk ≡ classify_risk pass.claude_md chosen
  pub stored : get_backlog_item chosen.id final.backlog ≡ some item
  pub marked : item.status ≡ selected

outcome-IsStart :
    (pass : Pass) (plan : LeadPlan) (store mid : LeadStore) (new_ids requests : List String)
    (chosen item : BacklogItem) (risk : RiskClassification) (result : Selected)
    → before_selection pass plan store ≡ returned (new_ids, requests, mid)
    → selected_item pass new_ids plan.selected_item_id mid.backlog ≡ some chosen
    → IsOutcome pass (length plan.escalations) plan chosen mid result
    → result.started ≡ some (item, risk)
    → IsStart pass plan store item risk result.store
outcome-IsStart pass plan store mid new_ids requests chosen item risk result reached picked
      (unselectable c e) h =
    absurd (cc (ap (λ r. r.started) e, h))
outcome-IsStart pass plan store mid new_ids requests chosen item risk result reached picked
      (waiting o w b f s n a) h =
    absurd (cc (n, h))
outcome-IsStart pass plan store mid new_ids requests chosen item risk result reached picked
      (held o w i b r f s n q c) h =
    absurd (cc (n, h))
outcome-IsStart pass plan store mid new_ids requests chosen item risk result reached picked
      (started o e b f s n a) h =
    let same : b ≡ item = cc (n, h) in
    record {
      new_ids = new_ids;
      requests = requests;
      mid = mid;
      chosen = chosen;
      reached = reached;
      picked = picked;
      eligible = e;
      risk_of = cc (n, h);
      stored = f ∙ ap (λ i. some i) same;
      marked = sym (ap (λ i. i.status) same) ∙ s;
    }

nothing-selected :
    (pass : Pass) (index : ℕ) (plan : LeadPlan) (new_ids : List String) (store : LeadStore)
    → selected_item pass new_ids plan.selected_item_id store.backlog ≡ none
    → resolve_selection pass index plan new_ids store ≡ returned (nothing_started store)
unfolding resolve_selection
nothing-selected pass index plan new_ids store h = rw (resolve_selection, h) refl

-- When a pass starts an item, of a backlog whose items are in range, the item is one that the lead
-- named, which before the selection was stored, of a selectable status, with all its dependencies
-- done, and of no high risk; it is stored with the status of a selected item.
pub apply_lead_plan-IsStart :
    (pass : Pass) (plan : LeadPlan) (store : LeadStore) (item : BacklogItem)
    (risk : RiskClassification) (result : Selected)
    → All IsSynced store.backlog
    → apply_lead_plan pass plan store ≡ returned result
    → result.started ≡ some (item, risk)
    → IsStart pass plan store item risk result.store
unfolding apply_lead_plan select_after
apply_lead_plan-IsStart pass plan store item risk result a h begun =
    let ((new_ids, requests, mid), reached, second) =
      >>=-eq-returned (before_selection pass plan store) (select_after pass plan) {b = result} h in
    let (inner, resolved, same) =
      >>=-eq-returned (resolve_selection pass (length plan.escalations) plan new_ids mid) _
        second in
    let started_same : inner.started ≡ result.started = cc same in
    let store_same : inner.store ≡ result.store = cc same in
    elim (Option-cases (selected_item pass new_ids plan.selected_item_id mid.backlog)) [
      | inl unnamed ↦ absurd (
          cc (
            nothing-selected pass (length plan.escalations) plan new_ids mid unnamed,
            resolved,
            started_same,
            begun,
          ))
      | inr (chosen, picked) ↦
          let (outcome, returns, facts) =
            resolve_selection-IsOutcome pass (length plan.escalations) plan chosen mid new_ids
              picked (before_selection-Synced pass plan store mid new_ids requests reached a) in
          let one : outcome ≡ inner = cc (returns, resolved) in
          subst (IsStart pass plan store item risk) (ap (λ r. r.store) one ∙ store_same) (
            outcome-IsStart pass plan store mid new_ids requests chosen item risk outcome reached
              picked facts (ap (λ r. r.started) one ∙ (started_same ∙ begun)))
    ]
