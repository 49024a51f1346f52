-- ===== src/Lead/Escalations.antt =====
-- What the escalations of the lead leave alone (orchestrator/src/autonomy/lead.ts).
use muslimrentals.Prelude.{
  ℕ, suc, String, ◌≡◌, refl, sym, ◌∙◌, ap, subst, false, some, List, [], ◌∷◌, arith, ◌==◌,
  Option-cases, Bool-cases, inl, inr, same_refl, eq_of_same, string_equality,
}
use muslimrentals.Errors.{returned, >>=-eq-returned}
use muslimrentals.Backlog.{deferred, status_equality, BacklogItem}
use muslimrentals.Backlog.Store.{
  BacklogTable, get_backlog_item, UpdateBacklogItemInput, updated_item, update_backlog_item,
}
use muslimrentals.Backlog.Sync.{save_item-eq-returned}
use muslimrentals.Backlog.Updates.{get_backlog_item-persist, get_backlog_item-id, updated_item-id}
use muslimrentals.Approvals.{create_approval_request}
use muslimrentals.Lead.{
  Pass, LeadEscalation, LeadStore, given, escalated_item, escalation_input, is_closed,
  mark_escalated, table_of, with_request, escalation_patch, is_deferred, apply_escalation,
  apply_escalations,
}

-- An update of one item is no update of another.
pub update_backlog_item-others :
    (now : ℕ) (i j : String) (patch : UpdateBacklogItemInput) (item : BacklogItem)
    (table table' : BacklogTable)
    → update_backlog_item now i patch table ≡ returned (item, table')
    → (i == j) ≡ false
    → get_backlog_item j table' ≡ get_backlog_item j table
unfolding update_backlog_item
update_backlog_item-others now i j patch item table table' h other =
    elim (Option-cases (get_backlog_item i table)) [
      | inl missing ↦ absurd (ground (arith, h, missing))
      | inr (existing, found) ↦
          let next = updated_item now existing patch in
          let (_, _, written) =
            save_item-eq-returned next item table table' (ground (arith, h, found)) in
          rw
            (
              written,
              get_backlog_item-persist j next table,
              updated_item-id now existing patch,
              get_backlog_item-id i table existing found,
              other,
            )
            refl
    ]

escalated_item-stored :
    (escalation : LeadEscalation) (table : BacklogTable) (item : BacklogItem)
    → escalated_item escalation table ≡ some item
    → get_backlog_item item.id table ≡ some item
unfolding escalated_item
escalated_item-stored escalation table item h =
    elim (Option-cases (given escalation.backlog_item_id)) [
      | inl absent ↦ absurd (ground (arith, h, absent))
      | inr (id, named) ↦
          let found : get_backlog_item id table ≡ some item = ground (arith, h, named) in
          subst (λ i. get_backlog_item i table ≡ some item)
            (sym (get_backlog_item-id id table item found)) found
    ]

some-injective : {a b : BacklogItem} → some a ≡ some b → a ≡ b
some-injective h = cc h

deferred-apart :
    (raised item : BacklogItem) (table : BacklogTable)
    → get_backlog_item raised.id table ≡ some raised
    → get_backlog_item item.id table ≡ some item
    → item.status ≡ deferred
    → (raised.status == deferred) ≡ false
    → (raised.id == item.id) ≡ false
deferred-apart raised item table found stored asleep awake =
    elim (Bool-cases (raised.id == item.id)) [
      | inr apart ↦ apart
      | inl same ↦
          let one : raised ≡ item = some-injective (
            sym found
            ∙ (ap (λ i. get_backlog_item i table) (eq_of_same raised.id item.id same) ∙ stored)) in
          absurd (cc (awake, ap (λ i. i.status) one, asleep, same_refl deferred))
    ]

-- The marking of an item that is not deferred leaves the deferred ones as they are.
mark_escalated-keeps :
    (pass : Pass) (escalation : LeadEscalation) (table table' : BacklogTable) (item : BacklogItem)
    → is_deferred (escalated_item escalation table) ≡ false
    → get_backlog_item item.id table ≡ some item
    → item.status ≡ deferred
    → mark_escalated pass escalation table ≡ returned table'
    → get_backlog_item item.id table' ≡ some item
unfolding mark_escalated
mark_escalated-keeps pass escalation table table' item live stored asleep h =
    elim (Option-cases (escalated_item escalation table)) [
      | inl absent ↦ ground (arith, h, absent, stored)
      | inr (raised, found) ↦ elim (Bool-cases (is_closed raised.status)) [
        | inl closed ↦ ground (arith, h, found, closed, stored)
        | inr open_status ↦
            let awake : is_deferred (some raised) ≡ false = sym (ap is_deferred found) ∙ live in
            let ((written, next), update, same) =
              >>=-eq-returned
                (update_backlog_item pass.now raised.id (escalation_patch escalation) table)
                table_of {b = table'} (ground (arith, h, found, open_status)) in
            let next_same : next ≡ table' = cc same in
            subst (λ t. get_backlog_item item.id t ≡ some item) next_same
              (update_backlog_item-others pass.now raised.id item.id (escalation_patch escalation)
                  written table next update
                  (deferred-apart raised item table
                    (escalated_item-stored escalation table raised found) stored asleep awake)
                ∙ stored)
      ]
    ]

apply_escalation-keeps :
    (pass : Pass) (index : ℕ) (escalation : LeadEscalation) (store store' : LeadStore)
    (ids : List String) (item : BacklogItem)
    → get_backlog_item item.id store.backlog ≡ some item
    → item.status ≡ deferred
    → apply_escalation pass index escalation store ≡ returned (ids, store')
    → get_backlog_item item.id store'.backlog ≡ some item
unfolding apply_escalation
apply_escalation-keeps pass index escalation store store' ids item stored asleep h =
    elim (Bool-cases (is_deferred (escalated_item escalation store.backlog))) [
      | inl sleeping ↦
          let same : store ≡ store' = ground (arith, h, sleeping) in
          subst (λ s. get_backlog_item item.id s.backlog ≡ some item) same stored
      | inr live ↦
          let (backlog, marked, same) =
            >>=-eq-returned (mark_escalated pass escalation store.backlog)
              (with_request (
                create_approval_request (pass.approval_id index) pass.now
                  (escalation_input pass escalation store.backlog) store.approvals))
              {b = (ids, store')} (ground (arith, h, live)) in
          let kept =
            mark_escalated-keeps pass escalation store.backlog backlog item live stored asleep
              marked in
          let backlog_same : backlog ≡ store'.backlog = cc same in
          subst (λ t. get_backlog_item item.id t ≡ some item) backlog_same kept
    ]

-- However many escalations the lead makes, an item that is deferred is left as it is, and stays
-- deferred.
pub apply_escalations-keeps :
    (pass : Pass) (index : ℕ) (escalations : List LeadEscalation) (store store' : LeadStore)
    (ids : List String) (item : BacklogItem)
    → get_backlog_item item.id store.backlog ≡ some item
    → item.status ≡ deferred
    → apply_escalations pass index escalations store ≡ returned (ids, store')
    → get_backlog_item item.id store'.backlog ≡ some item
unfolding apply_escalations
apply_escalations-keeps pass index [] store store' ids item stored asleep h =
    let same : store ≡ store' = cc h in
    subst (λ s. get_backlog_item item.id s.backlog ≡ some item) same stored
apply_escalations-keeps pass index (e ∷ es) store store' ids item stored asleep h =
    let ((made, next), first, then_rest) =
      >>=-eq-returned (apply_escalation pass index e store) _ h in
    let ((others, final), rest, same) =
      >>=-eq-returned (apply_escalations pass (suc index) es next) _ then_rest in
    let final_same : final ≡ store' = cc same in
    subst (λ s. get_backlog_item item.id s.backlog ≡ some item) final_same
      (apply_escalations-keeps pass (suc index) es next final others item
        (apply_escalation-keeps pass index e store next made item stored asleep first) asleep rest)
