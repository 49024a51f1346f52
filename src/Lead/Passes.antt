-- ===== src/Lead/Passes.antt =====
-- What a whole pass of the lead keeps and starts (orchestrator/src/autonomy/lead.ts).
use muslimrentals.Prelude.{
  ℕ, suc, String, ◌≡◌, subst, List, [], ◌∷◌, arith, All, Option-cases, Bool-cases, inl, inr,
}
use muslimrentals.Errors.{Result, returned, ◌>>=◌, >>=-eq-returned}
use muslimrentals.Backlog.{BacklogItem}
use muslimrentals.Backlog.Store.{BacklogTable, get_backlog_item}
use muslimrentals.Backlog.Similar.{find_similar_backlog_items}
use muslimrentals.Backlog.Sync.{
  IsSynced, update_backlog_item-IsSynced, create_backlog_item-IsSynced, merge_duplicate-IsSynced,
}
use muslimrentals.Approvals.{create_approval_request}
use muslimrentals.Lead.{
  Pass, LeadStore, NewBacklogCandidate, BacklogItemUpdate, LeadEscalation, given, candidate_input,
  place_candidate, evidence_patch, apply_candidate, apply_candidates, update_patch, table_of,
  apply_update, apply_updates, escalated_item, escalation_patch, escalation_input, is_closed,
  is_deferred, mark_escalated, with_request, apply_escalation, apply_escalations,
}

-- The items of a table are in range, with the priority of their inputs.
abbrev pub Synced : BacklogTable → Type 0
Synced table = All IsSynced table

place_candidate-Synced :
    (pass : Pass) (index : ℕ) (c : NewBacklogCandidate) (similar : List BacklogItem)
    (table table' : BacklogTable) (item : BacklogItem)
    → place_candidate pass index c similar table ≡ returned (item, table')
    → Synced table
    → Synced table'
unfolding place_candidate
place_candidate-Synced pass index c [] table table' item h a =
    (create_backlog_item-IsSynced (pass.item_id index) pass.now (candidate_input pass c) item table
      table' h a).1
place_candidate-Synced pass index c (survivor ∷ others) table table' item h a =
    (update_backlog_item-IsSynced pass.now survivor.id (evidence_patch survivor c) item table table'
      h a).1

pub apply_candidates-Synced :
    (pass : Pass) (index : ℕ) (cs : List NewBacklogCandidate) (table table' : BacklogTable)
    (ids : List String)
    → apply_candidates pass index cs table ≡ returned (ids, table')
    → Synced table
    → Synced table'
unfolding apply_candidates apply_candidate
apply_candidates-Synced pass index [] table table' ids h a =
    let same : table ≡ table' = cc h in subst Synced same a
apply_candidates-Synced pass index (c ∷ cs) table table' ids h a =
    let similar = find_similar_backlog_items c.title c.category 60 table in
    let ((item, between), first, then_rest) =
      >>=-eq-returned (place_candidate pass index c similar table) _ h in
    let ((others, final), rest, same) =
      >>=-eq-returned (apply_candidates pass (suc index) cs between) _ then_rest in
    let final_same : final ≡ table' = cc same in
    subst Synced final_same (
      apply_candidates-Synced pass (suc index) cs between final others rest
        (place_candidate-Synced pass index c similar table between item first a))

written-Synced :
    {first : Result (BacklogItem × BacklogTable)} {table' : BacklogTable}
    → ((item : BacklogItem) (next : BacklogTable) → first ≡ returned (item, next) → Synced next)
    → (first >>= table_of) ≡ returned table'
    → Synced table'
written-Synced {first = first} {table' = table'} keeps h =
    let ((item, next), wrote, same) = >>=-eq-returned first table_of {b = table'} h in
    let next_same : next ≡ table' = cc same in subst Synced next_same (keeps item next wrote)

apply_update-Synced :
    (pass : Pass) (update : BacklogItemUpdate) (table table' : BacklogTable)
    → apply_update pass update table ≡ returned table'
    → Synced table
    → Synced table'
unfolding apply_update
apply_update-Synced pass update table table' h a =
    elim (Option-cases (get_backlog_item update.id table)) [
      | inl missing ↦
          (let same : table ≡ table' = ground (arith, h, missing) in subst Synced same a)
      | inr (existing, found) ↦ elim (Option-cases (given update.merge_into_id)) [
        | inl alone ↦
            written-Synced
              (λ item next wrote.
                (update_backlog_item-IsSynced pass.now update.id (update_patch update) item table
                  next wrote a).1)
              (ground (arith, h, found, alone))
        | inr (into, merges) ↦ elim (Option-cases (get_backlog_item into table)) [
          | inl unknown ↦
              (let same : table ≡ table' = ground (arith, h, found, merges, unknown) in
                subst Synced same a)
          | inr (survivor, live) ↦
              written-Synced
                (λ item next wrote.
                  (merge_duplicate-IsSynced pass.now update.id into update.rationale item table next
                    wrote a).1)
                (ground (arith, h, found, merges, live))
        ]
      ]
    ]

pub apply_updates-Synced :
    (pass : Pass) (updates : List BacklogItemUpdate) (table table' : BacklogTable)
    → apply_updates pass updates table ≡ returned table'
    → Synced table
    → Synced table'
unfolding apply_updates
apply_updates-Synced pass [] table table' h a =
    let same : table ≡ table' = cc h in subst Synced same a
apply_updates-Synced pass (update ∷ updates) table table' h a =
    let (between, first, rest) =
      >>=-eq-returned (apply_update pass update table) (apply_updates pass updates) {b = table'}
        h in
    apply_updates-Synced pass updates between table' rest
      (apply_update-Synced pass update table between first a)

mark_escalated-Synced :
    (pass : Pass) (e : LeadEscalation) (table table' : BacklogTable)
    → mark_escalated pass e table ≡ returned table'
    → Synced table
    → Synced table'
unfolding mark_escalated
mark_escalated-Synced pass e table table' h a = elim (Option-cases (escalated_item e table)) [
  | inl absent ↦ (let same : table ≡ table' = ground (arith, h, absent) in subst Synced same a)
  | inr (item, found) ↦ elim (Bool-cases (is_closed item.status)) [
    | inl closed ↦
        (let same : table ≡ table' = ground (arith, h, found, closed) in subst Synced same a)
    | inr still_open ↦
        written-Synced
          (λ written next wrote.
            (update_backlog_item-IsSynced pass.now item.id (escalation_patch e) written table next
              wrote a).1)
          (ground (arith, h, found, still_open))
  ]
]

apply_escalation-Synced :
    (pass : Pass) (index : ℕ) (e : LeadEscalation) (store store' : LeadStore) (ids : List String)
    → apply_escalation pass index e store ≡ returned (ids, store')
    → Synced store.backlog
    → Synced store'.backlog
unfolding apply_escalation
apply_escalation-Synced pass index e store store' ids h a =
    elim (Bool-cases (is_deferred (escalated_item e store.backlog))) [
      | inl asleep ↦
          (let same : store ≡ store' = ground (arith, h, asleep) in
            subst (λ s. Synced s.backlog) same a)
      | inr live ↦
          let (backlog, marked, same) =
            >>=-eq-returned (mark_escalated pass e store.backlog)
              (with_request (
                create_approval_request (pass.approval_id index) pass.now
                  (escalation_input pass e store.backlog) store.approvals))
              {b = (ids, store')} (ground (arith, h, live)) in
          let backlog_same : backlog ≡ store'.backlog = cc same in
          subst Synced backlog_same (mark_escalated-Synced pass e store.backlog backlog marked a)
    ]

pub apply_escalations-Synced :
    (pass : Pass) (index : ℕ) (es : List LeadEscalation) (store store' : LeadStore)
    (ids : List String)
    → apply_escalations pass index es store ≡ returned (ids, store')
    → Synced store.backlog
    → Synced store'.backlog
unfolding apply_escalations
apply_escalations-Synced pass index [] store store' ids h a =
    let same : store ≡ store' = cc h in subst (λ s. Synced s.backlog) same a
apply_escalations-Synced pass index (e ∷ es) store store' ids h a =
    let ((made, next), first, then_rest) =
      >>=-eq-returned (apply_escalation pass index e store) _ h in
    let ((others, final), rest, same) =
      >>=-eq-returned (apply_escalations pass (suc index) es next) _ then_rest in
    let final_same : final ≡ store' = cc same in
    subst (λ s. Synced s.backlog) final_same
      (apply_escalations-Synced pass (suc index) es next final others rest
        (apply_escalation-Synced pass index e store next made first a))
