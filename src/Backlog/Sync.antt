-- ===== src/Backlog/Sync.antt =====
-- The invariant of the backlog table: a stored priority is always the score of the stored inputs.
use muslimrentals.Prelude.{
  ℕ, String, ◌≡◌, refl, sym, subst, true, some, [], arith, All, Option-cases, inl, inr,
}
use muslimrentals.Prelude.Table.{upsert-All}
use muslimrentals.Errors.{returned, >>=-eq-returned}
use muslimrentals.Backlog.{BacklogItem, is_well_scaled, parse_item}
use muslimrentals.Backlog.Priority.{compute_priority, compute_score}
use muslimrentals.Backlog.Store.{
  BacklogTable, item_key, persist, get_backlog_item, CreateBacklogItemInput, new_item, save_item,
  create_backlog_item, UpdateBacklogItemInput, scoring_inputs, updated_item, update_backlog_item,
  absorb_patch, duplicate_patch, merge_duplicate, link_backlog_item_to_task,
}

-- The priority and its rationale are computed from the item's own inputs, which are in range.
pub record IsSynced (item : BacklogItem) : Type 0 where
  pub priority_of_inputs : item.priority ≡ compute_score (scoring_inputs item)
  pub rationale_of_inputs : item.priority_rationale.inputs ≡ scoring_inputs item
  pub rationale_score : item.priority_rationale.score ≡ item.priority
  pub well_scaled : is_well_scaled item ≡ true

-- Priority and rationale of an item follow its inputs, whether or not these are in range.
abbrev Follows : BacklogItem → Type 0
Follows item =
    (item.priority ≡ compute_score (scoring_inputs item))
    × (item.priority_rationale.inputs ≡ scoring_inputs item)
    × (item.priority_rationale.score ≡ item.priority)

-- What a save that returned did.
pub save_item-eq-returned :
    (item saved : BacklogItem) (table table' : BacklogTable)
    → save_item item table ≡ returned (saved, table')
    → (is_well_scaled item ≡ true) × (saved ≡ item) × (table' ≡ persist item table)
unfolding save_item parse_item
save_item-eq-returned item saved table table' h = ground arith

save_item-IsSynced :
    (item saved : BacklogItem) (table table' : BacklogTable)
    → Follows item
    → save_item item table ≡ returned (saved, table')
    → All IsSynced table
    → IsSynced saved × All IsSynced table'
unfolding persist
save_item-IsSynced item saved table table' (p, q, r) h a =
    let (scaled, same_item, same_table) = save_item-eq-returned item saved table table' h in
    let synced : IsSynced item = record {
      priority_of_inputs = p;
      rationale_of_inputs = q;
      rationale_score = r;
      well_scaled = scaled;
    } in
    (
      subst IsSynced (sym same_item) synced,
      subst (All IsSynced) (sym same_table) (upsert-All item_key IsSynced item table a synced),
    )

new_item-Follows :
    (id : String) (now : ℕ) (input : CreateBacklogItemInput) → Follows (new_item id now input)
unfolding new_item compute_priority
new_item-Follows id now input = (refl, refl, refl)

updated_item-Follows :
    (now : ℕ) (existing : BacklogItem) (patch : UpdateBacklogItemInput)
    → Follows (updated_item now existing patch)
unfolding updated_item compute_priority
updated_item-Follows now existing patch = (refl, refl, refl)

-- A synced table stays synced.
pub create_backlog_item-IsSynced :
    (id : String) (now : ℕ) (input : CreateBacklogItemInput) (item : BacklogItem)
    (table table' : BacklogTable)
    → create_backlog_item id now input table ≡ returned (item, table')
    → All IsSynced table
    → IsSynced item × All IsSynced table'
unfolding create_backlog_item
create_backlog_item-IsSynced id now input item table table' h a =
    save_item-IsSynced (new_item id now input) item table table' (new_item-Follows id now input) h a

pub update_backlog_item-IsSynced :
    (now : ℕ) (id : String) (patch : UpdateBacklogItemInput) (item : BacklogItem)
    (table table' : BacklogTable)
    → update_backlog_item now id patch table ≡ returned (item, table')
    → All IsSynced table
    → IsSynced item × All IsSynced table'
unfolding update_backlog_item
update_backlog_item-IsSynced now id patch item table table' h a =
    elim (Option-cases (get_backlog_item id table)) [
      | inl missing ↦ absurd (ground arith)
      | inr (existing, found) ↦
          save_item-IsSynced (updated_item now existing patch) item table table'
            (updated_item-Follows now existing patch) (ground arith) a
    ]

-- The two updates of a merge that returned.
pub record Merged (now : ℕ) (id merge_into_id reason : String) (table : BacklogTable)
    (item : BacklogItem) (table' : BacklogTable) : Type 0 where
  pub dup : BacklogItem
  pub survivor : BacklogItem
  pub absorbed : BacklogItem
  pub between : BacklogTable
  pub dup_found : get_backlog_item id table ≡ some dup
  pub survivor_found : get_backlog_item merge_into_id table ≡ some survivor
  pub first :
      update_backlog_item now merge_into_id (absorb_patch survivor dup id reason) table
      ≡ returned (absorbed, between)
  pub second :
      update_backlog_item now id (duplicate_patch merge_into_id reason) between
      ≡ returned (item, table')

pub merge_duplicate-Merged :
    (now : ℕ) (id merge_into_id reason : String) (item : BacklogItem) (table table' : BacklogTable)
    → merge_duplicate now id merge_into_id reason table ≡ returned (item, table')
    → Merged now id merge_into_id reason table item table'
unfolding merge_duplicate
merge_duplicate-Merged now id merge_into_id reason item table table' h =
    elim (Option-cases (get_backlog_item id table)) [
      | inl missing ↦ absurd (ground arith)
      | inr (dup, found) ↦ elim (Option-cases (get_backlog_item merge_into_id table)) [
        | inl missing ↦ absurd (ground arith)
        | inr (survivor, live) ↦
            let ((absorbed, between), first, second) =
              >>=-eq-returned
                (update_backlog_item now merge_into_id (absorb_patch survivor dup id reason) table)
                (λ step. update_backlog_item now id (duplicate_patch merge_into_id reason) step.1)
                (ground arith) in
            record {
              dup = dup;
              survivor = survivor;
              absorbed = absorbed;
              between = between;
              dup_found = found;
              survivor_found = live;
              first = first;
              second = second;
            }
      ]
    ]

pub merge_duplicate-IsSynced :
    (now : ℕ) (id merge_into_id reason : String) (item : BacklogItem) (table table' : BacklogTable)
    → merge_duplicate now id merge_into_id reason table ≡ returned (item, table')
    → All IsSynced table
    → IsSynced item × All IsSynced table'
merge_duplicate-IsSynced now id merge_into_id reason item table table' h a =
    let m = merge_duplicate-Merged now id merge_into_id reason item table table' h in
    let (_, between) =
      update_backlog_item-IsSynced now merge_into_id _ m.absorbed table m.between m.first a in
    update_backlog_item-IsSynced now id _ item m.between table' m.second between

link-IsSynced :
    (now : ℕ) (id task_id : String) (item : BacklogItem) (table table' : BacklogTable)
    → link_backlog_item_to_task now id task_id table ≡ returned (item, table')
    → All IsSynced table
    → IsSynced item × All IsSynced table'
unfolding link_backlog_item_to_task
link-IsSynced now id task_id item table table' h a =
    elim (Option-cases (get_backlog_item id table)) [
      | inl missing ↦ absurd (ground arith)
      | inr (existing, found) ↦
          update_backlog_item-IsSynced now id _ item table table'
            (rw (found, link_backlog_item_to_task) at h) a
    ]

-- One call of the store that writes and returns.
pub data StoreStep (table table' : BacklogTable) : Type 0 where
  create :
      (id : String) (now : ℕ) (input : CreateBacklogItemInput) (item : BacklogItem)
      → create_backlog_item id now input table ≡ returned (item, table')
      → StoreStep table table'
  update :
      (now : ℕ) (id : String) (patch : UpdateBacklogItemInput) (item : BacklogItem)
      → update_backlog_item now id patch table ≡ returned (item, table')
      → StoreStep table table'
  merge :
      (now : ℕ) (id merge_into_id reason : String) (item : BacklogItem)
      → merge_duplicate now id merge_into_id reason table ≡ returned (item, table')
      → StoreStep table table'
  link :
      (now : ℕ) (id task_id : String) (item : BacklogItem)
      → link_backlog_item_to_task now id task_id table ≡ returned (item, table')
      → StoreStep table table'

pub data Reachable : BacklogTable → Type 0 where
  empty : {table : BacklogTable} → table ≡ [] → Reachable table
  after :
      {table table' : BacklogTable} → Reachable table → StoreStep table table' → Reachable table'

StoreStep-IsSynced :
    (table table' : BacklogTable)
    → StoreStep table table'
    → All IsSynced table
    → All IsSynced table'
StoreStep-IsSynced table table' (create id now input item e) a =
    (create_backlog_item-IsSynced id now input item table table' e a).1
StoreStep-IsSynced table table' (update now id patch item e) a =
    (update_backlog_item-IsSynced now id patch item table table' e a).1
StoreStep-IsSynced table table' (merge now id into reason item e) a =
    (merge_duplicate-IsSynced now id into reason item table table' e a).1
StoreStep-IsSynced table table' (link now id task_id item e) a =
    (link-IsSynced now id task_id item table table' e a).1

-- In every table that the store's writes can reach, each item's inputs are in range, and its
-- priority and the rationale of it are those of its inputs.
pub Reachable-IsSynced : (table : BacklogTable) → Reachable table → All IsSynced table
Reachable-IsSynced table (empty e) = subst (All IsSynced) (sym e) tt
Reachable-IsSynced table (after {table = before} r step) =
    StoreStep-IsSynced before table step (Reachable-IsSynced before r)
