-- ===== src/Backlog/Updates.antt =====
-- What the updates of orchestrator/src/autonomy/backlogStore.ts leave in the table.
use text.Mathlib.TextEquality.{eq_iff}
use muslimrentals.Prelude.{
  ℕ, String, ◌≡◌, refl, ◌∙◌, true, false, ◌||◌, some, arith, All, includes, includes-unique,
  includes-append, if◌then◌else◌, ◌==◌, string_equality,
}
use muslimrentals.Prelude.Table.{find_row-upsert, find_row-key, find_row-All}
use muslimrentals.Errors.{returned}
use muslimrentals.Backlog.{BacklogItem, duplicate, is_well_scaled, parse_item}
use muslimrentals.Backlog.Store.{
  BacklogTable, item_key, persist, get_backlog_item, save_item, UpdateBacklogItemInput, merge_patch,
  updated_item, update_backlog_item, absorb_patch, duplicate_patch, merge_duplicate,
}
use muslimrentals.Backlog.Sync.{IsSynced}

-- An update of an item that is there, with a result in range, writes the updated item.
pub update_backlog_item-found :
    (now : ℕ) (id : String) (patch : UpdateBacklogItemInput) (existing : BacklogItem)
    (table : BacklogTable)
    → get_backlog_item id table ≡ some existing
    → is_well_scaled (updated_item now existing patch) ≡ true
    → update_backlog_item now id patch table
      ≡ returned (updated_item now existing patch, persist (updated_item now existing patch) table)
unfolding update_backlog_item save_item parse_item
update_backlog_item-found now id patch existing table h k = ground arith

-- A read after an update.
pub get_backlog_item-persist :
    (j : String) (item : BacklogItem) (table : BacklogTable)
    → get_backlog_item j (persist item table)
      ≡ (if item.id == j then some item else get_backlog_item j table)
unfolding get_backlog_item persist
get_backlog_item-persist j item table = find_row-upsert item_key j item table

pub get_backlog_item-id :
    (id : String) (table : BacklogTable) (item : BacklogItem)
    → get_backlog_item id table ≡ some item
    → item.id ≡ id
unfolding get_backlog_item
get_backlog_item-id id table item h = find_row-key item_key id table item h

pub get_backlog_item-IsSynced :
    (id : String) (table : BacklogTable) (item : BacklogItem)
    → get_backlog_item id table ≡ some item
    → All IsSynced table
    → IsSynced item
unfolding get_backlog_item
get_backlog_item-IsSynced id table item h a = find_row-All item_key IsSynced id table item h a

-- A patch without scoring fields keeps the inputs in range, and no patch changes the identifier.
pub updated_item-id :
    (now : ℕ) (item : BacklogItem) (patch : UpdateBacklogItemInput)
    → (updated_item now item patch).id ≡ item.id
unfolding updated_item merge_patch
updated_item-id now item patch = refl

absorb-well_scaled :
    (now : ℕ) (survivor dup : BacklogItem) (id reason : String)
    → is_well_scaled (updated_item now survivor (absorb_patch survivor dup id reason))
      ≡ is_well_scaled survivor
unfolding updated_item merge_patch absorb_patch is_well_scaled
absorb-well_scaled now survivor dup id reason = refl

duplicate-well_scaled :
    (now : ℕ) (item : BacklogItem) (into reason : String)
    → is_well_scaled (updated_item now item (duplicate_patch into reason)) ≡ is_well_scaled item
unfolding updated_item merge_patch duplicate_patch is_well_scaled
duplicate-well_scaled now item into reason = refl

duplicate_patch-status :
    (now : ℕ) (item : BacklogItem) (into reason : String)
    → (updated_item now item (duplicate_patch into reason)).status ≡ duplicate
unfolding updated_item merge_patch duplicate_patch
duplicate_patch-status now item into reason = refl

-- What a merge of `dup` into `survivor` leaves in the table.
pub record IsMergeOf (dup survivor : BacklogItem) (table : BacklogTable) (item : BacklogItem)
    (table' : BacklogTable) : Type 0 where
  pub absorbed : BacklogItem
  pub closed : item.status ≡ duplicate
  pub survivor_live : absorbed.status ≡ survivor.status
  pub evidence_kept :
      (x : String)
      → includes x absorbed.evidence ≡ (includes x survivor.evidence || includes x dup.evidence)
  pub signals_kept :
      (x : String)
      → includes x absorbed.related_signals
        ≡ (includes x survivor.related_signals || includes x dup.related_signals)
  pub reads :
      (j : String)
      → get_backlog_item j table' ≡ (
          if dup.id == j
          then some item
          else if survivor.id == j
          then some absorbed
          else get_backlog_item j table)

module _ (now : ℕ) (reason : String) (dup survivor : BacklogItem) (table : BacklogTable) where
  abbrev absorbed_item : BacklogItem
  absorbed_item = updated_item now survivor (absorb_patch survivor dup dup.id reason)

  abbrev closed_item : BacklogItem
  closed_item = updated_item now dup (duplicate_patch survivor.id reason)

  merge-facts :
      (absorbed_item.status ≡ survivor.status)
      × (closed_item.status ≡ duplicate)
      × (absorbed_item.id ≡ survivor.id)
      × (closed_item.id ≡ dup.id)
      × ((x : String)
          → includes x absorbed_item.evidence
            ≡ (includes x survivor.evidence || includes x dup.evidence))
      × ((x : String)
          → includes x absorbed_item.related_signals
            ≡ (includes x survivor.related_signals || includes x dup.related_signals))
  unfolding updated_item merge_patch absorb_patch duplicate_patch
  merge-facts = (
    refl,
    refl,
    refl,
    refl,
    λ x. includes-unique x _ ∙ includes-append x _ _,
    λ x. includes-unique x _ ∙ includes-append x _ _,
  )

  -- Merging a stored item into another stored item never throws; the item is closed as a
  -- duplicate, the survivor keeps its status and has the evidence and signals of both, and every
  -- other item is unchanged.
  pub merge_duplicate-IsMergeOf :
      All IsSynced table
      → get_backlog_item dup.id table ≡ some dup
      → get_backlog_item survivor.id table ≡ some survivor
      → (survivor.id == dup.id) ≡ false
      → (item : BacklogItem) × (table' : BacklogTable) × (merge_duplicate now dup.id survivor.id
            reason table
          ≡ returned (item, table'))
        × IsMergeOf dup survivor table item table'
  unfolding merge_duplicate
  merge_duplicate-IsMergeOf a fd fs ne =
      let (live, closed, absorbed_id, closed_id, evidence, signals) = merge-facts in
      let between = persist absorbed_item table in
      let first = update_backlog_item-found now survivor.id _ survivor table fs (
        absorb-well_scaled now survivor dup dup.id reason
        ∙ (get_backlog_item-IsSynced survivor.id table survivor fs a).well_scaled) in
      let dup_between : get_backlog_item dup.id between ≡ some dup =
        get_backlog_item-persist dup.id absorbed_item table ∙ rw (absorbed_id, ne) fd in
      let second = update_backlog_item-found now dup.id _ dup between dup_between (
        duplicate-well_scaled now dup survivor.id reason
        ∙ (get_backlog_item-IsSynced dup.id table dup fd a).well_scaled) in
      (
        closed_item,
        persist closed_item between,
        ground (arith, first, second),
        record {
          absorbed = absorbed_item;
          closed = closed;
          survivor_live = live;
          evidence_kept = evidence;
          signals_kept = signals;
          reads = λ j. ground (
            arith,
            get_backlog_item-persist j closed_item between,
            get_backlog_item-persist j absorbed_item table,
          );
        },
      )

-- A merge of an item into itself also returns. It closes that item as a duplicate, and every other
-- item is read as before, so that none takes over its evidence.
pub merge_duplicate_self :
    (now : ℕ) (reason : String) (item : BacklogItem) (table : BacklogTable)
    → All IsSynced table
    → get_backlog_item item.id table ≡ some item
    → (closed : BacklogItem) × (table' : BacklogTable) × (merge_duplicate now item.id item.id reason
          table
        ≡ returned (closed, table'))
      × (get_backlog_item item.id table' ≡ some closed)
      × (closed.status ≡ duplicate)
      × ((j : String)
          → (item.id == j) ≡ false
          → get_backlog_item j table' ≡ get_backlog_item j table)
unfolding merge_duplicate
merge_duplicate_self now reason item table a found =
    let absorbed = absorbed_item now reason item item table in
    let (live, _, absorbed_id, _, _, _) = merge-facts now reason item item table in
    let between = persist absorbed table in
    let scaled =
      absorb-well_scaled now item item item.id reason
      ∙ (get_backlog_item-IsSynced item.id table item found a).well_scaled in
    let first = update_backlog_item-found now item.id _ item table found scaled in
    let live_between : get_backlog_item item.id between ≡ some absorbed =
      ground (arith, get_backlog_item-persist item.id absorbed table, eq_iff item.id item.id) in
    let second =
      update_backlog_item-found now item.id (duplicate_patch item.id reason) absorbed between
        live_between (duplicate-well_scaled now absorbed item.id reason ∙ scaled) in
    let final = updated_item now absorbed (duplicate_patch item.id reason) in
    (
      final,
      persist final between,
      ground (arith, first, second),
      ground (
        arith,
        get_backlog_item-persist item.id final between,
        updated_item-id now absorbed (duplicate_patch item.id reason),
        eq_iff item.id item.id,
      ),
      duplicate_patch-status now absorbed item.id reason,
      λ j apart. ground (
        arith,
        apart,
        get_backlog_item-persist j final between,
        get_backlog_item-persist j absorbed table,
        updated_item-id now absorbed (duplicate_patch item.id reason),
        absorbed_id,
      ),
    )
