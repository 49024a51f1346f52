-- ===== src/Lead/Selection.antt =====
-- What becomes of the item that the lead selects (orchestrator/src/autonomy/lead.ts).
use muslimrentals.Prelude.{
  ℕ, String, ◌≡◌, ◌≢◌, refl, sym, ◌∙◌, subst, true, false, not, Option, some, List, [], ◌∷◌, arith,
  any, All, includes, get_elem?, starts_with, drop_prefix, Option-cases, Bool-cases, inl, inr,
  same_refl, string_equality,
}
use muslimrentals.Errors.{returned}
use muslimrentals.Backlog.{
  selected, blocked, approval_required, status_equality, BacklogItem, is_well_scaled, low, medium,
  high, RiskLevel,
}
use muslimrentals.Backlog.Store.{
  BacklogTable, get_backlog_item, persist, UpdateBacklogItemInput, merge_patch, updated_item,
  update_backlog_item,
}
use muslimrentals.Backlog.Sync.{IsSynced}
use muslimrentals.Backlog.Updates.{
  update_backlog_item-found, get_backlog_item-persist, get_backlog_item-id,
  get_backlog_item-IsSynced, updated_item-id,
}
use muslimrentals.Risk.{RiskClassification}
use muslimrentals.Risk.Levels.{IsSensitive}
use muslimrentals.Lead.{LeadPlan, Pass, given}
use muslimrentals.Lead.Select.{
  selectable_statuses, selected_item, is_done, is_waiting, blocked_patch, approval_patch,
  selected_patch, is_high,
}

selected_item-found :
    (pass : Pass) (new_ids : List String) (raw : Option String) (table : BacklogTable)
    (item : BacklogItem)
    → selected_item pass new_ids raw table ≡ some item
    → (id : String) × (get_backlog_item id table ≡ some item)
unfolding selected_item
selected_item-found pass new_ids raw table item h = elim (Option-cases (given raw)) [
  | inl absent ↦ absurd (ground (arith, h, absent))
  | inr (text, named) ↦ elim (Bool-cases (starts_with text "new:")) [
    | inr old ↦ (text, ground (arith, h, named, old))
    | inl fresh ↦ elim (Option-cases (pass.index_of (drop_prefix 4 text))) [
      | inl unread ↦ absurd (ground (arith, h, named, fresh, unread))
      | inr (index, read) ↦ elim (Option-cases (given (get_elem? new_ids index))) [
        | inl outside ↦ absurd (ground (arith, h, named, fresh, read, outside))
        | inr (id, known) ↦ (id, ground (arith, h, named, fresh, read, known))
      ]
    ]
  ]
]

pub selected_item-stored :
    (pass : Pass) (new_ids : List String) (raw : Option String) (table : BacklogTable)
    (item : BacklogItem)
    → selected_item pass new_ids raw table ≡ some item
    → get_backlog_item item.id table ≡ some item
selected_item-stored pass new_ids raw table item h =
    let (id, found) = selected_item-found pass new_ids raw table item h in
    subst (λ i. get_backlog_item i table ≡ some item)
      (sym (get_backlog_item-id id table item found)) found

-- A patch that leaves the inputs of the score alone.
abbrev KeepsScale : UpdateBacklogItemInput → Type 0
KeepsScale patch =
    (now : ℕ) (item : BacklogItem)
    → is_well_scaled (updated_item now item patch) ≡ is_well_scaled item

pub blocked-KeepsScale : KeepsScale blocked_patch
unfolding updated_item merge_patch is_well_scaled blocked_patch
blocked-KeepsScale now item = refl

pub approval-KeepsScale : (risk : RiskClassification) → KeepsScale (approval_patch risk)
unfolding updated_item merge_patch is_well_scaled approval_patch
approval-KeepsScale risk now item = refl

pub selected-KeepsScale :
    (plan : LeadPlan) (risk : RiskClassification) → KeepsScale (selected_patch plan risk)
unfolding updated_item merge_patch is_well_scaled selected_patch
selected-KeepsScale plan risk now item = refl

-- Such a patch of a stored item is written.
pub write-KeepsScale :
    (now : ℕ) (patch : UpdateBacklogItemInput) (item : BacklogItem) (table : BacklogTable)
    → KeepsScale patch
    → All IsSynced table
    → get_backlog_item item.id table ≡ some item
    → update_backlog_item now item.id patch table
      ≡ returned (updated_item now item patch, persist (updated_item now item patch) table)
write-KeepsScale now patch item table keeps a found =
    update_backlog_item-found now item.id patch item table found
      (keeps now item ∙ (get_backlog_item-IsSynced item.id table item found a).well_scaled)

pub written-stored :
    (now : ℕ) (patch : UpdateBacklogItemInput) (item : BacklogItem) (table : BacklogTable)
    → get_backlog_item item.id (persist (updated_item now item patch) table)
      ≡ some (updated_item now item patch)
written-stored now patch item table =
    get_backlog_item-persist item.id (updated_item now item patch) table
    ∙ rw (updated_item-id now item patch, same_refl item.id) refl

pub new_status :
    (now : ℕ) (item : BacklogItem) (plan : LeadPlan) (risk : RiskClassification)
    → ((updated_item now item blocked_patch).status ≡ blocked)
      × ((updated_item now item (approval_patch risk)).status ≡ approval_required)
      × ((updated_item now item (selected_patch plan risk)).status ≡ selected)
unfolding updated_item merge_patch blocked_patch approval_patch selected_patch
new_status now item plan risk = (refl, refl, refl)

-- What an item must be for work on it to start: stored, of a selectable status, with all its
-- dependencies done, and not of high risk.
pub record IsEligible (table : BacklogTable) (item : BacklogItem) : Type 0 where
  pub stored : get_backlog_item item.id table ≡ some item
  pub selectable : includes item.status selectable_statuses ≡ true
  pub dependencies_done : All (λ id. is_done table id ≡ true) item.dependencies
  pub ordinary : IsSensitive item → ⊥

not_waiting-All :
    (table : BacklogTable) (ids : List String)
    → any (λ id. not (is_done table id)) ids ≡ false
    → All (λ id. is_done table id ≡ true) ids
not_waiting-All table [] h = tt
not_waiting-All table (id ∷ ids) h =
    (ground (arith, h), not_waiting-All table ids (ground (arith, h)))

pub dependencies-done :
    (table : BacklogTable) (item : BacklogItem)
    → is_waiting item table ≡ false
    → All (λ id. is_done table id ≡ true) item.dependencies
unfolding is_waiting
dependencies-done table item h = not_waiting-All table item.dependencies h

pub is_high-false : (risk : RiskLevel) → is_high risk ≡ false → risk ≢ high
is_high-false low h k = cc
is_high-false medium h k = cc
is_high-false high h k = cc

pub is_high-true : (risk : RiskLevel) → is_high risk ≡ true → risk ≡ high
is_high-true low h = cc
is_high-true medium h = cc
is_high-true high h = refl
