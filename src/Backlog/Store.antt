-- ===== src/Backlog/Store.antt =====
-- orchestrator/src/autonomy/backlogStore.ts: the operations on the table `backlog_items`. A row's
-- `data` column holds the whole item, and the other columns repeat fields of it, so that a row is
-- an item. The new identifier and the time come in as arguments.
use muslimrentals.Prelude.{
  ℕ, String, Bool, true, false, ◌&&◌, ◌||◌, Option, none, some, List, [], ◌∷◌, ◌++◌, or_default,
  is_defined, unique, string_equality, template, if◌then◌else◌, ◌==◌,
}
use muslimrentals.Prelude.Table.{find_row, upsert}
use muslimrentals.Errors.{invalid_record, unknown_id, Result, returned, thrown, ◌>>=◌}
use muslimrentals.Backlog.{
  BacklogCategory, BacklogStatus, candidate, duplicate, RiskLevel, low, PriorityInputs, BacklogItem,
  parse_item,
}
use muslimrentals.Backlog.Priority.{compute_priority}

abbrev pub BacklogTable : Type 0
BacklogTable = List BacklogItem

abbrev pub item_key : BacklogItem → String
item_key item = item.id

-- `persist`.
unfoldable pub persist : BacklogItem → BacklogTable → BacklogTable
persist item table = upsert item_key item table

unfoldable pub get_backlog_item : String → BacklogTable → Option BacklogItem
get_backlog_item id table = find_row item_key id table

pub record CreateBacklogItemInput : Type 0 where
  pub title : String
  pub description : String
  pub source : String
  pub category : BacklogCategory
  pub risk : Option RiskLevel
  pub user_impact : ℕ
  pub severity : ℕ
  pub confidence : ℕ
  pub effort : ℕ
  pub strategic_relevance : ℕ
  pub evidence : Option (List String)
  pub rationale : String
  pub dependencies : Option (List String)
  pub related_signals : Option (List String)
  pub requires_founder_decision : Option Bool
  pub requires_legal_review : Option Bool
  pub status : Option BacklogStatus

-- The item that `createBacklogItem` builds, before it is parsed.
unfoldable pub new_item : String → ℕ → CreateBacklogItemInput → BacklogItem
new_item id now input =
    let scored = compute_priority (record {
      category = input.category;
      user_impact = input.user_impact;
      severity = input.severity;
      confidence = input.confidence;
      effort = input.effort;
      strategic_relevance = input.strategic_relevance;
    }) in
    record {
      id = id;
      title = input.title;
      description = input.description;
      source = input.source;
      category = input.category;
      status = or_default input.status candidate;
      priority = scored.score;
      priority_rationale = scored;
      risk = or_default input.risk low;
      user_impact = input.user_impact;
      severity = input.severity;
      confidence = input.confidence;
      effort = input.effort;
      strategic_relevance = input.strategic_relevance;
      evidence = or_default input.evidence [];
      rationale = input.rationale;
      dependencies = or_default input.dependencies [];
      created_at = now;
      updated_at = now;
      last_evaluated_at = some now;
      related_tasks = [];
      related_signals = or_default input.related_signals [];
      requires_founder_decision = or_default input.requires_founder_decision false;
      requires_legal_review = or_default input.requires_legal_review false;
      resolution = none;
    }

-- Parse an item, and write it where it parses.
unfoldable pub save_item : BacklogItem → BacklogTable → Result (BacklogItem × BacklogTable)
save_item item table = elim (parse_item item) [
  | none ↦ thrown invalid_record
  | some parsed ↦ returned (parsed, persist parsed table)
]

unfoldable pub create_backlog_item :
    String → ℕ → CreateBacklogItemInput → BacklogTable → Result (BacklogItem × BacklogTable)
create_backlog_item id now input table = save_item (new_item id now input) table

-- A field that is `none` is left as it is (`definedOnly`).
pub record UpdateBacklogItemInput : Type 0 where
  pub status : Option BacklogStatus
  pub category : Option BacklogCategory
  pub risk : Option RiskLevel
  pub user_impact : Option ℕ
  pub severity : Option ℕ
  pub confidence : Option ℕ
  pub effort : Option ℕ
  pub strategic_relevance : Option ℕ
  pub evidence : Option (List String)
  pub rationale : Option String
  pub dependencies : Option (List String)
  pub related_tasks : Option (List String)
  pub related_signals : Option (List String)
  pub requires_founder_decision : Option Bool
  pub requires_legal_review : Option Bool
  pub resolution : Option String
  pub change_reason : Option String

abbrev pub no_change : UpdateBacklogItemInput
no_change = record {
  status = none;
  category = none;
  risk = none;
  user_impact = none;
  severity = none;
  confidence = none;
  effort = none;
  strategic_relevance = none;
  evidence = none;
  rationale = none;
  dependencies = none;
  related_tasks = none;
  related_signals = none;
  requires_founder_decision = none;
  requires_legal_review = none;
  resolution = none;
  change_reason = none;
}

abbrev pub or_some {ℓ} : {A : Type ℓ} → Option A → Option A → Option A
or_some none old = old
or_some (some a) old = some a

-- `{ ...existing, ...definedOnly(patch) }`.
unfoldable pub merge_patch : BacklogItem → UpdateBacklogItemInput → BacklogItem
merge_patch existing patch = record existing {
  status = or_default patch.status existing.status;
  category = or_default patch.category existing.category;
  risk = or_default patch.risk existing.risk;
  user_impact = or_default patch.user_impact existing.user_impact;
  severity = or_default patch.severity existing.severity;
  confidence = or_default patch.confidence existing.confidence;
  effort = or_default patch.effort existing.effort;
  strategic_relevance = or_default patch.strategic_relevance existing.strategic_relevance;
  evidence = or_default patch.evidence existing.evidence;
  rationale = or_default patch.rationale existing.rationale;
  dependencies = or_default patch.dependencies existing.dependencies;
  related_tasks = or_default patch.related_tasks existing.related_tasks;
  related_signals = or_default patch.related_signals existing.related_signals;
  requires_founder_decision =
      or_default patch.requires_founder_decision existing.requires_founder_decision;
  requires_legal_review = or_default patch.requires_legal_review existing.requires_legal_review;
  resolution = or_some patch.resolution existing.resolution;
}

abbrev pub scoring_inputs : BacklogItem → PriorityInputs
scoring_inputs item = record {
  category = item.category;
  user_impact = item.user_impact;
  severity = item.severity;
  confidence = item.confidence;
  effort = item.effort;
  strategic_relevance = item.strategic_relevance;
}

unfoldable pub changed_scoring : UpdateBacklogItemInput → Bool
changed_scoring patch =
    is_defined patch.user_impact
    || (is_defined patch.severity
        || (is_defined patch.confidence
            || (is_defined patch.effort
                || (is_defined patch.strategic_relevance || is_defined patch.category))))

abbrev pub non_empty_text : String → Bool
non_empty_text text = if text == "" then false else true

-- The reason that is appended: an empty text is false.
unfoldable pub appended_reason : UpdateBacklogItemInput → Option String
appended_reason patch = elim (patch.change_reason) [
  | none ↦ none
  | some reason ↦ if changed_scoring patch && non_empty_text reason then some reason else none
]

-- The item that `updateBacklogItem` builds, before it is parsed.
unfoldable pub updated_item : ℕ → BacklogItem → UpdateBacklogItemInput → BacklogItem
updated_item now existing patch =
    let merged = merge_patch existing patch in
    let scored = compute_priority (scoring_inputs merged) in
    record merged {
      priority = scored.score;
      priority_rationale = record scored { change_reason = appended_reason patch };
      updated_at = now;
      last_evaluated_at = some now;
    }

unfoldable pub update_backlog_item :
    ℕ → String → UpdateBacklogItemInput → BacklogTable → Result (BacklogItem × BacklogTable)
update_backlog_item now id patch table = elim (get_backlog_item id table) [
  | none ↦ thrown (unknown_id id)
  | some existing ↦ save_item (updated_item now existing patch) table
]

-- The two patches of `mergeDuplicate`.
unfoldable pub absorb_patch : BacklogItem → BacklogItem → String → String → UpdateBacklogItemInput
absorb_patch survivor dup id reason = record no_change {
  evidence = some (unique (survivor.evidence ++ dup.evidence));
  related_signals = some (unique (survivor.related_signals ++ dup.related_signals));
  change_reason = some (template ("Absorbed duplicate " ∷ id ∷ ": " ∷ reason ∷ []));
}

unfoldable pub duplicate_patch : String → String → UpdateBacklogItemInput
duplicate_patch merge_into_id reason = record no_change {
  status = some duplicate;
  resolution = some (template ("Duplicate of " ∷ merge_into_id ∷ ": " ∷ reason ∷ []));
  change_reason = some reason;
}

unfoldable pub merge_duplicate :
    ℕ → String → String → String → BacklogTable → Result (BacklogItem × BacklogTable)
merge_duplicate now id merge_into_id reason table = elim (get_backlog_item id table) [
  | none ↦ thrown (unknown_id id)
  | some dup ↦ elim (get_backlog_item merge_into_id table) [
    | none ↦ thrown (unknown_id merge_into_id)
    | some survivor ↦
        update_backlog_item now merge_into_id (absorb_patch survivor dup id reason) table
        >>= λ absorbed. update_backlog_item now id (duplicate_patch merge_into_id reason) absorbed.1
  ]
]

unfoldable pub link_backlog_item_to_task :
    ℕ → String → String → BacklogTable → Result (BacklogItem × BacklogTable)
link_backlog_item_to_task now id task_id table = elim (get_backlog_item id table) [
  | none ↦ thrown (unknown_id id)
  | some item ↦
      update_backlog_item now id
        (record no_change { related_tasks = some (unique (item.related_tasks ++ task_id ∷ [])) })
        table
]
