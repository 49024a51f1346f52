-- ===== src/Backlog/Examples.antt =====
-- Runs of the backlog at concrete inputs.
use muslimrentals.Prelude.{
  String, false, ◌==◌, string_equality, ◌≡◌, refl, true, none, some, [], ◌∷◌, arith, All, includes,
  unique, unique_onto, length,
}
use muslimrentals.Prelude.Table.{find_row, upsert}
use muslimrentals.Errors.{returned}
use muslimrentals.Backlog.{
  BacklogItem, PriorityInputs, bug, security, parse_item, category_rank, status_rank, triaged,
  duplicate, is_well_scaled, status_equality,
}
use muslimrentals.Backlog.Priority.{category_weight_for}
use muslimrentals.Backlog.Scoring.{IsAtLeast}
use muslimrentals.Backlog.Store.{
  BacklogTable, CreateBacklogItemInput, new_item, create_backlog_item, save_item, persist,
  get_backlog_item, merge_duplicate,
}
use muslimrentals.Backlog.Sync.{IsSynced, Reachable, empty, after, create, Reachable-IsSynced}
use muslimrentals.Backlog.Updates.{IsMergeOf, merge_duplicate-IsMergeOf, merge_duplicate_self}
use muslimrentals.Backlog.Listing.{
  no_filter, list_backlog_items, IsListingOf, list_backlog_items-IsListingOf,
}
use muslimrentals.Backlog.Similar.{
  words, split_words, word_code, live_statuses, find_similar_backlog_items,
}
use muslimrentals.Backlog.Matches.{IsSimilarListing, find_similar-IsSimilarListing}

abbrev input : CreateBacklogItemInput
input = record {
  title = "Search form crashes";
  description = "";
  source = "lead";
  category = bug;
  risk = none;
  user_impact = 4;
  severity = 5;
  confidence = 90;
  effort = 2;
  strategic_relevance = 3;
  evidence = some ("log" ∷ []);
  rationale = "";
  dependencies = none;
  related_signals = none;
  requires_founder_decision = none;
  requires_legal_review = none;
  status = some triaged;
}

abbrev first : BacklogItem
first = new_item "b1" 10 input

abbrev second : BacklogItem
second = new_item "b2" 20 input

abbrev table : BacklogTable
table = first ∷ second ∷ []

-- Two items that are created one after the other.
table-Reachable : Reachable table
unfolding create_backlog_item save_item parse_item is_well_scaled new_item persist upsert
table-Reachable =
    after {table = first ∷ []} (after {table = []} (empty refl) (create "b1" 10 input first refl))
      (create "b2" 20 input second refl)

Reachable-IsSynced_example : All IsSynced table
Reachable-IsSynced_example = Reachable-IsSynced table table-Reachable

first_found : get_backlog_item "b1" table ≡ some first
unfolding get_backlog_item new_item find_row
first_found = refl

second_found : get_backlog_item "b2" table ≡ some second
unfolding get_backlog_item new_item find_row
second_found = refl

first-id : first.id ≡ "b1"
unfolding new_item
first-id = refl

second-id : second.id ≡ "b2"
unfolding new_item
second-id = refl

merge_duplicate-IsMergeOf_example :
    (item : BacklogItem) × (table' : BacklogTable) × (merge_duplicate 30 second.id first.id
        "same crash" table
      ≡ returned (item, table'))
    × IsMergeOf second first table item table'
unfolding new_item
merge_duplicate-IsMergeOf_example =
    merge_duplicate-IsMergeOf 30 "same crash" second first table Reachable-IsSynced_example
      second_found first_found refl

merge_duplicate_self_example :
    (closed : BacklogItem) × (table' : BacklogTable) × (merge_duplicate 30 first.id first.id
        "same crash" table
      ≡ returned (closed, table'))
    × (get_backlog_item first.id table' ≡ some closed)
    × (closed.status ≡ duplicate)
    × ((j : String)
        → (first.id == j) ≡ false
        → get_backlog_item j table' ≡ get_backlog_item j table)
unfolding new_item
merge_duplicate_self_example =
    merge_duplicate_self 30 "same crash" first table Reachable-IsSynced_example first_found

list_backlog_items-IsListingOf_example :
    IsListingOf no_filter table (list_backlog_items no_filter table)
list_backlog_items-IsListingOf_example = list_backlog_items-IsListingOf no_filter table

find_similar-IsSimilarListing_example :
    IsSimilarListing "Search crashes" bug 60 table
      (find_similar_backlog_items "Search crashes" bug 60 table)
find_similar-IsSimilarListing_example = find_similar-IsSimilarListing "Search crashes" bug 60 table

first_live : includes first.status live_statuses ≡ true
unfolding new_item live_statuses category_rank status_rank
first_live = refl

first_words : length (words first.title) ≡ 3
unfolding new_item words split_words word_code unique unique_onto
first_words = refl

abbrev pressing : PriorityInputs
pressing = record {
  category = security;
  user_impact = 5;
  severity = 4;
  confidence = 80;
  effort = 1;
  strategic_relevance = 3;
}

abbrev minor : PriorityInputs
minor = record pressing { user_impact = 1; effort = 3 }

pressing-IsAtLeast : IsAtLeast pressing minor
unfolding category_weight_for
pressing-IsAtLeast = record {
  weight = omega arith;
  user_impact = omega arith;
  severity = omega arith;
  strategic_relevance = omega arith;
  confidence = omega arith;
  effort = omega arith;
}
