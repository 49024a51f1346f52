-- ===== src/CrossBranch.antt =====
-- orchestrator/src/supervisor/crossBranchAnalysis.ts, with the schemas that it reads and returns
-- (orchestrator/src/types/schemas.ts). A `reason` text is kept as the values that it is made of.
pub mod Glob
pub mod Touches
pub mod Overlaps
pub mod Conflicts
mod Examples
use Prim.Native.String.{◌++◌ as str_append}
use muslimrentals.Prelude.{
  String, Bool, true, false, not, ◌&&◌, ◌||◌, Option, none, some, List, [], ◌∷◌, ◌++◌, map,
  if◌then◌else◌, ltb, length, any, all, ◌==◌, starts_with, ends_with, drop_last, string_equality,
}
use muslimrentals.Roles.{AgentRole, frontend, backend, engineering, role_equality}

pub record ImplementationScope : Type 0 where
  pub agent : AgentRole
  pub expected_paths : List String
  pub allowed_shared_paths : List String

pub record Rename : Type 0 where
  pub from : String
  pub to : String

pub record WorkerChangeSet : Type 0 where
  pub agent : AgentRole
  pub branch : String
  pub added : List String
  pub modified : List String
  pub deleted : List String
  pub renamed : List Rename

pub data OverlapClassification : Type 0 where
  expected_shared suspicious conflicting : OverlapClassification

pub record OverlapEntry : Type 0 where
  pub path : String
  pub agents : List AgentRole
  pub classification : OverlapClassification

pub record OutOfScopeEntry : Type 0 where
  pub agent : AgentRole
  pub path : String
  pub expected : List String

pub record OverlapReport : Type 0 where
  pub task_id : String
  pub overlaps : List OverlapEntry
  pub out_of_scope : List OutOfScopeEntry
  pub has_blocking_issues : Bool

-- `DEFAULT_SCOPE_PATHS[agent] ?? ['rentals/**']`.
abbrev default_scope_paths : AgentRole → List String
default_scope_paths frontend = "rentals/frontend/**" ∷ []
default_scope_paths backend = "rentals/backend/**" ∷ []
default_scope_paths engineering = "rentals/**" ∷ []
default_scope_paths agent = "rentals/**" ∷ []

unfoldable pub default_scope_for : AgentRole → ImplementationScope
default_scope_for agent = record {
  agent = agent;
  expected_paths = default_scope_paths agent;
  allowed_shared_paths = [];
}

unfoldable pub default_scopes : List AgentRole → List ImplementationScope
default_scopes agents = map default_scope_for agents

unfoldable pub matches_glob : String → String → Bool
matches_glob file_path pattern =
    if ends_with pattern "/**"
    then (let prefix = drop_last 3 pattern in
        file_path == prefix || starts_with file_path (str_append prefix "/"))
    else if ends_with pattern "**"
    then starts_with file_path (drop_last 2 pattern)
    else file_path == pattern

matches_any : String → List String → Bool
matches_any file_path patterns = any (matches_glob file_path) patterns

unfoldable pub is_expected : String → ImplementationScope → Bool
unfolding matches_any
is_expected file_path scope = matches_any file_path scope.expected_paths

unfoldable pub is_allowed_shared : String → ImplementationScope → Bool
unfolding matches_any
is_allowed_shared file_path scope = matches_any file_path scope.allowed_shared_paths

unfoldable pub is_in_scope : String → ImplementationScope → Bool
unfolding is_expected is_allowed_shared
is_in_scope file_path scope = is_expected file_path scope || is_allowed_shared file_path scope

unfoldable pub all_changed_paths : WorkerChangeSet → List String
all_changed_paths cs = cs.added ++ (cs.modified ++ (cs.deleted ++ map (λ r. r.to) cs.renamed))

-- `scopeByAgent.get(agent)`: `new Map(entries)` keeps the last entry of a key.
unfoldable pub scope_by_agent : List ImplementationScope → AgentRole → Option ImplementationScope
scope_by_agent [] agent = none
scope_by_agent (s ∷ scopes) agent = elim (scope_by_agent scopes agent) [
  | some later ↦ some later
  | none ↦ if s.agent == agent then some s else none
]

-- A `Map` from a path to the agents that touched it, in the order of insertion.
abbrev pub TouchMap : Type 0
TouchMap = List (String × List AgentRole)

-- `touchedBy.set(p, [...(touchedBy.get(p) ?? []), agent])`.
unfoldable pub touch : String → AgentRole → TouchMap → TouchMap
touch p agent [] = (p, agent ∷ []) ∷ []
touch p agent ((q, agents) ∷ m) =
    if q == p then (q, agents ++ agent ∷ []) ∷ m else (q, agents) ∷ touch p agent m

unfoldable pub touch_all : List String → AgentRole → TouchMap → TouchMap
touch_all [] agent m = m
touch_all (p ∷ ps) agent m = touch_all ps agent (touch p agent m)

unfoldable pub touched_by : List WorkerChangeSet → TouchMap → TouchMap
touched_by [] m = m
touched_by (cs ∷ change_sets) m =
    touched_by change_sets (touch_all (all_changed_paths cs) cs.agent m)

abbrev test_scope : (ImplementationScope → Bool) → Option ImplementationScope → Bool
test_scope p none = false
test_scope p (some scope) = p scope

-- One round of the loop over `touchedBy`: `none` is `continue` with no entry.
unfoldable pub overlap_entry :
    List ImplementationScope → String → List AgentRole → Option OverlapEntry
overlap_entry scopes file_path agents =
    let declared =
      all (λ a. test_scope (is_allowed_shared file_path) (scope_by_agent scopes a)) agents in
    let outside =
      any (λ a. test_scope (λ s. not (is_in_scope file_path s)) (scope_by_agent scopes a)) agents in
    if ltb (length agents) 2
    then none
    else some (record {
      path = file_path;
      agents = agents;
      classification =
          if declared then expected_shared else if outside then conflicting else suspicious;
    })

abbrev push_entry : Option OverlapEntry → List OverlapEntry → List OverlapEntry
push_entry none entries = entries
push_entry (some entry) entries = entry ∷ entries

unfoldable pub overlaps_of : List ImplementationScope → TouchMap → List OverlapEntry
overlaps_of scopes [] = []
overlaps_of scopes ((p, agents) ∷ m) =
    push_entry (overlap_entry scopes p agents) (overlaps_of scopes m)

out_of_scope_paths : ImplementationScope → AgentRole → List String → List OutOfScopeEntry
out_of_scope_paths scope agent [] = []
out_of_scope_paths scope agent (p ∷ paths) =
    let rest = out_of_scope_paths scope agent paths in
    if is_in_scope p scope
    then rest
    else record { agent = agent; path = p; expected = scope.expected_paths } ∷ rest

-- With no scope for the agent the loop goes on to the next change set.
scope_entries : Option ImplementationScope → AgentRole → List String → List OutOfScopeEntry
unfolding out_of_scope_paths
scope_entries none agent paths = []
scope_entries (some scope) agent paths = out_of_scope_paths scope agent paths

unfoldable pub out_of_scope_of :
    List ImplementationScope → List WorkerChangeSet → List OutOfScopeEntry
unfolding scope_entries
out_of_scope_of scopes [] = []
out_of_scope_of scopes (cs ∷ change_sets) =
    scope_entries (scope_by_agent scopes cs.agent) cs.agent (all_changed_paths cs)
    ++ out_of_scope_of scopes change_sets

abbrev is_conflicting : OverlapEntry → Bool
is_conflicting o = elim (o.classification) [ conflicting ↦ true | _ ↦ false ]

abbrev is_non_empty {ℓ} : {A : Type ℓ} → List A → Bool
is_non_empty [] = false
is_non_empty (x ∷ xs) = true

unfoldable pub analyze_cross_branch :
    String → List WorkerChangeSet → List ImplementationScope → OverlapReport
analyze_cross_branch task_id change_sets scopes =
    let overlaps = overlaps_of scopes (touched_by change_sets []) in
    let outside = out_of_scope_of scopes change_sets in
    record {
      task_id = task_id;
      overlaps = overlaps;
      out_of_scope = outside;
      has_blocking_issues = any is_conflicting overlaps || is_non_empty outside;
    }
