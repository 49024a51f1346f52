-- ===== src/CrossBranch/Overlaps.antt =====
-- The report of `analyzeCrossBranch` (orchestrator/src/supervisor/crossBranchAnalysis.ts).
use mathlib.Core.List.{Memᴰ}
use text.Mathlib.TextEquality.{eq_iff}
use muslimrentals.Prelude.{
  String, ◌≡◌, refl, sym, true, false, List, [], ◌∷◌, ◌++◌, arith, ◌==◌, string_equality, Option,
  none, some, find, includes, includes-append, Option-cases, inl, inr, Bool, not, all, any, length,
  ltb, ◌<◌, ◌≤◌, subst, Bool-cases, if◌then◌else◌,
}
use muslimrentals.Roles.{AgentRole, role_equality}
use muslimrentals.CrossBranch.{
  WorkerChangeSet, ImplementationScope, OverlapEntry, TouchMap, all_changed_paths, overlap_entry,
  overlaps_of, out_of_scope_of, analyze_cross_branch, scope_by_agent, out_of_scope_paths,
  is_in_scope, is_allowed_shared, OverlapClassification, expected_shared, conflicting, suspicious,
}
use muslimrentals.CrossBranch.Touches.{
  agents_for, touches_in, touchers, agents_for-touched_by, has_path, IsDistinct,
  touched_by-IsDistinct,
}

abbrev pub entry_for : String → List OverlapEntry → Option OverlapEntry
entry_for p = find (λ o. o.path == p)

overlap_entry-path :
    (scopes : List ImplementationScope) (p q : String) (agents : List AgentRole)
    → (o : OverlapEntry) → overlap_entry scopes q agents ≡ some o
    → o.path ≡ q
unfolding overlap_entry
overlap_entry-path scopes p q agents o h = ground arith

entry_for-none :
    (scopes : List ImplementationScope) (p : String) (m : TouchMap)
    → has_path p m ≡ false
    → entry_for p (overlaps_of scopes m) ≡ none
unfolding overlaps_of
entry_for-none scopes p [] h = refl
entry_for-none scopes p ((q, agents) ∷ m) h = elim (Option-cases (overlap_entry scopes q agents)) [
  | inl e ↦ rw (e, overlaps_of) (entry_for-none scopes p m (ground arith))
  | inr (o, e) ↦ ground (
    arith,
    overlap_entry-path scopes p q agents o e,
    entry_for-none scopes p m,
    eq_iff o.path p,
    eq_iff q p,
  )
]

overlap_entry-nil :
    (scopes : List ImplementationScope) (p : String) → overlap_entry scopes p [] ≡ none
unfolding overlap_entry
overlap_entry-nil scopes p = refl

entry_for-overlaps_of :
    (scopes : List ImplementationScope) (p : String) (m : TouchMap)
    → IsDistinct m
    → entry_for p (overlaps_of scopes m) ≡ overlap_entry scopes p (agents_for p m)
unfolding overlaps_of
entry_for-overlaps_of scopes p [] h = sym (overlap_entry-nil scopes p)
entry_for-overlaps_of scopes p ((q, agents) ∷ m) h =
    elim (Option-cases (overlap_entry scopes q agents)) [
      | inl e ↦
          ground
            (arith, eq_iff q p, entry_for-none scopes p m, entry_for-overlaps_of scopes p m h.1)
      | inr (o, e) ↦ ground (
        arith,
        overlap_entry-path scopes p q agents o e,
        entry_for-overlaps_of scopes p m h.1,
        eq_iff o.path p,
        eq_iff q p,
      )
    ]

-- The entry of a path is the one that a round of the loop gives for the agents that touched it.
pub entry_for-round :
    (task_id : String) (change_sets : List WorkerChangeSet) (scopes : List ImplementationScope)
    (p : String)
    → entry_for p (analyze_cross_branch task_id change_sets scopes).overlaps
      ≡ overlap_entry scopes p (touchers p change_sets)
unfolding analyze_cross_branch
entry_for-round task_id change_sets scopes p = rw (
  entry_for-overlaps_of scopes p _ (touched_by-IsDistinct change_sets [] tt),
  agents_for-touched_by p change_sets,
)

-- The agent's scope declares the path as shared.
abbrev pub declares : List ImplementationScope → String → AgentRole → Bool
declares scopes p agent = elim (scope_by_agent scopes agent) [
  | none ↦ false
  | some scope ↦ is_allowed_shared p scope
]

-- The agent has a scope, and the path lies outside it.
abbrev pub strays : List ImplementationScope → String → AgentRole → Bool
strays scopes p agent = elim (scope_by_agent scopes agent) [
  | none ↦ false
  | some scope ↦ not (is_in_scope p scope)
]

-- What an overlap is called: expected where all agents declare the path, else conflicting where one
-- of them strays, else suspicious.
pub data IsClassified (scopes : List ImplementationScope) (p : String) (agents : List AgentRole)
    (c : OverlapClassification) : Type 0 where
  shared :
      all (declares scopes p) agents ≡ true → c ≡ expected_shared → IsClassified scopes p agents c
  clashing :
      all (declares scopes p) agents ≡ false
      → any (strays scopes p) agents ≡ true
      → c ≡ conflicting
      → IsClassified scopes p agents c
  unclear :
      all (declares scopes p) agents ≡ false
      → any (strays scopes p) agents ≡ false
      → c ≡ suspicious
      → IsClassified scopes p agents c

pub data IsEntryOf (scopes : List ImplementationScope) (p : String) (agents : List AgentRole)
    (entry : Option OverlapEntry) : Type 0 where
  absent : length agents < 2 → entry ≡ none → IsEntryOf scopes p agents entry
  present :
      2 ≤ length agents
      → (o : OverlapEntry) → entry ≡ some o
      → o.path ≡ p
      → o.agents ≡ agents
      → IsClassified scopes p agents o.classification
      → IsEntryOf scopes p agents entry

classification-IsClassified :
    (scopes : List ImplementationScope) (p : String) (agents : List AgentRole)
    → IsClassified scopes p agents (
        if all (declares scopes p) agents
        then expected_shared
        else if any (strays scopes p) agents
        then conflicting
        else suspicious)
classification-IsClassified scopes p agents = elim (Bool-cases (all (declares scopes p) agents)) [
  | inl every ↦ rw every (shared every refl)
  | inr lacking ↦ elim (Bool-cases (any (strays scopes p) agents)) [
    | inl out ↦ rw (lacking, out) (clashing lacking out refl)
    | inr inside ↦ rw (lacking, inside) (unclear lacking inside refl)
  ]
]

overlap_entry-IsEntryOf :
    (scopes : List ImplementationScope) (p : String) (agents : List AgentRole)
    → IsEntryOf scopes p agents (overlap_entry scopes p agents)
unfolding overlap_entry
overlap_entry-IsEntryOf scopes p agents = elim (Bool-cases (ltb (length agents) 2)) [
  | inl few ↦ rw (overlap_entry, few) (absent (ground (arith, few)) refl)
  | inr many ↦
      rw (overlap_entry, many)
        (present (ground (arith, many)) _ refl refl refl
          (classification-IsClassified scopes p agents))
]

-- A path has an entry in the report exactly if it is touched at least twice, counted once per touch.
-- The entry names those that touched it, in order, and calls the overlap expected where the scope of
-- each of them declares the path as shared, else conflicting where the path lies outside the scope of
-- one of them, and else suspicious.
pub entry_for-analyze :
    (task_id : String) (change_sets : List WorkerChangeSet) (scopes : List ImplementationScope)
    (p : String)
    → IsEntryOf scopes p
        (touchers p change_sets)
        (entry_for p (analyze_cross_branch task_id change_sets scopes).overlaps)
entry_for-analyze task_id change_sets scopes p =
    subst (IsEntryOf scopes p (touchers p change_sets))
      (sym (entry_for-round task_id change_sets scopes p))
      (overlap_entry-IsEntryOf scopes p (touchers p change_sets))

includes-touches_in :
    (p : String) (agent : AgentRole) (paths : List String)
    → includes p paths ≡ true
    → includes agent (touches_in p agent paths) ≡ true
includes-touches_in p agent [] h = cc
includes-touches_in p agent (q ∷ paths) h =
    ground (arith, eq_iff p q, eq_iff q p, includes-touches_in p agent paths)

pub includes-touchers :
    (p : String) (cs : WorkerChangeSet) (change_sets : List WorkerChangeSet)
    → Memᴰ cs change_sets
    → includes p (all_changed_paths cs) ≡ true
    → includes cs.agent (touchers p change_sets) ≡ true
includes-touchers p cs [] m h = elim m [ ]
includes-touchers p cs (c ∷ change_sets) (Memᴰ.head e) h =
    rw includes-append (ground (arith, includes-touches_in p c.agent (all_changed_paths c)))
includes-touchers p cs (c ∷ change_sets) (Memᴰ.tail m) h =
    rw includes-append (ground (arith, includes-touchers p cs change_sets m h))

append-eq-nil {ℓ} : {A : Type ℓ} (xs ys : List A) → xs ++ ys ≡ [] → (xs ≡ []) × (ys ≡ [])
append-eq-nil [] ys h = (refl, h)
append-eq-nil (x ∷ xs) ys h = cc

out_of_scope_paths-empty :
    (s : ImplementationScope) (agent : AgentRole) (p : String) (paths : List String)
    → out_of_scope_paths s agent paths ≡ []
    → includes p paths ≡ true
    → is_in_scope p s ≡ true
unfolding out_of_scope_paths
out_of_scope_paths-empty s agent p [] h i = cc
out_of_scope_paths-empty s agent p (q ∷ paths) h i =
    ground (arith, eq_iff p q, out_of_scope_paths-empty s agent p paths)

out_of_scope-empty :
    (scopes : List ImplementationScope) (change_sets : List WorkerChangeSet) (cs : WorkerChangeSet)
    (s : ImplementationScope) (p : String)
    → out_of_scope_of scopes change_sets ≡ []
    → Memᴰ cs change_sets
    → scope_by_agent scopes cs.agent ≡ some s
    → includes p (all_changed_paths cs) ≡ true
    → is_in_scope p s ≡ true
unfolding out_of_scope_of
out_of_scope-empty scopes [] cs s p h m k i = elim m [ ]
out_of_scope-empty scopes (c ∷ change_sets) cs s p h (Memᴰ.head e) k i =
    let (here, later) = append-eq-nil _ (out_of_scope_of scopes change_sets) h in
    out_of_scope_paths-empty s c.agent p (all_changed_paths c) (ground arith) (ground arith)
out_of_scope-empty scopes (c ∷ change_sets) cs s p h (Memᴰ.tail m) k i =
    let (here, later) = append-eq-nil _ (out_of_scope_of scopes change_sets) h in
    out_of_scope-empty scopes change_sets cs s p later m k i

-- Where the report has no blocking issue, every path that a change set with a scope lists lies in
-- that scope.
pub unblocked-in_scope :
    (task_id : String) (change_sets : List WorkerChangeSet) (scopes : List ImplementationScope)
    (cs : WorkerChangeSet) (s : ImplementationScope) (p : String)
    → (analyze_cross_branch task_id change_sets scopes).has_blocking_issues ≡ false
    → Memᴰ cs change_sets
    → scope_by_agent scopes cs.agent ≡ some s
    → includes p (all_changed_paths cs) ≡ true
    → is_in_scope p s ≡ true
unfolding analyze_cross_branch
unblocked-in_scope task_id change_sets scopes cs s p h m k i =
    out_of_scope-empty scopes change_sets cs s p (ground arith) m k i
