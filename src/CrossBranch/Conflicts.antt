-- ===== src/CrossBranch/Conflicts.antt =====
-- What `analyzeCrossBranch` (orchestrator/src/supervisor/crossBranchAnalysis.ts) says under the
-- default scopes.
use mathlib.Core.List.{Memᴰ}
use muslimrentals.Prelude.{
  ◌≤◌, String, ◌≡◌, refl, Bool, true, false, not, List, [], ◌∷◌, arith, if◌then◌else◌,
  string_equality, ◌∙◌, ap, none, some, any, all, includes, length, Bool-cases, inl, inr,
  any_of_includes, all_of_includes, length_of_two,
}
use muslimrentals.Roles.{AgentRole, frontend, backend, role_equality, role_rank}
use muslimrentals.CrossBranch.{
  WorkerChangeSet, ImplementationScope, OverlapEntry, conflicting, all_changed_paths, overlap_entry,
  analyze_cross_branch, is_conflicting, scope_by_agent, default_scopes, default_scope_for,
  is_allowed_shared, is_in_scope, test_scope,
}
use muslimrentals.CrossBranch.Glob.{default_scopes_disjoint}
use muslimrentals.CrossBranch.Touches.{touchers}
use muslimrentals.CrossBranch.Overlaps.{entry_for, entry_for-round, includes-touchers}

default_scope_for-agent : (r : AgentRole) → (default_scope_for r).agent ≡ r
unfolding default_scope_for
default_scope_for-agent r = refl

pub scope_by_agent-default_scopes :
    (agents : List AgentRole) (r : AgentRole)
    → scope_by_agent (default_scopes agents) r
      ≡ (if includes r agents then some (default_scope_for r) else none)
unfolding scope_by_agent default_scopes
scope_by_agent-default_scopes [] r = refl
scope_by_agent-default_scopes (a ∷ agents) r = ground (
  arith,
  scope_by_agent-default_scopes agents r,
  default_scope_for-agent a,
  role_equality.same_iff a r,
  role_equality.same_iff r a,
)

default_shared : (p : String) (r : AgentRole) → is_allowed_shared p (default_scope_for r) ≡ false
unfolding is_allowed_shared default_scope_for
default_shared p r = refl

test_default_scope :
    (roles : List AgentRole) (q : ImplementationScope → Bool) (r : AgentRole)
    → includes r roles ≡ true
    → test_scope q (scope_by_agent (default_scopes roles) r) ≡ q (default_scope_for r)
test_default_scope roles q r h = rw (scope_by_agent-default_scopes roles r, h)

abbrev outside_default : List AgentRole → String → AgentRole → Bool
outside_default roles p a =
    test_scope (λ s. not (is_in_scope p s)) (scope_by_agent (default_scopes roles) a)

abbrev shared_default : List AgentRole → String → AgentRole → Bool
shared_default roles p a =
    test_scope (is_allowed_shared p) (scope_by_agent (default_scopes roles) a)

-- The scopes of a plan in which both roles take part.
module _ (roles : List AgentRole) (with_front : includes frontend roles ≡ true)
    (with_back : includes backend roles ≡ true) where
  front_back-outside :
      (p : String) (agents : List AgentRole)
      → includes frontend agents ≡ true
      → includes backend agents ≡ true
      → any (outside_default roles p) agents ≡ true
  front_back-outside p agents f b = elim (Bool-cases (is_in_scope p (default_scope_for frontend))) [
    | inl inside ↦ any_of_includes (outside_default roles p) backend agents b (
        test_default_scope roles (λ s. not (is_in_scope p s)) backend with_back
        ∙ ap not (default_scopes_disjoint p inside))
    | inr outside ↦
        any_of_includes (outside_default roles p) frontend agents f (
          test_default_scope roles (λ s. not (is_in_scope p s)) frontend with_front
          ∙ ap not outside)
  ]

  front_back-entry :
      (p : String) (agents : List AgentRole)
      → includes frontend agents ≡ true
      → includes backend agents ≡ true
      → overlap_entry (default_scopes roles) p agents
        ≡ some (record { path = p; agents = agents; classification = conflicting })
  unfolding overlap_entry role_rank
  front_back-entry p agents f b =
      let undeclared : all (shared_default roles p) agents ≡ false =
        all_of_includes (shared_default roles p) frontend agents f (
          test_default_scope roles (is_allowed_shared p) frontend with_front
          ∙ default_shared p frontend) in
      let outside = front_back-outside p agents f b in
      let two : 2 ≤ length agents = length_of_two frontend backend agents refl f b in
      rw (undeclared, outside) (ground arith)

any_of_entry :
    (p : String) (o : OverlapEntry) (os : List OverlapEntry)
    → entry_for p os ≡ some o
    → is_conflicting o ≡ true
    → any is_conflicting os ≡ true
any_of_entry p o [] h k = cc
any_of_entry p o (x ∷ os) h k = ground (arith, any_of_entry p o os)

entry-blocks :
    (task_id : String) (change_sets : List WorkerChangeSet) (scopes : List ImplementationScope)
    (p : String) (o : OverlapEntry)
    → entry_for p (analyze_cross_branch task_id change_sets scopes).overlaps ≡ some o
    → is_conflicting o ≡ true
    → (analyze_cross_branch task_id change_sets scopes).has_blocking_issues ≡ true
unfolding analyze_cross_branch
entry-blocks task_id change_sets scopes p o e k = rw (any_of_entry p o _ e k)

-- Under the default scopes of a plan with both roles, a path that a frontend worker and a backend
-- worker both changed is reported as conflicting, with all that touched it, and blocks.
pub front_back-conflicting :
    (task_id : String) (change_sets : List WorkerChangeSet) (roles : List AgentRole)
    (front back : WorkerChangeSet) (p : String)
    → includes frontend roles ≡ true
    → includes backend roles ≡ true
    → front.agent ≡ frontend
    → back.agent ≡ backend
    → Memᴰ front change_sets
    → Memᴰ back change_sets
    → includes p (all_changed_paths front) ≡ true
    → includes p (all_changed_paths back) ≡ true
    → let report = analyze_cross_branch task_id change_sets (default_scopes roles) in
      (entry_for p report.overlaps
        ≡ some (record { path = p; agents = touchers p change_sets; classification = conflicting }))
      × (report.has_blocking_issues ≡ true)
front_back-conflicting task_id change_sets roles front back p wf wb ef eb mf mb cf cb =
    let tf = rw ef at (includes-touchers p front change_sets mf cf) in
    let tb = rw eb at (includes-touchers p back change_sets mb cb) in
    let entry =
      entry_for-round task_id change_sets (default_scopes roles) p
      ∙ front_back-entry roles wf wb p (touchers p change_sets) tf tb in
    (entry, entry-blocks task_id change_sets (default_scopes roles) p _ entry refl)
