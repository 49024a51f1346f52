-- ===== src/Planner/Dependencies.antt =====
-- The dependencies of `canonicalDependencies` (orchestrator/src/supervisor/planner.ts) over the
-- groups of `canonicalGrouping`.
use muslimrentals.Prelude.{
  ℕ, ◌≡◌, refl, ◌∙◌, true, ◌&&◌, List, [], ◌∷◌, ◌++◌, includes, arith, includes-append, flatten,
  append-nil, append_assoc, Option, none, some, if◌then◌else◌, ◌==◌, ltb, ◌≤◌, eqb,
}
use muslimrentals.Roles.{
  AgentRole, supervisor, engineering, frontend, backend, qa, security, designer, trust_safety,
  legal, support, integrator, lead, role_equality, role_rank,
}
use muslimrentals.Planner.{
  Dependencies, assign, assign_all, dependencies_from, canonical_dependencies, canonical_grouping,
  push_group, bucket, bucketed, leftover, group_1_specialists, group_2_implementers,
  group_3_reviewers,
}
use muslimrentals.Planner.Grouping.{
  flatten-push_group, includes-bucket, includes-bucketed, includes-leftover,
}

-- `deps[role]`.
abbrev pub find_deps : AgentRole → Dependencies → Option (List AgentRole)
find_deps role [] = none
find_deps role ((r, roles) ∷ deps) = if r == role then some roles else find_deps role deps

find_deps-assign :
    (s r : AgentRole) (roles : List AgentRole) (deps : Dependencies)
    → find_deps s (assign r roles deps) ≡ (if r == s then some roles else find_deps s deps)
unfolding assign
find_deps-assign s r roles [] = refl
find_deps-assign s r roles ((q, old) ∷ deps) = ground (
  arith,
  find_deps-assign s r roles deps,
  role_equality.same_iff q r,
  role_equality.same_iff q s,
  role_equality.same_iff r s,
)

find_deps-assign_all :
    (s : AgentRole) (group roles : List AgentRole) (deps : Dependencies)
    → find_deps s (assign_all group roles deps)
      ≡ (if includes s group then some roles else find_deps s deps)
unfolding assign_all
find_deps-assign_all s [] roles deps = refl
find_deps-assign_all s (r ∷ group) roles deps = ground (
  arith,
  find_deps-assign_all s group roles (assign r roles deps),
  find_deps-assign s r roles deps,
  role_equality.same_iff s r,
  role_equality.same_iff r s,
)

dependencies_from-concat :
    (groups : List (List AgentRole)) (group previous : List AgentRole) (deps : Dependencies)
    → dependencies_from (groups ++ group ∷ []) previous deps
      ≡ assign_all group (previous ++ flatten groups) (dependencies_from groups previous deps)
unfolding dependencies_from
dependencies_from-concat [] group previous deps = rw append-nil
dependencies_from-concat (g ∷ groups) group previous deps = rw (
  dependencies_from-concat groups group (previous ++ g) (assign_all g previous deps),
  append_assoc previous g (flatten groups),
)

dependencies_from-push_group :
    (groups : List (List AgentRole)) (group previous : List AgentRole) (deps : Dependencies)
    → dependencies_from (push_group groups group) previous deps
      ≡ assign_all group (previous ++ flatten groups) (dependencies_from groups previous deps)
unfolding assign_all
dependencies_from-push_group groups [] previous deps = refl
dependencies_from-push_group groups (r ∷ rs) previous deps =
    dependencies_from-concat groups (r ∷ rs) previous deps

-- The dependencies over four groups: a role of a later group is assigned later.
find_deps-groups :
    (s : AgentRole) (g1 g2 g3 g4 : List AgentRole)
    → find_deps s
        (dependencies_from (push_group (push_group (push_group (push_group [] g1) g2) g3) g4) [] [])
      ≡ (if includes s g4
          then some (g1 ++ (g2 ++ g3))
          else if includes s g3
          then some (g1 ++ g2)
          else if includes s g2
          then some g1
          else if includes s g1
          then some []
          else none)
unfolding dependencies_from
find_deps-groups s g1 g2 g3 g4 =
    simp (dependencies_from-push_group, find_deps-assign_all, flatten-push_group, append_assoc)

find_deps-canonical :
    (s : AgentRole) (agents : List AgentRole)
    → find_deps s (canonical_dependencies (canonical_grouping agents)) ≡ (
        if includes s (leftover agents)
        then some (bucketed agents)
        else if includes s (bucket group_3_reviewers agents)
        then some (bucket group_1_specialists agents ++ bucket group_2_implementers agents)
        else if includes s (bucket group_2_implementers agents)
        then some (bucket group_1_specialists agents)
        else if includes s (bucket group_1_specialists agents)
        then some []
        else none)
unfolding canonical_dependencies canonical_grouping bucketed
find_deps-canonical s agents =
    find_deps-groups s (bucket group_1_specialists agents) (bucket group_2_implementers agents)
      (bucket group_3_reviewers agents) (leftover agents)

-- The stage at which a role works: specialists, implementers, reviewers, and all others.
unfoldable pub stage : AgentRole → ℕ
stage designer = 1
stage trust_safety = 1
stage legal = 1
stage support = 1
stage engineering = 2
stage frontend = 2
stage backend = 2
stage qa = 3
stage security = 3
stage supervisor = 4
stage integrator = 4
stage lead = 4

-- The buckets by their stage.
bucket_stages :
    (r : AgentRole)
    → (includes r group_1_specialists ≡ eqb (stage r) 1)
      × (includes r group_2_implementers ≡ eqb (stage r) 2)
      × (includes r group_3_reviewers ≡ eqb (stage r) 3)
unfolding stage role_rank group_1_specialists group_2_implementers group_3_reviewers
bucket_stages supervisor = (refl, refl, refl)
bucket_stages _ = (refl, refl, refl)

stage_bounds : (r : AgentRole) → (1 ≤ stage r) × (stage r ≤ 4)
unfolding stage
stage_bounds supervisor = omega arith
stage_bounds _ = omega arith

-- The agents of the plan that work before a stage.
earlier : List AgentRole → ℕ → List AgentRole
earlier agents n =
    if eqb n 4
    then bucketed agents
    else if eqb n 3
    then bucket group_1_specialists agents ++ bucket group_2_implementers agents
    else if eqb n 2
    then bucket group_1_specialists agents
    else []

find_deps-earlier :
    (agents : List AgentRole) (s : AgentRole)
    → includes s agents ≡ true
    → find_deps s (canonical_dependencies (canonical_grouping agents))
      ≡ some (earlier agents (stage s))
unfolding earlier
find_deps-earlier agents s h =
    find_deps-canonical s agents
    ∙ ground (
      arith,
      includes-leftover agents s,
      includes-bucketed agents s,
      includes-bucket group_1_specialists agents s,
      includes-bucket group_2_implementers agents s,
      includes-bucket group_3_reviewers agents s,
      bucket_stages s,
      stage_bounds s,
    )

includes-earlier :
    (agents : List AgentRole) (r : AgentRole) (n : ℕ)
    → 1 ≤ n
    → n ≤ 4
    → includes r (earlier agents n) ≡ (includes r agents && ltb (stage r) n)
unfolding earlier
includes-earlier agents r n h k = ground (
  arith,
  includes-bucketed agents r,
  includes-append r (bucket group_1_specialists agents) (bucket group_2_implementers agents),
  includes-bucket group_1_specialists agents r,
  includes-bucket group_2_implementers agents r,
  bucket_stages r,
  stage_bounds r,
)

-- An agent of the plan waits for exactly the agents of the plan that work at an earlier stage.
pub deps-stage :
    (agents : List AgentRole) (s : AgentRole)
    → includes s agents ≡ true
    → (deps : List AgentRole) × (find_deps s (canonical_dependencies (canonical_grouping agents))
        ≡ some deps)
      × ((r : AgentRole) → includes r deps ≡ (includes r agents && ltb (stage r) (stage s)))
deps-stage agents s h =
    let (low, high) = stage_bounds s in
    (
      earlier agents (stage s),
      find_deps-earlier agents s h,
      λ r. includes-earlier agents r (stage s) low high,
    )
