-- ===== src/Planner/Grouping.antt =====
-- The groups of `canonicalGrouping` (orchestrator/src/supervisor/planner.ts).
use muslimrentals.Prelude.{
  ◌≡◌, sym, not, ◌&&◌, ◌||◌, List, [], ◌∷◌, ◌++◌, includes, arith, includes-append, includes-filter,
  flatten, flatten-concat, append-nil, All, All-append,
}
use muslimrentals.Roles.{AgentRole, role_equality}
use muslimrentals.Planner.{
  canonical_grouping, push_group, bucket, bucketed, leftover, group_1_specialists,
  group_2_implementers, group_3_reviewers,
}

pub flatten-push_group :
    (groups : List (List AgentRole)) (group : List AgentRole)
    → flatten (push_group groups group) ≡ flatten groups ++ group
flatten-push_group groups [] = sym (append-nil _)
flatten-push_group groups (r ∷ rs) = flatten-concat groups (r ∷ rs)

pub includes-bucket :
    (roles agents : List AgentRole) (r : AgentRole)
    → includes r (bucket roles agents) ≡ (includes r agents && includes r roles)
unfolding bucket
includes-bucket roles agents r = includes-filter (λ r. includes r agents) r roles

pub includes-bucketed :
    (agents : List AgentRole) (r : AgentRole)
    → includes r (bucketed agents) ≡ (
        includes r agents
        && (includes r group_1_specialists
            || (includes r group_2_implementers || includes r group_3_reviewers)))
unfolding bucketed
includes-bucketed agents r = ground (
  arith,
  includes-append r (bucket group_1_specialists agents)
      (bucket group_2_implementers agents ++ bucket group_3_reviewers agents),
  includes-append r (bucket group_2_implementers agents) (bucket group_3_reviewers agents),
  includes-bucket group_1_specialists agents r,
  includes-bucket group_2_implementers agents r,
  includes-bucket group_3_reviewers agents r,
)

pub includes-leftover :
    (agents : List AgentRole) (r : AgentRole)
    → includes r (leftover agents) ≡ (not (includes r (bucketed agents)) && includes r agents)
unfolding leftover
includes-leftover agents r = includes-filter (λ x. not (includes x (bucketed agents))) r agents

flatten-canonical_grouping :
    (agents : List AgentRole)
    → flatten (canonical_grouping agents)
      ≡ ((bucket group_1_specialists agents ++ bucket group_2_implementers agents)
          ++ bucket group_3_reviewers agents)
        ++ leftover agents
unfolding canonical_grouping
flatten-canonical_grouping agents =
    rw (flatten-push_group, flatten-push_group, flatten-push_group, flatten-push_group)

-- The groups hold exactly the agents of the plan.
pub includes-canonical_grouping :
    (r : AgentRole) (agents : List AgentRole)
    → includes r (flatten (canonical_grouping agents)) ≡ includes r agents
includes-canonical_grouping r agents =
    rw (flatten-canonical_grouping, includes-append, includes-append, includes-append)
      (ground (
        arith,
        includes-leftover agents r,
        includes-bucketed agents r,
        includes-bucket group_1_specialists agents r,
        includes-bucket group_2_implementers agents r,
        includes-bucket group_3_reviewers agents r,
      ))

abbrev pub IsNonEmpty : List AgentRole → Type 0
IsNonEmpty [] = ⊥
IsNonEmpty (r ∷ rs) = Unit

push_group-IsNonEmpty :
    (groups : List (List AgentRole)) (group : List AgentRole)
    → All IsNonEmpty groups
    → All IsNonEmpty (push_group groups group)
push_group-IsNonEmpty groups [] h = h
push_group-IsNonEmpty groups (r ∷ rs) h = All-append IsNonEmpty groups ((r ∷ rs) ∷ []) h (tt, tt)

-- No group is empty.
pub canonical_grouping-IsNonEmpty :
    (agents : List AgentRole) → All IsNonEmpty (canonical_grouping agents)
unfolding canonical_grouping
canonical_grouping-IsNonEmpty agents = push_group-IsNonEmpty _ (leftover agents) (
    push_group-IsNonEmpty _ (bucket group_3_reviewers agents) (
      push_group-IsNonEmpty _ (bucket group_2_implementers agents)
        (push_group-IsNonEmpty [] (bucket group_1_specialists agents) tt)))
