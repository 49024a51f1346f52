-- ===== src/Planner/Agents.antt =====
-- The agents, scopes and gate of the plan of `buildPlan` (orchestrator/src/supervisor/planner.ts).
use muslimrentals.Prelude.{
  ℕ, ◌≤◌, ◌≡◌, Bool, true, false, not, List, includes, filter, take, length, arith, ltb,
  includes-filter, includes-take, length-take-le, length-filter-le, Option, or_default,
  string_equality, ◌==◌, if◌then◌else◌, same_refl,
}
use muslimrentals.Roles.{AgentRole, engineering, frontend, backend, role_equality}
use muslimrentals.Planner.{
  resolve_agents, drop_redundant, clamp_agents, is_worker, default_max_agents_per_task,
}

-- What a resolved list of agents satisfies.
pub record IsResolved (max : ℕ) (proposed agents : List AgentRole) : Type 0 where
  pub bounded : length agents ≤ max
  pub proposed_only : (r : AgentRole) → includes r agents ≡ true → includes r proposed ≡ true
  pub workers_only : (r : AgentRole) → includes r agents ≡ true → is_worker r ≡ true
  pub one_strategy :
      includes engineering agents ≡ true
      → (includes frontend agents ≡ false) × (includes backend agents ≡ false)

pub includes-drop_redundant :
    (r : AgentRole) (agents : List AgentRole)
    → includes r (drop_redundant agents) ≡ true
    → includes r agents ≡ true
unfolding drop_redundant
includes-drop_redundant r agents h =
    ground (arith, includes-filter (λ x. not (x == engineering)) r agents)

drop_redundant-one_strategy :
    (agents : List AgentRole)
    → includes engineering (drop_redundant agents) ≡ true
    → (includes frontend (drop_redundant agents) ≡ false)
      × (includes backend (drop_redundant agents) ≡ false)
unfolding drop_redundant
drop_redundant-one_strategy agents h =
    ground (
      arith,
      includes-filter (λ x. not (x == engineering)) engineering agents,
      same_refl engineering,
    )

length-drop_redundant : (agents : List AgentRole) → length (drop_redundant agents) ≤ length agents
unfolding drop_redundant
length-drop_redundant agents = ground (arith, length-filter-le (λ x. not (x == engineering)) agents)

clamp_agents_lem :
    (max : ℕ) (agents : List AgentRole)
    → (length (clamp_agents max agents) ≤ max)
      × ((r : AgentRole) → includes r (clamp_agents max agents) ≡ true → includes r agents ≡ true)
unfolding clamp_agents
clamp_agents_lem max agents =
    (ground (arith, length-take-le max agents), λ r h. clamp_includes r (ltb max (length agents)) h)
  where
    clamp_includes :
        (r : AgentRole) (cut : Bool)
        → includes r (if cut then take max agents else agents) ≡ true
        → includes r agents ≡ true
    clamp_includes r true h = includes-take max r agents h
    clamp_includes r false h = h

-- The agents that remain are workers that were proposed, at most as many as allowed, and never
-- `engineering` beside `frontend` or `backend`.
pub resolve_agents-IsResolved :
    (max : Option ℕ) (proposed : List AgentRole)
    → IsResolved (or_default max default_max_agents_per_task) proposed (resolve_agents max proposed)
unfolding resolve_agents
resolve_agents-IsResolved max proposed =
    let limit : ℕ = or_default max default_max_agents_per_task in
    let clamped = clamp_agents limit proposed in
    let workers = filter is_worker clamped in
    let (short, kept) = clamp_agents_lem limit proposed in
    record {
      bounded =
          omega (arith, short, length-drop_redundant workers, length-filter-le is_worker clamped);
      proposed_only = λ r h. kept r (
          ground (arith, includes-drop_redundant r workers h, includes-filter is_worker r clamped));
      workers_only = λ r h.
          ground (arith, includes-drop_redundant r workers h, includes-filter is_worker r clamped);
      one_strategy = λ h. drop_redundant-one_strategy workers h;
    }
