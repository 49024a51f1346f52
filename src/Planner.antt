-- ===== src/Planner.antt =====
-- orchestrator/src/supervisor/planner.ts: from the model's proposal to the plan that is executed.
-- The log calls are left out. The answer of the model, once it is parsed, is an argument; so is the
-- deterministic founder gate, which FounderGate.antt models.
pub mod Grouping
pub mod Dependencies
pub mod Agents
pub mod Plans
mod Examples
use muslimrentals.Prelude.{
  ℕ, String, Bool, true, false, not, ◌&&◌, ◌||◌, Option, none, some, List, [], ◌∷◌, ◌++◌, ltb,
  if◌then◌else◌, or_default, length, take, filter, includes, ◌==◌, unique, string_equality,
}
use muslimrentals.Roles.{
  AgentRole, supervisor, engineering, frontend, backend, qa, security, designer, trust_safety,
  legal, support, integrator, lead, role_equality,
}
use muslimrentals.CrossBranch.{ImplementationScope, default_scopes}

abbrev pub Dependencies : Type 0
Dependencies = List (AgentRole × List AgentRole)

pub record ApprovalRequirements : Type 0 where
  pub founder_approval_required : Bool
  pub reasons : List String

pub record SupervisorPlan : Type 0 where
  pub task_id : String
  pub objective : String
  pub required_agents : List AgentRole
  pub dependencies : Dependencies
  pub parallel_groups : List (List AgentRole)
  pub implementation_scopes : List ImplementationScope
  pub approval_requirements : ApprovalRequirements
  pub expected_artifacts : List String
  pub risk_notes : List String

pub data Mode : Type 0 where
  dry_run full : Mode

pub record PlanRequest : Type 0 where
  pub task_id : String
  pub objective : String
  pub mode : Mode
  pub max_agents_per_task : Option ℕ

pub record FounderGateResult : Type 0 where
  pub required : Bool
  pub reasons : List String

abbrev pub default_max_agents_per_task : ℕ
default_max_agents_per_task = 8

unfoldable pub group_1_specialists : List AgentRole
group_1_specialists = designer ∷ trust_safety ∷ legal ∷ support ∷ []

unfoldable pub group_2_implementers : List AgentRole
group_2_implementers = engineering ∷ frontend ∷ backend ∷ []

unfoldable pub group_3_reviewers : List AgentRole
group_3_reviewers = qa ∷ security ∷ []

-- `if (group.length) groups.push(group)`.
abbrev pub push_group : List (List AgentRole) → List AgentRole → List (List AgentRole)
push_group groups [] = groups
push_group groups (r ∷ rs) = groups ++ (r ∷ rs) ∷ []

-- The members of a bucket that the plan asks for.
unfoldable pub bucket : List AgentRole → List AgentRole → List AgentRole
bucket roles required_agents = filter (λ r. includes r required_agents) roles

unfoldable pub bucketed : List AgentRole → List AgentRole
bucketed required_agents =
    bucket group_1_specialists required_agents
    ++ (bucket group_2_implementers required_agents ++ bucket group_3_reviewers required_agents)

unfoldable pub leftover : List AgentRole → List AgentRole
leftover required_agents = filter (λ r. not (includes r (bucketed required_agents))) required_agents

unfoldable pub canonical_grouping : List AgentRole → List (List AgentRole)
canonical_grouping required_agents =
    let groups_1 = push_group [] (bucket group_1_specialists required_agents) in
    let groups_2 = push_group groups_1 (bucket group_2_implementers required_agents) in
    let groups_3 = push_group groups_2 (bucket group_3_reviewers required_agents) in
    push_group groups_3 (leftover required_agents)

-- `deps[role] = roles`.
unfoldable pub assign : AgentRole → List AgentRole → Dependencies → Dependencies
assign role roles [] = (role, roles) ∷ []
assign role roles ((r, old) ∷ deps) =
    if r == role then (r, roles) ∷ deps else (r, old) ∷ assign role roles deps

unfoldable pub assign_all : List AgentRole → List AgentRole → Dependencies → Dependencies
assign_all [] roles deps = deps
assign_all (role ∷ group) roles deps = assign_all group roles (assign role roles deps)

unfoldable pub dependencies_from :
    List (List AgentRole) → List AgentRole → Dependencies → Dependencies
dependencies_from [] previous deps = deps
dependencies_from (group ∷ groups) previous deps =
    dependencies_from groups (previous ++ group) (assign_all group previous deps)

unfoldable pub canonical_dependencies : List (List AgentRole) → Dependencies
canonical_dependencies groups = dependencies_from groups [] []

-- The plan used where the model's answer does not fit the schema.
fallback_plan : PlanRequest → SupervisorPlan
fallback_plan req = record {
  task_id = req.task_id;
  objective = req.objective;
  required_agents = designer ∷ trust_safety ∷ legal ∷ engineering ∷ qa ∷ security ∷ [];
  dependencies = [];
  parallel_groups =
      (designer ∷ trust_safety ∷ legal ∷ []) ∷ (engineering ∷ []) ∷ (qa ∷ security ∷ []) ∷ [];
  implementation_scopes = [];
  approval_requirements = record { founder_approval_required = false; reasons = [] };
  expected_artifacts = [];
  risk_notes = "Supervisor plan failed schema validation — used a conservative default plan." ∷ [];
}

-- The plan parsed with the request's own task and objective, or the fallback.
unfoldable pub parsed_plan : PlanRequest → Option SupervisorPlan → SupervisorPlan
unfolding fallback_plan
parsed_plan req none = fallback_plan req
parsed_plan req (some plan) = record plan { task_id = req.task_id; objective = req.objective }

abbrev pub is_worker : AgentRole → Bool
is_worker r = not (r == supervisor) && (not (r == integrator) && not (r == lead))

pub drop_redundant : List AgentRole → List AgentRole
drop_redundant agents =
    if includes engineering agents && (includes frontend agents || includes backend agents)
    then filter (λ r. not (r == engineering)) agents
    else agents

pub clamp_agents : ℕ → List AgentRole → List AgentRole
clamp_agents max_agents agents =
    if ltb max_agents (length agents) then take max_agents agents else agents

-- The clamp, the removal of the orchestrator's own roles, and of a redundant `engineering`.
unfoldable pub resolve_agents : Option ℕ → List AgentRole → List AgentRole
unfolding drop_redundant clamp_agents
resolve_agents max_agents_per_task agents =
    let max_agents = or_default max_agents_per_task default_max_agents_per_task in
    drop_redundant (filter is_worker (clamp_agents max_agents agents))

abbrev dry_run_note : Mode → List String → List String
dry_run_note dry_run notes =
    notes ++ "DRY RUN — planning/analysis only, no implementation will occur." ∷ []
dry_run_note full notes = notes

unfoldable pub build_plan :
    (String → FounderGateResult) → PlanRequest → Option SupervisorPlan → SupervisorPlan
unfolding parsed_plan
build_plan gate req parsed =
    let plan = parsed_plan req parsed in
    let agents = resolve_agents req.max_agents_per_task plan.required_agents in
    let groups = canonical_grouping agents in
    let verdict = gate req.objective in
    record plan {
      required_agents = agents;
      parallel_groups = groups;
      dependencies = canonical_dependencies groups;
      implementation_scopes = default_scopes (filter (λ r. includes r group_2_implementers) agents);
      approval_requirements = record {
        founder_approval_required =
            plan.approval_requirements.founder_approval_required || verdict.required;
        reasons = unique (plan.approval_requirements.reasons ++ verdict.reasons);
      };
      risk_notes = dry_run_note req.mode plan.risk_notes;
    }
