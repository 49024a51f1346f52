-- ===== src/Planner/Examples.antt =====
-- Two plans: a split feature, and a proposal that is too long.
use muslimrentals.Prelude.{
  ◌≡◌, refl, String, true, false, ◌&&◌, List, [], ◌∷◌, ◌++◌, includes, ltb, some, none, or_default,
  flatten, arith, ◌||◌, string_equality,
}
use muslimrentals.Roles.{
  AgentRole, engineering, frontend, backend, qa, security, designer, trust_safety, legal, support,
  lead, role_equality, role_rank,
}
use muslimrentals.Planner.{
  FounderGateResult, PlanRequest, full, resolve_agents, build_plan, parsed_plan,
  default_max_agents_per_task,
}
use muslimrentals.Planner.Agents.{IsResolved, resolve_agents-IsResolved}
use muslimrentals.Planner.Dependencies.{stage, find_deps}
use muslimrentals.Planner.Plans.{
  build_plan-schedule, build_plan-gate, resolve_agents-drops_security,
}

abbrev closed_gate : String → FounderGateResult
closed_gate objective = record { required = true; reasons = "production deployment" ∷ [] }

abbrev request : PlanRequest
request = record { task_id = "t1"; objective = "Go live"; mode = full; max_agents_per_task = none }

resolve_agents_example :
    resolve_agents none (engineering ∷ lead ∷ frontend ∷ qa ∷ []) ≡ frontend ∷ qa ∷ []
unfolding resolve_agents role_rank
resolve_agents_example = refl

build_plan-schedule_example :
    let plan = build_plan closed_gate request none in
    (includes qa (flatten plan.parallel_groups) ≡ includes qa plan.required_agents)
    × (includes qa plan.required_agents ≡ true
        → (deps : List AgentRole) × (find_deps qa plan.dependencies ≡ some deps)
          × ((r : AgentRole)
              → includes r deps ≡ (includes r plan.required_agents && ltb (stage r) (stage qa))))
build_plan-schedule_example = build_plan-schedule closed_gate request none qa

build_plan-gate_example :
    let verdict = closed_gate request.objective in
    let proposed = (parsed_plan request none).approval_requirements in
    let final = (build_plan closed_gate request none).approval_requirements in
    (verdict.required ≡ true → final.founder_approval_required ≡ true)
    × (proposed.founder_approval_required ≡ true → final.founder_approval_required ≡ true)
    × ((reason : String)
        → includes reason final.reasons
          ≡ (includes reason proposed.reasons || includes reason verdict.reasons))
build_plan-gate_example = build_plan-gate closed_gate request none

resolve_agents-IsResolved_example :
    IsResolved
      (or_default none default_max_agents_per_task)
      (engineering ∷ lead ∷ frontend ∷ [])
      (resolve_agents none (engineering ∷ lead ∷ frontend ∷ []))
resolve_agents-IsResolved_example =
    resolve_agents-IsResolved none (engineering ∷ lead ∷ frontend ∷ [])

abbrev everyone : List AgentRole
everyone = designer ∷ trust_safety ∷ legal ∷ support ∷ engineering ∷ frontend ∷ backend ∷ qa ∷ []

resolve_agents-drops_security_example :
    includes security (resolve_agents (some 8) (everyone ++ security ∷ qa ∷ [])) ≡ false
unfolding role_rank
resolve_agents-drops_security_example =
    resolve_agents-drops_security 8 everyone (security ∷ qa ∷ []) refl (omega arith)
