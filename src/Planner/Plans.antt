-- ===== src/Planner/Plans.antt =====
-- The whole plan of `buildPlan` (orchestrator/src/supervisor/planner.ts).
use muslimrentals.Prelude.{
  ℕ, zero, suc, ◌≤◌, ◌≡◌, refl, ◌∙◌, String, true, false, ◌&&◌, ◌||◌, List, [], ◌∷◌, ◌++◌, includes,
  filter, take, length, arith, ltb, includes-append, includes-filter, includes-take,
  includes-unique, flatten, Option, none, some, string_equality, if◌then◌else◌, sym, Bool-cases,
  inl, inr,
}
use muslimrentals.Roles.{AgentRole, security, role_equality}
use muslimrentals.CrossBranch.{default_scope_for, scope_by_agent}
use muslimrentals.CrossBranch.Conflicts.{scope_by_agent-default_scopes}
use muslimrentals.Planner.{
  FounderGateResult, PlanRequest, SupervisorPlan, resolve_agents, build_plan, parsed_plan,
  group_2_implementers, clamp_agents, is_worker,
}
use muslimrentals.Planner.Grouping.{includes-canonical_grouping}
use muslimrentals.Planner.Agents.{includes-drop_redundant}
use muslimrentals.Planner.Dependencies.{stage, find_deps, deps-stage}

module _ (gate : String → FounderGateResult) (req : PlanRequest)
    (parsed : Option SupervisorPlan) where
  -- Whatever the model proposed, each agent of the plan stands in a group, no other agent does, and
  -- an agent waits for exactly those agents of the plan that work at an earlier stage.
  pub build_plan-schedule :
      (s : AgentRole)
      → let plan = build_plan gate req parsed in
        (includes s (flatten plan.parallel_groups) ≡ includes s plan.required_agents)
        × (includes s plan.required_agents ≡ true
            → (deps : List AgentRole) × (find_deps s plan.dependencies ≡ some deps)
              × ((r : AgentRole)
                  → includes r deps ≡ (includes r plan.required_agents && ltb (stage r) (stage s))))
  unfolding build_plan
  build_plan-schedule s =
      let agents =
        resolve_agents req.max_agents_per_task (parsed_plan req parsed).required_agents in
      (includes-canonical_grouping s agents, deps-stage agents s)

  -- Each implementer of the plan has its default scope, and no other agent has one.
  pub build_plan-scopes :
      (r : AgentRole)
      → let plan = build_plan gate req parsed in
        scope_by_agent plan.implementation_scopes r ≡ (
          if includes r group_2_implementers && includes r plan.required_agents
          then some (default_scope_for r)
          else none)
  unfolding build_plan
  build_plan-scopes r =
      let agents =
        resolve_agents req.max_agents_per_task (parsed_plan req parsed).required_agents in
      rw (
        scope_by_agent-default_scopes,
        includes-filter (λ x. includes x group_2_implementers) r agents,
      )

  -- Neither the gate's verdict nor the model's is lost, and every reason of either is kept.
  pub build_plan-gate :
      let verdict = gate req.objective in
      let proposed = (parsed_plan req parsed).approval_requirements in
      let final = (build_plan gate req parsed).approval_requirements in
      (verdict.required ≡ true → final.founder_approval_required ≡ true)
      × (proposed.founder_approval_required ≡ true → final.founder_approval_required ≡ true)
      × ((reason : String)
          → includes reason final.reasons
            ≡ (includes reason proposed.reasons || includes reason verdict.reasons))
  unfolding build_plan
  build_plan-gate = (
    λ h. ground arith,
    λ h. ground arith,
    λ reason. includes-unique reason _ ∙ includes-append reason _ _,
  )

take-append {ℓ} :
    {A : Type ℓ} (n : ℕ) (xs ys : List A) → n ≤ length xs → take n (xs ++ ys) ≡ take n xs
take-append zero xs ys h = refl
take-append (suc n) [] ys h = elim h [ ]
take-append (suc n) (x ∷ xs) ys h = rw (take-append n xs ys (omega arith))

take-all {ℓ} : {A : Type ℓ} (n : ℕ) (xs : List A) → length xs ≤ n → take n xs ≡ xs
take-all zero [] h = refl
take-all zero (x ∷ xs) h = absurd (omega (arith, h))
take-all (suc n) [] h = refl
take-all (suc n) (x ∷ xs) h = rw (take-all n xs (omega (arith, h))) refl

clamp_agents-concat :
    (max : ℕ) (agents rest : List AgentRole)
    → max ≤ length agents
    → clamp_agents max (agents ++ rest) ≡ take max agents
unfolding clamp_agents
clamp_agents-concat max agents rest h = elim (Bool-cases (ltb max (length (agents ++ rest)))) [
  | inl more ↦ rw more (take-append max agents rest h)
  | inr all_kept ↦ rw all_kept (
      sym (take-all max (agents ++ rest) (ground (arith, all_kept)))
      ∙ take-append max agents rest h)
]

-- The clamp comes first, so that a plan which names `security` only behind as many agents as the
-- limit allows is left without it, whatever the agents before it and behind it are.
pub resolve_agents-drops_security :
    (max : ℕ) (proposed rest : List AgentRole)
    → includes security proposed ≡ false
    → max ≤ length proposed
    → includes security (resolve_agents (some max) (proposed ++ rest)) ≡ false
unfolding resolve_agents
resolve_agents-drops_security max proposed rest absent long =
    let kept = take max proposed in
    rw (clamp_agents-concat max proposed rest long) (
      ground (
        arith,
        includes-drop_redundant security (filter is_worker kept),
        includes-filter is_worker security kept,
        includes-take max security proposed,
      ))
