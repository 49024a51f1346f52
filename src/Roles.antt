-- ===== src/Roles.antt =====
-- orchestrator/src/types/schemas.ts: the roles of the agents.
use muslimrentals.Prelude.{ℕ, ◌≡◌, arith, HasEquality, ranked_equality}

pub data AgentRole : Type 0 where
  supervisor engineering frontend backend qa security : AgentRole
  designer trust_safety legal support integrator lead : AgentRole

unfoldable pub role_rank : AgentRole → ℕ
role_rank supervisor = 0
role_rank engineering = 1
role_rank frontend = 2
role_rank backend = 3
role_rank qa = 4
role_rank security = 5
role_rank designer = 6
role_rank trust_safety = 7
role_rank legal = 8
role_rank support = 9
role_rank integrator = 10
role_rank lead = 11

pub role_rank_injective : (a b : AgentRole) → role_rank a ≡ role_rank b → a ≡ b
unfolding role_rank
role_rank_injective a b h = ground arith

instance abbrev pub role_equality : HasEquality AgentRole
role_equality = ranked_equality role_rank role_rank_injective
