-- ===== src/Agents/Permissions.antt =====
-- What the profiles of orchestrator/src/agents/registry.ts grant.
use muslimrentals.Prelude.{◌≡◌, true, false, ◌&&◌, ◌||◌, includes, ◌==◌, string_equality, arith}
use muslimrentals.Roles.{AgentRole, role_rank, role_equality, integrator}
use muslimrentals.Agents.{get_profile, is_implementer_role, is_reviewer_role}

-- What a role is granted, and what it is kept from.
pub record IsSeparated (role : AgentRole) : Type 0 where
  pub writes : includes "Write" (get_profile role).tools ≡ is_implementer_role role
  pub edits : includes "Edit" (get_profile role).tools ≡ is_implementer_role role
  pub granted : includes "Write" (get_profile role).allowed_tool_patterns ≡ is_implementer_role role
  pub independent : (is_reviewer_role role && is_implementer_role role) ≡ false
  pub never_pushes :
      includes "Bash" (get_profile role).tools ≡ true
      → includes "Bash(git push*)" (get_profile role).disallowed_tool_patterns ≡ true
  pub own_worktree :
      is_implementer_role role ≡ ((get_profile role).needs_worktree || role == integrator)

-- The tools `Write` and `Edit`, and the pattern that makes the first usable, belong to the roles
-- that may write code and to no other; no reviewer is one of them; a role that has a shell is
-- denied `git push`; and the roles that write are those with a worktree of their own and the
-- integrator.
pub get_profile-IsSeparated : (role : AgentRole) → IsSeparated role
unfolding get_profile is_implementer_role is_reviewer_role role_rank
get_profile-IsSeparated role = record {
  writes = ground arith;
  edits = ground arith;
  granted = ground arith;
  independent = ground arith;
  never_pushes = λ h. ground arith;
  own_worktree = ground arith;
}
