-- ===== src/Agents.antt =====
-- orchestrator/src/agents/registry.ts: how each role may be run. A budget is a number of cents.
pub mod Permissions
mod Examples
use muslimrentals.Prelude.{
  ℕ, String, Bool, true, false, ◌||◌, List, [], ◌∷◌, ◌++◌, ◌==◌, string_equality,
}
use muslimrentals.Roles.{
  AgentRole, supervisor, engineering, frontend, backend, qa, security, designer, trust_safety,
  legal, support, integrator, lead, role_equality,
}

pub data OutputSchema : Type 0 where
  supervisor_plan agent_analysis implementation_result integration_result : OutputSchema
  review_result lead_plan : OutputSchema

pub record PermissionProfile : Type 0 where
  pub role : AgentRole
  pub role_file : String
  pub tools : List String
  pub allowed_tool_patterns : List String
  pub disallowed_tool_patterns : List String
  pub can_write_code : Bool
  pub needs_worktree : Bool
  pub output_schema : OutputSchema
  pub artifact_filename : String
  pub max_budget : ℕ

abbrev read_only_tools : List String
read_only_tools = "Read" ∷ "Grep" ∷ "Glob" ∷ []

abbrev verify_bash_allow : List String
verify_bash_allow =
    "Bash(npm install*)" ∷ "Bash(cd rentals/backend && npm install*)"
    ∷ "Bash(cd rentals/frontend && npm install*)" ∷ "Bash(npx tsc*)"
    ∷ "Bash(cd rentals/backend && npx tsc*)" ∷ "Bash(cd rentals/frontend && npx tsc*)"
    ∷ "Bash(npx prisma generate*)" ∷ "Bash(npx prisma validate*)"
    ∷ "Bash(cd rentals/backend && npx prisma generate*)"
    ∷ "Bash(cd rentals/backend && npx prisma validate*)" ∷ "Bash(npx next build*)"
    ∷ "Bash(cd rentals/frontend && npx next build*)" ∷ []

abbrev review_bash_allow : List String
review_bash_allow =
    ("Bash(npm run test*)" ∷ "Bash(npm test*)" ∷ "Bash(npm run type-check*)"
      ∷ "Bash(npm run typecheck*)" ∷ "Bash(npm run lint*)" ∷ "Bash(npm audit*)"
      ∷ "Bash(git status*)" ∷ "Bash(git diff*)" ∷ "Bash(git log*)" ∷ [])
    ++ (verify_bash_allow)

abbrev live_site_webfetch_allow : List String
live_site_webfetch_allow = "WebFetch(domain:muslimrentals.netlify.app)" ∷ []

abbrev dangerous_bash_deny : List String
dangerous_bash_deny =
    "Bash(git push*)" ∷ "Bash(git commit*)" ∷ "Bash(git reset*)" ∷ "Bash(rm *)" ∷ "Bash(rm)"
    ∷ "Bash(curl*)" ∷ "Bash(wget*)" ∷ "Bash(npm publish*)" ∷ "Bash(npx prisma migrate*)"
    ∷ "Bash(npx prisma db*)" ∷ "Bash(sudo*)" ∷ "Bash(ssh*)" ∷ "Bash(chmod*)" ∷ []

abbrev engineering_always_allow : List String
engineering_always_allow =
    ("Write" ∷ "Edit" ∷ [])
    ++ (review_bash_allow
        ++ ("Bash(npm run build*)" ∷ "Bash(cd rentals/backend && npm run build*)"
            ∷ "Bash(cd rentals/frontend && npm run build*)" ∷ "Bash(git add*)" ∷ "Bash(git commit*)"
            ∷ "Bash(git status*)" ∷ "Bash(git diff*)" ∷ []))

abbrev engineering_bash_deny : List String
engineering_bash_deny =
    "Bash(git push*)" ∷ "Bash(git checkout main)" ∷ "Bash(git checkout master)" ∷ "Bash(rm -rf*)"
    ∷ "Bash(curl*)" ∷ "Bash(wget*)" ∷ "Bash(npx prisma migrate*)" ∷ "Bash(npx prisma db*)"
    ∷ "Bash(sudo*)" ∷ "Bash(ssh*)" ∷ []

unfoldable pub get_profile : AgentRole → PermissionProfile
get_profile supervisor = record {
  role = supervisor;
  role_file = "agents/supervisor.md";
  tools = read_only_tools;
  allowed_tool_patterns = [];
  disallowed_tool_patterns = [];
  can_write_code = false;
  needs_worktree = false;
  output_schema = supervisor_plan;
  artifact_filename = "plan.json";
  max_budget = 100;
}
get_profile designer = record {
  role = designer;
  role_file = "agents/designer.md";
  tools = read_only_tools ++ ("WebFetch" ∷ []);
  allowed_tool_patterns = live_site_webfetch_allow;
  disallowed_tool_patterns = [];
  can_write_code = false;
  needs_worktree = false;
  output_schema = agent_analysis;
  artifact_filename = "designer.md";
  max_budget = 75;
}
get_profile legal = record {
  role = legal;
  role_file = "agents/legal.md";
  tools = read_only_tools;
  allowed_tool_patterns = [];
  disallowed_tool_patterns = [];
  can_write_code = false;
  needs_worktree = false;
  output_schema = agent_analysis;
  artifact_filename = "legal.md";
  max_budget = 75;
}
get_profile trust_safety = record {
  role = trust_safety;
  role_file = "agents/trust-safety.md";
  tools = read_only_tools;
  allowed_tool_patterns = [];
  disallowed_tool_patterns = [];
  can_write_code = false;
  needs_worktree = false;
  output_schema = agent_analysis;
  artifact_filename = "trust-safety.md";
  max_budget = 75;
}
get_profile support = record {
  role = support;
  role_file = "agents/support.md";
  tools = read_only_tools;
  allowed_tool_patterns = [];
  disallowed_tool_patterns = [];
  can_write_code = false;
  needs_worktree = false;
  output_schema = agent_analysis;
  artifact_filename = "support.md";
  max_budget = 50;
}
get_profile qa = record {
  role = qa;
  role_file = "agents/qa.md";
  tools = "Read" ∷ "Grep" ∷ "Glob" ∷ "Bash" ∷ "WebFetch" ∷ [];
  allowed_tool_patterns = review_bash_allow ++ live_site_webfetch_allow;
  disallowed_tool_patterns = dangerous_bash_deny;
  can_write_code = false;
  needs_worktree = false;
  output_schema = review_result;
  artifact_filename = "qa.json";
  max_budget = 100;
}
get_profile security = record {
  role = security;
  role_file = "agents/security.md";
  tools = "Read" ∷ "Grep" ∷ "Glob" ∷ "Bash" ∷ "WebFetch" ∷ [];
  allowed_tool_patterns = review_bash_allow ++ live_site_webfetch_allow;
  disallowed_tool_patterns = dangerous_bash_deny;
  can_write_code = false;
  needs_worktree = false;
  output_schema = review_result;
  artifact_filename = "security.json";
  max_budget = 100;
}
get_profile engineering = record {
  role = engineering;
  role_file = "agents/engineering.md";
  tools = "Read" ∷ "Write" ∷ "Edit" ∷ "Grep" ∷ "Glob" ∷ "Bash" ∷ [];
  allowed_tool_patterns = engineering_always_allow;
  disallowed_tool_patterns = engineering_bash_deny;
  can_write_code = true;
  needs_worktree = true;
  output_schema = implementation_result;
  artifact_filename = "engineering-plan.md";
  max_budget = 300;
}
get_profile frontend = record {
  role = frontend;
  role_file = "agents/frontend.md";
  tools = "Read" ∷ "Write" ∷ "Edit" ∷ "Grep" ∷ "Glob" ∷ "Bash" ∷ [];
  allowed_tool_patterns = engineering_always_allow;
  disallowed_tool_patterns = engineering_bash_deny;
  can_write_code = true;
  needs_worktree = true;
  output_schema = implementation_result;
  artifact_filename = "frontend-implementation.md";
  max_budget = 300;
}
get_profile backend = record {
  role = backend;
  role_file = "agents/backend.md";
  tools = "Read" ∷ "Write" ∷ "Edit" ∷ "Grep" ∷ "Glob" ∷ "Bash" ∷ [];
  allowed_tool_patterns = engineering_always_allow;
  disallowed_tool_patterns = engineering_bash_deny;
  can_write_code = true;
  needs_worktree = true;
  output_schema = implementation_result;
  artifact_filename = "backend-implementation.md";
  max_budget = 300;
}
get_profile integrator = record {
  role = integrator;
  role_file = "agents/integrator.md";
  tools = "Read" ∷ "Write" ∷ "Edit" ∷ "Grep" ∷ "Glob" ∷ "Bash" ∷ [];
  allowed_tool_patterns = engineering_always_allow;
  disallowed_tool_patterns = engineering_bash_deny;
  can_write_code = true;
  needs_worktree = false;
  output_schema = integration_result;
  artifact_filename = "integration-report.md";
  max_budget = 300;
}
get_profile lead = record {
  role = lead;
  role_file = "agents/lead.md";
  tools = read_only_tools;
  allowed_tool_patterns = [];
  disallowed_tool_patterns = [];
  can_write_code = false;
  needs_worktree = false;
  output_schema = lead_plan;
  artifact_filename = "lead-plan.json";
  max_budget = 100;
}

unfoldable pub is_implementer_role : AgentRole → Bool
unfolding get_profile
is_implementer_role role = (get_profile role).can_write_code

unfoldable pub is_reviewer_role : AgentRole → Bool
is_reviewer_role role = role == qa || role == security
