-- ===== src/Runner/Requests.antt =====
-- What `Runner` (orchestrator/src/supervisor/orchestrator.ts) asks the agents, what it makes of their
-- answers, and the message of a commit.
use Prim.Native.Char.{code}
use muslimrentals.Prelude.{
  String, Bool, false, not, ◌&&◌, Option, none, some, List, [], ◌∷◌, ◌==◌, string_equality, filter,
  if◌then◌else◌, template, eqb, take_chars,
}
use muslimrentals.Roles.{
  AgentRole, supervisor, engineering, frontend, backend, qa, security, designer, trust_safety,
  legal, support, integrator, lead, role_equality,
}
use muslimrentals.Agents.{get_profile}
use muslimrentals.Runner.{
  high, AgentAnalysis, ImplementationResult, changes_required, ReviewResult, PrerequisiteArtifact,
  Instruction, InvokeRequest,
}

-- How a role is spelled in a text.
abbrev pub role_text : AgentRole → String
role_text supervisor = "supervisor"
role_text engineering = "engineering"
role_text frontend = "frontend"
role_text backend = "backend"
role_text qa = "qa"
role_text security = "security"
role_text designer = "designer"
role_text trust_safety = "trust_safety"
role_text legal = "legal"
role_text support = "support"
role_text integrator = "integrator"
role_text lead = "lead"

-- `text.split('\n')[0]`.
abbrev first_line : String → String
first_line String.[] = ""
first_line (String.◌∷◌ c text) =
    let rest = first_line text in if eqb (code c) 10 then "" else String.◌∷◌ c rest

-- The message of the commit is never empty, so that its replacement is never used.
unfoldable pub commit_message : AgentRole → ImplementationResult → String
commit_message role result = template (
    role_text role
    ∷ ": "
    ∷ (if result.no_changes_needed
        then "no changes needed"
        else take_chars 100 (first_line result.summary))
    ∷ [])

-- The answer with the role and task that the caller knows, or the replacement for none.
abbrev pub parsed_analysis : AgentRole → String → Option AgentAnalysis → AgentAnalysis
parsed_analysis role task_id none = record {
  role = role;
  task_id = task_id;
  summary = "Output failed schema validation.";
  findings = [];
  open_questions =
      "Raw output did not match AgentAnalysis schema — see log.jsonl for the raw payload." ∷ [];
  recommendation = "Re-run this agent; treat this task as incomplete for this role.";
}
parsed_analysis role task_id (some a) = record a { role = role; task_id = task_id }

abbrev pub parsed_implementation :
    String → String → Option ImplementationResult → ImplementationResult
parsed_implementation task_id branch none = record {
  role = engineering;
  task_id = task_id;
  branch = branch;
  files_changed = [];
  summary = "Output failed schema validation.";
  test_plan = "N/A";
  self_check_notes = "Raw output did not match ImplementationResult schema — see log.jsonl." ∷ [];
  no_changes_needed = false;
}
parsed_implementation task_id branch (some a) = record a {
  role = engineering;
  task_id = task_id;
  branch = branch;
}

abbrev pub parsed_review : AgentRole → String → Option ReviewResult → ReviewResult
parsed_review role task_id none = record {
  role = role;
  task_id = task_id;
  verdict = changes_required;
  findings =
      record {
        severity = high;
        finding =
            "Reviewer output failed schema validation — treated as a blocking failure rather than silently passing.";
        evidence = none;
        recommended_action = none;
      }
      ∷ [];
  notes = none;
}
parsed_review role task_id (some a) = record a { role = role; task_id = task_id }

abbrev pub is_harmless : String → Bool
is_harmless tool = not (tool == "Write") && (not (tool == "Edit") && not (tool == "Bash"))

-- The request for an analysis; `force_read_only` takes the tools that write from the profile.
unfoldable pub analysis_request :
    AgentRole → Instruction → Bool → List PrerequisiteArtifact → InvokeRequest
analysis_request role instruction force_read_only artifacts =
    let profile = get_profile role in
    record {
      role = role;
      cwd = "REPO_ROOT";
      instruction = instruction;
      artifacts = artifacts;
      correction_feedback = none;
      tools = if force_read_only then filter is_harmless profile.tools else profile.tools;
      allowed_tool_patterns = if force_read_only then [] else profile.allowed_tool_patterns;
      disallowed_tool_patterns = if force_read_only then [] else profile.disallowed_tool_patterns;
      max_budget = profile.max_budget;
    }

-- The request of the other agents, with the role's own profile.
unfoldable pub profile_request :
    AgentRole → String → Instruction → List PrerequisiteArtifact → Option String → InvokeRequest
profile_request role cwd instruction artifacts feedback =
    let profile = get_profile role in
    record {
      role = role;
      cwd = cwd;
      instruction = instruction;
      artifacts = artifacts;
      correction_feedback = feedback;
      tools = profile.tools;
      allowed_tool_patterns = profile.allowed_tool_patterns;
      disallowed_tool_patterns = profile.disallowed_tool_patterns;
      max_budget = profile.max_budget;
    }
