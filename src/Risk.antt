-- ===== src/Risk.antt =====
-- The risk of a backlog item before it is worked on
-- (orchestrator/src/autonomy/riskClassification.ts).
pub mod Levels
mod Examples
use muslimrentals.Prelude.{
  ℕ, String, Bool, true, false, ◌&&◌, ◌||◌, List, [], ◌∷◌, ◌++◌, map, filter, any, includes, leb,
  if◌then◌else◌, ◌==◌, template,
}
use muslimrentals.Prelude.Regex.{
  Regex, at_boundary, test, literal, sequence, optional, words_of, spaces, maybe_spaces, gap,
}
use muslimrentals.Planner.{FounderGateResult}
use muslimrentals.Gate.{evaluate_founder_gate, is_non_empty_list}
use muslimrentals.Backlog.{
  BacklogCategory, bug, feature_gap, ux, accessibility, security, privacy, trust_safety, legal_flag,
  testing, tech_debt, performance, infrastructure, devops, documentation, product_opportunity,
  category_equality, BacklogItem, RiskLevel, low, medium, high,
}

pub record RiskClassification : Type 0 where
  pub risk : RiskLevel
  pub reasons : List String

unfoldable pub category_name : BacklogCategory → String
category_name bug = "BUG"
category_name feature_gap = "FEATURE_GAP"
category_name ux = "UX"
category_name accessibility = "ACCESSIBILITY"
category_name security = "SECURITY"
category_name privacy = "PRIVACY"
category_name trust_safety = "TRUST_SAFETY"
category_name legal_flag = "LEGAL_FLAG"
category_name testing = "TESTING"
category_name tech_debt = "TECH_DEBT"
category_name performance = "PERFORMANCE"
category_name infrastructure = "INFRASTRUCTURE"
category_name devops = "DEVOPS"
category_name documentation = "DOCUMENTATION"
category_name product_opportunity = "PRODUCT_OPPORTUNITY"

-- A pattern, and its source text.
pub record RiskPattern : Type 0 where
  pub source : String
  pub regex : Regex

abbrev bounded_word : String → Regex
bounded_word w = sequence (at_boundary ∷ literal w ∷ at_boundary ∷ [])

abbrev bounded_policy : Regex
bounded_policy = sequence (at_boundary ∷ words_of ("policy" ∷ "policies" ∷ []) ∷ at_boundary ∷ [])

unfoldable pub autonomy_high_risk_patterns : List RiskPattern
autonomy_high_risk_patterns =
    record {
      source = "\\bsecret\\b[^.]{0,40}\\b(rotat|chang|regenerat)";
      regex = sequence (
          bounded_word "secret"
          ∷ gap
          ∷ at_boundary
          ∷ words_of ("rotat" ∷ "chang" ∷ "regenerat" ∷ [])
          ∷ []);
    }
    ∷ record {
      source = "\\b(rotat|regenerat)[^.]{0,40}\\bsecret\\b";
      regex =
          sequence (
            at_boundary ∷ words_of ("rotat" ∷ "regenerat" ∷ []) ∷ gap ∷ bounded_word "secret" ∷ []);
    }
    ∷ record {
      source = "\\bapi\\s*key\\b[^.]{0,40}\\b(rotat|chang|regenerat|revok)";
      regex = sequence (
          at_boundary
          ∷ literal "api"
          ∷ maybe_spaces
          ∷ literal "key"
          ∷ at_boundary
          ∷ gap
          ∷ at_boundary
          ∷ words_of ("rotat" ∷ "chang" ∷ "regenerat" ∷ "revok" ∷ [])
          ∷ []);
    }
    ∷ record {
      source = "\\bmoderation\\s+polic(y|ies)\\b";
      regex = sequence (
          at_boundary
          ∷ literal "moderation"
          ∷ spaces
          ∷ words_of ("policy" ∷ "policies" ∷ [])
          ∷ at_boundary
          ∷ []);
    }
    ∷ record {
      source = "\\bpermanent(ly)?\\b[^.]{0,40}\\bpolic(y|ies)\\b";
      regex = sequence (
          at_boundary
          ∷ literal "permanent"
          ∷ optional (literal "ly")
          ∷ at_boundary
          ∷ gap
          ∷ bounded_policy
          ∷ []);
    }
    ∷ []

unfoldable pub low_eligible_categories : List BacklogCategory
low_eligible_categories = testing ∷ documentation ∷ accessibility ∷ []

unfoldable pub always_high_categories : List BacklogCategory
always_high_categories = legal_flag ∷ []

unfoldable pub risk_text : BacklogItem → String
risk_text item = template (item.title ∷ "\n" ∷ item.description ∷ "\n" ∷ item.rationale ∷ [])

-- `if (c) reasons.push(r)`.
abbrev pub reason_if : Bool → String → List String
reason_if c r = if c then r ∷ [] else []

unfoldable pub pattern_reasons : String → List String
pattern_reasons text =
    map (λ p. template ("Text matches autonomy-specific high-risk pattern: " ∷ p.source ∷ []))
      (filter (λ p. test p.regex text) autonomy_high_risk_patterns)

-- The reasons beside those of the founder gate.
unfoldable pub high_reasons : BacklogItem → List String
high_reasons item =
    reason_if item.requires_founder_decision
      "Backlog item is explicitly flagged requiresFounderDecision."
    ++ (reason_if item.requires_legal_review
          "Backlog item is explicitly flagged requiresLegalReview."
        ++ (reason_if (includes item.category always_high_categories) (
              template (
                "Category "
                ∷ category_name item.category
                ∷ " always requires founder/counsel involvement before autonomous action."
                ∷ []))
            ++ pattern_reasons (risk_text item)))

-- The rules for what is not of high risk.
unfoldable pub ordinary_risk : BacklogItem → RiskClassification
ordinary_risk item =
    if includes item.category low_eligible_categories
    then record {
      risk = low;
      reasons =
          template (
            "Category "
            ∷ category_name item.category
            ∷ " is in the low-risk set (tests, docs, accessibility) — safe to select and execute autonomously."
            ∷ [])
          ∷ [];
    }
    else if item.category == bug && leb item.severity 2
    then record {
      risk = low;
      reasons = "Small (severity <= 2) bug fix — low-risk category per PART 6 examples." ∷ [];
    }
    else if (item.category == ux || item.category == tech_debt) && leb item.effort 2
    then record {
      risk = low;
      reasons =
          template (
            "Low-effort (<=2) "
            ∷ category_name item.category
            ∷ " item — safe UI improvement / low-risk refactor per PART 6 examples."
            ∷ [])
          ∷ [];
    }
    else record {
      risk = medium;
      reasons =
          template (
            "Category "
            ∷ category_name item.category
            ∷ " defaults to MEDIUM: may be implemented autonomously on an isolated branch (the execution engine already always works this way — worktrees, never a direct commit to the default branch), but is not auto-deployed and is not in the LOW auto-select-without-extra-scrutiny set."
            ∷ [])
          ∷ [];
    }

abbrev pub founder_reason : String
founder_reason =
    "Matches a CLAUDE.md founder-authority category — the same gate the execution engine itself enforces mid-task, applied here before any task is even created."

unfoldable pub classify_risk : String → BacklogItem → RiskClassification
classify_risk claude_md item =
    let founder_gate = evaluate_founder_gate (risk_text item) claude_md in
    if founder_gate.required
    then record { risk = high; reasons = founder_gate.reasons ++ founder_reason ∷ [] }
    else if is_non_empty_list (high_reasons item)
    then record { risk = high; reasons = high_reasons item }
    else ordinary_risk item
