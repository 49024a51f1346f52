-- ===== src/Risk/Examples.antt =====
-- Runs of the risk classification at concrete items.
use muslimrentals.Prelude.{◌≡◌, ◌↔◌, refl, none, some}
use muslimrentals.Prelude.Regex.{
  codes, lower_code, is_word_code, is_space_code, over_many, over_up_to, ends, matches_from, test,
  literal_codes, literal, sequence, choice, optional, words_of, spaces, maybe_spaces, gap,
}
use muslimrentals.Gate.{
  categories, evaluate_founder_gate, production_deployment, irreversible_production_changes,
  deleting_production_data, permanent_account_bans, publishing_legal_policies, spending_money,
  major_auth_security_changes, major_architecture_rewrites,
}
use muslimrentals.Backlog.{BacklogItem, documentation, category_rank, low, high}
use muslimrentals.Backlog.Store.{new_item}
use muslimrentals.Risk.{
  autonomy_high_risk_patterns, low_eligible_categories, always_high_categories, high_reasons,
  pattern_reasons, ordinary_risk, risk_text, classify_risk,
}
use muslimrentals.Risk.Levels.{IsSensitive, classify_risk-high_iff}

abbrev readme : BacklogItem
readme = new_item "b1" 10 (record {
  title = "Document the search";
  description = "Readme";
  source = "lead";
  category = documentation;
  risk = some high;
  user_impact = 2;
  severity = 1;
  confidence = 90;
  effort = 1;
  strategic_relevance = 1;
  evidence = none;
  rationale = "";
  dependencies = none;
  related_signals = none;
  requires_founder_decision = none;
  requires_legal_review = none;
  status = none;
})

classify_risk-high_iff_example : ((classify_risk "" readme).risk ≡ high) ↔ IsSensitive readme
classify_risk-high_iff_example = classify_risk-high_iff "" readme

readme_low : (classify_risk "" readme).risk ≡ low
unfolding classify_risk evaluate_founder_gate categories production_deployment
    irreversible_production_changes deleting_production_data permanent_account_bans
    publishing_legal_policies spending_money major_auth_security_changes major_architecture_rewrites
    high_reasons pattern_reasons autonomy_high_risk_patterns ordinary_risk risk_text new_item
    category_rank low_eligible_categories always_high_categories test matches_from codes lower_code
    is_word_code is_space_code over_many over_up_to ends literal_codes literal sequence choice
    optional words_of spaces maybe_spaces gap
readme_low = refl
