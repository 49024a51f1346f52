-- ===== src/Backlog/Priority.antt =====
-- orchestrator/src/autonomy/prioritization.ts, over exact fractions where the source has doubles.
use muslimrentals.Prelude.{ℕ, ◌+◌, ◌*◌, ◌/◌, none}
use muslimrentals.Backlog.{
  BacklogCategory, bug, feature_gap, ux, accessibility, security, privacy, trust_safety, legal_flag,
  testing, tech_debt, performance, infrastructure, devops, documentation, product_opportunity,
  PriorityInputs, PriorityRationale,
}

-- `CATEGORY_WEIGHT`, in hundredths.
unfoldable pub category_weight_for : BacklogCategory → ℕ
category_weight_for security = 135
category_weight_for privacy = 135
category_weight_for trust_safety = 125
category_weight_for bug = 120
category_weight_for legal_flag = 120
category_weight_for testing = 110
category_weight_for feature_gap = 110
category_weight_for accessibility = 100
category_weight_for performance = 95
category_weight_for infrastructure = 90
category_weight_for devops = 90
category_weight_for ux = 90
category_weight_for tech_debt = 80
category_weight_for product_opportunity = 75
category_weight_for documentation = 60

-- `userImpact * 2 + severity * 2.5 + strategicRelevance * 1.5`, in tenths.
unfoldable pub raw_tenths : PriorityInputs → ℕ
raw_tenths inputs = inputs.user_impact * 20 + inputs.severity * 25 + inputs.strategic_relevance * 15

-- `Math.round` of the fraction n / d: the nearest integer, and the upper one of two.
unfoldable pub round_fraction : ℕ → ℕ → ℕ
round_fraction n d = (2 * n + d) / (2 * d)

-- With the raw sum r in tenths, the confidence c and the weight w in hundredths, and the effort e,
-- `r / 10 * c / 100 * w / 100 / (1 + e * 0.4) * 2.5 * 10` is `r * c * w / (800 * (5 + 2 * e))`.
unfoldable pub score_numerator : PriorityInputs → ℕ
score_numerator inputs = raw_tenths inputs * inputs.confidence * category_weight_for inputs.category

unfoldable pub score_denominator : PriorityInputs → ℕ
score_denominator inputs = 800 * (5 + 2 * inputs.effort)

-- The score, in tenths.
unfoldable pub compute_score : PriorityInputs → ℕ
compute_score inputs = round_fraction (score_numerator inputs) (score_denominator inputs)

-- The rationale that `computePriority` returns beside the score.
unfoldable pub compute_priority : PriorityInputs → PriorityRationale
compute_priority inputs = record {
  inputs = inputs;
  score = compute_score inputs;
  change_reason = none;
}
