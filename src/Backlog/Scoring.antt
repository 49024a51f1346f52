-- ===== src/Backlog/Scoring.antt =====
-- What holds of the score of orchestrator/src/autonomy/prioritization.ts.
use native.Mathlib.Nat.{mul-le-mul, mul-le-mul_left, le-div_iff_mul-le, div-mul-le_self}
use muslimrentals.Prelude.{ℕ, zero, suc, ◌+◌, ◌*◌, ◌≤◌, ◌<◌, arith}
use muslimrentals.Backlog.{BacklogCategory, security, PriorityInputs}
use muslimrentals.Backlog.Priority.{
  category_weight_for, raw_tenths, round_fraction, score_numerator, score_denominator,
  compute_score,
}

round_fraction_step :
    (q n m c d : ℕ) → n ≤ m → d ≤ c → q * (2 * c) ≤ 2 * n + c → q * (2 * d) ≤ 2 * m + d
round_fraction_step zero n m c d h k e = omega arith
round_fraction_step (suc q) n m c d h k e = omega (arith, mul-le-mul_left q k)

round_fraction_mono :
    (n m c d : ℕ) → n ≤ m → d ≤ c → 0 < d → round_fraction n c ≤ round_fraction m d
unfolding round_fraction
round_fraction_mono n m c d h k pos =
    (le-div_iff_mul-le (omega arith)).1
      (round_fraction_step _ n m c d h k (div-mul-le_self (2 * n + c) (2 * c)))

-- One item is at least as pressing as another: in each input, with no more effort.
pub record IsAtLeast (a b : PriorityInputs) : Type 0 where
  pub weight : category_weight_for b.category ≤ category_weight_for a.category
  pub user_impact : b.user_impact ≤ a.user_impact
  pub severity : b.severity ≤ a.severity
  pub strategic_relevance : b.strategic_relevance ≤ a.strategic_relevance
  pub confidence : b.confidence ≤ a.confidence
  pub effort : a.effort ≤ b.effort

raw_tenths_mono : (a b : PriorityInputs) → IsAtLeast a b → raw_tenths b ≤ raw_tenths a
unfolding raw_tenths
raw_tenths_mono a b h = omega (arith, h.user_impact, h.severity, h.strategic_relevance)

-- The score never falls when an item gets more pressing and no costlier.
pub compute_score_mono : (a b : PriorityInputs) → IsAtLeast a b → compute_score b ≤ compute_score a
unfolding compute_score score_numerator score_denominator
compute_score_mono a b h =
    round_fraction_mono _ _ _ _
      (mul-le-mul (mul-le-mul (raw_tenths_mono a b h) h.confidence) h.weight)
      (omega (arith, h.effort)) (omega arith)

pub weight_le : (c : BacklogCategory) → category_weight_for c ≤ category_weight_for security
unfolding category_weight_for
weight_le security = omega arith
weight_le _ = omega arith

-- The inputs of the most pressing item.
abbrev most_pressing : PriorityInputs
most_pressing = record {
  category = security;
  user_impact = 5;
  severity = 5;
  confidence = 100;
  effort = 0;
  strategic_relevance = 5;
}

-- A score is at most 101.3, whatever inputs the schema lets through.
pub compute_score-le :
    (a : PriorityInputs)
    → a.user_impact ≤ 5
    → a.severity ≤ 5
    → a.strategic_relevance ≤ 5
    → a.confidence ≤ 100
    → compute_score a ≤ 1013
unfolding compute_score score_numerator score_denominator raw_tenths category_weight_for
    round_fraction
compute_score-le a u s r c = compute_score_mono most_pressing a (record {
  weight = weight_le a.category;
  user_impact = u;
  severity = s;
  strategic_relevance = r;
  confidence = c;
  effort = omega arith;
})
