-- ===== src/Risk/Levels.antt =====
-- When orchestrator/src/autonomy/riskClassification.ts takes an item for one of high, and of low,
-- risk.
use muslimrentals.Prelude.{
  ◌≤◌, String, ◌≡◌, ◌≢◌, ◌↔◌, ◌⊎◌, refl, ◌∙◌, sym, Bool, true, false, ◌&&◌, ◌||◌, List, [], ◌∷◌,
  ◌++◌, arith, any, filter, map, includes, leb, ◌==◌, Bool-cases, inl, inr, eq_of_same, same_refl,
}
use muslimrentals.Prelude.Regex.{test}
use muslimrentals.Gate.{categories, is_matched, evaluate_founder_gate, is_non_empty_list}
use muslimrentals.Gate.Required.{evaluate_founder_gate-required}
use muslimrentals.Backlog.{
  category_equality, bug, ux, tech_debt, legal_flag, BacklogItem, low, high,
}
use muslimrentals.Risk.{
  RiskPattern, autonomy_high_risk_patterns, low_eligible_categories, always_high_categories,
  risk_text, reason_if, pattern_reasons, high_reasons, ordinary_risk, founder_reason, classify_risk,
}

-- What makes an item one of high risk.
pub data IsSensitive (item : BacklogItem) : Type 0 where
  gated : any (is_matched (risk_text item)) categories ≡ true → IsSensitive item
  founder : item.requires_founder_decision ≡ true → IsSensitive item
  counsel : item.requires_legal_review ≡ true → IsSensitive item
  legal : item.category ≡ legal_flag → IsSensitive item
  worded :
      any (λ p. test p.regex (risk_text item)) autonomy_high_risk_patterns ≡ true → IsSensitive item

abbrev is_worded : BacklogItem → Bool
is_worded item = any (λ p. test p.regex (risk_text item)) autonomy_high_risk_patterns

non_empty-append :
    (xs ys : List String)
    → is_non_empty_list (xs ++ ys) ≡ (is_non_empty_list xs || is_non_empty_list ys)
non_empty-append [] ys = refl
non_empty-append (x ∷ xs) ys = refl

non_empty-map :
    (f : RiskPattern → String) (p : RiskPattern → Bool) (ps : List RiskPattern)
    → is_non_empty_list (map f (filter p ps)) ≡ any p ps
non_empty-map f p [] = refl
non_empty-map f p (q ∷ ps) = ground (arith, non_empty-map f p ps)

non_empty-reason_if : (c : Bool) (r : String) → is_non_empty_list (reason_if c r) ≡ c
non_empty-reason_if true r = refl
non_empty-reason_if false r = refl

non_empty-high_reasons :
    (item : BacklogItem)
    → is_non_empty_list (high_reasons item) ≡ (
        item.requires_founder_decision
        || (item.requires_legal_review
            || (includes item.category always_high_categories || is_worded item)))
unfolding high_reasons pattern_reasons
non_empty-high_reasons item = simp (non_empty-append, non_empty-reason_if, non_empty-map)

ordinary-not_high : (item : BacklogItem) → (ordinary_risk item).risk ≢ high
unfolding ordinary_risk
ordinary-not_high item h = ground (arith, h)

gate-eq :
    (claude_md : String) (item : BacklogItem)
    → (evaluate_founder_gate (risk_text item) claude_md).required
      ≡ any (is_matched (risk_text item)) categories
gate-eq claude_md item = (evaluate_founder_gate-required (risk_text item) claude_md).0

high-IsSensitive :
    (claude_md : String) (item : BacklogItem)
    → (classify_risk claude_md item).risk ≡ high
    → IsSensitive item
unfolding classify_risk always_high_categories
high-IsSensitive claude_md item h =
    elim (Bool-cases (evaluate_founder_gate (risk_text item) claude_md).required) [
      | inl asks ↦ gated (sym (gate-eq claude_md item) ∙ asks)
      | inr silent ↦ elim (Bool-cases item.requires_founder_decision) [
        | inl flagged ↦ founder flagged
        | inr unflagged ↦ elim (Bool-cases item.requires_legal_review) [
          | inl review ↦ counsel review
          | inr none_needed ↦ elim (Bool-cases (includes item.category (legal_flag ∷ []))) [
            | inl flag ↦ legal (eq_of_same item.category legal_flag (ground arith))
            | inr other ↦ elim (Bool-cases (is_worded item)) [
              | inl says ↦ worded says
              | inr plain ↦
                  absurd (ordinary-not_high item (ground (arith, h, non_empty-high_reasons item)))
            ]
          ]
        ]
      ]
    ]

IsSensitive-high :
    (claude_md : String) (item : BacklogItem)
    → IsSensitive item
    → (classify_risk claude_md item).risk ≡ high
unfolding classify_risk always_high_categories
IsSensitive-high claude_md item (gated h) = ground (arith, gate-eq claude_md item, h)
IsSensitive-high claude_md item (founder h) = ground (arith, non_empty-high_reasons item, h)
IsSensitive-high claude_md item (counsel h) = ground (arith, non_empty-high_reasons item, h)
IsSensitive-high claude_md item (legal h) =
    ground (arith, non_empty-high_reasons item, h, same_refl legal_flag)
IsSensitive-high claude_md item (worded h) = ground (arith, non_empty-high_reasons item, h)

-- An item is of high risk exactly when the founder gate asks about its text, it is flagged for a
-- founder decision or a legal review, its category is that of legal flags, or its text matches one
-- of the patterns of autonomy; the risk that is stored with it plays no part.
pub classify_risk-high_iff :
    (claude_md : String) (item : BacklogItem)
    → ((classify_risk claude_md item).risk ≡ high) ↔ IsSensitive item
classify_risk-high_iff claude_md item =
    (high-IsSensitive claude_md item, IsSensitive-high claude_md item)

-- What an item of low risk is.
pub data IsSmall (item : BacklogItem) : Type 0 where
  safe : includes item.category low_eligible_categories ≡ true → IsSmall item
  small_bug : item.category ≡ bug → item.severity ≤ 2 → IsSmall item
  quick : (item.category ≡ ux) ⊎ (item.category ≡ tech_debt) → item.effort ≤ 2 → IsSmall item

ordinary-IsSmall : (item : BacklogItem) → (ordinary_risk item).risk ≡ low → IsSmall item
unfolding ordinary_risk
ordinary-IsSmall item h = elim (Bool-cases (includes item.category low_eligible_categories)) [
  | inl kept ↦ safe kept
  | inr other ↦ elim (Bool-cases (item.category == bug && leb item.severity 2)) [
    | inl minor ↦
        small_bug (eq_of_same item.category bug (ground (arith, minor))) (ground (arith, minor))
    | inr large ↦ elim (Bool-cases (item.category == ux)) [
      | inl looks ↦
          quick (inl (eq_of_same item.category ux looks)) (ground (arith, h, other, large))
      | inr behind ↦ elim (Bool-cases (item.category == tech_debt)) [
        | inl debt ↦
            quick (inr (eq_of_same item.category tech_debt debt)) (ground (arith, h, other, large))
        | inr none_left ↦ absurd (ground (arith, h, other, large, behind, none_left))
      ]
    ]
  ]
]

low-not_high : low ≢ high
low-not_high h = cc

low-ordinary :
    (claude_md : String) (item : BacklogItem)
    → (classify_risk claude_md item).risk ≡ low
    → (ordinary_risk item).risk ≡ low
unfolding classify_risk
low-ordinary claude_md item h = ground (arith, h)

-- Only a small item that nothing makes sensitive is of low risk: one of tests, documents or
-- accessibility, a bug of severity at most 2, or a change to the interface or to old code of effort
-- at most 2.
pub classify_risk-low :
    (claude_md : String) (item : BacklogItem)
    → (classify_risk claude_md item).risk ≡ low
    → (IsSensitive item → ⊥) × IsSmall item
classify_risk-low claude_md item h = (
  λ sensitive. low-not_high (sym h ∙ IsSensitive-high claude_md item sensitive),
  ordinary-IsSmall item (low-ordinary claude_md item h),
)

non_empty-snoc : (xs : List String) (y : String) → is_non_empty_list (xs ++ y ∷ []) ≡ true
non_empty-snoc [] y = refl
non_empty-snoc (x ∷ xs) y = refl

ordinary-reasons : (item : BacklogItem) → is_non_empty_list (ordinary_risk item).reasons ≡ true
unfolding ordinary_risk
ordinary-reasons item = ground arith

-- Whatever the level, there is a reason for it.
pub classify_risk-reasons :
    (claude_md : String) (item : BacklogItem)
    → is_non_empty_list (classify_risk claude_md item).reasons ≡ true
unfolding classify_risk
classify_risk-reasons claude_md item = ground (
  arith,
  non_empty-snoc (evaluate_founder_gate (risk_text item) claude_md).reasons founder_reason,
  ordinary-reasons item,
)
