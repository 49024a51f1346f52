-- ===== src/Gate/Required.antt =====
-- When the gate of orchestrator/src/approval/founderGate.ts asks the founder.
use muslimrentals.Prelude.{String, ◌≡◌, refl, Bool, List, [], ◌∷◌, arith, any, filter, map, length}
use muslimrentals.Gate.{
  Category, categories, is_matched, is_non_empty_list, reason_for, parse_founder_authority_bullets,
  evaluate_founder_gate,
}

required-any :
    (p : Category → Bool) (f : Category → String) (cs : List Category)
    → is_non_empty_list (map f (filter p cs)) ≡ any p cs
required-any p f [] = refl
required-any p f (c ∷ cs) = ground (arith, required-any p f cs)

length-map : (f : Category → String) (cs : List Category) → length (map f cs) ≡ length cs
length-map f [] = refl
length-map f (c ∷ cs) = ground (arith, length-map f cs)

-- The gate asks exactly when a pattern of some category matches the text, and gives one reason for
-- each category that does; the wording of CLAUDE.md, even where it names none of them, decides over
-- neither.
pub evaluate_founder_gate-required :
    (text claude_md : String)
    → ((evaluate_founder_gate text claude_md).required ≡ any (is_matched text) categories)
      × (length (evaluate_founder_gate text claude_md).reasons
          ≡ length (filter (is_matched text) categories))
unfolding evaluate_founder_gate
evaluate_founder_gate-required text claude_md = (
  required-any (is_matched text) (reason_for (parse_founder_authority_bullets claude_md))
      categories,
  length-map (reason_for (parse_founder_authority_bullets claude_md))
      (filter (is_matched text) categories),
)
