-- ===== src/Gate/Examples.antt =====
-- Runs of the founder gate at concrete inputs.
use muslimrentals.Prelude.{String, ◌≡◌, refl, true, false, [], ◌∷◌, any, filter, length}
use muslimrentals.Prelude.Regex.{
  codes, lower_code, is_word_code, is_space_code, over_many, over_up_to, ends, matches_from, test,
  literal_codes, literal, sequence, choice, optional, words_of, spaces, gap,
}
use muslimrentals.Gate.{
  categories, is_matched, evaluate_founder_gate, parse_founder_authority_bullets,
  production_deployment, deleting_production_data, chars, text_of, split_lines, trim_start,
  trim_end, trim, is_founder_heading, is_heading, bullet, section_bullets, after_heading,
}
use muslimrentals.Gate.Required.{evaluate_founder_gate-required}

abbrev claude_md : String
claude_md =
    "# Rules\n## Founder authority\n- Production deployment \n text\n - spending money\n## Next\n- no"

parsed : parse_founder_authority_bullets claude_md ≡ "Production deployment" ∷ "spending money" ∷ []
unfolding parse_founder_authority_bullets chars text_of split_lines trim_start trim_end trim
    is_founder_heading is_heading bullet section_bullets after_heading codes lower_code
    is_space_code over_many ends literal_codes literal sequence spaces
parsed = refl

deletes : is_matched "Please DELETE all old user data now" deleting_production_data ≡ true
unfolding deleting_production_data test matches_from codes lower_code is_word_code is_space_code
    over_many over_up_to ends literal_codes literal sequence choice optional words_of spaces gap
deletes = refl

redeploys : is_matched "redeploying" production_deployment ≡ false
unfolding production_deployment test matches_from codes lower_code is_word_code is_space_code
    over_many over_up_to ends literal_codes literal sequence choice optional words_of spaces gap
redeploys = refl

evaluate_founder_gate-required_example :
    ((evaluate_founder_gate "Deploy it" claude_md).required
      ≡ any (is_matched "Deploy it") categories)
    × (length (evaluate_founder_gate "Deploy it" claude_md).reasons
        ≡ length (filter (is_matched "Deploy it") categories))
evaluate_founder_gate-required_example = evaluate_founder_gate-required "Deploy it" claude_md
