-- ===== src/Runner/Endings.antt =====
-- How the correction loops of `Runner` end (orchestrator/src/supervisor/orchestrator.ts).
use muslimrentals.Prelude.{
  ◌≡◌, refl, ◌∙◌, ap, sym, subst, suc, ◌≤◌, String, Bool, true, false, not, ◌||◌, Option, List, [],
  ◌∷◌, all, includes, leb, arith, same_refl,
}
use muslimrentals.Roles.{AgentRole, role_equality}
use muslimrentals.Planner.{SupervisorPlan}
use muslimrentals.Runner.{
  complete, founder_approval_required, IntegrationResult, Config, Session, Run,
}
use muslimrentals.Runner.Reviews.{
  rejects, Reason, final_report, build_final_report, Ended, finish_successfully, retry_or_escalate,
  after_review,
}
use muslimrentals.Runner.Loops.{conflicts_in}
use muslimrentals.Runner.Holds.{Holds, if-Holds, core}
use muslimrentals.Runner.Verdicts.{all_accept}
use muslimrentals.Runner.Rounds.{IsRound}

-- The integration, if there was one, left no conflict.
abbrev pub no_conflicts : List String → Bool
no_conflicts [] = true
no_conflicts (file ∷ files) = false

abbrev pub is_settled : Option IntegrationResult → Bool
is_settled result = no_conflicts (conflicts_in result)

all_from :
    (p : AgentRole → Bool) (roles : List AgentRole)
    → ((role : AgentRole) → includes role roles ≡ true → p role ≡ true)
    → all p roles ≡ true
all_from p [] h = refl
all_from p (role ∷ roles) h = ground (
  arith,
  h role (ground (arith, same_refl role)),
  all_from p roles (λ r i. h r (ground (arith, i))),
)

module _ {World : Type 0} (config : Config) (plan : SupervisorPlan)
    (reviewers : List AgentRole) where
  -- The three ends of a correction loop, with what the state then shows.
  pub data IsEnd (r : Ended × Session World) : Type 0 where
    accepted :
        r.0.0 ≡ complete
        → plan.approval_requirements.founder_approval_required ≡ false
        → all_accept reviewers r.1.trace ≡ true
        → is_settled r.1.integration_result ≡ true
        → IsEnd r
    awaiting :
        r.0.0 ≡ founder_approval_required
        → plan.approval_requirements.founder_approval_required ≡ true
        → all_accept reviewers r.1.trace ≡ true
        → is_settled r.1.integration_result ≡ true
        → IsEnd r
    exhausted :
        r.0.0 ≡ founder_approval_required
        → r.1.correction_cycles ≡ config.max_retry_cycles
        → (rejects r.1.final_qa_result
            || (rejects r.1.final_security_result || not (is_settled r.1.integration_result)))
          ≡ true
        → IsEnd r

  -- The end, the bound on the corrections, and a report that is the one of the final state.
  pub record IsFinal (r : Ended × Session World) : Type 0 where
    pub end : IsEnd r
    pub bounded : r.1.correction_cycles ≤ config.max_retry_cycles
    pub extra : List Reason
    pub reported : r.0.1 ≡ final_report config plan r.0.0 extra r.1

  pub finish_successfully-IsFinal :
      (s : Session World)
      → all_accept reviewers s.trace ≡ true
      → is_settled s.integration_result ≡ true
      → s.correction_cycles ≤ config.max_retry_cycles
      → Holds IsFinal (finish_successfully config plan s)
  unfolding finish_successfully build_final_report final_report
  finish_successfully-IsFinal s accept settle bound =
      if-Holds IsFinal plan.approval_requirements.founder_approval_required _ _ _
        (λ required. record {
          end = awaiting refl required accept settle;
          bounded = bound;
          extra = [];
          reported = refl;
        })
        (λ free. record {
          end = accepted refl free accept settle;
          bounded = bound;
          extra = [];
          reported = refl;
        })

  pub retry_or_escalate-IsFinal :
      (reason : Reason) (again : Run World Ended) (s : Session World)
      → s.correction_cycles ≤ config.max_retry_cycles
      → (rejects s.final_qa_result
          || (rejects s.final_security_result || not (is_settled s.integration_result)))
        ≡ true
      → (suc s.correction_cycles ≤ config.max_retry_cycles
          → Holds IsFinal (again (record s { correction_cycles = suc s.correction_cycles })))
      → Holds IsFinal (retry_or_escalate config plan reason again s)
  unfolding retry_or_escalate build_final_report final_report
  retry_or_escalate-IsFinal reason again s bound rejected later =
      if-Holds IsFinal (leb config.max_retry_cycles s.correction_cycles) _ _ s
        (λ full. record {
          end = exhausted refl (ground (arith, full, bound)) rejected;
          bounded = bound;
          extra = reason ∷ [];
          reported = refl;
        })
        (λ free. later (ground (arith, free)))

  -- After a review: `again` is only asked for where a correction is left.
  pub after_review-IsFinal :
      (needs_correction : Bool) (again : String → Run World Ended) (before s : Session World)
      → IsRound reviewers before needs_correction s
      → is_settled before.integration_result ≡ true
      → before.correction_cycles ≤ config.max_retry_cycles
      → ((feedback : String) (s' : Session World)
          → core s' ≡ (suc before.correction_cycles, before.integration_result)
          → suc before.correction_cycles ≤ config.max_retry_cycles
          → Holds IsFinal (again feedback s'))
      → Holds IsFinal (after_review config plan needs_correction again s)
  unfolding after_review
  after_review-IsFinal needs_correction again before s round settle bound later =
      let cycles_same = ap (λ c. c.0) round.same_core in
      let result_same = ap (λ c. c.1) round.same_core in
      let within = subst (λ n. n ≤ config.max_retry_cycles) (sym cycles_same) bound in
      if-Holds IsFinal (not needs_correction) _ _ s
        (λ fine.
          finish_successfully-IsFinal s
            (all_from _ reviewers (λ w i. round.accepted w i (ground (arith, fine))))
            (ap is_settled result_same ∙ settle) within)
        (λ bad. retry_or_escalate-IsFinal _ _ _ within (ground (arith, bad, round.found)) (λ free.
          later _ _ (ap (λ c. (suc c.0, c.1)) round.same_core)
            (subst (λ n. suc n ≤ config.max_retry_cycles) cycles_same free)))
