-- ===== src/Runner/Rounds.antt =====
-- One round of reviews (orchestrator/src/supervisor/orchestrator.ts): what it finds stands in the
-- state, and a round that finds nothing to change leaves every reviewer's acceptance.
use muslimrentals.Prelude.{
  ◌≡◌, refl, ◌∙◌, ap, sym, ℕ, String, Bool, true, false, ◌||◌, Option, none, some, List, ◌∷◌, all,
  includes, arith, inl, inr, eq_of_same,
}
use muslimrentals.Roles.{AgentRole, qa, security, role_equality}
use muslimrentals.Agents.{is_reviewer_role}
use muslimrentals.Runner.{
  ReviewVerdict, ReviewResult, IntegrationResult, PrerequisiteArtifact, Config, Session,
}
use muslimrentals.Runner.Outside.{Outside}
use muslimrentals.Runner.Workers.{invoke_reviewer, map_run}
use muslimrentals.Runner.Reviews.{rejects, verdict_of, store_results, write_review}
use muslimrentals.Runner.Loops.{review_round}
use muslimrentals.Runner.Holds.{
  Holds, Holds-and, Holds-all, and_then-Holds, Keeps, map_run-Keeps, core,
}
use muslimrentals.Runner.Frames.{invoke_reviewer-Keeps}
use muslimrentals.Runner.Verdicts.{
  latest_verdict, accepts, last_verdict, reviews-seen, last_verdict-included, reviewer-cases,
  store_results-verdicts, store_results-Keeps, verdict_accepted,
}

-- What the artifacts that are written leave alone.
abbrev kept :
    {World : Type 0}
    → Session World
    → (ℕ × Option IntegrationResult)
      × ((Option ReviewResult × Option ReviewResult) × (AgentRole → Option ReviewVerdict))
kept s = (
  core s,
  ((s.final_qa_result, s.final_security_result), λ watched. latest_verdict watched s.trace),
)

write_review-Keeps :
    {World : Type 0} (role : AgentRole) (result : Option ReviewResult)
    → Keeps {World = World} kept (write_review role result)
write_review-Keeps role none s = refl
write_review-Keeps role (some result) s = refl

-- A reviewer whose result is stored and asks for nothing has accepted.
stored-accepts :
    {World : Type 0} (s : Session World) (watched : AgentRole) (reviewers : List AgentRole)
    (results : List ReviewResult) (v : ReviewVerdict)
    → all is_reviewer_role reviewers ≡ true
    → is_reviewer_role watched ≡ true
    → ((old : Option ReviewVerdict) → last_verdict watched reviewers results old ≡ some v)
    → let stored = store_results reviewers results s in
      (rejects stored.final_qa_result || rejects stored.final_security_result) ≡ false
      → accepts (some v) ≡ true
stored-accepts s watched reviewers results v reviewer watches same unrejected =
    let stored = store_results reviewers results s in
    let (on_qa, on_security) = store_results-verdicts reviewers results s reviewer in
    elim (reviewer-cases watched watches) [
      | inl e ↦ verdict_accepted stored.final_qa_result v (ground (arith, unrejected)) (
          on_qa
          ∙ (ap (λ w. last_verdict w reviewers results (verdict_of s.final_qa_result)) (sym e)
              ∙ same _))
      | inr e ↦ verdict_accepted stored.final_security_result v (ground (arith, unrejected)) (
          on_security
          ∙ (ap (λ w. last_verdict w reviewers results (verdict_of s.final_security_result)) (sym e)
              ∙ same _))
    ]

all-member :
    (p : AgentRole → Bool) (watched : AgentRole) (roles : List AgentRole)
    → all p roles ≡ true
    → includes watched roles ≡ true
    → p watched ≡ true
all-member p watched List.[] h i = cc
all-member p watched (role ∷ roles) h i =
    ground (arith, h, i, all-member p watched roles, eq_of_same watched role)

-- What a round leaves behind.
pub record IsRound {World : Type 0} (reviewers : List AgentRole) (s : Session World)
    (needs_correction : Bool) (after : Session World) : Type 0 where
  pub same_core : core after ≡ core s
  pub found :
      needs_correction ≡ (rejects after.final_qa_result || rejects after.final_security_result)
  pub accepted :
      (watched : AgentRole)
      → includes watched reviewers ≡ true
      → needs_correction ≡ false
      → accepts (latest_verdict watched after.trace) ≡ true

module _ {World : Type 0} (outside : Outside World) (config : Config) where
  pub review_round-IsRound :
      (target path : String) (context : List PrerequisiteArtifact) (suffix : String)
      (reviewers : List AgentRole) (s : Session World)
      → all is_reviewer_role reviewers ≡ true
      → Holds
          (λ r. IsRound reviewers s r.0 r.1)
          (review_round outside config target path context suffix reviewers s)
  unfolding review_round
  review_round-IsRound target path context suffix reviewers s reviewer =
      let reviews = map_run (invoke_reviewer outside config target path context suffix) reviewers in
      and_then-Holds _ _ (reviews s) _
        (Holds-and _ _ (reviews s)
          (Holds-all _ qa (reviews s)
            (λ w. reviews-seen outside config w target path context suffix reviewers s reviewer))
          (map_run-Keeps core _ reviewers
            (invoke_reviewer-Keeps outside config target path context suffix) s))
        (λ results s1 (sight, same).
          let stored = store_results reviewers results s1 in
          and_then-Holds (λ r. kept r.1 ≡ kept stored) _ (write_review qa _ stored) _
            (write_review-Keeps qa stored.final_qa_result stored)
            (λ _ s2 e2.
              and_then-Holds (λ r. kept r.1 ≡ kept s2) _ (write_review security _ s2) _
                (write_review-Keeps security stored.final_security_result s2)
                (λ _ s3 e3.
                  let e = e3 ∙ e2 in
                  record {
                    same_core =
                        ap (λ k. k.0) e
                        ∙ (store_results-Keeps core (λ _ _. refl) (λ _ _. refl) reviewers results s1
                            ∙ same);
                    found = sym (ap (λ k. rejects k.1.0.0 || rejects k.1.0.1) e);
                    accepted = λ w i unrejected.
                        let (v, last) = last_verdict-included w reviewers results i (sight w).1 in
                        let read =
                          ap (λ k. k.1.1 w) e
                          ∙ (store_results-Keeps (λ t. latest_verdict w t.trace) (λ _ _. refl)
                                (λ _ _. refl) reviewers results s1
                              ∙ (ap (λ x. x.0) (sight w).0 ∙ last _)) in
                        ap accepts read
                        ∙ stored-accepts s1 w reviewers results v reviewer
                            (all-member is_reviewer_role w reviewers reviewer i) last unrejected;
                  })))
