-- ===== src/Runner/Verdicts.antt =====
-- What a round of reviews leaves behind (`invokeReviewer` and the rounds of the correction loops,
-- orchestrator/src/supervisor/orchestrator.ts).
use muslimrentals.Prelude.{
  ◌⊎◌, ◌≡◌, refl, ◌∙◌, ap, suc, String, Bool, true, false, not, ◌||◌, Option, none, some, List, [],
  ◌∷◌, ◌==◌, length, all, includes, if◌then◌else◌, arith, string_equality, same_refl, eq_of_same,
  Bool-cases, inl, inr,
}
use muslimrentals.Roles.{AgentRole, qa, security, role_rank, role_equality}
use muslimrentals.Agents.{is_reviewer_role}
use muslimrentals.Agents.Permissions.{get_profile-IsSeparated}
use muslimrentals.Runner.{
  Event, invoked, review_verdict, ReviewVerdict, ReviewResult, InvokeRequest, Instruction,
  PrerequisiteArtifact, Config, Session, pure,
}
use muslimrentals.Runner.Outside.{Attempt, Outside}
use muslimrentals.Runner.Workers.{launch, log_if_invalid, invoke_reviewer, map_run}
use muslimrentals.Runner.Requests.{profile_request, parsed_review}
use muslimrentals.Runner.Reviews.{needs_changes, rejects, verdict_of, store_results}
use muslimrentals.Runner.Holds.{Holds, Holds-map, and_then-Holds, Keeps, call-Keeps}

-- A session that may change files.
abbrev pub can_write : InvokeRequest → Bool
can_write request = includes "Write" request.tools || includes "Edit" request.tools

-- The last verdict of a role since the last session that may have changed files.
abbrev pub latest_verdict : AgentRole → List Event → Option ReviewVerdict
latest_verdict role [] = none
latest_verdict role (invoked request ∷ trace) =
    if can_write request then none else latest_verdict role trace
latest_verdict role (review_verdict r target verdict ∷ trace) =
    if r == role then some verdict else latest_verdict role trace
latest_verdict role (event ∷ trace) = latest_verdict role trace

abbrev pub accepts : Option ReviewVerdict → Bool
accepts none = false
accepts (some verdict) = not (needs_changes verdict)

-- Every reviewer has accepted what stands there now.
abbrev pub all_accept : List AgentRole → List Event → Bool
all_accept reviewers trace = all (λ role. accepts (latest_verdict role trace)) reviewers

reviewer_cannot_write :
    (role : AgentRole) (cwd : String) (instruction : Instruction)
    (artifacts : List PrerequisiteArtifact) (feedback : Option String)
    → is_reviewer_role role ≡ true
    → can_write (profile_request role cwd instruction artifacts feedback) ≡ false
unfolding profile_request
reviewer_cannot_write role cwd instruction artifacts feedback h =
    let separated = get_profile-IsSeparated role in
    ground (arith, separated.writes, separated.edits, separated.independent)

module _ {World : Type 0} (watched : AgentRole) where
  -- What is known of one reviewer, and the results kept.
  abbrev pub seen :
      Session World → Option ReviewVerdict × (Option ReviewResult × Option ReviewResult)
  seen s = (latest_verdict watched s.trace, (s.final_qa_result, s.final_security_result))

  launch-Keeps-seen :
      {A : Type 0} (ask : InvokeRequest → World → Attempt (Option A) × World)
      (request : InvokeRequest)
      → can_write request ≡ false
      → Keeps seen (launch ask request)
  unfolding launch
  launch-Keeps-seen ask request harmless s =
      Holds-map _ (λ r. seen r.1 ≡ seen s) _
        (λ r e.
          e
          ∙ ap
              (λ b. (
                if b then none else latest_verdict watched s.trace,
                (s.final_qa_result, s.final_security_result),
              ))
              harmless)
        (call-Keeps seen (ask request) (λ _ _. refl) _)

  log_if_invalid-Keeps-seen :
      {A : Type 0} (role : AgentRole) (answer : Option A) → Keeps seen (log_if_invalid role answer)
  log_if_invalid-Keeps-seen role none s = refl
  log_if_invalid-Keeps-seen role (some a) s = refl

-- The last verdict of a role among results in the order of their roles.
abbrev pub last_verdict :
    AgentRole → List AgentRole → List ReviewResult → Option ReviewVerdict → Option ReviewVerdict
last_verdict watched (role ∷ roles) (result ∷ results) old =
    last_verdict watched roles results (if role == watched then some result.verdict else old)
last_verdict watched roles results old = old

module _ {World : Type 0} (outside : Outside World) (config : Config) (watched : AgentRole)
    (target path : String) (context : List PrerequisiteArtifact) (suffix : String) where
  invoke_reviewer-seen :
      (role : AgentRole) (s : Session World)
      → is_reviewer_role role ≡ true
      → Holds
          (λ r. seen watched r.1 ≡ (
            if role == watched then some r.0.verdict else latest_verdict watched s.trace,
            (s.final_qa_result, s.final_security_result),
          ))
          (invoke_reviewer outside config target path context suffix role s)
  unfolding invoke_reviewer
  invoke_reviewer-seen role s reviewer =
      and_then-Holds (λ r. seen watched r.1 ≡ seen watched s) _ (launch outside.ask_review _ s) _
        (launch-Keeps-seen watched outside.ask_review _
          (reviewer_cannot_write role path _ _ none reviewer) s)
        (λ answer s1 e1.
          and_then-Holds (λ r. seen watched r.1 ≡ seen watched s1) _ (log_if_invalid role answer s1)
            _ (log_if_invalid-Keeps-seen watched role answer s1)
            (λ _ s2 e2.
              let verdict = (parsed_review role config.task_id answer).verdict in
              ap (λ x. (if role == watched then some verdict else x.0, x.1)) (e2 ∙ e1)))

  pub reviews-seen :
      (roles : List AgentRole) (s : Session World)
      → all is_reviewer_role roles ≡ true
      → Holds
          (λ r.
            (seen watched r.1 ≡ (
              last_verdict watched roles r.0 (latest_verdict watched s.trace),
              (s.final_qa_result, s.final_security_result),
            ))
            × (length r.0 ≡ length roles))
          (map_run (invoke_reviewer outside config target path context suffix) roles s)
  unfolding map_run
  reviews-seen [] s h = (refl, refl)
  reviews-seen (role ∷ roles) s h =
      and_then-Holds _ _ (invoke_reviewer outside config target path context suffix role s) _
        (invoke_reviewer-seen role s (ground (arith, h)))
        (λ result s1 e1.
          and_then-Holds _ _
            (map_run (invoke_reviewer outside config target path context suffix) roles s1)
            (λ results. pure (result ∷ results)) (reviews-seen roles s1 (ground (arith, h)))
            (λ results s2 (e2, l).
              (e2 ∙ ap (λ x. (last_verdict watched roles results x.0, x.1)) e1, ap suc l)))

last_verdict-absent :
    (watched : AgentRole) (roles : List AgentRole) (results : List ReviewResult)
    (old : Option ReviewVerdict)
    → includes watched roles ≡ false
    → last_verdict watched roles results old ≡ old
last_verdict-absent watched [] results old h = refl
last_verdict-absent watched (role ∷ roles) [] old h = refl
last_verdict-absent watched (role ∷ roles) (result ∷ results) old h = ground (
  arith,
  h,
  last_verdict-absent watched roles results old,
  eq_of_same role watched,
  same_refl role,
)

pub last_verdict-included :
    (watched : AgentRole) (roles : List AgentRole) (results : List ReviewResult)
    → includes watched roles ≡ true
    → length results ≡ length roles
    → (v : ReviewVerdict) × ((old : Option ReviewVerdict)
        → last_verdict watched roles results old ≡ some v)
last_verdict-included watched [] results h l = cc
last_verdict-included watched (role ∷ roles) [] h l = cc
last_verdict-included watched (role ∷ roles) (result ∷ results) h l =
    elim (Bool-cases (includes watched roles)) [
      | inl later ↦
          (let (v, same) = last_verdict-included watched roles results later (ground (arith, l)) in
            (v, λ old. same _))
      | inr absent ↦ (
        result.verdict,
        λ old. ground (
          arith,
          h,
          absent,
          last_verdict-absent watched roles results (some result.verdict) absent,
          eq_of_same watched role,
          same_refl role,
        ),
      )
    ]

pub reviewer-cases :
    (role : AgentRole) → is_reviewer_role role ≡ true → (role ≡ qa) ⊎ (role ≡ security)
unfolding is_reviewer_role
reviewer-cases role h = ground (arith, eq_of_same role qa, eq_of_same role security)

module _ {World : Type 0} where
  pub store_results-verdicts :
      (roles : List AgentRole) (results : List ReviewResult) (s : Session World)
      → all is_reviewer_role roles ≡ true
      → let stored = store_results roles results s in
        (verdict_of stored.final_qa_result
          ≡ last_verdict qa roles results (verdict_of s.final_qa_result))
        × (verdict_of stored.final_security_result
            ≡ last_verdict security roles results (verdict_of s.final_security_result))
  unfolding store_results role_rank
  store_results-verdicts [] results s h = (refl, refl)
  store_results-verdicts (role ∷ roles) [] s h = (refl, refl)
  store_results-verdicts (role ∷ roles) (result ∷ results) s h =
      elim (reviewer-cases role (ground (arith, h))) [
        | inl e ↦ rw e (
            store_results-verdicts roles results (record s { final_qa_result = some result })
              (ground (arith, h)))
        | inr e ↦ rw e (
            store_results-verdicts roles results (record s { final_security_result = some result })
              (ground (arith, h)))
      ]

pub store_results-Keeps :
    {World X : Type 0} (f : Session World → X)
    → ((s : Session World) (r : Option ReviewResult) → f (record s { final_qa_result = r }) ≡ f s)
    → ((s : Session World) (r : Option ReviewResult)
        → f (record s { final_security_result = r }) ≡ f s)
    → (roles : List AgentRole) (results : List ReviewResult) (s : Session World)
    → f (store_results roles results s) ≡ f s
unfolding store_results
store_results-Keeps f on_qa on_security [] results s = refl
store_results-Keeps f on_qa on_security (role ∷ roles) [] s = refl
store_results-Keeps f on_qa on_security (role ∷ roles) (result ∷ results) s =
    elim (Bool-cases (role == qa)) [
      | inl e ↦
          rw e (store_results-Keeps f on_qa on_security roles results _ ∙ on_qa s (some result))
      | inr e ↦
          rw e
            (store_results-Keeps f on_qa on_security roles results _ ∙ on_security s (some result))
    ]

pub verdict_accepted :
    (result : Option ReviewResult) (v : ReviewVerdict)
    → rejects result ≡ false
    → verdict_of result ≡ some v
    → accepts (some v) ≡ true
verdict_accepted none v h e = cc
verdict_accepted (some result) v h e =
    let same : result.verdict ≡ v = cc e in ground (arith, h, same)
