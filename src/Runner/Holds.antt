-- ===== src/Runner/Holds.antt =====
-- A method of `Runner` (orchestrator/src/supervisor/orchestrator.ts) at a time: what holds of its
-- result, unless it throws, and which part of the state it leaves alone.
use muslimrentals.Prelude.{
  ℕ, ◌≡◌, refl, ◌∙◌, subst, Bool, true, false, Option, List, [], ◌∷◌, all, arith, if◌then◌else◌,
}
use muslimrentals.Runner.{
  IntegrationResult, Session, Outcome, finished, failed, out_of_fuel, Run, pure, and_then,
}
use muslimrentals.Runner.Outside.{Attempt, made, threw, call, settle, rethrow}
use muslimrentals.Runner.Workers.{map_run}

-- The method ended, and if it returned then `Q` holds of what it returned.
abbrev pub Holds : {A : Type 0} → (A → Type 0) → Outcome A → Type 0
Holds Q (finished a) = Q a
Holds Q (failed message) = Unit
Holds Q out_of_fuel = ⊥

pub Holds-map :
    {A : Type 0} (Q R : A → Type 0) (o : Outcome A) → ((a : A) → Q a → R a) → Holds Q o → Holds R o
Holds-map Q R (finished a) weaker h = weaker a h
Holds-map Q R (failed message) weaker h = tt
Holds-map Q R out_of_fuel weaker h = h

pub Holds-finished :
    {A : Type 0} (Q : A → Type 0) (o : Outcome A) (a : A) → Holds Q o → o ≡ finished a → Q a
Holds-finished Q o a h e = subst (Holds Q) e h

pub Holds-ends : {A : Type 0} (Q : A → Type 0) (o : Outcome A) → Holds Q o → o ≡ out_of_fuel → ⊥
Holds-ends Q o h e = subst (Holds Q) e h

module _ {World A B : Type 0} (Q : A × Session World → Type 0)
    (R : B × Session World → Type 0) where
  pub and_then-Holds :
      (o : Outcome (A × Session World)) (k : A → Run World B)
      → Holds Q o
      → ((a : A) (s : Session World) → Q (a, s) → Holds R (k a s))
      → Holds R (and_then o k)
  and_then-Holds (finished (a, s)) k h later = later a s h
  and_then-Holds (failed message) k h later = tt
  and_then-Holds out_of_fuel k h later = h

module _ {World X : Type 0} (f : Session World → X) where
  -- The method leaves `f` of the state alone.
  abbrev pub Keeps : {A : Type 0} → Run World A → Type 0
  Keeps m = (s : Session World) → Holds (λ r. f r.1 ≡ f s) (m s)

  pub >>=-Keeps :
      {A B : Type 0} (m : Run World A) (k : A → Run World B)
      → Keeps m
      → ((a : A) → Keeps (k a))
      → Keeps (λ s. and_then (m s) k)
  >>=-Keeps m k first later s =
      and_then-Holds (λ r. f r.1 ≡ f s) (λ r. f r.1 ≡ f s) (m s) k (first s)
        (λ a s' e.
          Holds-map (λ r. f r.1 ≡ f s') (λ r. f r.1 ≡ f s) (k a s') (λ r e'. e' ∙ e) (later a s'))

  -- What the state had before, it has after.
  pub then-Keeps :
      {A B : Type 0} (R : B × Session World → Type 0) (m : Run World A) (k : A → Run World B)
      (s : Session World) (x : X)
      → Keeps m
      → f s ≡ x
      → ((a : A) (s' : Session World) → f s' ≡ x → Holds R (k a s'))
      → Holds R (and_then (m s) k)
  then-Keeps R m k s x keeps e later =
      and_then-Holds (λ r. f r.1 ≡ f s) R (m s) k (keeps s) (λ a s' e'. later a s' (e' ∙ e))

  pub map_run-Keeps :
      {A B : Type 0} (m : A → Run World B) (xs : List A)
      → ((a : A) → Keeps (m a))
      → Keeps (map_run m xs)
  unfolding map_run
  map_run-Keeps m [] each s = refl
  map_run-Keeps m (x ∷ xs) each s =
      >>=-Keeps (m x) _ (each x)
        (λ b.
          >>=-Keeps (map_run m xs) (λ bs. pure (b ∷ bs)) (map_run-Keeps m xs each) (λ bs s'. refl))
        s

  -- Only the items that pass a test need to leave it alone.
  pub map_run-Keeps-all :
      {A B : Type 0} (p : A → Bool) (m : A → Run World B) (xs : List A)
      → ((a : A) → p a ≡ true → Keeps (m a))
      → all p xs ≡ true
      → Keeps (map_run m xs)
  unfolding map_run
  map_run-Keeps-all p m [] each h s = refl
  map_run-Keeps-all p m (x ∷ xs) each h s =
      >>=-Keeps (m x) _ (each x (ground (arith, h)))
        (λ b.
          >>=-Keeps (map_run m xs) (λ bs. pure (b ∷ bs))
            (map_run-Keeps-all p m xs each (ground (arith, h))) (λ bs s'. refl))
        s

  rethrow-Holds :
      {A : Type 0} (s : Session World) (r : Attempt A × Session World)
      → f r.1 ≡ f s
      → Holds (λ a. f a.1 ≡ f s) (rethrow r)
  rethrow-Holds s (made a, s') e = e
  rethrow-Holds s (threw message, s') e = tt

  -- A call of the outside changes the world only.
  pub call-Keeps :
      {A : Type 0} (ask : World → Attempt A × World)
      → ((s : Session World) (world : World) → f (record s { world = world }) ≡ f s)
      → Keeps (call ask)
  call-Keeps ask inner s = rethrow-Holds s (settle s (ask s.world)) (inner s _)

-- The cycles of correction and the result of the integration.
abbrev pub core : {World : Type 0} → Session World → ℕ × Option IntegrationResult
core s = (s.correction_cycles, s.integration_result)

-- After a call of the outside the core is still what it was.
pub call-then :
    {World A B : Type 0} (R : B × Session World → Type 0) (ask : World → Attempt A × World)
    (k : A → Run World B) (s : Session World) (x : ℕ × Option IntegrationResult)
    → core s ≡ x
    → ((a : A) (s' : Session World) → core s' ≡ x → Holds R (k a s'))
    → Holds R (and_then (call ask s) k)
call-then R ask k s x = then-Keeps core R (call ask) k s x (call-Keeps core ask (λ _ _. refl))

-- What the outside answered when it was asked.
settled-Holds :
    {World A B : Type 0} (R : B × Session World → Type 0) (k : A → Run World B) (s : Session World)
    (answer : Attempt A × World)
    → ((a : A) (world : World)
        → answer ≡ (made a, world)
        → Holds R (k a (record s { world = world })))
    → Holds R (and_then (rethrow (settle s answer)) k)
settled-Holds R k s (made a, world) later = later a world refl
settled-Holds R k s (threw message, world) later = tt

pub call-seen :
    {World A B : Type 0} (R : B × Session World → Type 0) (ask : World → Attempt A × World)
    (k : A → Run World B) (s : Session World)
    → ((a : A) (world : World)
        → ask s.world ≡ (made a, world)
        → Holds R (k a (record s { world = world })))
    → Holds R (and_then (call ask s) k)
call-seen R ask k s later = settled-Holds R k s (ask s.world) later

pub Holds-and :
    {A : Type 0} (Q R : A → Type 0) (o : Outcome A)
    → Holds Q o
    → Holds R o
    → Holds (λ a. Q a × R a) o
Holds-and Q R (finished a) q r = (q, r)
Holds-and Q R (failed message) q r = tt
Holds-and Q R out_of_fuel q r = q

-- What holds for each of an inhabited type holds for all at once.
pub Holds-all :
    {A I : Type 0} (Q : I → A → Type 0) (i : I) (o : Outcome A)
    → ((j : I) → Holds (Q j) o)
    → Holds (λ a. (j : I) → Q j a) o
Holds-all Q i (finished a) each = each
Holds-all Q i (failed message) each = tt
Holds-all Q i out_of_fuel each = each i

pub if-Holds :
    {A S : Type 0} (Q : A → Type 0) (b : Bool) (m n : S → Outcome A) (s : S)
    → (b ≡ true → Holds Q (m s))
    → (b ≡ false → Holds Q (n s))
    → Holds Q ((if b then m else n) s)
if-Holds Q true m n s on off = on refl
if-Holds Q false m n s on off = off refl
