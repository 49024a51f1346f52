-- ===== src/Concurrency/Progress.antt =====
-- The end of `mapConcurrent` (orchestrator/src/supervisor/concurrency.ts): every turn that is not
-- wasted brings it nearer, and at the end the results are those of the items.
use muslimrentals.Prelude.{
  ◌≡◌, refl, ◌∙◌, ap, sym, subst, inl, inr, ℕ, zero, suc, ◌+◌, ◌-◌, ◌*◌, ◌≤◌, ◌<◌, min, max, Bool,
  true, false, Option, none, some, List, [], ◌∷◌, length, get_elem?, any, all, ltb, arith,
  Bool-cases,
}
use muslimrentals.Concurrency.{
  Worker, ready, running, stopped, Pool, put, copies, start, turn, step, run_schedule,
}
use muslimrentals.Concurrency.Workers.{
  runs, is_stopped, length-put, length-copies, upto, start-IsSound, run_schedule-IsSound,
}

-- What a worker has left to do in its present round.
abbrev weight : Worker → ℕ
weight ready = 1
weight (running i) = 2
weight stopped = 0

abbrev weights : List Worker → ℕ
weights [] = 0
weights (w ∷ ws) = weight w + weights ws

weights-put :
    (k : ℕ) (old new : Worker) (ws : List Worker)
    → get_elem? ws k ≡ some old
    → weights (put k new ws) + weight old ≡ weights ws + weight new
unfolding put
weights-put k old new [] h = cc
weights-put zero old new (v ∷ ws) h = let same : v ≡ old = cc h in rw same (omega arith)
weights-put (suc k) old new (v ∷ ws) h = omega (arith, weights-put k old new ws h)

weights-copies : (n : ℕ) → weights (copies n) ≡ n
unfolding copies
weights-copies zero = refl
weights-copies (suc n) = omega (arith, weights-copies n)

-- A pool whose workers have not all returned has one that has not.
awake :
    (ws : List Worker)
    → all is_stopped ws ≡ false
    → (k : ℕ) × (w : Worker) × (get_elem? ws k ≡ some w) × (is_stopped w ≡ false)
awake [] h = cc
awake (ready ∷ ws) h = (0, ready, refl, refl)
awake (running i ∷ ws) h = (0, running i, refl, refl)
awake (stopped ∷ ws) h = let (k, w, at, up) = awake ws h in (suc k, w, at, up)

all_stopped-any :
    (ws : List Worker) → all is_stopped ws ≡ true → 1 ≤ length ws → any is_stopped ws ≡ true
all_stopped-any [] h l = (let absurd : ⊥ = omega (arith, l) in elim absurd [ ])
all_stopped-any (w ∷ ws) h l = ground (arith, h)

none_runs : (i : ℕ) (ws : List Worker) → all is_stopped ws ≡ true → any (runs i) ws ≡ false
none_runs i [] h = refl
none_runs i (stopped ∷ ws) h = none_runs i ws h
none_runs i (ready ∷ ws) h = cc
none_runs i (running j ∷ ws) h = cc

get_elem?-lt : {A : Type 0} (xs : List A) (i : ℕ) (x : A) → get_elem? xs i ≡ some x → i < length xs
get_elem?-lt [] i x h = cc
get_elem?-lt (y ∷ xs) zero x h = omega arith
get_elem?-lt (y ∷ xs) (suc i) x h = omega (arith, get_elem?-lt xs i x h)

-- The calls under way.
abbrev pub running_count : List Worker → ℕ
running_count [] = 0
running_count (running i ∷ ws) = suc (running_count ws)
running_count (ready ∷ ws) = running_count ws
running_count (stopped ∷ ws) = running_count ws

running_count-le : (ws : List Worker) → running_count ws ≤ length ws
running_count-le [] = omega arith
running_count-le (running i ∷ ws) = omega (arith, running_count-le ws)
running_count-le (ready ∷ ws) = omega (arith, running_count-le ws)
running_count-le (stopped ∷ ws) = omega (arith, running_count-le ws)

module _ {T R : Type 0} (items : List T) (fn : T → ℕ → R) where
  -- What is left to do: two turns for an index that is not taken, and the rounds under way.
  abbrev pub work : Pool R → ℕ
  work p = 2 * (length items - p.next) + weights p.workers

  abbrev pub is_finished : Pool R → Bool
  is_finished p = all is_stopped p.workers

  turn-work :
      (k : ℕ) (p : Pool R) (w : Worker)
      → get_elem? p.workers k ≡ some w
      → is_stopped w ≡ false
      → work (turn items fn k (some w) p) < work p
  unfolding turn
  turn-work k p stopped h up = cc
  turn-work k p ready h up = elim (Bool-cases (ltb p.next (length items))) [
    | inl more ↦ rw more (
        let room : p.next < length items = ground (arith, more) in
        omega (arith, weights-put k ready (running p.next) p.workers h, room))
    | inr over ↦ rw over (omega (arith, weights-put k ready stopped p.workers h))
  ]
  turn-work k p (running i) h up = omega (arith, weights-put k (running i) ready p.workers h)

  step-work :
      (k : ℕ) (p : Pool R) (w : Worker)
      → get_elem? p.workers k ≡ some w
      → is_stopped w ≡ false
      → work (step items fn k p) < work p
  unfolding step
  step-work k p w h up =
      subst (λ o. work (turn items fn k o p) < work p) (sym h) (turn-work k p w h up)

  finishes :
      (fuel : ℕ) (p : Pool R)
      → work p ≤ fuel
      → (schedule : List ℕ) × (length schedule ≤ fuel)
        × (is_finished (run_schedule items fn schedule p) ≡ true)
  unfolding run_schedule
  finishes zero p h = elim (Bool-cases (is_finished p)) [
    | inl done ↦ ([], omega arith, done)
    | inr going ↦
        (let (k, w, at, up) = awake p.workers going in
          let absurd : ⊥ = omega (arith, step-work k p w at up, h) in elim absurd [ ])
  ]
  finishes (suc fuel) p h = elim (Bool-cases (is_finished p)) [
    | inl done ↦ ([], omega arith, done)
    | inr going ↦
        (let (k, w, at, up) = awake p.workers going in
          let (schedule, short, done) =
            finishes fuel (step items fn k p) (omega (arith, step-work k p w at up, h)) in
          (k ∷ schedule, omega (arith, short), done))
  ]

  length-turn :
      (k : ℕ) (w : Option Worker) (p : Pool R)
      → length (turn items fn k w p).workers ≡ length p.workers
  unfolding turn
  length-turn k none p = refl
  length-turn k (some stopped) p = refl
  length-turn k (some ready) p = elim (Bool-cases (ltb p.next (length items))) [
    | inl more ↦ rw more (length-put k (running p.next) p.workers)
    | inr over ↦ rw over (length-put k stopped p.workers)
  ]
  length-turn k (some (running i)) p = length-put k ready p.workers

  length-workers :
      (schedule : List ℕ) (p : Pool R)
      → length (run_schedule items fn schedule p).workers ≡ length p.workers
  unfolding run_schedule step
  length-workers [] p = refl
  length-workers (k ∷ schedule) p =
      length-workers schedule (step items fn k p) ∙ length-turn k (get_elem? p.workers k) p

  length-start :
      (limit : ℕ) → length (start items fn limit).workers ≡ max 1 (min limit (length items))
  unfolding start
  length-start limit = length-copies (max 1 (min limit (length items)))

  -- However the workers take turns, when all have returned `fn` has been called once for each index,
  -- in order, and each result stands at the index of its item.
  pub map_concurrent-results :
      (limit : ℕ) (schedule : List ℕ) (i : ℕ) (item : T)
      → let p = run_schedule items fn schedule (start items fn limit) in
        is_finished p ≡ true
        → get_elem? items i ≡ some item
        → (p.results i ≡ some (fn item i)) × (p.calls ≡ upto (length items))
  map_concurrent-results limit schedule i item done found =
      let p = run_schedule items fn schedule (start items fn limit) in
      let sound = run_schedule-IsSound items fn schedule _ (start-IsSound items fn limit) in
      let many : 1 ≤ length p.workers =
        omega (arith, length-workers schedule (start items fn limit), length-start limit) in
      let taken = sound.finished (all_stopped-any p.workers done many) in
      let here : i < length items = get_elem?-lt items i item found in
      let all_taken : min p.next (length items) ≡ length items = omega (arith, taken) in
      (
        elim (sound.placed i (omega (arith, here, taken)) here) [
          | inl written ↦ written ∙ ground (arith, found)
          | inr awaited ↦ cc (none_runs i p.workers done)
        ],
        sound.in_order ∙ ap upto all_taken,
      )

  -- No more than `limit` calls are under way at once, and no more than one where the limit is 0.
  pub map_concurrent-limit :
      (limit : ℕ) (schedule : List ℕ)
      → running_count (run_schedule items fn schedule (start items fn limit)).workers ≤ max 1 limit
  map_concurrent-limit limit schedule =
      let p = run_schedule items fn schedule (start items fn limit) in
      omega (
        arith,
        running_count-le p.workers,
        length-workers schedule (start items fn limit),
        length-start limit,
      )

  -- Whatever turns were taken, the map can be brought to its end, in at most as many turns as `work`
  -- counts: two for each index that is not taken, and what each worker has left of its round.
  pub map_concurrent-finishes :
      (limit : ℕ) (turns : List ℕ)
      → let p = run_schedule items fn turns (start items fn limit) in
        (schedule : List ℕ) × (length schedule ≤ work p)
        × (is_finished (run_schedule items fn schedule p) ≡ true)
  map_concurrent-finishes limit turns = finishes _ _ (omega arith)
