-- ===== src/Concurrency/Workers.antt =====
-- The pool of `mapConcurrent` (orchestrator/src/supervisor/concurrency.ts) under any schedule.
use muslimrentals.Prelude.{
  ◌≡◌, refl, ◌∙◌, ap, sym, ◌⊎◌, inl, inr, ℕ, zero, suc, ◌≤◌, ◌<◌, min, max, Bool, true, false, ◌||◌,
  Option, none, some, List, [], ◌∷◌, ◌++◌, length, get_elem?, any, ltb, eqb, eqb_iff, arith,
  Bool-cases,
}
use muslimrentals.Concurrency.{
  Worker, ready, running, stopped, Pool, put, copies, called, start, turn, step, run_schedule,
}

abbrev pub runs : ℕ → Worker → Bool
runs i (running j) = eqb i j
runs i ready = false
runs i stopped = false

abbrev pub is_stopped : Worker → Bool
is_stopped stopped = true
is_stopped ready = false
is_stopped (running i) = false

pub length-put : (k : ℕ) (w : Worker) (ws : List Worker) → length (put k w ws) ≡ length ws
unfolding put
length-put k w [] = refl
length-put zero w (v ∷ ws) = refl
length-put (suc k) w (v ∷ ws) = ap suc (length-put k w ws)

-- Of a worker that is replaced, a test changes by that worker only.
any-put :
    (p : Worker → Bool) (k : ℕ) (old new : Worker) (ws : List Worker)
    → get_elem? ws k ≡ some old
    → p old ≡ false
    → any p (put k new ws) ≡ (p new || any p ws)
unfolding put
any-put p k old new [] h e = cc
any-put p zero old new (v ∷ ws) h e = let same : v ≡ old = cc h in ground (arith, e, same)
any-put p (suc k) old new (v ∷ ws) h e = ground (arith, any-put p k old new ws h e)

pub length-copies : (n : ℕ) → length (copies n) ≡ n
unfolding copies
length-copies zero = refl
length-copies (suc n) = ap suc (length-copies n)

pub none-copies : (p : Worker → Bool) (n : ℕ) → p ready ≡ false → any p (copies n) ≡ false
unfolding copies
none-copies p zero h = refl
none-copies p (suc n) h = ground (arith, h, none-copies p n h)

-- The first `n` indices.
unfoldable pub upto : ℕ → List ℕ
upto zero = []
upto (suc n) = upto n ++ n ∷ []

module _ {T R : Type 0} (items : List T) (fn : T → ℕ → R) where
  -- What holds of a pool at any time: an index that is taken is under way or has its result, a
  -- worker returns only when all are taken, and the calls so far are those of the first indices.
  pub record IsSound (p : Pool R) : Type 0 where
    pub placed :
        (i : ℕ)
        → i < p.next
        → i < length items
        → (p.results i ≡ called items fn i) ⊎ (any (runs i) p.workers ≡ true)
    pub finished : any is_stopped p.workers ≡ true → length items ≤ p.next
    pub in_order : p.calls ≡ upto (min p.next (length items))

  pub start-IsSound : (limit : ℕ) → IsSound (start items fn limit)
  unfolding start upto
  start-IsSound limit = record {
    placed = λ i h _. (let absurd : ⊥ = omega (arith, h) in elim absurd [ ]);
    finished =
        λ h. ground (arith, h, none-copies is_stopped (max 1 (min limit (length items))) refl);
    in_order = ap upto (sym min_zero);
  }
    where
      min_zero : min 0 (length items) ≡ 0
      min_zero = omega arith

  -- The worker at the head of its loop takes an index, or returns.
  take-IsSound :
      (k : ℕ) (p : Pool R)
      → IsSound p
      → get_elem? p.workers k ≡ some ready
      → IsSound (turn items fn k (some ready) p)
  unfolding turn upto
  take-IsSound k p sound h = elim (Bool-cases (ltb p.next (length items))) [
    | inl more ↦ rw more (
        let here : min p.next (length items) ≡ p.next = ground (arith, more) in
        let after : suc p.next ≡ min (suc p.next) (length items) = ground (arith, more) in
        record {
          placed = λ i l m.
              let changed = any-put (runs i) k ready (running p.next) p.workers h refl in
              elim (Bool-cases (eqb i p.next)) [
                | inl same ↦ inr (changed ∙ ground (arith, same))
                | inr other ↦ elim (sound.placed i (ground (arith, l, other)) m) [
                  | inl written ↦ inl written
                  | inr awaited ↦ inr (changed ∙ ground (arith, awaited))
                ]
              ];
          finished = λ s.
              let before = sym (any-put is_stopped k ready (running p.next) p.workers h refl) ∙ s in
              omega (arith, sound.finished before);
          in_order = ap (λ c. c ++ p.next ∷ []) (sound.in_order ∙ ap upto here) ∙ ap upto after;
        })
    | inr over ↦ rw over (
        let same : min p.next (length items) ≡ min (suc p.next) (length items) =
          ground (arith, over) in
        record {
          placed = λ i l m. elim (sound.placed i (ground (arith, m, over)) m) [
            | inl written ↦ inl written
            | inr awaited ↦
                inr (any-put (runs i) k ready stopped p.workers h refl ∙ ground (arith, awaited))
          ];
          finished = λ s. ground (arith, over);
          in_order = sound.in_order ∙ ap upto same;
        })
  ]

  -- A result is written by the worker that waited for it.
  write-IsSound :
      (k i : ℕ) (p : Pool R)
      → IsSound p
      → get_elem? p.workers k ≡ some (running i)
      → IsSound (turn items fn k (some (running i)) p)
  unfolding turn
  write-IsSound k i p sound h = record {
    placed = λ j l m. elim (Bool-cases (eqb j i)) [
      | inl same ↦ inl (rw same (ap (called items fn) (sym ((eqb_iff j i).0 same))))
      | inr other ↦ elim (sound.placed j l m) [
        | inl written ↦ inl (ground (arith, other, written))
        | inr awaited ↦
            inr (any-put (runs j) k (running i) ready p.workers h other ∙ ground (arith, awaited))
      ]
    ];
    finished =
        λ s. sound.finished (sym (any-put is_stopped k (running i) ready p.workers h refl) ∙ s);
    in_order = sound.in_order;
  }

  turn-IsSound :
      (k : ℕ) (p : Pool R) (w : Option Worker)
      → IsSound p
      → get_elem? p.workers k ≡ w
      → IsSound (turn items fn k w p)
  unfolding turn
  turn-IsSound k p none sound h = sound
  turn-IsSound k p (some stopped) sound h = sound
  turn-IsSound k p (some ready) sound h = take-IsSound k p sound h
  turn-IsSound k p (some (running i)) sound h = write-IsSound k i p sound h

  pub run_schedule-IsSound :
      (schedule : List ℕ) (p : Pool R) → IsSound p → IsSound (run_schedule items fn schedule p)
  unfolding run_schedule step
  run_schedule-IsSound [] p sound = sound
  run_schedule-IsSound (k ∷ schedule) p sound =
      run_schedule-IsSound schedule _ (turn-IsSound k p (get_elem? p.workers k) sound refl)
