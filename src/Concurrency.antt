-- ===== src/Concurrency.antt =====
-- orchestrator/src/supervisor/concurrency.ts: `mapConcurrent`, whose workers take turns wherever one
-- of them awaits. A schedule names the worker that goes on next.
pub mod Workers
pub mod Progress
mod Examples
use muslimrentals.Prelude.{
  ℕ, zero, suc, ◌+◌, min, max, Option, none, some, List, [], ◌∷◌, ◌++◌, length, get_elem?, ltb, eqb,
  if◌then◌else◌,
}

-- A worker is at the head of its loop, awaits the call for an index, or has returned.
pub data Worker : Type 0 where
  ready : Worker
  running : ℕ → Worker
  stopped : Worker

-- `calls` are the indices for which `fn` was called, in the order of the calls; a slot of `results`
-- is `none` before it is written.
pub record Pool (R : Type 0) : Type 0 where
  pub next : ℕ
  pub results : ℕ → Option R
  pub workers : List Worker
  pub calls : List ℕ

unfoldable pub put : ℕ → Worker → List Worker → List Worker
put k w [] = []
put zero w (v ∷ ws) = w ∷ ws
put (suc k) w (v ∷ ws) = v ∷ put k w ws

unfoldable pub copies : ℕ → List Worker
copies zero = []
copies (suc n) = ready ∷ copies n

module _ {T R : Type 0} (items : List T) (fn : T → ℕ → R) where
  -- What the call for an index returns.
  abbrev pub called : ℕ → Option R
  called i = elim (get_elem? items i) [ none ↦ none | some item ↦ some (fn item i) ]

  unfoldable pub start : ℕ → Pool R
  start limit = record {
    next = 0;
    results = λ i. none;
    workers = copies (max 1 (min limit (length items)));
    calls = [];
  }

  -- `const i = next++` and the test after it, then the call; or the write of what it returned.
  unfoldable pub turn : ℕ → Option Worker → Pool R → Pool R
  turn k none p = p
  turn k (some stopped) p = p
  turn k (some ready) p =
      if ltb p.next (length items)
      then record p {
        next = suc p.next;
        workers = put k (running p.next) p.workers;
        calls = p.calls ++ p.next ∷ [];
      }
      else record p { next = suc p.next; workers = put k stopped p.workers }
  turn k (some (running i)) p = record p {
    results = λ j. if eqb j i then called i else p.results j;
    workers = put k ready p.workers;
  }

  unfoldable pub step : ℕ → Pool R → Pool R
  step k p = turn k (get_elem? p.workers k) p

  unfoldable pub run_schedule : List ℕ → Pool R → Pool R
  run_schedule [] p = p
  run_schedule (k ∷ schedule) p = run_schedule schedule (step k p)
