-- ===== src/Cycles/Latest.antt =====
-- Which cycle orchestrator/src/autonomy/cycleStore.ts takes for the latest, and for an interrupted
-- one.
use muslimrentals.Prelude.{
  ℕ, ◌≤◌, String, ◌≡◌, refl, sym, ◌∙◌, ap, subst, Bool, true, false, none, some, List, [], ◌∷◌,
  arith, All, filter, take, includes, leb, if◌then◌else◌, Option-cases, Bool-cases, inl, inr,
}
use muslimrentals.Prelude.Table.{find_row-tally}
use muslimrentals.Prelude.Sort.{tally, sort_by, IsSortedBy, sort_by-IsSortedBy, sort_by-tally}
use muslimrentals.Cycles.{
  AutonomousCycle, CycleTable, cycle_status_equality, get_cycle, cycle_key, started_later,
  has_cycle_status, list_cycles, get_latest_cycle, first_of, terminal_statuses,
  get_interrupted_cycle,
}

started_later-total : (a b : AutonomousCycle) → started_later a b ≡ false → started_later b a ≡ true
started_later-total a b h = ground arith

started_later_trans :
    (a b c : AutonomousCycle)
    → started_later a b ≡ true
    → started_later b c ≡ true
    → started_later a c ≡ true
started_later_trans a b c h k = ground arith

-- The cycles that started after a time.
abbrev after : ℕ → AutonomousCycle → Bool
after t cycle = if leb cycle.started_at t then false else true

All-none_after :
    (t : ℕ) (cycles : List AutonomousCycle)
    → All (λ c. leb c.started_at t ≡ true) cycles
    → tally (after t) cycles ≡ 0
All-none_after t [] h = refl
All-none_after t (c ∷ cycles) (p, h) = rw p (omega (arith, All-none_after t cycles h))

filter-true : (cycles : List AutonomousCycle) → filter (has_cycle_status none) cycles ≡ cycles
filter-true [] = refl
filter-true (c ∷ cycles) = ap (λ cs. c ∷ cs) (filter-true cycles)

none_after-All :
    (t : ℕ) (cycles : List AutonomousCycle)
    → tally (after t) cycles ≡ 0
    → All (λ c. c.started_at ≤ t) cycles
none_after-All t [] h = tt
none_after-All t (c ∷ cycles) h = (ground arith, none_after-All t cycles (ground arith))

first-newest :
    (cycle : AutonomousCycle) (sorted : List AutonomousCycle)
    → IsSortedBy started_later sorted
    → first_of sorted ≡ some cycle
    → tally (after cycle.started_at) sorted ≡ 0
first-newest cycle [] s h = refl
first-newest cycle (c ∷ cycles) (before, s) h =
    let same : c ≡ cycle = ground arith in
    subst (λ d. tally (after d.started_at) (c ∷ cycles) ≡ 0) same
      (ground (arith, All-none_after c.started_at cycles before))

first-found :
    (cycles : List AutonomousCycle)
    → 1 ≤ tally (λ c. true) cycles
    → (cycle : AutonomousCycle) × (first_of cycles ≡ some cycle)
first-found [] h = absurd (omega (arith, h))
first-found (c ∷ cycles) h = (c, refl)

first-take : (cycles : List AutonomousCycle) → first_of (take 1 cycles) ≡ first_of cycles
first-take [] = refl
first-take (c ∷ cycles) = refl

-- The latest cycle started no earlier than any other.
pub get_latest_cycle-newest :
    (cycle : AutonomousCycle) (table : CycleTable)
    → get_latest_cycle table ≡ some cycle
    → All (λ c. c.started_at ≤ cycle.started_at) table
unfolding get_latest_cycle list_cycles
get_latest_cycle-newest cycle table h =
    let sorted = sort_by started_later table in
    none_after-All cycle.started_at table (
      sym (sort_by-tally started_later (after cycle.started_at) table)
      ∙ first-newest cycle sorted
          (sort_by-IsSortedBy started_later started_later-total started_later_trans table)
          (sym (first-take sorted)
            ∙ (sym (ap (λ cs. first_of (take 1 (sort_by started_later cs))) (filter-true table))
                ∙ h)))

-- A table with a cycle has a latest one.
pub get_latest_cycle-found :
    (id : String) (cycle : AutonomousCycle) (table : CycleTable)
    → get_cycle id table ≡ some cycle
    → (latest : AutonomousCycle) × (get_latest_cycle table ≡ some latest)
unfolding get_latest_cycle list_cycles get_cycle
get_latest_cycle-found id cycle table h =
    let sorted = sort_by started_later table in
    let counted = find_row-tally cycle_key (λ c. true) id table cycle h refl in
    let (latest, found) =
      first-found sorted (omega (arith, counted, sort_by-tally started_later (λ c. true) table)) in
    (
      latest,
      ap (λ cs. first_of (take 1 (sort_by started_later cs))) (filter-true table)
          ∙ (first-take sorted ∙ found),
    )

-- A cycle is reported as interrupted only when it is not over and no cycle started after it.
pub get_interrupted_cycle-newest :
    (cycle : AutonomousCycle) (table : CycleTable)
    → get_interrupted_cycle table ≡ some cycle
    → (includes cycle.status terminal_statuses ≡ false)
      × All (λ c. c.started_at ≤ cycle.started_at) table
unfolding get_interrupted_cycle
get_interrupted_cycle-newest cycle table h = elim (Option-cases (get_latest_cycle table)) [
  | inl empty ↦ absurd (ground arith)
  | inr (latest, found) ↦ elim (Bool-cases (includes latest.status terminal_statuses)) [
    | inl over ↦ absurd (ground arith)
    | inr open_still ↦
        let same : latest ≡ cycle = ground arith in
        (
          subst (λ c. includes c.status terminal_statuses ≡ false) same open_still,
          get_latest_cycle-newest cycle table (found ∙ ap (λ c. some c) same),
        )
  ]
]
