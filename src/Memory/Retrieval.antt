-- ===== src/Memory/Retrieval.antt =====
-- What is retrieved from the memory, and what a record that replaces another does
-- (orchestrator/src/autonomy/memoryStore.ts).
use text.Mathlib.TextEquality.{eq_iff}
use muslimrentals.Prelude.{
  ℕ, ◌≤◌, ◌<◌, ◌⊎◌, String, Bool, not, ◌&&◌, ◌||◌, includes, ltb, Option-cases, Bool-cases, inl,
  inr, take, ◌≡◌, refl, ◌∙◌, ap, true, false, Option, none, some, List, arith, filter, or_default,
  if◌then◌else◌, ◌==◌, string_equality, same_refl,
}
use muslimrentals.Prelude.Table.{find_row-upsert, find_row-key}
use muslimrentals.Prelude.Sort.{
  sort_by, sort_by-IsSortedBy, sort_by-tally, tally, tally-filter, tally-same, IsOrdered,
  IsSortedBy-IsOrdered,
}
use muslimrentals.Roles.{role_equality}
use muslimrentals.Errors.{returned}
use muslimrentals.Backlog.{in_unit}
use muslimrentals.Memory.{
  MemoryRecord, MemoryScope, product, agent, decision, known_issue, scope_rank, all_scopes, is_role,
  is_area, MemoryTable, memory_status_equality, scope_equality, active, superseded, memory_key,
  persist_memory, get_memory, RecordMemoryInput, new_memory, retired, supersede_prior,
  record_memory, RelevantMemoryQuery, is_relevant, more_relevant, get_relevant_memory,
}

more_relevant_total : (a b : MemoryRecord) → more_relevant a b ≡ false → more_relevant b a ≡ true
unfolding more_relevant
more_relevant_total a b h = ground arith

more_relevant_trans :
    (a b c : MemoryRecord)
    → more_relevant a b ≡ true
    → more_relevant b c ≡ true
    → more_relevant a c ≡ true
unfolding more_relevant
more_relevant_trans a b c h k = ground arith

-- The scopes, the role and the product area that a query asks for. A record of an agent has to be
-- of the role; one of a product area has to be of the area, whatever its scope.
abbrev pub has_scope : RelevantMemoryQuery → MemoryRecord → Bool
has_scope query r = elim (query.scopes) [ none ↦ true | some scopes ↦ includes r.scope scopes ]

abbrev pub has_role : RelevantMemoryQuery → MemoryRecord → Bool
has_role query r = elim (query.role) [
  | none ↦ true
  | some wanted ↦ elim (r.role) [ none ↦ false | some held ↦ held == wanted ]
]

abbrev pub has_area : RelevantMemoryQuery → MemoryRecord → Bool
has_area query r = elim (query.product_area) [
  | none ↦ true
  | some wanted ↦ elim (r.product_area) [
    | none ↦ true
    | some area ↦ wanted == "" || (area == "" || area == wanted)
  ]
]

abbrev pub is_eligible : RelevantMemoryQuery → MemoryRecord → Bool
is_eligible query r =
    (r.status == active && has_scope query r)
    && ((not (r.scope == agent) || has_role query r) && has_area query r)

-- More confident, or as confident and not less recent.
abbrev pub ComesFirst : MemoryRecord → MemoryRecord → Type 0
ComesFirst a b =
    (b.confidence < a.confidence) ⊎ ((a.confidence ≡ b.confidence) × (b.updated_at ≤ a.updated_at))

-- What a retrieval owes.
pub record IsRetrieval (query : RelevantMemoryQuery) (table : MemoryTable)
    (records : List MemoryRecord) : Type 0 where
  pub full : List MemoryRecord
  pub cut : records ≡ take (or_default query.limit 15) full
  pub ordered : IsOrdered ComesFirst full
  pub complete :
      (p : MemoryRecord → Bool) → tally p full ≡ tally (λ r. is_eligible query r && p r) table

known_scope : (scope : MemoryScope) → includes scope all_scopes ≡ true
unfolding scope_rank
known_scope product = refl
known_scope agent = refl
known_scope decision = refl
known_scope known_issue = refl

scopes-has_scope :
    (query : RelevantMemoryQuery) (r : MemoryRecord)
    → includes r.scope (or_default query.scopes all_scopes) ≡ has_scope query r
scopes-has_scope query r = elim (Option-cases query.scopes) [
  | inl e ↦ rw e (known_scope r.scope)
  | inr (scopes, e) ↦ rw e refl
]

role-has_role :
    (query : RelevantMemoryQuery) (r : MemoryRecord) → is_role query.role r.role ≡ has_role query r
role-has_role query r = elim (Option-cases query.role) [
  | inl e ↦ rw e refl
  | inr (wanted, e) ↦ elim (Option-cases r.role) [
    | inl f ↦ rw (e, f) refl
    | inr (held, f) ↦ rw (e, f) refl
  ]
]

area-has_area :
    (query : RelevantMemoryQuery) (r : MemoryRecord)
    → is_area query.product_area r.product_area ≡ has_area query r
area-has_area query r = elim (Option-cases query.product_area) [
  | inl e ↦ rw e refl
  | inr (wanted, e) ↦ elim (Option-cases r.product_area) [
    | inl f ↦ rw (e, f) refl
    | inr (area, f) ↦ rw (e, f) refl
  ]
]

is_relevant-is_eligible :
    (query : RelevantMemoryQuery) (r : MemoryRecord) → is_relevant query r ≡ is_eligible query r
unfolding is_relevant
is_relevant-is_eligible query r =
    rw (scopes-has_scope query r, role-has_role query r, area-has_area query r) refl

more_relevant-ComesFirst : (a b : MemoryRecord) → more_relevant a b ≡ true → ComesFirst a b
unfolding more_relevant
more_relevant-ComesFirst a b h = elim (Bool-cases (ltb b.confidence a.confidence)) [
  | inl surer ↦ inl (ground (arith, surer))
  | inr level ↦ inr (ground (arith, h, level), ground (arith, h, level))
]

-- A retrieval gives the first of a full list, as many as were asked for, 15 if none were. The full
-- list has the more confident and then the more recent records first. It holds each active record of
-- the scopes that are asked for, all scopes if none are, as often as the table does, and no other;
-- but where a role is asked for no record of scope `agent` that is not of the role, and where a
-- product area is asked for none of another product area, whatever its scope.
pub get_relevant_memory-IsRetrieval :
    (query : RelevantMemoryQuery) (table : MemoryTable)
    → IsRetrieval query table (get_relevant_memory query table)
unfolding get_relevant_memory
get_relevant_memory-IsRetrieval query table =
    let kept = filter (is_relevant query) table in
    record {
      full = sort_by more_relevant kept;
      cut = refl;
      ordered =
          IsSortedBy-IsOrdered more_relevant ComesFirst more_relevant-ComesFirst
            (sort_by more_relevant kept)
            (sort_by-IsSortedBy more_relevant more_relevant_total more_relevant_trans kept);
      complete = λ p.
          sort_by-tally more_relevant p kept
          ∙ tally-filter p (is_relevant query) table
          ∙ tally-same _ _ table (λ r. ap (λ b. b && p r) (is_relevant-is_eligible query r));
    }

get_memory-persist :
    (j : String) (r : MemoryRecord) (table : MemoryTable)
    → get_memory j (persist_memory r table) ≡ (if r.id == j then some r else get_memory j table)
unfolding get_memory persist_memory
get_memory-persist j r table = find_row-upsert memory_key j r table

supersede-found :
    (now : ℕ) (prior_id : String) (replaced : Option String) (prior : MemoryRecord)
    (table : MemoryTable)
    → replaced ≡ some prior_id
    → (prior_id == "") ≡ false
    → get_memory prior_id table ≡ some prior
    → supersede_prior now replaced table ≡ persist_memory (retired now superseded prior) table
unfolding supersede_prior
supersede-found now prior_id none prior table e named found = cc e
supersede-found now prior_id (some other) prior table e named found =
    let same : other ≡ prior_id = cc e in rw (same, named, found) refl

new_memory-facts :
    (id : String) (now : ℕ) (input : RecordMemoryInput) (prior : MemoryRecord)
    → ((new_memory id now input).id ≡ id)
      × ((new_memory id now input).status ≡ active)
      × ((new_memory id now input).confidence ≡ or_default input.confidence 80)
      × ((retired now superseded prior).id ≡ prior.id)
unfolding new_memory retired
new_memory-facts id now input prior = (refl, refl, refl, refl)

-- A record with a confidence in range that replaces a stored one is stored as an active one, and the
-- one that it replaces, under the identifier it had, as superseded.
pub record_memory-supersedes :
    (id prior_id : String) (now : ℕ) (input : RecordMemoryInput) (prior : MemoryRecord)
    (table : MemoryTable)
    → input.supersedes ≡ some prior_id
    → (prior_id == "") ≡ false
    → (id == prior_id) ≡ false
    → get_memory prior_id table ≡ some prior
    → in_unit (or_default input.confidence 80) ≡ true
    → (table' : MemoryTable) × (record_memory id now input table
        ≡ returned (new_memory id now input, table'))
      × (get_memory id table' ≡ some (new_memory id now input))
      × ((new_memory id now input).status ≡ active)
      × (get_memory prior_id table' ≡ some (retired now superseded prior))
unfolding record_memory get_memory
record_memory-supersedes id prior_id now input prior table replaces named apart found scale =
    let new = new_memory id now input in
    let between = persist_memory new table in
    let (new_id, is_active, confident, old_id) = new_memory-facts id now input prior in
    let own : prior.id ≡ prior_id = find_row-key memory_key prior_id table prior found in
    let prior_between : get_memory prior_id between ≡ some prior =
      get_memory-persist prior_id new table ∙ rw (new_id, apart) found in
    let written =
      supersede-found now prior_id input.supersedes prior between replaces named prior_between in
    let in_range : in_unit new.confidence ≡ true = ap in_unit confident ∙ scale in
    let old = retired now superseded prior in
    (
      persist_memory old between,
      rw (in_range, written) refl,
      get_memory-persist id old between
          ∙ ground (
            arith,
            old_id,
            own,
            new_id,
            get_memory-persist id new table,
            eq_iff old.id id,
            eq_iff id prior_id,
            eq_iff new.id id,
          ),
      is_active,
      get_memory-persist prior_id old between ∙ rw (old_id, own, same_refl prior_id) refl,
    )
