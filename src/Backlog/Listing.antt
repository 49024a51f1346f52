-- ===== src/Backlog/Listing.antt =====
-- `listBacklogItems` (orchestrator/src/autonomy/backlogStore.ts).
use muslimrentals.Prelude.{
  ℕ, ◌≡◌, refl, Bool, true, false, ◌&&◌, ◌||◌, Option, none, some, List, arith, filter, take,
  includes, All, ◌<◌, ◌≤◌, ◌⊎◌, zero, suc, sym, ap, ◌∙◌, Option-cases, if◌then◌else◌, ltb, leb, eqb,
  ◌==◌, Bool-cases, inl, inr, take-All, filter-All,
}
use muslimrentals.Prelude.Sort.{
  sort_by, sort_by-IsSortedBy, sort_by-All, sort_by-tally, tally, tally-filter, tally-same,
  IsOrdered, IsSortedBy-IsOrdered,
}
use muslimrentals.Backlog.{
  BacklogCategory, BacklogStatus, BacklogItem, status_equality, category_equality,
}
use muslimrentals.Backlog.Store.{BacklogTable}

-- One status stands for the list of it alone.
pub record ListBacklogFilter : Type 0 where
  pub status : Option (List BacklogStatus)
  pub category : Option BacklogCategory
  pub limit : Option ℕ

abbrev pub no_filter : ListBacklogFilter
no_filter = record { status = none; category = none; limit = none }

abbrev passes_status : Option (List BacklogStatus) → BacklogStatus → Bool
passes_status none s = true
passes_status (some statuses) s = includes s statuses

abbrev passes_category : Option BacklogCategory → BacklogCategory → Bool
passes_category none c = true
passes_category (some wanted) c = c == wanted

-- The `WHERE` clause.
unfoldable pub passes : ListBacklogFilter → BacklogItem → Bool
passes wanted item =
    passes_status wanted.status item.status && passes_category wanted.category item.category

-- `ORDER BY priority DESC, created_at ASC`.
unfoldable pub ranks_before : BacklogItem → BacklogItem → Bool
ranks_before a b =
    ltb b.priority a.priority || (eqb a.priority b.priority && leb a.created_at b.created_at)

-- `LIMIT`; a limit of 0 is false, and no limit.
abbrev pub apply_limit : Option ℕ → List BacklogItem → List BacklogItem
apply_limit none items = items
apply_limit (some n) items = if eqb n 0 then items else take n items

unfoldable pub list_backlog_items : ListBacklogFilter → BacklogTable → List BacklogItem
list_backlog_items wanted table =
    apply_limit wanted.limit (sort_by ranks_before (filter (passes wanted) table))

ranks_before-total : (a b : BacklogItem) → ranks_before a b ≡ false → ranks_before b a ≡ true
unfolding ranks_before
ranks_before-total a b h = ground arith

ranks_before_trans :
    (a b c : BacklogItem)
    → ranks_before a b ≡ true
    → ranks_before b c ≡ true
    → ranks_before a c ≡ true
unfolding ranks_before
ranks_before_trans a b c h k = ground arith

apply_limit-All {κ} :
    (P : BacklogItem → Type κ) (limit : Option ℕ) (xs : List BacklogItem)
    → All P xs
    → All P (apply_limit limit xs)
apply_limit-All P none xs h = h
apply_limit-All P (some n) xs h = elim (Bool-cases (eqb n 0)) [
  | inl e ↦ rw e h
  | inr ne ↦ rw ne (take-All P n xs h)
]

-- An item that a filter asks for.
abbrev pub is_wanted : ListBacklogFilter → BacklogItem → Bool
is_wanted wanted item =
    elim (wanted.status) [ none ↦ true | some statuses ↦ includes item.status statuses ]
    && elim (wanted.category) [ none ↦ true | some category ↦ item.category == category ]

-- Of higher priority, or of the same and not younger.
abbrev pub ComesFirst : BacklogItem → BacklogItem → Type 0
ComesFirst a b =
    (b.priority < a.priority) ⊎ ((a.priority ≡ b.priority) × (a.created_at ≤ b.created_at))

-- The first `n` of a list where a limit of `n` is given that is not 0, and else all of it.
pub data IsCut (limit : Option ℕ) (full items : List BacklogItem) : Type 0 where
  unlimited : limit ≡ none → items ≡ full → IsCut limit full items
  limited_to_none : limit ≡ some 0 → items ≡ full → IsCut limit full items
  limited : (n : ℕ) → limit ≡ some (suc n) → items ≡ take (suc n) full → IsCut limit full items

-- What `items` need to be the listing of a table under a filter.
pub record IsListingOf (wanted : ListBacklogFilter) (table : BacklogTable)
    (items : List BacklogItem) : Type 0 where
  pub full : List BacklogItem
  pub cut : IsCut wanted.limit full items
  pub ordered : IsOrdered ComesFirst full
  pub passing : All (λ item. is_wanted wanted item ≡ true) items
  pub complete :
      (p : BacklogItem → Bool)
      → tally p full ≡ tally (λ item. is_wanted wanted item && p item) table

passes-is_wanted :
    (wanted : ListBacklogFilter) (item : BacklogItem) → passes wanted item ≡ is_wanted wanted item
unfolding passes
passes-is_wanted wanted item = elim (Option-cases wanted.status) [
  | inl e ↦ elim (Option-cases wanted.category) [
    | inl c ↦ rw (e, c) refl
    | inr (category, c) ↦ rw (e, c) refl
  ]
  | inr (statuses, e) ↦ elim (Option-cases wanted.category) [
    | inl c ↦ rw (e, c) refl
    | inr (category, c) ↦ rw (e, c) refl
  ]
]

ranks_before-ComesFirst : (a b : BacklogItem) → ranks_before a b ≡ true → ComesFirst a b
unfolding ranks_before
ranks_before-ComesFirst a b h = elim (Bool-cases (ltb b.priority a.priority)) [
  | inl higher ↦ inl (ground (arith, higher))
  | inr level ↦ inr (ground (arith, h, level), ground (arith, h, level))
]

apply_limit-IsCut :
    (limit : Option ℕ) (full : List BacklogItem) → IsCut limit full (apply_limit limit full)
apply_limit-IsCut none full = unlimited refl refl
apply_limit-IsCut (some zero) full = limited_to_none refl refl
apply_limit-IsCut (some (suc n)) full = limited n refl (ground arith)

-- What is listed is a full list of the items that pass the filter, cut off at the limit where there
-- is one that is not 0. The full list is in the order of falling priority, older items first among
-- equals, and holds each item that has a status and the category that are asked for as often as the
-- table does, and no other.
pub list_backlog_items-IsListingOf :
    (wanted : ListBacklogFilter) (table : BacklogTable)
    → IsListingOf wanted table (list_backlog_items wanted table)
unfolding list_backlog_items
list_backlog_items-IsListingOf wanted table =
    let kept = filter (passes wanted) table in
    record {
      full = sort_by ranks_before kept;
      cut = apply_limit-IsCut wanted.limit (sort_by ranks_before kept);
      ordered =
          IsSortedBy-IsOrdered ranks_before ComesFirst ranks_before-ComesFirst
            (sort_by ranks_before kept)
            (sort_by-IsSortedBy ranks_before ranks_before-total ranks_before_trans kept);
      passing =
          apply_limit-All (λ item. is_wanted wanted item ≡ true) wanted.limit
            (sort_by ranks_before kept)
            (sort_by-All ranks_before (λ item. is_wanted wanted item ≡ true) kept
              (filter-All (λ item. is_wanted wanted item ≡ true) (passes wanted) table
                (λ item h. sym (passes-is_wanted wanted item) ∙ h)));
      complete = λ p.
          sort_by-tally ranks_before p kept
          ∙ tally-filter p (passes wanted) table
          ∙ tally-same _ _ table (λ item. ap (λ b. b && p item) (passes-is_wanted wanted item));
    }
