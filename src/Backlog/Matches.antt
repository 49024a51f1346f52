-- ===== src/Backlog/Matches.antt =====
-- What `findSimilarBacklogItems` finds (orchestrator/src/autonomy/backlogStore.ts).
use native.Mathlib.Nat.{mul-le-mul, mul-le-mul_right, le_of_mul-le-mul_right, mul_right_comm}
use muslimrentals.Prelude.{
  ℕ, ◌*◌, ◌≤◌, ◌<◌, String, refl, ◌∙◌, ◌≡◌, ap, inl, inr, Bool-cases, Bool, true, false, ◌&&◌, none,
  some, List, [], ◌++◌, arith, filter, ◌==◌, string_equality, same_refl, length, includes,
  filter-includes, length-unique-pos, length-unique-twice, ◌≢◌, unique, leb, eqb, codes_equality,
}
use muslimrentals.Prelude.Sort.{
  sort_by-IsSortedBy, tally, tally-filter, tally-same, sort_by-tally, IsOrdered,
  IsSortedBy-IsOrdered,
}
use muslimrentals.Prelude.Table.{find_row-tally}
use muslimrentals.Backlog.{
  BacklogCategory, BacklogStatus, candidate, triaged, ready, selected, in_progress, blocked,
  approval_required, done, rejected, deferred, duplicate, status_rank, BacklogItem, status_equality,
  category_equality,
}
use muslimrentals.Backlog.Store.{BacklogTable, item_key, get_backlog_item}
use muslimrentals.Backlog.Listing.{
  ListBacklogFilter, list_backlog_items, passes, is_wanted, IsCut, unlimited, limited_to_none,
  limited, list_backlog_items-IsListingOf,
}
use muslimrentals.Backlog.Similar.{
  words, similarity, at_least, more_similar, live_statuses, find_similar_backlog_items,
}

-- An item that is still worked on, or waits to be.
abbrev pub is_live : BacklogStatus → Bool
is_live candidate = true
is_live triaged = true
is_live ready = true
is_live selected = true
is_live in_progress = true
is_live blocked = true
is_live approval_required = true
is_live status = false

-- The words of a title that an item's title has too, and those that either has, counted.
abbrev pub shared_words : String → BacklogItem → ℕ
shared_words title item = length (filter (λ w. includes w (words item.title)) (words title))

abbrev pub all_words : String → BacklogItem → ℕ
all_words title item = length (unique (words title ++ words item.title))

abbrev pub is_similar : String → BacklogCategory → ℕ → BacklogItem → Bool
is_similar title category threshold item =
    (is_live item.status && item.category == category)
    && leb (threshold * all_words title item) (shared_words title item * 100)

-- The first shares no smaller a part of its words with the title than the second.
abbrev pub IsCloser : String → BacklogItem → BacklogItem → Type 0
IsCloser title a b =
    shared_words title b * all_words title a ≤ shared_words title a * all_words title b

-- What is found as similar to a title.
pub record IsSimilarListing (title : String) (category : BacklogCategory) (threshold : ℕ)
    (table : BacklogTable) (found : List BacklogItem) : Type 0 where
  pub wordless : length (words title) ≡ 0 → found ≡ []
  pub ordered : IsOrdered (IsCloser title) found
  pub complete :
      length (words title) ≢ 0
      → (p : BacklogItem → Bool)
      → tally p found ≡ tally (λ item. is_similar title category threshold item && p item) table

includes-live_statuses : (s : BacklogStatus) → includes s live_statuses ≡ is_live s
unfolding live_statuses status_rank
includes-live_statuses candidate = refl
includes-live_statuses triaged = refl
includes-live_statuses ready = refl
includes-live_statuses selected = refl
includes-live_statuses in_progress = refl
includes-live_statuses blocked = refl
includes-live_statuses approval_required = refl
includes-live_statuses done = refl
includes-live_statuses rejected = refl
includes-live_statuses deferred = refl
includes-live_statuses duplicate = refl

similarity-words :
    (title : String) (item : BacklogItem)
    → length (words title) ≢ 0
    → similarity (words title) (words item.title)
      ≡ record { shared = shared_words title item; either = all_words title item }
unfolding similarity
similarity-words title item n =
    let some_word : eqb (all_words title item) 0 ≡ false =
      ground (arith, length-unique-pos (words title) (words item.title) n) in
    rw some_word refl

uncut : (full items : List BacklogItem) → IsCut none full items → items ≡ full
uncut full items (unlimited _ e) = e
uncut full items (limited_to_none h e) = e
uncut full items (limited n h e) = cc h

closer_trans : (a x b y c z : ℕ) → 0 < y → b * x ≤ a * y → c * y ≤ b * z → c * x ≤ a * z
closer_trans a x b y c z pos h k =
    le_of_mul-le-mul_right
      (omega (
        arith,
        mul-le-mul_right x k,
        mul-le-mul_right z h,
        mul_right_comm c x y,
        mul_right_comm b z x,
        mul_right_comm a z y,
      ))
      pos

-- What is found as similar to a title without a word of three characters is nothing. For any other
-- it is the items of the category that are neither done, rejected, deferred nor duplicates and whose
-- titles share with it at least the given part of the words that either has, each as often as the
-- table has it, the closer ones first.
pub find_similar-IsSimilarListing :
    (title : String) (category : BacklogCategory) (threshold : ℕ) (table : BacklogTable)
    → IsSimilarListing title category threshold table
        (find_similar_backlog_items title category threshold table)
unfolding find_similar_backlog_items
find_similar-IsSimilarListing title category threshold table =
    let wanted : ListBacklogFilter = record {
      status = some live_statuses;
      category = some category;
      limit = none;
    } in
    let candidates = list_backlog_items wanted table in
    let listing = list_backlog_items-IsListingOf wanted table in
    let scored = λ (item : BacklogItem). similarity (words title) (words item.title) in
    let near = λ (item : BacklogItem). at_least threshold (scored item) in
    elim (Bool-cases (eqb (length (words title)) 0)) [
      | inl e ↦ rw e (record {
        wordless = λ _. refl;
        ordered = tt;
        complete = λ n. absurd (n (ground (arith, e)));
      })
      | inr e ↦
          let n : length (words title) ≢ 0 = λ z. ground (arith, e, z) in
          rw e (record {
            wordless = λ z. absurd (n z);
            ordered =
                IsSortedBy-IsOrdered (λ a b. more_similar (scored a) (scored b)) (IsCloser title)
                  (λ a b h.
                    ground (arith, h, similarity-words title a n, similarity-words title b n))
                  _
                  (sort_by-IsSortedBy (λ a b. more_similar (scored a) (scored b))
                    (λ a b h. ground (arith, h))
                    (λ a b c h k. ground (
                      arith,
                      closer_trans (scored a).shared (scored a).either (scored b).shared
                          (scored b).either (scored c).shared (scored c).either
                          (ground (
                            arith,
                            similarity-words title b n,
                            length-unique-pos (words title) (words b.title) n,
                          ))
                          (ground (arith, h)) (ground (arith, k)),
                    ))
                    (filter near candidates));
            complete = λ _ p.
                sort_by-tally (λ a b. more_similar (scored a) (scored b)) p (filter near candidates)
                ∙ tally-filter p near candidates
                ∙ ap (tally (λ item. near item && p item)) (uncut _ candidates listing.cut)
                ∙ listing.complete (λ item. near item && p item)
                ∙ tally-same _ _ table (λ item.
                  ground
                    (arith, includes-live_statuses item.status, similarity-words title item n));
          })
    ]

scaled-le : (a u l : ℕ) → a ≤ 100 → u ≤ l → a * u ≤ l * 100
scaled-le a u l h k = omega (arith, mul-le-mul h k)

-- A text with words is as similar to itself as can be.
similarity-same :
    (target : List (List ℕ)) (threshold : ℕ)
    → threshold ≤ 100
    → length target ≢ 0
    → at_least threshold (similarity target target) ≡ true
unfolding similarity
similarity-same target threshold h n = rw (filter-includes target) (
    ground (
      arith,
      scaled-le threshold _ _ h (length-unique-twice target),
      length-unique-pos target target n,
      length-unique-twice target,
    ))

-- A live item is found again by its own title and category, when the title has a word of three
-- characters and the threshold is at most 1.
pub find_similar-same_title :
    (item : BacklogItem) (threshold : ℕ) (table : BacklogTable)
    → get_backlog_item item.id table ≡ some item
    → includes item.status live_statuses ≡ true
    → length (words item.title) ≢ 0
    → threshold ≤ 100
    → 1
      ≤ tally
          (λ found. found.id == item.id)
          (find_similar_backlog_items item.title item.category threshold table)
unfolding find_similar_backlog_items get_backlog_item passes
find_similar-same_title item threshold table h live n small =
    let wanted : ListBacklogFilter = record {
      status = some live_statuses;
      category = some item.category;
      limit = none;
    } in
    let candidates = list_backlog_items wanted table in
    let listing = list_backlog_items-IsListingOf wanted table in
    let mine = λ (found : BacklogItem). found.id == item.id in
    let scored = λ (found : BacklogItem). similarity (words item.title) (words found.title) in
    let near = λ (found : BacklogItem). at_least threshold (scored found) in
    let empty : eqb (length (words item.title)) 0 ≡ false = ground (arith, n) in
    rw
      (
        empty,
        sort_by-tally (λ a b. more_similar (scored a) (scored b)) mine (filter near candidates),
        tally-filter mine near candidates,
        ap (tally (λ found. near found && mine found)) (uncut _ candidates listing.cut),
        listing.complete (λ found. near found && mine found),
      )
      (find_row-tally item_key (λ found. is_wanted wanted found && (near found && mine found))
        item.id table item h
        (ground (
          arith,
          live,
          small,
          same_refl item.id,
          same_refl item.category,
          similarity-same (words item.title) threshold small n,
        )))
