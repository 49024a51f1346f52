-- ===== src/Backlog/Similar.antt =====
-- `findSimilarBacklogItems` (orchestrator/src/autonomy/backlogStore.ts). A title's words are the runs
-- of letters, digits and `_`, without regard to the case of the letters A to Z. A similarity is the
-- fraction that the source divides out, and a threshold is a number of hundredths.
use Prim.Native.Char.{code}
use muslimrentals.Prelude.{
  ℕ, ◌+◌, ◌*◌, String, Bool, ◌&&◌, ◌||◌, Option, none, some, List, [], ◌∷◌, ◌++◌, filter,
  string_equality, length, includes, unique, if◌then◌else◌, ltb, leb, eqb, codes_equality,
}
use muslimrentals.Prelude.Sort.{sort_by}
use muslimrentals.Backlog.{
  BacklogCategory, BacklogStatus, candidate, triaged, ready, selected, in_progress, blocked,
  approval_required, BacklogItem, status_equality, category_equality,
}
use muslimrentals.Backlog.Store.{BacklogTable}
use muslimrentals.Backlog.Listing.{list_backlog_items}

-- The character in lower case where it is a word character (`\\w`), and `none` for any other.
unfoldable pub word_code : ℕ → Option ℕ
word_code c =
    if leb b'A' c && leb c b'Z'
    then some (c + 32)
    else if (leb b'a' c && leb c b'z') || ((leb b'0' c && leb c b'9') || eqb c b'_')
    then some c
    else none

-- `split(/\\W+/)`, with the word that is being read; empty words are dropped later on.
unfoldable pub split_words : List ℕ → String → List (List ℕ)
split_words current String.[] = current ∷ []
split_words current (String.◌∷◌ c s) = elim (word_code (code c)) [
  | none ↦ current ∷ split_words [] s
  | some d ↦ split_words (current ++ d ∷ []) s
]

unfoldable pub words : String → List (List ℕ)
unfolding split_words word_code
words s = unique (filter (λ w. ltb 2 (length w)) (split_words [] s))

pub record Similarity : Type 0 where
  pub shared : ℕ
  pub either : ℕ

-- How similar two sets of words are; with no word at all, 0.
unfoldable pub similarity : List (List ℕ) → List (List ℕ) → Similarity
similarity target item_words =
    let union = length (unique (target ++ item_words)) in
    if eqb union 0
    then record { shared = 0; either = 1 }
    else record { shared = length (filter (λ w. includes w item_words) target); either = union }

abbrev pub at_least : ℕ → Similarity → Bool
at_least threshold s = leb (threshold * s.either) (s.shared * 100)

abbrev pub more_similar : Similarity → Similarity → Bool
more_similar a b = leb (b.shared * a.either) (a.shared * b.either)

unfoldable pub live_statuses : List BacklogStatus
live_statuses =
    candidate ∷ triaged ∷ ready ∷ selected ∷ in_progress ∷ blocked ∷ approval_required ∷ []

unfoldable pub find_similar_backlog_items :
    String → BacklogCategory → ℕ → BacklogTable → List BacklogItem
find_similar_backlog_items title category threshold table =
    let target = words title in
    let candidates =
      list_backlog_items
        (record { status = some live_statuses; category = some category; limit = none }) table in
    let scored = λ (item : BacklogItem). similarity target (words item.title) in
    if eqb (length target) 0
    then []
    else sort_by (λ a b. more_similar (scored a) (scored b))
        (filter (λ item. at_least threshold (scored item)) candidates)
