-- ===== src/Backlog.antt =====
-- The backlog of the autonomy layer: its data (orchestrator/src/autonomy/types.ts), its scoring
-- (orchestrator/src/autonomy/prioritization.ts) and its store
-- (orchestrator/src/autonomy/backlogStore.ts), each in a child module.
-- Times are numbers of milliseconds. A confidence from 0 to 1 is a number of hundredths, and a
-- priority, which the source rounds to one decimal, is a number of tenths.
pub mod Priority
pub mod Scoring
pub mod Store
pub mod Listing
pub mod Similar
pub mod Matches
pub mod Sync
pub mod Updates
mod Examples
use muslimrentals.Prelude.{
  ℕ, String, ◌≡◌, Bool, true, false, ◌&&◌, Option, none, some, List, [], arith, leb, HasEquality,
  ranked_equality, if◌then◌else◌,
}

pub data BacklogCategory : Type 0 where
  bug feature_gap ux accessibility security privacy trust_safety legal_flag : BacklogCategory
  testing tech_debt performance infrastructure devops documentation : BacklogCategory
  product_opportunity : BacklogCategory

unfoldable pub category_rank : BacklogCategory → ℕ
category_rank bug = 0
category_rank feature_gap = 1
category_rank ux = 2
category_rank accessibility = 3
category_rank security = 4
category_rank privacy = 5
category_rank trust_safety = 6
category_rank legal_flag = 7
category_rank testing = 8
category_rank tech_debt = 9
category_rank performance = 10
category_rank infrastructure = 11
category_rank devops = 12
category_rank documentation = 13
category_rank product_opportunity = 14

pub category_rank_injective : (a b : BacklogCategory) → category_rank a ≡ category_rank b → a ≡ b
unfolding category_rank
category_rank_injective a b h = ground arith

instance abbrev pub category_equality : HasEquality BacklogCategory
category_equality = ranked_equality category_rank category_rank_injective

pub data BacklogStatus : Type 0 where
  candidate triaged ready selected in_progress blocked approval_required : BacklogStatus
  done rejected deferred duplicate : BacklogStatus

unfoldable pub status_rank : BacklogStatus → ℕ
status_rank candidate = 0
status_rank triaged = 1
status_rank ready = 2
status_rank selected = 3
status_rank in_progress = 4
status_rank blocked = 5
status_rank approval_required = 6
status_rank done = 7
status_rank rejected = 8
status_rank deferred = 9
status_rank duplicate = 10

pub status_rank_injective : (a b : BacklogStatus) → status_rank a ≡ status_rank b → a ≡ b
unfolding status_rank
status_rank_injective a b h = ground arith

instance abbrev pub status_equality : HasEquality BacklogStatus
status_equality = ranked_equality status_rank status_rank_injective

pub data RiskLevel : Type 0 where
  low medium high : RiskLevel

-- `PriorityInputs`.
pub record PriorityInputs : Type 0 where
  pub category : BacklogCategory
  pub user_impact : ℕ
  pub severity : ℕ
  pub confidence : ℕ
  pub effort : ℕ
  pub strategic_relevance : ℕ

-- A `priorityRationale` text, as the values that it spells out: the inputs, the score, and the
-- reason of the change where one is appended.
pub record PriorityRationale : Type 0 where
  pub inputs : PriorityInputs
  pub score : ℕ
  pub change_reason : Option String

pub record BacklogItem : Type 0 where
  pub id : String
  pub title : String
  pub description : String
  pub source : String
  pub category : BacklogCategory
  pub status : BacklogStatus
  pub priority : ℕ
  pub priority_rationale : PriorityRationale
  pub risk : RiskLevel
  pub user_impact : ℕ
  pub severity : ℕ
  pub confidence : ℕ
  pub effort : ℕ
  pub strategic_relevance : ℕ
  pub evidence : List String
  pub rationale : String
  pub dependencies : List String
  pub created_at : ℕ
  pub updated_at : ℕ
  pub last_evaluated_at : Option ℕ
  pub related_tasks : List String
  pub related_signals : List String
  pub requires_founder_decision : Bool
  pub requires_legal_review : Bool
  pub resolution : Option String

-- `Scale0to5` and `Confidence0to1`; a natural number is an integer and at least 0.
abbrev pub in_scale : ℕ → Bool
in_scale n = leb n 5

abbrev pub in_unit : ℕ → Bool
in_unit n = leb n 100

-- The range checks of the schema.
unfoldable pub is_well_scaled : BacklogItem → Bool
is_well_scaled item =
    in_scale item.user_impact
    && (in_scale item.severity
        && (in_unit item.confidence && (in_scale item.effort && in_scale item.strategic_relevance)))

-- `BacklogItem.parse`: `none` is the exception that it throws.
unfoldable pub parse_item : BacklogItem → Option BacklogItem
parse_item item = if is_well_scaled item then some item else none
