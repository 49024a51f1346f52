-- ===== src/Memory.antt =====
-- The records of organizational memory (orchestrator/src/autonomy/memoryStore.ts, with the data of
-- orchestrator/src/autonomy/types.ts). A row is a record; a confidence is a number of hundredths.
pub mod Retrieval
mod Examples
use muslimrentals.Prelude.{
  ℕ, String, ◌≡◌, Bool, true, false, not, ◌&&◌, ◌||◌, Option, none, some, List, [], ◌∷◌, arith,
  filter, take, includes, ltb, leb, eqb, or_default, HasEquality, ranked_equality, if◌then◌else◌,
  ◌==◌, string_equality,
}
use muslimrentals.Prelude.Table.{find_row, upsert}
use muslimrentals.Prelude.Sort.{sort_by}
use muslimrentals.Errors.{invalid_record, Result, returned, thrown}
use muslimrentals.Roles.{AgentRole, role_equality}
use muslimrentals.Backlog.{in_unit}

pub data MemoryScope : Type 0 where
  product agent decision known_issue : MemoryScope

unfoldable pub scope_rank : MemoryScope → ℕ
scope_rank product = 0
scope_rank agent = 1
scope_rank decision = 2
scope_rank known_issue = 3

pub scope_rank_injective : (a b : MemoryScope) → scope_rank a ≡ scope_rank b → a ≡ b
unfolding scope_rank
scope_rank_injective a b h = ground arith

instance abbrev pub scope_equality : HasEquality MemoryScope
scope_equality = ranked_equality scope_rank scope_rank_injective

pub data MemoryStatus : Type 0 where
  active superseded archived : MemoryStatus

unfoldable pub memory_rank : MemoryStatus → ℕ
memory_rank active = 0
memory_rank superseded = 1
memory_rank archived = 2

pub memory_rank_injective : (a b : MemoryStatus) → memory_rank a ≡ memory_rank b → a ≡ b
unfolding memory_rank
memory_rank_injective a b h = ground arith

instance abbrev pub memory_status_equality : HasEquality MemoryStatus
memory_status_equality = ranked_equality memory_rank memory_rank_injective

pub record MemoryRecord : Type 0 where
  pub id : String
  pub scope : MemoryScope
  pub role : Option AgentRole
  pub type : String
  pub content : String
  pub source : String
  pub created_at : ℕ
  pub updated_at : ℕ
  pub confidence : ℕ
  pub supersedes : Option String
  pub status : MemoryStatus
  pub product_area : Option String

abbrev pub MemoryTable : Type 0
MemoryTable = List MemoryRecord

abbrev pub memory_key : MemoryRecord → String
memory_key r = r.id

-- `persist`.
unfoldable pub persist_memory : MemoryRecord → MemoryTable → MemoryTable
persist_memory r table = upsert memory_key r table

unfoldable pub get_memory : String → MemoryTable → Option MemoryRecord
get_memory id table = find_row memory_key id table

pub record RecordMemoryInput : Type 0 where
  pub scope : MemoryScope
  pub role : Option AgentRole
  pub type : String
  pub content : String
  pub source : String
  pub confidence : Option ℕ
  pub product_area : Option String
  pub supersedes : Option String

unfoldable pub new_memory : String → ℕ → RecordMemoryInput → MemoryRecord
new_memory id now input = record {
  id = id;
  scope = input.scope;
  role = input.role;
  type = input.type;
  content = input.content;
  source = input.source;
  created_at = now;
  updated_at = now;
  confidence = or_default input.confidence 80;
  supersedes = input.supersedes;
  status = active;
  product_area = input.product_area;
}

unfoldable pub retired : ℕ → MemoryStatus → MemoryRecord → MemoryRecord
retired now status r = record r { status = status; updated_at = now }

-- `if (input.supersedes) …`; an empty identifier is false.
unfoldable pub supersede_prior : ℕ → Option String → MemoryTable → MemoryTable
supersede_prior now none table = table
supersede_prior now (some id) table = if id == "" then table else elim (get_memory id table) [
  | none ↦ table
  | some prior ↦ persist_memory (retired now superseded prior) table
]

unfoldable pub record_memory :
    String → ℕ → RecordMemoryInput → MemoryTable → Result (MemoryRecord × MemoryTable)
record_memory id now input table =
    if in_unit (new_memory id now input).confidence
    then returned (
      new_memory id now input,
      supersede_prior now input.supersedes (persist_memory (new_memory id now input) table),
    )
    else thrown invalid_record

unfoldable pub archive_memory : ℕ → String → MemoryTable → Option MemoryRecord × MemoryTable
archive_memory now id table = elim (get_memory id table) [
  | none ↦ (none, table)
  | some existing ↦
      (some (retired now archived existing), persist_memory (retired now archived existing) table)
]

pub record RelevantMemoryQuery : Type 0 where
  pub scopes : Option (List MemoryScope)
  pub role : Option AgentRole
  pub product_area : Option String
  pub limit : Option ℕ

abbrev pub all_scopes : List MemoryScope
all_scopes = product ∷ agent ∷ decision ∷ known_issue ∷ []

abbrev pub is_role : Option AgentRole → Option AgentRole → Bool
is_role none held = true
is_role (some wanted) none = false
is_role (some wanted) (some held) = held == wanted

abbrev is_empty_text : String → Bool
is_empty_text text = text == ""

abbrev pub is_area : Option String → Option String → Bool
is_area none area = true
is_area (some wanted) none = true
is_area (some wanted) (some area) = is_empty_text wanted || (is_empty_text area || area == wanted)

-- The filters of a retrieval.
unfoldable pub is_relevant : RelevantMemoryQuery → MemoryRecord → Bool
is_relevant query r =
    (r.status == active && includes r.scope (or_default query.scopes all_scopes))
    && ((not (r.scope == agent) || is_role query.role r.role)
        && is_area query.product_area r.product_area)

-- More confident first, and the more recent of equals.
unfoldable pub more_relevant : MemoryRecord → MemoryRecord → Bool
more_relevant a b =
    ltb b.confidence a.confidence
    || (eqb a.confidence b.confidence && leb b.updated_at a.updated_at)

unfoldable pub get_relevant_memory : RelevantMemoryQuery → MemoryTable → List MemoryRecord
get_relevant_memory query table =
    take (or_default query.limit 15) (sort_by more_relevant (filter (is_relevant query) table))

pub record ListMemoryFilter : Type 0 where
  pub scope : Option MemoryScope
  pub status : Option MemoryStatus
  pub limit : Option ℕ

abbrev is_scope : Option MemoryScope → MemoryRecord → Bool
is_scope none r = true
is_scope (some wanted) r = r.scope == wanted

abbrev is_status : Option MemoryStatus → MemoryRecord → Bool
is_status none r = true
is_status (some wanted) r = r.status == wanted

abbrev cut : Option ℕ → List MemoryRecord → List MemoryRecord
cut none records = records
cut (some n) records = if eqb n 0 then records else take n records

unfoldable pub list_memory : ListMemoryFilter → MemoryTable → List MemoryRecord
list_memory wanted table = cut wanted.limit (
    sort_by (λ a b. leb b.updated_at a.updated_at)
      (filter (λ r. is_scope wanted.scope r && is_status wanted.status r) table))
