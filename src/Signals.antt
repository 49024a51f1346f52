-- ===== src/Signals.antt =====
-- Signals (orchestrator/src/autonomy/signalStore.ts, with the data of
-- orchestrator/src/autonomy/types.ts). A row is a signal, and its other columns repeat fields. The
-- digest of `node:crypto`, cut to 24 digits, is a function; `metadata` is a text.
mod Examples
use Prim.Native.Char.{nul}
use Prim.Native.String
use muslimrentals.Prelude.{
  ℕ, String, ◌≡◌, ◌≢◌, refl, sym, ◌∙◌, ap, Bool, true, false, not, ◌&&◌, ◌||◌, Option, none, some,
  List, [], ◌∷◌, ◌++◌, arith, filter, find, take, leb, eqb, or_default, unique, if◌then◌else◌, ◌==◌,
  string_equality, same_refl, template, Option-cases, Bool-cases, inl, inr,
}
use muslimrentals.Prelude.Table.{find_row, upsert, find_row-upsert}
use muslimrentals.Prelude.Sort.{sort_by, find-some}
use muslimrentals.Backlog.{BacklogCategory, in_scale, in_unit}
use muslimrentals.Errors.{invalid_record, Result, returned, thrown}

pub record Signal : Type 0 where
  pub id : String
  pub source : String
  pub type : String
  pub category : BacklogCategory
  pub severity : ℕ
  pub confidence : ℕ
  pub evidence : String
  pub location : Option String
  pub observed_at : ℕ
  pub fingerprint : String
  pub related_backlog_items : List String
  pub metadata : String

abbrev pub SignalTable : Type 0
SignalTable = List Signal

abbrev pub signal_key : Signal → String
signal_key s = s.id

pub record RecordSignalInput : Type 0 where
  pub source : String
  pub type : String
  pub category : BacklogCategory
  pub severity : ℕ
  pub confidence : ℕ
  pub evidence : String
  pub location : Option String
  pub metadata : Option String

unfoldable pub get_signal : String → SignalTable → Option Signal
get_signal id table = find_row signal_key id table

unfoldable pub refreshed : ℕ → Signal → Signal
refreshed now s = record s { observed_at = now }

-- `UPDATE signals SET … WHERE id = ?`, of a signal that is there.
unfoldable pub update_signal : Signal → SignalTable → SignalTable
update_signal s table = upsert signal_key s table

pub record RecordedSignal : Type 0 where
  pub signal : Signal
  pub is_new : Bool

-- `h.update('\0')`.
abbrev separator : String
separator = String.◌∷◌ nul ""

module _ (digest : String → String) where
  -- What is hashed: the parts with a NUL between each and the next.
  unfoldable pub fingerprint_for : RecordSignalInput → String
  fingerprint_for input = digest (
      template (
        input.source
        ∷ separator
        ∷ input.type
        ∷ separator
        ∷ or_default input.location ""
        ∷ separator
        ∷ input.evidence
        ∷ []))

  unfoldable pub new_signal : String → ℕ → RecordSignalInput → Signal
  new_signal id now input = record {
    id = id;
    source = input.source;
    type = input.type;
    category = input.category;
    severity = input.severity;
    confidence = input.confidence;
    evidence = input.evidence;
    location = input.location;
    observed_at = now;
    fingerprint = fingerprint_for input;
    related_backlog_items = [];
    metadata = or_default input.metadata "{}";
  }

  abbrev pub has_fingerprint : RecordSignalInput → Signal → Bool
  has_fingerprint input s = s.fingerprint == fingerprint_for input

  unfoldable pub record_signal :
      String → ℕ → RecordSignalInput → SignalTable → Result (RecordedSignal × SignalTable)
  record_signal id now input table = elim (find (has_fingerprint input) table) [
    | some existing ↦ returned (
      record { signal = refreshed now existing; is_new = false },
      update_signal (refreshed now existing) table,
    )
    | none ↦
        if in_scale input.severity && in_unit input.confidence
        then returned (
          record { signal = new_signal id now input; is_new = true },
          table ++ new_signal id now input ∷ [],
        )
        else thrown invalid_record
  ]

  find-upsert :
      (p : Signal → Bool) (s : Signal) (table : SignalTable)
      → p s ≡ true
      → (found : Signal) × (find p (upsert signal_key s table) ≡ some found)
  unfolding upsert
  find-upsert p s [] h = (s, rw h refl)
  find-upsert p s (r ∷ table) h = elim (Bool-cases (r.id == s.id)) [
    | inl same ↦ (s, rw (same, h) refl)
    | inr other ↦ elim (Bool-cases (p r)) [
      | inl first ↦ (r, rw (other, first) refl)
      | inr later ↦ (let (found, e) = find-upsert p s table h in (found, rw (other, later) e))
    ]
  ]

  find-append :
      (p : Signal → Bool) (s : Signal) (table : SignalTable)
      → find p table ≡ none
      → p s ≡ true
      → find p (table ++ s ∷ []) ≡ some s
  find-append p s [] h k = rw k refl
  find-append p s (r ∷ table) h k = ground (arith, find-append p s table)

  new_signal-fingerprint :
      (id : String) (now : ℕ) (input : RecordSignalInput)
      → has_fingerprint input (new_signal id now input) ≡ true
  unfolding new_signal
  new_signal-fingerprint id now input = same_refl (fingerprint_for input)

  refreshed-fingerprint :
      (now : ℕ) (input : RecordSignalInput) (s : Signal)
      → has_fingerprint input (refreshed now s) ≡ has_fingerprint input s
  unfolding refreshed
  refreshed-fingerprint now input s = refl

  -- After a signal is recorded, its fingerprint is found.
  record_signal-found :
      (id : String) (now : ℕ) (input : RecordSignalInput) (done : RecordedSignal)
      (table table' : SignalTable)
      → record_signal id now input table ≡ returned (done, table')
      → (s : Signal) × (find (has_fingerprint input) table' ≡ some s)
  unfolding record_signal update_signal
  record_signal-found id now input done table table' h =
      elim (Option-cases (find (has_fingerprint input) table)) [
        | inr (existing, found) ↦
            let (s, e) = find-upsert (has_fingerprint input) (refreshed now existing) table (
              refreshed-fingerprint now input existing
              ∙ find-some (has_fingerprint input) table existing found) in
            let same : upsert signal_key (refreshed now existing) table ≡ table' =
              ground (arith, h, found) in
            (s, sym (ap (find (has_fingerprint input)) same) ∙ e)
        | inl absent ↦ elim (Bool-cases (in_scale input.severity && in_unit input.confidence)) [
          | inr wide ↦ absurd (ground (arith, h, absent, wide))
          | inl scaled ↦
              let same : table ++ new_signal id now input ∷ [] ≡ table' =
                ground (arith, h, absent, scaled) in
              (
                new_signal id now input,
                sym (ap (find (has_fingerprint input)) same)
                    ∙ find-append (has_fingerprint input) (new_signal id now input) table absent
                        (new_signal-fingerprint id now input),
              )
        ]
      ]

  record_signal-existing :
      (id : String) (now : ℕ) (input : RecordSignalInput) (existing : Signal) (table : SignalTable)
      → find (has_fingerprint input) table ≡ some existing
      → record_signal id now input table
        ≡ returned (
          record { signal = refreshed now existing; is_new = false },
          update_signal (refreshed now existing) table,
        )
  unfolding record_signal
  record_signal-existing id now input existing table h = rw (record_signal, h) refl

  -- A signal that was recorded and is recorded again never throws and is not new: it is the signal
  -- that is found by the fingerprint, with the later time as that of its observation and all else as
  -- it was, and so it is stored; every other signal is read as before.
  pub record_signal-again :
      (id other : String) (now later : ℕ) (input : RecordSignalInput) (done : RecordedSignal)
      (table table' : SignalTable)
      → record_signal id now input table ≡ returned (done, table')
      → (existing : Signal) × (find (has_fingerprint input) table' ≡ some existing)
        × (table'' : SignalTable) × (record_signal other later input table'
            ≡ returned (
              record { signal = record existing { observed_at = later }; is_new = false },
              table'',
            ))
        × ((j : String)
            → get_signal j table'' ≡ (
                if existing.id == j
                then some (record existing { observed_at = later })
                else get_signal j table'))
  unfolding refreshed update_signal get_signal
  record_signal-again id other now later input done table table' h =
      let (existing, found) = record_signal-found id now input done table table' h in
      (
        existing,
        found,
        update_signal (refreshed later existing) table',
        record_signal-existing other later input existing table' found,
        λ j. find_row-upsert signal_key j (refreshed later existing) table',
      )

pub record ListSignalsFilter : Type 0 where
  pub source : Option String
  pub limit : Option ℕ
  pub since : Option ℕ

abbrev is_source : Option String → Signal → Bool
is_source none s = true
is_source (some wanted) s = if wanted == "" then true else s.source == wanted

abbrev is_since : Option ℕ → Signal → Bool
is_since none s = true
is_since (some time) s = leb time s.observed_at

abbrev cut_signals : Option ℕ → List Signal → List Signal
cut_signals none signals = signals
cut_signals (some n) signals = if eqb n 0 then signals else take n signals

unfoldable pub list_signals : ListSignalsFilter → SignalTable → List Signal
list_signals wanted table = cut_signals wanted.limit (
    sort_by (λ a b. leb b.observed_at a.observed_at)
      (filter (λ s. is_source wanted.source s && is_since wanted.since s) table))

unfoldable pub link_signal_to_backlog_item :
    String → String → SignalTable → Option Signal × SignalTable
link_signal_to_backlog_item signal_id item_id table = elim (get_signal signal_id table) [
  | none ↦ (none, table)
  | some s ↦
      let updated = record s {
        related_backlog_items = unique (s.related_backlog_items ++ item_id ∷ []);
      } in
      (some updated, update_signal updated table)
]
