-- ===== src/Prelude/Table.antt =====
-- A table of the database: its rows in the order of insertion, with an identifier as primary key
-- (orchestrator/src/autonomy/db.ts; the statements stand in the stores).
use text.Mathlib.TextEquality.{eq_iff}
use muslimrentals.Prelude.Tests.{if◌then◌else◌, Bool-cases}
use muslimrentals.Prelude.Lists.{All}
use muslimrentals.Prelude.Equality.{◌==◌, string_equality}
use muslimrentals.Prelude.Sort.{tally}
use Prim.Native.Nat.{◌+◌, ◌≤◌}
use Prim.Native.String.{String}
use mathlib.Core.Path.{◌≡◌, refl, subst}
use mathlib.Core.Bool.{Bool, true}
use mathlib.Core.Option.{Option, none, some}
use mathlib.Core.Logic.{inl, inr}
use mathlib.Core.List.{List, [], ◌∷◌}
use native.Mathlib.Omega.{arith}

module _ {ℓ} {Row : Type ℓ} (key : Row → String) where
  -- `SELECT * FROM table WHERE id = ?`.
  unfoldable pub find_row : String → List Row → Option Row
  find_row id [] = none
  find_row id (r ∷ rows) = if key r == id then some r else find_row id rows

  -- `INSERT … ON CONFLICT(id) DO UPDATE`.
  unfoldable pub upsert : Row → List Row → List Row
  upsert row [] = row ∷ []
  upsert row (r ∷ rows) = if key r == key row then row ∷ rows else r ∷ upsert row rows

  -- A read after a write.
  pub find_row-upsert :
      (id : String) (row : Row) (rows : List Row)
      → find_row id (upsert row rows) ≡ (if key row == id then some row else find_row id rows)
  unfolding find_row upsert
  find_row-upsert id row [] = refl
  find_row-upsert id row (r ∷ rows) = ground (
    arith,
    eq_iff (key r) id,
    eq_iff (key row) id,
    eq_iff (key r) (key row),
    find_row-upsert id row rows,
  )

  -- Of two writes to the same key the second stays.
  pub upsert-upsert :
      (row later : Row) (rows : List Row)
      → key later ≡ key row
      → upsert later (upsert row rows) ≡ upsert later rows
  unfolding upsert
  upsert-upsert row later [] h = ground (arith, h, eq_iff (key row) (key later))
  upsert-upsert row later (r ∷ rows) h = ground (
    arith,
    h,
    eq_iff (key row) (key later),
    eq_iff (key r) (key later),
    eq_iff (key r) (key row),
    upsert-upsert row later rows,
  )

  pub find_row-key :
      (id : String) (rows : List Row) (row : Row) → find_row id rows ≡ some row → key row ≡ id
  unfolding find_row
  find_row-key id [] row h = cc
  find_row-key id (r ∷ rows) row h = ground (arith, eq_iff (key r) id, find_row-key id rows row)

  -- A row that is found is counted.
  pub find_row-tally :
      (p : Row → Bool) (id : String) (rows : List Row) (row : Row)
      → find_row id rows ≡ some row
      → p row ≡ true
      → 1 ≤ tally p rows
  unfolding find_row
  find_row-tally p id [] row h k = cc
  find_row-tally p id (r ∷ rows) row h k =
      ground (arith, find_row-tally p id rows row, eq_iff (key r) id)

  -- A new row is counted once more.
  pub tally-insert :
      (p : Row → Bool) (row : Row) (rows : List Row)
      → find_row (key row) rows ≡ none
      → tally p (upsert row rows) ≡ tally p rows + (if p row then 1 else 0)
  unfolding find_row upsert
  tally-insert p row [] h = omega arith
  tally-insert p row (r ∷ rows) h = ground (arith, tally-insert p row rows)

  -- A replaced row is counted in place of the old one.
  pub tally-replace :
      (p : Row → Bool) (row old : Row) (rows : List Row)
      → find_row (key row) rows ≡ some old
      → tally p (upsert row rows) + (if p old then 1 else 0)
        ≡ tally p rows + (if p row then 1 else 0)
  unfolding find_row upsert
  tally-replace p row old [] h = cc
  tally-replace p row old (r ∷ rows) h = ground (arith, tally-replace p row old rows)

  pub upsert-All {κ} :
      (P : Row → Type κ) (row : Row) (rows : List Row)
      → All P rows
      → P row
      → All P (upsert row rows)
  unfolding upsert
  upsert-All P row [] h p = (p, tt)
  upsert-All P row (r ∷ rows) (q, h) p = elim (Bool-cases (key r == key row)) [
    | inl e ↦ rw e (p, h)
    | inr n ↦ rw n (q, upsert-All P row rows h p)
  ]

  pub find_row-All {κ} :
      (P : Row → Type κ) (id : String) (rows : List Row) (row : Row)
      → find_row id rows ≡ some row
      → All P rows
      → P row
  unfolding find_row
  find_row-All P id [] row h a = cc
  find_row-All P id (r ∷ rows) row h (p, a) = elim (Bool-cases (key r == id)) [
    | inl e ↦ (let same_row : r ≡ row = ground arith in subst P same_row p)
    | inr n ↦ find_row-All P id rows row (rw n at h) a
  ]
