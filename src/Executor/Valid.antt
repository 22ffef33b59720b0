-- ===== src/Executor/Valid.antt =====
-- What holds of every table of src/executor.ts.
pub mod Rows
pub mod Steps
pub mod Staged
pub mod Tables
pub mod Checks
pub mod Statements
pub mod Sizes
pub mod Counts
pub mod Counted
pub mod Counters
pub mod Within
use yasd.Prelude.{
  ℕ, zero, suc, ◌+◌, ◌≤◌, ◌<◌, ◌≡◌, refl, sym, ap, ◌∙◌, subst, Bool, true, false, ◌||◌, Option,
  none, some, List, [], ◌∷◌, map, ◌==◌, ==_iff, if◌then◌else◌, arith,
}
use yasd.Text.{Text, text_eq}
use yasd.Sql.Syntax.{Where, Column}
use yasd.Executor.Result.{Result, ok, err, ◌>>=◌}
use yasd.Executor.Maps.{get, has}
use yasd.Executor.Maps.Numbers.{holds}
use yasd.Executor.Values.{Scalars, Row}
use yasd.Executor.Table.{Index, Table}
use yasd.Executor.Where.{satisfies}
use yasd.Executor.Plan.Covering.{AreComplete}
use yasd.Executor.Collect.{first_of, collect, kept}
use yasd.Executor.Collect.Merge.{gathered, collect-some}
use yasd.Executor.Collect.Sorted.{IsAscending, IsAscending-weaken, IsAscending-bound}

module _ {N : Type 0} where
  abbrev pub ids_of : List (ℕ × Row N) → List ℕ
  ids_of rows = map first_of rows

  -- The row numbers are below `n`.
  unfoldable pub AreBelow : ℕ → List (ℕ × Row N) → Type 0
  AreBelow n [] = Unit {0}
  AreBelow n ((id, row) ∷ rows) = (id < n) × AreBelow n rows

  -- Each of the second rows is found in the first.
  Found : List (ℕ × Row N) → List (ℕ × Row N) → Type 0
  Found rows [] = Unit {0}
  Found rows ((id, row) ∷ ps) = (get ◌==◌ id rows ≡ some row) × Found rows ps

  Found-behind :
      (n i : ℕ) (r : Row N) (rows ps : List (ℕ × Row N))
      → i < n
      → IsAscending n (ids_of ps)
      → Found rows ps
      → Found ((i, r) ∷ rows) ps
  unfolding Found IsAscending get
  Found-behind n i r rows [] l a f = tt
  Found-behind n i r rows ((j, s) ∷ ps) l (b, a) (g, f) =
      (ground arith, Found-behind (suc j) i r rows ps (omega arith) a f)

  IsAscending-Found :
      (n : ℕ) (rows : List (ℕ × Row N)) → IsAscending n (ids_of rows) → Found rows rows
  unfolding Found IsAscending get
  IsAscending-Found n [] a = tt
  IsAscending-Found n ((i, r) ∷ rows) (b, a) = (
    ground arith,
    Found-behind (suc i) i r rows rows (omega arith) a (IsAscending-Found (suc i) rows a),
  )

  pub get-ids_of :
      (id : ℕ) (row : Row N) (rows : List (ℕ × Row N))
      → get ◌==◌ id rows ≡ some row
      → holds id (ids_of rows) ≡ true
  unfolding get has
  get-ids_of id row [] h = absurd (ground arith)
  get-ids_of id row ((j, r) ∷ rows) h = ground (arith, get-ids_of id row rows)

module _ {N : Type 0} (scalars : Scalars N) where
  -- Only columns of the table have an index.
  unfoldable pub AreOfColumns : List (Column N) → List (Text × Index N) → Type 0
  AreOfColumns cs indexes =
      (c : Text) (index : Index N)
      → get text_eq c indexes ≡ some index
      → has text_eq c (map (λ d. d.name) cs) ≡ true

  -- Ascending row numbers below the next one, and indexes of columns that have every row.
  unfoldable pub IsValid : Table N → Type 0
  IsValid t =
      IsAscending 0 (ids_of t.rows)
      × AreBelow t.next_row_id t.rows
      × AreComplete scalars t.rows t.indexes
      × AreOfColumns t.columns t.indexes

  -- The rows that satisfy a condition, in their order, or the first exception of it.
  unfoldable pub matching : Option (Where N) → List (ℕ × Row N) → Result (List (ℕ × Row N))
  matching w [] = ok []
  matching w ((id, row) ∷ ps) = gathered scalars (satisfies scalars w row) (id, row) (matching w ps)

  collect-Found :
      (w : Option (Where N)) (rows ps : List (ℕ × Row N))
      → Found rows ps
      → collect scalars w rows (ids_of ps) ≡ matching w ps
  unfolding Found collect matching
  collect-Found w rows [] f = refl
  collect-Found w rows ((id, row) ∷ ps) (g, f) =
      collect-some scalars w rows id row (ids_of ps) g
      ∙ ap (gathered scalars (satisfies scalars w row) (id, row)) (collect-Found w rows ps f)

  pub collect-matching :
      (w : Option (Where N)) (rows : List (ℕ × Row N))
      → IsAscending 0 (ids_of rows)
      → collect scalars w rows (ids_of rows) ≡ matching w rows
  collect-matching w rows a = collect-Found w rows rows (IsAscending-Found 0 rows a)
