-- ===== src/Executor/Select.antt =====
-- `executeSelect` of src/executor.ts.
pub mod Reference
pub mod Refinement
use yasd.Prelude.{
  ℕ, zero, suc, ◌+◌, Bool, true, false, ◌&&◌, Option, none, some, List, [], ◌∷◌, ◌++◌, map, length,
  take, drop, ltb, leb, ◌==◌, if◌then◌else◌,
}
use yasd.Text.{Text}
use yasd.Sql.Syntax.{
  Value, null, boolean, number, string, Column, Where, Direction, asc, desc, OrderBy, Select,
}
use yasd.Executor.Result.{Result, ok, err, throw_if, ◌>>=◌, ◌>>◌, limit_exceeded}
use yasd.Executor.Maps.{get, put}
use yasd.Executor.Values.{Scalars, Row, Order, below, equal, above, string_bytes, clone_value}
use yasd.Executor.Table.{Table, Database, Limits, assert_column_exists, field}
use yasd.Executor.Where.{satisfies}
use yasd.Executor.Plan.{plan_index_lookup}
use yasd.Executor.Insert.{find_table}
use yasd.Executor.Collect.{first_of, sort_ids, Scan, examine, select_row, scan}
use yasd.Executor.Change.{validate_condition, id_of, row_of}
use yasd.Executor.TopK.{add_tops, sorted}

abbrev pub reversed : Order → Order
reversed below = above
reversed equal = equal
reversed above = below

-- The sign of `m - n`.
abbrev pub compare_ids : ℕ → ℕ → Order
compare_ids m n = if ltb m n then below else if m == n then equal else above

-- `Math.min`
abbrev smaller : ℕ → ℕ → ℕ
smaller m n = if leb m n then m else n

-- `cmp || a.id - b.id`
abbrev or_else : Order → Order → Order
or_else equal o = o
or_else below o = below
or_else above o = above

abbrev directed : Direction → Order → Order
directed asc o = o
directed desc o = reversed o

module _ {N : Type 0} (scalars : Scalars N) where
  -- `compareOrderValues`, with `orderTypeRank`.
  unfoldable pub compare_order_values : Value N → Value N → Order
  compare_order_values null null = equal
  compare_order_values null b = above
  compare_order_values a null = below
  compare_order_values (number m) (number n) = scalars.compare m n
  compare_order_values (number m) b = below
  compare_order_values a (number n) = above
  compare_order_values (string s) (string t) = scalars.locale_compare s t
  compare_order_values (string s) b = below
  compare_order_values a (string t) = above
  compare_order_values (boolean true) (boolean false) = above
  compare_order_values (boolean false) (boolean true) = below
  compare_order_values (boolean a) (boolean b) = equal

  -- The order of two values under `ORDER BY`: a null stays last when the order is reversed.
  unfoldable pub order_values : Direction → Value N → Value N → Order
  unfolding compare_order_values
  order_values d null b = compare_order_values null b
  order_values d a null = compare_order_values a null
  order_values d a b = directed d (compare_order_values a b)

  -- `compare` of `executeSelect`
  unfoldable pub compare_selected : OrderBy → ℕ × Row N → ℕ × Row N → Order
  unfolding order_values field
  compare_selected o (i, r) (j, s) =
      or_else (order_values o.direction (field o.column r) (field o.column s)) (compare_ids i j)

  abbrev pub scan_all_row : Result Bool → Scan scalars → ℕ × Row N → Scan scalars
  scan_all_row (err e) rest p = (err e, 1)
  scan_all_row (ok false) rest p = examine scalars rest
  scan_all_row (ok true) rest p = select_row scalars p rest

  abbrev pub scan_all_found : Option (Where N) → Option (Row N) → ℕ → Scan scalars → Scan scalars
  scan_all_found w none id rest = rest
  scan_all_found w (some row) id rest = scan_all_row (satisfies scalars w row) rest (id, row)

  -- The loop under an order, which goes through all the rows.
  unfoldable pub scan_all : Option (Where N) → List (ℕ × Row N) → List ℕ → Scan scalars
  unfolding satisfies get
  scan_all w rows [] = (ok [], 0)
  scan_all w rows (id ∷ ids) = scan_all_found w (get ◌==◌ id rows) id (scan_all w rows ids)

  -- `top.sorted().slice(skip, skip + take)`
  unfoldable pub ordered : OrderBy → ℕ → ℕ → ℕ → List (ℕ × Row N) → List (ℕ × Row N)
  unfolding add_tops sorted compare_selected
  ordered o size skip count ps = take count (
      drop skip (
        sorted (compare_selected o)
          (add_tops (compare_selected o) (smaller size (skip + count)) ps [])))

  abbrev pub in_order : OrderBy → ℕ → ℕ → ℕ → Scan scalars → Scan scalars
  in_order o size skip count (ok ps, n) = (ok (ordered o size skip count ps), n)
  in_order o size skip count (err e, n) = (err e, n)

  abbrev pub scan_by :
      Option OrderBy → Option (Where N) → List (ℕ × Row N) → List ℕ → ℕ → ℕ → Scan scalars
  scan_by none w rows ids skip count = scan scalars w rows ids skip count
  scan_by (some o) w rows ids skip count = in_order o (length rows) skip count (scan_all w rows ids)

  abbrev pub ascending : Option (List ℕ) → List (ℕ × Row N) → List ℕ
  ascending none rows = map first_of rows
  ascending (some ids) rows = sort_ids ids

  -- The rows that `executeSelect` selects, in front of its limits, and the number examined.
  unfoldable pub select_rows : Select N → Table N → ℕ → ℕ → Scan scalars
  unfolding scan scan_all ordered plan_index_lookup sort_ids
  select_rows s t skip zero = (ok [], 0)
  select_rows s t skip (suc n) =
      let ids = ascending (plan_index_lookup scalars t.indexes s.condition) t.rows in
      scan_by s.order_by s.condition t.rows ids skip (suc n)
