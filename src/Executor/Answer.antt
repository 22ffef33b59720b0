-- ===== src/Executor/Answer.antt =====
-- What `executeSelect` of src/executor.ts checks in front of its loop and makes of the rows behind it.
use yasd.Prelude.{ℕ, suc, ◌+◌, Option, none, some, List, [], ◌∷◌, map, length, ltb}
use yasd.Text.{Text, text_eq}
use yasd.Sql.Syntax.{Column, OrderBy, Select}
use yasd.Executor.Result.{Result, ok, err, throw_if, ◌>>=◌, ◌>>◌, limit_exceeded}
use yasd.Executor.Maps.{put}
use yasd.Executor.Values.{Scalars, Row, string_bytes, charged, clone_value}
use yasd.Executor.Table.{Table, Database, Limits, assert_column_exists, field}
use yasd.Executor.Insert.{find_table}
use yasd.Executor.Collect.{Scan}
use yasd.Executor.Change.{validate_condition, row_of}
use yasd.Executor.Select.{select_rows}

module _ {N : Type 0} (scalars : Scalars N) where
  unfoldable pub assert_columns_exist : List (Column N) → List Text → Result (Unit {0})
  unfolding assert_column_exists
  assert_columns_exist cs [] = ok tt
  assert_columns_exist cs (name ∷ names) = do
    assert_column_exists cs name
    assert_columns_exist cs names

  abbrev named : List (Column N) → Option (List Text) → Result (Unit {0})
  named cs none = ok tt
  named cs (some names) = assert_columns_exist cs names

  abbrev order_named : List (Column N) → Option OrderBy → Result (Unit {0})
  order_named cs none = ok tt
  order_named cs (some o) = assert_column_exists cs o.column

  -- `validateSelectReferences`
  unfoldable pub validate_select : List (Column N) → Select N → Result (Unit {0})
  unfolding assert_columns_exist
  validate_select cs s = do
    named cs s.columns
    order_named cs s.order_by
    validate_condition scalars cs s.condition

  -- The bytes of one row in the result.
  unfoldable pub fields_bytes : List Text → Row N → ℕ
  unfolding string_bytes charged field
  fields_bytes [] row = 0
  fields_bytes (c ∷ cs) row =
      2 + string_bytes c + charged scalars (field c row) + 2 + fields_bytes cs row

  unfoldable pub copy_fields : List Text → Row N → Row N → Result (Row N)
  unfolding clone_value field put
  copy_fields [] row copy = ok copy
  copy_fields (c ∷ cs) row copy = do
    v ← clone_value scalars (field c row)
    copy_fields cs row (put text_eq c v copy)

  -- `rows.map`, with the bytes of the rows in front.
  unfoldable pub copy_rows : ℕ → List Text → ℕ → List (Row N) → Result (List (Row N))
  unfolding fields_bytes copy_fields
  copy_rows limit cs bytes [] = ok []
  copy_rows limit cs bytes (row ∷ rows) = do
    let total = bytes + fields_bytes cs row + 3
    throw_if (ltb limit total) limit_exceeded
    copy ← copy_fields cs row []
    copies ← copy_rows limit cs total rows
    ok (copy ∷ copies)

  abbrev names_of : List (Column N) → List Text
  names_of cs = map (λ c. c.name) cs

  abbrev selected_columns : List (Column N) → Option (List Text) → List Text
  selected_columns cs none = names_of cs
  selected_columns cs (some names) = names

  abbrev or_default : ℕ → Option ℕ → ℕ
  or_default d none = d
  or_default d (some n) = n

  -- The result of the rows that the loop has selected.
  unfoldable pub answer :
      Limits → Select N → Table N → List (ℕ × Row N) → Result (List Text × List (Row N))
  unfolding copy_rows
  answer limits s t ps = do
    throw_if (ltb limits.max_result_rows (length ps)) limit_exceeded
    let cs = selected_columns t.columns s.columns
    rows ← copy_rows limits.max_result_bytes cs 2 (map row_of ps)
    ok (cs, rows)

  unfoldable pub check_select : Select N → Database N → Result (Table N)
  unfolding validate_select
  check_select s db = do t ← find_table s.table_name db; validate_select t.columns s; ok t

  unfoldable pub run_select : Limits → Select N → Table N → Scan scalars
  unfolding select_rows
  run_select limits s t =
      select_rows scalars s t (or_default 0 s.offset)
        (or_default (suc limits.max_result_rows) s.limit)

  -- `executeSelect`, from the table.
  abbrev pub select_from :
      Limits
      → Select N
      → Database N
      → Result (Table N)
      → Result (List Text × List (Row N)) × Database N
  select_from limits s db (err e) = (err e, db)
  select_from limits s db (ok t) =
      let (r, examined) = run_select limits s t in
      (r >>= answer limits s t, record db { examined_rows = examined })

  unfoldable pub execute_select :
      Limits → Select N → Database N → Result (List Text × List (Row N)) × Database N
  unfolding check_select run_select answer
  execute_select limits s db = select_from limits s db (check_select s db)
