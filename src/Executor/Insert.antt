-- ===== src/Executor/Insert.antt =====
-- `executeInsert` of src/executor.ts.
use yasd.Prelude.{ℕ, suc, ◌+◌, ◌||◌, Option, none, some, List, [], ◌∷◌, length, ltb, ◌==◌}
use yasd.Text.{Text, text_eq}
use yasd.Sql.Syntax.{Column, Insert}
use yasd.Executor.Result.{Result, ok, err, throw_if, ◌>>=◌, ◌>>◌, table_not_found, limit_exceeded}
use yasd.Executor.Maps.{get, put}
use yasd.Executor.Values.{Scalars, Row}
use yasd.Executor.Table.{Index, Table, Database, Limits, field, add_index_entry}
use yasd.Executor.Coerce.{insert_columns, prepare_rows}
use yasd.Executor.Keys.{key_of, assert_primary_key_unique}

-- `Number.MAX_SAFE_INTEGER`
abbrev pub max_safe : ℕ
max_safe = 9007199254740991

-- `checkCapacity`
unfoldable pub check_capacity : Limits → ℕ → ℕ → Result (Unit {0})
check_capacity limits rows bytes =
    throw_if (ltb limits.max_rows rows || ltb limits.max_bytes bytes) limit_exceeded

module _ {N : Type 0} where
  abbrev pub find_table : Text → Database N → Result (Table N)
  find_table name db = elim (get text_eq name db.tables) [
    | none ↦ err table_not_found
    | some t ↦ ok t
  ]

  abbrev pub put_table : Text → Table N → Database N → Database N
  put_table name t db = record db { tables = put text_eq name t db.tables }

module _ {N : Type 0} (scalars : Scalars N) where
  -- The loop of `addIndexEntry` over the columns of a row.
  unfoldable pub index_row :
      List (Column N) → Row N → ℕ → List (Text × Index N) → List (Text × Index N)
  unfolding add_index_entry field
  index_row [] row id indexes = indexes
  index_row (c ∷ cs) row id indexes =
      index_row cs row id (add_index_entry scalars c.name (field c.name row) id indexes)

  unfoldable pub index_key : Option Text → Row N → ℕ → List (Text × ℕ) → List (Text × ℕ)
  unfolding put key_of
  index_key none row id index = index
  index_key (some key) row id index = put text_eq (key_of scalars key row) id index

  -- The loop that stores the prepared rows.
  unfoldable pub store_row : Row N → Table N → Table N
  unfolding put index_row index_key
  store_row row t = record t {
    rows = put ◌==◌ t.next_row_id row t.rows;
    next_row_id = suc t.next_row_id;
    row_bytes = put ◌==◌ t.next_row_id (scalars.row_bytes row) t.row_bytes;
    primary_index = index_key t.primary_key row t.next_row_id t.primary_index;
    indexes = index_row t.columns row t.next_row_id t.indexes;
  }

  unfoldable pub store_rows : List (Row N) → Table N → Table N
  unfolding store_row
  store_rows [] t = t
  store_rows (row ∷ rows) t = store_rows rows (store_row row t)

  -- `sizes.reduce((a, b) => a + b, 0)`
  unfoldable pub bytes_of : List (Row N) → ℕ
  bytes_of [] = 0
  bytes_of (row ∷ rows) = scalars.row_bytes row + bytes_of rows

  -- The checks of `executeInsert`, in front of any change: the table and the prepared rows.
  unfoldable pub check_insert : Limits → Insert N → Database N → Result (Table N × List (Row N))
  unfolding insert_columns prepare_rows assert_primary_key_unique bytes_of check_capacity
  check_insert limits s db = do
    t ← find_table s.table_name db
    cs ← insert_columns scalars t.columns s.columns
    rows ← prepare_rows scalars t.primary_key t.columns cs s.rows
    assert_primary_key_unique scalars t.primary_key t.primary_index [] rows
    check_capacity limits (db.stored_rows + length rows) (db.stored_bytes + bytes_of rows)
    throw_if (ltb max_safe (t.next_row_id + length rows)) limit_exceeded
    ok (t, rows)

  unfoldable pub commit_insert : Text → Table N → List (Row N) → Database N → Database N
  unfolding store_rows bytes_of
  commit_insert name t rows db = record (put_table name (store_rows rows t) db) {
    stored_rows = db.stored_rows + length rows;
    stored_bytes = db.stored_bytes + bytes_of rows;
  }

  -- `executeInsert`: the number of rows, or an exception, and the database.
  unfoldable pub execute_insert : Limits → Insert N → Database N → Result ℕ × Database N
  unfolding check_insert commit_insert
  execute_insert limits s db = elim (check_insert limits s db) [
    | err e ↦ (err e, db)
    | ok (t, rows) ↦ (ok (length rows), commit_insert s.table_name t rows db)
  ]
