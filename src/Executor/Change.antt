-- ===== src/Executor/Change.antt =====
-- `executeUpdate` and `executeDelete` of src/executor.ts.
use yasd.Prelude.{
  get_or, ℕ, ◌+◌, ◌-◌, Bool, true, false, ◌||◌, Option, none, some, List, [], ◌∷◌, map, length,
  ◌==◌,
}
use yasd.Text.{Text, text_eq}
use yasd.Sql.Syntax.{Value, Column, Where, Update, Delete}
use yasd.Executor.Result.{Result, ok, err, throw_if, ◌>>=◌, ◌>>◌, duplicate_column}
use yasd.Executor.Maps.{get, put, remove, has}
use yasd.Executor.Values.{Scalars, Row}
use yasd.Executor.Table.{
  Index, Table, Database, Limits, find_column, field, add_index_entry, remove_index_entry,
}
use yasd.Executor.Where.{validate_where}
use yasd.Executor.Plan.{plan_index_lookup}
use yasd.Executor.Coerce.{found, is_key, coerce_write_value}
use yasd.Executor.Keys.{key_of, assert_primary_key_unique}
use yasd.Executor.Insert.{find_table, put_table, check_capacity, index_key, bytes_of}
use yasd.Executor.Collect.{candidates, collect}

abbrev pub id_of : {A : Type 0} → ℕ × A → ℕ
id_of p = p.0

abbrev pub row_of : {A : Type 0} → ℕ × A → A
row_of p = p.1

module _ {N : Type 0} (scalars : Scalars N) where
  abbrev pub validate_condition : List (Column N) → Option (Where N) → Result (Unit {0})
  validate_condition cs none = ok tt
  validate_condition cs (some w) = validate_where cs w

  -- The rows that the condition selects, by the plan or by a full scan.
  unfoldable pub selected : Option (Where N) → Table N → Result (List (ℕ × Row N))
  unfolding collect candidates plan_index_lookup
  selected w t =
      collect scalars w t.rows (candidates scalars (plan_index_lookup scalars t.indexes w) t.rows)

  -- The loop over the `SET` clauses.
  unfoldable pub prepare_set :
      Option Text
      → List (Column N)
      → List Text
      → List (Text × Value N)
      → Result (List (Text × Value N))
  unfolding has find_column coerce_write_value
  prepare_set key all seen [] = ok []
  prepare_set key all seen ((name, v) ∷ set) = do
    throw_if (has text_eq name seen) duplicate_column
    c ← found scalars (find_column name all)
    u ← coerce_write_value scalars c (is_key scalars key name) v
    rest ← prepare_set key all (name ∷ seen) set
    ok ((name, u) ∷ rest)

  -- `nextRow[column] = value` for each clause.
  unfoldable pub with_set : List (Text × Value N) → Row N → Row N
  unfolding put
  with_set [] row = row
  with_set ((name, v) ∷ set) row = with_set set (put text_eq name v row)

  unfoldable pub updates_of : List (Text × Value N) → List (ℕ × Row N) → List (ℕ × Row N)
  unfolding with_set
  updates_of set [] = []
  updates_of set ((id, row) ∷ ps) = (id, with_set set row) ∷ updates_of set ps

  -- `changesPk`
  unfoldable pub changes_key : Option Text → List (Text × Value N) → Bool
  changes_key none set = false
  changes_key (some k) [] = false
  changes_key (some k) ((name, v) ∷ set) = text_eq name k || changes_key (some k) set

  abbrev pub size_at : ℕ → List (ℕ × ℕ) → ℕ
  size_at id sizes = get_or 0 (get ◌==◌ id sizes)

  -- `rowBytes.get(index) ?? 0`, summed over the rows that are replaced.
  unfoldable pub old_bytes : List (ℕ × ℕ) → List (ℕ × Row N) → ℕ
  unfolding get
  old_bytes sizes [] = 0
  old_bytes sizes ((id, row) ∷ ps) = size_at id sizes + old_bytes sizes ps

  -- The identities of the replaced rows leave the index of the primary key.
  unfoldable pub unkey_rows : Text → List (ℕ × Row N) → List (Text × ℕ) → List (Text × ℕ)
  unfolding remove key_of
  unkey_rows key [] index = index
  unkey_rows key ((id, row) ∷ ps) index =
      unkey_rows key ps (remove text_eq (key_of scalars key row) index)

  unfoldable pub unkey : Bool → Option Text → List (ℕ × Row N) → List (Text × ℕ) → List (Text × ℕ)
  unfolding unkey_rows
  unkey true (some key) ps index = unkey_rows key ps index
  unkey changes key ps index = index

  abbrev rekey : Bool → Option Text → ℕ → Row N → List (Text × ℕ) → List (Text × ℕ)
  rekey true key id row index = index_key scalars key row id index
  rekey false key id row index = index

  -- The index entries of the columns that are set.
  unfoldable pub reindex_row :
      List (Text × Value N) → ℕ → Row N → Row N → List (Text × Index N) → List (Text × Index N)
  unfolding add_index_entry remove_index_entry field
  reindex_row [] id old new indexes = indexes
  reindex_row ((name, v) ∷ set) id old new indexes = reindex_row set id old new (
      add_index_entry scalars name (field name new) id
        (remove_index_entry scalars name (field name old) id indexes))

  -- One round of the loop that stores the updates.
  unfoldable pub replace_row : Bool → List (Text × Value N) → ℕ → Row N → Row N → Table N → Table N
  unfolding put reindex_row index_key
  replace_row changes set id old new t = record t {
    rows = put ◌==◌ id new t.rows;
    row_bytes = put ◌==◌ id (scalars.row_bytes new) t.row_bytes;
    primary_index = rekey changes t.primary_key id new t.primary_index;
    indexes = reindex_row set id old new t.indexes;
  }

  unfoldable pub replace_rows : Bool → List (Text × Value N) → List (ℕ × Row N) → Table N → Table N
  unfolding replace_row with_set
  replace_rows changes set [] t = t
  replace_rows changes set ((id, old) ∷ ps) t =
      replace_rows changes set ps (replace_row changes set id old (with_set set old) t)

  abbrev pub assert_changed : Bool → Table N → List (ℕ × Row N) → Result (Unit {0})
  assert_changed true t us =
      assert_primary_key_unique scalars t.primary_key t.primary_index (map id_of us) (map row_of us)
  assert_changed false t us = ok tt

  -- The checks of `executeUpdate`: the table, the clauses and the rows that they change.
  unfoldable pub check_update :
      Limits → Update N → Database N → Result (Table N × List (Text × Value N) × List (ℕ × Row N))
  unfolding validate_where prepare_set selected updates_of changes_key assert_primary_key_unique
      bytes_of old_bytes check_capacity
  check_update limits s db = do
    t ← find_table s.table_name db
    validate_condition t.columns s.condition
    set ← prepare_set t.primary_key t.columns [] s.set
    ps ← selected s.condition t
    let us = updates_of set ps
    assert_changed (changes_key t.primary_key set) t us
    check_capacity limits db.stored_rows
        (db.stored_bytes + bytes_of scalars (map row_of us) - old_bytes t.row_bytes ps)
    ok (t, set, ps)

  unfoldable pub commit_update :
      Text → Table N → List (Text × Value N) → List (ℕ × Row N) → Database N → Database N
  unfolding replace_rows unkey changes_key bytes_of old_bytes updates_of
  commit_update name t set ps db =
      let changes = changes_key t.primary_key set in
      let start = record t { primary_index = unkey changes t.primary_key ps t.primary_index } in
      record (put_table name (replace_rows changes set ps start) db) {
        stored_bytes =
            db.stored_bytes
            + bytes_of scalars (map row_of (updates_of set ps))
            - old_bytes t.row_bytes ps;
      }

  -- `executeUpdate`
  unfoldable pub execute_update : Limits → Update N → Database N → Result ℕ × Database N
  unfolding check_update commit_update
  execute_update limits s db = elim (check_update limits s db) [
    | err e ↦ (err e, db)
    | ok (t, set, ps) ↦ (ok (length ps), commit_update s.table_name t set ps db)
  ]

  unfoldable pub unindex_row :
      List (Column N) → Row N → ℕ → List (Text × Index N) → List (Text × Index N)
  unfolding remove_index_entry field
  unindex_row [] row id indexes = indexes
  unindex_row (c ∷ cs) row id indexes =
      unindex_row cs row id (remove_index_entry scalars c.name (field c.name row) id indexes)

  -- `deleteRow`, of the table.
  unfoldable pub delete_row : ℕ → Row N → Table N → Table N
  unfolding unindex_row unkey_rows remove
  delete_row id row t = record t {
    indexes = unindex_row t.columns row id t.indexes;
    primary_index = unkey true t.primary_key ((id, row) ∷ []) t.primary_index;
    row_bytes = remove ◌==◌ id t.row_bytes;
    rows = remove ◌==◌ id t.rows;
  }

  -- `deleteRow` for each row, with the counters.
  unfoldable pub delete_rows : List (ℕ × Row N) → Table N → ℕ × ℕ → Table N × (ℕ × ℕ)
  unfolding delete_row get
  delete_rows [] t (rows, bytes) = (t, (rows, bytes))
  delete_rows ((id, row) ∷ ps) t (rows, bytes) =
      delete_rows ps (delete_row id row t) (rows - 1, bytes - size_at id t.row_bytes)

  unfoldable pub check_delete : Delete N → Database N → Result (Table N × List (ℕ × Row N))
  unfolding validate_where selected
  check_delete s db = do
    t ← find_table s.table_name db
    validate_condition t.columns s.condition
    ps ← selected s.condition t
    ok (t, ps)

  unfoldable pub commit_delete : Text → Table N → List (ℕ × Row N) → Database N → Database N
  unfolding delete_rows
  commit_delete name t ps db =
      let (u, (rows, bytes)) = delete_rows ps t (db.stored_rows, db.stored_bytes) in
      record (put_table name u db) { stored_rows = rows; stored_bytes = bytes }

  -- `executeDelete`
  unfoldable pub execute_delete : Delete N → Database N → Result ℕ × Database N
  unfolding check_delete commit_delete
  execute_delete s db = elim (check_delete s db) [
    | err e ↦ (err e, db)
    | ok (t, ps) ↦ (ok (length ps), commit_delete s.table_name t ps db)
  ]
