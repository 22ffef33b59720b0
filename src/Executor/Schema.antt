-- ===== src/Executor/Schema.antt =====
-- `executeCreateTable`, `executeDropTable` and `reset` of src/executor.ts.
use yasd.Prelude.{
  ℕ, ◌+◌, ◌-◌, Bool, true, false, Option, none, some, List, [], ◌∷◌, length, leb, if◌then◌else◌,
}
use yasd.Text.{Text, text_eq}
use yasd.Sql.Syntax.{Value, Column, CreateTable}
use yasd.Executor.Result.{Result, ok, err, throw_if, ◌>>=◌, ◌>>◌, table_exists, limit_exceeded}
use yasd.Executor.Maps.{get, put, remove, has}
use yasd.Executor.Values.{Scalars, clone_value}
use yasd.Executor.Table.{Index, Table, Database, Limits}
use yasd.Executor.Insert.{find_table, put_table}

-- `shouldIndexColumn`
unfoldable pub should_index_column : Limits → Text → Bool
unfolding has
should_index_column limits column = elim limits.index_columns [
  | none ↦ true
  | some names ↦ has text_eq column names
]

-- `table.rowBytes.values()`, summed.
unfoldable pub all_bytes : List (ℕ × ℕ) → ℕ
all_bytes [] = 0
all_bytes ((id, n) ∷ sizes) = n + all_bytes sizes

module _ {N : Type 0} where
  abbrev pub has_table : Text → Database N → Bool
  has_table name db = elim (get text_eq name db.tables) [ none ↦ false | some t ↦ true ]

  -- The loop over the columns that makes an empty index of each.
  unfoldable pub empty_indexes : Limits → List (Column N) → List (Text × Index N)
  unfolding should_index_column
  empty_indexes limits [] = []
  empty_indexes limits (c ∷ cs) =
      let rest = empty_indexes limits cs in
      if should_index_column limits c.name then (c.name, []) ∷ rest else rest

  unfoldable pub empty_table : Limits → List (Column N) → Option Text → Table N
  unfolding empty_indexes
  empty_table limits columns key = record {
    columns = columns;
    primary_key = key;
    rows = [];
    next_row_id = 0;
    primary_index = [];
    row_bytes = [];
    indexes = empty_indexes limits columns;
  }

  unfoldable pub drop_table_of : Text → Table N → Database N → Database N
  unfolding remove all_bytes
  drop_table_of name t db = record db {
    tables = remove text_eq name db.tables;
    stored_rows = db.stored_rows - length t.rows;
    stored_bytes = db.stored_bytes - all_bytes t.row_bytes;
  }

  -- `executeDropTable`
  unfoldable pub execute_drop_table : Text → Database N → Result ℕ × Database N
  unfolding drop_table_of get
  execute_drop_table name db = elim (find_table name db) [
    | err e ↦ (err e, db)
    | ok t ↦ (ok 0, drop_table_of name t db)
  ]

  -- `new Executor` and `reset`
  abbrev pub empty_database : Database N
  empty_database = record { tables = []; stored_rows = 0; stored_bytes = 0; examined_rows = 0 }

module _ {N : Type 0} (scalars : Scalars N) where
  abbrev cloned : Column N → Option (Value N) → Result (Column N)
  cloned c none = ok c
  cloned c (some v) = do u ← clone_value scalars v; ok (record c { default = some u })

  -- The copies of the columns, with their defaults.
  unfoldable pub clone_columns : List (Column N) → Result (List (Column N))
  unfolding clone_value
  clone_columns [] = ok []
  clone_columns (c ∷ cs) = do d ← cloned c c.default; ds ← clone_columns cs; ok (d ∷ ds)

  unfoldable pub check_create_table : Limits → CreateTable N → Database N → Result (List (Column N))
  unfolding clone_columns get
  check_create_table limits s db = do
    throw_if (has_table s.table_name db) table_exists
    throw_if (leb limits.max_tables (length db.tables)) limit_exceeded
    clone_columns s.columns

  -- `executeCreateTable`
  unfoldable pub execute_create_table : Limits → CreateTable N → Database N → Result ℕ × Database N
  unfolding check_create_table put empty_table
  execute_create_table limits s db = elim (check_create_table limits s db) [
    | err e ↦ (err e, db)
    | ok cs ↦ (ok 0, put_table s.table_name (empty_table limits cs s.primary_key) db)
  ]
