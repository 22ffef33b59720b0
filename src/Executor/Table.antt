-- ===== src/Executor/Table.antt =====
-- The tables of src/executor.ts and their indexes.
pub mod Growth
pub mod Entries
pub mod Reindex
use yasd.Prelude.{
  ℕ, zero, suc, ◌+◌, ◌-◌, Bool, true, false, ◌||◌, Option, none, some, List, [], ◌∷◌, ◌++◌, length,
  get_or, ◌==◌, if◌then◌else◌,
}
use yasd.Text.{Text, text_eq}
use yasd.Sql.Syntax.{Value, null, Column}
use yasd.Executor.Result.{Result, ok, err, column_not_found}
use yasd.Executor.Maps.{get, put, remove, has, add, discard}
use yasd.Executor.Values.{Scalars, Row, values_equal}

-- `Map<Primitive, Set<number>>`
abbrev pub Index : Type 0 → Type 0
Index N = List (Value N × List ℕ)

-- `TableData`
pub record Table (N : Type 0) : Type 0 where
  pub columns : List (Column N)
  pub primary_key : Option Text
  pub rows : List (ℕ × Row N)
  pub next_row_id : ℕ
  pub primary_index : List (Text × ℕ)
  pub row_bytes : List (ℕ × ℕ)
  pub indexes : List (Text × Index N)

-- `db.tables` and the counters of `Executor`.
pub record Database (N : Type 0) : Type 0 where
  pub tables : List (Text × Table N)
  pub stored_rows : ℕ
  pub stored_bytes : ℕ
  pub examined_rows : ℕ

-- The options of `Executor`; `index_columns` is `none` to index all of them.
pub record Limits : Type 0 where
  pub index_columns : Option (List Text)
  pub max_rows : ℕ
  pub max_bytes : ℕ
  pub max_result_rows : ℕ
  pub max_result_bytes : ℕ
  pub max_tables : ℕ

module _ {N : Type 0} where
  -- `table.schema.columns.find((c) => c.name === name)`
  unfoldable pub find_column : Text → List (Column N) → Option (Column N)
  unfolding text_eq
  find_column name [] = none
  find_column name (c ∷ cs) = if text_eq c.name name then some c else find_column name cs

  -- `assertColumnExists`
  unfoldable pub assert_column_exists : List (Column N) → Text → Result (Unit {0})
  unfolding find_column
  assert_column_exists cs name = elim (find_column name cs) [
    | none ↦ err column_not_found
    | some c ↦ ok tt
  ]

  -- `row[column]`, where what is undefined is taken for null.
  unfoldable pub field : Text → Row N → Value N
  unfolding get
  field c row = get_or null (get text_eq c row)

module _ {N : Type 0} (scalars : Scalars N) where
  -- `index.get(value) ?? []`
  unfoldable pub positions : Value N → Index N → List ℕ
  unfolding get
  positions v index = get_or [] (get (values_equal scalars) v index)

  unfoldable pub add_position : Value N → ℕ → Index N → Index N
  unfolding positions put add
  add_position v id index = put (values_equal scalars) v (add ◌==◌ id (positions v index)) index

  -- What is left of a set, which is deleted when it is empty.
  abbrev pub put_rest : Value N → List ℕ → Index N → Index N
  put_rest v [] index = remove (values_equal scalars) v index
  put_rest v (i ∷ is) index = put (values_equal scalars) v (i ∷ is) index

  unfoldable pub drop_position : Value N → ℕ → Option (List ℕ) → Index N → Index N
  unfolding put remove discard
  drop_position v id none index = index
  drop_position v id (some ids) index = put_rest v (discard ◌==◌ id ids) index

  abbrev pub with_entry :
      Text → Value N → ℕ → Option (Index N) → List (Text × Index N) → List (Text × Index N)
  with_entry column v id none indexes = indexes
  with_entry column v id (some index) indexes = put text_eq column (add_position v id index) indexes

  -- `addIndexEntry`
  unfoldable pub add_index_entry :
      Text → Value N → ℕ → List (Text × Index N) → List (Text × Index N)
  unfolding get put add_position
  add_index_entry column v id indexes = with_entry column v id (get text_eq column indexes) indexes

  abbrev pub without_entry :
      Text → Value N → ℕ → Option (Index N) → List (Text × Index N) → List (Text × Index N)
  without_entry column v id none indexes = indexes
  without_entry column v id (some index) indexes =
      put text_eq column (drop_position v id (get (values_equal scalars) v index) index) indexes

  -- `removeIndexEntry`
  unfoldable pub remove_index_entry :
      Text → Value N → ℕ → List (Text × Index N) → List (Text × Index N)
  unfolding get put drop_position
  remove_index_entry column v id indexes =
      without_entry column v id (get text_eq column indexes) indexes
