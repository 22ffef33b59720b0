-- ===== src/Executor/Valid/Statements.antt =====
-- The database of src/executor.ts behind each of its statements.
use yasd.Prelude.{
  ℕ, ◌≡◌, refl, sym, subst, true, ◌||◌, Option, some, List, [], ◌∷◌, map, arith, if_rule,
}
use yasd.Text.{Text, text_eq}
use yasd.Sql.Syntax.{
  Column, CreateTable, Insert, Select, Update, Delete, Statement, create_table, insert, select,
  update, delete, drop_table,
}
use yasd.Executor.Result.{Result, ok, err}
use yasd.Executor.Maps.{get, has}
use yasd.Executor.Values.{Scalars, Row}
use yasd.Executor.Table.{Index, Table, Database, Limits}
use yasd.Executor.Insert.{find_table, check_insert, commit_insert, execute_insert, store_rows}
use yasd.Executor.Change.{
  changes_key, check_update, commit_update, execute_update, unkey, replace_rows, check_delete,
  commit_delete, execute_delete, delete_rows,
}
use yasd.Executor.Schema.{
  empty_indexes, should_index_column, empty_table, check_create_table, execute_create_table,
  execute_drop_table, drop_table_of,
}
use yasd.Executor.Answer.{check_select, select_from, execute_select}
use yasd.Executor.Run.{execute_statement, changed_result, select_result}
use yasd.Executor.Collect.Sorted.{IsAscending}
use yasd.Executor.Plan.Covering.{IsLawful, AreComplete, Covers}
use yasd.Executor.Valid.{AreBelow, AreOfColumns, IsValid}
use yasd.Executor.Valid.Tables.{
  IsSound, put-AreValid, remove-AreValid, find_table-IsValid, checked_rule,
}
use yasd.Executor.Valid.Checks.{check_insert-table, check_update-table, check_delete-table}
use yasd.Executor.Valid.Staged.{selected-Staged, replace_rows-IsValid, delete_rows-IsValid}
use yasd.Executor.Valid.Steps.{store_rows-IsValid}

module _ {N : Type 0} (scalars : Scalars N) where
  module _ (limits : Limits) (s : Insert N) (db : Database N) where
    execute_insert-IsSound :
        IsLawful scalars
        → IsSound scalars db
        → IsSound scalars (execute_insert scalars limits s db).1
    unfolding execute_insert commit_insert IsSound
    execute_insert-IsSound l d =
        checked_rule scalars db (check_insert scalars limits s db) _ _ d (λ (t, rows) e.
          put-AreValid scalars s.table_name (store_rows scalars rows t) db.tables
            (store_rows-IsValid scalars l rows t (
              find_table-IsValid scalars s.table_name db t d
                (check_insert-table scalars limits s db t rows e).0))
            d)

  module _ (limits : Limits) (s : Update N) (db : Database N) where
    execute_update-IsSound :
        IsLawful scalars
        → IsSound scalars db
        → IsSound scalars (execute_update scalars limits s db).1
    unfolding execute_update commit_update IsSound IsValid
    execute_update-IsSound l d =
        checked_rule scalars db (check_update scalars limits s db) _ _ d (λ (t, set, ps) e.
          let (f, g, q) = check_update-table scalars limits s db t set ps e in
          let v = find_table-IsValid scalars s.table_name db t d f in
          let changes = changes_key scalars t.primary_key set in
          let start : Table N = record t {
            primary_index = unkey scalars changes t.primary_key ps t.primary_index;
          } in
          put-AreValid scalars s.table_name (replace_rows scalars changes set ps start) db.tables
            (replace_rows-IsValid scalars l changes set ps start
              (selected-Staged scalars s.condition t ps v g) v)
            d)

  module _ (s : Delete N) (db : Database N) where
    execute_delete-IsSound :
        IsLawful scalars → IsSound scalars db → IsSound scalars (execute_delete scalars s db).1
    unfolding execute_delete commit_delete IsSound
    execute_delete-IsSound l d =
        checked_rule scalars db (check_delete scalars s db) _ _ d (λ (t, ps) e.
          put-AreValid scalars s.table_name
            (delete_rows scalars ps t (db.stored_rows, db.stored_bytes)).0 db.tables
            (delete_rows-IsValid scalars l ps t (db.stored_rows, db.stored_bytes)
              (find_table-IsValid scalars s.table_name db t d
                (check_delete-table scalars s db t ps e).0))
            d)

  empty_indexes-has :
      (limits : Limits) (cs : List (Column N)) (c : Text) (index : Index N)
      → get text_eq c (empty_indexes limits cs) ≡ some index
      → has text_eq c (map (λ d. d.name) cs) ≡ true
  unfolding empty_indexes has get
  empty_indexes-has limits [] c index h = absurd (ground arith)
  empty_indexes-has limits (d ∷ cs) c index h =
      if_rule
        (λ m.
          get text_eq c m ≡ some index
          → (text_eq d.name c || has text_eq c (map (λ x. x.name) cs)) ≡ true)
        (should_index_column limits d.name) ((d.name, []) ∷ empty_indexes limits cs)
        (empty_indexes limits cs) (λ q g. ground (arith, empty_indexes-has limits cs c index))
        (λ q g. ground (arith, empty_indexes-has limits cs c index)) h

  pub empty_table-IsValid :
      (limits : Limits) (cs : List (Column N)) (key : Option Text)
      → IsValid scalars (empty_table limits cs key)
  unfolding empty_table IsValid IsAscending AreBelow AreComplete Covers AreOfColumns get
  empty_table-IsValid limits cs key =
      (tt, tt, λ c index g id row h. absurd (ground arith), empty_indexes-has limits cs)

  execute_create_table-IsSound :
      (limits : Limits) (s : CreateTable N) (db : Database N)
      → IsSound scalars db
      → IsSound scalars (execute_create_table scalars limits s db).1
  unfolding execute_create_table IsSound
  execute_create_table-IsSound limits s db d =
      checked_rule scalars db (check_create_table scalars limits s db) _ _ d (λ cs e.
        put-AreValid scalars s.table_name (empty_table limits cs s.primary_key) db.tables
          (empty_table-IsValid limits cs s.primary_key) d)

  execute_drop_table-IsSound :
      (name : Text) (db : Database N)
      → IsSound scalars db
      → IsSound scalars (execute_drop_table name db).1
  unfolding execute_drop_table drop_table_of IsSound
  execute_drop_table-IsSound name db d =
      checked_rule scalars db (find_table name db) _ _ d
        (λ t e. remove-AreValid scalars name db.tables d)

  select_from-IsSound :
      (limits : Limits) (s : Select N) (db : Database N) (r : Result (Table N))
      → IsSound scalars db
      → IsSound scalars (select_from scalars limits s db r).1
  unfolding IsSound
  select_from-IsSound limits s db (err e) d = d
  select_from-IsSound limits s db (ok t) d = d

  pub changed_result-1 : (p : Result ℕ × Database N) → (changed_result scalars p).1 ≡ p.1
  changed_result-1 (ok n, d) = refl
  changed_result-1 (err e, d) = refl

  pub select_result-1 :
      (p : Result (List Text × List (Row N)) × Database N) → (select_result scalars p).1 ≡ p.1
  select_result-1 (ok (cs, rows), d) = refl
  select_result-1 (err e, d) = refl

  -- Every statement, whether it succeeds or is refused, leaves every table valid: its row numbers
  -- ascending and below the next one, each index one of a column of the table, and each row in every
  -- index under the value that it has in the column.
  pub execute_statement-IsSound :
      (limits : Limits) (s : Statement N) (db : Database N)
      → IsLawful scalars
      → IsSound scalars db
      → IsSound scalars (execute_statement scalars limits s db).1
  unfolding execute_statement execute_select
  execute_statement-IsSound limits (create_table s) db l d =
      subst (IsSound scalars) (sym (changed_result-1 _))
        (execute_create_table-IsSound limits s db d)
  execute_statement-IsSound limits (insert s) db l d =
      subst (IsSound scalars) (sym (changed_result-1 _)) (execute_insert-IsSound limits s db l d)
  execute_statement-IsSound limits (select s) db l d =
      subst (IsSound scalars) (sym (select_result-1 _))
        (select_from-IsSound limits s db (check_select scalars s db) d)
  execute_statement-IsSound limits (update s) db l d =
      subst (IsSound scalars) (sym (changed_result-1 _)) (execute_update-IsSound limits s db l d)
  execute_statement-IsSound limits (delete s) db l d =
      subst (IsSound scalars) (sym (changed_result-1 _)) (execute_delete-IsSound s db l d)
  execute_statement-IsSound limits (drop_table name) db l d =
      subst (IsSound scalars) (sym (changed_result-1 _)) (execute_drop_table-IsSound name db d)
