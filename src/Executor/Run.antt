-- ===== src/Executor/Run.antt =====
-- The entry points of src/executor.ts: `execute`, `executeStatement`, `explain` and `reset`.
use yasd.Prelude.{ℕ, Option, none, some, List, [], length}
use yasd.Text.{Text, text_eq}
use yasd.Metrics.{SlowLog, SlowEntry, record_slow}
use yasd.Sql.Syntax.{
  Statement, create_table, insert, select, update, delete, drop_table, Where, OrderBy, Select,
}
use yasd.Sql.Numeric.{Numbers}
use yasd.Sql.Lexer.{trim}
use yasd.Sql.Result.{ParseError}
use yasd.Executor.Result.{SqlError}
use yasd.Executor.Maps.{get}
use yasd.Executor.Values.{Scalars, Row}
use yasd.Executor.Table.{Table, Database, Limits}
use yasd.Executor.Plan.{Plan, index_plan}
use yasd.Executor.Insert.{execute_insert}
use yasd.Executor.Change.{execute_update, execute_delete}
use yasd.Executor.Schema.{execute_create_table, execute_drop_table, empty_database}
use yasd.Executor.Answer.{execute_select, validate_select}
use yasd.Executor.Prepared.{Statements, prepared}
use yasd.Executor.Result
use yasd.Sql.Result as Parsing

-- `QueryResult`: `affectedRows`, or the columns and the rows.
pub data QueryResult (N : Type 0) : Type 0 where
  affected : ℕ → QueryResult N
  selected : List Text → List (Row N) → QueryResult N

-- What `execute` returns or throws.
pub data Response (N : Type 0) : Type 0 where
  answered : QueryResult N → Response N
  refused : SqlError → Response N
  unparsed : ParseError → Response N

-- The state of `Executor`.
pub record State (N : Type 0) (D : Type 0) : Type 0 where
  pub database : Database N
  pub statements : Statements N
  pub slow : SlowLog D

pub data Strategy : Type 0 where
  index_scan full_scan : Strategy

-- `QueryPlan` of a `SELECT`.
pub record QueryPlan : Type 0 where
  pub table : Text
  pub columns : Option (List Text)
  pub strategy : Strategy
  pub index_columns : Option (List Text)
  pub order_by : Option OrderBy
  pub limit : Option ℕ
  pub offset : Option ℕ
  pub table_rows : Option ℕ

module _ {N : Type 0} (scalars : Scalars N) where
  abbrev pub changed_result : Result.Result ℕ × Database N → Response N × Database N
  changed_result (Result.ok n, db) = (answered (affected n), db)
  changed_result (Result.err e, db) = (refused e, db)

  abbrev pub select_result :
      Result.Result (List Text × List (Row N)) × Database N → Response N × Database N
  select_result (Result.ok (cs, rows), db) = (answered (selected cs rows), db)
  select_result (Result.err e, db) = (refused e, db)

  -- `executeStatement`
  unfoldable pub execute_statement : Limits → Statement N → Database N → Response N × Database N
  unfolding execute_create_table execute_insert execute_select execute_update execute_delete
      execute_drop_table
  execute_statement limits (create_table s) db =
      changed_result (execute_create_table scalars limits s db)
  execute_statement limits (insert s) db = changed_result (execute_insert scalars limits s db)
  execute_statement limits (select s) db = select_result (execute_select scalars limits s db)
  execute_statement limits (update s) db = changed_result (execute_update scalars limits s db)
  execute_statement limits (delete s) db = changed_result (execute_delete scalars s db)
  execute_statement limits (drop_table name) db = changed_result (execute_drop_table name db)

  abbrev planned : Option (Table N) → Option (Where N) → Option Plan
  planned none w = none
  planned (some t) none = none
  planned (some t) (some w) = index_plan scalars t.indexes w

  abbrev strategy_of : Option Plan → Strategy
  strategy_of none = full_scan
  strategy_of (some p) = index_scan

  abbrev columns_of : Option Plan → Option (List Text)
  columns_of none = none
  columns_of (some p) = some p.columns

  abbrev rows_of : Option (Table N) → Option ℕ
  rows_of none = none
  rows_of (some t) = some (length t.rows)

  abbrev described : Select N → Option (Table N) → Option Plan → QueryPlan
  described s t p = record {
    table = s.table_name;
    columns = s.columns;
    strategy = strategy_of p;
    index_columns = columns_of p;
    order_by = s.order_by;
    limit = s.limit;
    offset = s.offset;
    table_rows = rows_of t;
  }

  abbrev explain_table : Select N → Option (Table N) → Result.Result QueryPlan
  explain_table s none = Result.ok (described s none none)
  explain_table s (some t) = elim (validate_select scalars t.columns s) [
    | Result.err e ↦ Result.err e
    | Result.ok u ↦ Result.ok (described s (some t) (planned (some t) s.condition))
  ]

  -- `explain` of a `SELECT` that is parsed.
  unfoldable pub explain_select : Select N → Database N → Result.Result QueryPlan
  unfolding get validate_select index_plan
  explain_select s db = explain_table s (get text_eq s.table_name db.tables)

module _ {N D : Type 0} (scalars : Scalars N) (numbers : Numbers N)
    (clock : yasd.Metrics.Numbers D) where
  -- The statement that `prepared` gives, or what it throws.
  unfoldable pub run_prepared :
      Limits → Parsing.Result (Statement N) → Database N → Response N × Database N
  unfolding execute_statement
  run_prepared limits (Parsing.err e) db = (unparsed e, db)
  run_prepared limits (Parsing.ok s) db = execute_statement scalars limits s db

  -- `execute`, which takes `elapsed` and ends at `at`.
  unfoldable pub execute : Limits → Text → D → D → State N D → Response N × State N D
  unfolding trim prepared run_prepared record_slow
  execute limits sql elapsed at s =
      let (statement, statements) = prepared numbers (trim sql) s.statements in
      let (r, database) = run_prepared limits statement s.database in
      let entry : SlowEntry D = record {
        name = trim sql;
        duration = elapsed;
        at = at;
        argc = none;
      } in
      (
        r,
        record {
          database = database;
          statements = statements;
          slow = (record_slow clock entry s.slow).1;
        },
      )

-- `reset`, which keeps the slow log.
unfoldable pub reset : {N D : Type 0} → State N D → State N D
reset s = record s { database = empty_database; statements = record { entries = []; bytes = 0 } }
