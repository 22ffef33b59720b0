-- ===== src/Tests/Statements.antt =====
-- Runs of src/executor.ts.
use yasd.Prelude.{
  ℕ, ◌+◌, ◌≡◌, refl, true, false, none, some, List, [], ◌∷◌, length, ltb, ◌==◌, ==_iff, arith,
  if◌then◌else◌,
}
use yasd.Text.{Text, codes, text_eq}
use yasd.Sql.Syntax.{
  between, ge, le, and_clause, comparison, eq, null, Value, number, string, number_type, Column,
  literal, column_ref, in_list, Select, Statement, insert, delete,
}
use yasd.Sql.Numeric.{Numbers}
use yasd.Sql.Statements.{parse}
use yasd.Executor.Result.{ok, primary_key_duplicate}
use yasd.Executor.Maps.{get, put, has}
use yasd.Executor.Values.{Scalars, Row, below, equal, above, values_equal}
use yasd.Executor.Table.{Table, Database, Limits, field}
use yasd.Executor.Where.{evaluate, among, evaluate_where, satisfies}
use yasd.Executor.Coerce.{
  insert_columns, prepare_rows, prepare_row, given_fields, with_defaults, coerce_write_value,
  coerce_to,
}
use yasd.Executor.Keys.{assert_primary_key_unique, assert_unique, key_of, is_taken}
use yasd.Executor.Insert.{store_row, store_rows, index_key, check_insert, execute_insert}
use yasd.Executor.Schema.{empty_table}
use yasd.Executor.Select.{select_rows}
use yasd.Executor.Prepared.{Statements, prepared}
use yasd.Executor.Run.{refused, execute_statement}
use yasd.Executor.Plan.Covering.{IsLawful}
use yasd.Executor.Prepared.Bounds.{key_bytes, AreParsed, IsFaithful, prepared-parse}
use yasd.Executor.Valid.{IsValid, matching}
use yasd.Executor.Valid.Steps.{store_rows-IsValid}
use yasd.Executor.Maps.Weights.{total}
use yasd.Executor.Valid.Sizes.{sizes_of, IsSized}
use yasd.Executor.Valid.Counted.{AreSized, IsCounted}
use yasd.Executor.Valid.Counters.{execute_statement-IsCounted}
use yasd.Executor.Valid.Within.{IsWithin, execute_statement-IsWithin}
use yasd.Executor.Where.Logic.{any_equal, in_list-any_equal, between-and_clause}
use yasd.Executor.Valid.Tables.{AreValid, IsSound}
use yasd.Executor.Valid.Statements.{empty_table-IsValid, execute_statement-IsSound}
use yasd.Executor.Select.Refinement.{page, select_rows-page}

-- Numbers below ten, and an order of texts that knows none.
abbrev digits : Numbers ℕ
digits = record { read = λ t. none }

abbrev json_text : Value ℕ → Text
json_text (number n) = (n + 48) ∷ []
json_text (string s) = s
json_text v = []

abbrev scalars : Scalars ℕ
scalars = record {
  same = ◌==◌;
  compare = λ m n. if ltb m n then below else if m == n then equal else above;
  show = λ n. (n + 48) ∷ [];
  read = λ t. none;
  locale_compare = λ s t. equal;
  lower = λ t. t;
  json = json_text;
  row_bytes = λ row. length row;
}

abbrev limits : Limits
limits = record {
  index_columns = none;
  max_rows = 10;
  max_bytes = 100;
  max_result_rows = 10;
  max_result_bytes = 1000;
  max_tables = 2;
}

abbrev columns : List (Column ℕ)
columns =
    record { name = codes "id"; type = number_type; nullable = false; default = none }
    ∷ record { name = codes "k"; type = number_type; nullable = true; default = none }
    ∷ []

abbrev row : ℕ → ℕ → Row ℕ
row i k = (codes "id", number i) ∷ (codes "k", number k) ∷ []

abbrev table : Table ℕ
table =
    store_rows scalars (row 1 5 ∷ row 2 6 ∷ row 3 5 ∷ [])
      (empty_table limits columns (some (codes "id")))

abbrev database : Database ℕ
database = record {
  tables = (codes "t", table) ∷ [];
  stored_rows = 3;
  stored_bytes = 6;
  examined_rows = 0;
}

scalars_lawful : IsLawful scalars
unfolding IsLawful
scalars_lawful = ==_iff

table-IsValid : IsValid scalars table
table-IsValid =
    store_rows-IsValid scalars scalars_lawful _ _
      (empty_table-IsValid scalars limits columns (some (codes "id")))

abbrev query : Select ℕ
query = record {
  columns = none;
  table_name = codes "t";
  condition =
      some (in_list (column_ref (codes "k")) (literal (number 5)) (literal (number 7) ∷ []));
  order_by = none;
  limit = none;
  offset = none;
}

abbrev matches : List (ℕ × Row ℕ)
matches = (0, row 1 5) ∷ (2, row 3 5) ∷ []

matched_rows : matching scalars query.condition table.rows ≡ ok matches
unfolding matching store_rows store_row empty_table put satisfies evaluate_where evaluate among
    values_equal field get text_eq
matched_rows = refl

select_rows-page_example :
    (select_rows scalars query table 1 5).0 ≡ ok (page scalars none (length table.rows) 1 5 matches)
select_rows-page_example =
    select_rows-page scalars query table 1 5 matches scalars_lawful table-IsValid matched_rows

database-IsSound : IsSound scalars database
unfolding IsSound AreValid
database-IsSound = (table-IsValid, tt)

abbrev insertion : Statement ℕ
insertion = insert (record {
  table_name = codes "t";
  columns = [];
  rows = (number 4 ∷ number 5 ∷ []) ∷ (number 1 ∷ number 6 ∷ []) ∷ [];
})

abbrev addition : Statement ℕ
addition =
    insert (record { table_name = codes "t"; columns = []; rows = (number 4 ∷ number 5 ∷ []) ∷ [] })

abbrev deletion : Statement ℕ
deletion = delete (record { table_name = codes "t"; condition = query.condition })

execute_statement-IsSound_example :
    IsSound scalars (execute_statement scalars limits addition database).1
execute_statement-IsSound_example =
    execute_statement-IsSound scalars limits addition database scalars_lawful database-IsSound

key_refused :
    (execute_statement scalars limits insertion database).0 ≡ refused primary_key_duplicate
unfolding execute_statement execute_insert check_insert insert_columns prepare_rows prepare_row
    given_fields with_defaults coerce_write_value coerce_to assert_primary_key_unique assert_unique
    key_of has get is_taken store_rows store_row index_key empty_table put field text_eq
key_refused = refl

abbrev remembered_none : Statements ℕ
remembered_none = record { entries = []; bytes = 0 }

none-IsFaithful : IsFaithful digits remembered_none
unfolding IsFaithful key_bytes AreParsed
none-IsFaithful = (omega arith, omega arith, refl, tt)

prepared-parse_example :
    ((prepared digits (codes "DROP TABLE a") remembered_none).0
      ≡ parse digits (codes "DROP TABLE a"))
    × IsFaithful digits (prepared digits (codes "DROP TABLE a") remembered_none).1
prepared-parse_example =
    prepared-parse digits (codes "DROP TABLE a") remembered_none none-IsFaithful

database-IsCounted : IsCounted scalars database
unfolding IsCounted AreSized IsSized sizes_of total store_rows store_row empty_table put
database-IsCounted = (refl, refl, (refl, tt))

execute_statement-IsCounted_example :
    IsCounted scalars (execute_statement scalars limits deletion database).1
execute_statement-IsCounted_example =
    execute_statement-IsCounted scalars limits deletion database scalars_lawful database-IsSound
      database-IsCounted

database-IsWithin : IsWithin scalars limits database
unfolding IsWithin
database-IsWithin = (omega arith, omega arith)

execute_statement-IsWithin_example :
    IsWithin scalars limits (execute_statement scalars limits addition database).1
execute_statement-IsWithin_example =
    execute_statement-IsWithin scalars limits addition database database-IsWithin

in_list-any_equal_example :
    evaluate_where scalars
      (row 1 5)
      (in_list (column_ref (codes "k")) (literal null) (literal (number 5) ∷ []))
    ≡ evaluate_where scalars (row 1 5) (
        any_equal scalars
          (column_ref (codes "k"))
          (comparison (column_ref (codes "k")) eq (literal null))
          (literal (number 5) ∷ []))
in_list-any_equal_example =
    in_list-any_equal scalars (row 1 5) (column_ref (codes "k")) (literal null)
      (literal (number 5) ∷ [])

between-and_clause_example :
    evaluate_where scalars
      (row 1 5)
      (between (column_ref (codes "k")) (literal (number 2)) (literal null))
    ≡ evaluate_where scalars (row 1 5) (
        and_clause
          (comparison (column_ref (codes "k")) ge (literal (number 2)))
          (comparison (column_ref (codes "k")) le (literal null)))
between-and_clause_example =
    between-and_clause scalars (row 1 5) (column_ref (codes "k")) (literal (number 2))
      (literal null)
