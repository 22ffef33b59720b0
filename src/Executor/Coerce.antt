-- ===== src/Executor/Coerce.antt =====
-- `coerceWriteValue` of src/executor.ts, and the rows of an `INSERT` before they are stored.
use yasd.Prelude.{
  Bool, true, false, not, Option, none, some, List, [], ◌∷◌, ◌++◌, length, ◌==◌, if◌then◌else◌,
}
use yasd.Text.{Text, codes, text_eq}
use yasd.Sql.Syntax.{
  Value, null, boolean, number, string, ColumnType, string_type, number_type, boolean_type,
  any_type, Column,
}
use yasd.Sql.Lexer.{skip_spaces}
use yasd.Executor.Result.{
  Result, ok, err, throw_if, ◌>>=◌, ◌>>◌, not_null_constraint, primary_key_null, type_constraint,
  duplicate_column, column_not_found, row_arity,
}
use yasd.Executor.Maps.{get, has}
use yasd.Executor.Values.{Scalars, Row, clone_value}
use yasd.Executor.Table.{find_column}

module _ {N : Type 0} (scalars : Scalars N) where
  -- A null, which a primary key and a column that is not nullable refuse.
  unfoldable pub coerce_null : Bool → Bool → Result (Value N)
  coerce_null nullable true = err primary_key_null
  coerce_null false false = err not_null_constraint
  coerce_null true false = ok null

  abbrev converted : Option N → Result (Value N)
  converted none = err type_constraint
  converted (some n) = ok (number n)

  -- `value.trim() !== ""`
  unfoldable pub is_blank : Text → Bool
  unfolding skip_spaces
  is_blank s = elim (skip_spaces s) [ [] ↦ true | c ∷ cs ↦ false ]

  unfoldable pub coerce_to : ColumnType → Value N → Result (Value N)
  unfolding clone_value text_eq is_blank
  coerce_to any_type v = clone_value scalars v
  coerce_to string_type (string s) = ok (string s)
  coerce_to number_type (number n) = ok (number n)
  coerce_to number_type (string s) =
      if is_blank s then err type_constraint else converted (scalars.read s)
  coerce_to boolean_type (boolean b) = ok (boolean b)
  coerce_to boolean_type (string s) =
      if text_eq (scalars.lower s) (codes "true")
      then ok (boolean true)
      else if text_eq (scalars.lower s) (codes "false")
      then ok (boolean false)
      else err type_constraint
  coerce_to t v = err type_constraint

  -- `coerceWriteValue`
  unfoldable pub coerce_write_value : Column N → Bool → Value N → Result (Value N)
  unfolding coerce_null coerce_to
  coerce_write_value c is_key null = coerce_null c.nullable is_key
  coerce_write_value c is_key v = coerce_to c.type v

  -- `name === table.schema.primaryKey`
  abbrev pub is_key : Option Text → Text → Bool
  is_key none name = false
  is_key (some k) name = text_eq name k

  abbrev pub found : Option (Column N) → Result (Column N)
  found none = err column_not_found
  found (some c) = ok c

  -- The columns that an `INSERT` names, without a duplicate.
  unfoldable pub named_columns : List (Column N) → List Text → List Text → Result (List (Column N))
  unfolding has find_column
  named_columns all seen [] = ok []
  named_columns all seen (name ∷ names) = do
    throw_if (has text_eq name seen) duplicate_column
    c ← found (find_column name all)
    cs ← named_columns all (name ∷ seen) names
    ok (c ∷ cs)

  unfoldable pub insert_columns : List (Column N) → List Text → Result (List (Column N))
  unfolding named_columns
  insert_columns all [] = ok all
  insert_columns all (name ∷ names) = named_columns all [] (name ∷ names)

  -- The values in the order of the columns.
  unfoldable pub given_fields : Option Text → List (Column N) → List (Value N) → Result (Row N)
  unfolding coerce_write_value
  given_fields key (c ∷ cs) (v ∷ vs) = do
    u ← coerce_write_value c (is_key key c.name) v
    row ← given_fields key cs vs
    ok ((c.name, u) ∷ row)
  given_fields key cs vs = ok []

  abbrev default_of : Option (Value N) → Value N
  default_of none = null
  default_of (some v) = v

  -- The defaults of the columns that have no value yet.
  unfoldable pub with_defaults : Option Text → List (Column N) → Row N → Result (Row N)
  unfolding coerce_write_value get
  with_defaults key [] row = ok row
  with_defaults key (c ∷ cs) row = elim (get text_eq c.name row) [
    | some v ↦ with_defaults key cs row
    | none ↦ do
      u ← coerce_write_value c (is_key key c.name) (default_of c.default)
      with_defaults key cs (row ++ (c.name, u) ∷ [])
  ]

  unfoldable pub prepare_row :
      Option Text → List (Column N) → List (Column N) → List (Value N) → Result (Row N)
  unfolding given_fields with_defaults
  prepare_row key all cs vs = do
    throw_if (not (length vs == length cs)) row_arity
    row ← given_fields key cs vs
    with_defaults key all row

  unfoldable pub prepare_rows :
      Option Text
      → List (Column N)
      → List (Column N)
      → List (List (Value N))
      → Result (List (Row N))
  unfolding prepare_row
  prepare_rows key all cs [] = ok []
  prepare_rows key all cs (vs ∷ rest) = do
    row ← prepare_row key all cs vs
    rows ← prepare_rows key all cs rest
    ok (row ∷ rows)
