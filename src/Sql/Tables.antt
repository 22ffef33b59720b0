-- ===== src/Sql/Tables.antt =====
-- `parseCreateTable` of src/parser.ts.
use yasd.Prelude.{
  ℕ, suc, Bool, true, false, not, ◌||◌, Option, none, some, List, [], ◌∷◌, ◌++◌, ltb, ◌==◌,
  if◌then◌else◌,
}
use yasd.Text.{Text, codes, text_eq}
use yasd.Sql.Result.{
  no_columns, duplicate_column, no_key_column, multiple_keys, trailing_comma, bad_size,
  scale_needs_number, scale_exceeds, expected_separator,
}
use yasd.Sql.Numeric.{Numbers}
use yasd.Sql.Syntax.{
  Value, ColumnType, number_type, string_type, boolean_type, any_type, Column, Statement,
  create_table,
}
use yasd.Sql.Lexer.{lower}
use yasd.Sql.Parser.{
  Parse, pure, raise_if, ◌>>=◌, ◌>>◌, peek, at, at_word, is_word, consume, expect,
  expect_identifier, token_text, one_of, parse_type, parse_integer, parse_value, repeat,
}
use yasd.Sql.Separated.{separator}

-- The variables of the loop of `parseCreateTable`.
pub record Draft (N : Type 0) : Type 0 where
  pub columns : List (Column N)
  pub primary_key : Option Text
  pub declarations : ℕ

-- The variables of the loop over the modifiers of a column.
pub record Modifiers (N : Type 0) : Type 0 where
  pub nullable : Bool
  pub default : Option (Value N)
  pub primary_key : Option Text
  pub declarations : ℕ

module _ {N : Type 0} where
  unfoldable pub has_column : Text → List (Column N) → Bool
  unfolding text_eq
  has_column name [] = false
  has_column name (c ∷ cs) = text_eq c.name name || has_column name cs

  unfoldable pub has_duplicate : List (Column N) → Bool
  unfolding has_column
  has_duplicate [] = false
  has_duplicate (c ∷ cs) = has_column c.name cs || has_duplicate cs

  unfoldable pub lacks_key : List (Column N) → Option Text → Bool
  unfolding has_column
  lacks_key cs none = false
  lacks_key cs (some key) = not (has_column key cs)

  abbrev is_empty : List (Column N) → Bool
  is_empty [] = true
  is_empty (c ∷ cs) = false

  -- `validateCreateTableSchema`
  unfoldable pub validate_schema : Draft N → Parse (Unit {0})
  unfolding has_duplicate lacks_key
  validate_schema d = do
    raise_if (is_empty d.columns) no_columns
    raise_if (has_duplicate d.columns) duplicate_column
    raise_if (lacks_key d.columns d.primary_key) no_key_column

  -- The table-level `PRIMARY KEY (col)`.
  unfoldable pub table_key : Draft N → Parse (Draft N)
  table_key d = do
    raise_if (ltb 0 d.declarations) multiple_keys
    consume
    expect (codes "key")
    expect (codes "(")
    name ← expect_identifier
    expect (codes ")")
    closed ← at (codes ")")
    if closed then pure tt else separator
    pure (record d { primary_key = some name; declarations = suc d.declarations })

-- The size of a declared type is read and dropped.
unfoldable pub is_number_type : ColumnType → Bool
is_number_type number_type = true
is_number_type string_type = false
is_number_type boolean_type = false
is_number_type any_type = false

unfoldable pub type_scale : ColumnType → ℕ → Parse (Unit {0})
type_scale type precision = do
  raise_if (not (is_number_type type)) scale_needs_number
  expect (codes ",")
  scale ← parse_integer
  raise_if (ltb precision scale) scale_exceeds

unfoldable pub type_size : ColumnType → Parse (Unit {0})
type_size type = do
  expect (codes "(")
  precision ← parse_integer
  raise_if (precision == 0) bad_size
  scaled ← at (codes ",")
  if scaled then type_scale type precision else pure tt
  expect (codes ")")

unfoldable pub is_modifier : Option Text → Bool
unfolding one_of
is_modifier token =
    one_of (codes "not" ∷ codes "null" ∷ codes "default" ∷ codes "primary" ∷ [])
      (lower (token_text token))

module _ {N : Type 0} (numbers : Numbers N) where
  -- One round of the loop over the modifiers.
  unfoldable pub modifier : Text → Modifiers N → Option Text → Parse (Modifiers N)
  modifier column m token =
      if is_word (codes "not") token
      then (do consume; expect (codes "null"); pure (record m { nullable = false }))
      else if is_word (codes "null") token
      then (do consume; pure (record m { nullable = true }))
      else if is_word (codes "default") token
      then (do consume; v ← parse_value numbers; pure (record m { default = some v }))
      else (do
        raise_if (ltb 0 m.declarations) multiple_keys
        consume
        expect (codes "key")
        pure (record m { primary_key = some column; declarations = suc m.declarations }))

  unfoldable pub modifiers : Text → Modifiers N → Parse (Modifiers N)
  modifiers column =
      repeat (do token ← peek; pure (is_modifier token))
        (λ m. do token ← peek; modifier column m token)

  unfoldable pub column_end : Parse (Unit {0})
  column_end = do
    comma ← at (codes ",")
    if comma
        then (do consume; closed ← at (codes ")"); raise_if closed trailing_comma)
        else (do closed ← at (codes ")"); raise_if (not closed) expected_separator)

  unfoldable pub column : Draft N → Parse (Draft N)
  column d = do
    name ← expect_identifier
    raise_if (has_column name d.columns) duplicate_column
    type ← parse_type
    sized ← at (codes "(")
    if sized then type_size type else pure tt
    m ← modifiers name (record {
      nullable = true;
      default = none;
      primary_key = d.primary_key;
      declarations = d.declarations;
    })
    column_end
    pure (record {
      columns =
          d.columns
          ++ record { name = name; type = type; nullable = m.nullable; default = m.default } ∷ [];
      primary_key = m.primary_key;
      declarations = m.declarations;
    })

  unfoldable pub draft_round : Draft N → Parse (Draft N)
  draft_round d = do key ← at_word (codes "primary"); if key then table_key d else column d

  -- `parseCreateTable`
  unfoldable pub parse_create_table : Parse (Statement N)
  parse_create_table = do
    expect (codes "create")
    expect (codes "table")
    name ← expect_identifier
    expect (codes "(")
    d ←
        repeat (do closed ← at (codes ")"); pure (not closed)) draft_round
          (record { columns = []; primary_key = none; declarations = 0 })
    expect (codes ")")
    validate_schema d
    pure (
        create_table
          (record { table_name = name; columns = d.columns; primary_key = d.primary_key }))
