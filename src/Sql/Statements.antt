-- ===== src/Sql/Statements.antt =====
-- The methods of src/parser.ts that read whole statements.
use yasd.Prelude.{ℕ, ◌*◌, Option, none, some, List, [], ◌∷◌, ◌++◌, ltb, if◌then◌else◌}
use yasd.Text.{Text, codes, utf8_byte_length}
use yasd.Sql.Result.{Result, ok, err, unexpected_keyword, trailing_token, too_long}
use yasd.Sql.Numeric.{Numbers}
use yasd.Sql.Syntax.{
  Value, Where, Direction, asc, desc, OrderBy, Statement, insert, select, update, delete,
  drop_table,
}
use yasd.Sql.Lexer.{trim}
use yasd.Sql.Parser.{
  Parser, Parse, pure, raise, ◌>>=◌, ◌>>◌, next_token, peek, at, at_word, is_word, consume, expect,
  expect_identifier, parse_integer, parse_value, repeat,
}
use yasd.Sql.Clauses.{parse_where}
use yasd.Sql.Separated.{separated}
use yasd.Sql.Tables.{parse_create_table}

module _ {N : Type 0} (numbers : Numbers N) where
  -- The columns of an `INSERT`, if they are named.
  unfoldable pub insert_columns : Parse (List Text)
  insert_columns = do
    opened ← at (codes "(")
    if opened
        then (do expect (codes "("); cs ← separated expect_identifier; expect (codes ")"); pure cs)
        else pure []

  unfoldable pub insert_row : Parse (List (Value N))
  insert_row = do
    expect (codes "(")
    row ← separated (parse_value numbers)
    expect (codes ")")
    pure row

  -- `parseInsert`
  unfoldable pub parse_insert : Parse (Statement N)
  parse_insert = do
    expect (codes "insert")
    expect (codes "into")
    name ← expect_identifier
    columns ← insert_columns
    expect (codes "values")
    first ← insert_row
    rows ←
        repeat (at (codes ",")) (λ acc. do consume; row ← insert_row; pure (acc ++ row ∷ []))
          (first ∷ [])
    pure (insert (record { table_name = name; columns = columns; rows = rows }))

  unfoldable pub select_columns : Parse (Option (List Text))
  select_columns = do
    star ← at (codes "*")
    if star then (do expect (codes "*"); pure none) else (do
      first ← expect_identifier
      cs ←
          repeat (at (codes ",")) (λ acc. do consume; c ← expect_identifier; pure (acc ++ c ∷ []))
            (first ∷ [])
      pure (some cs))

  -- The optional `WHERE`.
  unfoldable pub condition : Parse (Option (Where N))
  condition = do
    given ← at_word (codes "where")
    if given then (do consume; w ← parse_where numbers; pure (some w)) else pure none

  -- The direction that `consume` reads, and `asc` without one.
  unfoldable pub direction : Parse Direction
  direction = do
    up ← at_word (codes "asc")
    down ← at_word (codes "desc")
    if up then (do consume; pure asc) else (if down then (do consume; pure desc) else pure asc)

  unfoldable pub order_clause : Parse (Option OrderBy)
  order_clause = do
    given ← at_word (codes "order")
    if given
        then (do
          consume
          expect (codes "by")
          c ← expect_identifier
          d ← direction
          pure (some (record { column = c; direction = d })))
        else pure none

  -- The optional `LIMIT` and `OFFSET`.
  unfoldable pub count_clause : Text → Parse (Option ℕ)
  count_clause word = do
    given ← at_word word
    if given then (do consume; n ← parse_integer; pure (some n)) else pure none

  -- `parseSelect`
  unfoldable pub parse_select : Parse (Statement N)
  parse_select = do
    expect (codes "select")
    columns ← select_columns
    expect (codes "from")
    name ← expect_identifier
    where_clause ← condition
    order ← order_clause
    limit ← count_clause (codes "limit")
    offset ← count_clause (codes "offset")
    pure (
        select (record {
          columns = columns;
          table_name = name;
          condition = where_clause;
          order_by = order;
          limit = limit;
          offset = offset;
        }))

  unfoldable pub set_clause : Parse (Text × Value N)
  set_clause = do c ← expect_identifier; expect (codes "="); v ← parse_value numbers; pure (c, v)

  -- `parseUpdate`
  unfoldable pub parse_update : Parse (Statement N)
  parse_update = do
    expect (codes "update")
    name ← expect_identifier
    expect (codes "set")
    first ← set_clause
    all ←
        repeat (at (codes ",")) (λ acc. do expect (codes ","); s ← set_clause; pure (acc ++ s ∷ []))
          (first ∷ [])
    where_clause ← condition
    pure (update (record { table_name = name; set = all; condition = where_clause }))

  -- `parseDelete`
  unfoldable pub parse_delete : Parse (Statement N)
  parse_delete = do
    expect (codes "delete")
    expect (codes "from")
    name ← expect_identifier
    where_clause ← condition
    pure (delete (record { table_name = name; condition = where_clause }))

  -- `parseDropTable`
  unfoldable pub parse_drop_table : Parse (Statement N)
  parse_drop_table = do
    expect (codes "drop")
    expect (codes "table")
    name ← expect_identifier
    pure (drop_table name)

  unfoldable pub by_keyword : Option Text → Parse (Statement N)
  by_keyword token =
      if is_word (codes "create") token
      then parse_create_table numbers
      else if is_word (codes "insert") token
      then parse_insert
      else if is_word (codes "select") token
      then parse_select
      else if is_word (codes "update") token
      then parse_update
      else if is_word (codes "delete") token
      then parse_delete
      else if is_word (codes "drop") token
      then parse_drop_table
      else raise unexpected_keyword

  unfoldable pub at_end : Option Text → Parse (Unit {0})
  at_end none = pure tt
  at_end (some t) = raise trailing_token

  -- The method `parse`.
  unfoldable pub parse_statement : Parse (Statement N)
  parse_statement = do
    keyword ← peek
    statement ← by_keyword keyword
    semicolon ← at (codes ";")
    if semicolon then (do consume; pure tt) else pure tt
    token ← peek
    at_end token
    pure statement

  unfoldable pub parse_from : Result Parser → Result (Statement N)
  parse_from (err e) = err e
  parse_from (ok p) = elim (parse_statement p) [ ok (s, q) ↦ ok s | err e ↦ err e ]

  -- The function `parse`.
  unfoldable pub parse : Text → Result (Statement N)
  parse sql =
      let parsed = parse_from (next_token (trim sql)) in
      if ltb (4 * 1024 * 1024) (utf8_byte_length sql) then err too_long else parsed
