-- ===== src/Sql/Total/Statements.antt =====
-- `parse` of src/parser.ts: what its methods leave of the text, to the end.
use yasd.Prelude.{
  ℕ, suc, ◌*◌, ◌≡◌, ◌≢◌, refl, subst, false, Option, none, some, arith, ltb, if_rule,
}
use yasd.Text.{Text, utf8_byte_length}
use yasd.Sql.Result.{Result, ok, err, out_of_fuel}
use yasd.Sql.Syntax.{Statement}
use yasd.Sql.Numeric.{Numbers}
use yasd.Sql.Lexer.{trim}
use yasd.Sql.Parser.{Parser, next_token}
use yasd.Sql.Clauses.{parse_where}
use yasd.Sql.Statements.{
  insert_columns, insert_row, parse_insert, select_columns, condition, direction, order_clause,
  count_clause, parse_select, set_clause, parse_update, parse_delete, parse_drop_table, by_keyword,
  at_end, parse_statement, parse_from, parse,
}
use yasd.Sql.Total.Rules.{is_fuel, left, Ends, Safe, Strict, Strict-Safe}
use yasd.Sql.Total.Tokens.{next_token-Within, Within}
use yasd.Sql.Total.Values.{parse_rules}
use yasd.Sql.Total.Clauses.{Strict-parse_where}
use yasd.Sql.Total.Tables.{Safe-separated, Safe-parse_create_table}

module _ {N : Type 0} (numbers : Numbers N) where
  Safe-parse_where : {k : ℕ} → Safe k (parse_where numbers)
  Safe-parse_where = Strict-Safe (Strict-parse_where numbers)

  Safe-insert_columns : {k : ℕ} → Safe k (insert_columns numbers)
  unfolding insert_columns
  Safe-insert_columns = search (parse_rules, Safe-separated) depth 12

  Strict-insert_row : {k : ℕ} → Strict k (insert_row numbers)
  unfolding insert_row
  Strict-insert_row = search (parse_rules, Safe-separated) depth 12

  Safe-insert_row : {k : ℕ} → Safe k (insert_row numbers)
  Safe-insert_row = Strict-Safe Strict-insert_row

  Safe-parse_insert : {k : ℕ} → Safe k (parse_insert numbers)
  unfolding parse_insert
  Safe-parse_insert =
      search (parse_rules, Safe-insert_columns, Strict-insert_row, Safe-insert_row) depth 20

  Safe-select_columns : {k : ℕ} → Safe k (select_columns numbers)
  unfolding select_columns
  Safe-select_columns = search parse_rules depth 20

  Safe-condition : {k : ℕ} → Safe k (condition numbers)
  unfolding condition
  Safe-condition = search (parse_rules, Safe-parse_where) depth 12

  Safe-direction : {k : ℕ} → Safe k (direction numbers)
  unfolding direction
  Safe-direction = search parse_rules depth 12

  Safe-order_clause : {k : ℕ} → Safe k (order_clause numbers)
  unfolding order_clause
  Safe-order_clause = search (parse_rules, Safe-direction) depth 20

  Safe-count_clause : {k : ℕ} (w : Text) → Safe k (count_clause numbers w)
  unfolding count_clause
  Safe-count_clause w = search parse_rules depth 12

  Safe-parse_select : {k : ℕ} → Safe k (parse_select numbers)
  unfolding parse_select
  Safe-parse_select =
      search
        (parse_rules, Safe-select_columns, Safe-condition, Safe-order_clause, Safe-count_clause)
        depth 20

  Strict-set_clause : {k : ℕ} → Strict k (set_clause numbers)
  unfolding set_clause
  Strict-set_clause = search parse_rules depth 12

  Safe-set_clause : {k : ℕ} → Safe k (set_clause numbers)
  Safe-set_clause = Strict-Safe Strict-set_clause

  Safe-parse_update : {k : ℕ} → Safe k (parse_update numbers)
  unfolding parse_update
  Safe-parse_update =
      search (parse_rules, Strict-set_clause, Safe-set_clause, Safe-condition) depth 20

  Safe-parse_delete : {k : ℕ} → Safe k (parse_delete numbers)
  unfolding parse_delete
  Safe-parse_delete = search (parse_rules, Safe-condition) depth 20

  Safe-parse_drop_table : {k : ℕ} → Safe k (parse_drop_table numbers)
  unfolding parse_drop_table
  Safe-parse_drop_table = search parse_rules depth 20

  Safe-by_keyword : {k : ℕ} (o : Option Text) → Safe k (by_keyword numbers o)
  unfolding by_keyword
  Safe-by_keyword o =
      search
        (
          parse_rules, Safe-parse_create_table, Safe-parse_insert, Safe-parse_select,
          Safe-parse_update, Safe-parse_delete, Safe-parse_drop_table,
        )
        depth 20

  Safe-at_end : {k : ℕ} (o : Option Text) → Safe k (at_end numbers o)
  unfolding at_end
  Safe-at_end none = search parse_rules
  Safe-at_end (some t) = search parse_rules

  Safe-parse_statement : {k : ℕ} → Safe k (parse_statement numbers)
  unfolding parse_statement
  Safe-parse_statement = search (parse_rules, Safe-by_keyword, Safe-at_end) depth 20

  -- The outcome of the source: a statement, or one of its errors.
  abbrev Settles : Result (Statement N) → Type 0
  Settles (ok s) = Unit {0}
  Settles (err e) = is_fuel e ≡ false

  Settles-parse_from : (n : ℕ) (r : Result Parser) → Within n r → Settles (parse_from numbers r)
  unfolding parse_from
  Settles-parse_from n (err e) h = h
  Settles-parse_from n (ok p) h =
      ended (parse_statement numbers p)
        ((Safe-parse_statement {k = suc (left p)}).from p (omega arith))
    where
      ended :
          (r : Result (Statement N × Parser))
          → Ends (suc (left p)) r
          → Settles (elim r as (λ _. Result (Statement N)) [ ok (s, q) ↦ ok s | err e ↦ err e ])
      ended (ok (s, q)) g = tt
      ended (err e) g = g

  Settles-parse : (sql : Text) → Settles (parse numbers sql)
  unfolding parse
  Settles-parse sql =
      if_rule Settles (ltb (4 * 1024 * 1024) (utf8_byte_length sql)) _ _ (λ _. refl)
        (λ _. Settles-parse_from _ (next_token (trim sql)) (next_token-Within (trim sql)))

  -- On every text, of any length and nesting, `parse` comes to an end within the fuel that it is
  -- given: it never answers that the fuel ran out.
  pub parse-ne_fuel : (sql : Text) → parse numbers sql ≢ err out_of_fuel
  parse-ne_fuel sql h = let e = subst Settles h (Settles-parse sql) in cc
