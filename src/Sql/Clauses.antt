-- ===== src/Sql/Clauses.antt =====
-- `parseWhereClause` of src/parser.ts and the methods below it. The loops and the nesting run on as
-- much fuel as there is text left.
use yasd.Prelude.{ℕ, zero, suc, Option, none, some, [], ◌∷◌, ◌++◌, if◌then◌else◌}
use yasd.Text.{Text, codes, text_eq}
use yasd.Sql.Result.{expected_operator, out_of_fuel}
use yasd.Sql.Numeric.{Numbers}
use yasd.Sql.Syntax.{
  Expression, Operator, eq, ne, gt, ge, lt, le, like, Where, and_clause, or_clause, not_clause,
  is_null, is_not_null, comparison, in_list, between,
}
use yasd.Sql.Lexer.{lower}
use yasd.Sql.Parser.{
  size, repeat, Parse, pure, raise, ◌>>=◌, ◌>>◌, peek, at, at_word, consume, expect, token_text,
  parse_expression,
}

-- The operators after the left operand: those with one right operand, and the other three.
pub data Kind : Type 0 where
  binary : Operator → Kind
  is_kind in_kind between_kind : Kind

unfoldable pub kind_of : Text → Option Kind
unfolding text_eq
kind_of t =
    if text_eq t (codes "=")
    then some (binary eq)
    else if text_eq t (codes "!=")
    then some (binary ne)
    else if text_eq t (codes ">")
    then some (binary gt)
    else if text_eq t (codes ">=")
    then some (binary ge)
    else if text_eq t (codes "<")
    then some (binary lt)
    else if text_eq t (codes "<=")
    then some (binary le)
    else if text_eq t (codes "like")
    then some (binary like)
    else if text_eq t (codes "in")
    then some in_kind
    else if text_eq t (codes "between")
    then some between_kind
    else if text_eq t (codes "is")
    then some is_kind
    else none

module _ {N : Type 0} (numbers : Numbers N) where
  -- `IN (...)`
  unfoldable pub in_operands : Expression N → Parse (Where N)
  in_operands left = do
    expect (codes "(")
    first ← parse_expression numbers
    others ←
        repeat (at (codes ","))
          (λ acc. do consume; e ← parse_expression numbers; pure (acc ++ e ∷ [])) []
    expect (codes ")")
    pure (in_list left first others)

  -- `BETWEEN a AND b`
  unfoldable pub between_operands : Expression N → Parse (Where N)
  between_operands left = do
    low ← parse_expression numbers
    expect (codes "and")
    high ← parse_expression numbers
    pure (between left low high)

  -- `IS NULL` and `IS NOT NULL`
  unfoldable pub is_operands : Expression N → Parse (Where N)
  is_operands left = do
    negated ← at_word (codes "not")
    if negated
        then (do consume; expect (codes "null"); pure (is_not_null left))
        else (do expect (codes "null"); pure (is_null left))

  unfoldable pub operands : Expression N → Option Kind → Parse (Where N)
  operands left none = raise expected_operator
  operands left (some (binary op)) = do
    consume
    right ← parse_expression numbers
    pure (comparison left op right)
  operands left (some is_kind) = do consume; is_operands left
  operands left (some in_kind) = do consume; in_operands left
  operands left (some between_kind) = do consume; between_operands left

  -- `parseComparisonClause`
  unfoldable pub parse_comparison : Parse (Where N)
  parse_comparison = do
    left ← parse_expression numbers
    token ← peek
    operands left (kind_of (lower (token_text token)))

  -- `parseAndClause` and `parseOrClause`, over the method below them.
  unfoldable pub parse_and : Parse (Where N) → Parse (Where N)
  parse_and atom = do
    left ← atom
    repeat (at_word (codes "and")) (λ acc. do consume; right ← atom; pure (and_clause acc right))
        left

  unfoldable pub parse_or : Parse (Where N) → Parse (Where N)
  parse_or atom = do
    left ← parse_and atom
    repeat (at_word (codes "or"))
        (λ acc. do consume; right ← parse_and atom; pure (or_clause acc right)) left

  unfoldable pub parenthesised : Parse (Where N) → Parse (Where N)
  parenthesised atom = do
    expect (codes "(")
    clause ← parse_or atom
    expect (codes ")")
    pure clause

  -- `parseNotClause`, on fuel for the nesting.
  unfoldable pub parse_not : ℕ → Parse (Where N)
  parse_not zero = raise out_of_fuel
  parse_not (suc n) = do
    negated ← at_word (codes "not")
    opened ← at (codes "(")
    if negated
        then (do consume; clause ← parse_not n; pure (not_clause clause))
        else (if opened then parenthesised (parse_not n) else parse_comparison)

  -- `parseWhereClause`
  unfoldable pub parse_where : Parse (Where N)
  parse_where p = parse_or (parse_not (size p)) p
