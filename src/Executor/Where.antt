-- ===== src/Executor/Where.antt =====
-- The conditions of src/executor.ts: `validateWhereColumns`, `evaluateWhere` and the methods below it.
pub mod Logic
use yasd.Prelude.{Bool, true, false, not, Option, none, some, List, [], ◌∷◌, if◌then◌else◌}
use yasd.Sql.Syntax.{
  Value, null, Expression, literal, column_ref, Operator, eq, ne, gt, ge, lt, le, like, Column,
  Where, and_clause, or_clause, not_clause, is_null, is_not_null, comparison, in_list, between,
}
use yasd.Query.Like.{match_like}
use yasd.Executor.Result.{Result, ok, err, limit_exceeded, ◌>>=◌, ◌>>◌}
use yasd.Executor.Values.{
  Scalars, Row, Order, below, equal, above, values_equal, text_of, compare_values,
}
use yasd.Executor.Table.{assert_column_exists, field}

-- `TruthValue`, with `none` for null.
abbrev pub Truth : Type 0
Truth = Option Bool

abbrev pub and_truth : Truth → Truth → Truth
and_truth (some false) b = some false
and_truth (some true) b = b
and_truth none (some false) = some false
and_truth none (some true) = none
and_truth none none = none

abbrev pub or_truth : Truth → Truth → Truth
or_truth (some true) b = some true
or_truth (some false) b = b
or_truth none (some true) = some true
or_truth none (some false) = none
or_truth none none = none

abbrev pub not_truth : Truth → Truth
not_truth none = none
not_truth (some b) = some (not b)

abbrev pub is_above : Order → Bool
is_above above = true
is_above equal = false
is_above below = false

abbrev pub is_below : Order → Bool
is_below below = true
is_below equal = false
is_below above = false

module _ {N : Type 0} where
  unfoldable pub validate_expression : List (Column N) → Expression N → Result (Unit {0})
  unfolding assert_column_exists
  validate_expression cs (literal v) = ok tt
  validate_expression cs (column_ref name) = assert_column_exists cs name

  unfoldable pub validate_expressions : List (Column N) → List (Expression N) → Result (Unit {0})
  unfolding validate_expression
  validate_expressions cs [] = ok tt
  validate_expressions cs (e ∷ es) = do validate_expression cs e; validate_expressions cs es

  -- `validateWhereColumns`
  unfoldable pub validate_where : List (Column N) → Where N → Result (Unit {0})
  unfolding validate_expression validate_expressions
  validate_where cs (and_clause l r) = do validate_where cs l; validate_where cs r
  validate_where cs (or_clause l r) = do validate_where cs l; validate_where cs r
  validate_where cs (not_clause w) = validate_where cs w
  validate_where cs (is_null e) = validate_expression cs e
  validate_where cs (is_not_null e) = validate_expression cs e
  validate_where cs (comparison a op b) = do validate_expression cs a; validate_expression cs b
  validate_where cs (in_list e first others) = do
    validate_expression cs e
    validate_expressions cs (first ∷ others)
  validate_where cs (between e a b) = do
    validate_expression cs e
    validate_expressions cs (a ∷ b ∷ [])

  -- `evaluateExpression`
  unfoldable pub evaluate : Row N → Expression N → Value N
  unfolding field
  evaluate row (literal v) = v
  evaluate row (column_ref name) = field name row

  abbrev pub is_null_value : Value N → Bool
  is_null_value null = true
  is_null_value v = false

module _ {N : Type 0} (scalars : Scalars N) where
  abbrev matched : Option Bool → Result Truth
  matched none = err limit_exceeded
  matched (some b) = ok (some b)

  -- The last switch of `evaluateComparison`.
  unfoldable pub compare_by : Operator → Value N → Value N → Result Truth
  unfolding values_equal compare_values text_of match_like
  compare_by eq a b = ok (some (values_equal scalars a b))
  compare_by ne a b = ok (some (not (values_equal scalars a b)))
  compare_by gt a b = ok (some (is_above (compare_values scalars a b)))
  compare_by ge a b = ok (some (not (is_below (compare_values scalars a b))))
  compare_by lt a b = ok (some (is_below (compare_values scalars a b)))
  compare_by le a b = ok (some (not (is_above (compare_values scalars a b))))
  compare_by like a b = matched (match_like scalars.lower (text_of scalars a) (text_of scalars b))

  -- The loop of `IN`, with `hasUnknown`.
  unfoldable pub among : Value N → Row N → Bool → List (Expression N) → Truth
  unfolding evaluate values_equal
  among a row unknown [] = if unknown then none else some false
  among a row unknown (e ∷ es) =
      let v = evaluate row e in
      if is_null_value v
      then among a row true es
      else if values_equal scalars a v
      then some true
      else among a row unknown es

  abbrev at_least : Value N → Value N → Truth
  at_least a low =
      if is_null_value low then none else some (not (is_below (compare_values scalars a low)))

  abbrev at_most : Value N → Value N → Truth
  at_most a high =
      if is_null_value high then none else some (not (is_above (compare_values scalars a high)))

  -- `evaluateComparison` on a left value that is not null.
  unfoldable pub compared : Row N → Value N → Operator → Expression N → Result Truth
  unfolding evaluate compare_by
  compared row a op e =
      let b = evaluate row e in if is_null_value b then ok none else compare_by op a b

  -- `evaluateWhere`
  unfoldable pub evaluate_where : Row N → Where N → Result Truth
  unfolding evaluate compared among compare_values
  evaluate_where row (and_clause l r) = do
    a ← evaluate_where row l
    b ← evaluate_where row r
    ok (and_truth a b)
  evaluate_where row (or_clause l r) = do
    a ← evaluate_where row l
    b ← evaluate_where row r
    ok (or_truth a b)
  evaluate_where row (not_clause w) = do a ← evaluate_where row w; ok (not_truth a)
  evaluate_where row (is_null e) = ok (some (is_null_value (evaluate row e)))
  evaluate_where row (is_not_null e) = ok (some (not (is_null_value (evaluate row e))))
  evaluate_where row (comparison e op f) =
      let a = evaluate row e in if is_null_value a then ok none else compared row a op f
  evaluate_where row (in_list e first others) =
      let a = evaluate row e in
      if is_null_value a then ok none else ok (among a row false (first ∷ others))
  evaluate_where row (between e low high) =
      let a = evaluate row e in
      if is_null_value a
      then ok none
      else ok (and_truth (at_least a (evaluate row low)) (at_most a (evaluate row high)))

  -- `!where || this.evaluateWhere(row, where, table) === true`
  abbrev pub is_true : Truth → Bool
  is_true (some true) = true
  is_true (some false) = false
  is_true none = false

  unfoldable pub satisfies : Option (Where N) → Row N → Result Bool
  unfolding evaluate_where
  satisfies none row = ok true
  satisfies (some w) row = do t ← evaluate_where row w; ok (is_true t)
