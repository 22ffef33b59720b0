-- ===== src/Sql/Total/Clauses.antt =====
-- `parseWhereClause` of src/parser.ts and the methods below it: what they leave of the text.
use yasd.Prelude.{ℕ, zero, suc, Option, none, some, arith, if_rule}
use yasd.Text.{codes}
use yasd.Sql.Syntax.{Expression, Where, not_clause}
use yasd.Sql.Numeric.{Numbers}
use yasd.Sql.Parser.{Parse, pure, ◌>>=◌, ◌>>◌, is_word, is_token, expect, size}
use yasd.Sql.Clauses.{
  Kind, binary, is_kind, in_kind, between_kind, in_operands, between_operands, is_operands,
  operands, parse_comparison, parse_and, parse_or, parenthesised, parse_not, parse_where,
}
use yasd.Sql.Total.Rules.{left, Ends, Safe, Strict, Strict-Safe, Strict-descend}
use yasd.Sql.Total.Methods.{method_rules, word_then, left_size, Strict-expect}
use yasd.Sql.Total.Values.{Safe-expect, Strict-parse_expression, Safe-parse_expression}

module _ {N : Type 0} (numbers : Numbers N) where
  ruleset rules =
      (method_rules, Strict-parse_expression, Safe-parse_expression, Safe-expect, Strict-Safe)

  Safe-in_operands : {k : ℕ} (e : Expression N) → Safe k (in_operands numbers e)
  unfolding in_operands
  Safe-in_operands e = search rules depth 12

  Safe-between_operands : {k : ℕ} (e : Expression N) → Safe k (between_operands numbers e)
  unfolding between_operands
  Safe-between_operands e = search rules depth 12

  Safe-is_operands : {k : ℕ} (e : Expression N) → Safe k (is_operands numbers e)
  unfolding is_operands
  Safe-is_operands e = search rules depth 12

  Safe-operands : {k : ℕ} (e : Expression N) (o : Option Kind) → Safe k (operands numbers e o)
  unfolding operands
  Safe-operands e none = search rules
  Safe-operands e (some (binary op)) = search rules depth 12
  Safe-operands e (some is_kind) = search (rules, Safe-is_operands)
  Safe-operands e (some in_kind) = search (rules, Safe-in_operands)
  Safe-operands e (some between_kind) = search (rules, Safe-between_operands)

  pub Strict-parse_comparison : {k : ℕ} → Strict k (parse_comparison numbers)
  unfolding parse_comparison
  Strict-parse_comparison = search (rules, Safe-operands) depth 12

  module _ {k : ℕ} (atom : Parse (Where N)) (strict : Strict k atom) where
    pub Strict-parse_and : Strict k (parse_and numbers atom)
    unfolding parse_and
    Strict-parse_and = search rules depth 12

    pub Strict-parse_or : Strict k (parse_or numbers atom)
    unfolding parse_or
    Strict-parse_or = search (rules, Strict-parse_and) depth 12

  closed_clause :
      {n : ℕ} (atom : Parse (Where N))
      → Strict n atom
      → Safe n (do clause ← parse_or numbers atom; expect (codes ")"); pure clause)
  closed_clause atom h = search (rules, Strict-parse_or)

  Strict-parenthesised :
      {n : ℕ} (atom : Parse (Where N)) → Strict n atom → Strict (suc n) (parenthesised numbers atom)
  unfolding parenthesised
  Strict-parenthesised atom h =
      Strict-descend (expect (codes "(")) _ (Strict-expect (codes "(")) (λ _. closed_clause atom h)

  negated_clause :
      {n : ℕ} (atom : Parse (Where N)) → Strict n atom → Safe n (atom >>= λ c. pure (not_clause c))
  negated_clause atom h = search rules

  -- More fuel than there are tokens is enough for the nesting.
  pub Strict-parse_not : (n : ℕ) → Strict n (parse_not numbers n)
  unfolding parse_not
  Strict-parse_not zero = record { from = λ p lt. absurd (omega arith) }
  Strict-parse_not (suc n) = record {
    from = λ p lt.
        let given = is_word (codes "not") p.current in
        let opened = is_token (codes "(") p.current in
        if_rule (λ (m : Parse (Where N)). Ends (left p) (m p)) given _ _
          (λ h.
            let rest = negated_clause (parse_not numbers n) (Strict-parse_not n) in
            word_then (codes "not") _ p h (record { from = λ q le. rest.from q (omega arith) }))
          (λ _.
            if_rule (λ (m : Parse (Where N)). Ends (left p) (m p)) opened _ _
              (λ _. (Strict-parenthesised (parse_not numbers n) (Strict-parse_not n)).from p lt)
              (λ _. (Strict-parse_comparison {k = suc n}).from p lt));
  }

  pub Strict-parse_where : {k : ℕ} → Strict k (parse_where numbers)
  unfolding parse_where
  Strict-parse_where = record {
    from = λ p lt.
        (Strict-parse_or (parse_not numbers (size p)) (Strict-parse_not (size p))).from p
          (left_size p.current p.rest);
  }
