-- ===== src/Sql/Total/Values.antt =====
-- `parseValue` and `parseExpression` of src/parser.ts: what they leave of the text.
use yasd.Prelude.{ℕ, suc, ◌≡◌, refl, Bool, true, false, Option, none, some, arith, if◌then◌else◌}
use yasd.Text.{Text}
use yasd.Sql.Result.{ParseError}
use yasd.Sql.Syntax.{literal}
use yasd.Sql.Numeric.{Numbers}
use yasd.Sql.Parser.{
  Parser, Parse, pure, raise, ◌>>=◌, ◌>>◌, consume, expect, expect_identifier, parse_type,
  parse_integer, numeric, text_value, value_of, value_from, parse_value, expression_from,
  parse_expression,
}
use yasd.Sql.Total.Rules.{bind_Ends, left, is_fuel, Ends, Ends-mono, Safe, Strict, Strict-Safe}
use yasd.Sql.Total.Methods.{
  Strict-expect, Strict-expect_identifier, Strict-parse_integer, Strict-parse_type, consume-some,
  method_rules,
}

-- From the token `t` in front the method reads on.
record Opens {A : Type 0} (t : Text) (m : Parse A) : Type 0 where
  pub from : (p : Parser) → p.current ≡ some t → Ends (left p) (m p)

module _ {A : Type 0} {t : Text} where
  Opens-consume : (m : Parse A) → ((k : ℕ) → Safe k m) → Opens t (consume >> m)
  Opens-consume m g = record {
    from = λ p h.
        bind_Ends (left p) (left p) (λ _. m) (consume p) p (consume-some p t h)
          (λ a q e lt. Ends-mono (suc (left q)) (left p) (m q) lt ((g (left p)).from q lt));
  }

  Opens-raise : (e : ParseError) → is_fuel e ≡ false → Opens t (raise {A = A} e)
  Opens-raise e h = record { from = λ p g. h }

  Opens-if : (b : Bool) (m n : Parse A) → Opens t m → Opens t n → Opens t (if b then m else n)
  Opens-if true m n h g = h
  Opens-if false m n h g = g

ruleset token_rules = (Opens-consume, Opens-raise, Opens-if, method_rules)

module _ {N : Type 0} (numbers : Numbers N) where
  Safe-numeric : {k : ℕ} (r : Option N) → Safe k (numeric numbers r)
  unfolding numeric
  Safe-numeric none = search method_rules
  Safe-numeric (some n) = search method_rules

  Opens-text : (r : Option Text) (t : Text) → Opens t (text_value numbers r t)
  unfolding text_value
  Opens-text (some s) t = search token_rules
  Opens-text none t = search token_rules

  Opens-value : (t : Text) → Opens t (value_of numbers t)
  unfolding value_of
  Opens-value t = search (token_rules, Opens-text, Safe-numeric) depth 12

  value_Ends :
      (o : Option Text) (p : Parser) → p.current ≡ o → Ends (left p) (value_from numbers o p)
  unfolding value_from
  value_Ends none p h = refl
  value_Ends (some t) p h = (Opens-value t).from p h

  pub Strict-parse_value : {k : ℕ} → Strict k (parse_value numbers)
  unfolding parse_value
  Strict-parse_value = record { from = λ p lt. value_Ends p.current p refl }

  literal_value : {k : ℕ} → Strict k (parse_value numbers >>= λ v. pure (literal v))
  literal_value = search (method_rules, Strict-parse_value)

  Opens-literal : (t : Text) → Opens t (parse_value numbers >>= λ v. pure (literal v))
  Opens-literal t = record { from = λ p h. (literal_value {k = suc (left p)}).from p (omega arith) }

  expression_Ends :
      (o : Option Text) (p : Parser) → p.current ≡ o → Ends (left p) (expression_from numbers o p)
  unfolding expression_from
  expression_Ends none p h = refl
  expression_Ends (some t) p h = expression.from p h
    where
      expression : Opens t (expression_from numbers (some t))
      expression = search (token_rules, Opens-literal)

  pub Strict-parse_expression : {k : ℕ} → Strict k (parse_expression numbers)
  unfolding parse_expression
  Strict-parse_expression = record { from = λ p lt. expression_Ends p.current p refl }

pub Safe-expect : {k : ℕ} (w : Text) → Safe k (expect w)
Safe-expect w = Strict-Safe (Strict-expect w)

pub Safe-expect_identifier : {k : ℕ} → Safe k expect_identifier
Safe-expect_identifier = Strict-Safe Strict-expect_identifier

pub Safe-parse_type : {k : ℕ} → Safe k parse_type
Safe-parse_type = Strict-Safe Strict-parse_type

pub Safe-parse_integer : {k : ℕ} → Safe k parse_integer
Safe-parse_integer = Strict-Safe Strict-parse_integer

module _ {N : Type 0} (numbers : Numbers N) where
  pub Safe-parse_value : {k : ℕ} → Safe k (parse_value numbers)
  Safe-parse_value = Strict-Safe (Strict-parse_value numbers)

  pub Safe-parse_expression : {k : ℕ} → Safe k (parse_expression numbers)
  Safe-parse_expression = Strict-Safe (Strict-parse_expression numbers)

pub ruleset parse_rules = (
  method_rules, Strict-expect_identifier, Strict-parse_type, Strict-parse_integer,
  Strict-parse_value, Strict-parse_expression, Safe-expect, Safe-expect_identifier, Safe-parse_type,
  Safe-parse_integer, Safe-parse_value, Safe-parse_expression,
)
