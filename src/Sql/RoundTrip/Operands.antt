-- ===== src/Sql/RoundTrip/Operands.antt =====
-- `parseComparisonClause` of src/parser.ts on printed comparisons.
use mathlib.Core.List.{append-nil, append_assoc}
use yasd.Prelude.{
  ◌≡◌, refl, sym, subst, Bool, Option, some, List, [], ◌∷◌, ◌++◌, arith, if◌then◌else◌,
}
use yasd.Text.{Text, codes, text_eq}
use yasd.Sql.Syntax.{
  Expression, Operator, eq, ne, gt, ge, lt, le, like, Where, is_null, is_not_null, comparison,
  in_list, between,
}
use yasd.Sql.Numeric.{Numbers}
use yasd.Sql.Lexer.{lower, lower_char}
use yasd.Sql.Parser.{
  Parser, Parse, pure, ◌>>=◌, ◌>>◌, at, consume, expect, repeat, token_text, is_token, is_word,
  parse_expression,
}
use yasd.Sql.Clauses.{
  Kind, binary, is_kind, in_kind, between_kind, kind_of, in_operands, between_operands, is_operands,
  operands, parse_comparison,
}
use yasd.Sql.Printer.{operator_text, print_expression, print_others, IsWritten, AllWritten}
use yasd.Sql.RoundTrip.Reads.{
  Yields, Reads, Reads-pure, Reads-bind, peek-Reads, at_word-Reads, consume_then, expect_then,
}
use yasd.Sql.RoundTrip.Loops.{Turns, Turns-repeat, Turns-next, Reads-Turns}
use yasd.Sql.RoundTrip.Expressions.{Reads-parse_expression}

kind_of-operator : (op : Operator) → kind_of (lower (operator_text op)) ≡ some (binary op)
unfolding kind_of lower lower_char
kind_of-operator eq = refl
kind_of-operator ne = refl
kind_of-operator gt = refl
kind_of-operator ge = refl
kind_of-operator lt = refl
kind_of-operator le = refl
kind_of-operator like = refl

module _ {N : Type 0} (numbers : Numbers N) (write : N → Text) where
  abbrev show : Expression N → Text
  show e = print_expression numbers write e

  -- An operand is read, and then the rest.
  expression_then :
      {A : Type 0} (e : Expression N) (f : Expression N → Parse A) (p : Parser) (a : A)
      (ts us : List Text)
      → IsWritten numbers write e
      → Yields p (print_expression numbers write e ∷ ts)
      → ((q : Parser) → Yields q ts → Reads (f e) q a us)
      → Reads (parse_expression numbers >>= f) p a us
  expression_then e f p a ts us h y g =
      Reads-bind (parse_expression numbers) f p e a ts us
        (Reads-parse_expression numbers write e p ts h y) g

  -- The operands that follow the operator.
  rest_of :
      (e : Expression N) (o : Option Kind) (p : Parser) (w : Where N) (t : Text) (ts us : List Text)
      → IsWritten numbers write e
      → kind_of (lower t) ≡ o
      → Yields p (print_expression numbers write e ∷ t ∷ ts)
      → ((q : Parser) → Yields q (t ∷ ts) → Reads (operands numbers e o) q w us)
      → Reads (parse_comparison numbers) p w us
  unfolding parse_comparison token_text
  rest_of e o p w t ts us h k y g = expression_then e _ p w (t ∷ ts) us h y (λ q z.
      peek-Reads q w (t ∷ ts) us z
        (λ token. operands numbers e (kind_of (lower (token_text token)))) (rw k (g q z)))

  abbrev null_or_not : Expression N → Bool → Parse (Where N)
  null_or_not e negated =
      if negated
      then (do consume; expect (codes "null"); pure (is_not_null e))
      else (do expect (codes "null"); pure (is_null e))

  pub Reads-is_null :
      (e : Expression N) (p : Parser) (ts : List Text)
      → IsWritten numbers write e
      → Yields p (show e ∷ codes "is" ∷ codes "null" ∷ ts)
      → Reads (parse_comparison numbers) p (is_null e) ts
  unfolding operands is_operands kind_of lower lower_char is_word
  Reads-is_null e p ts h y =
      rest_of e (some is_kind) p (is_null e) (codes "is") (codes "null" ∷ ts) ts h refl y (λ q z.
        consume_then q (codes "is") (codes "null" ∷ ts) z (is_operands numbers e) (is_null e) ts
          (λ r x.
            at_word-Reads r (is_null e) (codes "null" ∷ ts) ts x (codes "not") (null_or_not e) (
              expect_then r (codes "null") ts x (codes "null") _ (is_null e) ts refl
                (λ s v. Reads-pure (is_null e) s ts v))))

  pub Reads-is_not_null :
      (e : Expression N) (p : Parser) (ts : List Text)
      → IsWritten numbers write e
      → Yields p (show e ∷ codes "is" ∷ codes "not" ∷ codes "null" ∷ ts)
      → Reads (parse_comparison numbers) p (is_not_null e) ts
  unfolding operands is_operands kind_of lower lower_char is_word
  Reads-is_not_null e p ts h y =
      let us = codes "not" ∷ codes "null" ∷ ts in
      rest_of e (some is_kind) p (is_not_null e) (codes "is") us ts h refl y (λ q z.
        consume_then q (codes "is") us z (is_operands numbers e) (is_not_null e) ts (λ r x.
          at_word-Reads r (is_not_null e) us ts x (codes "not") (null_or_not e) (
            consume_then r (codes "not") (codes "null" ∷ ts) x _ (is_not_null e) ts (λ s v.
              expect_then s (codes "null") ts v (codes "null") _ (is_not_null e) ts refl
                (λ o u. Reads-pure (is_not_null e) o ts u)))))

  pub Reads-comparison :
      (a b : Expression N) (op : Operator) (p : Parser) (ts : List Text)
      → IsWritten numbers write a
      → IsWritten numbers write b
      → Yields p (show a ∷ operator_text op ∷ show b ∷ ts)
      → Reads (parse_comparison numbers) p (comparison a op b) ts
  unfolding operands
  Reads-comparison a b op p ts h g y =
      let w = comparison a op b in
      rest_of a (some (binary op)) p w (operator_text op) (show b ∷ ts) ts h (kind_of-operator op) y
        (λ q z. consume_then q (operator_text op) (show b ∷ ts) z _ w ts (λ r x.
          expression_then b (λ c. pure (comparison a op c)) r w ts ts g x
            (λ s v. Reads-pure w s ts v)))

  pub Reads-between :
      (e a b : Expression N) (p : Parser) (ts : List Text)
      → IsWritten numbers write e
      → IsWritten numbers write a
      → IsWritten numbers write b
      → Yields p (show e ∷ codes "between" ∷ show a ∷ codes "and" ∷ show b ∷ ts)
      → Reads (parse_comparison numbers) p (between e a b) ts
  unfolding operands between_operands kind_of lower lower_char is_word
  Reads-between e a b p ts h g f y =
      let w = between e a b in
      let us = show a ∷ codes "and" ∷ show b ∷ ts in
      rest_of e (some between_kind) p w (codes "between") us ts h refl y (λ q z.
        consume_then q (codes "between") us z _ w ts (λ r x.
          expression_then a _ r w (codes "and" ∷ show b ∷ ts) ts g x (λ s v.
            expect_then s (codes "and") (show b ∷ ts) v (codes "and") _ w ts refl (λ o u.
              expression_then b (λ c. pure (between e a c)) o w ts ts f u
                (λ i j. Reads-pure w i ts j)))))

  abbrev next_item : List (Expression N) → Parse (List (Expression N))
  next_item acc = do consume; e ← parse_expression numbers; pure (acc ++ e ∷ [])

  Turns-others :
      (es acc : List (Expression N)) (m : Parse (List (Expression N))) (p : Parser)
      (rest : List Text)
      → AllWritten numbers write es
      → Turns (is_token (codes ",")) next_item m p acc (print_others numbers write es ++ rest)
      → Turns (is_token (codes ",")) next_item m p (acc ++ es) rest
  unfolding is_token text_eq
  Turns-others [] acc m p rest h t =
      subst (λ a. Turns (is_token (codes ",")) next_item m p a rest) (sym (append-nil acc)) t
  Turns-others (e ∷ es) acc m p rest (h, g) t =
      let us = print_others numbers write es ++ rest in
      let one = acc ++ e ∷ [] in
      subst (λ a. Turns (is_token (codes ",")) next_item m p a rest) (append_assoc acc (e ∷ []) es)
        (Turns-others es one m p rest g (
          Turns-next (is_token (codes ",")) next_item m p acc one (codes "," ∷ show e ∷ us) us t
            refl
            (λ q y. consume_then q (codes ",") (show e ∷ us) y _ one us (λ r z.
              expression_then e (λ c. pure (acc ++ c ∷ [])) r one us us h z
                (λ s v. Reads-pure one s us v)))
            (omega arith)))

  pub Reads-in_list :
      (e a : Expression N) (es : List (Expression N)) (p : Parser) (ts : List Text)
      → IsWritten numbers write e
      → IsWritten numbers write a
      → AllWritten numbers write es
      → Yields p (
          show e
          ∷ codes "in"
          ∷ codes "("
          ∷ show a
          ∷ (print_others numbers write es ++ codes ")" ∷ ts))
      → Reads (parse_comparison numbers) p (in_list e a es) ts
  unfolding operands in_operands kind_of lower lower_char is_word is_token
  Reads-in_list e a es p ts h g f y =
      let w = in_list e a es in
      let close = codes ")" ∷ ts in
      let vs = print_others numbers write es ++ close in
      let us = show a ∷ vs in
      rest_of e (some in_kind) p w (codes "in") (codes "(" ∷ us) ts h refl y (λ q z.
        consume_then q (codes "in") (codes "(" ∷ us) z _ w ts (λ r x.
          expect_then r (codes "(") us x (codes "(") _ w ts refl (λ s v.
            expression_then a _ s w vs ts g v (λ o u.
              Reads-bind (repeat (at (codes ",")) next_item []) _ o es w close ts
                (Reads-Turns (is_token (codes ",")) next_item _ o es close
                  (Turns-others es [] _ o close f
                    (Turns-repeat (is_token (codes ",")) next_item [] o vs u))
                  refl)
                (λ i j.
                  expect_then i (codes ")") ts j (codes ")") _ w ts refl
                    (λ k l. Reads-pure w k ts l))))))
