-- ===== src/Sql/RoundTrip/Clauses.antt =====
-- `parseWhereClause` of src/parser.ts on printed conditions.
use mathlib.Core.List.{append_assoc}
use yasd.Prelude.{
  ℕ, zero, suc, ◌<◌, ◌≡◌, refl, subst, Bool, false, List, [], ◌∷◌, ◌++◌, length, arith,
  if◌then◌else◌,
}
use yasd.Text.{Text, codes, text_eq}
use yasd.Sql.Syntax.{
  Expression, Where, and_clause, or_clause, not_clause, is_null, is_not_null, comparison, in_list,
  between,
}
use yasd.Sql.Result.{ok}
use yasd.Sql.Numeric.{Numbers}
use yasd.Sql.Lexer.{lower, lower_char}
use yasd.Sql.Parser.{Parser, Parse, pure, ◌>>=◌, ◌>>◌, at, consume, expect, size, is_token, is_word}
use yasd.Sql.Clauses.{parse_comparison, parse_or, parenthesised, parse_not, parse_where}
use yasd.Sql.Total.Methods.{left_size}
use yasd.Sql.Printer.{
  bracketed, operator_text, print_expression, print_others, print, or_level, and_level, not_level,
  IsWritten, IsRegular,
}
use yasd.Sql.RoundTrip.Reads.{
  first, Yields, Yields-left, Reads, Reads-pure, Reads-bind, at-Reads, at_word-Reads, consume_then,
  expect_then,
}
use yasd.Sql.RoundTrip.Loops.{Reads-Turns}
use yasd.Sql.RoundTrip.Expressions.{operand_tests}
use yasd.Sql.RoundTrip.Operands.{
  Reads-is_null, Reads-is_not_null, Reads-comparison, Reads-between, Reads-in_list,
}
use yasd.Sql.RoundTrip.Precedence.{
  atom, or_next, NotReads, AndTurns, OrTurns, not_and, and_or, and_step, or_step,
}

module _ {N : Type 0} (numbers : Numbers N) (write : N → Text) where
  abbrev choice : ℕ → Bool → Bool → Parse (Where N)
  choice n negated opened =
      if negated
      then (do consume; clause ← atom numbers write n; pure (not_clause clause))
      else (if opened
          then parenthesised numbers (atom numbers write n)
          else parse_comparison numbers)

  choose :
      (n : ℕ) (p : Parser) (w : Where N) (ts rest : List Text)
      → Yields p ts
      → Reads
          (choice n (is_word (codes "not") (first ts)) (is_token (codes "(") (first ts)))
          p
          w
          rest
      → Reads (atom numbers write (suc n)) p w rest
  unfolding parse_not
  choose n p w ts rest y r =
      at_word-Reads p w ts rest y (codes "not") (λ negated. at (codes "(") >>= choice n negated)
        (at-Reads p w ts rest y (codes "(") (choice n (is_word (codes "not") (first ts))) r)

  abbrev closed : Where N → Parse (Where N)
  closed clause = do expect (codes ")"); pure clause

  bracket :
      (ts : List Text) (w : Where N)
      → OrTurns numbers write ts w
      → NotReads numbers write (bracketed ts) w
  unfolding parenthesised is_word is_token lower lower_char text_eq
  bracket ts w h zero p rest lt y = absurd (omega arith)
  bracket ts w h (suc n) p rest lt y =
      let us = codes ")" ∷ rest in
      let e = append_assoc ts (codes ")" ∷ []) rest in
      let vs = (ts ++ codes ")" ∷ []) ++ rest in
      let m = parse_or numbers (atom numbers write n) in
      choose n p w (codes "(" ∷ vs) rest y (
        expect_then p (codes "(") vs y (codes "(") (m >>= closed) w rest refl (λ q z.
          Reads-bind m closed q w w us rest
            (Reads-Turns (is_word (codes "or")) (or_next numbers write n) m q w us
              (h n q us (subst (λ x. length x < n) e (omega arith)) (subst (Yields q) e z) refl)
              refl)
            (λ s v.
              expect_then s (codes ")") rest v (codes ")") (pure w) w rest refl
                (λ i j. Reads-pure w i rest j))))

  negate :
      (ts : List Text) (w : Where N)
      → NotReads numbers write ts w
      → NotReads numbers write (codes "not" ∷ ts) (not_clause w)
  unfolding is_word is_token lower lower_char text_eq
  negate ts w h zero p rest lt y = absurd (omega arith)
  negate ts w h (suc n) p rest lt y =
      let wrap = λ (c : Where N). pure (not_clause c) in
      choose n p (not_clause w) (codes "not" ∷ (ts ++ rest)) rest y (
        consume_then p (codes "not") (ts ++ rest) y (atom numbers write n >>= wrap) (not_clause w)
          rest
          (λ q z.
            Reads-bind (atom numbers write n) wrap q w (not_clause w) rest rest
              (h n q rest (omega arith) z) (λ s v. Reads-pure (not_clause w) s rest v)))

  compared :
      (e : Expression N) (ts : List Text) (w : Where N)
      → IsWritten numbers write e
      → ((p : Parser) (rest : List Text)
          → Yields p (print_expression numbers write e ∷ (ts ++ rest))
          → Reads (parse_comparison numbers) p w rest)
      → NotReads numbers write (print_expression numbers write e ∷ ts) w
  unfolding is_word is_token
  compared e ts w h g zero p rest lt y = absurd (omega arith)
  compared e ts w h g (suc n) p rest lt y =
      let t = operand_tests numbers write e h in
      choose n p w (print_expression numbers write e ∷ (ts ++ rest)) rest y
        (rw (t.0, t.1) (g p rest y))

  -- How a condition is read at the three levels.
  abbrev Reading : Where N → Type 0
  Reading w =
      NotReads numbers write (print numbers write not_level w) w
      × AndTurns numbers write (print numbers write and_level w) w
      × OrTurns numbers write (print numbers write or_level w) w

  from_not :
      (ts : List Text) (w : Where N)
      → NotReads numbers write ts w
      → NotReads numbers write ts w × AndTurns numbers write ts w × OrTurns numbers write ts w
  from_not ts w h = let a = not_and numbers write ts w h in (h, a, and_or numbers write ts w a)

  from_compared :
      (e : Expression N) (ts : List Text) (w : Where N)
      → IsWritten numbers write e
      → ((p : Parser) (rest : List Text)
          → Yields p (print_expression numbers write e ∷ (ts ++ rest))
          → Reads (parse_comparison numbers) p w rest)
      → NotReads numbers write (print_expression numbers write e ∷ ts) w
        × AndTurns numbers write (print_expression numbers write e ∷ ts) w
        × OrTurns numbers write (print_expression numbers write e ∷ ts) w
  from_compared e ts w h g =
      from_not (print_expression numbers write e ∷ ts) w (compared e ts w h g)

  reading : (w : Where N) → IsRegular numbers write w → Reading w
  unfolding print
  reading (or_clause l r) (h, g) =
      let ts = print numbers write or_level l in
      let us = print numbers write and_level r in
      let all = or_step numbers write ts us l r (reading l h).2 (reading r g).1 in
      let vs = ts ++ (codes "or" ∷ us) in
      let b = bracket vs (or_clause l r) all in
      (b, not_and numbers write (bracketed vs) (or_clause l r) b, all)
  reading (and_clause l r) (h, g) =
      let ts = print numbers write and_level l in
      let us = print numbers write not_level r in
      let both = and_step numbers write ts us l r (reading l h).1 (reading r g).0 in
      let vs = ts ++ (codes "and" ∷ us) in
      let all = and_or numbers write vs (and_clause l r) both in
      (bracket vs (and_clause l r) all, both, all)
  reading (not_clause w) h =
      let ts = print numbers write not_level w in
      from_not (codes "not" ∷ ts) (not_clause w) (negate ts w (reading w h).0)
  reading (is_null e) h =
      from_compared e (codes "is" ∷ codes "null" ∷ []) (is_null e) h
        (λ p rest y. Reads-is_null numbers write e p rest h y)
  reading (is_not_null e) h =
      from_compared e (codes "is" ∷ codes "not" ∷ codes "null" ∷ []) (is_not_null e) h
        (λ p rest y. Reads-is_not_null numbers write e p rest h y)
  reading (comparison a op b) (h, g) =
      from_compared a (operator_text op ∷ print_expression numbers write b ∷ []) (comparison a op b)
        h (λ p rest y. Reads-comparison numbers write a b op p rest h g y)
  reading (between e a b) (h, g, f) =
      from_compared e
        (codes "between"
          ∷ print_expression numbers write a
          ∷ codes "and"
          ∷ print_expression numbers write b
          ∷ [])
        (between e a b) h (λ p rest y. Reads-between numbers write e a b p rest h g f y)
  reading (in_list e a es) (h, g, f) =
      let tail = print_others numbers write es ++ codes ")" ∷ [] in
      from_compared e (codes "in" ∷ codes "(" ∷ print_expression numbers write a ∷ tail)
        (in_list e a es) h
        (λ p rest y. Reads-in_list numbers write e a es p rest h g f (
          subst
            (λ us. Yields p (
              print_expression numbers write e
              ∷ codes "in"
              ∷ codes "("
              ∷ print_expression numbers write a
              ∷ us))
            (append_assoc (print_others numbers write es) (codes ")" ∷ []) rest) y))

  -- A condition that is written as tokens, with brackets only where the precedence of `OR`, `AND` and
  -- `NOT` needs them, is read back by `parseWhereClause` as the same tree, in front of the tokens that
  -- follow it, if those do not start with `AND` or `OR`. Columns are names other than `NULL`, `TRUE`,
  -- `FALSE` and `NOT`, and numbers are written as literals that `Number` reads back.
  pub parse_where-print :
      (w : Where N) (p : Parser) (rest : List Text)
      → IsRegular numbers write w
      → is_word (codes "and") (first rest) ≡ false
      → is_word (codes "or") (first rest) ≡ false
      → Yields p (print numbers write or_level w ++ rest)
      → (q : Parser) × (parse_where numbers p ≡ ok (w, q)) × Yields q rest
  unfolding parse_where
  parse_where-print w p rest h f g y =
      let ts = print numbers write or_level w ++ rest in
      let enough : length ts < size p =
        omega (arith, Yields-left p ts y, left_size p.current p.rest) in
      let r =
        Reads-Turns (is_word (codes "or")) (or_next numbers write (size p))
          (parse_or numbers (parse_not numbers (size p))) p w rest
          ((reading w h).2 (size p) p rest enough y f) g in
      (r.state, r.returns, r.yields)
