-- ===== src/Sql/Total/Methods.antt =====
-- The methods of src/parser.ts that read single tokens, and the loops: what they leave of the text.
use yasd.Prelude.{
  ℕ, zero, suc, ◌+◌, ◌<◌, ◌≡◌, refl, Bool, true, false, not, Option, none, some, length, arith,
  if_rule,
}
use yasd.Text.{Text, text_eq}
use yasd.Sql.Result.{ParseError, Result, ok, err, expected_identifier}
use yasd.Sql.Syntax.{ColumnType}
use yasd.Sql.Lexer.{lower}
use yasd.Sql.Numeric.{read_integer}
use yasd.Sql.Parser.{
  Parser, Parse, pure, raise_if, ◌>>◌, next_token, advance, peek, at, at_word, is_word, token_text,
  consume, expect, size, rounds, repeat, expect_identifier, is_name_token, type_of, type_found,
  parse_type, integer_found, parse_integer,
}
use yasd.Sql.Total.Rules.{
  bind_Ends, left, is_fuel, token_count, Ends, Ends-mono, Safe, Strict, Strict-Safe, Safe-pure,
  Safe-raise, Safe-if, Safe-raise_if, Safe-bind, Strict-raise, Strict-if, Strict-then, Strict-bind,
}
use yasd.Sql.Total.Tokens.{Within, next_token-Within}

pub Safe-peek : {k : ℕ} → Safe k peek
Safe-peek = record { from = λ p lt. omega arith }

pub Safe-at : {k : ℕ} (t : Text) → Safe k (at t)
Safe-at t = record { from = λ p lt. omega arith }

pub Safe-at_word : {k : ℕ} (w : Text) → Safe k (at_word w)
Safe-at_word w = record { from = λ p lt. omega arith }

after_token :
    (n b : ℕ) (r : Result Parser)
    → n < b
    → Within n r
    → Ends b (elim r as (λ _. Result (Unit {0} × Parser)) [ ok q ↦ ok (tt, q) | err e ↦ err e ])
after_token n b (ok q) lt h = omega arith
after_token n b (err e) lt h = h

advance-Ends : (b : ℕ) (p : Parser) → length p.rest < b → Ends b (advance p)
unfolding advance
advance-Ends b p lt =
    after_token (length p.rest) b (next_token p.rest) lt (next_token-Within p.rest)

consume-Ends : (b : ℕ) (p : Parser) → length p.rest < b → Ends b (consume p)
unfolding consume
consume-Ends b p lt =
    bind_Ends b b (λ _. pure (token_text p.current)) (advance p) p (advance-Ends b p lt)
      (λ a q e h. h)

-- A token that is there is read.
pub consume-some : (p : Parser) (t : Text) → p.current ≡ some t → Ends (left p) (consume p)
consume-some p t h = consume-Ends (left p) p (rw h (omega arith))

pub Safe-consume : {k : ℕ} → Safe k consume
Safe-consume = record { from = λ p lt. consume-Ends (suc (left p)) p (omega arith) }

current_is_word : (w : Text) (o : Option Text) → is_word w o ≡ true → (t : Text) × (o ≡ some t)
unfolding is_word
current_is_word w none h = ground arith
current_is_word w (some t) h = (t, refl)

-- The token in front is the word, so it is read.
pub word_then :
    {A : Type 0} (w : Text) (m : Parse A) (p : Parser)
    → is_word w p.current ≡ true
    → Safe (left p) m
    → Ends (left p) ((consume >> m) p)
word_then w m p h g =
    let (t, e) = current_is_word w p.current h in
    bind_Ends (left p) (left p) (λ _. m) (consume p) p (consume-some p t e)
      (λ a q e lt. Ends-mono (suc (left q)) (left p) (m q) lt (g.from q lt))

expect_found :
    (w : Text) (p : Parser) (b : Bool) → is_word w p.current ≡ b → Ends (left p) (expect w p)
unfolding expect
expect_found w p true h =
    let (t, e) = current_is_word w p.current h in
    rw h (advance-Ends (left p) p (rw e (omega arith)))
expect_found w p false h = rw h refl

pub Strict-expect : {k : ℕ} (w : Text) → Strict k (expect w)
Strict-expect w = record { from = λ p lt. expect_found w p (is_word w p.current) refl }

pub left_size :
    (o : Option Text) (rest : Text) → length rest + token_count o < suc (suc (length rest))
left_size none rest = omega arith
left_size (some t) rest = omega arith

-- The loops: a round that reads a token, or the end.
module _ {A : Type 0} {k : ℕ} (test : Parse Bool) (body : A → Parse A) (looks : Safe k test)
    (reads : (a : A) → Strict k (body a)) where
  rounds-Ends :
      (n : ℕ) (a : A) (p : Parser)
      → left p < n
      → left p < k
      → Ends (suc (left p)) (rounds test body n a p)
  unfolding rounds
  rounds-Ends zero a p lt le = absurd (omega arith)
  rounds-Ends (suc n) a p lt le =
      bind_Ends (suc (left p)) (suc (left p)) _ (test p) p (looks.from p le) (λ more q e h.
        if_rule (λ m. Ends (suc (left p)) (m q)) more _ (pure a)
          (λ _.
            bind_Ends (left q) (suc (left p)) _ (body a q) q ((reads a).from q (omega arith))
              (λ b r g l.
                Ends-mono (suc (left r)) (suc (left p)) _ (omega arith)
                  (rounds-Ends n b r (omega arith) (omega arith))))
          (λ _. h))

  pub Safe-repeat : (a : A) → Safe k (repeat test body a)
  unfolding repeat
  Safe-repeat a = record { from = λ p lt. rounds-Ends (size p) a p (left_size p.current p.rest) lt }

pub ruleset method_rules = (
  Safe-pure, Safe-raise, Safe-if, Safe-raise_if, Safe-bind, Strict-raise, Strict-if, Strict-then,
  Strict-bind, Safe-peek, Safe-at, Safe-at_word, Safe-consume, Strict-expect, Safe-repeat,
)

pub guard_Ends :
    {A : Type 0} (b : Bool) (n : ℕ) (e : ParseError) (m : Parse A) (p : Parser)
    → is_fuel e ≡ false
    → (b ≡ false → Ends n (m p))
    → Ends n ((raise_if b e >> m) p)
guard_Ends true n e m p h g = h
guard_Ends false n e m p h g = g refl

identifier_Ends :
    (o : Option Text) (p : Parser)
    → p.current ≡ o
    → Ends (left p) ((raise_if (not (is_name_token o)) expected_identifier >> consume) p)
unfolding is_name_token
identifier_Ends none p h = refl
identifier_Ends (some t) p h =
    guard_Ends (not (is_name_token (some t))) (left p) expected_identifier consume p refl
      (λ _. consume-some p t h)

pub Strict-expect_identifier : {k : ℕ} → Strict k expect_identifier
unfolding expect_identifier
Strict-expect_identifier = record { from = λ p lt. identifier_Ends p.current p refl }

-- The empty token is no type and no integer.
type_Ends :
    (o : Option Text) (p : Parser)
    → p.current ≡ o
    → Ends (left p) (type_found (type_of (lower (token_text o))) p)
unfolding type_found type_of token_text lower text_eq
type_Ends none p h = refl
type_Ends (some t) p h = found (type_of (lower t))
  where
    found : (r : Option ColumnType) → Ends (left p) (type_found r p)
    found none = refl
    found (some c) =
        bind_Ends (left p) (left p) (λ _. pure c) (consume p) p (consume-some p t h)
          (λ a q e le. le)

pub Strict-parse_type : {k : ℕ} → Strict k parse_type
unfolding parse_type
Strict-parse_type = record { from = λ p lt. type_Ends p.current p refl }

integer_Ends :
    (o : Option Text) (p : Parser)
    → p.current ≡ o
    → Ends (left p) (integer_found (read_integer (token_text o)) p)
unfolding integer_found read_integer token_text
integer_Ends none p h = refl
integer_Ends (some t) p h = found (read_integer t)
  where
    found : (r : Option (Option ℕ)) → Ends (left p) (integer_found r p)
    found none = refl
    found (some none) = refl
    found (some (some n)) =
        bind_Ends (left p) (left p) (λ _. pure n) (consume p) p (consume-some p t h)
          (λ a q e le. le)

pub Strict-parse_integer : {k : ℕ} → Strict k parse_integer
unfolding parse_integer
Strict-parse_integer = record { from = λ p lt. integer_Ends p.current p refl }
