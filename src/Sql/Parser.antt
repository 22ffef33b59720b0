-- ===== src/Sql/Parser.antt =====
-- The state of `Parser` of src/parser.ts, and the methods that read single tokens.
use yasd.Prelude.{
  ℕ, zero, suc, Bool, true, false, not, ◌&&◌, ◌||◌, Option, none, some, List, [], ◌∷◌, ◌++◌, length,
  ◌==◌, if◌then◌else◌,
}
use yasd.Text.{Text, codes, text_eq}
use yasd.Sql.Result.{
  ParseError, Result, ok, err, expected_token, expected_identifier, unknown_type, end_of_input,
  number_out_of_range, unexpected_value, not_an_integer, bad_integer, out_of_fuel,
}
use yasd.Sql.Syntax.{
  Value, null, boolean, number, string, ColumnType, string_type, number_type, boolean_type,
  any_type, Expression, literal, column_ref,
}
use yasd.Sql.Lexer.{lower, skip_spaces, is_letter, is_name_char, is_number, read_token}
use yasd.Sql.Numeric.{Numbers, read_integer}

-- `ParserState`: what follows the current token, and that token.
pub record Parser : Type 0 where
  pub rest : Text
  pub current : Option Text

abbrev pub Parse : Type 0 → Type 0
Parse A = Parser → Result (A × Parser)

module _ {A : Type 0} where
  abbrev pub pure : A → Parse A
  pure a p = ok (a, p)

  abbrev pub raise : ParseError → Parse A
  raise e p = err e

infixl 5 ◌>>=◌ ◌>>◌
abbrev pub ◌>>=◌ : {A B : Type 0} → Parse A → (A → Parse B) → Parse B
◌>>=◌ m f p = elim (m p) [ ok (a, q) ↦ f a q | err e ↦ err e ]

abbrev pub ◌>>◌ : {A B : Type 0} → Parse A → Parse B → Parse B
m >> k = m >>= λ _. k

-- `throw` under a condition.
abbrev pub raise_if : Bool → ParseError → Parse (Unit {0})
raise_if b e = if b then raise e else pure tt

unfoldable pub with_token : Result (Text × Text) → Result (Parser)
with_token (ok (token, rest)) = ok (record { rest = rest; current = some token })
with_token (err e) = err e

unfoldable pub next_from : Text → Result Parser
unfolding with_token
next_from [] = ok (record { rest = []; current = none })
next_from (c ∷ cs) = with_token (read_token c cs)

-- `nextToken` on what follows the current token.
unfoldable pub next_token : Text → Result Parser
unfolding next_from skip_spaces
next_token text = next_from (skip_spaces text)

-- `this.nextToken()`
unfoldable pub advance : Parse (Unit {0})
advance p = elim (next_token p.rest) [ ok q ↦ ok (tt, q) | err e ↦ err e ]

abbrev pub peek : Parse (Option Text)
peek p = ok (p.current, p)

-- `token || ""`
unfoldable pub token_text : Option Text → Text
token_text none = []
token_text (some t) = t

-- `this.peek() === token`
unfoldable pub is_token : Text → Option Text → Bool
is_token t none = false
is_token t (some u) = text_eq u t

-- `this.peek()?.toLowerCase() === word`
unfoldable pub is_word : Text → Option Text → Bool
unfolding lower
is_word w none = false
is_word w (some u) = text_eq (lower u) w

abbrev pub at : Text → Parse Bool
at t p = ok (is_token t p.current, p)

abbrev pub at_word : Text → Parse Bool
at_word w p = ok (is_word w p.current, p)

-- Fuel for a loop or a nesting: more than the tokens that are left.
abbrev pub size : Parser → ℕ
size p = suc (suc (length p.rest))

-- `while (test) body`, with a value that the rounds pass on.
module _ {A : Type 0} (test : Parse Bool) (body : A → Parse A) where
  unfoldable pub rounds : ℕ → A → Parse A
  rounds zero acc = do more ← test; if more then raise out_of_fuel else pure acc
  rounds (suc n) acc = do
    more ← test
    if more then (do next ← body acc; rounds n next) else pure acc

  unfoldable pub repeat : A → Parse A
  repeat acc p = rounds (size p) acc p

-- `consume()`
unfoldable pub consume : Parse Text
consume = do token ← peek; advance; pure (token_text token)

-- `consume(expected)`, of a word or symbol in lower case.
unfoldable pub expect : Text → Parse (Unit {0})
expect w = do found ← at_word w; raise_if (not found) expected_token; advance

-- `^[a-zA-Z_][a-zA-Z0-9_]*$`
unfoldable pub all_name : Text → Bool
unfolding is_name_char
all_name [] = true
all_name (c ∷ cs) = is_name_char c && all_name cs

unfoldable pub is_name : Text → Bool
unfolding is_letter all_name
is_name [] = false
is_name (c ∷ cs) = is_letter c && all_name cs

unfoldable pub is_name_token : Option Text → Bool
is_name_token none = false
is_name_token (some t) = is_name t

-- `expectIdentifier`
unfoldable pub expect_identifier : Parse Text
expect_identifier = do
  token ← peek
  raise_if (not (is_name_token token)) expected_identifier
  consume

unfoldable pub one_of : List Text → Text → Bool
one_of [] t = false
one_of (w ∷ ws) t = text_eq t w || one_of ws t

-- The switch of `parseType`.
unfoldable pub type_of : Text → Option ColumnType
unfolding one_of lower
type_of t =
    if one_of (codes "varchar" ∷ codes "text" ∷ codes "string" ∷ []) t
    then some string_type
    else if one_of
        (codes "int"
          ∷ codes "integer"
          ∷ codes "number"
          ∷ codes "float"
          ∷ codes "decimal"
          ∷ codes "numeric"
          ∷ [])
        t
    then some number_type
    else if one_of (codes "bool" ∷ codes "boolean" ∷ []) t
    then some boolean_type
    else if one_of (codes "any" ∷ []) t
    then some any_type
    else none

unfoldable pub type_found : Option ColumnType → Parse ColumnType
type_found none = raise unknown_type
type_found (some t) = do consume; pure t

-- `parseType`
unfoldable pub parse_type : Parse ColumnType
parse_type = do token ← peek; type_found (type_of (lower (token_text token)))

-- `token.startsWith(q) && token.endsWith(q) && token.length >= 2`, and `token.slice(1, -1)`.
unfoldable pub unquoted_end : ℕ → Text → Text → Option Text
unquoted_end q acc [] = none
unquoted_end q acc (c ∷ []) = if c == q then some acc else none
unquoted_end q acc (c ∷ d ∷ cs) = unquoted_end q (acc ++ c ∷ []) (d ∷ cs)

unfoldable pub unquoted : Text → Option Text
unfolding unquoted_end
unquoted [] = none
unquoted (c ∷ cs) = if (c == b'\'') || (c == b'"') then unquoted_end c [] cs else none

-- `parseInteger`: the digits are read exactly, since what is above the safe integers is refused.
unfoldable pub integer_found : Option (Option ℕ) → Parse ℕ
integer_found none = raise not_an_integer
integer_found (some none) = raise bad_integer
integer_found (some (some n)) = do consume; pure n

unfoldable pub parse_integer : Parse ℕ
parse_integer = do token ← peek; integer_found (read_integer (token_text token))

module _ {N : Type 0} (numbers : Numbers N) where
  unfoldable pub numeric : Option N → Parse (Value N)
  numeric none = raise number_out_of_range
  numeric (some n) = pure (number n)

  unfoldable pub text_value : Option Text → Text → Parse (Value N)
  text_value (some s) token = do consume; pure (string s)
  text_value none token =
      if is_name token then (do consume; pure (string token)) else raise unexpected_value

  unfoldable pub value_of : Text → Parse (Value N)
  value_of token =
      if text_eq (lower token) (codes "null")
      then (do consume; pure null)
      else if text_eq (lower token) (codes "true")
      then (do consume; pure (boolean true))
      else if text_eq (lower token) (codes "false")
      then (do consume; pure (boolean false))
      else if is_number token
      then (do consume; numeric (numbers.read token))
      else text_value (unquoted token) token

  unfoldable pub value_from : Option Text → Parse (Value N)
  value_from none = raise end_of_input
  value_from (some token) = value_of token

  -- `parseValue`
  unfoldable pub parse_value : Parse (Value N)
  parse_value = do token ← peek; value_from token

  unfoldable pub expression_from : Option Text → Parse (Expression N)
  expression_from none = raise end_of_input
  expression_from (some token) =
      if is_name token
        && not (one_of (codes "null" ∷ codes "true" ∷ codes "false" ∷ []) (lower token))
      then (do consume; pure (column_ref token))
      else (do v ← parse_value; pure (literal v))

  -- `parseExpression`
  unfoldable pub parse_expression : Parse (Expression N)
  parse_expression = do token ← peek; expression_from token
