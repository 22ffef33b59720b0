-- ===== src/Sql/Numeric.antt =====
-- What the parser of src/parser.ts takes from JavaScript's numbers, and its reading of integers.
use yasd.Prelude.{ℕ, ◌+◌, ◌-◌, ◌*◌, Option, none, some, [], ◌∷◌, ltb, ◌==◌, if◌then◌else◌}
use yasd.Text.{Text}
use yasd.Sql.Lexer.{some_digits}

-- `read` is `Number(token)` of a numeric literal, and `none` if the result is not finite.
pub record Numbers (N : Type 0) : Type 0 where
  pub read : Text → Option N

unfoldable pub digits_value : ℕ → Text → ℕ
digits_value acc [] = acc
digits_value acc (c ∷ cs) = digits_value (acc * 10 + (c - b'0')) cs

-- `Number.MAX_SAFE_INTEGER`
abbrev max_safe : ℕ
max_safe = 9007199254740991

unfoldable pub in_range : ℕ → Option ℕ
in_range n = if ltb max_safe n then none else some n

unfoldable pub unsigned : Text → Option (Option ℕ)
unfolding some_digits digits_value in_range
unsigned cs = if some_digits cs then some (in_range (digits_value 0 cs)) else none

-- A minus sign is accepted in front of zero only.
unfoldable pub signed : Text → Option (Option ℕ)
unfolding some_digits digits_value
signed cs = if some_digits cs then some (if digits_value 0 cs == 0 then some 0 else none) else none

-- `none` if the token is not an integer, `some none` if it is not a safe one from 0.
unfoldable pub read_integer : Text → Option (Option ℕ)
unfolding unsigned signed
read_integer [] = none
read_integer (c ∷ cs) = if c == b'-' then signed cs else unsigned (c ∷ cs)
