-- ===== src/Sql/Lexer/Numerals.antt =====
-- The regular expressions of src/parser.ts for numbers.
use yasd.Prelude.{ℕ, Bool, true, false, ◌&&◌, ◌||◌, [], ◌∷◌, drop, leb, ◌==◌, if◌then◌else◌}
use yasd.Text.{Text}

-- `\d`
unfoldable pub is_digit : ℕ → Bool
is_digit c = leb b'0' c && leb c b'9'

-- The longest prefix of which the test holds, and what follows it.
unfoldable pub span : (ℕ → Bool) → Text → Text × Text
span p [] = ([], [])
span p (c ∷ cs) = let (run, rest) = span p cs in if p c then (c ∷ run, rest) else ([], c ∷ cs)

-- The exponent of `NUMERIC_LITERAL`, to the end.
unfoldable pub all_digits : Text → Bool
unfolding is_digit
all_digits [] = true
all_digits (c ∷ cs) = is_digit c && all_digits cs

unfoldable pub some_digits : Text → Bool
unfolding all_digits
some_digits [] = false
some_digits (c ∷ cs) = all_digits (c ∷ cs)

unfoldable pub signed_digits : Text → Bool
unfolding some_digits
signed_digits [] = false
signed_digits (c ∷ cs) = if (c == b'+') || (c == b'-') then some_digits cs else some_digits (c ∷ cs)

unfoldable pub is_exponent : Text → Bool
unfolding signed_digits
is_exponent [] = true
is_exponent (c ∷ cs) = ((c == b'e') || (c == b'E')) && signed_digits cs

-- The digits of the mantissa, then an optional fraction; without digits, a fraction of some.
unfoldable pub is_fraction : Text → Bool
unfolding span is_exponent is_digit
is_fraction [] = true
is_fraction (c ∷ cs) = if c == b'.' then is_exponent (span is_digit cs).1 else is_exponent (c ∷ cs)

unfoldable pub is_bare_fraction : Text → Text × Text → Bool
unfolding is_exponent
is_bare_fraction [] p = false
is_bare_fraction (c ∷ cs) ([], rest) = false
is_bare_fraction (c ∷ cs) (d ∷ ds, rest) = (c == b'.') && is_exponent rest

unfoldable pub is_mantissa : Text → Text × Text → Bool
unfolding is_fraction is_bare_fraction span is_digit
is_mantissa text ([], rest) = is_bare_fraction text (span is_digit (drop 1 text))
is_mantissa text (d ∷ ds, rest) = is_fraction rest

-- `NUMERIC_LITERAL`
unfoldable pub is_number : Text → Bool
unfolding is_mantissa span is_digit
is_number [] = false
is_number (c ∷ cs) =
    let signed = is_mantissa cs (span is_digit cs) in
    let unsigned = is_mantissa (c ∷ cs) (span is_digit (c ∷ cs)) in
    if c == b'-' then signed else unsigned

unfoldable pub starts_digit : Text → Bool
unfolding is_digit
starts_digit [] = false
starts_digit (c ∷ cs) = is_digit c

unfoldable pub starts_fraction : Text → Bool
unfolding starts_digit
starts_fraction [] = false
starts_fraction (c ∷ cs) = (c == b'.') && starts_digit cs

-- `numericStart`
unfoldable pub starts_number : Text → Bool
unfolding starts_digit starts_fraction
starts_number [] = false
starts_number (c ∷ cs) =
    starts_digit (c ∷ cs)
    || starts_fraction (c ∷ cs)
    || ((c == b'-') && (starts_digit cs || starts_fraction cs))
