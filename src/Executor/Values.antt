-- ===== src/Executor/Values.antt =====
-- The values of src/executor.ts, as the parser makes them, and what is done with them.
use yasd.Prelude.{
  ℕ, ◌+◌, ◌*◌, Bool, true, false, ◌&&◌, ◌||◌, Option, List, [], ◌∷◌, length, ltb, leb, ◌==◌,
  if◌then◌else◌,
}
use yasd.Text.{Text, codes, text_eq, is_high_surrogate, is_low_surrogate}
use yasd.Sql.Syntax.{Value, null, boolean, number, string}
use yasd.Executor.Result.{Result, ok, err, limit_exceeded}

-- The sign of a comparison.
pub data Order : Type 0 where
  below equal above : Order

abbrev pub Row : Type 0 → Type 0
Row N = List (Text × Value N)

-- JavaScript's numbers and strings: `a === b` and the sign of `a - b` on finite numbers, `String(n)`,
-- `Number(s)` if it is finite, `localeCompare`, `toLowerCase`, and `JSON.stringify` of a scalar and
-- of a row, of which only the bytes count.
pub record Scalars (N : Type 0) : Type 0 where
  pub same : N → N → Bool
  pub compare : N → N → Order
  pub show : N → Text
  pub read : Text → Option N
  pub locale_compare : Text → Text → Order
  pub lower : Text → Text
  pub json : Value N → Text
  pub row_bytes : Row N → ℕ

-- `stringBytes` of src/json.ts, without its quotes.
abbrev json_char_bytes : ℕ → ℕ
json_char_bytes c =
    if (c == 34) || (c == 92) || (leb 8 c && leb c 10) || (c == 12) || (c == 13)
    then 2
    else if ltb c 32
    then 6
    else if ltb c 128
    then 1
    else if ltb c 2048
    then 2
    else if is_high_surrogate c || is_low_surrogate c
    then 6
    else 3

unfoldable pub string_bytes : Text → ℕ
string_bytes [] = 0
string_bytes (c ∷ []) = json_char_bytes c
string_bytes (c ∷ d ∷ cs) =
    let pair = 4 + string_bytes cs in
    let single = json_char_bytes c + string_bytes (d ∷ cs) in
    if is_high_surrogate c && is_low_surrogate d then pair else single

module _ {N : Type 0} (scalars : Scalars N) where
  -- `structuralEqual`, where neither value is an object.
  unfoldable pub values_equal : Value N → Value N → Bool
  unfolding text_eq
  values_equal null null = true
  values_equal (boolean true) (boolean true) = true
  values_equal (boolean false) (boolean false) = true
  values_equal (number m) (number n) = scalars.same m n
  values_equal (string s) (string t) = text_eq s t
  values_equal a b = false

  -- `String(value)`
  unfoldable pub text_of : Value N → Text
  text_of null = codes "null"
  text_of (boolean true) = codes "true"
  text_of (boolean false) = codes "false"
  text_of (number n) = scalars.show n
  text_of (string s) = s

  abbrev compare_texts : Value N → Value N → Order
  compare_texts a b = scalars.locale_compare (text_of a) (text_of b)

  -- `compareValues`
  unfoldable pub compare_values : Value N → Value N → Order
  unfolding text_of
  compare_values null b = below
  compare_values a null = above
  compare_values (number m) (number n) = scalars.compare m n
  compare_values a b = compare_texts a b

  -- What `cloneJsonValue` of src/json.ts charges for a scalar.
  unfoldable pub charged : Value N → ℕ
  unfolding string_bytes
  charged null = 4
  charged (boolean true) = 4
  charged (boolean false) = 5
  charged (number n) = length (scalars.show n)
  charged (string s) = 2 + string_bytes s

  -- `cloneJsonValue` of a scalar, at its default limit.
  unfoldable pub clone_value : Value N → Result (Value N)
  unfolding charged
  clone_value v = if ltb (64 * 1024 * 1024) (charged v) then err limit_exceeded else ok v
