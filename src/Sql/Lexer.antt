-- ===== src/Sql/Lexer.antt =====
-- `nextToken` of src/parser.ts, with the regular expressions that it uses.
mod Numerals
unfoldable pub use yasd.Sql.Lexer.Numerals.*
use mathlib.Core.List.{reverse}
use yasd.Prelude.{
  ℕ, ◌+◌, Bool, true, false, not, ◌&&◌, ◌||◌, Option, none, some, List, [], ◌∷◌, ◌++◌, length, take,
  drop, leb, ◌==◌, if◌then◌else◌,
}
use yasd.Text.{Text, codes, text_eq, starts_with}
use yasd.Sql.Result.{
  Result, ok, err, unterminated_string, bad_escape, malformed_number, unexpected_character,
}

-- The white space of `\s` and of `trim`.
unfoldable pub is_space : ℕ → Bool
is_space c =
    (leb 9 c && leb c 13)
    || (c == 32)
    || (c == 0xa0)
    || (c == 0x1680)
    || (leb 0x2000 c && leb c 0x200a)
    || (c == 0x2028)
    || (c == 0x2029)
    || (c == 0x202f)
    || (c == 0x205f)
    || (c == 0x3000)
    || (c == 0xfeff)

unfoldable pub is_letter : ℕ → Bool
is_letter c = (leb b'a' c && leb c b'z') || (leb b'A' c && leb c b'Z') || (c == b'_')

-- `IDENTIFIER_CHAR`
unfoldable pub is_name_char : ℕ → Bool
unfolding is_letter is_digit
is_name_char c = is_letter c || is_digit c

-- `NUMERIC_TOKEN_CHAR`
unfoldable pub is_number_char : ℕ → Bool
unfolding is_digit
is_number_char c =
    is_digit c || (c == b'.') || (c == b'e') || (c == b'E') || (c == b'+') || (c == b'-')

-- `toLowerCase` as far as its result is ASCII; the Kelvin sign is the one other unit with an ASCII
-- lower case.
unfoldable pub lower_char : ℕ → ℕ
lower_char c = if leb b'A' c && leb c b'Z' then c + 32 else if c == 0x212a then b'k' else c

unfoldable pub lower : Text → Text
unfolding lower_char
lower [] = []
lower (c ∷ cs) = lower_char c ∷ lower cs

unfoldable pub skip_spaces : Text → Text
unfolding is_space
skip_spaces [] = []
skip_spaces (c ∷ cs) = let rest = skip_spaces cs in if is_space c then rest else c ∷ cs

-- `sql.trim()`
unfoldable pub trim : Text → Text
unfolding skip_spaces
trim text = reverse (skip_spaces (reverse (skip_spaces text)))

unfoldable pub unescape : ℕ → Result ℕ
unescape c =
    if c == b'0'
    then ok 0
    else if c == b'b'
    then ok 8
    else if c == b'f'
    then ok 12
    else if c == b'n'
    then ok 10
    else if c == b'r'
    then ok 13
    else if c == b't'
    then ok 9
    else if c == b'v'
    then ok 11
    else if (c == b'\\') || (c == b'\'') || (c == b'"')
    then ok c
    else err bad_escape

unfoldable pub unescaped : Result ℕ → (ℕ → Result (Text × Text)) → Result (Text × Text)
unescaped (ok x) f = f x
unescaped (err e) f = err e

-- The loop of a quoted string, after its first quote: the decoded text, and what follows it.
unfoldable pub read_quoted : ℕ → Text → Text → Result (Text × Text)
unfolding unescape unescaped
read_quoted q acc [] = err unterminated_string
read_quoted q acc (c ∷ []) = if c == q then ok (acc, []) else err unterminated_string
read_quoted q acc (c ∷ d ∷ cs) =
    let doubled = read_quoted q (acc ++ q ∷ []) cs in
    let escaped = unescaped (unescape d) (λ x. read_quoted q (acc ++ x ∷ []) cs) in
    let plain = read_quoted q (acc ++ c ∷ []) (d ∷ cs) in
    if c == q
    then (if d == q then doubled else ok (acc, d ∷ cs))
    else if c == b'\\'
    then escaped
    else plain

unfoldable pub starts_name_char : Text → Bool
unfolding is_name_char
starts_name_char [] = false
starts_name_char (c ∷ cs) = is_name_char c

unfoldable pub read_number : Text × Text → Result (Text × Text)
unfolding starts_name_char is_number
read_number (run, rest) =
    if starts_name_char rest || not (is_number run) then err malformed_number else ok (run, rest)

-- `symbolOps`, the longest first.
abbrev pub symbols : List Text
symbols =
    codes ">="
    ∷ codes "<="
    ∷ codes "!="
    ∷ codes "="
    ∷ codes ">"
    ∷ codes "<"
    ∷ codes "("
    ∷ codes ")"
    ∷ codes ","
    ∷ codes "*"
    ∷ codes ";"
    ∷ []

unfoldable pub find_symbol : List Text → Text → Option Text
unfolding starts_with
find_symbol [] text = none
find_symbol (op ∷ ops) text =
    let rest = find_symbol ops text in if starts_with text op then some op else rest

-- `wordOps`
abbrev pub words : List Text
words =
    codes "like"
    ∷ codes "between"
    ∷ codes "in"
    ∷ codes "and"
    ∷ codes "or"
    ∷ codes "not"
    ∷ codes "is"
    ∷ []

unfoldable pub find_word : List Text → Text → Option Text
unfolding text_eq lower starts_name_char
find_word [] text = none
find_word (op ∷ ops) text =
    let n = length op in
    let rest = find_word ops text in
    if text_eq (lower (take n text)) op && not (starts_name_char (drop n text))
    then some op
    else rest

unfoldable pub read_name : ℕ → Text → Result (Text × Text)
unfolding is_letter is_name_char span
read_name c cs = if is_letter c then ok (span is_name_char (c ∷ cs)) else err unexpected_character

unfoldable pub read_word : Option Text → ℕ → Text → Result (Text × Text)
unfolding read_name
read_word (some op) c cs = ok (op, drop (length op) (c ∷ cs))
read_word none c cs = read_name c cs

unfoldable pub read_symbol : Option Text → ℕ → Text → Result (Text × Text)
unfolding read_word find_word
read_symbol (some op) c cs = ok (op, drop (length op) (c ∷ cs))
read_symbol none c cs = read_word (find_word words (c ∷ cs)) c cs

-- The token of a quoted string keeps its quotes.
unfoldable pub requote : ℕ → Result (Text × Text) → Result (Text × Text)
requote q (ok (text, rest)) = ok (q ∷ (text ++ q ∷ []), rest)
requote q (err e) = err e

-- The token at the front of a text that does not start with a space.
unfoldable pub read_token : ℕ → Text → Result (Text × Text)
unfolding requote read_quoted starts_number read_number span is_number_char read_symbol find_symbol
read_token c cs =
    if (c == b'\'') || (c == b'"')
    then requote c (read_quoted c [] cs)
    else if starts_number (c ∷ cs)
    then read_number (span is_number_char (c ∷ cs))
    else read_symbol (find_symbol symbols (c ∷ cs)) c cs
