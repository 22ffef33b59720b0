-- ===== src/Sql/RoundTrip/Written.antt =====
-- Tokens as they are written in SQL, for the tokenizer of src/parser.ts.
use yasd.Prelude.{◌≡◌, true, List, [], ◌∷◌, ◌++◌, ◌==◌, if◌then◌else◌}
use yasd.Text.{Text, codes}
use yasd.Sql.Lexer.{is_number_char, is_number, starts_number, words}
use yasd.Sql.Parser.{is_name}
use yasd.Sql.RoundTrip.Names.{spaced, Others}

-- The symbols and the word operators.
pub data Sign : Type 0 where
  ge_sign le_sign ne_sign eq_sign gt_sign lt_sign open_sign close_sign comma_sign star_sign
        semicolon_sign :
      Sign
  like_sign between_sign in_sign and_sign or_sign not_sign is_sign : Sign

abbrev pub sign_text : Sign → Text
sign_text ge_sign = codes ">="
sign_text le_sign = codes "<="
sign_text ne_sign = codes "!="
sign_text eq_sign = codes "="
sign_text gt_sign = codes ">"
sign_text lt_sign = codes "<"
sign_text open_sign = codes "("
sign_text close_sign = codes ")"
sign_text comma_sign = codes ","
sign_text star_sign = codes "*"
sign_text semicolon_sign = codes ";"
sign_text like_sign = codes "like"
sign_text between_sign = codes "between"
sign_text in_sign = codes "in"
sign_text and_sign = codes "and"
sign_text or_sign = codes "or"
sign_text not_sign = codes "not"
sign_text is_sign = codes "is"

-- A token as it is written: a name, a numeral, a sign, or a string in quotes.
pub data Lexeme : Type 0 where
  name : Text → Lexeme
  numeral : Text → Lexeme
  sign : Sign → Lexeme
  quoted : Text → Lexeme

-- The quote is doubled, and so is the backslash.
abbrev pub quote_text : Text → Text
quote_text [] = []
quote_text (c ∷ s) =
    if c == b'\''
    then b'\'' ∷ b'\'' ∷ quote_text s
    else if c == b'\\'
    then b'\\' ∷ b'\\' ∷ quote_text s
    else c ∷ quote_text s

abbrev pub written : Lexeme → Text
written (name t) = t
written (numeral t) = t
written (sign s) = sign_text s
written (quoted s) = b'\'' ∷ (quote_text s ++ b'\'' ∷ [])

abbrev pub token_of : Lexeme → Text
token_of (name t) = t
token_of (numeral t) = t
token_of (sign s) = sign_text s
token_of (quoted s) = b'\'' ∷ (s ++ b'\'' ∷ [])

abbrev pub AllNumberChars : Text → Type 0
AllNumberChars [] = Unit {0}
AllNumberChars (c ∷ t) = (is_number_char c ≡ true) × AllNumberChars t

-- Names that are no word operator, and numeric literals.
abbrev pub IsLegal : Lexeme → Type 0
IsLegal (name t) = (is_name t ≡ true) × Others t words
IsLegal (numeral t) = (is_number t ≡ true) × (starts_number t ≡ true) × AllNumberChars t
IsLegal (sign s) = Unit {0}
IsLegal (quoted s) = Unit {0}

-- Tokens one after the other, each with a space behind it.
abbrev pub line : List Lexeme → Text
line [] = []
line (l ∷ ls) = written l ++ spaced (line ls)

abbrev pub AllLegal : List Lexeme → Type 0
AllLegal [] = Unit {0}
AllLegal (l ∷ ls) = IsLegal l × AllLegal ls
