-- ===== src/Sql/Printer.antt =====
-- Conditions written as the tokens that `nextToken` of src/parser.ts makes of SQL: a description of
-- the grammar of `parseWhereClause`, with brackets only where the precedence needs them.
use yasd.Prelude.{true, false, List, [], ◌∷◌, ◌++◌, ◌≡◌, some}
use yasd.Text.{Text, codes}
use yasd.Sql.Syntax.{
  Value, null, boolean, number, string, Expression, literal, column_ref, Operator, eq, ne, gt, ge,
  lt, le, like, Where, and_clause, or_clause, not_clause, is_null, is_not_null, comparison, in_list,
  between,
}
use yasd.Sql.Lexer.{lower, is_number}
use yasd.Sql.Numeric.{Numbers}
use yasd.Sql.Parser.{is_name, one_of}

-- From the weakest binding to the strongest.
pub data Level : Type 0 where
  or_level and_level not_level : Level

abbrev pub operator_text : Operator → Text
operator_text eq = codes "="
operator_text ne = codes "!="
operator_text gt = codes ">"
operator_text ge = codes ">="
operator_text lt = codes "<"
operator_text le = codes "<="
operator_text like = codes "like"

abbrev pub bracketed : List Text → List Text
bracketed ts = codes "(" ∷ (ts ++ codes ")" ∷ [])

-- A name that the parser does not take for a literal or for `NOT`.
abbrev pub IsColumn : Text → Type 0
IsColumn t =
    (is_name t ≡ true)
    × (one_of (codes "null" ∷ codes "true" ∷ codes "false" ∷ codes "not" ∷ []) (lower t) ≡ false)

module _ {N : Type 0} (numbers : Numbers N) (write : N → Text) where
  abbrev pub print_value : Value N → Text
  print_value null = codes "null"
  print_value (boolean true) = codes "true"
  print_value (boolean false) = codes "false"
  print_value (number n) = write n
  print_value (string s) = b'\'' ∷ (s ++ b'\'' ∷ [])

  abbrev pub print_expression : Expression N → Text
  print_expression (literal v) = print_value v
  print_expression (column_ref name) = name

  abbrev pub print_others : List (Expression N) → List Text
  print_others [] = []
  print_others (e ∷ es) = codes "," ∷ print_expression e ∷ print_others es

  unfoldable pub print : Level → Where N → List Text
  print or_level (or_clause l r) = print or_level l ++ (codes "or" ∷ print and_level r)
  print and_level (or_clause l r) = bracketed (print or_level l ++ (codes "or" ∷ print and_level r))
  print not_level (or_clause l r) = bracketed (print or_level l ++ (codes "or" ∷ print and_level r))
  print or_level (and_clause l r) = print and_level l ++ (codes "and" ∷ print not_level r)
  print and_level (and_clause l r) = print and_level l ++ (codes "and" ∷ print not_level r)
  print not_level (and_clause l r) =
      bracketed (print and_level l ++ (codes "and" ∷ print not_level r))
  print level (not_clause w) = codes "not" ∷ print not_level w
  print level (is_null e) = print_expression e ∷ codes "is" ∷ codes "null" ∷ []
  print level (is_not_null e) = print_expression e ∷ codes "is" ∷ codes "not" ∷ codes "null" ∷ []
  print level (comparison a op b) = print_expression a ∷ operator_text op ∷ print_expression b ∷ []
  print level (in_list e first others) =
      print_expression e
      ∷ codes "in"
      ∷ codes "("
      ∷ print_expression first
      ∷ (print_others others ++ codes ")" ∷ [])
  print level (between e a b) =
      print_expression e
      ∷ codes "between"
      ∷ print_expression a
      ∷ codes "and"
      ∷ print_expression b
      ∷ []

  -- A number that `Number` reads back, and any other value.
  abbrev pub IsPrintable : Value N → Type 0
  IsPrintable null = Unit {0}
  IsPrintable (boolean b) = Unit {0}
  IsPrintable (number n) = (is_number (write n) ≡ true) × (numbers.read (write n) ≡ some n)
  IsPrintable (string s) = Unit {0}

  abbrev pub IsWritten : Expression N → Type 0
  IsWritten (literal v) = IsPrintable v
  IsWritten (column_ref name) = IsColumn name

  abbrev pub AllWritten : List (Expression N) → Type 0
  AllWritten [] = Unit {0}
  AllWritten (e ∷ es) = IsWritten e × AllWritten es

  abbrev pub IsRegular : Where N → Type 0
  IsRegular (or_clause l r) = IsRegular l × IsRegular r
  IsRegular (and_clause l r) = IsRegular l × IsRegular r
  IsRegular (not_clause w) = IsRegular w
  IsRegular (is_null e) = IsWritten e
  IsRegular (is_not_null e) = IsWritten e
  IsRegular (comparison a op b) = IsWritten a × IsWritten b
  IsRegular (in_list e first others) = IsWritten e × IsWritten first × AllWritten others
  IsRegular (between e a b) = IsWritten e × IsWritten a × IsWritten b
