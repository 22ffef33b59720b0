-- ===== src/Sql/RoundTrip/Expressions.antt =====
-- `parseValue` and `parseExpression` of src/parser.ts on printed operands.
use mathlib.Core.List.{append-nil, append_assoc}
use yasd.Prelude.{
  ap, ◌∙◌, ℕ, ◌≡◌, refl, Bool, true, false, not, ◌&&◌, ◌||◌, some, List, [], ◌∷◌, ◌++◌, arith, ◌==◌,
  if◌then◌else◌, Bool-cases, inl, inr,
}
use yasd.Text.{Text, codes, text_eq}
use yasd.Sql.Syntax.{Value, null, boolean, number, string, Expression, literal, column_ref}
use yasd.Sql.Numeric.{Numbers}
use yasd.Sql.Lexer.{
  lower, lower_char, is_letter, is_digit, is_number, is_mantissa, is_bare_fraction, span,
}
use yasd.Sql.Parser.{
  Parser, ◌>>=◌, ◌>>◌, pure, is_name, one_of, unquoted, unquoted_end, numeric, text_value, value_of,
  value_from, parse_value, expression_from, parse_expression, consume,
}
use yasd.Sql.Printer.{print_value, print_expression, IsColumn, IsPrintable, IsWritten}
use yasd.Sql.RoundTrip.Reads.{Yields, Reads, Reads-pure, Reads-bind, peek-Reads, consume_then}

bare_fraction_start :
    (c : ℕ) (cs : Text) (r : Text × Text) → is_bare_fraction (c ∷ cs) r ≡ true → (c == b'.') ≡ true
unfolding is_bare_fraction
bare_fraction_start c cs ([], rest) h = ground arith
bare_fraction_start c cs (d ∷ ds, rest) h = ground arith

-- A numeric literal starts with a digit, a point or a minus.
abbrev is_start : ℕ → Bool
is_start c = is_digit c || (c == b'.') || (c == b'-')

mantissa_start :
    (b : Bool) (c : ℕ) (cs run rest : Text)
    → is_mantissa (c ∷ cs) (if b then (c ∷ run, rest) else ([], c ∷ cs)) ≡ true
    → (b || (c == b'.')) ≡ true
unfolding is_mantissa
mantissa_start true c cs run rest h = refl
mantissa_start false c cs run rest h = bare_fraction_start c cs _ h

signed_start :
    (b s : Bool) (c : ℕ) (cs run rest : Text)
    → (if b then s else is_mantissa (c ∷ cs) (if is_digit c then (c ∷ run, rest) else ([], c ∷ cs)))
      ≡ true
    → (is_digit c || (c == b'.') || b) ≡ true
signed_start true s c cs run rest h = ground arith
signed_start false s c cs run rest h = ground (arith, mantissa_start (is_digit c) c cs run rest h)

number_start : (c : ℕ) (cs : Text) → is_number (c ∷ cs) ≡ true → is_start c ≡ true
unfolding is_number span
number_start c cs h =
    signed_start (c == b'-') (is_mantissa cs (span is_digit cs)) c cs (span is_digit cs).0
      (span is_digit cs).1 h

-- A token that starts so is not a name or a word.
start_no_name : (c : ℕ) (cs : Text) → is_start c ≡ true → is_name (c ∷ cs) ≡ false
unfolding is_name is_letter is_digit
start_no_name c cs h = ground arith

start_no_word :
    (c : ℕ) (cs : Text) (w : ℕ) (ws : Text)
    → is_start c ≡ true
    → is_start w ≡ false
    → text_eq (lower (c ∷ cs)) (w ∷ ws) ≡ false
unfolding lower lower_char is_digit text_eq
start_no_word c cs w ws h g = ground arith

unquoted_end-append : (q : ℕ) (acc s : Text) → unquoted_end q acc (s ++ q ∷ []) ≡ some (acc ++ s)
unfolding unquoted_end
unquoted_end-append q acc [] = ground (arith, append-nil acc)
unquoted_end-append q acc (c ∷ []) =
    unquoted_end-append q (acc ++ c ∷ []) [] ∙ ap some (append-nil (acc ++ c ∷ []))
unquoted_end-append q acc (c ∷ d ∷ s) =
    unquoted_end-append q (acc ++ c ∷ []) (d ∷ s) ∙ ap some (append_assoc acc (c ∷ []) (d ∷ s))

unquoted_string : (s : Text) → unquoted (b'\'' ∷ (s ++ b'\'' ∷ [])) ≡ some s
unfolding unquoted
unquoted_string s = unquoted_end-append b'\'' [] s

string_no_number : (s : Text) → is_number (b'\'' ∷ s) ≡ false
unfolding is_digit
string_no_number s = elim (Bool-cases (is_number (b'\'' ∷ s))) [
  | inl h ↦ ground (arith, number_start b'\'' s h)
  | inr h ↦ h
]

module _ {N : Type 0} (numbers : Numbers N) (write : N → Text) where
  number_tests :
      (t : Text)
      → is_number t ≡ true
      → (is_name t ≡ false)
        × (text_eq (lower t) (codes "null") ≡ false)
        × (text_eq (lower t) (codes "true") ≡ false)
        × (text_eq (lower t) (codes "false") ≡ false)
  unfolding is_number is_digit
  number_tests [] h = ground arith
  number_tests (c ∷ cs) h =
      let s = number_start c cs h in
      (
        start_no_name c cs s,
        start_no_word c cs _ _ s refl,
        start_no_word c cs _ _ s refl,
        start_no_word c cs _ _ s refl,
      )

  number_of :
      (n : N)
      → IsPrintable numbers write (number n)
      → value_of numbers (write n) ≡ (consume >> pure (number n))
  unfolding value_of numeric
  number_of n (h, g) = let (a, b, c, d) = number_tests (write n) h in rw (b, c, d, h, g) refl

  string_of :
      (s : Text)
      → value_of numbers (print_value numbers write (string s)) ≡ (consume >> pure (string s))
  unfolding value_of text_value lower lower_char text_eq
  string_of s = rw (string_no_number (s ++ b'\'' ∷ []), unquoted_string s) refl

  value_of-print :
      (v : Value N)
      → IsPrintable numbers write v
      → value_of numbers (print_value numbers write v) ≡ (consume >> pure v)
  unfolding value_of lower lower_char text_eq
  value_of-print null h = refl
  value_of-print (boolean true) h = refl
  value_of-print (boolean false) h = refl
  value_of-print (number n) h = number_of n h
  value_of-print (string s) h = string_of s

  pub Reads-parse_value :
      (v : Value N) (p : Parser) (ts : List Text)
      → IsPrintable numbers write v
      → Yields p (print_value numbers write v ∷ ts)
      → Reads (parse_value numbers) p v ts
  unfolding parse_value value_from
  Reads-parse_value v p ts h y =
      peek-Reads p v (print_value numbers write v ∷ ts) ts y (value_from numbers) (
        rw (value_of-print v h) (
          consume_then p (print_value numbers write v) ts y (pure v) v ts
            (λ q z. Reads-pure v q ts z)))

  -- What tells an operand from a literal, from `NOT` and from a bracket.
  abbrev is_reference : Text → Bool
  is_reference t =
      is_name t && not (one_of (codes "null" ∷ codes "true" ∷ codes "false" ∷ []) (lower t))

  literal_no_reference :
      (v : Value N)
      → IsPrintable numbers write v
      → is_reference (print_value numbers write v) ≡ false
  unfolding is_name is_letter lower lower_char one_of text_eq
  literal_no_reference null h = refl
  literal_no_reference (boolean true) h = refl
  literal_no_reference (boolean false) h = refl
  literal_no_reference (number n) (h, g) = rw (number_tests (write n) h).0 refl
  literal_no_reference (string s) h = refl

  column_is_reference : (t : Text) → IsColumn t → is_reference t ≡ true
  unfolding one_of
  column_is_reference t (h, g) = ground arith

  literal_of :
      (v : Value N)
      → IsPrintable numbers write v
      → expression_from numbers (some (print_value numbers write v))
        ≡ (parse_value numbers >>= λ w. pure (literal w))
  unfolding expression_from
  literal_of v h = rw (literal_no_reference v h) refl

  column_of :
      (t : Text) → IsColumn t → expression_from numbers (some t) ≡ (consume >> pure (column_ref t))
  unfolding expression_from
  column_of t h = rw (column_is_reference t h) refl

  pub Reads-parse_expression :
      (e : Expression N) (p : Parser) (ts : List Text)
      → IsWritten numbers write e
      → Yields p (print_expression numbers write e ∷ ts)
      → Reads (parse_expression numbers) p e ts
  unfolding parse_expression
  Reads-parse_expression (literal v) p ts h y =
      peek-Reads p (literal v) (print_value numbers write v ∷ ts) ts y (expression_from numbers) (
        rw (literal_of v h) (
          Reads-bind (parse_value numbers) (λ w. pure (literal w)) p v (literal v) ts ts
            (Reads-parse_value v p ts h y) (λ q z. Reads-pure (literal v) q ts z)))
  Reads-parse_expression (column_ref name) p ts h y =
      peek-Reads p (column_ref name) (name ∷ ts) ts y (expression_from numbers) (
        rw (column_of name h) (
          consume_then p name ts y (pure (column_ref name)) (column_ref name) ts
            (λ q z. Reads-pure (column_ref name) q ts z)))

  -- An operand is not the word `NOT`, and not a bracket.
  column_tests :
      (t : Text)
      → IsColumn t
      → (text_eq (lower t) (codes "not") ≡ false) × (text_eq t (codes "(") ≡ false)
  unfolding is_name is_letter text_eq one_of
  column_tests [] (h, g) = ground arith
  column_tests (c ∷ cs) (h, g) = (ground arith, ground arith)

  number_first :
      (t : Text)
      → is_number t ≡ true
      → (text_eq (lower t) (codes "not") ≡ false) × (text_eq t (codes "(") ≡ false)
  unfolding is_number is_digit text_eq
  number_first [] h = ground arith
  number_first (c ∷ cs) h =
      let s = number_start c cs h in (start_no_word c cs _ _ s refl, ground arith)

  pub operand_tests :
      (e : Expression N)
      → IsWritten numbers write e
      → (text_eq (lower (print_expression numbers write e)) (codes "not") ≡ false)
        × (text_eq (print_expression numbers write e) (codes "(") ≡ false)
  unfolding lower lower_char text_eq
  operand_tests (column_ref t) h = column_tests t h
  operand_tests (literal null) h = (refl, refl)
  operand_tests (literal (boolean true)) h = (refl, refl)
  operand_tests (literal (boolean false)) h = (refl, refl)
  operand_tests (literal (number n)) (h, g) = number_first (write n) h
  operand_tests (literal (string s)) h = (refl, refl)
