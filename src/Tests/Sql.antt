-- ===== src/Tests/Sql.antt =====
-- Runs of the parser of src/parser.ts.
use yasd.Prelude.{List, map, ℕ, ◌+◌, ◌≡◌, ◌≢◌, refl, none, some, [], ◌∷◌, ◌++◌, if◌then◌else◌}
use yasd.Text.{Text, codes, utf8_byte_length, text_eq, starts_with}
use yasd.Sql.Result.{ok, err, out_of_fuel}
use yasd.Sql.Syntax.{
  number, string, literal, column_ref, eq, Where, and_clause, or_clause, not_clause, is_null,
  comparison, between, delete,
}
use yasd.Sql.Lexer.{
  all_digits, is_number, lower, is_space, is_digit, is_letter, is_name_char, is_number_char,
  lower_char, skip_spaces, trim, span, unescape, unescaped, read_quoted, some_digits, signed_digits,
  is_exponent, is_fraction, is_bare_fraction, is_mantissa, starts_digit, starts_fraction,
  starts_number, starts_name_char, read_number, find_symbol, find_word, read_name, read_word,
  read_symbol, requote, read_token,
}
use yasd.Sql.Numeric.{Numbers, digits_value}
use yasd.Sql.Parser.{
  Parser, next_token, is_name, one_of, is_word, with_token, next_from, advance, token_text,
  is_token, rounds, repeat, consume, expect, all_name, is_name_token, expect_identifier,
  unquoted_end, unquoted, numeric, text_value, value_of, value_from, parse_value, expression_from,
  parse_expression,
}
use yasd.Sql.Clauses.{
  parse_where, kind_of, operands, parse_comparison, parse_and, parse_or, parenthesised, parse_not,
}
use yasd.Sql.Statements.{
  parse, condition, parse_delete, by_keyword, at_end, parse_statement, parse_from,
}
use yasd.Sql.Printer.{print, or_level, IsRegular}
use yasd.Sql.RoundTrip.Reads.{Yields}
use yasd.Sql.RoundTrip.Written.{
  Lexeme, name, numeral, sign, quoted, eq_sign, and_sign, ge_sign, token_of, line, AllLegal,
}
use yasd.Sql.RoundTrip.Tokens.{Yields-line}
use yasd.Sql.RoundTrip.Clauses.{parse_where-print}
use yasd.Sql.Total.Statements.{parse-ne_fuel}

abbrev digits : Numbers ℕ
digits = record { read = λ t. if all_digits t then some (digits_value 0 t) else none }

abbrev one_digit : ℕ → Text
one_digit n = (b'0' + n) ∷ []

abbrev deletion : Text
deletion = codes "DELETE FROM t WHERE NOT (a = 1 OR b = 'it''s');"

abbrev a_is_one : Where ℕ
a_is_one = comparison (column_ref (codes "a")) eq (literal (number 1))

deletion_parsed :
    parse digits deletion
    ≡ ok (
        delete (record {
          table_name = codes "t";
          condition = some (
              not_clause (
                or_clause a_is_one
                  (comparison (column_ref (codes "b")) eq (literal (string (codes "it's"))))));
        }))
unfolding utf8_byte_length text_eq starts_with is_space is_digit is_letter is_name_char
    is_number_char lower_char lower skip_spaces trim span unescape unescaped read_quoted all_digits
    some_digits signed_digits is_exponent is_fraction is_bare_fraction is_mantissa is_number
    starts_digit starts_fraction starts_number starts_name_char read_number find_symbol find_word
    read_name read_word read_symbol requote read_token digits_value with_token next_from next_token
    advance token_text is_token is_word rounds repeat consume expect all_name is_name is_name_token
    expect_identifier one_of unquoted_end unquoted numeric text_value value_of value_from
    parse_value expression_from parse_expression kind_of operands parse_comparison parse_and
    parse_or parenthesised parse_not parse_where condition parse_delete by_keyword at_end
    parse_statement parse_from parse
deletion_parsed = refl

parse-ne_fuel_example : parse digits deletion ≢ err out_of_fuel
parse-ne_fuel_example = parse-ne_fuel digits deletion

abbrev clause : Where ℕ
clause = or_clause a_is_one (
    not_clause (
      and_clause (is_null (column_ref (codes "b")))
        (between (column_ref (codes "c")) (literal (number 1)) (literal (number 2)))))

-- The state after `WHERE`, in front of the condition.
abbrev start : Parser
start = record {
  rest = codes " = 1 OR NOT (b IS null AND c BETWEEN 1 AND 2);";
  current = some (codes "a");
}

start-Yields : Yields start (print digits one_digit or_level clause ++ codes ";" ∷ [])
unfolding next_token print read_token
start-Yields = (
  refl,
  (
    _,
    refl,
    (
      refl,
      (
        _,
        refl,
        (
          refl,
          (
            _,
            refl,
            (
              refl,
              (
                _,
                refl,
                (
                  refl,
                  (
                    _,
                    refl,
                    (
                      refl,
                      (
                        _,
                        refl,
                        (
                          refl,
                          (
                            _,
                            refl,
                            (
                              refl,
                              (
                                _,
                                refl,
                                (
                                  refl,
                                  (
                                    _,
                                    refl,
                                    (
                                      refl,
                                      (
                                        _,
                                        refl,
                                        (
                                          refl,
                                          (
                                            _,
                                            refl,
                                            (
                                              refl,
                                              (
                                                _,
                                                refl,
                                                (
                                                  refl,
                                                  (
                                                    _,
                                                    refl,
                                                    (
                                                      refl,
                                                      (
                                                        _,
                                                        refl,
                                                        (
                                                          refl,
                                                          (
                                                            _,
                                                            refl,
                                                            (
                                                            refl,
                                                            (_, refl, (refl, (_, refl, refl))),
                                                            ),
                                                          ),
                                                        ),
                                                      ),
                                                    ),
                                                  ),
                                                ),
                                              ),
                                            ),
                                          ),
                                        ),
                                      ),
                                    ),
                                  ),
                                ),
                              ),
                            ),
                          ),
                        ),
                      ),
                    ),
                  ),
                ),
              ),
            ),
          ),
        ),
      ),
    ),
  ),
)

clause-IsRegular : IsRegular digits one_digit clause
unfolding is_name one_of is_number lower all_digits digits_value text_eq
clause-IsRegular =
    (((refl, refl), (refl, refl)), ((refl, refl), ((refl, refl), (refl, refl), (refl, refl))))

parse_where-print_example :
    (q : Parser) × (parse_where digits start ≡ ok (clause, q)) × Yields q (codes ";" ∷ [])
unfolding lower is_word text_eq
parse_where-print_example =
    parse_where-print digits one_digit clause start (codes ";" ∷ []) clause-IsRegular refl refl
      start-Yields

-- `a = 'it''s' AND b2 >= -1.5e3`
abbrev tokens : List Lexeme
tokens =
    name (codes "a")
    ∷ sign eq_sign
    ∷ quoted (codes "it's")
    ∷ sign and_sign
    ∷ name (codes "b2")
    ∷ sign ge_sign
    ∷ numeral (codes "-1.5e3")
    ∷ []

tokens-AllLegal : AllLegal tokens
unfolding is_name lower text_eq is_number starts_number is_number_char
tokens-AllLegal = (
  (refl, (refl, (refl, (refl, (refl, (refl, (refl, (refl, tt)))))))),
  (
    tt,
    (
      tt,
      (
        tt,
        (
          (refl, (refl, (refl, (refl, (refl, (refl, (refl, (refl, tt)))))))),
          (tt, ((refl, refl, (refl, (refl, (refl, (refl, (refl, (refl, tt))))))), tt)),
        ),
      ),
    ),
  ),
)

Yields-line_example :
    (p : Parser) × (next_token (line tokens) ≡ ok p) × Yields p (map token_of tokens)
Yields-line_example = Yields-line tokens tokens-AllLegal
