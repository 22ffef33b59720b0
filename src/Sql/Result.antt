-- ===== src/Sql/Result.antt =====
-- What the parser of src/parser.ts throws: one constructor for each message. `out_of_fuel` belongs to
-- the model only.

pub data ParseError : Type 0 where
  unterminated_string bad_escape malformed_number unexpected_character : ParseError
  expected_token expected_identifier unknown_type no_columns duplicate_column : ParseError
  no_key_column end_of_input number_out_of_range unexpected_value not_an_integer : ParseError
  bad_integer unexpected_keyword trailing_token multiple_keys trailing_comma : ParseError
  bad_size scale_needs_number scale_exceeds expected_separator expected_operator : ParseError
  too_long out_of_fuel : ParseError

pub data Result {ℓ} (A : Type ℓ) : Type ℓ where
  ok : A → Result A
  err : ParseError → Result A
