-- ===== src/Sql/RoundTrip/Tokens.antt =====
-- `nextToken` of src/parser.ts on tokens that are written one after the other.
use mathlib.Core.List.{append-nil, append_assoc}
use yasd.Prelude.{
  ℕ, ◌≡◌, refl, sym, ap, ◌∙◌, true, false, ◌||◌, none, some, List, [], ◌∷◌, ◌++◌, arith, ◌==◌, map,
  subst, if_rule,
}
use yasd.Text.{Text}
use yasd.Sql.Result.{ok}
use yasd.Sql.Lexer.{
  is_space, is_digit, is_number_char, is_number, is_letter, is_name_char, skip_spaces, span,
  starts_digit, starts_fraction, starts_number, starts_name_char, unescape, unescaped, read_quoted,
  read_number, requote, read_token,
}
use yasd.Sql.Parser.{Parser, with_token, next_from, next_token}
use yasd.Sql.RoundTrip.Reads.{Yields}
use yasd.Sql.RoundTrip.Written.{
  Sign, ge_sign, le_sign, ne_sign, eq_sign, gt_sign, lt_sign, open_sign, close_sign, comma_sign,
  star_sign, semicolon_sign, like_sign, between_sign, in_sign, and_sign, or_sign, not_sign, is_sign,
  sign_text, Lexeme, name, numeral, sign, quoted, quote_text, written, token_of, AllNumberChars,
  IsLegal, line, AllLegal,
}
use yasd.Sql.RoundTrip.Names.{spaced, next_token-name, next_token-read}

next_token-sign :
    (s : Sign) (more : Text)
    → next_token (sign_text s ++ spaced more)
      ≡ ok (record { rest = spaced more; current = some (sign_text s) })
unfolding next_token read_token with_token is_space
next_token-sign ge_sign more = refl
next_token-sign le_sign more = refl
next_token-sign ne_sign more = refl
next_token-sign eq_sign more = refl
next_token-sign gt_sign more = refl
next_token-sign lt_sign more = refl
next_token-sign open_sign more = refl
next_token-sign close_sign more = refl
next_token-sign comma_sign more = refl
next_token-sign star_sign more = refl
next_token-sign semicolon_sign more = refl
next_token-sign like_sign more = refl
next_token-sign between_sign more = refl
next_token-sign in_sign more = refl
next_token-sign and_sign more = refl
next_token-sign or_sign more = refl
next_token-sign not_sign more = refl
next_token-sign is_sign more = refl

-- A quoted string.
equal_codes : (c d : ℕ) → (c == d) ≡ true → c ≡ d
equal_codes c d h = ground arith

read_plain :
    (acc more : Text) (c d : ℕ)
    → (c == b'\'') ≡ false
    → (c == b'\\') ≡ false
    → read_quoted b'\'' acc (c ∷ d ∷ more) ≡ read_quoted b'\'' (acc ++ c ∷ []) (d ∷ more)
unfolding read_quoted
read_plain acc more c d h g = rw (h, g) refl

quote_first : (s more : Text) → (d : ℕ) × ((cs : Text) × (quote_text s ++ b'\'' ∷ more ≡ d ∷ cs))
quote_first [] more = (b'\'', (more, refl))
quote_first (c ∷ s) more =
    let P = λ (u : Text). (d : ℕ) × ((cs : Text) × (u ++ b'\'' ∷ more ≡ d ∷ cs)) in
    if_rule P (c == b'\'') (b'\'' ∷ b'\'' ∷ quote_text s) _
      (λ _. (b'\'', (b'\'' ∷ (quote_text s ++ b'\'' ∷ more), refl)))
      (λ _.
        if_rule P (c == b'\\') (b'\\' ∷ b'\\' ∷ quote_text s) (c ∷ quote_text s)
          (λ _. (b'\\', (b'\\' ∷ (quote_text s ++ b'\'' ∷ more), refl)))
          (λ _. (c, (quote_text s ++ b'\'' ∷ more, refl))))

read_quote_text :
    (acc s more : Text)
    → read_quoted b'\'' acc (quote_text s ++ b'\'' ∷ spaced more) ≡ ok (acc ++ s, spaced more)
unfolding read_quoted unescape unescaped
read_quote_text acc [] more = rw (append-nil acc) refl
read_quote_text acc (c ∷ s) more =
    let tail = quote_text s ++ b'\'' ∷ spaced more in
    let P = λ (u : Text).
      read_quoted b'\'' acc (u ++ b'\'' ∷ spaced more) ≡ ok (acc ++ (c ∷ s), spaced more) in
    let rest : read_quoted b'\'' (acc ++ c ∷ []) tail ≡ ok (acc ++ (c ∷ s), spaced more) =
      read_quote_text (acc ++ c ∷ []) s more
      ∙ ap (λ u. ok (u, spaced more)) (append_assoc acc (c ∷ []) s) in
    if_rule P (c == b'\'') (b'\'' ∷ b'\'' ∷ quote_text s) _
      (λ h.
        subst (λ x. read_quoted b'\'' (acc ++ x ∷ []) tail ≡ ok (acc ++ (c ∷ s), spaced more))
          (equal_codes c b'\'' h) rest)
      (λ h.
        if_rule P (c == b'\\') (b'\\' ∷ b'\\' ∷ quote_text s) (c ∷ quote_text s)
          (λ g.
            subst (λ x. read_quoted b'\'' (acc ++ x ∷ []) tail ≡ ok (acc ++ (c ∷ s), spaced more))
              (equal_codes c b'\\' g) rest)
          (λ g.
            let (d, (cs, e)) = quote_first s (spaced more) in
            ap (λ u. read_quoted b'\'' acc (c ∷ u)) e
            ∙ read_plain acc cs c d h g
            ∙ ap (read_quoted b'\'' (acc ++ c ∷ [])) (sym e)
            ∙ rest))

-- A numeral.
span_number :
    (t more : Text) → AllNumberChars t → span is_number_char (t ++ spaced more) ≡ (t, spaced more)
unfolding span is_number_char is_digit
span_number [] more h = refl
span_number (c ∷ t) more (h, hs) = rw (h, span_number t more hs) refl

starts_number-append : (t more : Text) → starts_number t ≡ true → starts_number (t ++ more) ≡ true
unfolding starts_number starts_digit starts_fraction
starts_number-append [] more h = ground arith
starts_number-append (c ∷ []) more h = ground arith
starts_number-append (c ∷ d ∷ []) more h = ground arith
starts_number-append (c ∷ d ∷ e ∷ t) more h = h

numeral_tests :
    (c : ℕ) (t : Text)
    → starts_number (c ∷ t) ≡ true
    → (is_space c ≡ false) × (((c == b'\'') || (c == b'"')) ≡ false)
unfolding starts_number starts_digit starts_fraction is_space is_digit
numeral_tests c t h = (ground arith, ground arith)

read_number-numeral :
    (t more : Text) → is_number t ≡ true → read_number (t, spaced more) ≡ ok (t, spaced more)
unfolding read_number starts_name_char is_name_char is_letter is_digit
read_number-numeral t more h = rw h refl

read_token-number :
    (c : ℕ) (cs : Text)
    → ((c == b'\'') || (c == b'"')) ≡ false
    → starts_number (c ∷ cs) ≡ true
    → read_token c cs ≡ read_number (span is_number_char (c ∷ cs))
unfolding read_token
read_token-number c cs q n = rw (q, n) refl

next_token-numeral :
    (t more : Text)
    → IsLegal (numeral t)
    → next_token (t ++ spaced more) ≡ ok (record { rest = spaced more; current = some t })
unfolding with_token starts_number
next_token-numeral [] more (n, s, a) = ground arith
next_token-numeral (c ∷ t) more (n, s, a) =
    let cs = t ++ spaced more in
    let (space, quote) = numeral_tests c t s in
    next_token-read c cs space
    ∙ ap with_token (
        read_token-number c cs quote (starts_number-append (c ∷ t) (spaced more) s)
        ∙ ap read_number (span_number (c ∷ t) more a)
        ∙ read_number-numeral (c ∷ t) more n)

read_token-quote : (cs : Text) → read_token b'\'' cs ≡ requote b'\'' (read_quoted b'\'' [] cs)
unfolding read_token
read_token-quote cs = refl

quote_no_space : is_space b'\'' ≡ false
unfolding is_space
quote_no_space = refl

next_token-quoted :
    (s more : Text)
    → next_token (written (quoted s) ++ spaced more)
      ≡ ok (record { rest = spaced more; current = some (token_of (quoted s)) })
unfolding with_token requote
next_token-quoted s more =
    let cs = (quote_text s ++ b'\'' ∷ []) ++ spaced more in
    next_token-read b'\'' cs quote_no_space
    ∙ ap with_token (
        read_token-quote cs
        ∙ ap (λ u. requote b'\'' (read_quoted b'\'' [] u))
            (append_assoc (quote_text s) (b'\'' ∷ []) (spaced more))
        ∙ ap (requote b'\'') (read_quote_text [] s more))

pub next_token-written :
    (l : Lexeme) (more : Text)
    → IsLegal l
    → next_token (written l ++ spaced more)
      ≡ ok (record { rest = spaced more; current = some (token_of l) })
next_token-written (name t) more (h, o) = next_token-name t more h o
next_token-written (numeral t) more h = next_token-numeral t more h
next_token-written (sign s) more h = next_token-sign s more
next_token-written (quoted s) more h = next_token-quoted s more

next_token-spaced : (more : Text) → next_token (spaced more) ≡ next_token more
unfolding next_token skip_spaces is_space
next_token-spaced more = refl

-- The text of a list of tokens is taken apart again: every name, numeral, sign and string comes back
-- as it was, the string with its quotes and without its escapes, and nothing comes after the last.
-- Names are no word operators, and numerals are numeric literals.
pub Yields-line :
    (ls : List Lexeme)
    → AllLegal ls
    → (p : Parser) × (next_token (line ls) ≡ ok p) × Yields p (map token_of ls)
unfolding next_token next_from skip_spaces
Yields-line [] h = (record { rest = []; current = none }, refl, refl)
Yields-line (l ∷ ls) (h, hs) =
    let (p, e, y) = Yields-line ls hs in
    let q : Parser = record { rest = spaced (line ls); current = some (token_of l) } in
    (q, next_token-written l (line ls) h, (refl, (p, next_token-spaced (line ls) ∙ e, y)))
