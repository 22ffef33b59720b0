-- ===== src/Sql/RoundTrip/Names.antt =====
-- `nextToken` of src/parser.ts in front of a name.
use yasd.Prelude.{
  ℕ, ◌≡◌, refl, ap, ◌∙◌, Bool, true, false, not, ◌&&◌, ◌||◌, none, some, List, [], ◌∷◌, ◌++◌,
  length, take, drop, arith, ◌==◌,
}
use yasd.Text.{Text, text_eq, starts_with}
use yasd.Sql.Result.{ok}
use yasd.Sql.Lexer.{
  is_space, is_letter, is_digit, is_name_char, lower, lower_char, skip_spaces, span, starts_digit,
  starts_fraction, starts_number, starts_name_char, symbols, find_symbol, words, find_word,
  read_name, read_word, read_symbol, read_token,
}
use yasd.Sql.Parser.{is_name, all_name, with_token, next_from, next_token}

-- The text after a token starts with a space.
abbrev pub spaced : Text → Text
spaced more = b' ' ∷ more

-- The words of a list that a name is not.
abbrev pub Others : Text → List Text → Type 0
Others t [] = Unit {0}
Others t (w ∷ ws) = (text_eq (lower t) w ≡ false) × Others t ws

abbrev AllNames : List Text → Type 0
AllNames [] = Unit {0}
AllNames (w ∷ ws) = (all_name w ≡ true) × AllNames ws

name_no_space : (o : ℕ) → is_name_char o ≡ true → (b' ' == o) ≡ false
unfolding is_name_char is_letter is_digit
name_no_space o h = ground arith

all_first :
    (c : ℕ) (t : Text) → all_name (c ∷ t) ≡ true → (is_name_char c ≡ true) × (all_name t ≡ true)
unfolding all_name
all_first c t h = (ground arith, ground arith)

same_guard : (a x y z : Bool) → (x && y) ≡ z → (a && x && y) ≡ (a && z)
same_guard true x y z h = h
same_guard false x y z h = refl

-- A word is found in front only if the whole name is that word.
word_hit :
    (w t more : Text)
    → all_name t ≡ true
    → all_name w ≡ true
    → (text_eq (lower (take (length w) (t ++ spaced more))) w
        && not (starts_name_char (drop (length w) (t ++ spaced more))))
      ≡ text_eq (lower t) w
unfolding lower text_eq starts_name_char
word_hit [] [] more h g = refl
word_hit [] (c ∷ t) more h g = rw (all_first c t h).0 refl
word_hit (o ∷ w) [] more h g = rw (name_no_space o (all_first o w g).0) refl
word_hit (o ∷ w) (c ∷ t) more h g =
    same_guard (lower_char c == o) _ _ _ (word_hit w t more (all_first c t h).1 (all_first o w g).1)

span_name :
    (t more : Text) → all_name t ≡ true → span is_name_char (t ++ spaced more) ≡ (t, spaced more)
unfolding span all_name is_name_char is_letter is_digit
span_name [] more h = refl
span_name (c ∷ t) more h =
    let fits : is_name_char c ≡ true = ground arith in
    rw (fits, span_name t more (ground arith)) refl

no_symbol : (c : ℕ) (cs : Text) → is_letter c ≡ true → find_symbol symbols (c ∷ cs) ≡ none
unfolding find_symbol starts_with is_letter
no_symbol c cs h = ground arith

letter_tests :
    (c : ℕ) (cs : Text)
    → is_letter c ≡ true
    → (is_space c ≡ false)
      × ((c == b'\'') || (c == b'"') ≡ false)
      × (starts_number (c ∷ cs) ≡ false)
unfolding is_letter is_space starts_number starts_digit starts_fraction is_digit
letter_tests c cs h = (ground arith, ground arith, ground arith)

-- None of the words is found in front of a name that is none of them.
no_word :
    (ws : List Text) (t more : Text)
    → all_name t ≡ true
    → Others t ws
    → AllNames ws
    → find_word ws (t ++ spaced more) ≡ none
unfolding find_word
no_word [] t more h o n = refl
no_word (w ∷ ws) t more h (o, os) (n, ns) =
    rw (word_hit w t more h n, o) (no_word ws t more h os ns)

-- The first token of a text that does not start with a space.
pub next_token-read :
    (c : ℕ) (cs : Text) → is_space c ≡ false → next_token (c ∷ cs) ≡ with_token (read_token c cs)
unfolding next_token next_from skip_spaces
next_token-read c cs h = rw h refl

read_token-symbol :
    (c : ℕ) (cs : Text)
    → ((c == b'\'') || (c == b'"')) ≡ false
    → starts_number (c ∷ cs) ≡ false
    → read_token c cs ≡ read_symbol (find_symbol symbols (c ∷ cs)) c cs
unfolding read_token
read_token-symbol c cs q n = rw (q, n) refl

words-AllNames : AllNames words
unfolding all_name is_name_char is_letter
words-AllNames = (refl, (refl, (refl, (refl, (refl, (refl, (refl, tt)))))))

name_all : (c : ℕ) (t : Text) → is_name (c ∷ t) ≡ true → all_name (c ∷ t) ≡ true
unfolding is_name all_name is_name_char
name_all c t h = ground arith

read_symbol-name :
    (c : ℕ) (t more : Text)
    → is_letter c ≡ true
    → all_name (c ∷ t) ≡ true
    → Others (c ∷ t) words
    → read_symbol (find_symbol symbols (c ∷ (t ++ spaced more))) c (t ++ spaced more)
      ≡ ok (c ∷ t, spaced more)
unfolding read_symbol read_word read_name
read_symbol-name c t more l h o =
    rw
      (
        no_symbol c (t ++ spaced more) l,
        no_word words (c ∷ t) more h o words-AllNames,
        l,
        span_name t more (all_first c t h).1,
      )
      refl

pub next_token-name :
    (t more : Text)
    → is_name t ≡ true
    → Others t words
    → next_token (t ++ spaced more) ≡ ok (record { rest = spaced more; current = some t })
unfolding is_name with_token
next_token-name [] more h o = ground arith
next_token-name (c ∷ t) more h o =
    let cs = t ++ spaced more in
    let letter : is_letter c ≡ true = ground arith in
    let all : all_name (c ∷ t) ≡ true = name_all c t h in
    let (space, quote, number) = letter_tests c cs letter in
    next_token-read c cs space
    ∙ ap with_token (read_token-symbol c cs quote number ∙ read_symbol-name c t more letter all o)
