-- ===== src/Sql/Total/Tokens.antt =====
-- What `nextToken` of src/parser.ts leaves of the text.
use yasd.Prelude.{
  ℕ, zero, suc, ◌+◌, ◌-◌, ◌≤◌, ◌<◌, ◌≡◌, refl, Bool, false, not, ◌||◌, Option, none, some, List, [],
  ◌∷◌, ◌++◌, length, drop, arith, if_rule, ◌==◌,
}
use yasd.Text.{Text, starts_with}
use yasd.Sql.Result.{Result, ok, err}
use yasd.Sql.Lexer.{
  is_letter, is_name_char, is_number_char, is_number, span, unescape, unescaped, read_quoted,
  read_number, starts_name_char, starts_number, symbols, find_symbol, words, find_word, read_name,
  read_word, read_symbol, requote, read_token, skip_spaces,
}
use yasd.Sql.Parser.{Parser, with_token, next_from, next_token}
use yasd.Sql.Total.Rules.{left, is_fuel}

-- A token was read with fewer than `b` units left, or the text is refused.
abbrev Leaves : ℕ → Result (Text × Text) → Type 0
Leaves b (ok (token, rest)) = length rest < b
Leaves b (err e) = is_fuel e ≡ false

length-span :
    (p : ℕ → Bool) (text : Text) → length (span p text).0 + length (span p text).1 ≡ length text
unfolding span
length-span p [] = refl
length-span p (c ∷ cs) =
    if_rule (λ (r : Text × Text). length r.0 + length r.1 ≡ suc (length cs)) (p c) _ _
      (λ _. omega (arith, length-span p cs)) (λ _. omega arith)

length-drop : (n : ℕ) (text : Text) → length (drop n text) ≡ length text - n
length-drop zero text = omega arith
length-drop (suc n) [] = omega arith
length-drop (suc n) (c ∷ cs) = omega (arith, length-drop n cs)

abbrev Throws : Result ℕ → Type 0
Throws (ok x) = Unit {0}
Throws (err e) = is_fuel e ≡ false

unescape-Throws : (c : ℕ) → Throws (unescape c)
unfolding unescape
unescape-Throws c = ground arith

unescaped-Leaves :
    (b : ℕ) (r : Result ℕ) (f : ℕ → Result (Text × Text))
    → Throws r
    → ((x : ℕ) → Leaves b (f x))
    → Leaves b (unescaped r f)
unfolding unescaped
unescaped-Leaves b (ok x) f h g = g x
unescaped-Leaves b (err e) f h g = h

Leaves-mono : (b c : ℕ) (r : Result (Text × Text)) → b ≤ c → Leaves b r → Leaves c r
Leaves-mono b c (ok (t, rest)) le h = omega arith
Leaves-mono b c (err e) le h = h

read_quoted-Leaves : (q : ℕ) (acc cs : Text) → Leaves (suc (length cs)) (read_quoted q acc cs)
unfolding read_quoted
read_quoted-Leaves q acc [] = refl
read_quoted-Leaves q acc (c ∷ []) = if_rule (Leaves 2) (c == q) _ _ (λ _. omega arith) (λ _. refl)
read_quoted-Leaves q acc (c ∷ d ∷ cs) =
    let n = suc (length cs) in
    let fewer = λ (x : ℕ).
      Leaves-mono n (suc (suc n)) (read_quoted q (acc ++ x ∷ []) cs) (omega arith)
        (read_quoted-Leaves q (acc ++ x ∷ []) cs) in
    if_rule (Leaves (suc (suc n))) (c == q) _ _
      (λ _. if_rule (Leaves (suc (suc n))) (d == q) _ _ (λ _. fewer q) (λ _. omega arith))
      (λ _.
        if_rule (Leaves (suc (suc n))) (c == b'\\') _ _
          (λ _. unescaped-Leaves (suc (suc n)) (unescape d) _ (unescape-Throws d) fewer)
          (λ _.
            Leaves-mono (suc n) (suc (suc n)) (read_quoted q (acc ++ c ∷ []) (d ∷ cs)) (omega arith)
              (read_quoted-Leaves q (acc ++ c ∷ []) (d ∷ cs))))

requote-Leaves : (b q : ℕ) (r : Result (Text × Text)) → Leaves b r → Leaves b (requote q r)
unfolding requote
requote-Leaves b q (ok (t, rest)) h = h
requote-Leaves b q (err e) h = h

read_number-Leaves :
    (b : ℕ) (p : Text × Text) → length p.0 + length p.1 ≡ b → Leaves b (read_number p)
unfolding read_number is_number
read_number-Leaves b ([], rest) h = ground arith
read_number-Leaves b (c ∷ run, rest) h =
    if_rule (Leaves b) (starts_name_char rest || not (is_number (c ∷ run))) _ _ (λ _. refl)
      (λ _. omega arith)

read_name-Leaves : (c : ℕ) (cs : Text) → Leaves (suc (length cs)) (read_name c cs)
unfolding read_name span is_name_char
read_name-Leaves c cs =
    if_rule (Leaves (suc (length cs))) (is_letter c) _ _
      (λ h. rw h (omega (arith, length-span is_name_char cs))) (λ _. refl)

-- A symbol or a word that was found is not empty.
abbrev Found : Option Text → Type 0
Found none = Unit {0}
Found (some op) = 0 < length op

abbrev Proper : List Text → Type 0
Proper [] = Unit {0}
Proper (op ∷ ops) = (0 < length op) × Proper ops

find_symbol-Found : (ops : List Text) (text : Text) → Proper ops → Found (find_symbol ops text)
unfolding find_symbol
find_symbol-Found [] text h = tt
find_symbol-Found (op ∷ ops) text (h, g) =
    if_rule Found (starts_with text op) _ _ (λ _. h) (λ _. find_symbol-Found ops text g)

find_word-Found : (ops : List Text) (text : Text) → Proper ops → Found (find_word ops text)
unfolding find_word
find_word-Found [] text h = tt
find_word-Found (op ∷ ops) text (h, g) =
    if_rule Found _ (some op) _ (λ _. h) (λ _. find_word-Found ops text g)

read_word-Leaves :
    (found : Option Text) (c : ℕ) (cs : Text)
    → Found found
    → Leaves (suc (length cs)) (read_word found c cs)
unfolding read_word
read_word-Leaves none c cs h = read_name-Leaves c cs
read_word-Leaves (some op) c cs h = omega (arith, length-drop (length op) (c ∷ cs))

read_symbol-Leaves :
    (found : Option Text) (c : ℕ) (cs : Text)
    → Found found
    → Leaves (suc (length cs)) (read_symbol found c cs)
unfolding read_symbol
read_symbol-Leaves none c cs h =
    read_word-Leaves (find_word words (c ∷ cs)) c cs (find_word-Found words (c ∷ cs) (ground arith))
read_symbol-Leaves (some op) c cs h = omega (arith, length-drop (length op) (c ∷ cs))

read_token-Leaves : (c : ℕ) (cs : Text) → Leaves (suc (length cs)) (read_token c cs)
unfolding read_token
read_token-Leaves c cs =
    let b = suc (length cs) in
    if_rule (Leaves b) ((c == b'\'') || (c == b'"')) _ _
      (λ _. requote-Leaves b c (read_quoted c [] cs) (read_quoted-Leaves c [] cs))
      (λ _.
        if_rule (Leaves b) (starts_number (c ∷ cs)) _ _
          (λ _.
            read_number-Leaves b (span is_number_char (c ∷ cs))
              (length-span is_number_char (c ∷ cs)))
          (λ _.
            read_symbol-Leaves (find_symbol symbols (c ∷ cs)) c cs
              (find_symbol-Found symbols (c ∷ cs) (ground arith))))

-- The next token, and what follows it.
abbrev pub Within : ℕ → Result Parser → Type 0
Within b (ok p) = left p ≤ b
Within b (err e) = is_fuel e ≡ false

with_token-Within : (b : ℕ) (r : Result (Text × Text)) → Leaves b r → Within b (with_token r)
unfolding with_token
with_token-Within b (ok (t, rest)) h = omega arith
with_token-Within b (err e) h = h

next_from-Within : (text : Text) → Within (length text) (next_from text)
unfolding next_from
next_from-Within [] = omega arith
next_from-Within (c ∷ cs) =
    with_token-Within (suc (length cs)) (read_token c cs) (read_token-Leaves c cs)

length-skip_spaces : (text : Text) → length (skip_spaces text) ≤ length text
unfolding skip_spaces
length-skip_spaces [] = omega arith
length-skip_spaces (c ∷ cs) =
    if_rule (λ (t : Text). length t ≤ suc (length cs)) _ (skip_spaces cs) (c ∷ cs)
      (λ _. omega (arith, length-skip_spaces cs)) (λ _. omega arith)

Within-mono : (b c : ℕ) (r : Result Parser) → b ≤ c → Within b r → Within c r
Within-mono b c (ok p) le h = omega arith
Within-mono b c (err e) le h = h

pub next_token-Within : (text : Text) → Within (length text) (next_token text)
unfolding next_token
next_token-Within text =
    Within-mono (length (skip_spaces text)) (length text) (next_from (skip_spaces text))
      (length-skip_spaces text) (next_from-Within (skip_spaces text))
