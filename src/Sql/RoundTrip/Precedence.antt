-- ===== src/Sql/RoundTrip/Precedence.antt =====
-- The three levels of precedence of `parseWhereClause` of src/parser.ts.
use mathlib.Core.List.{append_assoc}
use yasd.Prelude.{ℕ, ◌<◌, ◌≡◌, refl, subst, false, List, ◌∷◌, ◌++◌, length, length-append, arith}
use yasd.Text.{Text, codes, text_eq}
use yasd.Sql.Syntax.{Where, and_clause, or_clause}
use yasd.Sql.Numeric.{Numbers}
use yasd.Sql.Lexer.{lower, lower_char}
use yasd.Sql.Parser.{Parser, Parse, pure, ◌>>=◌, ◌>>◌, consume, is_word}
use yasd.Sql.Clauses.{parse_and, parse_or, parse_not}
use yasd.Sql.RoundTrip.Reads.{first, Yields, Reads, Reads-pure, Reads-bind, consume_then}
use yasd.Sql.RoundTrip.Loops.{Turns, Turns-first, Turns-next, Reads-Turns}

module _ {N : Type 0} (numbers : Numbers N) (write : N → Text) where
  abbrev pub atom : ℕ → Parse (Where N)
  atom n = parse_not numbers n

  abbrev pub and_next : ℕ → Where N → Parse (Where N)
  and_next n acc = do consume; right ← atom n; pure (and_clause acc right)

  abbrev pub or_next : ℕ → Where N → Parse (Where N)
  or_next n acc = do consume; right ← parse_and numbers (atom n); pure (or_clause acc right)

  -- The tokens `ts` are read as `w` by `parseNotClause`, whatever follows, by the loop of
  -- `parseAndClause`, and by the loop of `parseOrClause` if no `AND` follows.
  abbrev pub NotReads : List Text → Where N → Type 0
  NotReads ts w =
      (n : ℕ) (p : Parser) (rest : List Text)
      → length (ts ++ rest) < n
      → Yields p (ts ++ rest)
      → Reads (atom n) p w rest

  abbrev pub AndTurns : List Text → Where N → Type 0
  AndTurns ts w =
      (n : ℕ) (p : Parser) (rest : List Text)
      → length (ts ++ rest) < n
      → Yields p (ts ++ rest)
      → Turns (is_word (codes "and")) (and_next n) (parse_and numbers (atom n)) p w rest

  abbrev pub OrTurns : List Text → Where N → Type 0
  OrTurns ts w =
      (n : ℕ) (p : Parser) (rest : List Text)
      → length (ts ++ rest) < n
      → Yields p (ts ++ rest)
      → is_word (codes "and") (first rest) ≡ false
      → Turns (is_word (codes "or")) (or_next n) (parse_or numbers (atom n)) p w rest

  pub not_and : (ts : List Text) (w : Where N) → NotReads ts w → AndTurns ts w
  unfolding parse_and
  not_and ts w h n p rest lt y =
      Turns-first (is_word (codes "and")) (and_next n) (atom n) p w rest (h n p rest lt y)

  pub and_or : (ts : List Text) (w : Where N) → AndTurns ts w → OrTurns ts w
  unfolding parse_or
  and_or ts w h n p rest lt y f =
      Turns-first (is_word (codes "or")) (or_next n) (parse_and numbers (atom n)) p w rest
        (Reads-Turns (is_word (codes "and")) (and_next n) _ p w rest (h n p rest lt y) f)

  pub and_step :
      (ts us : List Text) (l r : Where N)
      → AndTurns ts l
      → NotReads us r
      → AndTurns (ts ++ (codes "and" ∷ us)) (and_clause l r)
  unfolding is_word lower lower_char text_eq
  and_step ts us l r h g n p rest lt y =
      let e = append_assoc ts (codes "and" ∷ us) rest in
      let vs = codes "and" ∷ (us ++ rest) in
      let lt' : length (ts ++ vs) < n = subst (λ x. length x < n) e lt in
      Turns-next (is_word (codes "and")) (and_next n) (parse_and numbers (atom n)) p l
        (and_clause l r) vs rest (h n p vs lt' (subst (Yields p) e y)) refl
        (λ q z. consume_then q (codes "and") (us ++ rest) z _ (and_clause l r) rest (λ s v.
          Reads-bind (atom n) (λ right. pure (and_clause l right)) s r (and_clause l r) rest rest
            (g n s rest (omega (arith, lt', length-append ts vs)) v)
            (λ i j. Reads-pure (and_clause l r) i rest j)))
        (omega (arith, length-append us rest))

  pub or_step :
      (ts us : List Text) (l r : Where N)
      → OrTurns ts l
      → AndTurns us r
      → OrTurns (ts ++ (codes "or" ∷ us)) (or_clause l r)
  unfolding is_word lower lower_char text_eq
  or_step ts us l r h g n p rest lt y f =
      let e = append_assoc ts (codes "or" ∷ us) rest in
      let vs = codes "or" ∷ (us ++ rest) in
      let lt' : length (ts ++ vs) < n = subst (λ x. length x < n) e lt in
      Turns-next (is_word (codes "or")) (or_next n) (parse_or numbers (atom n)) p l (or_clause l r)
        vs rest (h n p vs lt' (subst (Yields p) e y) refl) refl
        (λ q z. consume_then q (codes "or") (us ++ rest) z _ (or_clause l r) rest (λ s v.
          Reads-bind (parse_and numbers (atom n)) (λ right. pure (or_clause l right)) s r
            (or_clause l r) rest rest
            (Reads-Turns (is_word (codes "and")) (and_next n) _ s r rest
              (g n s rest (omega (arith, lt', length-append ts vs)) v) f)
            (λ i j. Reads-pure (or_clause l r) i rest j)))
        (omega (arith, length-append us rest))
