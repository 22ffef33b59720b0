-- ===== src/Sql/RoundTrip/Reads.antt =====
-- The tokens that a state of the parser of src/parser.ts still yields, and methods that read them.
use yasd.Prelude.{
  ◌≤◌, ◌≡◌, refl, sym, subst, Bool, true, not, Option, none, some, List, [], ◌∷◌, length, arith,
}
use yasd.Text.{Text}
use yasd.Sql.Result.{ok, expected_token}
use yasd.Sql.Parser.{
  Parser, Parse, pure, raise_if, ◌>>=◌, ◌>>◌, next_token, advance, peek, at, at_word, is_token,
  is_word, token_text, consume, expect,
}
use yasd.Sql.Total.Rules.{left}
use yasd.Sql.Total.Tokens.{Within, next_token-Within}

abbrev pub first : List Text → Option Text
first [] = none
first (t ∷ ts) = some t

-- The state is in front of the tokens `ts`, and the text ends after them.
abbrev pub Yields : Parser → List Text → Type 0
Yields p [] = p.current ≡ none
Yields p (t ∷ ts) = (p.current ≡ some t) × ((q : Parser) × (next_token p.rest ≡ ok q) × Yields q ts)

pub Yields-first : (p : Parser) (ts : List Text) → Yields p ts → p.current ≡ first ts
Yields-first p [] h = h
Yields-first p (t ∷ ts) h = h.0

-- At `p` the method returns `a`, in front of `rest`.
pub record Reads {A : Type 0} (m : Parse A) (p : Parser) (a : A) (rest : List Text) : Type 0 where
  pub state : Parser
  pub returns : m p ≡ ok (a, state)
  pub yields : Yields state rest

module _ {A : Type 0} where
  pub Reads-pure : (a : A) (p : Parser) (ts : List Text) → Yields p ts → Reads (pure a) p a ts
  Reads-pure a p ts h = record { state = p; returns = refl; yields = h }

  module _ {B : Type 0} where
    pub Reads-bind :
        (m : Parse A) (f : A → Parse B) (p : Parser) (a : A) (b : B) (ts us : List Text)
        → Reads m p a ts
        → ((q : Parser) → Yields q ts → Reads (f a) q b us)
        → Reads (m >>= f) p b us
    Reads-bind m f p a b ts us h g =
        let r = g h.state h.yields in
        record { state = r.state; returns = rw (h.returns, ◌>>=◌) r.returns; yields = r.yields }

  -- Looking at the token in front.
  module _ (p : Parser) (a : A) (ts us : List Text) (h : Yields p ts) where
    pub peek-Reads :
        (f : Option Text → Parse A) → Reads (f (first ts)) p a us → Reads (peek >>= f) p a us
    peek-Reads f g = record {
      state = g.state;
      returns = subst (λ o. f o p ≡ ok (a, g.state)) (sym (Yields-first p ts h)) g.returns;
      yields = g.yields;
    }

    pub at-Reads :
        (t : Text) (f : Bool → Parse A)
        → Reads (f (is_token t (first ts))) p a us
        → Reads (at t >>= f) p a us
    at-Reads t f g = record {
      state = g.state;
      returns =
          subst (λ o. f (is_token t o) p ≡ ok (a, g.state)) (sym (Yields-first p ts h)) g.returns;
      yields = g.yields;
    }

    pub at_word-Reads :
        (w : Text) (f : Bool → Parse A)
        → Reads (f (is_word w (first ts))) p a us
        → Reads (at_word w >>= f) p a us
    at_word-Reads w f g = record {
      state = g.state;
      returns =
          subst (λ o. f (is_word w o) p ≡ ok (a, g.state)) (sym (Yields-first p ts h)) g.returns;
      yields = g.yields;
    }

module _ (p : Parser) (t : Text) (ts : List Text) (h : Yields p (t ∷ ts)) where
  Reads-advance : Reads advance p tt ts
  unfolding advance
  Reads-advance = record { state = h.1.0; returns = rw (h.1.1, advance) refl; yields = h.1.2 }

  pub Reads-consume : Reads consume p t ts
  unfolding consume token_text
  Reads-consume =
      peek-Reads p t (t ∷ ts) ts h (λ o. advance >> pure (token_text o))
        (Reads-bind advance (λ _. pure (token_text (some t))) p tt t ts ts Reads-advance
          (λ q g. Reads-pure t q ts g))

  pub Reads-expect : (w : Text) → is_word w (some t) ≡ true → Reads (expect w) p tt ts
  unfolding expect
  Reads-expect w e =
      at_word-Reads p tt (t ∷ ts) ts h w (λ found. raise_if (not found) expected_token >> advance)
        (rw e Reads-advance)

  -- The token in front is read by `consume`, and then the rest.
  pub consume_then :
      {A : Type 0} (m : Parse A) (a : A) (us : List Text)
      → ((q : Parser) → Yields q ts → Reads m q a us)
      → Reads (consume >> m) p a us
  consume_then m a us g = Reads-bind consume (λ _. m) p t a ts us Reads-consume g

  pub expect_then :
      {A : Type 0} (w : Text) (m : Parse A) (a : A) (us : List Text)
      → is_word w (some t) ≡ true
      → ((q : Parser) → Yields q ts → Reads m q a us)
      → Reads (expect w >> m) p a us
  expect_then w m a us e g = Reads-bind (expect w) (λ _. m) p tt a ts us (Reads-expect w e) g

-- There are no more tokens than the parser has text for.
pub Yields-left : (p : Parser) (ts : List Text) → Yields p ts → length ts ≤ left p
Yields-left p [] h = omega arith
Yields-left p (t ∷ ts) (h, (q, e, g)) =
    let fewer : left q ≤ length p.rest =
      subst (Within (length p.rest)) e (next_token-Within p.rest) in
    rw h (omega (arith, fewer, Yields-left q ts g))
