-- ===== src/Sql/RoundTrip/Loops.antt =====
-- The loops of src/parser.ts over a separating word or symbol, on tokens that are known.
use yasd.Prelude.{
  ℕ, zero, suc, ◌<◌, ◌≡◌, refl, ap, ◌∙◌, Bool, true, false, Option, List, length, arith,
}
use yasd.Text.{Text}
use yasd.Sql.Result.{ok}
use yasd.Sql.Parser.{Parser, Parse, ◌>>=◌, size, rounds, repeat}
use yasd.Sql.Total.Methods.{left_size}
use yasd.Sql.RoundTrip.Reads.{first, Yields, Yields-first, Yields-left, Reads}

module _ {A : Type 0} (test : Option Text → Bool) (body : A → Parse A) where
  -- The loop over a test of the token in front.
  abbrev look : Parse Bool
  look p = ok (test p.current, p)

  pub rounds_stop :
      (k : ℕ) (a : A) (p : Parser) (ts : List Text)
      → Yields p ts
      → test (first ts) ≡ false
      → rounds look body k a p ≡ ok (a, p)
  unfolding rounds
  rounds_stop zero a p ts y h = rw (Yields-first p ts y, h) refl
  rounds_stop (suc k) a p ts y h = rw (Yields-first p ts y, h) refl

  -- At `p` the method does what is left of the loop: `k` rounds at most, from `a` and in front of `rest`.
  pub record Turns (m : Parse A) (p : Parser) (a : A) (rest : List Text) : Type 0 where
    pub fuel : ℕ
    pub state : Parser
    pub returns : m p ≡ rounds look body fuel a state
    pub yields : Yields state rest
    pub enough : length rest < fuel

  pub Turns-repeat :
      (a : A) (p : Parser) (rest : List Text) → Yields p rest → Turns (repeat look body a) p a rest
  unfolding repeat
  Turns-repeat a p rest y = record {
    fuel = size p;
    state = p;
    returns = refl;
    yields = y;
    enough = omega (arith, Yields-left p rest y, left_size p.current p.rest);
  }

  -- The first operand, in front of the loop.
  pub Turns-first :
      (m : Parse A) (p : Parser) (a : A) (rest : List Text)
      → Reads m p a rest
      → Turns (m >>= λ b. repeat look body b) p a rest
  unfolding repeat
  Turns-first m p a rest r = record {
    fuel = size r.state;
    state = r.state;
    returns = rw (r.returns, ◌>>=◌) refl;
    yields = r.yields;
    enough =
        omega (arith, Yields-left r.state rest r.yields, left_size r.state.current r.state.rest);
  }

  round :
      (k : ℕ) (a b : A) (q s : Parser)
      → test q.current ≡ true
      → body a q ≡ ok (b, s)
      → rounds look body (suc k) a q ≡ rounds look body k b s
  unfolding rounds
  round k a b q s h e = rw (h, ◌>>=◌, e) refl

  turn :
      (k : ℕ) (m : Parse A) (p q : Parser) (a b : A) (ts rest : List Text)
      → m p ≡ rounds look body k a q
      → Yields q ts
      → length ts < k
      → test (first ts) ≡ true
      → Reads (body a) q b rest
      → length rest < length ts
      → Turns m p b rest
  turn zero m p q a b ts rest e y lt h r le = absurd (omega arith)
  turn (suc k) m p q a b ts rest e y lt h r le = record {
    fuel = k;
    state = r.state;
    returns = e ∙ round k a b q r.state (ap test (Yields-first q ts y) ∙ h) r.returns;
    yields = r.yields;
    enough = omega arith;
  }

  -- One more round.
  pub Turns-next :
      (m : Parse A) (p : Parser) (a b : A) (ts rest : List Text)
      → Turns m p a ts
      → test (first ts) ≡ true
      → ((q : Parser) → Yields q ts → Reads (body a) q b rest)
      → length rest < length ts
      → Turns m p b rest
  Turns-next m p a b ts rest t h r lt =
      turn t.fuel m p t.state a b ts rest t.returns t.yields t.enough h (r t.state t.yields) lt

  -- The end of the loop.
  pub Reads-Turns :
      (m : Parse A) (p : Parser) (a : A) (rest : List Text)
      → Turns m p a rest
      → test (first rest) ≡ false
      → Reads m p a rest
  Reads-Turns m p a rest t h = record {
    state = t.state;
    returns = t.returns ∙ rounds_stop t.fuel a t.state rest t.yields h;
    yields = t.yields;
  }
