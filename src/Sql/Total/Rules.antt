-- ===== src/Sql/Total/Rules.antt =====
-- The rules for what a method of src/parser.ts leaves of the text, and whether its fuel is enough.
use yasd.Prelude.{
  ℕ, suc, ◌+◌, ◌≤◌, ◌<◌, ◌≡◌, refl, Bool, true, false, Option, none, some, length, arith,
  if◌then◌else◌,
}
use yasd.Text.{Text}
use yasd.Sql.Result.{ParseError, Result, ok, err, out_of_fuel}
use yasd.Sql.Parser.{Parser, Parse, pure, raise, raise_if, ◌>>=◌}

-- The tokens that may be left: the text, and the current token.
abbrev pub token_count : Option Text → ℕ
token_count none = 0
token_count (some t) = 1

abbrev pub left : Parser → ℕ
left p = length p.rest + token_count p.current

abbrev pub is_fuel : ParseError → Bool
is_fuel out_of_fuel = true
is_fuel _ = false

-- The result left fewer than `b` tokens, or is an exception of the source.
abbrev pub Ends : {A : Type 0} → ℕ → Result (A × Parser) → Type 0
Ends b (ok (a, q)) = left q < b
Ends b (err e) = is_fuel e ≡ false

module _ {A : Type 0} where
  -- From fewer than `k` tokens the method returns with no more, or throws as the source does.
  pub record Safe (k : ℕ) (m : Parse A) : Type 0 where
    pub from : (p : Parser) → left p < k → Ends (suc (left p)) (m p)

  -- The same with fewer tokens.
  pub record Strict (k : ℕ) (m : Parse A) : Type 0 where
    pub from : (p : Parser) → left p < k → Ends (left p) (m p)

  pub Ends-mono : (b c : ℕ) (r : Result (A × Parser)) → b ≤ c → Ends b r → Ends c r
  Ends-mono b c (ok (a, q)) le h = omega arith
  Ends-mono b c (err e) le h = h

  pub Strict-Safe : {k : ℕ} {m : Parse A} → Strict k m → Safe k m
  Strict-Safe {m = m} h = record {
    from = λ p lt. Ends-mono (left p) (suc (left p)) (m p) (omega arith) (h.from p lt);
  }

  pub Safe-pure : {k : ℕ} (a : A) → Safe k (pure a)
  Safe-pure a = record { from = λ p lt. omega arith }

  pub Strict-raise : {k : ℕ} (e : ParseError) → is_fuel e ≡ false → Strict k (raise {A = A} e)
  Strict-raise e h = record { from = λ p lt. h }

  pub Safe-raise : {k : ℕ} (e : ParseError) → is_fuel e ≡ false → Safe k (raise {A = A} e)
  Safe-raise e h = record { from = λ p lt. h }

  pub Safe-if :
      {k : ℕ} (b : Bool) (m n : Parse A) → Safe k m → Safe k n → Safe k (if b then m else n)
  Safe-if true m n h g = h
  Safe-if false m n h g = g

  pub Strict-if :
      {k : ℕ} (b : Bool) (m n : Parse A) → Strict k m → Strict k n → Strict k (if b then m else n)
  Strict-if true m n h g = h
  Strict-if false m n h g = g

pub Safe-raise_if : {k : ℕ} (b : Bool) (e : ParseError) → is_fuel e ≡ false → Safe k (raise_if b e)
Safe-raise_if true e h = record { from = λ p lt. h }
Safe-raise_if false e h = record { from = λ p lt. omega arith }

module _ {A B : Type 0} where
  pub bind_Ends :
      (b c : ℕ) (f : A → Parse B) (r : Result (A × Parser)) (p : Parser)
      → Ends b r
      → ((a : A) (q : Parser) → r ≡ ok (a, q) → left q < b → Ends c (f a q))
      → Ends c (((λ (_ : Parser). r) >>= f) p)
  bind_Ends b c f (ok (a, q)) p h g = g a q refl h
  bind_Ends b c f (err e) p h g = h

  pub Safe-bind :
      {k : ℕ} (m : Parse A) (f : A → Parse B)
      → Safe k m
      → ((a : A) → Safe k (f a))
      → Safe k (m >>= f)
  Safe-bind m f h g = record {
    from = λ p lt. bind_Ends (suc (left p)) (suc (left p)) f (m p) p (h.from p lt) (λ a q e le.
        Ends-mono (suc (left q)) (suc (left p)) (f a q) (omega arith) ((g a).from q (omega arith)));
  }

  -- A token is read, and the rest is safe.
  pub Strict-then :
      {k : ℕ} (m : Parse A) (f : A → Parse B)
      → Strict k m
      → ((a : A) → Safe k (f a))
      → Strict k (m >>= f)
  Strict-then m f h g = record {
    from = λ p lt. bind_Ends (left p) (left p) f (m p) p (h.from p lt) (λ a q e le.
        Ends-mono (suc (left q)) (left p) (f a q) (omega arith) ((g a).from q (omega arith)));
  }

  -- A token is read, so the rest starts from fewer.
  pub Strict-descend :
      {k : ℕ} (m : Parse A) (f : A → Parse B)
      → Strict (suc k) m
      → ((a : A) → Safe k (f a))
      → Strict (suc k) (m >>= f)
  Strict-descend m f h g = record {
    from = λ p lt. bind_Ends (left p) (left p) f (m p) p (h.from p lt) (λ a q e le.
        Ends-mono (suc (left q)) (left p) (f a q) (omega arith) ((g a).from q (omega arith)));
  }

  -- A token is read later.
  pub Strict-bind :
      {k : ℕ} (m : Parse A) (f : A → Parse B)
      → Safe k m
      → ((a : A) → Strict k (f a))
      → Strict k (m >>= f)
  Strict-bind m f h g = record {
    from = λ p lt. bind_Ends (suc (left p)) (left p) f (m p) p (h.from p lt) (λ a q e le.
        Ends-mono (left q) (left p) (f a q) (omega arith) ((g a).from q (omega arith)));
  }
