-- ===== src/Executor/Result.antt =====
-- What the executor of src/executor.ts throws, one constructor for each condition, and results.
use yasd.Prelude.{◌≡◌, ap, Bool, true, false}

pub data SqlError : Type 0 where
  table_not_found table_exists column_not_found duplicate_column row_arity : SqlError
  not_null_constraint primary_key_null primary_key_duplicate type_constraint limit_exceeded :
      SqlError

pub data Result {ℓ} (A : Type ℓ) : Type ℓ where
  ok : A → Result A
  err : SqlError → Result A

-- `throw` under a condition.
abbrev pub throw_if : Bool → SqlError → Result (Unit {0})
throw_if true e = err e
throw_if false e = ok tt

abbrev ok_or {ℓ} : {A : Type ℓ} → A → Result A → A
ok_or a (ok b) = b
ok_or a (err e) = a

pub ok_injective {ℓ} : {A : Type ℓ} {a b : A} → ok a ≡ ok b → a ≡ b
ok_injective {a = a} h = ap (ok_or a) h

-- What comes behind an exception is not carried out.
abbrev pub ◌>>=◌ : {A B : Type 0} → Result A → (A → Result B) → Result B
err thrown >>= next = err thrown
ok value >>= next = next value

abbrev pub ◌>>◌ : {B : Type 0} → Result (Unit {0}) → Result B → Result B
checked >> next = checked >>= λ u. next

infixl 5 ◌>>=◌ ◌>>◌
