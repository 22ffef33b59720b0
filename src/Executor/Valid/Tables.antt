-- ===== src/Executor/Valid/Tables.antt =====
-- The tables of the database of src/executor.ts behind the change of one.
use yasd.Prelude.{
  ◌≡◌, refl, subst, Bool, true, false, Option, some, List, [], ◌∷◌, arith, if◌then◌else◌, if_rule,
  some_injective,
}
use yasd.Text.{Text, text_eq}
use yasd.Executor.Result.{Result, ok, err, ◌>>=◌}
use yasd.Executor.Maps.{get, put, remove}
use yasd.Executor.Values.{Scalars}
use yasd.Executor.Table.{Table, Database}
use yasd.Executor.Insert.{find_table}
use yasd.Executor.Valid.{IsValid}

-- A chain that gives a value has a value at its first link.
pub bind_ok :
    {A B : Type 0} (first : Result A) (next : A → Result B) (y : B)
    → (first >>= next) ≡ ok y
    → (x : A) × (first ≡ ok x) × (next x ≡ ok y)
bind_ok (err thrown) next y h = absurd (ground arith)
bind_ok (ok x) next y h = (x, refl, h)

module _ {N : Type 0} (scalars : Scalars N) where
  unfoldable pub AreValid : List (Text × Table N) → Type 0
  AreValid [] = Unit {0}
  AreValid ((name, t) ∷ tables) = IsValid scalars t × AreValid tables

  -- Every table is valid.
  unfoldable pub IsSound : Database N → Type 0
  IsSound db = AreValid db.tables

  pub put-AreValid :
      (name : Text) (t : Table N) (ts : List (Text × Table N))
      → IsValid scalars t
      → AreValid ts
      → AreValid (put text_eq name t ts)
  unfolding AreValid put
  put-AreValid name t [] v a = (v, tt)
  put-AreValid name t ((k, u) ∷ ts) v (b, a) =
      if_rule AreValid (text_eq k name) ((k, t) ∷ ts) ((k, u) ∷ put text_eq name t ts) (λ h. (v, a))
        (λ h. (b, put-AreValid name t ts v a))

  pub remove-AreValid :
      (name : Text) (ts : List (Text × Table N)) → AreValid ts → AreValid (remove text_eq name ts)
  unfolding AreValid remove
  remove-AreValid name [] a = tt
  remove-AreValid name ((k, u) ∷ ts) (b, a) =
      if_rule AreValid (text_eq k name) ts ((k, u) ∷ remove text_eq name ts) (λ h. a)
        (λ h. (b, remove-AreValid name ts a))

  entry-IsValid :
      (b : Bool) (u t : Table N) (rest : Option (Table N))
      → IsValid scalars u
      → (rest ≡ some t → IsValid scalars t)
      → (if b then some u else rest) ≡ some t
      → IsValid scalars t
  entry-IsValid true u t rest v f h = subst (IsValid scalars) (some_injective h) v
  entry-IsValid false u t rest v f h = f h

  get-IsValid :
      (name : Text) (t : Table N) (ts : List (Text × Table N))
      → AreValid ts
      → get text_eq name ts ≡ some t
      → IsValid scalars t
  unfolding AreValid get
  get-IsValid name t [] a h = absurd (ground arith)
  get-IsValid name t ((k, u) ∷ ts) (b, a) h =
      entry-IsValid (text_eq k name) u t (get text_eq name ts) b (get-IsValid name t ts a) h

  pub find_table-ok :
      (name : Text) (db : Database N) (t : Table N)
      → find_table name db ≡ ok t
      → get text_eq name db.tables ≡ some t
  find_table-ok name db t h = ground arith

  pub find_table-IsValid :
      (name : Text) (db : Database N) (t : Table N)
      → IsSound db
      → find_table name db ≡ ok t
      → IsValid scalars t
  unfolding IsSound
  find_table-IsValid name db t s h = get-IsValid name t db.tables s (find_table-ok name db t h)

  -- What is checked in front of any change.
  pub checked_rule :
      {A X : Type 0} (db : Database N) (r : Result X) (value : X → A) (change : X → Database N)
      → IsSound db
      → ((x : X) → r ≡ ok x → IsSound (change x))
      → IsSound
          (elim r as (λ r. Result A × Database N) [
            | err e ↦ (err e, db)
            | ok x ↦ (ok (value x), change x)
          ]).1
  checked_rule db (err e) value change s f = s
  checked_rule db (ok x) value change s f = f x refl
