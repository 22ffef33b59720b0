-- ===== src/Executor/Valid/Counted.antt =====
-- The counters of src/executor.ts and the tables that they count.
use yasd.Prelude.{
  ℕ, ◌+◌, ◌≤◌, ◌≡◌, refl, subst, Bool, true, false, Option, some, List, [], ◌∷◌, if◌then◌else◌,
  if_rule, arith, some_injective,
}
use yasd.Text.{Text, text_eq}
use yasd.Executor.Result.{Result, ok, err}
use yasd.Executor.Maps.{get, put, remove}
use yasd.Executor.Maps.Weights.{total, total-put_old, total-remove}
use yasd.Executor.Values.{Scalars}
use yasd.Executor.Table.{Table, Database}
use yasd.Executor.Insert.{put_table}
use yasd.Executor.Valid.Sizes.{rows_in, bytes_in, IsSized}

module _ {N : Type 0} (scalars : Scalars N) where
  unfoldable pub AreSized : List (Text × Table N) → Type 0
  AreSized [] = Unit {0}
  AreSized ((name, t) ∷ ts) = IsSized scalars t × AreSized ts

  -- The counters are the sums over the tables, and each table knows the bytes of its rows.
  unfoldable pub IsCounted : Database N → Type 0
  IsCounted db =
      (db.stored_rows ≡ total (rows_in scalars) db.tables)
      × (db.stored_bytes ≡ total (bytes_in scalars) db.tables)
      × AreSized db.tables

  pub put-AreSized :
      (name : Text) (t : Table N) (ts : List (Text × Table N))
      → IsSized scalars t
      → AreSized ts
      → AreSized (put text_eq name t ts)
  unfolding AreSized put
  put-AreSized name t [] z a = (z, tt)
  put-AreSized name t ((k, u) ∷ ts) z (b, a) =
      if_rule AreSized (text_eq k name) ((k, t) ∷ ts) ((k, u) ∷ put text_eq name t ts) (λ h. (z, a))
        (λ h. (b, put-AreSized name t ts z a))

  pub remove-AreSized :
      (name : Text) (ts : List (Text × Table N)) → AreSized ts → AreSized (remove text_eq name ts)
  unfolding AreSized remove
  remove-AreSized name [] a = tt
  remove-AreSized name ((k, u) ∷ ts) (b, a) =
      if_rule AreSized (text_eq k name) ts ((k, u) ∷ remove text_eq name ts) (λ h. a)
        (λ h. (b, remove-AreSized name ts a))

  entry-IsSized :
      (b : Bool) (u t : Table N) (rest : Option (Table N))
      → IsSized scalars u
      → (rest ≡ some t → IsSized scalars t)
      → (if b then some u else rest) ≡ some t
      → IsSized scalars t
  entry-IsSized true u t rest z f h = subst (IsSized scalars) (some_injective h) z
  entry-IsSized false u t rest z f h = f h

  get-IsSized :
      (name : Text) (t : Table N) (ts : List (Text × Table N))
      → AreSized ts
      → get text_eq name ts ≡ some t
      → IsSized scalars t
  unfolding AreSized get
  get-IsSized name t [] a h = absurd (ground arith)
  get-IsSized name t ((k, u) ∷ ts) (b, a) h =
      entry-IsSized (text_eq k name) u t (get text_eq name ts) b (get-IsSized name t ts a) h

  pub sized :
      (name : Text) (t : Table N) (db : Database N)
      → get text_eq name db.tables ≡ some t
      → IsCounted db
      → IsSized scalars t
  unfolding IsCounted
  sized name t db g c = get-IsSized name t db.tables c.2 g

  -- A table in place of another, with the counters that its change makes.
  pub put-IsCounted :
      (name : Text) (t u : Table N) (db : Database N) (r b : ℕ)
      → get text_eq name db.tables ≡ some t
      → r + rows_in scalars t ≡ db.stored_rows + rows_in scalars u
      → b + bytes_in scalars t ≡ db.stored_bytes + bytes_in scalars u
      → IsSized scalars u
      → IsCounted db
      → IsCounted (record (put_table name u db) { stored_rows = r; stored_bytes = b })
  unfolding IsCounted
  put-IsCounted name t u db r b g h k z (x, y, a) = (
    omega (arith, x, h, total-put_old text_eq (rows_in scalars) name t u db.tables g),
    omega (arith, y, k, total-put_old text_eq (bytes_in scalars) name t u db.tables g),
    put-AreSized name u db.tables z a,
  )

  pub checked-IsCounted :
      {A X : Type 0} (db : Database N) (r : Result X) (value : X → A) (change : X → Database N)
      → IsCounted db
      → ((x : X) → r ≡ ok x → IsCounted (change x))
      → IsCounted
          (elim r as (λ r. Result A × Database N) [
            | err e ↦ (err e, db)
            | ok x ↦ (ok (value x), change x)
          ]).1
  checked-IsCounted db (err e) value change s f = s
  checked-IsCounted db (ok x) value change s f = f x refl

  pub at_most_rows :
      (name : Text) (t : Table N) (db : Database N)
      → get text_eq name db.tables ≡ some t
      → IsCounted db
      → rows_in scalars t ≤ db.stored_rows
  unfolding IsCounted
  at_most_rows name t db g c =
      omega (arith, c.0, total-remove text_eq (rows_in scalars) name t db.tables g)

  pub at_most_bytes :
      (name : Text) (t : Table N) (db : Database N)
      → get text_eq name db.tables ≡ some t
      → IsCounted db
      → bytes_in scalars t ≤ db.stored_bytes
  unfolding IsCounted
  at_most_bytes name t db g c =
      omega (arith, c.1, total-remove text_eq (bytes_in scalars) name t db.tables g)
