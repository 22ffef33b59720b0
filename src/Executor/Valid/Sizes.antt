-- ===== src/Executor/Valid/Sizes.antt =====
-- The numbers of rows and of bytes of a table of src/executor.ts.
use yasd.Prelude.{
  ℕ, ◌+◌, ◌≡◌, refl, ap, Bool, true, false, Option, some, List, [], ◌∷◌, length, ◌==◌,
  if◌then◌else◌, arith, some_injective,
}
use yasd.Executor.Maps.{get, put, remove}
use yasd.Executor.Maps.Weights.{total}
use yasd.Executor.Values.{Scalars, Row}
use yasd.Executor.Table.{Table}
use yasd.Executor.Schema.{all_bytes}

module _ {N : Type 0} (scalars : Scalars N) where
  abbrev pub one : Row N → ℕ
  one row = 1

  abbrev pub rows_in : Table N → ℕ
  rows_in t = total one t.rows

  abbrev pub bytes_in : Table N → ℕ
  bytes_in t = total scalars.row_bytes t.rows

  pub total-length : (rows : List (ℕ × Row N)) → total one rows ≡ length rows
  unfolding total
  total-length [] = refl
  total-length ((id, row) ∷ rows) = omega (arith, total-length rows)

  -- The bytes of each row, as `rowBytes` keeps them.
  unfoldable pub sizes_of : List (ℕ × Row N) → List (ℕ × ℕ)
  sizes_of [] = []
  sizes_of ((id, row) ∷ rows) = (id, scalars.row_bytes row) ∷ sizes_of rows

  unfoldable pub IsSized : Table N → Type 0
  IsSized t = t.row_bytes ≡ sizes_of t.rows

  put_under :
      (b : Bool) (id : ℕ) (new old : Row N) (rows next : List (ℕ × Row N)) (ns : List (ℕ × ℕ))
      → ns ≡ sizes_of next
      → (if b
          then (id, scalars.row_bytes new) ∷ sizes_of rows
          else (id, scalars.row_bytes old) ∷ ns)
        ≡ sizes_of (if b then (id, new) ∷ rows else (id, old) ∷ next)
  unfolding sizes_of
  put_under true id new old rows next ns e = refl
  put_under false id new old rows next ns e = ap (◌∷◌ (id, scalars.row_bytes old)) e

  remove_under :
      (b : Bool) (id : ℕ) (old : Row N) (rows next : List (ℕ × Row N)) (ns : List (ℕ × ℕ))
      → ns ≡ sizes_of next
      → (if b then sizes_of rows else (id, scalars.row_bytes old) ∷ ns)
        ≡ sizes_of (if b then rows else (id, old) ∷ next)
  unfolding sizes_of
  remove_under true id old rows next ns e = refl
  remove_under false id old rows next ns e = ap (◌∷◌ (id, scalars.row_bytes old)) e

  get_under :
      (b : Bool) (r row : Row N) (o : Option (Row N)) (n : Option ℕ)
      → (o ≡ some row → n ≡ some (scalars.row_bytes row))
      → (if b then some r else o) ≡ some row
      → (if b then some (scalars.row_bytes r) else n) ≡ some (scalars.row_bytes row)
  get_under true r row o n f g = ap (λ x. some (scalars.row_bytes x)) (some_injective g)
  get_under false r row o n f g = f g

  pub sizes_of-put :
      (id : ℕ) (row : Row N) (rows : List (ℕ × Row N))
      → put ◌==◌ id (scalars.row_bytes row) (sizes_of rows) ≡ sizes_of (put ◌==◌ id row rows)
  unfolding sizes_of put
  sizes_of-put id row [] = refl
  sizes_of-put id row ((j, r) ∷ rows) =
      put_under (j == id) j row r rows (put ◌==◌ id row rows)
        (put ◌==◌ id (scalars.row_bytes row) (sizes_of rows)) (sizes_of-put id row rows)

  pub sizes_of-remove :
      (id : ℕ) (rows : List (ℕ × Row N))
      → remove ◌==◌ id (sizes_of rows) ≡ sizes_of (remove ◌==◌ id rows)
  unfolding sizes_of remove
  sizes_of-remove id [] = refl
  sizes_of-remove id ((j, r) ∷ rows) =
      remove_under (j == id) j r rows (remove ◌==◌ id rows) (remove ◌==◌ id (sizes_of rows))
        (sizes_of-remove id rows)

  pub get-sizes_of :
      (id : ℕ) (row : Row N) (rows : List (ℕ × Row N))
      → get ◌==◌ id rows ≡ some row
      → get ◌==◌ id (sizes_of rows) ≡ some (scalars.row_bytes row)
  unfolding sizes_of get
  get-sizes_of id row [] g = absurd (ground arith)
  get-sizes_of id row ((j, r) ∷ rows) g =
      get_under (j == id) r row (get ◌==◌ id rows) (get ◌==◌ id (sizes_of rows))
        (get-sizes_of id row rows) g

  pub all_bytes-sizes_of :
      (rows : List (ℕ × Row N)) → all_bytes (sizes_of rows) ≡ total scalars.row_bytes rows
  unfolding all_bytes sizes_of total
  all_bytes-sizes_of [] = refl
  all_bytes-sizes_of ((id, row) ∷ rows) = ap (◌+◌ (scalars.row_bytes row)) (all_bytes-sizes_of rows)
