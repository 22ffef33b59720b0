-- ===== src/Executor/Valid/Counts.antt =====
-- The numbers of rows and of bytes of a table of src/executor.ts behind a change.
use yasd.Prelude.{
  ℕ, ◌+◌, ◌-◌, ◌≤◌, ◌≡◌, refl, ap, ◌∙◌, Bool, none, List, [], ◌∷◌, map, length, ◌==◌, arith, get_or,
}
use yasd.Text.{Text}
use yasd.Sql.Syntax.{Value}
use yasd.Executor.Maps.{get, put, remove}
use yasd.Executor.Maps.Weights.{total, total-put_new, total-put_old, total-remove}
use yasd.Executor.Values.{Scalars, Row}
use yasd.Executor.Table.{Table}
use yasd.Executor.Insert.{store_row, store_rows, bytes_of}
use yasd.Executor.Change.{
  replace_row, replace_rows, delete_row, delete_rows, with_set, old_bytes, updates_of, size_at,
  row_of,
}
use yasd.Executor.Plan.Covering.{IsLawful}
use yasd.Executor.Valid.{AreBelow, IsValid}
use yasd.Executor.Valid.Steps.{store_row-IsValid}
use yasd.Executor.Valid.Staged.{Staged, put-Staged, remove-Staged}
use yasd.Executor.Valid.Sizes.{
  one, rows_in, bytes_in, IsSized, sizes_of-put, sizes_of-remove, get-sizes_of,
}

module _ {N : Type 0} (scalars : Scalars N) where
  fresh_id : (m n : ℕ) (rows : List (ℕ × Row N)) → m ≤ n → AreBelow m rows → get ◌==◌ n rows ≡ none
  unfolding AreBelow get
  fresh_id m n [] h b = refl
  fresh_id m n ((j, r) ∷ rows) h (l, b) = ground (arith, fresh_id m n rows h b)

  pub store_rows-counts :
      (rows : List (Row N)) (t : Table N)
      → IsLawful scalars
      → IsValid scalars t
      → IsSized scalars t
      → (rows_in scalars (store_rows scalars rows t) ≡ rows_in scalars t + length rows)
        × (bytes_in scalars (store_rows scalars rows t)
            ≡ bytes_in scalars t + bytes_of scalars rows)
        × IsSized scalars (store_rows scalars rows t)
  unfolding store_rows store_row bytes_of IsValid IsSized
  store_rows-counts [] t l v z = (omega arith, omega arith, z)
  store_rows-counts (row ∷ rows) t l v z =
      let id = t.next_row_id in
      let g = fresh_id id id t.rows (omega arith) v.1 in
      let (a, b, c) =
        store_rows-counts rows (store_row scalars row t) l (store_row-IsValid scalars l row t v)
          (ap (put ◌==◌ id (scalars.row_bytes row)) z ∙ sizes_of-put scalars id row t.rows) in
      (
        omega (arith, a, total-put_new ◌==◌ (one scalars) id row t.rows g),
        omega (arith, b, total-put_new ◌==◌ scalars.row_bytes id row t.rows g),
        c,
      )

  pub old_bytes-total :
      (t : Table N) (ps : List (ℕ × Row N))
      → IsSized scalars t
      → Staged t.rows ps
      → old_bytes scalars t.row_bytes ps ≡ total scalars.row_bytes ps
  unfolding old_bytes total Staged IsSized
  old_bytes-total t [] z s = refl
  old_bytes-total t ((id, row) ∷ ps) z (g, n, s) =
      let e =
        ap (λ m. get_or 0 (get ◌==◌ id m)) z
        ∙ ap (get_or 0) (get-sizes_of scalars id row t.rows g) in
      omega (arith, e, old_bytes-total t ps z s)

  pub replace_rows-counts :
      (changes : Bool) (set : List (Text × Value N)) (ps : List (ℕ × Row N)) (t : Table N)
      → Staged t.rows ps
      → IsSized scalars t
      → (rows_in scalars (replace_rows scalars changes set ps t) ≡ rows_in scalars t)
        × (bytes_in scalars (replace_rows scalars changes set ps t) + total scalars.row_bytes ps
            ≡ bytes_in scalars t + bytes_of scalars (map row_of (updates_of scalars set ps)))
        × IsSized scalars (replace_rows scalars changes set ps t)
  unfolding replace_rows replace_row total bytes_of updates_of Staged IsSized
  replace_rows-counts changes set [] t s z = (refl, refl, z)
  replace_rows-counts changes set ((id, old) ∷ ps) t (g, n, s) z =
      let row = with_set scalars set old in
      let (a, b, c) =
        replace_rows-counts changes set ps (replace_row scalars changes set id old row t)
          (put-Staged id row t.rows ps n s)
          (ap (put ◌==◌ id (scalars.row_bytes row)) z ∙ sizes_of-put scalars id row t.rows) in
      (
        omega (arith, a, total-put_old ◌==◌ (one scalars) id old row t.rows g),
        omega (arith, b, total-put_old ◌==◌ scalars.row_bytes id old row t.rows g),
        c,
      )

  -- The counters behind the loop fall as the table does.
  abbrev pub Falls : ℕ → ℕ → Table N → Table N × (ℕ × ℕ) → Type 0
  Falls r b t p =
      (p.1.0 + rows_in scalars t ≡ r + rows_in scalars p.0)
      × (p.1.1 + bytes_in scalars t ≡ b + bytes_in scalars p.0)
      × IsSized scalars p.0

  pub delete_rows-Falls :
      (ps : List (ℕ × Row N)) (t : Table N) (r b : ℕ)
      → Staged t.rows ps
      → IsSized scalars t
      → rows_in scalars t ≤ r
      → bytes_in scalars t ≤ b
      → Falls r b t (delete_rows scalars ps t (r, b))
  unfolding delete_rows delete_row Staged IsSized
  delete_rows-Falls [] t r b s z h k = (refl, refl, z)
  delete_rows-Falls ((id, row) ∷ ps) t r b (g, n, s) z h k =
      let e : size_at scalars id t.row_bytes ≡ scalars.row_bytes row =
        ap (λ m. get_or 0 (get ◌==◌ id m)) z
        ∙ ap (get_or 0) (get-sizes_of scalars id row t.rows g) in
      let p = total-remove ◌==◌ (one scalars) id row t.rows g in
      let q = total-remove ◌==◌ scalars.row_bytes id row t.rows g in
      let (x, y, c) =
        delete_rows-Falls ps (delete_row scalars id row t) (r - 1)
          (b - size_at scalars id t.row_bytes) (remove-Staged id t.rows ps n s)
          (ap (remove ◌==◌ id) z ∙ sizes_of-remove scalars id t.rows) (omega (arith, p))
          (omega (arith, q, e)) in
      (omega (arith, x, p), omega (arith, y, q, e), c)
