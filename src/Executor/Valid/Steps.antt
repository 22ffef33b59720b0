-- ===== src/Executor/Valid/Steps.antt =====
-- The tables of src/executor.ts behind the change of one row.
use yasd.Prelude.{
  ℕ, zero, suc, ◌≡◌, sym, ◌∙◌, subst, Bool, true, false, some, List, [], ◌∷◌, map, ◌==◌, ==_iff,
  arith, some_injective, Bool-cases, inl, inr,
}
use yasd.Text.{Text, text_eq}
use yasd.Sql.Syntax.{Value, Column}
use yasd.Executor.Maps.{get, put, remove, has}
use yasd.Executor.Maps.Numbers.{holds}
use yasd.Executor.Maps.Lookup.{get-put_same, get-put_other, get-remove_other}
use yasd.Executor.Values.{Scalars, Row}
use yasd.Executor.Table.{Index, Table, positions, field}
use yasd.Executor.Table.Growth.{Grows}
use yasd.Executor.Table.Entries.{index_row-Grows, index_row-holds, unindex_row-Grows}
use yasd.Executor.Table.Reindex.{reindex_row-Grows, reindex_row-Ready, Ready, field-with_set}
use yasd.Executor.Plan.Covering.{IsLawful, values_equal_iff, AreComplete, Covers}
use yasd.Executor.Insert.{index_row, store_row, store_rows}
use yasd.Executor.Collect.{first_of}
use yasd.Executor.Collect.Sorted.{IsAscending}
use yasd.Executor.Change.{unindex_row, delete_row, reindex_row, replace_row, with_set}
use yasd.Executor.Valid.{AreOfColumns, IsValid}
use yasd.Executor.Valid.Rows.{
  put_new-IsAscending, put_new-AreBelow, put_old-AreBelow, put_old-ids_of, remove-IsAscending,
  remove-AreBelow, get-remove_same,
}

module _ {N : Type 0} (scalars : Scalars N) (l : IsLawful scalars) where
  -- The indexes have every row if the other rows stay and they have the row `id`.
  step-AreComplete :
      (id : ℕ) (rows next : List (ℕ × Row N)) (old new : List (Text × Index N))
      → ((i : ℕ) (row : Row N)
          → (id == i) ≡ false
          → get ◌==◌ i next ≡ some row
          → get ◌==◌ i rows ≡ some row)
      → ((i : ℕ) → (id == i) ≡ false → Grows scalars (values_equal_iff scalars l) i old new)
      → ((c : Text) (index : Index N) (row : Row N)
          → get text_eq c new ≡ some index
          → get ◌==◌ id next ≡ some row
          → holds id (positions scalars (field c row) index) ≡ true)
      → AreComplete scalars rows old
      → AreComplete scalars next new
  unfolding AreComplete Covers Grows
  step-AreComplete id rows next old new others grows own h c index g i row r =
      elim (Bool-cases (id == i)) [
        | inl e ↦
            let p = (==_iff id i).0 e in
            subst (λ j. holds j (positions scalars (field c row) index) ≡ true) p
              (own c index row g (subst (λ j. get ◌==◌ j next ≡ some row) (sym p) r))
        | inr n ↦
            let (was, q, f) = grows i n c index g in
            f (field c row) (h c was q i row (others i row n r))
      ]

  step-AreOfColumns :
      (i : ℕ) (cs : List (Column N)) (old new : List (Text × Index N))
      → Grows scalars (values_equal_iff scalars l) i old new
      → AreOfColumns scalars cs old
      → AreOfColumns scalars cs new
  unfolding AreOfColumns Grows
  step-AreOfColumns i cs old new grows h c index g = let (was, q, f) = grows c index g in h c was q

  pub store_row-IsValid :
      (row : Row N) (t : Table N) → IsValid scalars t → IsValid scalars (store_row scalars row t)
  unfolding IsValid store_row AreOfColumns
  store_row-IsValid row t (a, b, c, d) =
      let id = t.next_row_id in
      let new = index_row scalars t.columns row id t.indexes in
      let grows : (i : ℕ) → Grows scalars (values_equal_iff scalars l) i t.indexes new =
        λ i. index_row-Grows scalars (values_equal_iff scalars l) i t.columns row id t.indexes in
      let columns = step-AreOfColumns zero t.columns t.indexes new (grows zero) d in
      (
        put_new-IsAscending 0 id row t.rows (omega arith) b a,
        put_new-AreBelow id row t.rows b,
        step-AreComplete id t.rows (put ◌==◌ id row t.rows) t.indexes new
            (λ i r n g. sym (get-put_other ◌==◌ ==_iff i id row t.rows n) ∙ g) (λ i n. grows i)
            (λ k index r g p.
              subst (λ x. holds id (positions scalars (field k x) index) ≡ true)
                (some_injective (sym (get-put_same ◌==◌ ==_iff id row t.rows) ∙ p))
                (index_row-holds scalars (values_equal_iff scalars l) k t.columns row id t.indexes
                  index (columns k index g) g))
            c,
        columns,
      )

  pub store_rows-IsValid :
      (rows : List (Row N)) (t : Table N)
      → IsValid scalars t
      → IsValid scalars (store_rows scalars rows t)
  unfolding store_rows
  store_rows-IsValid [] t v = v
  store_rows-IsValid (row ∷ rows) t v =
      store_rows-IsValid rows (store_row scalars row t) (store_row-IsValid row t v)

  differs : (id : ℕ) → (id == suc id) ≡ false
  differs id = ground arith

  pub delete_row-IsValid :
      (id : ℕ) (row : Row N) (t : Table N)
      → IsValid scalars t
      → IsValid scalars (delete_row scalars id row t)
  unfolding IsValid delete_row
  delete_row-IsValid id row t (a, b, c, d) =
      let new = unindex_row scalars t.columns row id t.indexes in
      let grows : (i : ℕ)
          → (id == i) ≡ false
          → Grows scalars (values_equal_iff scalars l) i t.indexes new =
        λ i n.
          unindex_row-Grows scalars (values_equal_iff scalars l) i t.columns row id t.indexes n in
      (
        remove-IsAscending 0 id t.rows a,
        remove-AreBelow t.next_row_id id t.rows b,
        step-AreComplete id t.rows (remove ◌==◌ id t.rows) t.indexes new
            (λ i r n g. sym (get-remove_other ◌==◌ ==_iff i id t.rows n) ∙ g) grows
            (λ k index r g p. absurd (ground (arith, get-remove_same 0 id t.rows a, p))) c,
        step-AreOfColumns (suc id) t.columns t.indexes new (grows (suc id) (differs id)) d,
      )

  -- The index of a column has the replaced row, set or not.
  replaced_holds :
      (set : List (Text × Value N)) (id : ℕ) (old : Row N) (t : Table N)
      → AreComplete scalars t.rows t.indexes
      → get ◌==◌ id t.rows ≡ some old
      → (c : Text)
      → Ready scalars
          (values_equal_iff scalars l)
          c
          id
          (with_set scalars set old)
          (reindex_row scalars set id old (with_set scalars set old) t.indexes)
  unfolding AreComplete Covers Ready
  replaced_holds set id old t h g c =
      reindex_row-Ready scalars (values_equal_iff scalars l) c set id old (with_set scalars set old)
        t.indexes
        (elim (Bool-cases (has text_eq c (map first_of set))) [
          | inl e ↦ inr e
          | inr n ↦ inl (λ index p.
              subst (λ v. holds id (positions scalars v index) ≡ true)
                (sym (field-with_set scalars (values_equal_iff scalars l) c set old n))
                (h c index p id old g))
        ])

  pub replace_row-IsValid :
      (changes : Bool) (set : List (Text × Value N)) (id : ℕ) (old : Row N) (t : Table N)
      → get ◌==◌ id t.rows ≡ some old
      → IsValid scalars t
      → IsValid scalars (replace_row scalars changes set id old (with_set scalars set old) t)
  unfolding IsValid replace_row Ready
  replace_row-IsValid changes set id old t g (a, b, c, d) =
      let row = with_set scalars set old in
      let new = reindex_row scalars set id old row t.indexes in
      let grows : (i : ℕ)
          → (id == i) ≡ false
          → Grows scalars (values_equal_iff scalars l) i t.indexes new =
        λ i n.
          reindex_row-Grows scalars (values_equal_iff scalars l) i set id old row t.indexes n in
      (
        subst (IsAscending 0) (sym (put_old-ids_of id old row t.rows g)) a,
        put_old-AreBelow t.next_row_id id old row t.rows g b,
        step-AreComplete id t.rows (put ◌==◌ id row t.rows) t.indexes new
            (λ i r n p. sym (get-put_other ◌==◌ ==_iff i id row t.rows n) ∙ p) grows
            (λ k index r p q.
              subst (λ x. holds id (positions scalars (field k x) index) ≡ true)
                (some_injective (sym (get-put_same ◌==◌ ==_iff id row t.rows) ∙ q))
                (replaced_holds set id old t c g k index p))
            c,
        step-AreOfColumns (suc id) t.columns t.indexes new (grows (suc id) (differs id)) d,
      )
