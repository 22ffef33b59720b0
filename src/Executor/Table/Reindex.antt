-- ===== src/Executor/Table/Reindex.antt =====
-- The index entries of a row that an `UPDATE` of src/executor.ts replaces.
use yasd.Prelude.{
  ℕ, ◌≡◌, ◌⊎◌, refl, sym, ap, ◌∙◌, subst, true, false, Option, none, some, List, [], ◌∷◌, map, ◌==◌,
  arith, get_or, Bool-cases, inl, inr,
}
use yasd.Text.{Text, text_eq, text_eq_iff}
use yasd.Sql.Syntax.{Value, null}
use yasd.Executor.Maps.{get, put, has}
use yasd.Executor.Maps.Numbers.{holds}
use yasd.Executor.Maps.Lookup.{IsTest, get-put_other}
use yasd.Executor.Values.{Scalars, Row, values_equal}
use yasd.Executor.Table.{
  Index, positions, field, add_position, drop_position, with_entry, add_index_entry, without_entry,
  remove_index_entry,
}
use yasd.Executor.Table.Growth.{Grows, Grows-refl, Grows-trans}
use yasd.Executor.Table.Entries.{
  Indexes, add_index_entry-Grows, remove_index_entry-Grows, add_index_entry-holds,
}
use yasd.Executor.Collect.{first_of}
use yasd.Executor.Change.{reindex_row, with_set}

module _ {N : Type 0} (scalars : Scalars N) (l : IsTest (values_equal scalars)) where
  with_entry-other :
      (c d : Text) (v : Value N) (id : ℕ) (o : Option (Index N)) (ixs : Indexes scalars l)
      → text_eq d c ≡ false
      → get text_eq c (with_entry scalars d v id o ixs) ≡ get text_eq c ixs
  with_entry-other c d v id none ixs n = refl
  with_entry-other c d v id (some index) ixs n =
      get-put_other text_eq text_eq_iff c d (add_position scalars v id index) ixs n

  without_entry-other :
      (c d : Text) (v : Value N) (id : ℕ) (o : Option (Index N)) (ixs : Indexes scalars l)
      → text_eq d c ≡ false
      → get text_eq c (without_entry scalars d v id o ixs) ≡ get text_eq c ixs
  without_entry-other c d v id none ixs n = refl
  without_entry-other c d v id (some index) ixs n =
      get-put_other text_eq text_eq_iff c d
        (drop_position scalars v id (get (values_equal scalars) v index) index) ixs n

  -- The change of one column.
  moved : Text → ℕ → Row N → Row N → Indexes scalars l → Indexes scalars l
  moved d id old new ixs =
      add_index_entry scalars d (field d new) id (remove_index_entry scalars d (field d old) id ixs)

  moved-other :
      (c d : Text) (id : ℕ) (old new : Row N) (ixs : Indexes scalars l)
      → text_eq d c ≡ false
      → get text_eq c (moved d id old new ixs) ≡ get text_eq c ixs
  unfolding moved add_index_entry remove_index_entry
  moved-other c d id old new ixs n =
      let rest = remove_index_entry scalars d (field d old) id ixs in
      with_entry-other c d (field d new) id (get text_eq d rest) rest n
      ∙ without_entry-other c d (field d old) id (get text_eq d ixs) ixs n

  pub reindex_row-Grows :
      (i : ℕ) (set : List (Text × Value N)) (id : ℕ) (old new : Row N) (ixs : Indexes scalars l)
      → (id == i) ≡ false
      → Grows scalars l i ixs (reindex_row scalars set id old new ixs)
  unfolding reindex_row
  reindex_row-Grows i [] id old new ixs n = Grows-refl scalars l i ixs
  reindex_row-Grows i ((d, v) ∷ set) id old new ixs n =
      let rest = remove_index_entry scalars d (field d old) id ixs in
      let next = add_index_entry scalars d (field d new) id rest in
      Grows-trans scalars l i ixs next (reindex_row scalars set id old new next)
        (Grows-trans scalars l i ixs rest next
          (remove_index_entry-Grows scalars l i d (field d old) id ixs n)
          (add_index_entry-Grows scalars l i d (field d new) id rest))
        (reindex_row-Grows i set id old new next n)

  -- The index of the column, if there is one, has the row under its new value.
  unfoldable pub Ready : Text → ℕ → Row N → Indexes scalars l → Type 0
  Ready c id new ixs =
      (index : Index N)
      → get text_eq c ixs ≡ some index
      → holds id (positions scalars (field c new) index) ≡ true

  moved-Ready :
      (c : Text) (id : ℕ) (old new : Row N) (ixs : Indexes scalars l)
      → Ready c id new (moved c id old new ixs)
  unfolding Ready moved
  moved-Ready c id old new ixs index g =
      add_index_entry-holds scalars l c (field c new) id
        (remove_index_entry scalars c (field c old) id ixs) index g

  kept-Ready :
      (c d : Text) (id : ℕ) (old new : Row N) (ixs : Indexes scalars l)
      → text_eq d c ≡ false
      → Ready c id new ixs
      → Ready c id new (moved d id old new ixs)
  unfolding Ready
  kept-Ready c d id old new ixs n f index g = f index (sym (moved-other c d id old new ixs n) ∙ g)

  pub reindex_row-Ready :
      (c : Text) (set : List (Text × Value N)) (id : ℕ) (old new : Row N) (ixs : Indexes scalars l)
      → Ready c id new ixs ⊎ (has text_eq c (map first_of set) ≡ true)
      → Ready c id new (reindex_row scalars set id old new ixs)
  unfolding reindex_row has moved
  reindex_row-Ready c [] id old new ixs (inl f) = f
  reindex_row-Ready c [] id old new ixs (inr h) = absurd (ground arith)
  reindex_row-Ready c ((d, v) ∷ set) id old new ixs o = elim (Bool-cases (text_eq d c)) [
    | inl e ↦
        let p = (text_eq_iff d c).0 e in
        reindex_row-Ready c set id old new _ (
          inl (
            subst (λ x. Ready c id new (moved x id old new ixs)) (sym p)
              (moved-Ready c id old new ixs)))
    | inr n ↦
        reindex_row-Ready c set id old new _
          (elim o [ inl f ↦ inl (kept-Ready c d id old new ixs n f) | inr h ↦ inr (ground arith) ])
  ]

  -- A column that is not set keeps its value.
  pub field-with_set :
      (c : Text) (set : List (Text × Value N)) (row : Row N)
      → has text_eq c (map first_of set) ≡ false
      → field c (with_set scalars set row) ≡ field c row
  unfolding with_set has field
  field-with_set c [] row h = refl
  field-with_set c ((d, v) ∷ set) row h =
      field-with_set c set (put text_eq d v row) (ground arith)
      ∙ ap (get_or null) (get-put_other text_eq text_eq_iff c d v row (ground arith))
