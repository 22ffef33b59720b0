-- ===== src/Executor/Table/Entries.antt =====
-- The index entries of the rows of src/executor.ts.
use yasd.Prelude.{
  ℕ, ◌≡◌, refl, sym, ◌∙◌, subst, true, false, Option, none, some, List, [], ◌∷◌, map, ◌==◌, arith,
  some_injective, Bool-cases, inl, inr,
}
use yasd.Text.{Text, text_eq, text_eq_iff}
use yasd.Sql.Syntax.{Value, Column}
use yasd.Executor.Maps.{get, has}
use yasd.Executor.Maps.Numbers.{holds}
use yasd.Executor.Maps.Lookup.{IsTest, get-put_same}
use yasd.Executor.Values.{Scalars, Row, values_equal}
use yasd.Executor.Table.{
  Index, positions, field, add_position, drop_position, with_entry, add_index_entry, without_entry,
  remove_index_entry,
}
use yasd.Executor.Table.Growth.{
  Grows, Grows-refl, Grows-trans, put-Grows, add_position-keeps, add_position-holds,
  drop_position-keeps,
}
use yasd.Executor.Insert.{index_row}
use yasd.Executor.Change.{unindex_row}

module _ {N : Type 0} (scalars : Scalars N) (l : IsTest (values_equal scalars)) where
  abbrev pub Indexes : Type 0
  Indexes = List (Text × Index N)

  pub with_entry-Grows :
      (i : ℕ) (c : Text) (v : Value N) (id : ℕ) (ixs : Indexes) (o : Option (Index N))
      → get text_eq c ixs ≡ o
      → Grows scalars l i ixs (with_entry scalars c v id o ixs)
  with_entry-Grows i c v id ixs none g = Grows-refl scalars l i ixs
  with_entry-Grows i c v id ixs (some index) g =
      put-Grows scalars l i c index (add_position scalars v id index) ixs g
        (λ u h. add_position-keeps scalars l i id u v index h)

  pub add_index_entry-Grows :
      (i : ℕ) (c : Text) (v : Value N) (id : ℕ) (ixs : Indexes)
      → Grows scalars l i ixs (add_index_entry scalars c v id ixs)
  unfolding add_index_entry
  add_index_entry-Grows i c v id ixs = with_entry-Grows i c v id ixs (get text_eq c ixs) refl

  without_entry-Grows :
      (i : ℕ) (c : Text) (v : Value N) (id : ℕ) (ixs : Indexes) (o : Option (Index N))
      → (id == i) ≡ false
      → get text_eq c ixs ≡ o
      → Grows scalars l i ixs (without_entry scalars c v id o ixs)
  without_entry-Grows i c v id ixs none n g = Grows-refl scalars l i ixs
  without_entry-Grows i c v id ixs (some index) n g =
      put-Grows scalars l i c index
        (drop_position scalars v id (get (values_equal scalars) v index) index) ixs g
        (λ u h.
          drop_position-keeps scalars l i id u v index (get (values_equal scalars) v index) n refl
            h)

  pub remove_index_entry-Grows :
      (i : ℕ) (c : Text) (v : Value N) (id : ℕ) (ixs : Indexes)
      → (id == i) ≡ false
      → Grows scalars l i ixs (remove_index_entry scalars c v id ixs)
  unfolding remove_index_entry
  remove_index_entry-Grows i c v id ixs n =
      without_entry-Grows i c v id ixs (get text_eq c ixs) n refl

  with_entry-holds :
      (c : Text) (v : Value N) (id : ℕ) (ixs : Indexes) (o : Option (Index N)) (index : Index N)
      → get text_eq c ixs ≡ o
      → get text_eq c (with_entry scalars c v id o ixs) ≡ some index
      → holds id (positions scalars v index) ≡ true
  with_entry-holds c v id ixs none index e g = absurd (ground (arith, e, g))
  with_entry-holds c v id ixs (some was) index e g =
      subst (λ x. holds id (positions scalars v x) ≡ true)
        (some_injective
          (sym (get-put_same text_eq text_eq_iff c (add_position scalars v id was) ixs) ∙ g))
        (add_position-holds scalars l v id was)

  -- The index of the column has the row behind the change.
  pub add_index_entry-holds :
      (c : Text) (v : Value N) (id : ℕ) (ixs : Indexes) (index : Index N)
      → get text_eq c (add_index_entry scalars c v id ixs) ≡ some index
      → holds id (positions scalars v index) ≡ true
  unfolding add_index_entry
  add_index_entry-holds c v id ixs index g =
      with_entry-holds c v id ixs (get text_eq c ixs) index refl g

  pub index_row-Grows :
      (i : ℕ) (cs : List (Column N)) (row : Row N) (id : ℕ) (ixs : Indexes)
      → Grows scalars l i ixs (index_row scalars cs row id ixs)
  unfolding index_row
  index_row-Grows i [] row id ixs = Grows-refl scalars l i ixs
  index_row-Grows i (c ∷ cs) row id ixs =
      let next = add_index_entry scalars c.name (field c.name row) id ixs in
      Grows-trans scalars l i ixs next (index_row scalars cs row id next)
        (add_index_entry-Grows i c.name (field c.name row) id ixs)
        (index_row-Grows i cs row id next)

  pub unindex_row-Grows :
      (i : ℕ) (cs : List (Column N)) (row : Row N) (id : ℕ) (ixs : Indexes)
      → (id == i) ≡ false
      → Grows scalars l i ixs (unindex_row scalars cs row id ixs)
  unfolding unindex_row
  unindex_row-Grows i [] row id ixs n = Grows-refl scalars l i ixs
  unindex_row-Grows i (c ∷ cs) row id ixs n =
      let next = remove_index_entry scalars c.name (field c.name row) id ixs in
      Grows-trans scalars l i ixs next (unindex_row scalars cs row id next)
        (remove_index_entry-Grows i c.name (field c.name row) id ixs n)
        (unindex_row-Grows i cs row id next n)

  abbrev pub names : List (Column N) → List Text
  names cs = map (λ c. c.name) cs

  pub index_row-holds :
      (c : Text) (cs : List (Column N)) (row : Row N) (id : ℕ) (ixs : Indexes) (index : Index N)
      → has text_eq c (names cs) ≡ true
      → get text_eq c (index_row scalars cs row id ixs) ≡ some index
      → holds id (positions scalars (field c row) index) ≡ true
  unfolding index_row has Grows
  index_row-holds c [] row id ixs index h g = absurd (ground arith)
  index_row-holds c (d ∷ cs) row id ixs index h g = elim (Bool-cases (text_eq d.name c)) [
    | inl e ↦
        let p = (text_eq_iff d.name c).0 e in
        let next = add_index_entry scalars d.name (field d.name row) id ixs in
        let (was, q, f) = index_row-Grows id cs row id next c index g in
        f (field c row) (
          subst (λ x. holds id (positions scalars (field x row) was) ≡ true) p
            (add_index_entry-holds d.name (field d.name row) id ixs was
              (subst (λ x. get text_eq x next ≡ some was) (sym p) q)))
    | inr n ↦ index_row-holds c cs row id _ index (ground arith) g
  ]
