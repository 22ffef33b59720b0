-- ===== src/Executor/Table/Growth.antt =====
-- The indexes of src/executor.ts behind a change.
use yasd.Prelude.{
  ℕ, ◌≡◌, sym, ap, ◌∙◌, subst, true, false, Option, none, some, List, [], ◌∷◌, ◌==◌, arith, get_or,
  some_injective, Bool-cases, inl, inr,
}
use yasd.Text.{Text, text_eq, text_eq_iff}
use yasd.Sql.Syntax.{Value}
use yasd.Executor.Maps.{get, put, remove, has, add, discard}
use yasd.Executor.Maps.Numbers.{holds, has-add}
use yasd.Executor.Maps.Lookup.{IsTest, get-put_same, get-put_other, get-remove_other, has-discard}
use yasd.Executor.Values.{Scalars, values_equal}
use yasd.Executor.Table.{Index, positions, add_position, put_rest, drop_position}

module _ {N : Type 0} (scalars : Scalars N) (l : IsTest (values_equal scalars)) where
  positions_of :
      (u : Value N) (index : Index N) (ids : List ℕ)
      → get (values_equal scalars) u index ≡ some ids
      → positions scalars u index ≡ ids
  unfolding positions
  positions_of u index ids e = ap (get_or []) e

  positions-put_same :
      (u : Value N) (ids : List ℕ) (index : Index N)
      → positions scalars u (put (values_equal scalars) u ids index) ≡ ids
  unfolding positions
  positions-put_same u ids index =
      ap (get_or []) (get-put_same (values_equal scalars) l u ids index)

  positions-put_other :
      (u v : Value N) (ids : List ℕ) (index : Index N)
      → values_equal scalars v u ≡ false
      → positions scalars u (put (values_equal scalars) v ids index) ≡ positions scalars u index
  unfolding positions
  positions-put_other u v ids index n =
      ap (get_or []) (get-put_other (values_equal scalars) l u v ids index n)

  positions-remove_other :
      (u v : Value N) (index : Index N)
      → values_equal scalars v u ≡ false
      → positions scalars u (remove (values_equal scalars) v index) ≡ positions scalars u index
  unfolding positions
  positions-remove_other u v index n =
      ap (get_or []) (get-remove_other (values_equal scalars) l u v index n)

  pub add_position-holds :
      (v : Value N) (id : ℕ) (index : Index N)
      → holds id (positions scalars v (add_position scalars v id index)) ≡ true
  unfolding add_position
  add_position-holds v id index =
      ap (holds id) (positions-put_same v (add ◌==◌ id (positions scalars v index)) index)
      ∙ ground (arith, has-add id id (positions scalars v index))

  pub add_position-keeps :
      (i id : ℕ) (u v : Value N) (index : Index N)
      → holds i (positions scalars u index) ≡ true
      → holds i (positions scalars u (add_position scalars v id index)) ≡ true
  unfolding add_position
  add_position-keeps i id u v index h = elim (Bool-cases (values_equal scalars v u)) [
    | inl e ↦
        subst
          (λ x.
            holds i (
              positions scalars x
                (put (values_equal scalars) v (add ◌==◌ id (positions scalars v index)) index))
            ≡ true)
          ((l v u).0 e)
          (ap (holds i) (positions-put_same v (add ◌==◌ id (positions scalars v index)) index)
            ∙ ground (
              arith,
              has-add i id (positions scalars v index),
              subst (λ x. holds i (positions scalars x index) ≡ true) (sym ((l v u).0 e)) h,
            ))
    | inr n ↦
        ap (holds i) (positions-put_other u v (add ◌==◌ id (positions scalars v index)) index n) ∙ h
  ]

  put_rest-same :
      (i : ℕ) (v : Value N) (ids : List ℕ) (index : Index N)
      → holds i ids ≡ true
      → holds i (positions scalars v (put_rest scalars v ids index)) ≡ true
  unfolding has
  put_rest-same i v [] index h = absurd (ground arith)
  put_rest-same i v (j ∷ js) index h = ap (holds i) (positions-put_same v (j ∷ js) index) ∙ h

  put_rest-other :
      (u v : Value N) (ids : List ℕ) (index : Index N)
      → values_equal scalars v u ≡ false
      → positions scalars u (put_rest scalars v ids index) ≡ positions scalars u index
  put_rest-other u v [] index n = positions-remove_other u v index n
  put_rest-other u v (j ∷ js) index n = positions-put_other u v (j ∷ js) index n

  pub drop_position-keeps :
      (i id : ℕ) (u v : Value N) (index : Index N) (o : Option (List ℕ))
      → (id == i) ≡ false
      → get (values_equal scalars) v index ≡ o
      → holds i (positions scalars u index) ≡ true
      → holds i (positions scalars u (drop_position scalars v id o index)) ≡ true
  unfolding drop_position
  drop_position-keeps i id u v index none n e h = h
  drop_position-keeps i id u v index (some ids) n e h =
      elim (Bool-cases (values_equal scalars v u)) [
        | inl q ↦
            subst
              (λ x.
                holds i (positions scalars x (put_rest scalars v (discard ◌==◌ id ids) index))
                ≡ true)
              ((l v u).0 q)
              (put_rest-same i v (discard ◌==◌ id ids) index (
                has-discard i id ids n (
                  ap (holds i) (sym (positions_of v index ids e))
                  ∙ subst (λ x. holds i (positions scalars x index) ≡ true) (sym ((l v u).0 q)) h)))
        | inr q ↦ ap (holds i) (put_rest-other u v (discard ◌==◌ id ids) index q) ∙ h
      ]

  -- Every index that is there was there, and what it had of the row it has.
  unfoldable pub Grows : ℕ → List (Text × Index N) → List (Text × Index N) → Type 0
  Grows i old new =
      (c : Text) (index : Index N)
      → get text_eq c new ≡ some index
      → (was : Index N) × (get text_eq c old ≡ some was)
        × ((u : Value N)
            → holds i (positions scalars u was) ≡ true
            → holds i (positions scalars u index) ≡ true)

  pub Grows-refl : (i : ℕ) (ixs : List (Text × Index N)) → Grows i ixs ixs
  unfolding Grows
  Grows-refl i ixs c index g = (index, g, λ u h. h)

  pub Grows-trans :
      (i : ℕ) (a b c : List (Text × Index N)) → Grows i a b → Grows i b c → Grows i a c
  unfolding Grows
  Grows-trans i a b c f g d index e =
      let (x, p, q) = g d index e in let (y, r, s) = f d x p in (y, r, λ u h. q u (s u h))

  pub put-Grows :
      (i : ℕ) (c : Text) (was index : Index N) (ixs : List (Text × Index N))
      → get text_eq c ixs ≡ some was
      → ((u : Value N)
          → holds i (positions scalars u was) ≡ true
          → holds i (positions scalars u index) ≡ true)
      → Grows i ixs (put text_eq c index ixs)
  unfolding Grows
  put-Grows i c was index ixs g f d x e = elim (Bool-cases (text_eq c d)) [
    | inl q ↦
        let p = (text_eq_iff c d).0 q in
        let same : index ≡ x = some_injective (
          sym (get-put_same text_eq text_eq_iff c index ixs)
          ∙ subst (λ y. get text_eq y (put text_eq c index ixs) ≡ some x) (sym p) e) in
        (
          was,
          subst (λ y. get text_eq y ixs ≡ some was) p g,
          λ u h. subst (λ y. holds i (positions scalars u y) ≡ true) same (f u h),
        )
    | inr n ↦ (x, sym (get-put_other text_eq text_eq_iff d c index ixs n) ∙ e, λ u h. h)
  ]
