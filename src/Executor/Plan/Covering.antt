-- ===== src/Executor/Plan/Covering.antt =====
-- Which rows the plans of src/executor.ts leave out.
use yasd.Prelude.{
  ℕ, ◌≡◌, ◌⊎◌, refl, sym, ap, ◌∙◌, subst, Bool, true, false, ◌&&◌, Option, none, some, List, [],
  ◌∷◌, ◌==◌, arith, Bool-cases, Option-cases, some_injective, inl, inr,
}
use yasd.Text.{Text, text_eq, text_eq_iff}
use yasd.Sql.Syntax.{
  Value, null, boolean, number, string, Expression, literal, column_ref, eq, Where, and_clause,
  comparison, in_list,
}
use yasd.Executor.Result.{Result, ok, err, ◌>>=◌}
use yasd.Executor.Maps.{get, has, add_all}
use yasd.Executor.Maps.Lookup.{IsTest}
use yasd.Executor.Maps.Numbers.{holds, has-add_all, has-filter}
use yasd.Executor.Values.{Scalars, Row, values_equal}
use yasd.Executor.Table.{Index, positions, field}
use yasd.Executor.Where.{
  Truth, and_truth, is_null_value, evaluate, among, compare_by, compared, evaluate_where,
}
use yasd.Executor.Plan.{
  Plan, meet, lookup_all, literals, index_lookup, column_plan, equal_plan, index_plan,
}

module _ {N : Type 0} (scalars : Scalars N) where
  -- `===` tells apart the numbers that differ, and only those.
  unfoldable pub IsLawful : Type 0
  IsLawful = IsTest scalars.same

  pub values_equal→eq : (a b : Value N) → IsLawful → values_equal scalars a b ≡ true → a ≡ b
  unfolding values_equal IsLawful
  values_equal→eq null null l h = refl
  values_equal→eq (boolean true) (boolean true) l h = refl
  values_equal→eq (boolean false) (boolean false) l h = refl
  values_equal→eq (number m) (number n) l h = ap number ((l m n).0 h)
  values_equal→eq (string s) (string t) l h = ap string ((text_eq_iff s t).0 h)
  values_equal→eq a b l h = absurd (ground arith)

  values_equal_refl : (a : Value N) → IsLawful → values_equal scalars a a ≡ true
  unfolding values_equal IsLawful
  values_equal_refl null l = refl
  values_equal_refl (boolean true) l = refl
  values_equal_refl (boolean false) l = refl
  values_equal_refl (number n) l = (l n n).1 refl
  values_equal_refl (string s) l = (text_eq_iff s s).1 refl

  pub values_equal_iff : IsLawful → IsTest (values_equal scalars)
  values_equal_iff l a b = (
    values_equal→eq a b l,
    λ e. subst (λ c. values_equal scalars a c ≡ true) e (values_equal_refl a l),
  )

  -- The index has every row under the value of its column.
  unfoldable pub Covers : List (ℕ × Row N) → Text → Index N → Type 0
  Covers rows c index =
      (id : ℕ) (row : Row N)
      → get ◌==◌ id rows ≡ some row
      → holds id (positions scalars (field c row) index) ≡ true

  unfoldable pub AreComplete : List (ℕ × Row N) → List (Text × Index N) → Type 0
  AreComplete rows indexes =
      (c : Text) (index : Index N) → get text_eq c indexes ≡ some index → Covers rows c index

  lookup_all-keeps :
      (vs : List (Value N)) (index : Index N) (id : ℕ) (ids : List ℕ)
      → holds id ids ≡ true
      → holds id (lookup_all scalars vs index ids) ≡ true
  unfolding lookup_all
  lookup_all-keeps [] index id ids h = h
  lookup_all-keeps (v ∷ vs) index id ids h =
      lookup_all-keeps vs index id _
        (ground (arith, has-add_all id (positions scalars v index) ids))

  comparison-values_equal :
      (row : Row N) (e f : Expression N)
      → evaluate_where scalars row (comparison e eq f) ≡ ok (some true)
      → values_equal scalars (evaluate row e) (evaluate row f) ≡ true
  unfolding evaluate_where compared compare_by
  comparison-values_equal row e f h = ground arith

  -- A conjunction that is true has both sides true.
  and_truth-both : (a b : Truth) → and_truth a b ≡ some true → (a ≡ some true) × (b ≡ some true)
  and_truth-both none none h = absurd (ground arith)
  and_truth-both none (some true) h = absurd (ground arith)
  and_truth-both none (some false) h = absurd (ground arith)
  and_truth-both (some true) b h = (refl, h)
  and_truth-both (some false) b h = absurd (ground arith)

  and-both :
      (r s : Result Truth)
      → (r >>= λ a. s >>= λ b. ok (and_truth a b)) ≡ ok (some true)
      → (r ≡ ok (some true)) × (s ≡ ok (some true))
  and-both (err e) s h = absurd (ground arith)
  and-both (ok a) (err e) h = absurd (ground arith)
  and-both (ok a) (ok b) h = let p = and_truth-both a b (ground arith) in (ap ok p.0, ap ok p.1)

  -- If there is a plan then it has the row.
  abbrev Has : ℕ → Option Plan → Type 0
  Has id o = (p : Plan) → o ≡ some p → holds id p.ids ≡ true

  some-Has : (id : ℕ) (p : Plan) → holds id p.ids ≡ true → Has id (some p)
  some-Has id p h q e = subst (λ r. holds id r.ids ≡ true) (some_injective e) h

  none-Has : (id : ℕ) → Has id none
  none-Has id p e = absurd (ground arith)

  meet-Has : (id : ℕ) (l r : Option Plan) → Has id l → Has id r → Has id (meet l r)
  unfolding meet
  meet-Has id none r f g = g
  meet-Has id (some l) none f g = f
  meet-Has id (some l) (some r) f g = some-Has id _ (
      has-filter id (λ i. holds i r.ids) l.ids
      ∙ ap (λ b. b && holds id r.ids) (f l refl)
      ∙ g r refl)

  found_plan-Has :
      (id : ℕ) (c : Text) (vs : List (Value N)) (o : Option (Index N))
      → ((index : Index N) → o ≡ some index → holds id (lookup_all scalars vs index []) ≡ true)
      → Has id (index_lookup scalars c vs o)
  found_plan-Has id c vs none f = none-Has id
  found_plan-Has id c vs (some index) f = some-Has id _ (f index refl)

  among-split :
      (a : Value N) (row : Row N) (unknown : Bool) (v : Value N) (es : List (Expression N))
      → among scalars a row unknown (literal v ∷ es) ≡ some true
      → (values_equal scalars a v ≡ true) ⊎ ((u : Bool) × (among scalars a row u es ≡ some true))
  unfolding among evaluate
  among-split a row unknown v es h = elim (Bool-cases (is_null_value v)) [
    | inl n ↦ inr (true, ground arith)
    | inr n ↦ elim (Bool-cases (values_equal scalars a v)) [
      | inl e ↦ inl e
      | inr e ↦ inr (unknown, ground arith)
    ]
  ]

  literals-cons :
      (v : Value N) (es : List (Expression N)) (us vs : List (Value N))
      → literals scalars es ≡ some us
      → literals scalars (literal v ∷ es) ≡ some vs
      → v ∷ us ≡ vs
  unfolding literals
  literals-cons v es us vs e l = ground arith

  module _ (indexes : List (Text × Index N)) (rows : List (ℕ × Row N)) (id : ℕ) (row : Row N)
      (lawful : IsLawful) (complete : AreComplete rows indexes)
      (here : get ◌==◌ id rows ≡ some row) where
    -- A lookup of values with the row's value under the column has the row.
    position-lookup :
        (c : Text) (index : Index N) (v : Value N)
        → get text_eq c indexes ≡ some index
        → field c row ≡ v
        → holds id (positions scalars v index) ≡ true
    unfolding AreComplete Covers
    position-lookup c index v g e =
        subst (λ u. holds id (positions scalars u index) ≡ true) e (complete c index g id row here)

    equal-Has :
        (c : Text) (v : Value N)
        → field c row ≡ v
        → Has id (column_plan scalars c (some (v ∷ [])) indexes)
    unfolding column_plan lookup_all has
    equal-Has c v e =
        found_plan-Has id c (v ∷ []) (get text_eq c indexes)
          (λ index g. has-add_all id (positions scalars v index) [] ∙ position-lookup c index v g e)

    literals-Has :
        (c : Text) (unknown : Bool) (es : List (Expression N)) (vs : List (Value N))
        → literals scalars es ≡ some vs
        → among scalars (field c row) row unknown es ≡ some true
        → (index : Index N) → get text_eq c indexes ≡ some index
        → (ids : List ℕ) → holds id (lookup_all scalars vs index ids) ≡ true
    unfolding literals among lookup_all
    literals-Has c unknown [] vs l a index g ids = absurd (ground arith)
    literals-Has c unknown (column_ref d ∷ es) vs l a index g ids = absurd (ground arith)
    literals-Has c unknown (literal v ∷ es) vs l a index g ids =
        elim (Option-cases (literals scalars es)) [
          | inl e ↦ absurd (ground arith)
          | inr (us, e) ↦
              subst (λ ws. holds id (lookup_all scalars ws index ids) ≡ true)
                (literals-cons v es us vs e l)
                (elim (among-split (field c row) row unknown v es a) [
                  | inl h ↦
                      lookup_all-keeps us index id (add_all ◌==◌ (positions scalars v index) ids) (
                        ground (
                          arith,
                          has-add_all id (positions scalars v index) ids,
                          position-lookup c index v g (values_equal→eq _ _ lawful h),
                        ))
                  | inr (u, h) ↦
                      literals-Has c u es us e h index g
                        (add_all ◌==◌ (positions scalars v index) ids)
                ])
        ]

    equal_plan-Has :
        (e f : Expression N)
        → values_equal scalars (evaluate row e) (evaluate row f) ≡ true
        → Has id (equal_plan scalars e f indexes)
    unfolding equal_plan evaluate
    equal_plan-Has (column_ref c) (literal v) h = equal-Has c v (values_equal→eq _ _ lawful h)
    equal_plan-Has (literal v) (column_ref c) h = equal-Has c v (sym (values_equal→eq _ _ lawful h))
    equal_plan-Has (literal v) (literal u) h = none-Has id
    equal_plan-Has (column_ref c) (column_ref d) h = none-Has id

    in_list-among :
        (e first : Expression N) (others : List (Expression N))
        → evaluate_where scalars row (in_list e first others) ≡ ok (some true)
        → among scalars (evaluate row e) row false (first ∷ others) ≡ some true
    unfolding evaluate_where
    in_list-among e first others h = ground arith

    in_list-Has :
        (c : Text) (es : List (Expression N)) (o : Option (List (Value N)))
        → literals scalars es ≡ o
        → among scalars (field c row) row false es ≡ some true
        → Has id (column_plan scalars c o indexes)
    unfolding column_plan
    in_list-Has c es none l a = none-Has id
    in_list-Has c es (some vs) l a =
        found_plan-Has id c vs (get text_eq c indexes)
          (λ index g. literals-Has c false es vs l a index g [])

    -- A row that satisfies the condition is among the rows of its plan.
    pub index_plan-Has :
        (w : Where N)
        → evaluate_where scalars row w ≡ ok (some true)
        → Has id (index_plan scalars indexes w)
    unfolding index_plan evaluate_where evaluate
    index_plan-Has (and_clause l r) h =
        let p = and-both (evaluate_where scalars row l) (evaluate_where scalars row r) h in
        meet-Has id _ _ (index_plan-Has l p.0) (index_plan-Has r p.1)
    index_plan-Has (comparison a eq b) h = equal_plan-Has a b (comparison-values_equal row a b h)
    index_plan-Has (in_list (column_ref c) first others) h =
        in_list-Has c (first ∷ others) _ refl (in_list-among (column_ref c) first others h)
    index_plan-Has w h = none-Has id
