-- ===== src/Executor/Plan/Distinct.antt =====
-- The row numbers of the plans of src/executor.ts.
use yasd.Prelude.{ℕ, Option, none, some, List, [], ◌∷◌, ◌==◌}
use yasd.Text.{Text, text_eq}
use yasd.Sql.Syntax.{
  Value, Expression, literal, column_ref, eq, Where, and_clause, comparison, in_list,
}
use yasd.Executor.Maps.{get, add_all}
use yasd.Executor.Maps.Numbers.{holds}
use yasd.Executor.Values.{Scalars}
use yasd.Executor.Table.{Index, positions}
use yasd.Executor.Plan.{
  Plan, index_lookup, meet, lookup_all, column_plan, equal_plan, index_plan, literals,
}
use yasd.Executor.Collect.Sorted.{IsDistinct, add_all-IsDistinct, filter-IsDistinct}

module _ {N : Type 0} (scalars : Scalars N) where
  -- The numbers of a plan, if there is one, are distinct.
  unfoldable pub ArePlanned : Option Plan → Type 0
  ArePlanned none = Unit {0}
  ArePlanned (some p) = IsDistinct p.ids

  lookup_all-IsDistinct :
      (vs : List (Value N)) (index : Index N) (ids : List ℕ)
      → IsDistinct ids
      → IsDistinct (lookup_all scalars vs index ids)
  unfolding lookup_all
  lookup_all-IsDistinct [] index ids d = d
  lookup_all-IsDistinct (v ∷ vs) index ids d =
      lookup_all-IsDistinct vs index (add_all ◌==◌ (positions scalars v index) ids)
        (add_all-IsDistinct (positions scalars v index) ids d)

  nil-IsDistinct : IsDistinct []
  unfolding IsDistinct
  nil-IsDistinct = tt

  index_lookup-ArePlanned :
      (c : Text) (vs : List (Value N)) (o : Option (Index N))
      → ArePlanned (index_lookup scalars c vs o)
  unfolding ArePlanned
  index_lookup-ArePlanned c vs none = tt
  index_lookup-ArePlanned c vs (some index) = lookup_all-IsDistinct vs index [] nil-IsDistinct

  column_plan-ArePlanned :
      (c : Text) (vs : Option (List (Value N))) (indexes : List (Text × Index N))
      → ArePlanned (column_plan scalars c vs indexes)
  unfolding column_plan ArePlanned
  column_plan-ArePlanned c none indexes = tt
  column_plan-ArePlanned c (some vs) indexes = index_lookup-ArePlanned c vs (get text_eq c indexes)

  meet-ArePlanned : (l r : Option Plan) → ArePlanned l → ArePlanned r → ArePlanned (meet l r)
  unfolding meet ArePlanned
  meet-ArePlanned none r d e = e
  meet-ArePlanned (some l) none d e = d
  meet-ArePlanned (some l) (some r) d e = filter-IsDistinct (λ id. holds id r.ids) l.ids d

  equal_plan-ArePlanned :
      (e f : Expression N) (indexes : List (Text × Index N))
      → ArePlanned (equal_plan scalars e f indexes)
  unfolding equal_plan ArePlanned
  equal_plan-ArePlanned (column_ref c) (literal v) indexes =
      column_plan-ArePlanned c (some (v ∷ [])) indexes
  equal_plan-ArePlanned (literal v) (column_ref c) indexes =
      column_plan-ArePlanned c (some (v ∷ [])) indexes
  equal_plan-ArePlanned (literal v) (literal u) indexes = tt
  equal_plan-ArePlanned (column_ref c) (column_ref d) indexes = tt

  pub index_plan-ArePlanned :
      (indexes : List (Text × Index N)) (w : Where N) → ArePlanned (index_plan scalars indexes w)
  unfolding index_plan ArePlanned
  index_plan-ArePlanned indexes (and_clause l r) =
      meet-ArePlanned _ _ (index_plan-ArePlanned indexes l) (index_plan-ArePlanned indexes r)
  index_plan-ArePlanned indexes (comparison a eq b) = equal_plan-ArePlanned a b indexes
  index_plan-ArePlanned indexes (in_list (column_ref c) first others) =
      column_plan-ArePlanned c (literals scalars (first ∷ others)) indexes
  index_plan-ArePlanned indexes w = tt
