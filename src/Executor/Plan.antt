-- ===== src/Executor/Plan.antt =====
-- `indexPlan` of src/executor.ts.
pub mod Covering
pub mod Distinct
use yasd.Prelude.{
  ℕ, Bool, true, false, Option, none, some, List, [], ◌∷◌, ◌++◌, ◌==◌, if◌then◌else◌,
}
use yasd.Text.{Text, text_eq}
use yasd.Sql.Syntax.{
  Value, Expression, literal, column_ref, Operator, eq, ne, gt, ge, lt, le, like, Where, and_clause,
  or_clause, not_clause, is_null, is_not_null, comparison, in_list, between,
}
use yasd.Executor.Maps.{get, has, add_all, filter}
use yasd.Executor.Values.{Scalars}
use yasd.Executor.Table.{Index, Table, positions}

-- The columns, and what the lookup returns.
pub record Plan : Type 0 where
  pub columns : List Text
  pub ids : List ℕ

-- `a.filter((id) => b.has(id))` and the union of the columns.
unfoldable pub meet : Option Plan → Option Plan → Option Plan
unfolding add_all filter has
meet none r = r
meet (some l) none = some l
meet (some l) (some r) = some (record {
  columns = add_all text_eq (l.columns ++ r.columns) [];
  ids = filter (λ id. has ◌==◌ id r.ids) l.ids;
})

module _ {N : Type 0} (scalars : Scalars N) where
  -- The ids of all the values, each once.
  unfoldable pub lookup_all : List (Value N) → Index N → List ℕ → List ℕ
  unfolding positions add_all
  lookup_all [] index ids = ids
  lookup_all (v ∷ vs) index ids = lookup_all vs index (add_all ◌==◌ (positions scalars v index) ids)

  unfoldable pub literals : List (Expression N) → Option (List (Value N))
  literals [] = some []
  literals (literal v ∷ es) = elim (literals es) [ none ↦ none | some vs ↦ some (v ∷ vs) ]
  literals (column_ref c ∷ es) = none

  abbrev pub index_lookup : Text → List (Value N) → Option (Index N) → Option Plan
  index_lookup column vs none = none
  index_lookup column vs (some index) =
      some (record { columns = column ∷ []; ids = lookup_all vs index [] })

  unfoldable pub column_plan : Text → Option (List (Value N)) → List (Text × Index N) → Option Plan
  unfolding get lookup_all
  column_plan column none indexes = none
  column_plan column (some vs) indexes = index_lookup column vs (get text_eq column indexes)

  unfoldable pub equal_plan : Expression N → Expression N → List (Text × Index N) → Option Plan
  unfolding column_plan
  equal_plan (column_ref c) (literal v) indexes = column_plan c (some (v ∷ [])) indexes
  equal_plan (literal v) (column_ref c) indexes = column_plan c (some (v ∷ [])) indexes
  equal_plan e f indexes = none

  unfoldable pub index_plan : List (Text × Index N) → Where N → Option Plan
  unfolding meet equal_plan column_plan literals
  index_plan indexes (and_clause l r) = meet (index_plan indexes l) (index_plan indexes r)
  index_plan indexes (comparison a eq b) = equal_plan a b indexes
  index_plan indexes (in_list (column_ref c) first others) =
      column_plan c (literals (first ∷ others)) indexes
  index_plan indexes w = none

  abbrev pub ids_of_plan : Option Plan → Option (List ℕ)
  ids_of_plan none = none
  ids_of_plan (some p) = some p.ids

  -- `planIndexLookup`, under an optional condition.
  unfoldable pub plan_index_lookup : List (Text × Index N) → Option (Where N) → Option (List ℕ)
  unfolding index_plan
  plan_index_lookup indexes none = none
  plan_index_lookup indexes (some w) = ids_of_plan (index_plan indexes w)
