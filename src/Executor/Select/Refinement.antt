-- ===== src/Executor/Select/Refinement.antt =====
-- `executeSelect` of src/executor.ts against a selection without indexes.
use yasd.Prelude.{
  ℕ, zero, suc, ◌+◌, ◌≡◌, refl, sym, ap, ◌∙◌, subst, true, false, Option, none, some, List, [],
  length, take, drop, arith,
}
use yasd.Sql.Syntax.{Where, OrderBy, Select}
use yasd.Executor.Result.{Result, ok, err, ok_injective, ◌>>=◌}
use yasd.Executor.Values.{Scalars, Row}
use yasd.Executor.Table.{Table}
use yasd.Executor.Where.{Truth, evaluate_where, satisfies, is_true}
use yasd.Executor.Plan.{Plan, index_plan, ids_of_plan, plan_index_lookup}
use yasd.Executor.Plan.Covering.{IsLawful, index_plan-Has}
use yasd.Executor.Collect.{Scan, collect, sort_ids}
use yasd.Executor.Collect.Merge.{Selects, Agree, collect-Agree}
use yasd.Executor.Collect.Sorted.{sort_ids-IsAscending, has-sort_ids}
use yasd.Executor.Select.{scan_all, in_order, ordered, scan_by, ascending, select_rows}
use yasd.Executor.Select.Reference.{Takes, InScan, scan-collect, scan_all-collect}
use yasd.Executor.Plan.Distinct.{ArePlanned, index_plan-ArePlanned}
use yasd.Executor.Valid.{ids_of, get-ids_of, IsValid, matching, collect-matching}

module _ {N : Type 0} (scalars : Scalars N) where
  truth_ok : (r : Result Truth) → (r >>= λ t. ok (is_true scalars t)) ≡ ok true → r ≡ ok (some true)
  truth_ok (ok (some true)) h = refl
  truth_ok (ok (some false)) h = absurd (ground arith)
  truth_ok (ok none) h = absurd (ground arith)
  truth_ok (err e) h = absurd (ground arith)

  satisfies-evaluate :
      (w : Where N) (row : Row N)
      → satisfies scalars (some w) row ≡ ok true
      → evaluate_where scalars row w ≡ ok (some true)
  unfolding satisfies
  satisfies-evaluate w row h = truth_ok (evaluate_where scalars row w) h

  -- The numbers of a plan, sorted, serve as well as all the numbers.
  plan-Agree :
      (w : Where N) (t : Table N) (p : Plan)
      → IsLawful scalars
      → IsValid scalars t
      → index_plan scalars t.indexes w ≡ some p
      → Agree scalars (some w) t.rows 0 (sort_ids p.ids) (ids_of t.rows)
  unfolding Agree IsValid Selects ArePlanned
  plan-Agree w t p l (a, b, c, d) e = (
    sort_ids-IsAscending p.ids
        (subst (ArePlanned scalars) e (index_plan-ArePlanned scalars t.indexes w)),
    a,
    λ id row n (g, s).
        has-sort_ids id p.ids
        ∙ index_plan-Has scalars t.indexes t.rows id row l c g w (satisfies-evaluate w row s) p e,
    λ id row n g. get-ids_of id row t.rows g,
  )

  collect-plan :
      (w : Where N) (t : Table N) (ps : List (ℕ × Row N)) (o : Option Plan)
      → IsLawful scalars
      → IsValid scalars t
      → index_plan scalars t.indexes w ≡ o
      → collect scalars (some w) t.rows (ids_of t.rows) ≡ ok ps
      → collect scalars (some w) t.rows (ascending scalars (ids_of_plan scalars o) t.rows) ≡ ok ps
  collect-plan w t ps none l v e h = h
  collect-plan w t ps (some p) l v e h =
      collect-Agree scalars (some w) t.rows (length (sort_ids p.ids) + length (ids_of t.rows)) 0
        (sort_ids p.ids) (ids_of t.rows) ps (omega arith) (plan-Agree w t p l v e) h

  collect-ascending :
      (w : Option (Where N)) (t : Table N) (ps : List (ℕ × Row N))
      → IsLawful scalars
      → IsValid scalars t
      → matching scalars w t.rows ≡ ok ps
      → collect scalars w t.rows (ascending scalars (plan_index_lookup scalars t.indexes w) t.rows)
        ≡ ok ps
  unfolding plan_index_lookup IsValid
  collect-ascending none t ps l v h = collect-matching scalars none t.rows v.0 ∙ h
  collect-ascending (some w) t ps l v h =
      collect-plan w t ps (index_plan scalars t.indexes w) l v refl
        (collect-matching scalars (some w) t.rows v.0 ∙ h)

  -- What a `SELECT` takes of the rows that satisfy its condition.
  unfoldable pub page : Option OrderBy → ℕ → ℕ → ℕ → List (ℕ × Row N) → List (ℕ × Row N)
  page none size skip count ps = take count (drop skip ps)
  page (some o) size skip count ps = ordered scalars o size skip count ps

  in_order-ok :
      (o : OrderBy) (size skip count : ℕ) (s : Scan scalars) (ps : List (ℕ × Row N))
      → s.0 ≡ ok ps
      → (in_order scalars o size skip count s).0 ≡ ok (ordered scalars o size skip count ps)
  in_order-ok o size skip count (ok qs, n) ps h =
      ap (λ rs. ok (ordered scalars o size skip count rs)) (ok_injective h)
  in_order-ok o size skip count (err e, n) ps h = absurd (ground arith)

  page-zero :
      (o : Option OrderBy) (size skip : ℕ) (ps : List (ℕ × Row N)) → page o size skip zero ps ≡ []
  unfolding page ordered
  page-zero none size skip ps = refl
  page-zero (some o) size skip ps = refl

  scan_by-page :
      (o : Option OrderBy) (w : Option (Where N)) (rows : List (ℕ × Row N)) (ids : List ℕ)
      (skip n : ℕ) (ps : List (ℕ × Row N))
      → collect scalars w rows ids ≡ ok ps
      → (scan_by scalars o w rows ids skip (suc n)).0 ≡ ok (page o (length rows) skip (suc n) ps)
  unfolding page Takes InScan
  scan_by-page none w rows ids skip n ps h = scan-collect scalars w rows ids ps h skip n
  scan_by-page (some o) w rows ids skip n ps h =
      in_order-ok o (length rows) skip (suc n) (scan_all scalars w rows ids) ps
        (scan_all-collect scalars w rows ids ps h)

  -- On a table whose indexes have every row, the rows that a `SELECT` selects are those of a plain
  -- pass over all the rows, if that throws nothing: of the rows that satisfy the condition, in the
  -- order of their numbers, as many as it takes behind those that it skips; under an `ORDER BY`, what
  -- the heap and the sort make of all of them. That holds whichever index the plan goes by.
  pub select_rows-page :
      (s : Select N) (t : Table N) (skip count : ℕ) (ps : List (ℕ × Row N))
      → IsLawful scalars
      → IsValid scalars t
      → matching scalars s.condition t.rows ≡ ok ps
      → (select_rows scalars s t skip count).0 ≡ ok (page s.order_by (length t.rows) skip count ps)
  unfolding select_rows
  select_rows-page s t skip zero ps l v h =
      ap ok (sym (page-zero s.order_by (length t.rows) skip ps))
  select_rows-page s t skip (suc n) ps l v h =
      scan_by-page s.order_by s.condition t.rows
        (ascending scalars (plan_index_lookup scalars t.indexes s.condition) t.rows) skip n ps
        (collect-ascending s.condition t ps l v h)
