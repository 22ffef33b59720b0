-- ===== src/Executor/Collect.antt =====
-- The loops of src/executor.ts over the rows of a condition.
pub mod Merge
pub mod Sorted
use yasd.Prelude.{
  ℕ, zero, suc, ◌+◌, ◌-◌, Bool, true, false, Option, none, some, List, [], ◌∷◌, ◌++◌, map, leb,
  ◌==◌, if◌then◌else◌,
}
use yasd.Text.{Text}
use yasd.Sql.Syntax.{Where}
use yasd.Executor.Result.{Result, ok, err, ◌>>=◌, ◌>>◌}
use yasd.Executor.Maps.{get}
use yasd.Executor.Values.{Scalars, Row}
use yasd.Executor.Table.{Table}
use yasd.Executor.Where.{satisfies}
use yasd.Executor.Plan.{plan_index_lookup}

abbrev pub first_of : {A B : Type 0} → A × B → A
first_of p = p.0

-- `planned.sort((a, b) => a - b)`
unfoldable pub insert_id : ℕ → List ℕ → List ℕ
insert_id i [] = i ∷ []
insert_id i (j ∷ js) = let rest = insert_id i js in if leb i j then i ∷ j ∷ js else j ∷ rest

unfoldable pub sort_ids : List ℕ → List ℕ
unfolding insert_id
sort_ids [] = []
sort_ids (i ∷ is) = insert_id i (sort_ids is)

module _ {N : Type 0} (scalars : Scalars N) where
  -- The ids to go through: those of the plan, or all.
  unfoldable pub candidates : Option (List ℕ) → List (ℕ × Row N) → List ℕ
  candidates none rows = map first_of rows
  candidates (some ids) rows = ids

  abbrev pub kept : Bool → ℕ × Row N → List (ℕ × Row N) → List (ℕ × Row N)
  kept true p ps = p ∷ ps
  kept false p ps = ps

  -- One round of it: a row that is there is kept if it satisfies the condition.
  abbrev pub collect_row :
      Option (Where N) → Option (Row N) → ℕ → Result (List (ℕ × Row N)) → Result (List (ℕ × Row N))
  collect_row w none id rest = rest
  collect_row w (some row) id rest = do
    b ← satisfies scalars w row
    ps ← rest
    ok (kept b (id, row) ps)

  -- The loop of `executeUpdate` and `executeDelete`: the rows that satisfy the condition.
  unfoldable pub collect : Option (Where N) → List (ℕ × Row N) → List ℕ → Result (List (ℕ × Row N))
  unfolding satisfies get
  collect w rows [] = ok []
  collect w rows (id ∷ ids) = collect_row w (get ◌==◌ id rows) id (collect w rows ids)

  -- What the loop of `executeSelect` has selected, and the rows that it examined.
  abbrev pub Scan : Type 0
  Scan = Result (List (ℕ × Row N)) × ℕ

  abbrev pub examine : Scan → Scan
  examine (r, n) = (r, suc n)

  abbrev pub select_row : ℕ × Row N → Scan → Scan
  select_row p (ok ps, n) = (ok (p ∷ ps), suc n)
  select_row p (err e, n) = (err e, suc n)

  -- A row under its condition, with the rows still to skip and to take.
  unfoldable pub scan_row : Result Bool → (ℕ → ℕ → Scan) → ℕ × Row N → ℕ → ℕ → Scan
  scan_row (err e) next p skip take = (err e, 1)
  scan_row (ok false) next p skip take = examine (next skip take)
  scan_row (ok true) next p (suc skip) take = examine (next skip take)
  scan_row (ok true) next p zero (suc (suc take)) = select_row p (next zero (suc take))
  scan_row (ok true) next p zero take = (ok (p ∷ []), 1)

  abbrev pub scan_found : Option (Where N) → Option (Row N) → (ℕ → ℕ → Scan) → ℕ → ℕ → ℕ → Scan
  scan_found w none next id skip take = next skip take
  scan_found w (some row) next id skip take =
      scan_row (satisfies scalars w row) next (id, row) skip take

  -- The loop of `executeSelect` without an order.
  unfoldable pub scan : Option (Where N) → List (ℕ × Row N) → List ℕ → ℕ → ℕ → Scan
  unfolding scan_row satisfies get
  scan w rows [] skip take = (ok [], 0)
  scan w rows (id ∷ ids) skip take = scan_found w (get ◌==◌ id rows) (scan w rows ids) id skip take
