-- ===== src/Executor/Valid/Staged.antt =====
-- The rows that the loops of src/executor.ts have selected, and their changes one after the other.
use yasd.Prelude.{
  ℕ, suc, ◌≡◌, refl, ◌∙◌, subst, Bool, true, false, Option, none, some, List, [], ◌∷◌, ◌==◌, ==_iff,
  arith,
}
use yasd.Text.{Text}
use yasd.Sql.Syntax.{Value, Where}
use yasd.Executor.Result.{Result, ok, err, ok_injective}
use yasd.Executor.Maps.{get, put, remove, has}
use yasd.Executor.Maps.Numbers.{holds}
use yasd.Executor.Maps.Lookup.{get-put_other, get-remove_other}
use yasd.Executor.Values.{Scalars, Row}
use yasd.Executor.Table.{Table}
use yasd.Executor.Where.{satisfies}
use yasd.Executor.Plan.{Plan, ids_of_plan, index_plan, plan_index_lookup}
use yasd.Executor.Plan.Covering.{IsLawful}
use yasd.Executor.Plan.Distinct.{ArePlanned, index_plan-ArePlanned}
use yasd.Executor.Collect.{candidates, collect, collect_row, kept}
use yasd.Executor.Collect.Merge.{gathered, tail_ok}
use yasd.Executor.Collect.Sorted.{IsAscending, IsAscending-bound, IsDistinct}
use yasd.Executor.Change.{selected, replace_row, replace_rows, delete_row, delete_rows, with_set}
use yasd.Executor.Select.Reference.{gathered_ok}
use yasd.Executor.Valid.{ids_of, IsValid}
use yasd.Executor.Valid.Steps.{replace_row-IsValid, delete_row-IsValid}

IsAscending-IsDistinct : (n : ℕ) (is : List ℕ) → IsAscending n is → IsDistinct is
unfolding IsAscending IsDistinct
IsAscending-IsDistinct n [] a = tt
IsAscending-IsDistinct n (i ∷ is) (h, a) =
    (ground (arith, IsAscending-bound (suc i) i is a), IsAscending-IsDistinct (suc i) is a)

tail_differs : (id i : ℕ) (is : List ℕ) → holds id (i ∷ is) ≡ false → (id == i) ≡ false
unfolding has
tail_differs id i is h = ground arith

tail_holds : (id i : ℕ) (is : List ℕ) → holds id (i ∷ is) ≡ false → holds id is ≡ false
unfolding has
tail_holds id i is h = ground arith

module _ {N : Type 0} where
  -- Rows of the table under different numbers.
  unfoldable pub Staged : List (ℕ × Row N) → List (ℕ × Row N) → Type 0
  Staged rows [] = Unit {0}
  Staged rows ((id, row) ∷ ps) =
      (get ◌==◌ id rows ≡ some row) × (holds id (ids_of ps) ≡ false) × Staged rows ps

  pub put-Staged :
      (id : ℕ) (new : Row N) (rows ps : List (ℕ × Row N))
      → holds id (ids_of ps) ≡ false
      → Staged rows ps
      → Staged (put ◌==◌ id new rows) ps
  unfolding Staged
  put-Staged id new rows [] h s = tt
  put-Staged id new rows ((i, r) ∷ ps) h (g, n, s) = (
    get-put_other ◌==◌ ==_iff i id new rows (tail_differs id i (ids_of ps) h) ∙ g,
    n,
    put-Staged id new rows ps (tail_holds id i (ids_of ps) h) s,
  )

  pub remove-Staged :
      (id : ℕ) (rows ps : List (ℕ × Row N))
      → holds id (ids_of ps) ≡ false
      → Staged rows ps
      → Staged (remove ◌==◌ id rows) ps
  unfolding Staged
  remove-Staged id rows [] h s = tt
  remove-Staged id rows ((i, r) ∷ ps) h (g, n, s) = (
    get-remove_other ◌==◌ ==_iff i id rows (tail_differs id i (ids_of ps) h) ∙ g,
    n,
    remove-Staged id rows ps (tail_holds id i (ids_of ps) h) s,
  )

module _ {N : Type 0} (scalars : Scalars N) where
  -- The rows are staged, and their numbers are among the given ones.
  Picks : List (ℕ × Row N) → List ℕ → Result (List (ℕ × Row N)) → Type 0
  Picks rows ids r =
      (ps : List (ℕ × Row N))
      → r ≡ ok ps
      → Staged rows ps × ((i : ℕ) → holds i ids ≡ false → holds i (ids_of ps) ≡ false)

  kept-Picks :
      (b : Bool) (id : ℕ) (row : Row N) (rows qs : List (ℕ × Row N)) (ids : List ℕ)
      → get ◌==◌ id rows ≡ some row
      → holds id ids ≡ false
      → Staged rows qs
      → ((i : ℕ) → holds i ids ≡ false → holds i (ids_of qs) ≡ false)
      → Staged rows (kept scalars b (id, row) qs)
        × ((i : ℕ)
            → holds i (id ∷ ids) ≡ false
            → holds i (ids_of (kept scalars b (id, row) qs)) ≡ false)
  unfolding Staged has
  kept-Picks true id row rows qs ids g n s f = ((g, f id n, s), λ i h. ground (arith, f i))
  kept-Picks false id row rows qs ids g n s f = (s, λ i h. ground (arith, f i))

  gathered-Picks :
      (r : Result Bool) (id : ℕ) (row : Row N) (rows : List (ℕ × Row N)) (ids : List ℕ)
      (rest : Result (List (ℕ × Row N)))
      → get ◌==◌ id rows ≡ some row
      → holds id ids ≡ false
      → Picks rows ids rest
      → Picks rows (id ∷ ids) (gathered scalars r (id, row) rest)
  unfolding Picks
  gathered-Picks (err e) id row rows ids rest g n f ps h = absurd (ground arith)
  gathered-Picks (ok b) id row rows ids rest g n f ps h =
      let (qs, e) = tail_ok scalars (ok b) (id, row) rest ps h in
      let (s, k) = f qs e in
      subst
        (λ xs.
          Staged rows xs × ((i : ℕ) → holds i (id ∷ ids) ≡ false → holds i (ids_of xs) ≡ false))
        (gathered_ok scalars b (id, row) qs ps rest e h) (kept-Picks b id row rows qs ids g n s k)

  module _ (w : Option (Where N)) (rows : List (ℕ × Row N)) where
    collect_row-Picks :
        (o : Option (Row N)) (id : ℕ) (ids : List ℕ) (rest : Result (List (ℕ × Row N)))
        → get ◌==◌ id rows ≡ o
        → holds id ids ≡ false
        → Picks rows ids rest
        → Picks rows (id ∷ ids) (collect_row scalars w o id rest)
    unfolding Picks has
    collect_row-Picks none id ids rest g n f ps h =
        let (s, k) = f ps h in (s, λ i q. k i (ground arith))
    collect_row-Picks (some row) id ids rest g n f ps h =
        gathered-Picks (satisfies scalars w row) id row rows ids rest g n f ps h

    collect-Picks : (ids : List ℕ) → IsDistinct ids → Picks rows ids (collect scalars w rows ids)
    unfolding Picks collect IsDistinct Staged
    collect-Picks [] d ps h =
        subst (λ xs. Staged rows xs × ((i : ℕ) → holds i [] ≡ false → holds i (ids_of xs) ≡ false))
          (ok_injective h) (tt, λ i q. q)
    collect-Picks (id ∷ ids) (n, d) ps h =
        collect_row-Picks (get ◌==◌ id rows) id ids (collect scalars w rows ids) refl n
          (collect-Picks ids d) ps h

  candidates-IsDistinct :
      (o : Option Plan) (rows : List (ℕ × Row N))
      → ArePlanned scalars o
      → IsAscending 0 (ids_of rows)
      → IsDistinct (candidates scalars (ids_of_plan scalars o) rows)
  unfolding candidates ArePlanned
  candidates-IsDistinct none rows d a = IsAscending-IsDistinct 0 (ids_of rows) a
  candidates-IsDistinct (some p) rows d a = d

  lookup-IsDistinct :
      (w : Option (Where N)) (t : Table N)
      → IsValid scalars t
      → IsDistinct (candidates scalars (plan_index_lookup scalars t.indexes w) t.rows)
  unfolding plan_index_lookup IsValid ArePlanned
  lookup-IsDistinct none t v = candidates-IsDistinct none t.rows tt v.0
  lookup-IsDistinct (some w) t v =
      candidates-IsDistinct (index_plan scalars t.indexes w) t.rows
        (index_plan-ArePlanned scalars t.indexes w) v.0

  pub selected-Staged :
      (w : Option (Where N)) (t : Table N) (ps : List (ℕ × Row N))
      → IsValid scalars t
      → selected scalars w t ≡ ok ps
      → Staged t.rows ps
  unfolding selected Picks
  selected-Staged w t ps v h =
      let r =
        collect-Picks w t.rows (candidates scalars (plan_index_lookup scalars t.indexes w) t.rows)
          (lookup-IsDistinct w t v) ps h in
      r.0

  module _ (l : IsLawful scalars) where
    pub replace_rows-IsValid :
        (changes : Bool) (set : List (Text × Value N)) (ps : List (ℕ × Row N)) (t : Table N)
        → Staged t.rows ps
        → IsValid scalars t
        → IsValid scalars (replace_rows scalars changes set ps t)
    unfolding replace_rows Staged replace_row
    replace_rows-IsValid changes set [] t s v = v
    replace_rows-IsValid changes set ((id, old) ∷ ps) t (g, n, s) v =
        replace_rows-IsValid changes set ps
          (replace_row scalars changes set id old (with_set scalars set old) t)
          (put-Staged id (with_set scalars set old) t.rows ps n s)
          (replace_row-IsValid scalars l changes set id old t g v)

    pub delete_rows-IsValid :
        (ps : List (ℕ × Row N)) (t : Table N) (n : ℕ × ℕ)
        → IsValid scalars t
        → IsValid scalars (delete_rows scalars ps t n).0
    unfolding delete_rows
    delete_rows-IsValid [] t (rows, bytes) v = v
    delete_rows-IsValid ((id, row) ∷ ps) t (rows, bytes) v =
        delete_rows-IsValid ps (delete_row scalars id row t) _
          (delete_row-IsValid scalars l id row t v)
