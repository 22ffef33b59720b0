-- ===== src/Executor/Valid/Within.antt =====
-- The limits of src/executor.ts on what is stored.
use yasd.Prelude.{ℕ, ◌-◌, ◌≤◌, ◌≡◌, refl, sym, subst, List, [], ◌∷◌, arith}
use yasd.Sql.Syntax.{Select, Statement, create_table, insert, select, update, delete, drop_table}
use yasd.Executor.Result.{Result, ok, err}
use yasd.Executor.Values.{Scalars, Row}
use yasd.Executor.Table.{Table, Database, Limits}
use yasd.Executor.Insert.{find_table, check_insert, commit_insert, execute_insert}
use yasd.Executor.Change.{
  check_update, commit_update, execute_update, check_delete, commit_delete, execute_delete,
  delete_rows, delete_row, size_at,
}
use yasd.Executor.Schema.{
  check_create_table, execute_create_table, execute_drop_table, drop_table_of,
}
use yasd.Executor.Answer.{check_select, select_from, execute_select}
use yasd.Executor.Run.{execute_statement}
use yasd.Executor.Valid.Checks.{check_insert-table, check_update-table}
use yasd.Executor.Valid.Statements.{changed_result-1, select_result-1}

module _ {N : Type 0} (scalars : Scalars N) (limits : Limits) where
  -- The counters are within `maxRows` and `maxBytes`.
  unfoldable pub IsWithin : Database N → Type 0
  IsWithin db = (db.stored_rows ≤ limits.max_rows) × (db.stored_bytes ≤ limits.max_bytes)

  checked-IsWithin :
      {A X : Type 0} (db : Database N) (r : Result X) (value : X → A) (change : X → Database N)
      → IsWithin db
      → ((x : X) → r ≡ ok x → IsWithin (change x))
      → IsWithin
          (elim r as (λ r. Result A × Database N) [
            | err e ↦ (err e, db)
            | ok x ↦ (ok (value x), change x)
          ]).1
  checked-IsWithin db (err e) value change w f = w
  checked-IsWithin db (ok x) value change w f = f x refl

  -- Each row that is deleted makes the counters smaller, if anything.
  delete_rows-fall :
      (ps : List (ℕ × Row N)) (t : Table N) (r b : ℕ)
      → ((delete_rows scalars ps t (r, b)).1.0 ≤ r) × ((delete_rows scalars ps t (r, b)).1.1 ≤ b)
  unfolding delete_rows
  delete_rows-fall [] t r b = (omega arith, omega arith)
  delete_rows-fall ((id, row) ∷ ps) t r b =
      let (x, y) =
        delete_rows-fall ps (delete_row scalars id row t) (r - 1)
          (b - size_at scalars id t.row_bytes) in
      (omega (arith, x), omega (arith, y))

  select_from-IsWithin :
      (s : Select N) (db : Database N) (r : Result (Table N))
      → IsWithin db
      → IsWithin (select_from scalars limits s db r).1
  unfolding IsWithin
  select_from-IsWithin s db (err e) w = w
  select_from-IsWithin s db (ok t) w = w

  -- No statement takes the counts of stored rows and bytes above `maxRows` and `maxBytes`: an
  -- `INSERT` or an `UPDATE` that would is refused, and the others store nothing more.
  pub execute_statement-IsWithin :
      (s : Statement N) (db : Database N)
      → IsWithin db
      → IsWithin (execute_statement scalars limits s db).1
  unfolding IsWithin execute_statement execute_insert commit_insert execute_update commit_update
      execute_delete commit_delete execute_create_table execute_drop_table drop_table_of
      execute_select
  execute_statement-IsWithin (create_table s) db w =
      subst IsWithin (sym (changed_result-1 scalars _))
        (checked-IsWithin db (check_create_table scalars limits s db) _ _ w (λ cs e. w))
  execute_statement-IsWithin (insert s) db w = subst IsWithin (sym (changed_result-1 scalars _)) (
      checked-IsWithin db (check_insert scalars limits s db) _ _ w
        (λ (t, rows) e. let (f, g, h) = check_insert-table scalars limits s db t rows e in (g, h)))
  execute_statement-IsWithin (select s) db w =
      subst IsWithin (sym (select_result-1 scalars _))
        (select_from-IsWithin s db (check_select scalars s db) w)
  execute_statement-IsWithin (update s) db w = subst IsWithin (sym (changed_result-1 scalars _)) (
      checked-IsWithin db (check_update scalars limits s db) _ _ w (λ (t, set, ps) e.
        let (f, g, h) = check_update-table scalars limits s db t set ps e in (w.0, h)))
  execute_statement-IsWithin (delete s) db w = subst IsWithin (sym (changed_result-1 scalars _)) (
      checked-IsWithin db (check_delete scalars s db) _ _ w (λ (t, ps) e.
        let (x, y) = delete_rows-fall ps t db.stored_rows db.stored_bytes in
        (omega (arith, x, w.0), omega (arith, y, w.1))))
  execute_statement-IsWithin (drop_table name) db w =
      subst IsWithin (sym (changed_result-1 scalars _)) (
        checked-IsWithin db (find_table name db) _ _ w
          (λ t e. (omega (arith, w.0), omega (arith, w.1))))
