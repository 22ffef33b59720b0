-- ===== src/Executor/Valid/Counters.antt =====
-- The counters of src/executor.ts behind each of its statements.
use yasd.Prelude.{
  ◌+◌, ◌-◌, ◌≡◌, refl, sym, ap, ◌∙◌, subst, none, map, length, arith, inl, inr, Option-cases,
}
use yasd.Text.{Text, text_eq}
use yasd.Sql.Syntax.{
  CreateTable, Insert, Select, Update, Delete, Statement, create_table, insert, select, update,
  delete, drop_table,
}
use yasd.Executor.Result.{Result, ok, err, throw_if, table_exists}
use yasd.Executor.Maps.{get}
use yasd.Executor.Maps.Weights.{total, total-put_new, total-remove}
use yasd.Executor.Values.{Scalars}
use yasd.Executor.Table.{Table, Database, Limits}
use yasd.Executor.Insert.{
  find_table, check_insert, commit_insert, execute_insert, store_rows, bytes_of,
}
use yasd.Executor.Change.{
  check_update, commit_update, execute_update, unkey, changes_key, replace_rows, updates_of,
  old_bytes, row_of, check_delete, commit_delete, execute_delete,
}
use yasd.Executor.Schema.{
  empty_table, has_table, check_create_table, execute_create_table, execute_drop_table,
  drop_table_of, all_bytes,
}
use yasd.Executor.Answer.{check_select, select_from, execute_select}
use yasd.Executor.Run.{execute_statement}
use yasd.Executor.Plan.Covering.{IsLawful}
use yasd.Executor.Valid.Staged.{selected-Staged}
use yasd.Executor.Valid.Tables.{bind_ok, IsSound, find_table-ok, find_table-IsValid}
use yasd.Executor.Valid.Checks.{check_insert-table, check_update-table, check_delete-table}
use yasd.Executor.Valid.Statements.{changed_result-1, select_result-1}
use yasd.Executor.Valid.Sizes.{
  rows_in, bytes_in, sizes_of, IsSized, total-length, all_bytes-sizes_of,
}
use yasd.Executor.Valid.Counted.{
  IsCounted, put-AreSized, remove-AreSized, sized, put-IsCounted, checked-IsCounted, at_most_rows,
  at_most_bytes,
}
use yasd.Executor.Valid.Counts.{
  store_rows-counts, old_bytes-total, replace_rows-counts, delete_rows-Falls,
}

module _ {N : Type 0} (scalars : Scalars N) where
  execute_insert-IsCounted :
      (limits : Limits) (s : Insert N) (db : Database N)
      → IsLawful scalars
      → IsSound scalars db
      → IsCounted scalars db
      → IsCounted scalars (execute_insert scalars limits s db).1
  unfolding execute_insert commit_insert
  execute_insert-IsCounted limits s db l d c =
      checked-IsCounted scalars db (check_insert scalars limits s db) _ _ c (λ (t, rows) e.
        let f = (check_insert-table scalars limits s db t rows e).0 in
        let g = find_table-ok scalars s.table_name db t f in
        let (x, y, z) =
          store_rows-counts scalars rows t l (find_table-IsValid scalars s.table_name db t d f)
            (sized scalars s.table_name t db g c) in
        put-IsCounted scalars s.table_name t (store_rows scalars rows t) db
          (db.stored_rows + length rows) (db.stored_bytes + bytes_of scalars rows) g
          (omega (arith, x)) (omega (arith, y)) z c)

  execute_update-IsCounted :
      (limits : Limits) (s : Update N) (db : Database N)
      → IsSound scalars db
      → IsCounted scalars db
      → IsCounted scalars (execute_update scalars limits s db).1
  unfolding execute_update commit_update IsSized
  execute_update-IsCounted limits s db d c =
      checked-IsCounted scalars db (check_update scalars limits s db) _ _ c (λ (t, set, ps) e.
        let (f, p, q) = check_update-table scalars limits s db t set ps e in
        let g = find_table-ok scalars s.table_name db t f in
        let z = sized scalars s.table_name t db g c in
        let st =
          selected-Staged scalars s.condition t ps
            (find_table-IsValid scalars s.table_name db t d f) p in
        let changes = changes_key scalars t.primary_key set in
        let start : Table N = record t {
          primary_index = unkey scalars changes t.primary_key ps t.primary_index;
        } in
        let (x, y, w) = replace_rows-counts scalars changes set ps start st z in
        put-IsCounted scalars s.table_name t (replace_rows scalars changes set ps start) db
          db.stored_rows
          (db.stored_bytes
            + bytes_of scalars (map row_of (updates_of scalars set ps))
            - old_bytes scalars t.row_bytes ps)
          g (omega (arith, x))
          (omega (
            arith,
            y,
            old_bytes-total scalars t ps z st,
            at_most_bytes scalars s.table_name t db g c,
          ))
          w c)

  execute_delete-IsCounted :
      (s : Delete N) (db : Database N)
      → IsSound scalars db
      → IsCounted scalars db
      → IsCounted scalars (execute_delete scalars s db).1
  unfolding execute_delete commit_delete
  execute_delete-IsCounted s db d c =
      checked-IsCounted scalars db (check_delete scalars s db) _ _ c (λ (t, ps) e.
        let (f, p) = check_delete-table scalars s db t ps e in
        let g = find_table-ok scalars s.table_name db t f in
        let z = sized scalars s.table_name t db g c in
        let st =
          selected-Staged scalars s.condition t ps
            (find_table-IsValid scalars s.table_name db t d f) p in
        let (x, y, w) =
          delete_rows-Falls scalars ps t db.stored_rows db.stored_bytes st z
            (at_most_rows scalars s.table_name t db g c)
            (at_most_bytes scalars s.table_name t db g c) in
        put-IsCounted scalars s.table_name t _ db _ _ g x y w c)

  absent_table :
      (name : Text) (db : Database N) (u : Unit {0})
      → throw_if (has_table name db) table_exists ≡ ok u
      → get text_eq name db.tables ≡ none
  absent_table name db u h = elim (Option-cases (get text_eq name db.tables)) [
    | inl g ↦ g
    | inr (t, g) ↦ absurd (ground arith)
  ]

  execute_create_table-IsCounted :
      (limits : Limits) (s : CreateTable N) (db : Database N)
      → IsCounted scalars db
      → IsCounted scalars (execute_create_table scalars limits s db).1
  unfolding execute_create_table check_create_table IsCounted empty_table total IsSized sizes_of
  execute_create_table-IsCounted limits s db c =
      checked-IsCounted scalars db (check_create_table scalars limits s db) _ _ c (λ cs e.
        let (u, h, k) = bind_ok (throw_if (has_table s.table_name db) table_exists) _ cs e in
        let g = absent_table s.table_name db u h in
        let t = empty_table limits cs s.primary_key in
        (
          omega (arith, c.0, total-put_new text_eq (rows_in scalars) s.table_name t db.tables g),
          omega (arith, c.1, total-put_new text_eq (bytes_in scalars) s.table_name t db.tables g),
          put-AreSized scalars s.table_name t db.tables refl c.2,
        ))

  execute_drop_table-IsCounted :
      (name : Text) (db : Database N)
      → IsCounted scalars db
      → IsCounted scalars (execute_drop_table name db).1
  unfolding execute_drop_table drop_table_of IsCounted IsSized
  execute_drop_table-IsCounted name db c =
      checked-IsCounted scalars db (find_table name db) _ _ c (λ t e.
        let g = find_table-ok scalars name db t e in
        let z = ap all_bytes (sized scalars name t db g c) ∙ all_bytes-sizes_of scalars t.rows in
        (
          omega (
            arith,
            c.0,
            total-remove text_eq (rows_in scalars) name t db.tables g,
            total-length scalars t.rows,
          ),
          omega (arith, c.1, total-remove text_eq (bytes_in scalars) name t db.tables g, z),
          remove-AreSized scalars name db.tables c.2,
        ))

  select_from-IsCounted :
      (limits : Limits) (s : Select N) (db : Database N) (r : Result (Table N))
      → IsCounted scalars db
      → IsCounted scalars (select_from scalars limits s db r).1
  unfolding IsCounted
  select_from-IsCounted limits s db (err e) c = c
  select_from-IsCounted limits s db (ok t) c = c

  -- If the tables are valid and the counters right, then behind every statement, whether it succeeds
  -- or is refused, the count of stored rows is the number of the rows in all tables, the count of
  -- stored bytes is the sum of the bytes of those rows, and each table knows the bytes of its rows.
  pub execute_statement-IsCounted :
      (limits : Limits) (s : Statement N) (db : Database N)
      → IsLawful scalars
      → IsSound scalars db
      → IsCounted scalars db
      → IsCounted scalars (execute_statement scalars limits s db).1
  unfolding execute_statement execute_select
  execute_statement-IsCounted limits (create_table s) db l d c =
      subst (IsCounted scalars) (sym (changed_result-1 scalars _))
        (execute_create_table-IsCounted limits s db c)
  execute_statement-IsCounted limits (insert s) db l d c =
      subst (IsCounted scalars) (sym (changed_result-1 scalars _))
        (execute_insert-IsCounted limits s db l d c)
  execute_statement-IsCounted limits (select s) db l d c =
      subst (IsCounted scalars) (sym (select_result-1 scalars _))
        (select_from-IsCounted limits s db (check_select scalars s db) c)
  execute_statement-IsCounted limits (update s) db l d c =
      subst (IsCounted scalars) (sym (changed_result-1 scalars _))
        (execute_update-IsCounted limits s db d c)
  execute_statement-IsCounted limits (delete s) db l d c =
      subst (IsCounted scalars) (sym (changed_result-1 scalars _))
        (execute_delete-IsCounted s db d c)
  execute_statement-IsCounted limits (drop_table name) db l d c =
      subst (IsCounted scalars) (sym (changed_result-1 scalars _))
        (execute_drop_table-IsCounted name db c)
