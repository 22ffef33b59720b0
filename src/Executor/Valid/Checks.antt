-- ===== src/Executor/Valid/Checks.antt =====
-- What the checks of src/executor.ts in front of a change have found.
use yasd.Prelude.{◌≤◌, ℕ, ◌+◌, ◌-◌, ◌≡◌, ap, ◌∙◌, subst, List, [], map, length, ltb, arith}
use yasd.Text.{Text}
use yasd.Sql.Syntax.{Value, Insert, Update, Delete}
use yasd.Executor.Result.{ok, ok_injective, throw_if, limit_exceeded}
use yasd.Executor.Values.{Scalars, Row}
use yasd.Executor.Table.{Table, Database, Limits}
use yasd.Executor.Insert.{find_table, check_insert, bytes_of, max_safe, check_capacity}
use yasd.Executor.Keys.{assert_primary_key_unique}
use yasd.Executor.Coerce.{insert_columns, prepare_rows}
use yasd.Executor.Change.{
  validate_condition, prepare_set, selected, assert_changed, changes_key, updates_of, row_of,
  old_bytes, check_update, check_delete,
}
use yasd.Executor.Valid.Tables.{bind_ok}

check_capacity-within :
    (limits : Limits) (rows bytes : ℕ) (u : Unit {0})
    → check_capacity limits rows bytes ≡ ok u
    → (rows ≤ limits.max_rows) × (bytes ≤ limits.max_bytes)
unfolding check_capacity
check_capacity-within limits rows bytes u h = (ground arith, ground arith)

module _ {N : Type 0} (scalars : Scalars N) where
  module _ (limits : Limits) (s : Insert N) (db : Database N) where
    pub check_insert-table :
        (t : Table N) (rows : List (Row N))
        → check_insert scalars limits s db ≡ ok (t, rows)
        → (find_table s.table_name db ≡ ok t)
          × (db.stored_rows + length rows ≤ limits.max_rows)
          × (db.stored_bytes + bytes_of scalars rows ≤ limits.max_bytes)
    unfolding check_insert
    check_insert-table t rows h =
        let (u, e, h1) = bind_ok (find_table s.table_name db) _ (t, rows) h in
        let (cs, e2, h2) = bind_ok (insert_columns scalars u.columns s.columns) _ (t, rows) h1 in
        let (rs, e3, h3) =
          bind_ok (prepare_rows scalars u.primary_key u.columns cs s.rows) _ (t, rows) h2 in
        let (x4, e4, h4) =
          bind_ok (assert_primary_key_unique scalars u.primary_key u.primary_index [] rs) _
            (t, rows) h3 in
        let (x5, e5, h5) =
          bind_ok
            (check_capacity limits (db.stored_rows + length rs)
              (db.stored_bytes + bytes_of scalars rs))
            _ (t, rows) h4 in
        let (x6, e6, h6) =
          bind_ok (throw_if (ltb max_safe (u.next_row_id + length rs)) limit_exceeded) _ (t, rows)
            h5 in
        let q = ok_injective h6 in
        let p : rs ≡ rows = ap (λ x. x.1) q in
        let (f, g) =
          check_capacity-within limits (db.stored_rows + length rs)
            (db.stored_bytes + bytes_of scalars rs) x5 e5 in
        (
          e ∙ ap ok (ap (λ x. x.0) q),
          subst (λ x. db.stored_rows + length x ≤ limits.max_rows) p f,
          subst (λ x. db.stored_bytes + bytes_of scalars x ≤ limits.max_bytes) p g,
        )

  module _ (limits : Limits) (s : Update N) (db : Database N) where
    pub check_update-table :
        (t : Table N) (set : List (Text × Value N)) (ps : List (ℕ × Row N))
        → check_update scalars limits s db ≡ ok (t, set, ps)
        → (find_table s.table_name db ≡ ok t)
          × (selected scalars s.condition t ≡ ok ps)
          × (db.stored_bytes
                + bytes_of scalars (map row_of (updates_of scalars set ps))
                - old_bytes scalars t.row_bytes ps
              ≤ limits.max_bytes)
    unfolding check_update
    check_update-table t set ps h =
        let (u, e, h1) = bind_ok (find_table s.table_name db) _ (t, set, ps) h in
        let (x2, e2, h2) =
          bind_ok (validate_condition scalars u.columns s.condition) _ (t, set, ps) h1 in
        let (st, e3, h3) =
          bind_ok (prepare_set scalars u.primary_key u.columns [] s.set) _ (t, set, ps) h2 in
        let (qs, e4, h4) = bind_ok (selected scalars s.condition u) _ (t, set, ps) h3 in
        let (x5, e5, h5) =
          bind_ok
            (assert_changed scalars (changes_key scalars u.primary_key st) u
              (updates_of scalars st qs))
            _ (t, set, ps) h4 in
        let (x6, e6, h6) =
          bind_ok
            (check_capacity limits db.stored_rows (
              db.stored_bytes
              + bytes_of scalars (map row_of (updates_of scalars st qs))
              - old_bytes scalars u.row_bytes qs))
            _ (t, set, ps) h5 in
        let q = ok_injective h6 in
        let p : u ≡ t = ap (λ x. x.0) q in
        (
          e ∙ ap ok p,
          subst (λ x. selected scalars s.condition x ≡ ok ps) p (e4 ∙ ap ok (ap (λ x. x.2) q)),
          subst
              (λ x.
                db.stored_bytes
                  + bytes_of scalars (map row_of (updates_of scalars x.1 x.2))
                  - old_bytes scalars x.0.row_bytes x.2
                ≤ limits.max_bytes)
              q (check_capacity-within limits _ _ x6 e6).1,
        )

  module _ (s : Delete N) (db : Database N) where
    pub check_delete-table :
        (t : Table N) (ps : List (ℕ × Row N))
        → check_delete scalars s db ≡ ok (t, ps)
        → (find_table s.table_name db ≡ ok t) × (selected scalars s.condition t ≡ ok ps)
    unfolding check_delete
    check_delete-table t ps h =
        let (u, e, h1) = bind_ok (find_table s.table_name db) _ (t, ps) h in
        let (x2, e2, h2) =
          bind_ok (validate_condition scalars u.columns s.condition) _ (t, ps) h1 in
        let (qs, e3, h3) = bind_ok (selected scalars s.condition u) _ (t, ps) h2 in
        let q = ok_injective h3 in
        let p : u ≡ t = ap (λ x. x.0) q in
        (
          e ∙ ap ok p,
          subst (λ x. selected scalars s.condition x ≡ ok ps) p (e3 ∙ ap ok (ap (λ x. x.1) q)),
        )
